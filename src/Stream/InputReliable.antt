-- ===== src/Stream/InputReliable.antt =====
-- src/c/core/session/stream/input_reliable_stream.c: the messages of the agent, put in order.
pub mod Window
pub mod Reorder
pub mod Duplicate
pub mod Hang
use micro_xrce_dds_client.Prelude.{
  ℕ, zero, suc, ◌+◌, ◌-◌, ◌%◌, ◌^◌, Bool, true, false, not, ◌&&◌, Option, none, some, List, get_or,
  length, ltb, ◌==◌, if◌then◌else◌, ◌>>=◌, bit_or,
}
use micro_xrce_dds_client.Prelude.Memory.{Memory, memcpy, at_offset}
use micro_xrce_dds_client.SeqNum.{
  seq_num_max, seq_num_add, seq_num_sub, seq_num_cmp, is_neg, is_nonneg,
}
use micro_xrce_dds_client.Stream.ReliableBuffer.{
  ReliableStream, get_reliable_buffer, get_reliable_buffer_size, set_reliable_buffer_size,
  get_reliable_buffer_history_position,
}

pub data FragmentationInfo : Type 0 where
  no_fragmented intermediate_fragment last_fragment : FragmentationInfo

abbrev pub is_no_fragmented : FragmentationInfo → Bool
is_no_fragmented no_fragmented = true
is_no_fragmented _ = false

abbrev pub is_intermediate : FragmentationInfo → Bool
is_intermediate intermediate_fragment = true
is_intermediate _ = false

abbrev pub is_last : FragmentationInfo → Bool
is_last last_fragment = true
is_last _ = false

-- `uxrInputReliableStream`. The callback reads a submessage header through the pointer it is given.
pub record InputReliableStream : Type 0 where
  pub base : ReliableStream
  pub last_handled : ℕ
  pub last_announced : ℕ
  pub on_get_fragmentation_info : Memory → FragmentationInfo
  pub cleanup_flag : Bool

-- `ucdr_init_buffer`: the offset of the first byte, the size, and whether the callback for a full
-- buffer is set.
pub record BufferInit : Type 0 where
  pub start : ℕ
  pub size : ℕ
  pub on_full_buffer : Bool

abbrev pub subheader_size : ℕ
subheader_size = 4

-- The loop of `uxr_reset_input_reliable_stream`: the rounds left, and `i`.
unfoldable pub reset_sizes : ℕ → ℕ → ReliableStream → ReliableStream
reset_sizes zero i base = base
reset_sizes (suc n) i base = reset_sizes n (i + 1) (set_reliable_buffer_size base i 0)

unfoldable pub reset_input_reliable_stream : InputReliableStream → InputReliableStream
reset_input_reliable_stream stream = record stream {
  base = reset_sizes stream.base.history 0 stream.base;
  last_handled = seq_num_max;
  last_announced = seq_num_max;
}

unfoldable pub init_input_reliable_stream :
    Memory → ℕ → ℕ → (Memory → FragmentationInfo) → InputReliableStream
init_input_reliable_stream buffer size history on_get_fragmentation_info =
    reset_input_reliable_stream (record {
      base = record { buffer = buffer; size = size; history = history };
      last_handled = 0;
      last_announced = 0;
      on_get_fragmentation_info = on_get_fragmentation_info;
      cleanup_flag = false;
    })

-- The fragmentation of the message that the slot of `seq_num` holds.
abbrev pub fragmentation_at : InputReliableStream → ℕ → FragmentationInfo
fragmentation_at stream seq_num =
    stream.on_get_fragmentation_info
      (at_offset stream.base.buffer (get_reliable_buffer stream.base seq_num))

-- The loop of `check_last_fragment` from `next` on: `found` and `*last_fragment`. `none`: the rounds
-- are used up.
unfoldable pub check_from : ℕ → InputReliableStream → ℕ → Option (Bool × ℕ)
check_from zero stream next = none
check_from (suc fuel) stream next =
    let next' = seq_num_add next 1 in
    let info = fragmentation_at stream next' in
    let rest = check_from fuel stream next' in
    if get_reliable_buffer_size stream.base next' == 0
    then some (false, next')
    else if is_last info
    then some (true, next')
    else if is_intermediate info
    then rest
    else some (false, next')

unfoldable pub check_last_fragment : ℕ → InputReliableStream → Option (Bool × ℕ)
check_last_fragment fuel stream = check_from fuel stream stream.last_handled

-- A message is the bytes from `buffer` on, `length` of them. The results are `ready_to_read`, what is
-- assigned to `*message_stored`, if anything, and the stream.
unfoldable pub process_message :
    ℕ → InputReliableStream → ℕ → List ℕ → Option (Bool × Option Bool × InputReliableStream)
process_message fuel stream seq_num message =
    let fragmentation_info = stream.on_get_fragmentation_info (λ i. get_or message i 0) in
    let next = seq_num_add stream.last_handled 1 in
    let filled = record stream.base {
      buffer = memcpy stream.base.buffer (get_reliable_buffer stream.base seq_num) message;
    } in
    let stored = record stream {
      base = set_reliable_buffer_size filled seq_num (length message);
    } in
    let checked =
      check_last_fragment fuel stored >>= λ (found, _). some (found, some true, stored) in
    if is_no_fragmented fragmentation_info && seq_num == next
    then some (true, some false, record stream { last_handled = next })
    else if get_reliable_buffer_size stream.base seq_num == 0
    then (if is_no_fragmented fragmentation_info then some (false, some true, stored) else checked)
    else some (false, none, stream)

-- `uxr_seq_num_cmp` on both ends of the window.
abbrev pub in_window : InputReliableStream → ℕ → Bool
in_window stream seq_num =
    is_neg (seq_num_cmp stream.last_handled seq_num)
    && is_nonneg (seq_num_cmp (seq_num_add stream.last_handled stream.base.history) seq_num)

abbrev pub announce : ℕ → InputReliableStream → InputReliableStream
announce seq_num stream =
    if is_neg (seq_num_cmp stream.last_announced seq_num)
    then record stream { last_announced = seq_num }
    else stream

unfoldable pub receive_reliable_message :
    ℕ → InputReliableStream → ℕ → List ℕ → Option (Bool × Option Bool × InputReliableStream)
receive_reliable_message fuel stream seq_num message = do
  (ready_to_read, message_stored, stream') ←
      (if in_window stream seq_num
        then process_message fuel stream seq_num message
        else some (false, none, stream))
  some (ready_to_read, message_stored, announce seq_num stream')

-- `available_to_read`, the buffer that is initialised if so, and the stream.
unfoldable pub next_input_reliable_buffer_available :
    ℕ → InputReliableStream → ℕ → Option (Bool × Option BufferInit × InputReliableStream)
next_input_reliable_buffer_available fuel stream fragment_offset =
    let next = seq_num_add stream.last_handled 1 in
    let internal_buffer = get_reliable_buffer stream.base next in
    let len = get_reliable_buffer_size stream.base next in
    let cleared = set_reliable_buffer_size stream.base next 0 in
    let whole : BufferInit = record {
      start = internal_buffer;
      size = len % 2 ^ 32;
      on_full_buffer = false;
    } in
    let fragments : BufferInit = record {
      start = internal_buffer + fragment_offset;
      size = (len + 2 ^ 64 - fragment_offset) % 2 ^ 32;
      on_full_buffer = true;
    } in
    let checked = check_last_fragment fuel stream >>= λ (found, last). some (
      if found
      then (true, some fragments, record stream { base = cleared; last_handled = last })
      else (false, none, stream)) in
    if len == 0
    then some (false, none, stream)
    else if is_no_fragmented (fragmentation_at stream next)
    then some (true, some whole, record stream { base = cleared; last_handled = next })
    else checked

-- The first sequence number is not looked at.
unfoldable pub process_heartbeat : InputReliableStream → ℕ → ℕ → InputReliableStream
process_heartbeat stream first_seq_num last_seq_num = announce last_seq_num stream

unfoldable pub is_input_up_to_date : InputReliableStream → Bool
is_input_up_to_date stream = stream.last_announced == stream.last_handled

-- The loop of `uxr_get_first_unacked`: the rounds left, and `i`.
unfoldable pub first_unacked_from : ℕ → ℕ → InputReliableStream → ℕ
first_unacked_from zero i stream = stream.last_handled
first_unacked_from (suc n) i stream =
    let seq_num = seq_num_add stream.last_handled ((i + 1) % 2 ^ 16) in
    let rest = first_unacked_from n (i + 1) stream in
    if get_reliable_buffer_size stream.base seq_num == 0 then seq_num else rest

unfoldable pub get_first_unacked : InputReliableStream → ℕ
get_first_unacked stream = first_unacked_from stream.base.history 0 stream

-- The loop of `uxr_compute_acknack`. C leaves `1 << i` undefined from i = 31 on.
unfoldable pub nack_from : ℕ → ℕ → ℕ → InputReliableStream → ℕ → ℕ
nack_from zero i from stream nack_bitmap = nack_bitmap
nack_from (suc n) i from stream nack_bitmap = nack_from n (i + 1) from stream (
    if get_reliable_buffer_size stream.base (seq_num_add from (i % 2 ^ 16)) == 0
    then bit_or nack_bitmap (2 ^ i) % 2 ^ 16
    else nack_bitmap)

-- The bitmap, and `*from`.
unfoldable pub compute_acknack : InputReliableStream → ℕ × ℕ
compute_acknack stream =
    let from = get_first_unacked stream in
    let buffers_to_ack = seq_num_sub stream.last_announced (seq_num_sub from 1) in
    (nack_from buffers_to_ack 0 from stream 0, from)

-- The callback for a full buffer: `ub->init` is an offset into the block. The results are the
-- returned error flag, the new buffer if there is one, and the stream.
unfoldable pub on_full_input_buffer :
    InputReliableStream → ℕ → Bool × Option BufferInit × InputReliableStream
on_full_input_buffer stream init =
    let history_position = (1 + get_reliable_buffer_history_position stream.base init) % 2 ^ 16 in
    let buffer = get_reliable_buffer stream.base history_position in
    let buffer_size = get_reliable_buffer_size stream.base history_position in
    let stream' =
      if stream.cleanup_flag
      then record stream { base = set_reliable_buffer_size stream.base history_position 0 }
      else stream in
    if ltb buffer_size subheader_size then (true, none, stream') else (
      false,
      some (record {
        start = buffer + subheader_size;
        size = (buffer_size - subheader_size) % 2 ^ 32;
        on_full_buffer = true;
      }),
      stream',
    )
