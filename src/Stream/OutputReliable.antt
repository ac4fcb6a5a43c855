-- ===== src/Stream/OutputReliable.antt =====
-- src/c/core/session/stream/output_reliable_stream.c: messages that are kept until the agent
-- acknowledges them.
pub mod Acknack
pub mod Stale
pub mod Nack
pub mod Flow
use micro_xrce_dds_client.Prelude.{
  ℕ, zero, suc, ◌+◌, ◌-◌, ◌%◌, ◌^◌, Bool, true, false, not, ◌&&◌, Option, none, some, ltb, ◌==◌,
  if◌then◌else◌,
}
use micro_xrce_dds_client.Prelude.Int.{ℤ, pos, ◌+ℤ◌, ltz}
use micro_xrce_dds_client.Prelude.Memory.{Memory}
use micro_xrce_dds_client.SeqNum.{
  Cmp, null, seq_num_max, seq_num_add, seq_num_sub, seq_num_cmp, is_neg, is_nonpos,
}
use micro_xrce_dds_client.Stream.ReliableBuffer.{
  ReliableStream, get_reliable_buffer, get_reliable_buffer_size, set_reliable_buffer_size,
}

pub record OutputReliableStream : Type 0 where
  pub base : ReliableStream
  pub offset : ℕ
  pub last_written : ℕ
  pub last_sent : ℕ
  pub last_acknown : ℕ
  pub next_heartbeat_timestamp : ℤ
  pub next_heartbeat_tries : ℕ
  pub send_lost : Bool

-- INT64_MAX
abbrev pub int64_max : ℤ
int64_max = pos (2 ^ 63 - 1)

-- The loop of `uxr_reset_output_reliable_stream`: the rounds left, and `i`.
unfoldable pub reset_sizes : ℕ → ℕ → ℕ → ReliableStream → ReliableStream
reset_sizes zero i offset base = base
reset_sizes (suc n) i offset base =
    reset_sizes n (i + 1) offset (set_reliable_buffer_size base i offset)

unfoldable pub reset_output_reliable_stream : OutputReliableStream → OutputReliableStream
reset_output_reliable_stream stream = record stream {
  base = reset_sizes stream.base.history 0 stream.offset stream.base;
  last_written = 0;
  last_sent = seq_num_max;
  last_acknown = seq_num_max;
  next_heartbeat_timestamp = int64_max;
  next_heartbeat_tries = 0;
  send_lost = false;
}

unfoldable pub init_output_reliable_stream : Memory → ℕ → ℕ → ℕ → OutputReliableStream
init_output_reliable_stream buffer size history header_offset =
    reset_output_reliable_stream (record {
      base = record { buffer = buffer; size = size; history = history };
      offset = header_offset;
      last_written = 0;
      last_sent = 0;
      last_acknown = 0;
      next_heartbeat_timestamp = pos 0;
      next_heartbeat_tries = 0;
      send_lost = false;
    })

-- `data_to_send`, the offset of the message in the block, its length, its sequence number, and the
-- stream. The first three are assigned whatever the flag.
unfoldable pub prepare_next_reliable_buffer_to_send :
    OutputReliableStream → Bool × ℕ × ℕ × ℕ × OutputReliableStream
prepare_next_reliable_buffer_to_send stream =
    let seq_num = seq_num_add stream.last_sent 1 in
    let buffer = get_reliable_buffer stream.base seq_num in
    let len = get_reliable_buffer_size stream.base seq_num in
    let data_to_send =
      is_nonpos (seq_num_cmp seq_num stream.last_written)
      && ltb stream.offset len
      && not (seq_num_sub stream.last_sent stream.last_acknown == stream.base.history) in
    let sent = record stream {
      last_sent = seq_num;
      last_written =
          if seq_num == stream.last_written
          then seq_num_add stream.last_written 1
          else stream.last_written;
    } in
    (data_to_send, buffer, len, seq_num, if data_to_send then sent else stream)

unfoldable pub cancel_reliable_buffer_to_send : OutputReliableStream → ℕ → OutputReliableStream
cancel_reliable_buffer_to_send stream seq_num =
    let next_seq_num = seq_num_add seq_num 1 in
    record stream {
      last_sent = seq_num_sub seq_num 1;
      last_written =
          if stream.last_written == next_seq_num
            && stream.offset == get_reliable_buffer_size stream.base next_seq_num
          then seq_num
          else stream.last_written;
    }

-- MIN_HEARTBEAT_TIME_INTERVAL is a constant of the build. The timestamps are milliseconds far below
-- the limit of an int64_t.
module _ (min_heartbeat_time_interval : ℤ) where
  unfoldable pub update_output_stream_heartbeat_timestamp :
      OutputReliableStream → ℤ → Bool × OutputReliableStream
  update_output_stream_heartbeat_timestamp stream current_timestamp =
      let timestamp = current_timestamp +ℤ min_heartbeat_time_interval in
      if is_neg (seq_num_cmp stream.last_acknown stream.last_sent)
      then (if stream.next_heartbeat_tries == 0
          then (
            false,
            record stream { next_heartbeat_tries = 1; next_heartbeat_timestamp = timestamp },
          )
          else if not (ltz current_timestamp stream.next_heartbeat_timestamp)
          then (
            true,
            record stream {
              next_heartbeat_tries = (stream.next_heartbeat_tries + 1) % 256;
              next_heartbeat_timestamp = timestamp;
            },
          )
          else (false, record stream { next_heartbeat_timestamp = timestamp }))
      else (false, record stream { next_heartbeat_timestamp = int64_max })

unfoldable pub begin_output_nack_buffer_it : OutputReliableStream → ℕ
begin_output_nack_buffer_it stream = stream.last_acknown

-- The loop of `uxr_next_reliable_nack_buffer_to_send`: `*seq_num_it` and whether it was updated.
-- `none`: the rounds are used up.
unfoldable pub nack_rounds : ℕ → OutputReliableStream → ℕ → Option (Bool × ℕ)
nack_rounds zero stream seq_num_it = none
nack_rounds (suc fuel) stream seq_num_it =
    let next = seq_num_add seq_num_it 1 in
    let rest = nack_rounds fuel stream next in
    if is_nonpos (seq_num_cmp next stream.last_sent)
    then (if get_reliable_buffer_size stream.base next == stream.offset
        then rest
        else some (true, next))
    else some (false, next)

-- `it_updated`, `*seq_num_it`, and the stream. The buffer and the length are those of the slot of
-- `*seq_num_it`.
unfoldable pub next_reliable_nack_buffer_to_send :
    ℕ → OutputReliableStream → ℕ → Option (Bool × ℕ × OutputReliableStream)
next_reliable_nack_buffer_to_send fuel stream seq_num_it =
    let rounds = nack_rounds fuel stream seq_num_it in
    if stream.send_lost
    then elim rounds [
      | none ↦ none
      | some (it_updated, it) ↦
          some (it_updated, it, if it_updated then stream else record stream { send_lost = false })
    ]
    else some (false, seq_num_it, stream)

-- The loop of `uxr_process_acknack`.
unfoldable pub clean_buffers : ℕ → OutputReliableStream → OutputReliableStream
clean_buffers zero stream = stream
clean_buffers (suc n) stream =
    let acked = seq_num_add stream.last_acknown 1 in
    clean_buffers n (record stream {
      last_acknown = acked;
      base = set_reliable_buffer_size stream.base acked stream.offset;
    })

unfoldable pub process_acknack : OutputReliableStream → ℕ → ℕ → OutputReliableStream
process_acknack stream bitmap first_unacked_seq_num =
    let last_acked_seq_num = seq_num_sub first_unacked_seq_num 1 in
    let buffers_to_clean = seq_num_sub last_acked_seq_num stream.last_acknown in
    record (clean_buffers buffers_to_clean stream) {
      send_lost = ltb 0 bitmap;
      next_heartbeat_tries = 0;
    }

abbrev is_null : Cmp → Bool
is_null null = true
is_null _ = false

unfoldable pub is_output_up_to_date : OutputReliableStream → Bool
is_output_up_to_date stream = is_null (seq_num_cmp stream.last_acknown stream.last_sent)

-- The loop of `get_available_free_slots`.
unfoldable pub free_slots_from : ℕ → ℕ → OutputReliableStream → ℕ → ℕ
free_slots_from zero i stream free_slots = free_slots
free_slots_from (suc n) i stream free_slots = free_slots_from n (i + 1) stream (
    if get_reliable_buffer_size stream.base i == stream.offset
    then (free_slots + 1) % 2 ^ 16
    else free_slots)

unfoldable pub get_available_free_slots : OutputReliableStream → ℕ
get_available_free_slots stream = free_slots_from stream.base.history 0 stream 0
