-- ===== src/Stream/BestEffort.antt =====
-- src/c/core/session/stream/input_best_effort_stream.c and output_best_effort_stream.c: streams that
-- may lose messages and never reorder them.
pub mod Input
pub mod Output
mod Tests
use micro_xrce_dds_client.Prelude.{
  ℕ, ◌+◌, ◌-◌, ◌%◌, ◌^◌, Bool, true, false, Option, none, some, leb, ltb, ◌==◌, if◌then◌else◌,
}
use micro_xrce_dds_client.SeqNum.{seq_num_max, seq_num_add, seq_num_cmp, is_neg}

pub record InputBestEffortStream : Type 0 where
  pub last_handled : ℕ

unfoldable pub reset_input_best_effort_stream : InputBestEffortStream → InputBestEffortStream
reset_input_best_effort_stream stream = record stream { last_handled = seq_num_max }

unfoldable pub init_input_best_effort_stream : InputBestEffortStream → InputBestEffortStream
init_input_best_effort_stream stream = record stream { last_handled = seq_num_max }

unfoldable pub receive_best_effort_message :
    InputBestEffortStream → ℕ → Bool × InputBestEffortStream
receive_best_effort_message stream seq_num =
    if is_neg (seq_num_cmp stream.last_handled seq_num)
    then (true, record stream { last_handled = seq_num })
    else (false, stream)

-- src/c/core/session/submessage.c: the padding up to a multiple of SUBHEADER_SIZE.
unfoldable pub submessage_padding : ℕ → ℕ
submessage_padding len = if len % 4 == 0 then 0 else 4 - len % 4

-- `uxrOutputBestEffortStream`; the bytes of its buffer are written by the serialization only.
pub record OutputBestEffortStream : Type 0 where
  pub size : ℕ
  pub offset : ℕ
  pub writer : ℕ
  pub last_send : ℕ

-- The arguments of `ucdr_init_buffer_origin_offset` behind the buffer: size, origin and offset.
pub record BufferRegion : Type 0 where
  pub size : ℕ
  pub origin : ℕ
  pub offset : ℕ

unfoldable pub reset_output_best_effort_stream : OutputBestEffortStream → OutputBestEffortStream
reset_output_best_effort_stream stream = record stream {
  writer = stream.offset;
  last_send = seq_num_max;
}

unfoldable pub init_output_best_effort_stream :
    OutputBestEffortStream → ℕ → ℕ → OutputBestEffortStream
init_output_best_effort_stream stream size offset =
    reset_output_best_effort_stream (record stream { offset = offset; size = size })

-- The returned flag, the region that is initialised if it is true, and the stream.
unfoldable pub prepare_best_effort_buffer_to_write :
    OutputBestEffortStream → ℕ → Bool × Option BufferRegion × OutputBestEffortStream
prepare_best_effort_buffer_to_write stream size =
    let current_padding = submessage_padding stream.writer in
    let future_length = (stream.writer + current_padding + size) % 2 ^ 64 in
    if leb future_length stream.size
    then (
      true,
      some (record {
        size = future_length % 2 ^ 32;
        origin = 0;
        offset = (stream.writer + current_padding) % 2 ^ 32;
      }),
      record stream { writer = (stream.writer + size) % 2 ^ 64 },
    )
    else (false, none, stream)

-- The length and the sequence number of the message to send, if there is one, and the stream.
unfoldable pub prepare_best_effort_buffer_to_send :
    OutputBestEffortStream → Option (ℕ × ℕ) × OutputBestEffortStream
prepare_best_effort_buffer_to_send stream =
    if ltb stream.offset stream.writer
    then (
      some (stream.writer, seq_num_add stream.last_send 1),
      record stream { last_send = seq_num_add stream.last_send 1; writer = stream.offset },
    )
    else (none, stream)
