-- ===== src/Stream/ReliableBuffer.antt =====
-- src/c/core/session/stream/common_reliable_stream_internal.h: a block of memory divided into
-- `history` slots. A slot holds a length of four bytes and a message. A sequence number uses the slot
-- of its remainder by `history`.
pub mod Slots
pub mod Store
use micro_xrce_dds_client.Prelude.{ℕ, ◌+◌, ◌-◌, ◌*◌, ◌/◌, ◌%◌, ◌^◌}
use micro_xrce_dds_client.Prelude.Memory.{Memory, read_u32, write_u32}

-- `uxrReliableStream`. `buffer` is the memory behind the pointer.
pub record ReliableStream : Type 0 where
  pub buffer : Memory
  pub size : ℕ
  pub history : ℕ

-- INTERNAL_RELIABLE_BUFFER_OFFSET
abbrev pub internal_reliable_buffer_offset : ℕ
internal_reliable_buffer_offset = 4

-- Pointers into the block are offsets from `buffer`.
abbrev pub get_reliable_buffer : ReliableStream → ℕ → ℕ
get_reliable_buffer stream seq_num =
    seq_num % stream.history * (stream.size / stream.history) + internal_reliable_buffer_offset

unfoldable pub get_reliable_buffer_capacity : ReliableStream → ℕ
get_reliable_buffer_capacity stream =
    (stream.size / stream.history + 2 ^ 64 - internal_reliable_buffer_offset) % 2 ^ 64

unfoldable pub get_reliable_buffer_history_position : ReliableStream → ℕ → ℕ
get_reliable_buffer_history_position stream position =
    position / (stream.size / stream.history) % 2 ^ 16

unfoldable pub get_reliable_buffer_size : ReliableStream → ℕ → ℕ
get_reliable_buffer_size stream seq_num =
    read_u32 stream.buffer
      (get_reliable_buffer stream (seq_num % stream.history) - internal_reliable_buffer_offset)

unfoldable pub set_reliable_buffer_size : ReliableStream → ℕ → ℕ → ReliableStream
set_reliable_buffer_size stream seq_num len = record stream {
  buffer =
      write_u32 stream.buffer
        (get_reliable_buffer stream (seq_num % stream.history) - internal_reliable_buffer_offset)
        (len % 2 ^ 32);
}
