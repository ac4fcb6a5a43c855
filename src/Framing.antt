-- ===== src/Framing.antt =====
-- src/c/profile/transport/stream_framing/stream_framing_protocol.c and
-- include/uxr/client/profile/transport/stream_framing/stream_framing_protocol.h: messages over a
-- byte stream. Each octet of a frame but the first is escaped, and a CRC-16 ends the frame.
pub mod Crc
pub mod Octets
pub mod Write
pub mod Ring
pub mod Read
mod Tests
use micro_xrce_dds_client.Prelude.{ℕ, List, ◌≡◌, ◌≤◌, ◌<◌, length}

pub data FramingInputState : Type 0 where
  uninitialized : FramingInputState
  reading_src_addr : FramingInputState
  reading_dst_addr : FramingInputState
  reading_len_lsb : FramingInputState
  reading_len_msb : FramingInputState
  reading_payload : FramingInputState
  reading_crc_lsb : FramingInputState
  reading_crc_msb : FramingInputState

-- `rb` and `wb` are the two arrays of 42 bytes.
pub record FramingIo : Type 0 where
  pub state : FramingInputState
  pub local_addr : ℕ
  pub rb : List ℕ
  pub rb_head : ℕ
  pub rb_tail : ℕ
  pub src_addr : ℕ
  pub msg_len : ℕ
  pub msg_pos : ℕ
  pub msg_crc : ℕ
  pub cmp_crc : ℕ
  pub wb : List ℕ
  pub wb_pos : ℕ

-- `sizeof(framing_io->rb)` and `sizeof(framing_io->wb)`.
abbrev pub buffer_size : ℕ
buffer_size = 42

abbrev pub framing_begin_flag : ℕ
framing_begin_flag = 0x7e

abbrev pub framing_esc_flag : ℕ
framing_esc_flag = 0x7d

abbrev pub framing_xor_flag : ℕ
framing_xor_flag = 0x20

-- The remaining fields keep what the memory held.
unfoldable pub init_framing_io : FramingIo → ℕ → FramingIo
init_framing_io io local_addr = record io {
  local_addr = local_addr;
  state = uninitialized;
  rb_head = 0;
  rb_tail = 0;
}

-- Every index into the two arrays is in range.
pub record IsValid (io : FramingIo) : Type 0 where
  pub rb_len : length io.rb ≡ buffer_size
  pub wb_len : length io.wb ≡ buffer_size
  pub head_in : io.rb_head < buffer_size
  pub tail_in : io.rb_tail < buffer_size
  pub pos_in : io.wb_pos ≤ buffer_size
