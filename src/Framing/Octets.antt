-- ===== src/Framing/Octets.antt =====
-- uxr_get_next_octet and uxr_add_next_octet: escaped octets in the ring `rb` and the buffer `wb`.
pub mod Laws
use micro_xrce_dds_client.Prelude.{
  ℕ, ◌+◌, ◌%◌, Bool, true, false, not, ◌||◌, get_or, set, ltb, ◌==◌, if◌then◌else◌, bit_xor,
}
use micro_xrce_dds_client.Framing.{
  FramingIo, buffer_size, framing_begin_flag, framing_esc_flag, framing_xor_flag,
}

-- The returned flag, the value of `*octet`, and the new state.
unfoldable pub get_next_octet : FramingIo → Bool × ℕ × FramingIo
get_next_octet io =
    if io.rb_head == io.rb_tail
    then (false, 0, io)
    else if not (here == framing_esc_flag)
    then (not (here == framing_begin_flag), here, record io { rb_tail = temp_tail })
    else if temp_tail == io.rb_head
    then (false, 0, io)
    else if escaped == framing_begin_flag
    then (false, escaped, record io { rb_tail = (io.rb_tail + 2) % buffer_size })
    else (
      true,
      bit_xor escaped framing_xor_flag,
      record io { rb_tail = (io.rb_tail + 2) % buffer_size },
    )
  where
    here : ℕ
    here = get_or io.rb io.rb_tail 0

    temp_tail : ℕ
    temp_tail = (io.rb_tail + 1) % buffer_size

    escaped : ℕ
    escaped = get_or io.rb temp_tail 0

unfoldable pub add_next_octet : FramingIo → ℕ → Bool × FramingIo
add_next_octet io octet =
    if octet == framing_begin_flag || octet == framing_esc_flag
    then (if ltb ((io.wb_pos + 1) % 256) buffer_size
        then (
          true,
          record io {
            wb =
                set (set io.wb io.wb_pos framing_esc_flag) (io.wb_pos + 1)
                  (bit_xor octet framing_xor_flag);
            wb_pos = (io.wb_pos + 2) % 256;
          },
        )
        else (false, io))
    else if ltb io.wb_pos buffer_size
    then (true, record io { wb = set io.wb io.wb_pos octet; wb_pos = (io.wb_pos + 1) % 256 })
    else (false, io)
