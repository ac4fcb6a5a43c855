-- ===== src/Session/Submessage.antt =====
-- core/session/submessage.c: the header of a submessage, aligned to 4 octets.
use micro_xrce_dds_client.Prelude.{
  ℕ, ◌%◌, ◌^◌, ◌-◌, Bool, not, Option, none, some, if◌then◌else◌, leb, ◌==◌, bit_and, bit_or,
}
use micro_xrce_dds_client.Stream.InputReliable.{subheader_size}
use micro_xrce_dds_client.Session.Header.{
  SubmessageHeader, serialize_submessage_header, deserialize_submessage_header,
}
use micro_xrce_dds_client.Xrce.Cdr.{MicroCdr}

abbrev pub flag_endianness : ℕ
flag_endianness = 0x01

-- Micro-CDR's `UCDR_LITTLE_ENDIANNESS` is 1.
abbrev pub endianness_bit : Bool → ℕ
endianness_bit little = if little then 1 else 0

module _ {B : Type 0} ⦃cdr : MicroCdr B⦄ where
  -- The result says if the payload fits behind the header.
  unfoldable pub buffer_submessage_header : ℕ → ℕ → ℕ → B → Bool × B
  buffer_submessage_header submessage_id length flags b =
      let b' = cdr.set_endianness cdr.machine_endianness (cdr.align_to 4 b) in
      let flags' = bit_or flags (endianness_bit cdr.machine_endianness) % 2 ^ 8 in
      let ub = (serialize_submessage_header submessage_id flags' length b').2 in
      (leb length (cdr.buffer_remaining ub), ub)

  -- `none` if there are too few octets left for a header; the outputs are not written then.
  unfoldable pub read_submessage_header : B → Option SubmessageHeader × B
  read_submessage_header b =
      let b' = cdr.align_to 4 b in
      let (_, header, ub) = deserialize_submessage_header b' in
      let little = bit_and header.flags flag_endianness in
      if leb subheader_size (cdr.buffer_remaining b')
      then (
        some (record header { flags = header.flags - little }),
        cdr.set_endianness (not (little == 0)) ub,
      )
      else (none, b')
