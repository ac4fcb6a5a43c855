-- ===== src/Stream/BestEffort/Output.antt =====
-- Where an output best-effort stream puts the messages of a packet.
use micro_xrce_dds_client.Prelude.{
  ℕ, ◌+◌, ◌%◌, ◌^◌, ◌≤◌, ◌<◌, ◌≡◌, ◌≢◌, ◌↔◌, refl, arith, true, false, none, some, leb,
}
use native.Mathlib.Decide.{dec_lt}
use micro_xrce_dds_client.SeqNum.{seq_num_add}
use micro_xrce_dds_client.Stream.BestEffort.{
  OutputBestEffortStream, submessage_padding, prepare_best_effort_buffer_to_write,
  prepare_best_effort_buffer_to_send,
}

-- The padding reaches the next multiple of 4, and no further.
pub submessage_padding_lem :
    (len : ℕ) → ((len + submessage_padding len) % 4 ≡ 0) × (submessage_padding len < 4)
unfolding submessage_padding
submessage_padding_lem len = ground arith

-- The writer stands on a multiple of 4, behind the header and in the buffer.
pub record IsOutput (stream : OutputBestEffortStream) : Type 0 where
  pub behind : stream.offset ≤ stream.writer
  pub inside : stream.writer ≤ stream.size
  pub fits : stream.size < 2 ^ 32
  pub aligned : stream.writer % 4 ≡ 0

module _ (stream : OutputBestEffortStream) (size : ℕ) (v : IsOutput stream)
    (hs : size % 4 ≡ 0) where
  room_for :
      stream.writer + size ≤ stream.size
      → prepare_best_effort_buffer_to_write stream size ≡ (
        true,
        some (record { size = stream.writer + size; origin = 0; offset = stream.writer }),
        record stream { writer = stream.writer + size },
      )
  unfolding prepare_best_effort_buffer_to_write
  room_for h =
      let padding : submessage_padding stream.writer ≡ 0 =
        unfold submessage_padding in ground (arith, v.aligned) in
      let long : (stream.writer + 0 + size) % 2 ^ 64 ≡ stream.writer + size =
        omega (arith, v.fits, h) in
      let length : (stream.writer + size) % 2 ^ 32 ≡ stream.writer + size =
        omega (arith, v.fits, h) in
      let start : (stream.writer + 0) % 2 ^ 32 ≡ stream.writer = omega (arith, v.fits, h) in
      let writer : (stream.writer + size) % 2 ^ 64 ≡ stream.writer + size =
        omega (arith, v.fits, h) in
      let fits_in : leb (stream.writer + size) stream.size ≡ true = ground arith in
      rw (padding, long, fits_in, length, start, writer) refl

  no_room :
      size < 2 ^ 32
      → stream.size < stream.writer + size
      → prepare_best_effort_buffer_to_write stream size ≡ (false, none, stream)
  unfolding prepare_best_effort_buffer_to_write
  no_room hl h =
      let padding : submessage_padding stream.writer ≡ 0 =
        unfold submessage_padding in ground (arith, v.aligned) in
      let long : leb ((stream.writer + 0 + size) % 2 ^ 64) stream.size ≡ false =
        ground (arith, v.fits, v.inside) in
      rw (padding, long)

  -- A message whose size is a multiple of 4 gets the bytes right behind the last one, if they are all
  -- in the buffer; else there is no region, and nothing changes. The writer stands on a multiple of 4 in
  -- the buffer, behind the header, and it does so afterwards. Sizes are less than 2 ^ 32.
  pub prepare_to_write_lem :
      size < 2 ^ 32
      → let (available, region, stream') = prepare_best_effort_buffer_to_write stream size in
        IsOutput stream'
        × ((available ≡ true) ↔ (stream.writer + size ≤ stream.size))
        × (available ≡ true
            → (region
                ≡ some (record { size = stream.writer + size; origin = 0; offset = stream.writer }))
              × (stream' ≡ record stream { writer = stream.writer + size }))
        × (available ≡ false → (region ≡ none) × (stream' ≡ stream))
  prepare_to_write_lem hl = elim (dec_lt stream.size (stream.writer + size)) [
    | yes lt ↦ rw (no_room hl lt) (v, ground arith, λ yes. absurd (ground arith), λ _. (refl, refl))
    | no ge ↦
        let h : stream.writer + size ≤ stream.size = omega (arith, ge) in
        let v' : IsOutput (record stream { writer = stream.writer + size }) = record {
          behind = omega (arith, v.behind);
          inside = h;
          fits = v.fits;
          aligned = omega (arith, v.aligned, hs);
        } in
        rw (room_for h) (v', ground arith, λ _. (refl, refl), λ no. absurd (ground arith))
  ]

-- Sending takes all bytes up to the writer, with the next number, if there are any behind the header;
-- then the buffer is empty, and a second send takes nothing. The writer stands behind the header.
pub prepare_to_send_lem :
    (stream : OutputBestEffortStream)
    → IsOutput stream
    → let (packet, stream') = prepare_best_effort_buffer_to_send stream in
      (stream.writer ≡ stream.offset → (packet ≡ none) × (stream' ≡ stream))
      × (stream.writer ≢ stream.offset
          → (packet ≡ some (stream.writer, seq_num_add stream.last_send 1))
            × (stream'.last_send ≡ seq_num_add stream.last_send 1))
      × (stream'.writer ≡ stream.offset)
      × (prepare_best_effort_buffer_to_send stream' ≡ (none, stream'))
unfolding prepare_best_effort_buffer_to_send
prepare_to_send_lem stream v = ground arith
