-- ===== src/Framing/Write.antt =====
-- uxr_framing_write_transport and uxr_write_framed_msg.
pub mod Transport
pub mod Loop
pub mod Frame
use micro_xrce_dds_client.Prelude.{
  ℕ, zero, suc, ◌+◌, ◌-◌, ◌*◌, ◌/◌, ◌%◌, ◌^◌, Bool, true, false, ◌&&◌, Option, none, some, List, [],
  ◌∷◌, length, take, drop, set, ltb, ◌==◌, if◌then◌else◌, ◌>>=◌,
}
use micro_xrce_dds_client.Framing.{FramingIo, framing_begin_flag}
use micro_xrce_dds_client.Framing.Crc.{update_crc}
use micro_xrce_dds_client.Framing.Octets.{add_next_octet}

-- The begin flag and the four octets of the header.
unfoldable pub start_frame : FramingIo → ℕ → ℕ → FramingIo
start_frame io len remote_addr =
    let io0 = record io { wb = set io.wb 0 framing_begin_flag; wb_pos = 1 } in
    let io1 = (add_next_octet io0 io0.local_addr).1 in
    let io2 = (add_next_octet io1 remote_addr).1 in
    let io3 = (add_next_octet io2 (len % 2 ^ 8)).1 in (add_next_octet io3 (len / 2 ^ 8 % 2 ^ 8)).1

-- `W` is the state of the transport behind `cb_arg`, with the last `*errcode`; `write_cb` is offered
-- bytes and returns how many it took.
module _ {W : Type 0} (write_cb : W → List ℕ → ℕ × W) where
  -- The do-while loop, with `bytes_written` and a bound on the rounds. `none`: rounds used up.
  unfoldable pub write_rounds : ℕ → FramingIo → W → ℕ → Option (ℕ × W)
  write_rounds zero io w bytes_written = none
  write_rounds (suc fuel) io w bytes_written =
      let (last_written, w') =
        write_cb w (take (io.wb_pos - bytes_written) (drop bytes_written io.wb)) in
      let total = (bytes_written + last_written) % 2 ^ 64 in
      let more = write_rounds fuel io w' total in
      if ltb total io.wb_pos && ltb 0 last_written then more else some (total, w')

  unfoldable pub write_transport : FramingIo → W → Option (Bool × FramingIo × W)
  write_transport io w = do
    (bytes_written, w') ← write_rounds (suc io.wb_pos) io w 0
    (if bytes_written == io.wb_pos
        then some (true, record io { wb_pos = 0 }, w')
        else some (false, io, w'))

  -- The loop over the payload, and the one over the two octets of the CRC: the octets left, and
  -- the running CRC. The flag is `cond`. `none`: rounds used up.
  unfoldable pub write_octets : ℕ → FramingIo → W → ℕ → List ℕ → Option (Bool × ℕ × FramingIo × W)
  write_octets fuel io w crc [] = some (true, crc, io, w)
  write_octets zero io w crc (octet ∷ octets) = none
  write_octets (suc fuel) io w crc (octet ∷ octets) =
      let (added, io') = add_next_octet io octet in
      let next = write_octets fuel io' w (update_crc crc octet) octets in
      let retry = write_transport io w >>= λ (cond, io'', w'). elim cond [
        | true ↦ write_octets fuel io'' w' crc (octet ∷ octets)
        | false ↦ some (false, crc, io'', w')
      ] in
      if added then next else retry

  -- `while (... && cond)`: not entered where `cond` is false.
  unfoldable pub write_octets_if :
      Bool → ℕ → FramingIo → W → ℕ → List ℕ → Option (Bool × ℕ × FramingIo × W)
  write_octets_if cond fuel io w crc octets =
      if cond then write_octets fuel io w crc octets else some (false, crc, io, w)

  unfoldable pub flush_if : Bool → FramingIo → W → Option (Bool × FramingIo × W)
  flush_if cond io w = if cond && ltb 0 io.wb_pos then write_transport io w else some (cond, io, w)

  -- Two rounds are enough for each octet: one that flushes and one that adds.
  unfoldable pub write_framed_msg : FramingIo → W → List ℕ → ℕ → Option (ℕ × FramingIo × W)
  write_framed_msg io w buf remote_addr = do
    let len = length buf
    (cond1, crc, io1, w1) ← write_octets (2 * len) (start_frame io len remote_addr) w 0 buf
    (cond2, _, io2, w2) ←
        write_octets_if cond1 4 io1 w1 crc (crc % 2 ^ 8 ∷ crc / 2 ^ 8 % 2 ^ 8 ∷ [])
    (cond3, io3, w3) ← flush_if cond2 io2 w2
    some (if cond3 then len % 2 ^ 16 else 0, io3, w3)
