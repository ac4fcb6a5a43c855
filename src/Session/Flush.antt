-- ===== src/Session/Flush.antt =====
-- core/session/session.c: the part of `uxr_flash_output_streams` that sends what the reliable output
-- streams hold.
pub mod Drained
use micro_xrce_dds_client.Prelude.{
  ℕ, zero, suc, ◌+◌, Bool, Option, none, some, ◌>>=◌, List, [], ◌∷◌, if◌then◌else◌, ltb,
}
use micro_xrce_dds_client.Prelude.Memory.{Memory, memcpy, read_bytes}
use micro_xrce_dds_client.StreamId.{StreamId, reliable_stream, output_stream, stream_id}
use micro_xrce_dds_client.Stream.OutputReliable.{
  OutputReliableStream, prepare_next_reliable_buffer_to_send, cancel_reliable_buffer_to_send,
}
use micro_xrce_dds_client.Session.Info.{SessionInfo, stamp_session_header, max_header_size}
use micro_xrce_dds_client.Xrce.Cdr.{MicroCdr}

-- `uxrCommunication`: sending over an instance with the state `W`.
pub record Communication (W : Type 0) : Type 0 where
  pub send_msg : W → List ℕ → Bool × W

module _ (B : Type 0) ⦃cdr : MicroCdr B⦄ where
  -- The header is written in place, at the front of the message.
  unfoldable pub stamp : SessionInfo → ℕ → ℕ → Memory → ℕ → Memory
  stamp info raw seq_num memory buffer = memcpy memory buffer (
      cdr.octets (
        stamp_session_header info raw seq_num
          (cdr.init_buffer (read_bytes memory buffer max_header_size))))

  module _ {W : Type 0} (comm : Communication W) (info : SessionInfo) where
    -- The loop for one stream. `none`: the rounds are used up.
    unfoldable pub send_messages :
        ℕ → ℕ → OutputReliableStream → W → Option (OutputReliableStream × W)
    send_messages zero raw stream w = none
    send_messages (suc fuel) raw stream w =
        let (data_to_send, buffer, length, seq_num, stream') =
          prepare_next_reliable_buffer_to_send stream in
        let stamped = record stream' {
          base = record stream'.base { buffer = stamp info raw seq_num stream'.base.buffer buffer };
        } in
        let (sent, w') = comm.send_msg w (read_bytes stamped.base.buffer buffer length) in
        let rest = send_messages fuel raw stamped w' in
        if data_to_send
        then (if sent then rest else some (cancel_reliable_buffer_to_send stamped seq_num, w'))
        else some (stream, w)

    -- The loop over the streams in use, from `i` on.
    unfoldable pub flash_reliable_streams :
        ℕ → ℕ → ℕ → List OutputReliableStream → W → Option (List OutputReliableStream × W)
    flash_reliable_streams fuel size i [] w = some ([], w)
    flash_reliable_streams fuel size i (stream ∷ streams) w =
        let raw = (stream_id 0 i reliable_stream output_stream).raw in
        let flashed = do
          (stream', w') ← send_messages fuel raw stream w
          (streams', w'') ← flash_reliable_streams fuel size (i + 1) streams w'
          some (stream' ∷ streams', w'')
        in if ltb i size then flashed else some (stream ∷ streams, w)
