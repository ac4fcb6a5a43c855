-- ===== src/Tcp/Send.antt =====
-- send_tcp_msg.
pub mod Frame
pub mod Divided
pub mod Progress
use micro_xrce_dds_client.Prelude.{
  ℕ, zero, suc, ◌+◌, ◌-◌, ◌/◌, ◌%◌, ◌^◌, Bool, true, false, List, [], ◌∷◌, length, drop, ltb, ◌==◌,
  if◌then◌else◌,
}
use micro_xrce_dds_client.Tcp.{TcpPlatform, TcpTransport}

-- UXR_MAX_WRITE_TCP_ATTEMPS
abbrev pub max_write_tcp_attemps : ℕ
max_write_tcp_attemps = 16

abbrev pub msg_size_buf : ℕ → List ℕ
msg_size_buf len = len % 2 ^ 8 ∷ len / 2 ^ 8 % 2 ^ 8 ∷ []

module _ {W : Type 0} (platform : TcpPlatform W) where
  -- The loop that sends the size: the attempts left, and `bytes_sent`. The results are `size_sent`,
  -- what is assigned to `error_code` last (else its old value), and the state of the platform.
  unfoldable pub send_size : ℕ → ℕ → W → ℕ → ℕ → Bool × ℕ × W
  send_size zero len w error_code bytes_sent = (false, error_code, w)
  send_size (suc attemps) len w error_code bytes_sent =
      let (send_rv, errcode, w') = platform.write_data w (msg_size_buf len) in
      let total = (bytes_sent + send_rv) % 2 ^ 64 in
      let more = send_size attemps len w' error_code total in
      let again = send_size attemps len w' error_code bytes_sent in
      if ltb 0 send_rv
      then (if total == 2 then (true, error_code, w') else more)
      else if ltb 0 errcode
      then (false, errcode, w')
      else again

  -- The loop that sends the bytes of the message.
  unfoldable pub send_payload : ℕ → List ℕ → W → ℕ → ℕ → Bool × ℕ × W
  send_payload zero buf w error_code bytes_sent = (false, error_code, w)
  send_payload (suc attemps) buf w error_code bytes_sent =
      let (send_rv, errcode, w') = platform.write_data w (drop bytes_sent buf) in
      let total = (bytes_sent + send_rv) % 2 ^ 64 in
      let more = send_payload attemps buf w' error_code total in
      let again = send_payload attemps buf w' error_code bytes_sent in
      if ltb 0 send_rv
      then (if total == length buf then (true, error_code, w') else more)
      else if ltb 0 errcode
      then (false, errcode, w')
      else again

  unfoldable pub send_tcp_msg : TcpTransport → W → List ℕ → Bool × TcpTransport × W
  send_tcp_msg transport w buf =
      let (size_sent, error1, w1) =
        send_size max_write_tcp_attemps (length buf) w transport.error_code 0 in
      let (payload_sent, error2, w2) = send_payload max_write_tcp_attemps buf w1 error1 0 in
      if size_sent
      then (if payload_sent
          then (true, record transport { error_code = error2 }, w2)
          else (false, record transport { error_code = error2 }, platform.disconnect w2))
      else (false, record transport { error_code = error1 }, platform.disconnect w1)
