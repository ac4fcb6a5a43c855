-- ===== src/Tcp/Send/Progress.antt =====
-- When send_tcp_msg succeeds, and how a divided size goes wrong.
use micro_xrce_dds_client.Prelude.{
  ℕ, zero, suc, ◌+◌, ◌*◌, ◌%◌, ◌^◌, ◌≤◌, ◌<◌, ◌≡◌, refl, ap, ◌∙◌, arith, true, List, [], ◌∷◌, ◌++◌,
  length, take, drop, ltb, ◌==◌, append_assoc, length-drop, take-all, min, Bool-cases, inl, inr,
}
use micro_xrce_dds_client.Tcp.{TcpPlatform, TcpTransport}
use micro_xrce_dds_client.Tcp.Send.{
  msg_size_buf, send_size, send_payload, send_tcp_msg, max_write_tcp_attemps,
}
use micro_xrce_dds_client.Tcp.Send.Frame.{IsTcpSink, WholeSize, send_tcp_msg-take}

-- Of the bytes it is offered a write takes `chunk` at least, or all.
abbrev pub Takes : {W : Type 0} → TcpPlatform W → ℕ → Type 0
Takes {W} platform chunk =
    (w : W) (bytes : List ℕ) → min chunk (length bytes) ≤ (platform.write_data w bytes).0

module _ {W : Type 0} (platform : TcpPlatform W) (sent : W → List ℕ)
    (s : IsTcpSink platform sent) where
  send_payload-ends :
      (chunk : ℕ)
      → 0 < chunk
      → Takes platform chunk
      → (attemps : ℕ) (buf : List ℕ) (w : W) (error_code bytes_sent : ℕ) → length buf < 2 ^ 64
      → bytes_sent < length buf
      → length buf ≤ bytes_sent + attemps * chunk
      → (send_payload platform attemps buf w error_code bytes_sent).0 ≡ true
  unfolding send_payload
  send_payload-ends chunk hc t zero buf w error_code bytes_sent hl hb h = absurd (omega arith)
  send_payload-ends chunk hc t (suc attemps) buf w error_code bytes_sent hl hb h =
      let n = (platform.write_data w (drop bytes_sent buf)).0 in
      let w' = (platform.write_data w (drop bytes_sent buf)).2 in
      let left = length-drop bytes_sent buf in
      let enough = t w (drop bytes_sent buf) in
      let fits : bytes_sent + n ≤ length buf =
        omega (arith, hb, s.bounded w (drop bytes_sent buf), left) in
      let plain : (bytes_sent + n) % 2 ^ 64 ≡ bytes_sent + n = omega (arith, fits, hl) in
      let some_taken : ltb 0 n ≡ true = ground (arith, enough, left, hc, hb) in
      elim (Bool-cases (bytes_sent + n == length buf)) [
        | inl e ↦ rw (some_taken, plain, e) refl
        | inr e ↦
            let rest : bytes_sent + n < length buf = ground (arith, fits) in
            let product : suc attemps * chunk ≡ attemps * chunk + chunk = omega arith in
            rw (some_taken, plain, e)
              (send_payload-ends chunk hc t attemps buf w' error_code (bytes_sent + n) hl rest
                (omega (arith, h, enough, left, rest, product)))
      ]

  -- The round in which the count reaches two octets, and one in which it does not.
  last_round :
      (attemps len : ℕ) (w : W) (error_code bytes_sent n : ℕ)
      → (platform.write_data w (msg_size_buf len)).0 ≡ suc n
      → (bytes_sent + suc n) % 2 ^ 64 ≡ 2
      → send_size platform (suc attemps) len w error_code bytes_sent
        ≡ (true, error_code, (platform.write_data w (msg_size_buf len)).2)
  unfolding send_size
  last_round attemps len w error_code bytes_sent n e total =
      let some_taken : ltb 0 (suc n) ≡ true = ground arith in rw (e, some_taken, total) refl

  first_round :
      (attemps len : ℕ) (w : W) (error_code : ℕ)
      → (platform.write_data w (msg_size_buf len)).0 ≡ 1
      → send_size platform (suc attemps) len w error_code 0
        ≡ send_size platform attemps len (platform.write_data w (msg_size_buf len)).2 error_code 1
  unfolding send_size
  first_round attemps len w error_code e = rw e refl

  -- If every write takes `chunk` bytes at least, or all that it is offered, `chunk` is 2 or more, and 16
  -- times `chunk` reaches the length of a message that is not empty, then the send succeeds, and the
  -- connection has taken the length in two octets and all bytes.
  pub send_tcp_msg-sends :
      (chunk : ℕ) (transport : TcpTransport) (w : W) (buf : List ℕ)
      → 2 ≤ chunk
      → Takes platform chunk
      → 0 < length buf
      → length buf < 2 ^ 16
      → length buf ≤ max_write_tcp_attemps * chunk
      → let (rv, _, w') = send_tcp_msg platform transport w buf in
        (rv ≡ true) × (sent w' ≡ sent w ++ (msg_size_buf (length buf) ++ buf))
  send_tcp_msg-sends chunk transport w buf hc t some hl h =
      let (k, hk, took, all) = send_tcp_msg-take platform sent s transport w buf whole hl in
      (
        succeeds,
        took
            ∙ ap (λ xs. sent w ++ xs)
                (take-all k (msg_size_buf (length buf) ++ buf) (omega (arith, all succeeds))),
      )
    where
      whole : WholeSize platform
      whole w len e = omega (arith, e, hc, t w (msg_size_buf len))

      n : ℕ
      n = (platform.write_data w (msg_size_buf (length buf))).0

      send_tcp_msg-payload :
          (w1 : W)
          → send_size platform max_write_tcp_attemps (length buf) w transport.error_code 0
            ≡ (true, transport.error_code, w1)
          → (send_payload platform max_write_tcp_attemps buf w1 transport.error_code 0).0 ≡ true
          → (send_tcp_msg platform transport w buf).0 ≡ true
      send_tcp_msg-payload w1 e p = unfold send_tcp_msg in rw (e, p) refl

      succeeds : (send_tcp_msg platform transport w buf).0 ≡ true
      succeeds =
          let both : n ≡ 2 =
            omega (
              arith,
              hc,
              s.bounded w (msg_size_buf (length buf)),
              t w (msg_size_buf (length buf)),
            ) in
          let w1 = (platform.write_data w (msg_size_buf (length buf))).2 in
          send_tcp_msg-payload w1 (last_round 15 (length buf) w transport.error_code 0 1 both refl)
            (send_payload-ends chunk (omega (arith, hc)) t max_write_tcp_attemps buf w1
              transport.error_code 0 (omega (arith, hl)) some (omega (arith, h)))

  -- If the connection takes one octet of a size at a time, the least significant octet is sent twice,
  -- the other one never, and the size counts as sent.
  pub send_size-doubled :
      (len : ℕ) (w : W) (error_code : ℕ)
      → ((w' : W) (n : ℕ) → (platform.write_data w' (msg_size_buf n)).0 ≡ 1)
      → let (size_sent, _, w') = send_size platform max_write_tcp_attemps len w error_code 0 in
        (size_sent ≡ true) × (sent w' ≡ sent w ++ (len % 2 ^ 8 ∷ len % 2 ^ 8 ∷ []))
  send_size-doubled len w error_code one =
      let w1 = (platform.write_data w (msg_size_buf len)).2 in
      let w2 = (platform.write_data w1 (msg_size_buf len)).2 in
      let octet : ℕ = len % 2 ^ 8 in
      let first : sent w1 ≡ sent w ++ (octet ∷ []) =
        s.takes w (msg_size_buf len) ∙ ap (λ k. sent w ++ take k (msg_size_buf len)) (one w len) in
      let second : sent w2 ≡ sent w1 ++ (octet ∷ []) =
        s.takes w1 (msg_size_buf len)
        ∙ ap (λ k. sent w1 ++ take k (msg_size_buf len)) (one w1 len) in
      let run =
        first_round 15 len w error_code (one w len)
        ∙ last_round 14 len w1 error_code 1 0 (one w1 len) refl in
      rw run (
        refl,
        second
            ∙ ap (λ xs. xs ++ (octet ∷ [])) first
            ∙ append_assoc (sent w) (octet ∷ []) (octet ∷ []),
      )
