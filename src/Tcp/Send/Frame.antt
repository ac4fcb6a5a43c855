-- ===== src/Tcp/Send/Frame.antt =====
-- What send_tcp_msg hands to the connection.
use micro_xrce_dds_client.Prelude.{
  ℕ, zero, suc, ◌+◌, ◌%◌, ◌^◌, ◌≤◌, ◌<◌, ◌≡◌, ◌≢◌, refl, ap, ◌∙◌, sym, arith, true, List, ◌++◌,
  length, take, drop, ltb, ◌==◌, if◌then◌else◌, append_assoc, append-nil, length-drop,
  take-take-drop, Bool-cases, inl, inr,
}
use micro_xrce_dds_client.Tcp.{TcpPlatform, TcpTransport}
use micro_xrce_dds_client.Tcp.Send.{
  msg_size_buf, send_size, send_payload, send_tcp_msg, max_write_tcp_attemps,
}

-- What is assumed of the platform: `sent` are the bytes that the connection has taken. A write takes a
-- prefix of the bytes it is offered and returns its length; closing takes none.
pub record IsTcpSink {W : Type 0} (platform : TcpPlatform W) (sent : W → List ℕ) : Type 0 where
  pub bounded : (w : W) (bytes : List ℕ) → (platform.write_data w bytes).0 ≤ length bytes
  pub takes :
      (w : W) (bytes : List ℕ)
      → sent (platform.write_data w bytes).2 ≡ sent w ++ take (platform.write_data w bytes).0 bytes
  pub closed : (w : W) → sent (platform.disconnect w) ≡ sent w

-- The two octets of a size are taken together or not at all.
abbrev pub WholeSize : {W : Type 0} → TcpPlatform W → Type 0
WholeSize {W} platform = (w : W) (len : ℕ) → (platform.write_data w (msg_size_buf len)).0 ≢ 1

module _ {W : Type 0} (platform : TcpPlatform W) (sent : W → List ℕ)
    (s : IsTcpSink platform sent) where
  send_size_lem :
      WholeSize platform
      → (attemps len : ℕ) (w : W) (error_code : ℕ)
      → let (size_sent, _, w') = send_size platform attemps len w error_code 0 in
        sent w' ≡ (if size_sent then sent w ++ msg_size_buf len else sent w)
  unfolding send_size
  send_size_lem whole zero len w error_code = refl
  send_size_lem whole (suc attemps) len w error_code =
      go (platform.write_data w (msg_size_buf len)).0 refl
        (send_size_lem whole attemps len w' error_code)
    where
      w' : W
      w' = (platform.write_data w (msg_size_buf len)).2

      took :
          (n : ℕ)
          → (platform.write_data w (msg_size_buf len)).0 ≡ n
          → sent w' ≡ sent w ++ take n (msg_size_buf len)
      took n q = s.takes w (msg_size_buf len) ∙ ap (λ k. sent w ++ take k (msg_size_buf len)) q

      go :
          (n : ℕ)
          → (platform.write_data w (msg_size_buf len)).0 ≡ n
          → (let (size_sent, _, w'') = send_size platform attemps len w' error_code 0 in
              sent w'' ≡ (if size_sent then sent w' ++ msg_size_buf len else sent w'))
          → let (size_sent, _, w'') = send_size platform (suc attemps) len w error_code 0 in
            sent w'' ≡ (if size_sent then sent w ++ msg_size_buf len else sent w)
      go zero q again =
          let same : sent w' ≡ sent w = took 0 q ∙ append-nil (sent w) in
          elim (Bool-cases (ltb 0 (platform.write_data w (msg_size_buf len)).1)) [
            | inl e ↦ rw (q, e) same
            | inr e ↦
                let ok = (send_size platform attemps len w' error_code 0).0 in
                rw (q, e) (again ∙ ap (λ xs. if ok then xs ++ msg_size_buf len else xs) same)
          ]
      go (suc zero) q again = absurd (whole w len q)
      go (suc (suc zero)) q again = rw q (took 2 q)
      go (suc (suc (suc n))) q again = absurd (omega (arith, q, s.bounded w (msg_size_buf len)))

  pub send_payload_lem :
      (base : List ℕ) (attemps : ℕ) (buf : List ℕ) (w : W) (error_code bytes_sent : ℕ)
      → length buf < 2 ^ 64
      → bytes_sent ≤ length buf
      → sent w ≡ base ++ take bytes_sent buf
      → let (payload_sent, _, w') = send_payload platform attemps buf w error_code bytes_sent in
        (k : ℕ) × (k ≤ length buf)
        × (sent w' ≡ base ++ take k buf)
        × (payload_sent ≡ true → k ≡ length buf)
  unfolding send_payload
  send_payload_lem base zero buf w error_code bytes_sent hl hb h =
      (bytes_sent, hb, h, λ yes. absurd (ground arith))
  send_payload_lem base (suc attemps) buf w error_code bytes_sent hl hb h =
      let n = (platform.write_data w (drop bytes_sent buf)).0 in
      let errcode = (platform.write_data w (drop bytes_sent buf)).1 in
      let w' = (platform.write_data w (drop bytes_sent buf)).2 in
      let fits : bytes_sent + n ≤ length buf =
        omega (arith, hb, s.bounded w (drop bytes_sent buf), length-drop bytes_sent buf) in
      let plain : (bytes_sent + n) % 2 ^ 64 ≡ bytes_sent + n = omega (arith, fits, hl) in
      let took : sent w' ≡ base ++ take (bytes_sent + n) buf =
        s.takes w (drop bytes_sent buf)
        ∙ ap (λ xs. xs ++ take n (drop bytes_sent buf)) h
        ∙ append_assoc base (take bytes_sent buf) (take n (drop bytes_sent buf))
        ∙ ap (λ xs. base ++ xs) (take-take-drop bytes_sent n buf) in
      elim (Bool-cases (ltb 0 n)) [
        | inl some_taken ↦ elim (Bool-cases (bytes_sent + n == length buf)) [
          | inl e ↦ rw (some_taken, plain, e) (bytes_sent + n, fits, took, λ _. ground arith)
          | inr e ↦
              rw (some_taken, plain, e)
                (send_payload_lem base attemps buf w' error_code (bytes_sent + n) hl fits took)
        ]
        | inr none_taken ↦
            let same : sent w' ≡ base ++ take bytes_sent buf =
              took ∙ ap (λ (k : ℕ). base ++ take k buf) (ground arith) in
            elim (Bool-cases (ltb 0 errcode)) [
              | inl e ↦ rw (none_taken, e) (bytes_sent, hb, same, λ yes. absurd (ground arith))
              | inr e ↦
                  rw (none_taken, e)
                    (send_payload_lem base attemps buf w' error_code bytes_sent hl hb same)
            ]
      ]

  -- If the platform never takes one of the two octets of a size alone, a send takes a part of the frame
  -- of the message (its length in two octets, the least significant one first, and its bytes) from the
  -- front, and the whole frame if the result is true. The message has less than 2 ^ 16 bytes.
  pub send_tcp_msg-take :
      (transport : TcpTransport) (w : W) (buf : List ℕ)
      → WholeSize platform
      → length buf < 2 ^ 16
      → let (rv, _, w') = send_tcp_msg platform transport w buf in
        let frame = msg_size_buf (length buf) ++ buf in
        (k : ℕ) × (k ≤ length frame)
        × (sent w' ≡ sent w ++ take k frame)
        × (rv ≡ true → k ≡ length frame)
  unfolding send_tcp_msg
  send_tcp_msg-take transport w buf whole hl =
      let len = length buf in
      let (size_sent, error1, w1) =
        send_size platform max_write_tcp_attemps len w transport.error_code 0 in
      let (payload_sent, error2, w2) =
        send_payload platform max_write_tcp_attemps buf w1 error1 0 in
      let size = send_size_lem whole max_write_tcp_attemps len w transport.error_code in
      elim (Bool-cases size_sent) [
        | inl e ↦
            let sized : sent w1 ≡ sent w ++ msg_size_buf len = size ∙ rw e refl in
            let (k, hk, took, all) =
              send_payload_lem (sent w ++ msg_size_buf len) max_write_tcp_attemps buf w1 error1 0
                (omega (arith, hl)) (omega arith) (sized ∙ sym (append-nil _)) in
            let took' : sent w2 ≡ sent w ++ take (suc (suc k)) (msg_size_buf len ++ buf) =
              took ∙ append_assoc (sent w) (msg_size_buf len) (take k buf) in
            elim (Bool-cases payload_sent) [
              | inl p ↦ rw (e, p) (suc (suc k), omega (arith, hk), took', λ _. omega (arith, all p))
              | inr p ↦
                  rw (e, p)
                    (
                      suc (suc k),
                      omega (arith, hk),
                      s.closed w2 ∙ took',
                      λ yes. absurd (ground arith),
                    )
            ]
        | inr e ↦ rw e (
          0,
          omega arith,
          s.closed w1 ∙ size ∙ rw e (sym (append-nil (sent w))),
          λ yes. absurd (ground arith),
        )
      ]
