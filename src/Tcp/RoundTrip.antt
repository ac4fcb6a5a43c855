-- ===== src/Tcp/RoundTrip.antt =====
-- What is sent is what is received.
use micro_xrce_dds_client.Prelude.{
  ℕ, suc, ◌*◌, ◌/◌, ◌%◌, ◌^◌, ◌≤◌, ◌<◌, ◌≡◌, refl, ap, ◌∙◌, sym, arith, true, false, some, List,
  ◌++◌, length, length-append, take, drop, ltb, min, ◌==◌, bit_or, bit_or-octets, take-append_all,
  drop-append_all,
}
use micro_xrce_dds_client.Prelude.Int.{ℤ}
use micro_xrce_dds_client.Prelude.Memory.{Memory, memcpy, read_bytes, read_bytes-memcpy}
use micro_xrce_dds_client.Tcp.{
  TcpPlatform, TcpTransport, buffer_empty, size_read, message_available,
}
use micro_xrce_dds_client.Tcp.Send.{msg_size_buf}
use micro_xrce_dds_client.Tcp.Receive.{
  read_empty, read_size_read, read_state, read_tcp_data, returned,
}
use micro_xrce_dds_client.Tcp.Receive.Conserved.{IsTcpSource}
use micro_xrce_dds_client.Tcp.Receive.Loop.{last_round, next_round}

append_injective :
    (xs xs' ys ys' : List ℕ)
    → length xs ≡ length xs'
    → xs ++ ys ≡ xs' ++ ys'
    → (xs ≡ xs') × (ys ≡ ys')
append_injective xs xs' ys ys' l h = (
  sym (take-append_all xs ys)
      ∙ ap (λ zs. take (length xs) zs) h
      ∙ ap (λ n. take n (xs' ++ ys')) l
      ∙ take-append_all xs' ys',
  sym (drop-append_all xs ys)
      ∙ ap (λ zs. drop (length xs) zs) h
      ∙ ap (λ n. drop n (xs' ++ ys')) l
      ∙ drop-append_all xs' ys',
)

-- The bytes to come have arrived: a read hands over as many as it is asked for, or all.
abbrev pub Arrived : {W : Type 0} → TcpPlatform W → (W → List ℕ) → Type 0
Arrived {W} platform feed =
    (w : W) (n : ℕ) (timeout : ℤ)
    → min n (length (feed w)) ≤ length (platform.read_data w n timeout).0

read_bytes-copied :
    (m : Memory) (bytes : List ℕ) → read_bytes (memcpy m 0 bytes) 0 (length bytes) ≡ bytes
unfolding read_bytes
read_bytes-copied m bytes =
    ap (λ (k : ℕ). read_bytes (memcpy m 0 bytes) 0 k) (omega arith) ∙ read_bytes-memcpy m 0 bytes

octets_of_size : (n : ℕ) → n < 2 ^ 16 → bit_or (n / 2 ^ 8 % 2 ^ 8 * 2 ^ 8) (n % 2 ^ 8) ≡ n
octets_of_size n h =
    bit_or-octets (n / 2 ^ 8 % 2 ^ 8) (n % 2 ^ 8) (omega arith) (omega arith) ∙ omega arith

module _ {W : Type 0} (platform : TcpPlatform W) (feed : W → List ℕ) (mtu : ℕ)
    (s : IsTcpSource platform feed) (arrived : Arrived platform feed) where
  -- A read of as many bytes as stand at the front gives them.
  read_front :
      (w : W) (timeout : ℤ) (xs ys : List ℕ)
      → feed w ≡ xs ++ ys
      → (errcode : ℕ) × (w' : W) × (platform.read_data w (length xs) timeout ≡ (xs, errcode, w'))
        × (feed w' ≡ ys)
  read_front w timeout xs ys h =
      let (bytes, errcode, w') = platform.read_data w (length xs) timeout in
      let next = s.next w (length xs) timeout in
      let size : length bytes ≡ length xs = omega (
        arith,
        s.bounded w (length xs) timeout,
        arrived w (length xs) timeout,
        ap length h,
        length-append xs ys,
      ) in
      let (front, rest) = append_injective bytes xs (feed w') ys size (next ∙ h) in
      (errcode, w', ap (λ b. (b, errcode, w')) front, rest)

  size_round :
      (t : TcpTransport) (w w' : W) (timeout : ℤ) (errcode n : ℕ)
      → t.state ≡ buffer_empty
      → 0 < n
      → n < 2 ^ 16
      → platform.read_data w 2 timeout ≡ (msg_size_buf n, errcode, w')
      → read_state platform mtu t w timeout
        ≡ some (false, 0, record t { position = 0; msg_size = n; state = size_read }, w')
  unfolding read_state read_empty
  size_round t w w' timeout errcode n e hp hn q =
      let some_size : (n == 0) ≡ false = ground arith in
      rw (e, q, octets_of_size n hn, some_size) refl

  message_round :
      (t : TcpTransport) (w w' : W) (timeout : ℤ) (errcode : ℕ) (buf : List ℕ)
      → t.state ≡ size_read
      → t.msg_size ≡ length buf
      → 0 < length buf
      → length buf ≤ mtu
      → platform.read_data w (length buf) timeout ≡ (buf, errcode, w')
      → read_state platform mtu t w timeout
        ≡ some
            (false, 0, record t { buffer = memcpy t.buffer 0 buf; state = message_available }, w')
  unfolding read_state read_size_read
  message_round t w w' timeout errcode buf e size hp hm q =
      let some_bytes : ltb 0 (length buf) ≡ true = ground arith in
      let within : ltb mtu (length buf) ≡ false = ground arith in
      let all : (length buf == length buf) ≡ true = ground arith in
      rw (e, size, q, within, some_bytes, all) refl

  available_round :
      (t : TcpTransport) (w : W) (timeout : ℤ)
      → t.state ≡ message_available
      → read_state platform mtu t w timeout
        ≡ some (true, t.msg_size, record t { state = buffer_empty }, w)
  unfolding read_state
  available_round t w timeout e = rw e refl

  -- If the next bytes to come are a frame as `send_tcp_msg` writes it where the size is not divided, of a
  -- message that is not empty, fits the buffer and has less than 2 ^ 16 bytes, no message is begun, and
  -- reads hand over the next octets, as many as they are asked for, or all that are to come, then a read of
  -- three rounds or more hands over the message: the result is its length, the buffer starts with its
  -- bytes, what stands behind the frame is still to come, and no other message is begun.
  pub read_tcp_data-send_tcp_msg :
      (fuel : ℕ) (t : TcpTransport) (w : W) (timeout : ℤ) (buf rest : List ℕ)
      → t.state ≡ buffer_empty
      → 0 < length buf
      → length buf ≤ mtu
      → length buf < 2 ^ 16
      → feed w ≡ msg_size_buf (length buf) ++ (buf ++ rest)
      → (t' : TcpTransport) × (w' : W) × (read_tcp_data platform mtu
            (suc (suc (suc fuel)))
            t
            w
            timeout
          ≡ returned (length buf, t', w'))
        × (read_bytes t'.buffer 0 (length buf) ≡ buf)
        × (feed w' ≡ rest)
        × (t'.state ≡ buffer_empty)
  read_tcp_data-send_tcp_msg fuel t w timeout buf rest e some_bytes hm hl hf =
      let (errcode1, w1, q1, f1) =
        read_front w timeout (msg_size_buf (length buf)) (buf ++ rest) hf in
      let (errcode2, w2, q2, f2) = read_front w1 timeout buf rest f1 in
      let t1 = record t { position = 0; msg_size = length buf; state = size_read } in
      let t2 = record t1 { buffer = memcpy t1.buffer 0 buf; state = message_available } in
      let t3 = record t2 { state = buffer_empty } in
      let run =
        next_round platform mtu (suc (suc fuel)) t t1 w w1 timeout 0
          (size_round t w w1 timeout errcode1 (length buf) e some_bytes hl q1)
        ∙ next_round platform mtu (suc fuel) t1 t2 w1 w2 timeout 0
            (message_round t1 w1 w2 timeout errcode2 buf refl refl some_bytes hm q2)
        ∙ last_round platform mtu fuel t2 t3 w2 w2 timeout (length buf)
            (available_round t2 w2 timeout refl) in
      (t3, w2, run, read_bytes-copied t.buffer buf, f2, refl)
