-- ===== src/Tcp/Receive/Conserved.antt =====
-- No byte of the connection is lost, doubled or put in another order.
use micro_xrce_dds_client.Prelude.{
  ℕ, zero, suc, ◌⊎◌, Option, none, some, ◌+◌, ◌-◌, ◌*◌, ◌/◌, ◌%◌, ◌^◌, ◌≤◌, ◌<◌, ◌≡◌, ◌≢◌, refl, ap,
  ◌∙◌, sym, arith, Bool, true, false, List, [], ◌∷◌, ◌++◌, length, get_or, replicate, ltb, ◌==◌,
  if◌then◌else◌, bit_or, bit_or-octets, append_assoc, length-append, Bool-cases, inl, inr,
}
use mathlib.Core.Path.{subst}
use micro_xrce_dds_client.Prelude.Int.{ℤ}
use micro_xrce_dds_client.Prelude.Memory.{Memory, memcpy, read_bytes, read_bytes-memcpy}
use micro_xrce_dds_client.Tcp.{
  TcpPlatform, TcpTransport, TcpInputBufferState, buffer_empty, size_incomplete, size_read,
  message_incomplete, message_available,
}
use micro_xrce_dds_client.Tcp.Receive.{
  read_empty, read_size_incomplete, read_size_read, read_message_incomplete, read_state,
}

-- What is assumed of the platform: `feed` are the bytes that the connection still has to hand over. A
-- read hands over the next ones, at most as many as asked for. Nothing is assumed of closing.
pub record IsTcpSource {W : Type 0} (platform : TcpPlatform W) (feed : W → List ℕ) : Type 0 where
  pub bounded : (w : W) (n : ℕ) (timeout : ℤ) → length (platform.read_data w n timeout).0 ≤ n
  pub octets :
      (w : W) (n : ℕ) (timeout : ℤ) (i : ℕ) → get_or (platform.read_data w n timeout).0 i 0 < 256
  pub next :
      (w : W) (n : ℕ) (timeout : ℤ)
      → (platform.read_data w n timeout).0 ++ feed (platform.read_data w n timeout).2 ≡ feed w

-- The two octets of a size.
abbrev pub header : ℕ → List ℕ
header size = size % 2 ^ 8 ∷ size / 2 ^ 8 ∷ []

-- The sizes of the messages on a connection are at most `mtu`. First `skip` bytes are passed over; then the
-- bytes are messages with their sizes, of which the last may be incomplete.
abbrev pub Fits : ℕ → ℕ → List ℕ → Type 0
Fits mtu skip [] = Unit
Fits mtu (suc skip) (x ∷ bytes) = Fits mtu skip bytes
Fits mtu zero (a ∷ []) = Unit
Fits mtu zero (a ∷ b ∷ bytes) = (b * 2 ^ 8 + a ≤ mtu) × Fits mtu (b * 2 ^ 8 + a) bytes

-- The bytes that were read of a message that is not handed over yet.
abbrev pub consumed : TcpTransport → List ℕ
consumed t = elim t.state [
  | buffer_empty ↦ []
  | size_incomplete ↦ t.msg_size ∷ []
  | size_read ↦ header t.msg_size
  | message_incomplete ↦ header t.msg_size ++ read_bytes t.buffer 0 t.position
  | message_available ↦ header t.msg_size ++ read_bytes t.buffer 0 t.msg_size
]

-- The size and the position agree with the state.
abbrev pub IsTcp : TcpTransport → Type 0
IsTcp t = elim t.state [
  | buffer_empty ↦ Unit
  | size_incomplete ↦ t.msg_size < 2 ^ 8
  | size_read ↦ (0 < t.msg_size) × (t.msg_size < 2 ^ 16)
  | message_incomplete ↦ (t.position < t.msg_size) × (t.msg_size < 2 ^ 16)
  | message_available ↦ (0 < t.msg_size) × (t.msg_size < 2 ^ 16)
]

-- What a call hands over: nothing for the length 0, else a message with its size.
abbrev pub delivered : ℕ → TcpTransport → List ℕ
delivered rv t = if rv == 0 then [] else header rv ++ read_bytes t.buffer 0 rv

module _ {W : Type 0} (platform : TcpPlatform W) (feed : W → List ℕ) (mtu : ℕ)
    (s : IsTcpSource platform feed) where
  -- Behind the sizes of `empty` empty messages, the bytes that were read before and those to come are
  -- those that are handed over, those that are read now, and those still to come.
  pub record Conserved (t : TcpTransport) (w : W) (rv : ℕ) (t' : TcpTransport) (w' : W)
      : Type 0 where
    pub valid : IsTcp t'
    pub empty : ℕ
    pub bytes :
        consumed t ++ feed w
        ≡ replicate (empty + empty) 0 ++ (delivered rv t' ++ (consumed t' ++ feed w'))
    pub whole : rv ≢ 0 → (consumed t' ≡ []) × (rv < 2 ^ 16)

  -- The connection is left as the last read left it, unless that read reported an error and nothing is
  -- handed over: then it is closed.
  abbrev pub Closing : ℕ → TcpTransport → W → W → Type 0
  Closing rv t' last w' =
      (w' ≡ last) ⊎ ((rv ≡ 0) × (0 < t'.error_code) × (w' ≡ platform.disconnect last))

  closing :
      (t : TcpTransport) (errcode : ℕ) (w : W)
      → Closing 0
          (record t { error_code = errcode })
          w
          (if ltb 0 errcode then platform.disconnect w else w)
  closing t errcode w = elim (Bool-cases (ltb 0 errcode)) [
    | inl e ↦ rw e (inr (refl, ground arith, refl))
    | inr e ↦ rw e (inl refl)
  ]

  -- One round: a round that does not end the loop takes a byte at least.
  abbrev pub Step : TcpTransport → W → Bool × ℕ × TcpTransport × W → Type 0
  Step t w (exit_flag, rv, t', w') =
      (last : W) × Conserved t w rv t' last
      × Closing rv t' last w'
      × (exit_flag ≡ false → (rv ≡ 0) × (w' ≡ last) × (length (feed last) < length (feed w)))

  -- A round within the buffer.
  abbrev pub StepWithin : TcpTransport → W → Option (Bool × ℕ × TcpTransport × W) → Type 0
  StepWithin t w none = ⊥
  StepWithin t w (some result) = Step t w result

  -- What a read of `n` bytes gives.
  record Got (w : W) (n : ℕ) (bytes : List ℕ) (w' : W) : Type 0 where
    pub bounded : length bytes ≤ n
    pub octets : (i : ℕ) → get_or bytes i 0 < 256
    pub next : bytes ++ feed w' ≡ feed w

  got :
      (w : W) (n : ℕ) (timeout : ℤ)
      → let (bytes, errcode, w') = platform.read_data w n timeout in Got w n bytes w'
  got w n timeout = record {
    bounded = s.bounded w n timeout;
    octets = s.octets w n timeout;
    next = s.next w n timeout;
  }

  shorter :
      {w w' : W} {n : ℕ} {bytes : List ℕ}
      → Got w n bytes w'
      → 0 < length bytes
      → length (feed w') < length (feed w)
  shorter {w} {w'} {n} {bytes} g h = omega (arith, length-append bytes (feed w'), ap length g.next)

  more :
      {t t' : TcpTransport} {w w' : W}
      → IsTcp t'
      → consumed t ++ feed w ≡ consumed t' ++ feed w'
      → Conserved t w 0 t' w'
  more v h = record { valid = v; empty = 0; bytes = h; whole = λ ne. absurd (ne refl) }

  two_octets :
      (a b : ℕ)
      → a < 256
      → b < 256
      → (bit_or (b * 256) a < 2 ^ 16) × (header (bit_or (b * 256) a) ≡ a ∷ b ∷ [])
  two_octets a b ha hb =
      let sum : b * 256 + a < 2 ^ 16 = omega arith in
      let lsb : (b * 256 + a) % 2 ^ 8 ≡ a = omega arith in
      let msb : (b * 256 + a) / 2 ^ 8 ≡ b = omega arith in
      rw (bit_or-octets b a hb ha, lsb, msb) (sum, refl)

  -- The size is complete: an empty message is skipped.
  sized :
      (t t' : TcpTransport) (w w' : W) (a b : ℕ)
      → a < 256
      → b < 256
      → consumed t ++ feed w ≡ a ∷ b ∷ feed w'
      → ((bit_or (b * 256) a == 0) ≡ true → t'.state ≡ buffer_empty)
      → ((bit_or (b * 256) a == 0) ≡ false
          → (t'.state ≡ size_read) × (t'.msg_size ≡ bit_or (b * 256) a))
      → Conserved t w 0 t' w'
  sized t t' w w' a b ha hb h skip keep =
      let (small, octets) = two_octets a b ha hb in
      elim (Bool-cases (bit_or (b * 256) a == 0)) [
        | inl e ↦
            let zero_size : bit_or (b * 256) a ≡ 0 = ground arith in
            let sum = bit_or-octets b a hb ha in
            let a0 : a ≡ 0 = omega (arith, sum, zero_size) in
            let b0 : b ≡ 0 = omega (arith, sum, zero_size) in
            let first : consumed t' ≡ [] = rw (skip e) refl in
            record {
              valid = rw (skip e) tt;
              empty = 1;
              bytes = h ∙ rw (a0, b0, first) refl;
              whole = λ ne. absurd (ne refl);
            }
        | inr e ↦
            let (e2, e3) = keep e in
            let rest : consumed t' ≡ a ∷ b ∷ [] = rw (e2, e3) octets in
            more (rw (e2, e3) (ground (arith, small))) (h ∙ ap (λ xs. xs ++ feed w') (sym rest))
      ]

  read_empty_lem :
      (t : TcpTransport) (w : W) (timeout : ℤ)
      → t.state ≡ buffer_empty
      → Step t w (read_empty platform t w timeout)
  unfolding read_empty
  read_empty_lem t w timeout e = go (platform.read_data w 2 timeout) refl (got w 2 timeout)
    where
      go :
          (r : List ℕ × ℕ × W)
          → platform.read_data w 2 timeout ≡ r
          → Got w 2 r.0 r.2
          → Step t w (read_empty platform t w timeout)
      go ([], errcode, w') q g =
          rw (e, q) (w', more tt (sym g.next), closing t errcode w', λ no. absurd (ground arith))
      go (a ∷ [], errcode, w') q g =
          rw (e, q)
            (
              w',
              more (g.octets 0) (sym g.next),
              inl refl,
              λ _. (refl, refl, shorter g (omega arith)),
            )
      go (a ∷ b ∷ [], errcode, w') q g =
          rw (e, q)
            (
              w',
              sized _ _ w w' a b (g.octets 0) (g.octets 1) (sym g.next) (λ c. rw c refl)
                  (λ c. rw c (refl, refl)),
              inl refl,
              λ _. (refl, refl, shorter g (omega arith)),
            )
      go (a ∷ b ∷ c ∷ bytes, errcode, w') q g = absurd (omega (arith, g.bounded))

  read_size_incomplete_lem :
      (t : TcpTransport) (w : W) (timeout : ℤ)
      → t.state ≡ size_incomplete
      → IsTcp t
      → Step t w (read_size_incomplete platform t w timeout)
  unfolding read_size_incomplete
  read_size_incomplete_lem t w timeout e v =
      go (platform.read_data w 1 timeout) refl (got w 1 timeout)
    where
      small : t.msg_size < 256
      small = subst (λ st. IsTcp (record t { state = st })) e v

      go :
          (r : List ℕ × ℕ × W)
          → platform.read_data w 1 timeout ≡ r
          → Got w 1 r.0 r.2
          → Step t w (read_size_incomplete platform t w timeout)
      go ([], errcode, w') q g =
          rw (e, q)
            (
              w',
              more small (ap (λ xs. t.msg_size ∷ xs) (sym g.next)),
              closing t errcode w',
              λ no. absurd (ground arith),
            )
      go (a ∷ [], errcode, w') q g = rw q (
        w',
        sized _ _ w w' t.msg_size a small (g.octets 0)
            (rw e (ap (λ xs. t.msg_size ∷ xs) (sym g.next))) (λ c. rw c refl)
            (λ c. rw c (refl, refl)),
        inl refl,
        λ _. (refl, refl, shorter g (omega arith)),
      )
      go (a ∷ b ∷ bytes, errcode, w') q g = absurd (omega (arith, g.bounded))

  -- The bytes that were got stand behind those that were there.
  appended :
      {w w' : W} {n : ℕ} {bytes : List ℕ} (m : Memory) (p k : ℕ)
      → Got w n bytes w'
      → p + length bytes ≡ k
      → read_bytes m 0 p ++ feed w ≡ read_bytes (memcpy m p bytes) 0 k ++ feed w'
  appended {w} {w'} {n} {bytes} m p k g h =
      ap (λ xs. read_bytes m 0 p ++ xs) (sym g.next)
      ∙ sym (append_assoc (read_bytes m 0 p) bytes (feed w'))
      ∙ ap (λ xs. xs ++ feed w') (sym (read_bytes-memcpy m p bytes))
      ∙ ap (λ (j : ℕ). read_bytes (memcpy m p bytes) 0 j ++ feed w') h

  first_appended :
      {w w' : W} {n : ℕ} {bytes : List ℕ} (m : Memory) (k : ℕ)
      → Got w n bytes w'
      → length bytes ≡ k
      → feed w ≡ read_bytes (memcpy m 0 bytes) 0 k ++ feed w'
  unfolding read_bytes
  first_appended m k g h = appended m 0 k g (omega (arith, h))

  read_size_read_lem :
      (t : TcpTransport) (w : W) (timeout : ℤ)
      → t.state ≡ size_read
      → IsTcp t
      → t.msg_size ≤ mtu
      → StepWithin t w (read_size_read platform mtu t w timeout)
  unfolding read_size_read
  read_size_read_lem t w timeout e v fits =
      go (platform.read_data w t.msg_size timeout) refl (got w t.msg_size timeout)
    where
      small : (0 < t.msg_size) × (t.msg_size < 2 ^ 16)
      small = subst (λ st. IsTcp (record t { state = st })) e v

      go :
          (r : List ℕ × ℕ × W)
          → platform.read_data w t.msg_size timeout ≡ r
          → Got w t.msg_size r.0 r.2
          → StepWithin t w (read_size_read platform mtu t w timeout)
      go ([], errcode, w') q g =
          let within : ltb mtu 0 ≡ false = ground arith in
          rw (e, q, within)
            (
              w',
              more small (ap (λ xs. header t.msg_size ++ xs) (sym g.next)),
              closing t errcode w',
              λ no. absurd (ground arith),
            )
      go (a ∷ bytes, errcode, w') q g =
          let within : ltb mtu (length (a ∷ bytes)) ≡ false = ground (arith, g.bounded, fits) in
          let some_bytes : ltb 0 (length (a ∷ bytes)) ≡ true = ground arith in
          let read = λ (k : ℕ) (h : length (a ∷ bytes) ≡ k).
            ap (λ xs. header t.msg_size ++ xs) (first_appended t.buffer k g h) in
          elim (Bool-cases (length (a ∷ bytes) == t.msg_size)) [
            | inl c ↦
                rw (e, q, within, c, some_bytes)
                  (
                    w',
                    more small (read t.msg_size (ground arith)),
                    inl refl,
                    λ _. (refl, refl, shorter g (omega arith)),
                  )
            | inr c ↦
                rw (e, q, within, c, some_bytes)
                  (
                    w',
                    more (ground (arith, g.bounded), small.1) (read (length (a ∷ bytes)) refl),
                    inl refl,
                    λ no. absurd (ground arith),
                  )
          ]

  read_message_incomplete_lem :
      (t : TcpTransport) (w : W) (timeout : ℤ)
      → t.state ≡ message_incomplete
      → IsTcp t
      → t.msg_size ≤ mtu
      → StepWithin t w (read_message_incomplete platform mtu t w timeout)
  unfolding read_message_incomplete
  read_message_incomplete_lem t w timeout e v fits =
      go (platform.read_data w rest timeout) refl (got w rest timeout)
    where
      rest : ℕ
      rest = (t.msg_size + 2 ^ 64 - t.position) % 2 ^ 64

      small : (t.position < t.msg_size) × (t.msg_size < 2 ^ 16)
      small = subst (λ st. IsTcp (record t { state = st })) e v

      go :
          (r : List ℕ × ℕ × W)
          → platform.read_data w rest timeout ≡ r
          → Got w rest r.0 r.2
          → StepWithin t w (read_message_incomplete platform mtu t w timeout)
      go ([], errcode, w') q g =
          let within : ltb mtu (t.position + 0) ≡ false = ground (arith, small, fits) in
          rw (e, q, within)
            (
              w',
              more small (
                  ap (λ xs. header t.msg_size ++ xs)
                    (appended t.buffer t.position t.position g (omega arith))),
              closing t errcode w',
              λ no. absurd (ground arith),
            )
      go (a ∷ bytes, errcode, w') q g =
          let some_bytes : ltb 0 (length (a ∷ bytes)) ≡ true = ground arith in
          let plain : (t.position + length (a ∷ bytes)) % 2 ^ 64 ≡ t.position + length (a ∷ bytes) =
            omega (arith, g.bounded, small) in
          let inside : t.position + length (a ∷ bytes) ≤ t.msg_size =
            omega (arith, g.bounded, small) in
          let within : ltb mtu (t.position + length (a ∷ bytes)) ≡ false =
            ground (arith, inside, fits) in
          let read = λ (k : ℕ) (h : t.position + length (a ∷ bytes) ≡ k).
            ap (λ xs. header t.msg_size ++ xs) (appended t.buffer t.position k g h) in
          elim (Bool-cases (t.position + length (a ∷ bytes) == t.msg_size)) [
            | inl c ↦
                rw (e, q, within, some_bytes, plain, c)
                  (
                    w',
                    more (omega (arith, small), small.1) (read t.msg_size (ground arith)),
                    inl refl,
                    λ _. (refl, refl, shorter g (omega arith)),
                  )
            | inr c ↦
                rw (e, q, within, some_bytes, plain, c)
                  (
                    w',
                    more (ground (arith, inside), small.1)
                        (read (t.position + length (a ∷ bytes)) refl),
                    inl refl,
                    λ no. absurd (ground arith),
                  )
          ]

  -- One round of the state machine.
  pub read_state_lem :
      (t : TcpTransport) (w : W) (timeout : ℤ)
      → IsTcp t
      → Fits mtu 0 (consumed t ++ feed w)
      → StepWithin t w (read_state platform mtu t w timeout)
  unfolding read_state
  read_state_lem t w timeout v fits = go t.state refl
    where
      at : {st : TcpInputBufferState} → t.state ≡ st → IsTcp (record t { state = st })
      at e = subst (λ st. IsTcp (record t { state = st })) e v

      fit :
          {st : TcpInputBufferState}
          → t.state ≡ st
          → Fits mtu 0 (consumed (record t { state = st }) ++ feed w)
      fit e = subst (λ st. Fits mtu 0 (consumed (record t { state = st }) ++ feed w)) e fits

      handed_over :
          IsTcp (record t { state = message_available })
          → Conserved
              (record t { state = message_available })
              w
              t.msg_size
              (record t { state = buffer_empty })
              w
      handed_over (some_bytes, small) =
          let e : (t.msg_size == 0) ≡ false = ground arith in
          record { valid = tt; empty = 0; bytes = rw e refl; whole = λ _. (refl, small) }

      go :
          (st : TcpInputBufferState)
          → t.state ≡ st
          → StepWithin t w (read_state platform mtu t w timeout)
      go buffer_empty e = rw e (read_empty_lem (record t { state = buffer_empty }) w timeout refl)
      go size_incomplete e =
          rw e
            (read_size_incomplete_lem (record t { state = size_incomplete }) w timeout refl (at e))
      go size_read e =
          let (within, _) = fit {st = size_read} e in
          rw e (
            read_size_read_lem (record t { state = size_read }) w timeout refl (at e)
              (omega (arith, within)))
      go message_incomplete e =
          let (within, _) = fit {st = message_incomplete} e in
          rw e (
            read_message_incomplete_lem (record t { state = message_incomplete }) w timeout refl
              (at e) (omega (arith, within)))
      go message_available e = rw e (w, handed_over (at e), inl refl, λ no. absurd (ground arith))
