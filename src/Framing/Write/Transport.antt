-- ===== src/Framing/Write/Transport.antt =====
-- What one flush of the write buffer hands to the transport.
use micro_xrce_dds_client.Prelude.{
  ℕ, zero, suc, ◌+◌, ◌-◌, ◌≤◌, ◌<◌, ◌≡◌, refl, sym, ap, ◌∙◌, Bool, true, false, Option, some, List,
  ◌++◌, length, take, drop, append-nil, append_assoc, take-take, take-take-drop, length-take,
  length-drop, arith, Bool-cases, inl, inr, ◌⊎◌, ◌==◌, ==_iff, ltb, ◌%◌, ◌^◌, ◌&&◌,
}
use micro_xrce_dds_client.Framing.{FramingIo, IsValid}
use micro_xrce_dds_client.Framing.Octets.Laws.{pending}
use micro_xrce_dds_client.Framing.Write.{write_rounds, write_transport}

-- What is assumed of a transport: `sent` are the bytes that it has taken so far. Of the bytes that
-- it is offered it takes a prefix, and returns its length.
pub record IsTransport {W : Type 0} (write_cb : W → List ℕ → ℕ × W) (sent : W → List ℕ)
    : Type 0 where
  pub bounded : (w : W) (bytes : List ℕ) → (write_cb w bytes).0 ≤ length bytes
  pub takes :
      (w : W) (bytes : List ℕ)
      → sent (write_cb w bytes).1 ≡ sent w ++ take (write_cb w bytes).0 bytes

-- A transport that is never stuck: of a nonempty offer it takes a byte at least.
abbrev pub Progresses : {W : Type 0} → (W → List ℕ → ℕ × W) → Type 0
Progresses {W} write_cb = (w : W) (bytes : List ℕ) → 0 < length bytes → 0 < (write_cb w bytes).0

module _ {W : Type 0} (write_cb : W → List ℕ → ℕ × W) (sent : W → List ℕ)
    (t : IsTransport write_cb sent) where
  -- What one call of the callback on the bytes from `n` on does.
  round_lem :
      (base : List ℕ) (io : FramingIo) (w : W) (n : ℕ)
      → IsValid io
      → n ≤ io.wb_pos
      → sent w ≡ base ++ take n io.wb
      → let (k, w') = write_cb w (take (io.wb_pos - n) (drop n io.wb)) in
        (n + k ≤ io.wb_pos)
        × (sent w' ≡ base ++ take (n + k) io.wb)
        × ((n + k) % 2 ^ 64 ≡ n + k)
        × (Progresses write_cb → n < io.wb_pos → 0 < k)
  round_lem base io w n v hn hs = (fits, took, omega (arith, fits), progress)
    where
      offered : List ℕ
      offered = take (io.wb_pos - n) (drop n io.wb)

      length-offered : length offered ≡ io.wb_pos - n
      length-offered =
          length-take (io.wb_pos - n) (drop n io.wb)
          ∙ omega (arith, v.pos_in, v.wb_len, length-drop n io.wb)

      fits : n + (write_cb w offered).0 ≤ io.wb_pos
      fits = omega (arith, t.bounded w offered, length-offered)

      took : sent (write_cb w offered).1 ≡ base ++ take (n + (write_cb w offered).0) io.wb
      took =
          t.takes w offered
          ∙ ap (λ xs. xs ++ take (write_cb w offered).0 offered) hs
          ∙ append_assoc base (take n io.wb) (take (write_cb w offered).0 offered)
          ∙ ap (λ xs. base ++ (take n io.wb ++ xs))
              (take-take (write_cb w offered).0 (io.wb_pos - n) (drop n io.wb)
                (omega (arith, fits)))
          ∙ ap (λ xs. base ++ xs) (take-take-drop n (write_cb w offered).0 io.wb)

      progress : Progresses write_cb → n < io.wb_pos → 0 < (write_cb w offered).0
      progress p h = p w offered (omega (arith, length-offered))

  -- The loop has ended with `n` bytes of the buffer taken since `base`.
  record Flushed (base : List ℕ) (io : FramingIo) (r : Option (ℕ × W)) : Type 0 where
    n : ℕ
    w' : W
    ended : r ≡ some (n, w')
    upto : n ≤ io.wb_pos
    took : sent w' ≡ base ++ take n io.wb
    all : Progresses write_cb → n ≡ io.wb_pos

  write_rounds-Flushed :
      (fuel : ℕ) (base : List ℕ) (io : FramingIo) (w : W) (n : ℕ)
      → IsValid io
      → n ≤ io.wb_pos
      → io.wb_pos < n + fuel
      → sent w ≡ base ++ take n io.wb
      → Flushed base io (write_rounds write_cb fuel io w n)
  unfolding write_rounds
  write_rounds-Flushed zero base io w n v hn hf hs = absurd (omega arith)
  write_rounds-Flushed (suc fuel) base io w n v hn hf hs =
      let (k, w') = write_cb w (take (io.wb_pos - n) (drop n io.wb)) in
      let (fits, took, plain, progress) = round_lem base io w n v hn hs in
      elim (Bool-cases (ltb (n + k) io.wb_pos && ltb 0 k)) [
        | inl more ↦
            rw (plain, more)
              (write_rounds-Flushed fuel base io w' (n + k) v fits (ground arith) took)
        | inr stop ↦
            rw (plain, stop)
              (record {
                n = n + k;
                w' = w';
                ended = refl;
                upto = fits;
                took = took;
                all = λ p. ground (arith, progress p);
              })
      ]

  -- The flush has taken all the pending bytes after `base`.
  pub record Emptied (base : List ℕ) (io : FramingIo) (r : Option (Bool × FramingIo × W))
      : Type 0 where
    pub w' : W
    pub ended : r ≡ some (true, record io { wb_pos = 0 }, w')
    pub took : sent w' ≡ base ++ pending io

  -- The flush has stopped after a part of the pending bytes, which the transport is to blame for.
  pub record Stalled (base : List ℕ) (io : FramingIo) (r : Option (Bool × FramingIo × W))
      : Type 0 where
    pub w' : W
    pub n : ℕ
    pub ended : r ≡ some (false, io, w')
    pub part : n < io.wb_pos
    pub took : sent w' ≡ base ++ take n (pending io)
    pub stuck : ¬ Progresses write_cb

  -- A flush ends within its rounds: it takes everything and resets the position, or it stops after
  -- a proper part.
  pub write_transport_lem :
      (base : List ℕ) (io : FramingIo) (w : W)
      → IsValid io
      → sent w ≡ base
      → Emptied base io (write_transport write_cb io w)
        ⊎ Stalled base io (write_transport write_cb io w)
  unfolding write_transport
  write_transport_lem base io w v hs =
      let f =
        write_rounds-Flushed (suc io.wb_pos) base io w 0 v (omega arith) (omega arith)
          (hs ∙ sym (append-nil base)) in
      elim (Bool-cases (f.n == io.wb_pos)) [
        | inl e ↦ inl (record {
          w' = f.w';
          ended = rw (f.ended, e);
          took = f.took ∙ ap (λ (k : ℕ). base ++ take k io.wb) ((==_iff f.n io.wb_pos).0 e);
        })
        | inr e ↦ inr (record {
          w' = f.w';
          n = f.n;
          ended = rw (f.ended, e);
          part = ground (arith, f.upto);
          took = f.took ∙ ap (λ xs. base ++ xs) (sym (take-take f.n io.wb_pos io.wb f.upto));
          stuck = λ p. ground (arith, f.all p);
        })
      ]
