-- ===== src/Framing/Write/Loop.antt =====
-- The octet loops of uxr_write_framed_msg: nothing is lost between the buffer and the transport.
use micro_xrce_dds_client.Prelude.{
  ℕ, zero, suc, ◌+◌, ◌*◌, ◌≤◌, ◌<◌, ◌≡◌, refl, sym, ap, ◌∙◌, Bool, true, false, Option, some, List,
  [], ◌∷◌, ◌++◌, length, take, append-nil, append_assoc, arith, inl, inr, ◌⊎◌, length-append,
  length-take, length-drop, take-append-drop, drop,
}
use native.Mathlib.Decide.{dec_le}
use micro_xrce_dds_client.Framing.{FramingIo, IsValid, buffer_size}
use micro_xrce_dds_client.Framing.Crc.{update_crc}
use micro_xrce_dds_client.Framing.Octets.{add_next_octet}
use micro_xrce_dds_client.Framing.Octets.Laws.{
  pending, escape, Added, add_next_octet-Added, add_next_octet-full, length-escape,
}
use micro_xrce_dds_client.Framing.Write.{write_transport, write_octets}
use micro_xrce_dds_client.Framing.Write.Transport.{
  IsTransport, Progresses, Stalled, write_transport_lem,
}

-- The escaped form of a sequence of octets.
abbrev pub escape_all : List ℕ → List ℕ
escape_all [] = []
escape_all (x ∷ xs) = escape x ++ escape_all xs

abbrev pub crc_all : ℕ → List ℕ → ℕ
crc_all crc [] = crc
crc_all crc (x ∷ xs) = crc_all (update_crc crc x) xs

regroup : (a b c d : List ℕ) → (a ++ b) ++ (c ++ d) ≡ (a ++ (b ++ c)) ++ d
regroup a b c d = simp append_assoc

Added-out :
    {io io' : FramingIo} {x : ℕ} (s tail : List ℕ)
    → Added io x io'
    → (s ++ pending io') ++ tail ≡ (s ++ pending io) ++ (escape x ++ tail)
Added-out {io} {io'} {x} s tail a =
    ap (λ p. (s ++ p) ++ tail) a.appended ∙ sym (regroup s (pending io) (escape x) tail)

module _ {W : Type 0} (write_cb : W → List ℕ → ℕ × W) (sent : W → List ℕ)
    (t : IsTransport write_cb sent) where
  -- All octets have been added: `out` is what the transport took and what still waits.
  pub record Written (out : List ℕ) (crc : ℕ) (r : Option (Bool × ℕ × FramingIo × W)) : Type 0 where
    pub io' : FramingIo
    pub w' : W
    pub ended : r ≡ some (true, crc, io', w')
    pub valid : IsValid io'
    pub waiting : sent w' ++ pending io' ≡ out
    pub nonempty : 0 < io'.wb_pos

  -- A flush has stalled: the transport took a proper prefix of `out`.
  pub record Cut (out : List ℕ) (r : Option (Bool × ℕ × FramingIo × W)) : Type 0 where
    pub crc' : ℕ
    pub io' : FramingIo
    pub w' : W
    pub ended : r ≡ some (false, crc', io', w')
    pub valid : IsValid io'
    pub rest : List ℕ
    pub prefix : sent w' ++ rest ≡ out
    pub left : 0 < length rest
    pub stuck : ¬ Progresses write_cb

  -- A round that finds room.
  round-added :
      (fuel : ℕ) (io : FramingIo) (w : W) (crc octet : ℕ) (octets : List ℕ)
      → (add_next_octet io octet).0 ≡ true
      → write_octets write_cb (suc fuel) io w crc (octet ∷ octets)
        ≡ write_octets write_cb fuel (add_next_octet io octet).1 w (update_crc crc octet) octets
  unfolding write_octets
  round-added fuel io w crc octet octets h = rw h

  -- A round that finds none, and whose flush succeeds.
  round-flushed :
      (fuel : ℕ) (io : FramingIo) (w : W) (crc octet : ℕ) (octets : List ℕ) {io'' : FramingIo}
      {w' : W}
      → add_next_octet io octet ≡ (false, io)
      → write_transport write_cb io w ≡ some (true, io'', w')
      → write_octets write_cb (suc fuel) io w crc (octet ∷ octets)
        ≡ write_octets write_cb fuel io'' w' crc (octet ∷ octets)
  unfolding write_octets
  round-flushed fuel io w crc octet octets h e = rw (h, e)

  -- A round that finds none, and whose flush stalls.
  round-stalled :
      (fuel : ℕ) (io : FramingIo) (w : W) (crc octet : ℕ) (octets : List ℕ) {io'' : FramingIo}
      {w' : W}
      → add_next_octet io octet ≡ (false, io)
      → write_transport write_cb io w ≡ some (false, io'', w')
      → write_octets write_cb (suc fuel) io w crc (octet ∷ octets) ≡ some (false, crc, io'', w')
  unfolding write_octets
  round-stalled fuel io w crc octet octets h e = rw (h, e)

  -- What a stalled flush leaves behind.
  Stalled-Cut :
      (io : FramingIo) (w : W) (tail out : List ℕ) {r : Option (Bool × ℕ × FramingIo × W)} (crc : ℕ)
      → IsValid io
      → (sent w ++ pending io) ++ tail ≡ out
      → (s : Stalled write_cb sent t (sent w) io (write_transport write_cb io w))
      → r ≡ some (false, crc, io, s.w')
      → Cut out r
  Stalled-Cut io w tail out crc v e s h = record {
    crc' = crc;
    io' = io;
    w' = s.w';
    ended = h;
    valid = v;
    rest = drop s.n (pending io) ++ tail;
    prefix =
        ap (λ xs. xs ++ (drop s.n (pending io) ++ tail)) s.took
        ∙ regroup (sent w) (take s.n (pending io)) (drop s.n (pending io)) tail
        ∙ ap (λ xs. (sent w ++ xs) ++ tail) (take-append-drop s.n (pending io))
        ∙ e;
    left = omega (
      arith,
      length-append (drop s.n (pending io)) tail,
      length-drop s.n (pending io),
      length-take io.wb_pos io.wb,
      s.part,
      v.pos_in,
      v.wb_len,
    );
    stuck = s.stuck;
  }

  -- With two rounds for each octet the loop ends: all octets are added, or a flush has stalled.
  pub write_octets_lem :
      (octets : List ℕ) (fuel : ℕ) (io : FramingIo) (w : W) (crc : ℕ) (out : List ℕ)
      → IsValid io
      → 0 < io.wb_pos
      → 2 * length octets ≤ fuel
      → (sent w ++ pending io) ++ escape_all octets ≡ out
      → Written out (crc_all crc octets) (write_octets write_cb fuel io w crc octets)
        ⊎ Cut out (write_octets write_cb fuel io w crc octets)
  write_octets_lem [] fuel io w crc out v pos hf e = inl (record {
    io' = io;
    w' = w;
    ended = unfold write_octets in refl;
    valid = v;
    waiting = sym (append-nil (sent w ++ pending io)) ∙ e;
    nonempty = pos;
  })
  write_octets_lem (x ∷ xs) zero io w crc out v pos hf e = absurd (omega arith)
  write_octets_lem (x ∷ xs) (suc zero) io w crc out v pos hf e = absurd (omega arith)
  write_octets_lem (x ∷ xs) (suc (suc fuel)) io w crc out v pos hf e =
      elim (dec_le (io.wb_pos + length (escape x)) buffer_size) [
        | yes room ↦
            let (added, a) = add_next_octet-Added x v room in
            rw (round-added (suc fuel) io w crc x xs added) (
              write_octets_lem xs (suc fuel) (add_next_octet io x).1 w (update_crc crc x) out
                a.valid (omega (arith, a.moved)) (omega arith)
                (Added-out (sent w) (escape_all xs) a ∙ e))
        | no full ↦
            let refused = add_next_octet-full x v (omega (arith, full)) in
            elim (write_transport_lem write_cb sent t (sent w) io w v refl) [
              | inl em ↦
                  let io0 : FramingIo = record io { wb_pos = 0 } in
                  let v0 : IsValid io0 = record {
                    rb_len = v.rb_len;
                    wb_len = v.wb_len;
                    head_in = v.head_in;
                    tail_in = v.tail_in;
                    pos_in = omega arith;
                  } in
                  let (added, a) =
                    add_next_octet-Added {io = io0} x v0 (omega (arith, length-escape x)) in
                  rw
                    (
                      round-flushed (suc fuel) io w crc x xs refused em.ended,
                      round-added fuel io0 em.w' crc x xs added,
                    )
                    (write_octets_lem xs fuel (add_next_octet io0 x).1 em.w' (update_crc crc x) out
                      a.valid (omega (arith, a.moved, length-escape x)) (omega arith)
                      (Added-out (sent em.w') (escape_all xs) a
                        ∙ ap (λ ys. ys ++ escape_all (x ∷ xs)) (append-nil (sent em.w') ∙ em.took)
                        ∙ e))
              | inr s ↦ inr (
                  Stalled-Cut io w (escape_all (x ∷ xs)) out crc v e s
                    (round-stalled (suc fuel) io w crc x xs refused s.ended))
            ]
      ]
