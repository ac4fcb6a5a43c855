-- ===== src/Stream/OutputReliable/Nack.antt =====
-- Which lost message is sent again.
use micro_xrce_dds_client.Prelude.{
  ℕ, zero, suc, ◌^◌, ◌≤◌, ◌<◌, ◌≡◌, ◌⊎◌, refl, ap, ◌∙◌, sym, arith, Bool, true, false, not, Option,
  some, ◌==◌, Bool-cases, inl, inr,
}
use micro_xrce_dds_client.SeqNum.{seq_num_add, seq_num_sub, seq_num_cmp, is_nonpos}
use micro_xrce_dds_client.SeqNum.Order.{IsSeqNum, add-IsSeqNum}
use micro_xrce_dds_client.Stream.ReliableBuffer.{get_reliable_buffer_size}
use micro_xrce_dds_client.Stream.OutputReliable.{OutputReliableStream, nack_rounds}
use micro_xrce_dds_client.Stream.OutputReliable.Acknack.{add_add}

-- The slot of the number `k` ahead of `it` is free.
abbrev FreeAhead : OutputReliableStream → ℕ → ℕ → Type 0
FreeAhead stream it k = get_reliable_buffer_size stream.base (seq_num_add it k) ≡ stream.offset

-- Among the `d` numbers behind `it`, the first with a slot that is not free, is found.
abbrev pub Found : OutputReliableStream → ℕ → ℕ → Option (Bool × ℕ) → Type 0
Found stream it d r =
    (k : ℕ) × (1 ≤ k)
    × (k ≤ d)
    × (r ≡ some (true, seq_num_add it k))
    × (¬ FreeAhead stream it k)
    × ((j : ℕ) → 1 ≤ j → j < k → FreeAhead stream it j)

-- All of them have free slots.
abbrev pub NoneLeft : OutputReliableStream → ℕ → ℕ → Option (Bool × ℕ) → Type 0
NoneLeft stream it d r =
    (r ≡ some (false, seq_num_add stream.last_sent 1))
    × ((j : ℕ) → 1 ≤ j → j ≤ d → FreeAhead stream it j)

in_order :
    (it l : ℕ)
    → IsSeqNum it
    → IsSeqNum l
    → seq_num_sub l it < 2 ^ 15
    → is_nonpos (seq_num_cmp (seq_num_add it 1) l) ≡ not (seq_num_sub l it == 0)
unfolding seq_num_add seq_num_sub seq_num_cmp
in_order it l hi hl h = ground arith

next_distance :
    (it l d : ℕ)
    → IsSeqNum it
    → IsSeqNum l
    → seq_num_sub l it ≡ suc d
    → seq_num_sub l (seq_num_add it 1) ≡ d
unfolding seq_num_add seq_num_sub
next_distance it l d hi hl h = ground arith

no_distance : (it l : ℕ) → IsSeqNum it → IsSeqNum l → seq_num_sub l it ≡ 0 → it ≡ l
unfolding seq_num_sub
no_distance it l hi hl h = ground arith

extend :
    (stream : OutputReliableStream) (it k : ℕ)
    → FreeAhead stream it 1
    → ((j : ℕ) → 1 ≤ j → j < k → FreeAhead stream (seq_num_add it 1) j)
    → (j : ℕ) → 1 ≤ j
    → j < suc k
    → FreeAhead stream it j
extend stream it k now rest zero j1 jk = absurd (omega arith)
extend stream it k now rest (suc zero) j1 jk = now
extend stream it k now rest (suc (suc j)) j1 jk =
    sym (ap (get_reliable_buffer_size stream.base) (add_add it (suc j)))
    ∙ rest (suc j) (omega arith) (omega arith)

-- The search for the next lost message ends after at most as many rounds as there are messages sent
-- behind `seq_num_it`, and one more. It finds the first of them whose slot is not free, or, if there is
-- none, leaves the number behind the last one sent. There are less than 2 ^ 15 of them.
pub nack_rounds_lem :
    (fuel d : ℕ) (stream : OutputReliableStream) (seq_num_it : ℕ)
    → IsSeqNum seq_num_it
    → IsSeqNum stream.last_sent
    → seq_num_sub stream.last_sent seq_num_it ≡ d
    → d < 2 ^ 15
    → d < fuel
    → Found stream seq_num_it d (nack_rounds fuel stream seq_num_it)
      ⊎ NoneLeft stream seq_num_it d (nack_rounds fuel stream seq_num_it)
unfolding nack_rounds
nack_rounds_lem zero d stream it hi hl e hd h = absurd (omega arith)
nack_rounds_lem (suc fuel) zero stream it hi hl e hd h =
    let past : is_nonpos (seq_num_cmp (seq_num_add it 1) stream.last_sent) ≡ false =
      in_order it stream.last_sent hi hl (omega (arith, e)) ∙ rw e refl in
    rw past (
      inr (
        ap (λ (n : ℕ). some (false, seq_num_add n 1)) (no_distance it stream.last_sent hi hl e),
        λ j j1 j0. absurd (omega arith),
      ))
nack_rounds_lem (suc fuel) (suc d) stream it hi hl e hd h =
    let next = seq_num_add it 1 in
    let some_left : (suc d == 0) ≡ false = ground arith in
    let here : is_nonpos (seq_num_cmp next stream.last_sent) ≡ true =
      in_order it stream.last_sent hi hl (omega (arith, e)) ∙ rw (e, some_left) refl in
    let shift = λ (k : ℕ). ap (get_reliable_buffer_size stream.base) (add_add it k) in
    elim (Bool-cases (get_reliable_buffer_size stream.base next == stream.offset)) [
      | inr lost ↦
          rw (here, lost)
            (inl (
              1,
              omega arith,
              omega arith,
              refl,
              (λ free. absurd (ground arith)),
              λ j j1 jk. absurd (omega arith),
            ))
      | inl free ↦
          let now : FreeAhead stream it 1 = ground arith in
          elim (nack_rounds_lem fuel d stream next (add-IsSeqNum it 1) hl
            (next_distance it stream.last_sent d hi hl e) (omega arith) (omega arith)) [
              | inl (k, k1, kd, r, lost, before) ↦
                  rw (here, free)
                    (inl (
                      suc k,
                      omega arith,
                      omega arith,
                      r ∙ ap (λ (n : ℕ). some (true, n)) (add_add it k),
                      (λ f. lost (shift k ∙ f)),
                      extend stream it k now before,
                    ))
              | inr (r, all) ↦
                  rw (here, free)
                    (inr (
                      r,
                      λ j j1 jd.
                          extend stream it (suc d) now (λ i i1 id. all i i1 (omega arith)) j j1
                            (omega arith),
                    ))
            ]
    ]
