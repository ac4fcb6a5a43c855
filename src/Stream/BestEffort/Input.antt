-- ===== src/Stream/BestEffort/Input.antt =====
-- What an input best-effort stream lets through.
use micro_xrce_dds_client.Prelude.{
  ℕ, ◌^◌, ◌<◌, ◌≡◌, ◌↔◌, refl, ap, sym, arith, true, false, List, [], ◌∷◌, if◌then◌else◌,
  Bool-cases, inl, inr,
}
use mathlib.Core.Path.{transport}
use micro_xrce_dds_client.SeqNum.{seq_num_sub, seq_num_cmp}
use micro_xrce_dds_client.SeqNum.Order.{IsSeqNum}
use micro_xrce_dds_client.Stream.BestEffort.{InputBestEffortStream, receive_best_effort_message}

-- `n` lies 1 to 2 ^ 15 - 1 numbers ahead of `m`.
abbrev pub Newer : ℕ → ℕ → Type 0
Newer m n = (0 < seq_num_sub n m) × (seq_num_sub n m < 2 ^ 15)

-- Each number is newer than the one before it, and the first one than `m`.
abbrev pub Rising : ℕ → List ℕ → Type 0
Rising m [] = Unit
Rising m (n ∷ ns) = Newer m n × Rising n ns

-- The messages of a run that are taken.
unfoldable pub taken : InputBestEffortStream → List ℕ → List ℕ
taken stream [] = []
taken stream (n ∷ ns) =
    let (ready, stream') = receive_best_effort_message stream n in
    let rest = taken stream' ns in if ready then n ∷ rest else rest

-- A message is taken exactly if its number is newer than that of the last one taken, across the wrap
-- too; then it becomes the last one, and else nothing changes.
pub receive_best_effort_message_lem :
    (stream : InputBestEffortStream) (n : ℕ)
    → IsSeqNum stream.last_handled
    → IsSeqNum n
    → let (ready, stream') = receive_best_effort_message stream n in
      ((ready ≡ true) ↔ Newer stream.last_handled n)
      × (ready ≡ true → stream'.last_handled ≡ n)
      × (ready ≡ false → stream' ≡ stream)
unfolding receive_best_effort_message seq_num_cmp seq_num_sub
receive_best_effort_message_lem stream n hs hn = ground arith

abbrev pub AllSeqNum : List ℕ → Type 0
AllSeqNum [] = Unit
AllSeqNum (n ∷ ns) = IsSeqNum n × AllSeqNum ns

-- Whatever messages come, in whatever order and however often: those that are taken come in rising
-- order: each lies 1 to 2 ^ 15 - 1 numbers ahead of the one taken before it.
pub taken-Rising :
    (stream : InputBestEffortStream) (ns : List ℕ)
    → IsSeqNum stream.last_handled
    → AllSeqNum ns
    → Rising stream.last_handled (taken stream ns)
unfolding taken
taken-Rising stream [] hs all = tt
taken-Rising stream (n ∷ ns) hs (hn, all) =
    let (newer, moved, same) = receive_best_effort_message_lem stream n hs hn in
    let stream' = (receive_best_effort_message stream n).1 in
    elim (Bool-cases (receive_best_effort_message stream n).0) [
      | inl e ↦
          let at = moved e in
          rw e (
            newer.0 e,
            transport (ap (λ m. Rising m (taken stream' ns)) at)
                (taken-Rising stream' ns (omega (arith, at)) all),
          )
      | inr e ↦
          let at = ap (λ s. s.last_handled) (same e) in
          rw e (
            transport (ap (λ m. Rising m (taken stream' ns)) at)
              (taken-Rising stream' ns (omega (arith, at)) all))
    ]

-- Messages that come in rising order are all taken.
pub taken_all :
    (stream : InputBestEffortStream) (ns : List ℕ)
    → IsSeqNum stream.last_handled
    → AllSeqNum ns
    → Rising stream.last_handled ns
    → taken stream ns ≡ ns
unfolding taken
taken_all stream [] hs all rising = refl
taken_all stream (n ∷ ns) hs (hn, all) (newer, rising) =
    let (iff, moved, same) = receive_best_effort_message_lem stream n hs hn in
    let stream' = (receive_best_effort_message stream n).1 in
    let e = iff.1 newer in
    let at = moved e in
    rw e (
      ap (λ r. n ∷ r)
        (taken_all stream' ns (omega (arith, at)) all
          (transport (ap (λ m. Rising m ns) (sym at)) rising)))
