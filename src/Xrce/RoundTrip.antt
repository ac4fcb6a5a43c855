-- ===== src/Xrce/RoundTrip.antt =====
-- xrce_types.c: a CREATE payload that is written and read, and what bounds the sequences that are
-- read.
use micro_xrce_dds_client.Prelude.{
  ℕ, zero, suc, ◌≤◌, ◌<◌, ◌≡◌, refl, Bool, true, false, List, [], ◌∷◌, length, ltb, if◌then◌else◌,
  arith, ap, ◌&&◌, Bool-cases, inl, inr,
}
use micro_xrce_dds_client.Xrce.Cdr.{
  Step, MicroCdr, ◌>>=◌, pure, if_ok, deserialize_each, read_sequence,
}
use micro_xrce_dds_client.Xrce.Cdr.Laws.{Laws}
use micro_xrce_dds_client.Xrce.Cdr.Rules.{Codec-round_trip}
use micro_xrce_dds_client.Xrce.Payload.{CreatePayload}
use micro_xrce_dds_client.Xrce.Payload.Serialize.{serialize_create_payload}
use micro_xrce_dds_client.Xrce.Payload.Deserialize.{deserialize_create_payload}
use micro_xrce_dds_client.Xrce.Payload.Layout.{layout_create_payload, IsValidCreatePayload}
use micro_xrce_dds_client.Xrce.Payload.Codec.{create_payload-Codec}

module _ {B : Type 0} ⦃cdr : MicroCdr B⦄ ⦃laws : Laws cdr⦄ where
  -- A CREATE payload with strings, sequences and arrays within their bounds, which holds no agent
  -- with properties and no tag that stands for another case: on an empty buffer with room for its
  -- items the write succeeds, and a buffer that has yet to give exactly what was written gives the
  -- payload, with nothing left.
  pub deserialize_create_payload-serialize_create_payload :
      (x : CreatePayload)
      → IsValidCreatePayload x
      → (b : B) → laws.view.Fits b (layout_create_payload x)
      → laws.view.written b ≡ []
      → (b' : B) → laws.view.unread b' ≡ laws.view.written (serialize_create_payload x b).2
      → ((serialize_create_payload x b).0 ≡ true)
        × (rest : B) × (deserialize_create_payload b' ≡ (true, x, rest))
        × (laws.view.unread rest ≡ [])
  deserialize_create_payload-serialize_create_payload x valid =
      Codec-round_trip (create_payload-Codec x valid)

-- A read of `n` elements stores at most `n`, and exactly `n` when it succeeds.
abbrev Stores : {B A : Type 0} → ℕ → Bool × List A × B → Type 0
Stores n (ok, xs, _) = (length xs ≤ n) × (ok ≡ true → length xs ≡ n)

Stores-suc :
    {B A : Type 0} (ok : Bool) (x : A) (n : ℕ) (more : Bool × List A × B) (b : B)
    → Stores n more
    → Stores (suc n) (if ok then (more.0 && true, x ∷ more.1, more.2) else (false, x ∷ [], b))
Stores-suc true x n (true, xs, _) b (h, e) = (omega (arith, h), λ _. ap suc (e refl))
Stores-suc true x n (false, xs, _) b (h, e) = (omega (arith, h), λ g. cc)
Stores-suc false x n more b h = (omega arith, λ g. cc)

deserialize_each-Stores :
    {B A : Type 0} (deserialize : Step B A) (n : ℕ) (b : B)
    → Stores n (deserialize_each deserialize n b)
unfolding deserialize_each pure ◌>>=◌ if_ok
deserialize_each-Stores deserialize zero b = (omega arith, λ _. refl)
deserialize_each-Stores deserialize (suc n) b =
    let (ok, x, b') = deserialize b in
    Stores-suc ok x n (deserialize_each deserialize n b') b'
      (deserialize_each-Stores deserialize n b')

-- A sequence that is read element by element, for every Micro-CDR, every capacity and every way to read an
-- element: the size in the result is always the one that was read. No more elements are stored than the
-- capacity or than that size. A size above the capacity, which stays in the result, makes the read fail
-- with nothing stored and the buffer's error set. If the read succeeds, as many elements are stored as
-- the size says, and they fit the capacity.
pub read_sequence_lem :
    {B A : Type 0} ⦃cdr : MicroCdr B⦄ (capacity : ℕ) (deserialize : Step B A) (b : B)
    → let (_, size, b1) = cdr.deserialize_uint32 b in
      let (ok, sequence, b') = read_sequence capacity deserialize b in
      (sequence.size ≡ size)
      × (length sequence.elements ≤ capacity)
      × (length sequence.elements ≤ size)
      × (capacity < size → (ok ≡ false) × (sequence.elements ≡ []) × (b' ≡ cdr.set_error b1))
      × (ok ≡ true → (length sequence.elements ≡ size) × (size ≤ capacity))
unfolding read_sequence
read_sequence_lem ⦃cdr⦄ capacity deserialize b =
    let (ok, size, b1) = cdr.deserialize_uint32 b in
    let (within, all) = deserialize_each-Stores deserialize size b1 in
    elim (Bool-cases (ltb capacity size)) [
      | inl e ↦
          rw e (refl, omega arith, omega arith, λ _. (refl, refl, refl), λ t. absurd (ground arith))
      | inr e ↦ elim (Bool-cases ok) [
        | inl t ↦
            rw (e, t)
              (
                refl,
                ground arith,
                within,
                λ over. absurd (ground arith),
                λ yes. (all yes, ground arith),
              )
        | inr f ↦
            rw (e, f)
              (
                refl,
                omega arith,
                omega arith,
                λ over. absurd (ground arith),
                λ yes. absurd (ground arith),
              )
      ]
    ]
