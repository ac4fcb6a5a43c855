-- ===== src/Stream/Storage/Arrays.antt =====
-- The elements of an array with a count.
use mathlib.Core.Option.{map}
use micro_xrce_dds_client.Prelude.{
  ℕ, zero, suc, ◌+◌, ◌%◌, ◌^◌, ◌≤◌, ◌<◌, ◌≡◌, ◌≢◌, refl, ap, ◌∙◌, sym, arith, true, false, Option,
  none, some, List, [], ◌∷◌, length, ltb, ◌==◌, if◌then◌else◌, Bool-cases, inl, inr,
}
use micro_xrce_dds_client.Stream.Storage.{get_elem?, modify, reset_from}

module _ {ℓ} {A : Type ℓ} where
  pub get_elem?-modify_self :
      (xs : List A) (i : ℕ) (f : A → A) → get_elem? (modify xs i f) i ≡ map f (get_elem? xs i)
  unfolding get_elem? modify
  get_elem?-modify_self [] i f = refl
  get_elem?-modify_self (x ∷ xs) zero f = refl
  get_elem?-modify_self (x ∷ xs) (suc i) f = get_elem?-modify_self xs i f

  pub get_elem?-modify_ne :
      (xs : List A) (i j : ℕ) (f : A → A) → i ≢ j → get_elem? (modify xs i f) j ≡ get_elem? xs j
  unfolding get_elem? modify
  get_elem?-modify_ne [] i j f h = refl
  get_elem?-modify_ne (x ∷ xs) zero zero f h = absurd (h refl)
  get_elem?-modify_ne (x ∷ xs) zero (suc j) f h = refl
  get_elem?-modify_ne (x ∷ xs) (suc i) zero f h = refl
  get_elem?-modify_ne (x ∷ xs) (suc i) (suc j) f h =
      get_elem?-modify_ne xs i j f (λ e. h (ap suc e))

  pub get_elem?-inside : (xs : List A) (i : ℕ) → i < length xs → (x : A) × (get_elem? xs i ≡ some x)
  unfolding get_elem?
  get_elem?-inside [] i h = absurd (omega arith)
  get_elem?-inside (x ∷ xs) zero h = (x, refl)
  get_elem?-inside (x ∷ xs) (suc i) h = get_elem?-inside xs i (omega arith)

  pub reset_from-before :
      (n i j : ℕ) (f : A → A) (xs : List A)
      → j < i
      → get_elem? (reset_from n i f xs) j ≡ get_elem? xs j
  unfolding reset_from
  reset_from-before zero i j f xs h = refl
  reset_from-before (suc n) i j f xs h =
      reset_from-before n (i + 1) j f (modify xs i f) (omega arith)
      ∙ get_elem?-modify_ne xs i j f (λ e. omega (arith, e))

  pub reset_from-inside :
      (n i j : ℕ) (f : A → A) (xs : List A)
      → i ≤ j
      → j < i + n
      → get_elem? (reset_from n i f xs) j ≡ map f (get_elem? xs j)
  unfolding reset_from
  reset_from-inside zero i j f xs h h' = absurd (omega arith)
  reset_from-inside (suc n) i j f xs h h' = elim (Bool-cases (i == j)) [
    | inl e ↦
        let q : i ≡ j = ground arith in
        rw q (
          reset_from-before n (j + 1) j f (modify xs j f) (omega arith)
          ∙ get_elem?-modify_self xs j f)
    | inr e ↦
        let q : i ≢ j = ground arith in
        reset_from-inside n (i + 1) j f (modify xs i f) (omega (arith, q)) (omega arith)
        ∙ ap (λ o. map f o) (get_elem?-modify_ne xs i j f q)
  ]

  -- An array with a count: the elements below the count.
  abbrev pub lookup : List A → ℕ → ℕ → Option A
  lookup xs size i = if ltb i size then get_elem? xs i else none

  pub lookup-reset_from :
      (xs : List A) (size i : ℕ) (f : A → A)
      → lookup (reset_from size 0 f xs) size i ≡ map f (lookup xs size i)
  lookup-reset_from xs size i f = elim (Bool-cases (ltb i size)) [
    | inl e ↦ rw e (reset_from-inside size 0 i f xs (omega arith) (ground arith))
    | inr e ↦ rw e refl
  ]

  pub lookup-modify :
      (xs : List A) (size i : ℕ) (f : A → A)
      → size < 255
      → i ≢ size
      → lookup (modify xs size f) ((size + 1) % 2 ^ 8) i ≡ lookup xs size i
  lookup-modify xs size i f h ne =
      let plain : (size + 1) % 2 ^ 8 ≡ size + 1 = omega arith in
      let same : ltb i (size + 1) ≡ ltb i size = ground arith in
      rw (plain, same, get_elem?-modify_ne xs size i f (λ e. ne (sym e)))

  pub lookup-modify_self :
      (xs : List A) (size : ℕ) (f : A → A)
      → size < 255
      → lookup (modify xs size f) ((size + 1) % 2 ^ 8) size ≡ map f (get_elem? xs size)
  lookup-modify_self xs size f h =
      let plain : (size + 1) % 2 ^ 8 ≡ size + 1 = omega arith in
      let inside : ltb size (size + 1) ≡ true = ground arith in
      rw (plain, inside, get_elem?-modify_self xs size f)

  pub found-modify :
      (xs : List A) (size : ℕ) (f : A → A)
      → size < 255
      → size < length xs
      → (x : A) × (get_elem? xs size ≡ some x)
        × (lookup (modify xs size f) ((size + 1) % 2 ^ 8) size ≡ some (f x))
  found-modify xs size f h room =
      let (x, e) = get_elem?-inside xs size room in
      (x, e, lookup-modify_self xs size f h ∙ ap (λ o. map f o) e)

pub lookup-cons :
    {A : Type 0} (x : A) (xs : List A) (n i : ℕ) → lookup (x ∷ xs) (suc n) (suc i) ≡ lookup xs n i
unfolding get_elem?
lookup-cons x xs n i = let e : ltb (suc i) (suc n) ≡ ltb i n = ground arith in rw e refl

pub lookup-zero : {A : Type 0} (x : A) (xs : List A) (n : ℕ) → lookup (x ∷ xs) (suc n) 0 ≡ some x
unfolding get_elem?
lookup-zero x xs n = let e : ltb 0 (suc n) ≡ true = ground arith in rw e refl

pub lookup-nothing : {A : Type 0} (xs : List A) (i : ℕ) → lookup xs 0 i ≡ none
lookup-nothing xs i = let e : ltb i 0 ≡ false = ground arith in rw e refl

pub lookup-empty : {A : Type 0} (n i : ℕ) → lookup {A = A} [] n i ≡ none
unfolding get_elem?
lookup-empty n i = elim (Bool-cases (ltb i n)) [ inl e ↦ rw e refl | inr e ↦ rw e refl ]
