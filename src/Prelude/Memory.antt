-- ===== src/Prelude/Memory.antt =====
-- Memory behind a pointer: the byte at each offset. `memcpy` and the four bytes of a `uint32_t`.
use Prim.Native.Nat.{ℕ, zero, suc, ◌+◌, ◌-◌, ◌*◌, ◌/◌, ◌%◌, ◌^◌, ◌≤◌, ◌<◌}
use mathlib.Core.Path.{◌≡◌, ◌∙◌, refl, ap, ap₂, subst}
use mathlib.Core.Bool.{◌&&◌}
use mathlib.Core.Logic.{◌⊎◌, inl}
use mathlib.Core.List.{List, [], ◌∷◌, ◌++◌}
use native.Mathlib.Omega.{arith}
use micro_xrce_dds_client.Prelude.Tests.{ltb, leb, if◌then◌else◌}
use micro_xrce_dds_client.Prelude.Lists.{length, get_or}

abbrev pub Memory : Type 0
Memory = ℕ → ℕ

-- The memory seen through a pointer at an offset.
abbrev pub at_offset : Memory → ℕ → Memory
at_offset m a i = m (a + i)

-- `memcpy(m + a, bytes, length bytes)`.
unfoldable pub memcpy : Memory → ℕ → List ℕ → Memory
memcpy m a bytes j = if leb a j && ltb j (a + length bytes) then get_or bytes (j - a) 0 else m j

unfoldable pub read_bytes : Memory → ℕ → ℕ → List ℕ
read_bytes m a zero = []
read_bytes m a (suc n) = m a ∷ read_bytes m (a + 1) n

-- The least significant byte first. Only `read_u32` reads what `write_u32` wrote, so the order of
-- the machine makes no difference.
unfoldable pub write_u32 : Memory → ℕ → ℕ → Memory
write_u32 m a v = memcpy m a (v % 256 ∷ v / 2 ^ 8 % 256 ∷ v / 2 ^ 16 % 256 ∷ v / 2 ^ 24 % 256 ∷ [])

unfoldable pub read_u32 : Memory → ℕ → ℕ
read_u32 m a = m a + m (a + 1) * 2 ^ 8 + m (a + 2) * 2 ^ 16 + m (a + 3) * 2 ^ 24

pub memcpy-outside :
    (m : Memory) (a : ℕ) (bytes : List ℕ) (j : ℕ)
    → (j < a) ⊎ (a + length bytes ≤ j)
    → memcpy m a bytes j ≡ m j
unfolding memcpy
memcpy-outside m a bytes j h = ground arith

pub memcpy-inside :
    (m : Memory) (a : ℕ) (bytes : List ℕ) (i : ℕ)
    → i < length bytes
    → memcpy m a bytes (a + i) ≡ get_or bytes i 0
unfolding memcpy
memcpy-inside m a bytes i h = let e : a + i - a ≡ i = omega arith in ground arith

abbrev low : ℕ → List ℕ
low v = v % 256 ∷ v / 2 ^ 8 % 256 ∷ v / 2 ^ 16 % 256 ∷ v / 2 ^ 24 % 256 ∷ []

at_zero : (m : Memory) (a : ℕ) (bytes : List ℕ) → memcpy m a bytes a ≡ memcpy m a bytes (a + 0)
at_zero m a bytes = let e : a + 0 ≡ a = omega arith in rw e

pub read-write_u32 : (m : Memory) (a v : ℕ) → v < 2 ^ 32 → read_u32 (write_u32 m a v) a ≡ v
unfolding read_u32 write_u32
read-write_u32 m a v h = omega (
  arith,
  memcpy-inside m a (low v) 0 (omega arith),
  memcpy-inside m a (low v) 1 (omega arith),
  memcpy-inside m a (low v) 2 (omega arith),
  memcpy-inside m a (low v) 3 (omega arith),
  at_zero m a (low v),
)

-- A write elsewhere leaves the four bytes alone.
pub read_u32-memcpy :
    (m : Memory) (a b : ℕ) (bytes : List ℕ)
    → (b + 4 ≤ a) ⊎ (a + length bytes ≤ b)
    → read_u32 (memcpy m a bytes) b ≡ read_u32 m b
unfolding read_u32
read_u32-memcpy m a b bytes h = omega (
  arith,
  memcpy-outside m a bytes b (omega arith),
  memcpy-outside m a bytes (b + 1) (omega arith),
  memcpy-outside m a bytes (b + 2) (omega arith),
  memcpy-outside m a bytes (b + 3) (omega arith),
)

pub read_u32-write_u32 :
    (m : Memory) (a b v : ℕ)
    → (b + 4 ≤ a) ⊎ (a + 4 ≤ b)
    → read_u32 (write_u32 m a v) b ≡ read_u32 m b
unfolding write_u32
read_u32-write_u32 m a b v h = read_u32-memcpy m a b _ h

pub read_bytes_cong :
    (m m' : Memory) (a n : ℕ)
    → ((i : ℕ) → i < n → m (a + i) ≡ m' (a + i))
    → read_bytes m a n ≡ read_bytes m' a n
unfolding read_bytes
read_bytes_cong m m' a zero h = refl
read_bytes_cong m m' a (suc n) h =
    let z : a + 0 ≡ a = omega arith in
    let head : m a ≡ m' a = subst (λ (j : ℕ). m j ≡ m' j) z (h 0 (omega arith)) in
    let next : (i : ℕ) → i < n → m (a + 1 + i) ≡ m' (a + 1 + i) =
      λ i hi. let e : a + 1 + i ≡ a + suc i = omega arith in rw e (h (suc i) (omega arith)) in
    rw head (ap (λ xs. m' a ∷ xs) (read_bytes_cong m m' (a + 1) n next))

pub read_bytes-list :
    (m : Memory) (a : ℕ) (bytes : List ℕ)
    → ((i : ℕ) → i < length bytes → m (a + i) ≡ get_or bytes i 0)
    → read_bytes m a (length bytes) ≡ bytes
unfolding read_bytes
read_bytes-list m a [] h = refl
read_bytes-list m a (b ∷ bytes) h =
    let z : a + 0 ≡ a = omega arith in
    let head : m a ≡ b = subst (λ (j : ℕ). m j ≡ b) z (h 0 (omega arith)) in
    let next : (i : ℕ) → i < length bytes → m (a + 1 + i) ≡ get_or bytes i 0 =
      λ i hi. let e : a + 1 + i ≡ a + suc i = omega arith in rw e (h (suc i) (omega arith)) in
    rw head (ap (λ xs. b ∷ xs) (read_bytes-list m (a + 1) bytes next))

pub read_bytes-add :
    (m : Memory) (a n k : ℕ) → read_bytes m a (n + k) ≡ read_bytes m a n ++ read_bytes m (a + n) k
unfolding read_bytes
read_bytes-add m a zero k =
    let z : a + 0 ≡ a = omega arith in let k' : 0 + k ≡ k = omega arith in rw (z, k')
read_bytes-add m a (suc n) k =
    let e : a + suc n ≡ a + 1 + n = omega arith in
    let f : suc n + k ≡ suc (n + k) = omega arith in
    rw (e, f) (ap (λ xs. m a ∷ xs) (read_bytes-add m (a + 1) n k))

-- Bytes copied behind the first `p` extend them.
pub read_bytes-memcpy :
    (m : Memory) (p : ℕ) (bytes : List ℕ)
    → read_bytes (memcpy m p bytes) 0 (p + length bytes) ≡ read_bytes m 0 p ++ bytes
read_bytes-memcpy m p bytes =
    read_bytes-add (memcpy m p bytes) 0 p (length bytes)
    ∙ ap₂ ◌++◌
        (read_bytes_cong (memcpy m p bytes) m 0 p
          (λ i hi. memcpy-outside m p bytes (0 + i) (inl (omega arith))))
        (read_bytes-list (memcpy m p bytes) (0 + p) bytes
          (λ i hi. let z : 0 + p ≡ p = omega arith in rw z (memcpy-inside m p bytes i hi)))

pub length-read_bytes : (m : Memory) (a n : ℕ) → length (read_bytes m a n) ≡ n
unfolding read_bytes
length-read_bytes m a zero = refl
length-read_bytes m a (suc n) = ap suc (length-read_bytes m (a + 1) n)
