-- ===== src/Prelude/Bits.antt =====
-- Masks and exclusive-or on bytes as arithmetic, each a table checked by evaluation.
use Prim.Native.Nat.{
  ℕ, zero, suc, ◌+◌, ◌*◌, ◌^◌, ◌%◌, ◌<◌, bit_and, bit_or, bit_xor, compare, Ordering,
}
use mathlib.Core.Path.{◌≡◌, refl}
use mathlib.Core.Bool.{Bool, true, false, ◌&&◌}
use native.Mathlib.Decide.{dec_lt}
use native.Mathlib.Omega.{arith}

abbrev same : ℕ → ℕ → Bool
same a b = elim (compare a b) [ Ordering.eq ↦ true | _ ↦ false ]

-- Two functions agree below a bound.
agree_below : (ℕ → ℕ) → (ℕ → ℕ) → ℕ → Bool
agree_below f g zero = true
agree_below f g (suc n) = same (f n) (g n) && agree_below f g n

agree_below→eq : (f g : ℕ → ℕ) (n : ℕ) → agree_below f g n ≡ true → (i : ℕ) → i < n → f i ≡ g i
unfolding agree_below
agree_below→eq f g zero e i h = absurd (omega arith)
agree_below→eq f g (suc n) e i h = ground (arith, agree_below→eq f g n (ground arith) i)

pub bit_and-low4 : (b : ℕ) → b < 256 → bit_and b 0x0f ≡ b % 16
unfolding agree_below
bit_and-low4 = agree_below→eq (λ b. bit_and b 0x0f) (λ b. b % 16) 256 refl

pub bit_xor-twice : (b : ℕ) → b < 256 → bit_xor (bit_xor b 0x20) 0x20 ≡ b
unfolding agree_below
bit_xor-twice = agree_below→eq (λ b. bit_xor (bit_xor b 0x20) 0x20) (λ b. b) 256 refl

abbrev rows_agree : ℕ → Bool
rows_agree zero = true
rows_agree (suc hi) =
    agree_below (λ lo. bit_or (hi * 2 ^ 8) lo) (λ lo. hi * 2 ^ 8 + lo) 256 && rows_agree hi

rows_agree→eq :
    (n : ℕ)
    → rows_agree n ≡ true
    → (hi : ℕ) → hi < n
    → (lo : ℕ) → lo < 256
    → bit_or (hi * 2 ^ 8) lo ≡ hi * 2 ^ 8 + lo
rows_agree→eq zero e hi h lo h' = absurd (omega arith)
rows_agree→eq (suc n) e hi h lo h' = elim (dec_lt hi n) [
  | yes lt ↦ rows_agree→eq n (ground arith) hi lt lo h'
  | no ge ↦
      let q : hi ≡ n = omega (arith, ge) in
      rw q (
        agree_below→eq (λ lo. bit_or (n * 2 ^ 8) lo) (λ lo. n * 2 ^ 8 + lo) 256 (ground arith) lo
          h')
]

-- Two octets put together.
pub bit_or-octets : (hi lo : ℕ) → hi < 256 → lo < 256 → bit_or (hi * 2 ^ 8) lo ≡ hi * 2 ^ 8 + lo
unfolding agree_below
bit_or-octets hi lo h h' = rows_agree→eq 256 refl hi h lo h'
