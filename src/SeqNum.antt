-- ===== src/SeqNum.antt =====
-- src/c/core/session/stream/seq_num.c: 16-bit sequence numbers that wrap.
pub mod Order
pub mod Tests
use micro_xrce_dds_client.Prelude.{
  ℕ, ◌+◌, ◌-◌, ◌%◌, ◌^◌, Bool, true, false, ltb, ◌==◌, if◌then◌else◌, ◌&&◌, ◌||◌,
}

-- SEQ_NUM_SIZE, SEQ_NUM_MIDSIZE and SEQ_NUM_MAX.
abbrev pub seq_num_size : ℕ
seq_num_size = 2 ^ 16

abbrev pub seq_num_midsize : ℕ
seq_num_midsize = 2 ^ 15

abbrev pub seq_num_max : ℕ
seq_num_max = 2 ^ 16 - 1

-- The `int` that `uxr_seq_num_cmp` returns: -1, 0 and 1.
pub data Cmp : Type 0 where
  minus_one null one : Cmp

unfoldable pub seq_num_add : ℕ → ℕ → ℕ
seq_num_add seq_num increment = (seq_num + increment) % seq_num_size

unfoldable pub seq_num_sub : ℕ → ℕ → ℕ
seq_num_sub seq_num decrement =
    (if ltb seq_num decrement then seq_num + (seq_num_size - decrement) else seq_num - decrement)
    % 2 ^ 16

unfoldable pub seq_num_cmp : ℕ → ℕ → Cmp
seq_num_cmp a b =
    if a == b
    then null
    else if (ltb a b && ltb (b - a) seq_num_midsize) || (ltb b a && ltb seq_num_midsize (a - b))
    then minus_one
    else one

-- The tests `0 > cmp`, `0 >= cmp` and `0 <= cmp` of the callers.
abbrev pub is_neg : Cmp → Bool
is_neg minus_one = true
is_neg _ = false

abbrev pub is_nonpos : Cmp → Bool
is_nonpos one = false
is_nonpos _ = true

abbrev pub is_nonneg : Cmp → Bool
is_nonneg minus_one = false
is_nonneg _ = true
