-- ===== src/SeqNum/Order.antt =====
-- What the wrapping arithmetic and comparison of sequence numbers mean.
use micro_xrce_dds_client.Prelude.{ℕ, ◌^◌, ◌<◌, ◌≡◌, ltb, ◌==◌, if◌then◌else◌, arith}
use micro_xrce_dds_client.SeqNum.{
  seq_num_size, minus_one, null, one, seq_num_add, seq_num_sub, seq_num_cmp,
}

abbrev pub IsSeqNum : ℕ → Type 0
IsSeqNum n = n < seq_num_size

pub add-IsSeqNum : (s d : ℕ) → IsSeqNum (seq_num_add s d)
unfolding seq_num_add
add-IsSeqNum s d = omega arith

pub sub-IsSeqNum : (s d : ℕ) → IsSeqNum (seq_num_sub s d)
unfolding seq_num_sub
sub-IsSeqNum s d = ground arith

-- Addition and subtraction of the same 16-bit number undo one another, across the wrap too.
pub add-sub_inverse :
    (s d : ℕ)
    → IsSeqNum s
    → IsSeqNum d
    → (seq_num_sub (seq_num_add s d) d ≡ s) × (seq_num_add (seq_num_sub s d) d ≡ s)
unfolding seq_num_add seq_num_sub
add-sub_inverse s d hs hd = ground arith

-- The distance from `s` to `s + d` is `d`.
pub sub-add_distance : (s d : ℕ) → IsSeqNum s → IsSeqNum d → seq_num_sub (seq_num_add s d) s ≡ d
unfolding seq_num_add seq_num_sub
sub-add_distance s d hs hd = ground arith

-- The comparison sees only the distance ahead, modulo 2 ^ 16: equal at distance 0, less at a
-- distance below 2 ^ 15, and greater at any other distance (2 ^ 15 included).
pub cmp-add :
    (s d : ℕ)
    → IsSeqNum s
    → IsSeqNum d
    → seq_num_cmp s (seq_num_add s d)
      ≡ (if d == 0 then null else if ltb d (2 ^ 15) then minus_one else one)
unfolding seq_num_cmp seq_num_add
cmp-add s d hs hd = ground arith
