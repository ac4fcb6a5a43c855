-- ===== src/SeqNum/Tests.antt =====
-- Runs of the sequence number operations.
use micro_xrce_dds_client.Prelude.{◌^◌, ◌≡◌, refl, arith, ltb, ◌==◌, if◌then◌else◌}
use micro_xrce_dds_client.SeqNum.{seq_num_cmp, seq_num_add, seq_num_sub, minus_one, null, one}
use micro_xrce_dds_client.SeqNum.Order.{cmp-add, add-sub_inverse}

cmp_wraps : seq_num_cmp 65535 0 ≡ minus_one
unfolding seq_num_cmp
cmp_wraps = refl

cmp-add_example :
    seq_num_cmp 65530 (seq_num_add 65530 10)
    ≡ (if 10 == 0 then null else if ltb 10 (2 ^ 15) then minus_one else one)
cmp-add_example = cmp-add 65530 10 (omega arith) (omega arith)

add-sub_inverse_example :
    (seq_num_sub (seq_num_add 65530 10) 10 ≡ 65530)
    × (seq_num_add (seq_num_sub 65530 10) 10 ≡ 65530)
add-sub_inverse_example = add-sub_inverse 65530 10 (omega arith) (omega arith)
