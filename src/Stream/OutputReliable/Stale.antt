-- ===== src/Stream/OutputReliable/Stale.antt =====
-- What an ACKNACK that comes late does to an output stream.
use micro_xrce_dds_client.Prelude.{ℕ, ◌+◌, ◌-◌, ◌%◌, ◌^◌, ◌≤◌, ◌<◌, ◌≡◌, ◌∙◌, sym, arith}
use Prim.Native.Nat.{◌∣◌}
use native.Mathlib.Nat.{mod-mod_of_dvd, mod-add-mod, mod-eq_of_lt}
use native.Mathlib.Decide.{dec_lt}
use micro_xrce_dds_client.SeqNum.{seq_num_add, seq_num_sub}
use micro_xrce_dds_client.Stream.ReliableBuffer.{get_reliable_buffer_size}
use micro_xrce_dds_client.Stream.OutputReliable.{OutputReliableStream, process_acknack}
use micro_xrce_dds_client.Stream.OutputReliable.Acknack.{
  IsOutput, Cleaned, newly_acked, process_acknack-Acked,
}

mod_wrap : (x n : ℕ) → x < n → (x + n) % n ≡ x
mod_wrap x n h = grind arith

-- `k` numbers further, the remainder is `k` larger.
slot_ahead : (a h k t : ℕ) → h ∣ 2 ^ 16 → (a % h + k) % h ≡ t → seq_num_add a k % h ≡ t
unfolding seq_num_add
slot_ahead a h k t d e = mod-mod_of_dvd h (a + k) d ∙ sym (mod-add-mod a h k) ∙ e

-- Among `history` consecutive numbers there is one for every slot.
slot_reached :
    (stream : OutputReliableStream) (m : ℕ)
    → IsOutput stream
    → stream.base.history ∣ 2 ^ 16
    → Cleaned stream stream.base.history m
slot_reached stream m v d =
    let a = stream.last_acknown in
    let h = stream.base.history in
    let pos = v.block.some_history in
    elim (dec_lt (a % h) (m % h)) [
      | yes lt ↦
          let e : a % h + (m % h - a % h) ≡ m % h = omega arith in
          (
            m % h - a % h,
            omega arith,
            omega (arith, pos),
            slot_ahead a h (m % h - a % h) (m % h) d (rw e (mod-eq_of_lt (omega (arith, pos)))),
          )
      | no ge ↦
          let e : a % h + (m % h + h - a % h) ≡ m % h + h = omega (arith, pos) in
          (
            m % h + h - a % h,
            omega (arith, pos),
            omega (arith, ge),
            slot_ahead a h (m % h + h - a % h) (m % h) d
                (rw e (mod_wrap (m % h) h (omega (arith, pos)))),
          )
    ]

-- An ACKNACK that acknowledges less than an earlier one did (it was delayed on the way) moves the last
-- acknowledged number back and frees every slot: the lengths of all messages that wait to be sent or
-- to be acknowledged are lost. The history is a power of two, as the comment of
-- `uxr_init_output_reliable_stream` asks, and the ACKNACK is `k` numbers late.
pub process_acknack-stale :
    (stream : OutputReliableStream) (bitmap k m : ℕ)
    → IsOutput stream
    → stream.base.history ∣ 2 ^ 16
    → 1 ≤ k
    → k + stream.base.history ≤ 2 ^ 16
    → let stream' =
        process_acknack stream bitmap (seq_num_add (seq_num_sub stream.last_acknown k) 1) in
      (stream'.last_acknown ≡ seq_num_sub stream.last_acknown k)
      × (get_reliable_buffer_size stream'.base m ≡ stream.offset)
process_acknack-stale stream bitmap k m v d k1 kh =
    let first = seq_num_add (seq_num_sub stream.last_acknown k) 1 in
    let a = process_acknack-Acked stream bitmap first v in
    let back : seq_num_sub first 1 ≡ seq_num_sub stream.last_acknown k =
      unfold seq_num_add seq_num_sub in ground arith in
    let many : stream.base.history ≤ newly_acked stream first =
      unfold seq_num_add seq_num_sub in ground (arith, v.acknown) in
    let (j, j1, jh, e) = slot_reached stream m v d in
    (a.last_acknown ∙ back, a.free m (j, j1, omega (arith, jh, many), e))
