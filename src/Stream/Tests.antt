-- ===== src/Stream/Tests.antt =====
-- The theorems on streams at concrete streams.
use micro_xrce_dds_client.Prelude.{
  ℕ, ◌⊎◌, zero, suc, ◌+◌, ◌/◌, ◌%◌, ◌≤◌, ◌<◌, ◌≡◌, ◌≢◌, refl, arith, true, false, not, ◌&&◌, ◌↔◌,
  none, some, List, [], ◌∷◌, get_or, ltb, ◌==◌, if◌then◌else◌,
}
use micro_xrce_dds_client.Prelude.Int.{pos}
use micro_xrce_dds_client.Prelude.Memory.{Memory, read_u32}
use micro_xrce_dds_client.SeqNum.{seq_num_add, seq_num_sub, seq_num_cmp}
use micro_xrce_dds_client.Stream.ReliableBuffer.{
  ReliableStream, get_reliable_buffer, get_reliable_buffer_size, get_reliable_buffer_capacity,
}
use micro_xrce_dds_client.Stream.ReliableBuffer.Slots.{IsBlock, slot}
use micro_xrce_dds_client.Stream.ReliableBuffer.Store.{store_message, message-store_message}
use micro_xrce_dds_client.Stream.OutputReliable.{
  OutputReliableStream, prepare_next_reliable_buffer_to_send, cancel_reliable_buffer_to_send,
  process_acknack, nack_rounds,
}
use micro_xrce_dds_client.Stream.OutputReliable.Acknack.{
  IsOutput, Acked, newly_acked, process_acknack-Acked,
}
use micro_xrce_dds_client.Stream.OutputReliable.Stale.{process_acknack-stale}
use micro_xrce_dds_client.Stream.OutputReliable.Nack.{Found, NoneLeft, nack_rounds_lem}
use micro_xrce_dds_client.Stream.OutputReliable.Flow.{
  IsFlow, in_flight, prepare_next-IsFlow, process_acknack-IsFlow, cancel-prepare_next,
}
use micro_xrce_dds_client.Stream.InputReliable.{
  is_last, InputReliableStream, FragmentationInfo, no_fragmented, intermediate_fragment,
  last_fragment, in_window, receive_reliable_message, check_from, fragmentation_at,
}
use micro_xrce_dds_client.Stream.InputReliable.Hang.{
  ReadsHeader, HoldsIntermediate, check_from-stops, receive-hangs, ahead,
}
use micro_xrce_dds_client.Stream.InputReliable.Window.{in_window_iff}
use micro_xrce_dds_client.Stream.InputReliable.Reorder.{InOrder, reorder}

abbrev base : ReliableStream
base = record { buffer = λ i. 0; size = 64; history = 4 }

base-IsBlock : IsBlock base
base-IsBlock = omega arith

-- A fragment has the submessage identifier 13, and the flag 2 if it is the last one.
abbrev fragment_info : Memory → FragmentationInfo
fragment_info m =
    if m 0 == 13
    then (if m 1 / 2 % 2 == 1 then last_fragment else intermediate_fragment)
    else no_fragmented

fragment_info-ReadsHeader : ReadsHeader fragment_info
fragment_info-ReadsHeader m m' h = rw (h 0 (omega arith), h 1 (omega arith)) refl

abbrev input : InputReliableStream
input = record {
  base = base;
  last_handled = 65535;
  last_announced = 65535;
  on_get_fragmentation_info = fragment_info;
  cleanup_flag = false;
}

abbrev first_message : List ℕ
first_message = 1 ∷ 0 ∷ 0 ∷ 0 ∷ []

abbrev second_message : List ℕ
second_message = 2 ∷ 0 ∷ 1 ∷ 0 ∷ 9 ∷ []

input_free : get_reliable_buffer_size base (seq_num_add 65535 2) ≡ 0
unfolding seq_num_add get_reliable_buffer_size read_u32
input_free = refl

reorder_example : InOrder 0 input first_message second_message
reorder_example =
    reorder 0 input first_message second_message base-IsBlock (omega arith) (omega arith)
      (omega arith) fragment_info-ReadsHeader refl refl (omega arith)
      (unfold get_reliable_buffer_capacity in omega arith) input_free

-- Slots 0 to 2 hold a fragment that is not the last one, slot 3 is free.
abbrev fragments : Memory
fragments i = if i == 48 then 0 else if i % 16 == 0 then 4 else if i % 16 == 4 then 13 else 0

abbrev fragmented : InputReliableStream
fragmented = record input { base = record base { buffer = fragments } }

holds :
    (n : ℕ)
    → get_reliable_buffer_size fragmented.base n ≡ 4
    → fragmentation_at fragmented n ≡ intermediate_fragment
    → HoldsIntermediate fragmented n
holds n size info = (λ z. absurd (omega (arith, size, z)), info)

slot_holds : (k n : ℕ) → n % 4 ≡ k → k ≢ 3 → k < 4 → HoldsIntermediate fragmented n
unfolding get_reliable_buffer_size read_u32
slot_holds zero n e ne h = holds n (rw e refl) (rw e refl)
slot_holds (suc zero) n e ne h = holds n (rw e refl) (rw e refl)
slot_holds (suc (suc zero)) n e ne h = holds n (rw e refl) (rw e refl)
slot_holds (suc (suc (suc zero))) n e ne h = absurd (ne refl)
slot_holds (suc (suc (suc (suc k)))) n e ne h = absurd (omega arith)

abbrev fragment : List ℕ
fragment = 13 ∷ 0 ∷ 1 ∷ 0 ∷ 7 ∷ []

slot_free : get_reliable_buffer_size fragmented.base 3 ≡ 0
unfolding get_reliable_buffer_size read_u32
slot_free = refl

three_in_window : in_window fragmented 3 ≡ true
unfolding seq_num_add seq_num_cmp
three_in_window = refl

receive-hangs_example : receive_reliable_message 1000 fragmented 3 fragment ≡ none
receive-hangs_example =
    receive-hangs fragmented 3 fragment (omega arith)
      (unfold get_reliable_buffer_capacity in omega arith) (omega arith) fragment_info-ReadsHeader
      1000 three_in_window slot_free refl
      (λ n ne. slot_holds (n % 4) n refl (λ e. ne (omega (arith, e))) (omega arith))

in_window_iff_example : (in_window input (seq_num_add 65535 4) ≡ true) ↔ ((0 < 4) × (4 ≤ 4))
in_window_iff_example = in_window_iff input 4 (omega arith) (omega arith) (omega arith)

before : (i : ℕ) → i < 3 → HoldsIntermediate fragmented (ahead 65535 i)
unfolding seq_num_add
before zero h = slot_holds 0 0 refl (λ e. omega (arith, e)) (omega arith)
before (suc zero) h = slot_holds 1 1 refl (λ e. omega (arith, e)) (omega arith)
before (suc (suc zero)) h = slot_holds 2 2 refl (λ e. omega (arith, e)) (omega arith)
before (suc (suc (suc i))) h = absurd (omega arith)

last_free : get_reliable_buffer_size fragmented.base (ahead 65535 3) ≡ 0
unfolding seq_num_add get_reliable_buffer_size read_u32
last_free = refl

-- From the last handled number 65535 on: fragments in the slots 0 to 2, and none in slot 3.
check_from-stops_example :
    check_from 4 fragmented 65535
    ≡ some (
      not (get_reliable_buffer_size fragmented.base (ahead 65535 3) == 0)
          && is_last (fragmentation_at fragmented (ahead 65535 3)),
      ahead 65535 3,
    )
check_from-stops_example =
    check_from-stops 3 4 fragmented 65535 (omega arith) before (λ (h, _). h last_free)

message-store_message_example :
    (store_message base 1 first_message).buffer (get_reliable_buffer base 5 + 0)
    ≡ (if slot base 1 == slot base 5 && ltb 0 4 then get_or first_message 0 0 else 0)
message-store_message_example =
    message-store_message base-IsBlock 1 5 first_message
      (unfold get_reliable_buffer_capacity in omega arith) 0
      (unfold get_reliable_buffer_capacity in omega arith)

-- Messages 1 and 2 are on the way, 3 is written and not sent. A free slot has the length 8.
abbrev output : OutputReliableStream
output = record {
  base = record base {
    buffer = λ i.
        if i == 0
        then 8
        else if i == 16
        then 12
        else if i == 32
        then 12
        else if i == 48
        then 12
        else 0;
  };
  offset = 8;
  last_written = 3;
  last_sent = 2;
  last_acknown = 0;
  next_heartbeat_timestamp = pos 0;
  next_heartbeat_tries = 0;
  send_lost = false;
}

output-IsOutput : IsOutput output
output-IsOutput = omega arith

output-IsFlow : IsFlow output
output-IsFlow = record { output = output-IsOutput; window = unfold seq_num_sub in omega arith }

process_acknack-Acked_example : Acked output 1 2 (process_acknack output 1 2)
process_acknack-Acked_example = process_acknack-Acked output 1 2 output-IsOutput

process_acknack-stale_example :
    let output' = process_acknack output 0 (seq_num_add (seq_num_sub 0 1) 1) in
    (output'.last_acknown ≡ seq_num_sub 0 1) × (get_reliable_buffer_size output'.base 2 ≡ 8)
process_acknack-stale_example =
    process_acknack-stale output 0 1 2 output-IsOutput ∣ (16384, refl) ∣₁ (omega arith)
      (omega arith)

prepare_next-IsFlow_example :
    let (data_to_send, _, _, n, output') = prepare_next_reliable_buffer_to_send output in
    IsFlow output'
    × (n ≡ seq_num_add 2 1)
    × (data_to_send ≡ true → (output'.last_sent ≡ n) × (in_flight output' ≡ in_flight output + 1))
    × (data_to_send ≡ false → output' ≡ output)
    × (in_flight output ≡ 4 → data_to_send ≡ false)
prepare_next-IsFlow_example = prepare_next-IsFlow output output-IsFlow

process_acknack-IsFlow_example :
    let output' = process_acknack output 1 2 in
    IsFlow output' × (in_flight output' + newly_acked output 2 ≡ in_flight output)
process_acknack-IsFlow_example =
    process_acknack-IsFlow output 1 2 output-IsFlow (unfold seq_num_sub in omega arith)

cancel-prepare_next_example :
    let (_, _, _, n, output') = prepare_next_reliable_buffer_to_send output in
    let next = seq_num_add n 1 in
    let free = get_reliable_buffer_size output.base next ≡ 8 in
    let cancelled = cancel_reliable_buffer_to_send output' n in
    (3 ≡ n → ¬ free → cancelled ≡ record output { last_written = next })
    × (3 ≡ next → free → cancelled ≡ record output { last_written = n })
    × ((3 ≡ n → free) → (3 ≡ next → ¬ free) → cancelled ≡ output)
cancel-prepare_next_example = cancel-prepare_next output output-IsOutput ready
  where
    ready : (prepare_next_reliable_buffer_to_send output).0 ≡ true
    ready =
        unfold prepare_next_reliable_buffer_to_send seq_num_add seq_num_sub seq_num_cmp
          get_reliable_buffer_size read_u32 in
        refl

-- A full window: cancelling leaves the last written number one higher.
abbrev full_output : OutputReliableStream
full_output = record output {
  base = record base { buffer = λ i. if i % 16 == 0 then 12 else 0 };
  last_acknown = 65535;
}

cancel_full_runs :
    cancel_reliable_buffer_to_send (prepare_next_reliable_buffer_to_send full_output).4 3
    ≡ record full_output { last_written = 4 }
unfolding prepare_next_reliable_buffer_to_send cancel_reliable_buffer_to_send seq_num_add
    seq_num_sub seq_num_cmp get_reliable_buffer_size read_u32
cancel_full_runs = refl

nack_rounds_lem_example :
    Found output 0 2 (nack_rounds 3 output 0) ⊎ NoneLeft output 0 2 (nack_rounds 3 output 0)
nack_rounds_lem_example =
    nack_rounds_lem 3 2 output 0 (omega arith) (omega arith) (unfold seq_num_sub in refl)
      (omega arith) (omega arith)
