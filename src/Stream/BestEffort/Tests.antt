-- ===== src/Stream/BestEffort/Tests.antt =====
-- The theorems on best-effort streams at concrete streams.
use micro_xrce_dds_client.Prelude.{
  ℕ, ◌+◌, ◌≤◌, ◌≡◌, ◌≢◌, ◌↔◌, refl, arith, true, false, none, some, List, [], ◌∷◌,
}
use micro_xrce_dds_client.SeqNum.{seq_num_add, seq_num_sub}
use micro_xrce_dds_client.Stream.BestEffort.{
  InputBestEffortStream, OutputBestEffortStream, prepare_best_effort_buffer_to_write,
  prepare_best_effort_buffer_to_send,
}
use micro_xrce_dds_client.Stream.BestEffort.Input.{
  Rising, AllSeqNum, taken, taken-Rising, taken_all,
}
use micro_xrce_dds_client.Stream.BestEffort.Output.{
  IsOutput, prepare_to_write_lem, prepare_to_send_lem,
}

abbrev fresh : InputBestEffortStream
fresh = record { last_handled = 65535 }

abbrev shuffled : List ℕ
shuffled = 0 ∷ 2 ∷ 1 ∷ 2 ∷ 5 ∷ []

abbrev in_order : List ℕ
in_order = 0 ∷ 2 ∷ 5 ∷ []

shuffled-AllSeqNum : AllSeqNum shuffled
shuffled-AllSeqNum = (omega arith, (omega arith, (omega arith, (omega arith, (omega arith, tt)))))

in_order-AllSeqNum : AllSeqNum in_order
in_order-AllSeqNum = (omega arith, (omega arith, (omega arith, tt)))

in_order-Rising : Rising 65535 in_order
unfolding seq_num_sub
in_order-Rising =
    ((omega arith, omega arith), ((omega arith, omega arith), ((omega arith, omega arith), tt)))

taken-Rising_example : Rising 65535 (taken fresh shuffled)
taken-Rising_example = taken-Rising fresh shuffled (omega arith) shuffled-AllSeqNum

taken_all_example : taken fresh in_order ≡ in_order
taken_all_example = taken_all fresh in_order (omega arith) in_order-AllSeqNum in_order-Rising

abbrev packet : OutputBestEffortStream
packet = record { size = 64; offset = 8; writer = 20; last_send = 65535 }

packet-IsOutput : IsOutput packet
packet-IsOutput = omega arith

prepare_to_write_lem_example :
    let (available, region, packet') = prepare_best_effort_buffer_to_write packet 12 in
    IsOutput packet'
    × ((available ≡ true) ↔ (20 + 12 ≤ 64))
    × (available ≡ true
        → (region ≡ some (record { size = 20 + 12; origin = 0; offset = 20 }))
          × (packet' ≡ record packet { writer = 20 + 12 }))
    × (available ≡ false → (region ≡ none) × (packet' ≡ packet))
prepare_to_write_lem_example = prepare_to_write_lem packet 12 packet-IsOutput refl (omega arith)

prepare_to_send_lem_example :
    let (sent, packet') = prepare_best_effort_buffer_to_send packet in
    (packet.writer ≡ packet.offset → (sent ≡ none) × (packet' ≡ packet))
    × (packet.writer ≢ packet.offset
        → (sent ≡ some (20, seq_num_add 65535 1)) × (packet'.last_send ≡ seq_num_add 65535 1))
    × (packet'.writer ≡ 8)
    × (prepare_best_effort_buffer_to_send packet' ≡ (none, packet'))
prepare_to_send_lem_example = prepare_to_send_lem packet packet-IsOutput
