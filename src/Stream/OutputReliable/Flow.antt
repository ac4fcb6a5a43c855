-- ===== src/Stream/OutputReliable/Flow.antt =====
-- How many messages of an output stream are on the way, and sending them again.
use micro_xrce_dds_client.Prelude.{
  ℕ, ◌+◌, ◌^◌, ◌≤◌, ◌<◌, ◌≡◌, ◌≢◌, refl, arith, true, false, ◌&&◌, if◌then◌else◌, ◌==◌, Bool-cases,
  inl, inr,
}
use micro_xrce_dds_client.SeqNum.{seq_num_add, seq_num_sub}
use micro_xrce_dds_client.SeqNum.Order.{IsSeqNum, add-IsSeqNum}
use micro_xrce_dds_client.Stream.ReliableBuffer.{get_reliable_buffer_size}
use micro_xrce_dds_client.Stream.OutputReliable.{
  OutputReliableStream, prepare_next_reliable_buffer_to_send, cancel_reliable_buffer_to_send,
  process_acknack,
}
use micro_xrce_dds_client.Stream.OutputReliable.Acknack.{
  IsOutput, newly_acked, process_acknack-Acked,
}

-- The number of messages that are sent and not acknowledged.
abbrev pub in_flight : OutputReliableStream → ℕ
in_flight stream = seq_num_sub stream.last_sent stream.last_acknown

pub record IsFlow (stream : OutputReliableStream) : Type 0 where
  pub output : IsOutput stream
  pub window : in_flight stream ≤ stream.base.history

sub_next :
    (s a h : ℕ)
    → IsSeqNum s
    → IsSeqNum a
    → h < 2 ^ 16
    → seq_num_sub s a ≤ h
    → seq_num_sub s a ≢ h
    → seq_num_sub (seq_num_add s 1) a ≡ seq_num_sub s a + 1
unfolding seq_num_add seq_num_sub
sub_next s a h hs ha hh le ne = ground arith

-- Taking the next message to send keeps at most `history` messages on the way: it sends one with the
-- next number, or it changes nothing; with the window full it sends none.
pub prepare_next-IsFlow :
    (stream : OutputReliableStream)
    → IsFlow stream
    → let (data_to_send, _, _, n, stream') = prepare_next_reliable_buffer_to_send stream in
      IsFlow stream'
      × (n ≡ seq_num_add stream.last_sent 1)
      × (data_to_send ≡ true → (stream'.last_sent ≡ n) × (in_flight stream' ≡ in_flight stream + 1))
      × (data_to_send ≡ false → stream' ≡ stream)
      × (in_flight stream ≡ stream.base.history → data_to_send ≡ false)
unfolding prepare_next_reliable_buffer_to_send
prepare_next-IsFlow stream f =
    let o = f.output in
    let step =
      sub_next stream.last_sent stream.last_acknown stream.base.history o.sent o.acknown
        o.block.history_fits f.window in
    let n1 = add-IsSeqNum stream.last_sent 1 in
    let n2 = add-IsSeqNum stream.last_written 1 in
    elim (Bool-cases (prepare_next_reliable_buffer_to_send stream).0) [
      | inl e ↦
          let ne : in_flight stream ≢ stream.base.history = ground arith in
          rw e (
            record {
              output = record {
                block = o.block;
                offset_fits = o.offset_fits;
                acknown = o.acknown;
                sent = n1;
                written = ground (arith, n2, o.written);
              };
              window = ground (arith, step ne, f.window);
            },
            refl,
            λ _. (refl, step ne),
            λ no. absurd (ground arith),
            λ h. absurd (ne h),
          )
      | inr e ↦ rw e (f, refl, λ yes. absurd (ground arith), λ _. refl, λ _. refl)
    ]

-- An ACKNACK that acknowledges no more than the messages on the way takes those off, and keeps that at
-- most `history` messages are on the way.
pub process_acknack-IsFlow :
    (stream : OutputReliableStream) (bitmap first_unacked : ℕ)
    → IsFlow stream
    → newly_acked stream first_unacked ≤ in_flight stream
    → let stream' = process_acknack stream bitmap first_unacked in
      IsFlow stream' × (in_flight stream' + newly_acked stream first_unacked ≡ in_flight stream)
process_acknack-IsFlow stream bitmap first_unacked f h =
    let a = process_acknack-Acked stream bitmap first_unacked f.output in
    let moved : in_flight (process_acknack stream bitmap first_unacked)
        ≡ seq_num_sub stream.last_sent (seq_num_sub first_unacked 1) =
      rw (a.same.last_sent, a.last_acknown) in
    let sum : seq_num_sub stream.last_sent (seq_num_sub first_unacked 1)
          + newly_acked stream first_unacked
        ≡ in_flight stream =
      unfold seq_num_sub in ground (arith, f.output.acknown, f.output.sent, h) in
    (
      record { output = a.valid; window = ground (arith, moved, sum, a.same.history, f.window) },
      rw moved sum,
    )

-- What cancelling leaves of a stream with a well-formed block and 16-bit numbers, after a message with
-- the number `n` was taken to be sent. If `n` was the number written last and the slot after it holds a
-- message, as it does with a full window, the last written number stays one ahead. If the number after
-- `n` was the one written last and its slot is free, the last written number falls to `n`. Otherwise the
-- stream is as it was before.
pub cancel-prepare_next :
    (stream : OutputReliableStream)
    → IsOutput stream
    → let (data_to_send, _, _, n, stream') = prepare_next_reliable_buffer_to_send stream in
      let next = seq_num_add n 1 in
      let free = get_reliable_buffer_size stream.base next ≡ stream.offset in
      let cancelled = cancel_reliable_buffer_to_send stream' n in
      data_to_send ≡ true
      → (stream.last_written ≡ n → ¬ free → cancelled ≡ record stream { last_written = next })
        × (stream.last_written ≡ next → free → cancelled ≡ record stream { last_written = n })
        × ((stream.last_written ≡ n → free)
            → (stream.last_written ≡ next → ¬ free)
            → cancelled ≡ stream)
unfolding prepare_next_reliable_buffer_to_send cancel_reliable_buffer_to_send
cancel-prepare_next stream o sent =
    let n = seq_num_add stream.last_sent 1 in
    let next = seq_num_add n 1 in
    let size = get_reliable_buffer_size stream.base next in
    let back : seq_num_sub n 1 ≡ stream.last_sent =
      unfold seq_num_add seq_num_sub in ground (arith, o.sent) in
    let taken =
      if n == stream.last_written then seq_num_add stream.last_written 1 else stream.last_written in
    let left = if taken == next && stream.offset == size then n else taken in
    (
      λ e taken_slot. let written : left ≡ next = ground arith in rw (sent, back, written),
      λ e free. let written : left ≡ n = ground arith in rw (sent, back, written),
      λ empty used.
          let written : left ≡ stream.last_written = ground arith in rw (sent, back, written),
    )
