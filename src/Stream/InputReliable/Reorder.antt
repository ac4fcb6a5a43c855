-- ===== src/Stream/InputReliable/Reorder.antt =====
-- Messages that come before their turn are kept and handed over in order.
use micro_xrce_dds_client.Prelude.{
  ℕ, ◌+◌, ◌%◌, ◌^◌, ◌≤◌, ◌<◌, ◌≡◌, ◌≢◌, refl, ◌∙◌, arith, true, false, some, List, length, get_or,
  ◌==◌, ==_iff, lt→ltb, Bool-cases, inl, inr,
}
use micro_xrce_dds_client.SeqNum.{seq_num_add, seq_num_cmp, is_neg}
use micro_xrce_dds_client.SeqNum.Order.{IsSeqNum}
use micro_xrce_dds_client.Stream.ReliableBuffer.{
  get_reliable_buffer, get_reliable_buffer_size, set_reliable_buffer_size,
  get_reliable_buffer_capacity,
}
use micro_xrce_dds_client.Stream.ReliableBuffer.Slots.{IsBlock, slot, get_size-set_size}
use micro_xrce_dds_client.Stream.ReliableBuffer.Store.{
  store_message, get_size-store_message, message-store_message, length_fits, store_message-IsBlock,
  history-store_message, get_reliable_buffer-store_message,
}
use micro_xrce_dds_client.Stream.InputReliable.{
  InputReliableStream, no_fragmented, in_window, announce, process_message,
  receive_reliable_message, fragmentation_at, next_input_reliable_buffer_available,
}
use micro_xrce_dds_client.Stream.InputReliable.Window.{in_window_iff, receive-next}
use micro_xrce_dds_client.Stream.InputReliable.Hang.{ReadsHeader, fragmentation-stored}

announce_eq :
    (n : ℕ) (s : InputReliableStream) → (a : ℕ) × (announce n s ≡ record s { last_announced = a })
announce_eq n s = elim (Bool-cases (is_neg (seq_num_cmp s.last_announced n))) [
  | inl e ↦ (n, rw e)
  | inr e ↦ (s.last_announced, rw e)
]

-- What a stream hands over from the slot of the next number: the whole message, in place.
pub next_available-whole :
    (fuel : ℕ) (stream : InputReliableStream) (fragment_offset : ℕ)
    → let next = seq_num_add stream.last_handled 1 in
      get_reliable_buffer_size stream.base next ≢ 0
      → fragmentation_at stream next ≡ no_fragmented
      → next_input_reliable_buffer_available fuel stream fragment_offset
        ≡ some (
          true,
          some (record {
            start = get_reliable_buffer stream.base next;
            size = get_reliable_buffer_size stream.base next % 2 ^ 32;
            on_full_buffer = false;
          }),
          record stream { base = set_reliable_buffer_size stream.base next 0; last_handled = next },
        )
unfolding next_input_reliable_buffer_available
next_available-whole fuel stream fragment_offset full frag =
    let e : (get_reliable_buffer_size stream.base (seq_num_add stream.last_handled 1) == 0)
        ≡ false =
      ground arith in
    rw (e, frag)

-- A message ahead of its turn, whose slot is free, is stored.
pub receive-ahead :
    (fuel : ℕ) (stream : InputReliableStream) (seq_num : ℕ) (message : List ℕ)
    → in_window stream seq_num ≡ true
    → seq_num ≢ seq_num_add stream.last_handled 1
    → get_reliable_buffer_size stream.base seq_num ≡ 0
    → stream.on_get_fragmentation_info (λ i. get_or message i 0) ≡ no_fragmented
    → receive_reliable_message fuel stream seq_num message
      ≡ some (
        false,
        some true,
        announce seq_num (record stream { base = store_message stream.base seq_num message }),
      )
unfolding receive_reliable_message process_message
receive-ahead fuel stream seq_num message hw ne free frag =
    let later : (seq_num == seq_num_add stream.last_handled 1) ≡ false = ground arith in
    rw (hw, later, free, frag)

module _ (fuel : ℕ) (stream : InputReliableStream) (m1 m2 : List ℕ) where
  abbrev first : ℕ
  first = seq_num_add stream.last_handled 1

  abbrev second : ℕ
  second = seq_num_add stream.last_handled 2

  -- The second message has come before the first, and both are handed over in order.
  pub record InOrder : Type 0 where
    pub s1 : InputReliableStream
    pub s2 : InputReliableStream
    pub s3 : InputReliableStream
    pub kept : receive_reliable_message fuel stream second m2 ≡ some (false, some true, s1)
    pub ready : receive_reliable_message fuel s1 first m1 ≡ some (true, some false, s2)
    pub handled : s2.last_handled ≡ first
    pub handed_over :
        next_input_reliable_buffer_available fuel s2 4
        ≡ some (
          true,
          some (record {
            start = get_reliable_buffer stream.base second;
            size = length m2;
            on_full_buffer = false;
          }),
          s3,
        )
    pub bytes :
        (i : ℕ)
        → i < length m2
        → s2.base.buffer (get_reliable_buffer stream.base second + i) ≡ get_or m2 i 0
    pub handled_both : s3.last_handled ≡ second
    pub free_again : get_reliable_buffer_size s3.base second ≡ 0

  -- Two messages that are not fragments come in the wrong order, the second one into a free slot: it
  -- is kept, the first one is ready at once, and then the bytes of the second one are handed over, its
  -- slot is free again and both numbers are handled. The block is well-formed, the history has 2 slots
  -- at least and less than 2 ^ 15, the second message has 4 bytes at least and fits its slot, and the
  -- callback reads 4 bytes.
  pub reorder :
      IsBlock stream.base
      → IsSeqNum stream.last_handled
      → 2 ≤ stream.base.history
      → stream.base.history < 2 ^ 15
      → ReadsHeader stream.on_get_fragmentation_info
      → stream.on_get_fragmentation_info (λ i. get_or m1 i 0) ≡ no_fragmented
      → stream.on_get_fragmentation_info (λ i. get_or m2 i 0) ≡ no_fragmented
      → 4 ≤ length m2
      → length m2 ≤ get_reliable_buffer_capacity stream.base
      → get_reliable_buffer_size stream.base second ≡ 0
      → InOrder
  reorder b hl h2 hh reads f1 f2 whole fits free =
      let hw : in_window stream second ≡ true =
        (in_window_iff stream 2 hl (omega arith) hh).1 (omega arith) in
      let same : (slot stream.base second == slot stream.base second) ≡ true =
        (==_iff (slot stream.base second) (slot stream.base second)).1 refl in
      let ne : second ≢ first = unfold seq_num_add in omega arith in
      let st : InputReliableStream = record stream { base = store_message stream.base second m2 } in
      let (a1, e1) = announce_eq second st in
      let s1 : InputReliableStream = record st { last_announced = a1 } in
      let (a2, e2) = announce_eq first (record s1 { last_handled = first }) in
      let s2 : InputReliableStream = record s1 { last_handled = first; last_announced = a2 } in
      let next_is : seq_num_add first 1 ≡ second = unfold seq_num_add in omega arith in
      let size : get_reliable_buffer_size (store_message stream.base second m2) second ≡ length m2 =
        get_size-store_message b second second m2 fits ∙ rw same in
      let frag : fragmentation_at st second ≡ no_fragmented =
        fragmentation-stored stream second m2 b fits whole reads second ∙ rw same f2 in
      let plain : length m2 % 2 ^ 32 ≡ length m2 =
        omega (arith, length_fits b second second m2 fits) in
      let history : st.base.history ≡ stream.base.history =
        history-store_message stream.base second m2 in
      record {
        s1 = s1;
        s2 = s2;
        s3 = record s2 { base = set_reliable_buffer_size s2.base second 0; last_handled = second };
        kept = receive-ahead fuel stream second m2 hw ne free f2 ∙ rw e1;
        ready =
            receive-next fuel s1 m1 hl (omega (arith, history)) (omega (arith, history)) f1 ∙ rw e2;
        handled = refl;
        handed_over =
            next_available-whole fuel s2 4 (rw next_is (omega (arith, size))) (rw next_is frag)
            ∙ rw (next_is, size, plain, get_reliable_buffer-store_message);
        bytes = λ i hi.
            message-store_message b second second m2 fits i (omega arith)
            ∙ rw (same, lt→ltb i (length m2) hi);
        handled_both = refl;
        free_again =
            get_size-set_size (store_message-IsBlock b second m2) second 0 second (omega arith)
            ∙ rw ((==_iff (slot st.base second) (slot st.base second)).1 refl);
      }
