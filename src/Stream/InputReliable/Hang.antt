-- ===== src/Stream/InputReliable/Hang.antt =====
-- The search for the last fragment: where it stops, and when it never does.
use micro_xrce_dds_client.Prelude.{
  ℕ, zero, suc, ◌≤◌, ◌<◌, ◌≡◌, ◌≢◌, refl, ◌∙◌, arith, true, false, not, ◌&&◌, none, some, List,
  length, get_or, if◌then◌else◌, ◌==◌, lt→ltb, Bool-cases, inl, inr,
}
use micro_xrce_dds_client.Prelude.Memory.{Memory}
use micro_xrce_dds_client.SeqNum.{seq_num_add}
use micro_xrce_dds_client.Stream.ReliableBuffer.{
  get_reliable_buffer_size, set_reliable_buffer_size, get_reliable_buffer_capacity,
}
use micro_xrce_dds_client.Stream.ReliableBuffer.Slots.{IsBlock, slot}
use micro_xrce_dds_client.Stream.ReliableBuffer.Store.{
  store_message, get_size-store_message, message-store_message,
}
use micro_xrce_dds_client.Stream.InputReliable.{
  InputReliableStream, FragmentationInfo, intermediate_fragment, is_last, in_window,
  process_message, receive_reliable_message, check_last_fragment, check_from, fragmentation_at,
}

-- The slot of `n` holds a fragment that is not the last one.
abbrev pub HoldsIntermediate : InputReliableStream → ℕ → Type 0
HoldsIntermediate stream n =
    (get_reliable_buffer_size stream.base n ≢ 0)
    × (fragmentation_at stream n ≡ intermediate_fragment)

-- The number `k + 1` steps after `n`.
abbrev pub ahead : ℕ → ℕ → ℕ
ahead n zero = seq_num_add n 1
ahead n (suc k) = ahead (seq_num_add n 1) k

-- If the first slot after `n` that does not hold an intermediate fragment is `k + 1` numbers ahead,
-- `k + 1` rounds find it; the result is true exactly if it holds a last fragment.
pub check_from-stops :
    (k fuel : ℕ) (stream : InputReliableStream) (n : ℕ)
    → k < fuel
    → ((i : ℕ) → i < k → HoldsIntermediate stream (ahead n i))
    → ¬ HoldsIntermediate stream (ahead n k)
    → check_from fuel stream n
      ≡ some (
        not (get_reliable_buffer_size stream.base (ahead n k) == 0)
            && is_last (fragmentation_at stream (ahead n k)),
        ahead n k,
      )
unfolding check_from
check_from-stops k zero stream n h before stop = absurd (omega arith)
check_from-stops zero (suc fuel) stream n h before stop = ground arith
check_from-stops (suc k) (suc fuel) stream n h before stop =
    let next = seq_num_add n 1 in
    let here = before 0 (omega arith) in
    let nonempty : (get_reliable_buffer_size stream.base next == 0) ≡ false =
      ground (arith, here.0) in
    rw (nonempty, here.1)
      (check_from-stops k fuel stream next (omega arith) (λ i hi. before (suc i) (omega arith))
        stop)

-- If every slot holds an intermediate fragment, no number of rounds is enough.
pub check_from-hangs :
    (fuel : ℕ) (stream : InputReliableStream) (n : ℕ)
    → ((i : ℕ) → HoldsIntermediate stream i)
    → check_from fuel stream n ≡ none
unfolding check_from
check_from-hangs zero stream n all = refl
check_from-hangs (suc fuel) stream n all =
    let next = seq_num_add n 1 in
    let nonempty : (get_reliable_buffer_size stream.base next == 0) ≡ false =
      ground (arith, (all next).0) in
    rw (nonempty, (all next).1) (check_from-hangs fuel stream next all)

-- The callback reads the four octets of a submessage header.
abbrev pub ReadsHeader : (Memory → FragmentationInfo) → Type 0
ReadsHeader cb = (m m' : Memory) → ((i : ℕ) → i < 4 → m i ≡ m' i) → cb m ≡ cb m'

module _ (stream : InputReliableStream) (seq_num : ℕ) (message : List ℕ) (b : IsBlock stream.base)
    (fits : length message ≤ get_reliable_buffer_capacity stream.base) (whole : 4 ≤ length message)
    (reads : ReadsHeader stream.on_get_fragmentation_info) where
  abbrev pub stored : InputReliableStream
  stored = record stream { base = store_message stream.base seq_num message }

  -- A stored message shows its own fragmentation in its slot, and leaves that of the others.
  pub fragmentation-stored :
      (n : ℕ)
      → fragmentation_at stored n ≡ (
          if slot stream.base seq_num == slot stream.base n
          then stream.on_get_fragmentation_info (λ i. get_or message i 0)
          else fragmentation_at stream n)
  unfolding set_reliable_buffer_size
  fragmentation-stored n = elim (Bool-cases (slot stream.base seq_num == slot stream.base n)) [
    | inl e ↦ rw e (
        reads _ _ (λ i hi.
          message-store_message b seq_num n message fits i (omega arith)
          ∙ rw (e, lt→ltb i (length message) (omega arith))))
    | inr e ↦
        rw e (
          reads _ _ (λ i hi. message-store_message b seq_num n message fits i (omega arith) ∙ rw e))
  ]

  -- If every slot but that of `seq_num` holds an intermediate fragment, and the message is one too,
  -- then the client never returns from receiving it: no number of rounds is enough for the search for
  -- the last fragment. The block is well-formed, the slot of `seq_num` is free, the message is in the
  -- window, has 4 bytes at least and fits its slot, and the callback reads 4 bytes.
  pub receive-hangs :
      (fuel : ℕ)
      → in_window stream seq_num ≡ true
      → get_reliable_buffer_size stream.base seq_num ≡ 0
      → stream.on_get_fragmentation_info (λ i. get_or message i 0) ≡ intermediate_fragment
      → ((n : ℕ) → slot stream.base seq_num ≢ slot stream.base n → HoldsIntermediate stream n)
      → receive_reliable_message fuel stream seq_num message ≡ none
  unfolding receive_reliable_message process_message check_last_fragment
  receive-hangs fuel hw free frag others =
      rw (hw, frag, free, check_from-hangs fuel stored stream.last_handled full)
    where
      full : (n : ℕ) → HoldsIntermediate stored n
      full n =
          let size = get_size-store_message b seq_num n message fits in
          elim (Bool-cases (slot stream.base seq_num == slot stream.base n)) [
            | inl e ↦ (ground (arith, size), fragmentation-stored n ∙ rw e frag)
            | inr e ↦
                let old = others n (ground arith) in
                (ground (arith, size, old.0), fragmentation-stored n ∙ rw e old.1)
          ]
