-- ===== src/Stream/InputReliable/Window.antt =====
-- Which messages a reliable input stream takes, and what it does with each.
use micro_xrce_dds_client.Prelude.{
  ℕ, ◌^◌, ◌≤◌, ◌<◌, ◌≡◌, ◌≢◌, ◌↔◌, refl, arith, true, false, ◌&&◌, none, some, List, get_or, ◌==◌,
  ==_iff,
}
use micro_xrce_dds_client.SeqNum.{seq_num_add, seq_num_cmp}
use micro_xrce_dds_client.SeqNum.Order.{IsSeqNum}
use micro_xrce_dds_client.Stream.ReliableBuffer.{get_reliable_buffer_size}
use micro_xrce_dds_client.Stream.InputReliable.{
  InputReliableStream, no_fragmented, is_no_fragmented, in_window, announce, process_message,
  receive_reliable_message,
}

-- A message is in the window exactly if it lies 1 to `history` numbers ahead of the last one handled,
-- across the wrap too. The history has less than 2 ^ 15 slots.
pub in_window_iff :
    (stream : InputReliableStream) (d : ℕ)
    → IsSeqNum stream.last_handled
    → IsSeqNum d
    → stream.base.history < 2 ^ 15
    → (in_window stream (seq_num_add stream.last_handled d) ≡ true)
      ↔ ((0 < d) × (d ≤ stream.base.history))
unfolding seq_num_add seq_num_cmp
in_window_iff stream d hl hd hh = ground arith

-- A message outside the window is dropped: it is not stored, nothing is ready, and of the stream only
-- the last announced number may change.
pub receive-outside :
    (fuel : ℕ) (stream : InputReliableStream) (seq_num : ℕ) (message : List ℕ)
    → in_window stream seq_num ≡ false
    → receive_reliable_message fuel stream seq_num message
      ≡ some (false, none, announce seq_num stream)
unfolding receive_reliable_message
receive-outside fuel stream seq_num message h = rw h

module _ (fuel : ℕ) (stream : InputReliableStream) (message : List ℕ) where
  -- The next message in order, if it is not a fragment, is ready at once and advances the stream.
  pub receive-next :
      IsSeqNum stream.last_handled
      → 0 < stream.base.history
      → stream.base.history < 2 ^ 15
      → stream.on_get_fragmentation_info (λ i. get_or message i 0) ≡ no_fragmented
      → let next = seq_num_add stream.last_handled 1 in
        receive_reliable_message fuel stream next message
        ≡ some (true, some false, announce next (record stream { last_handled = next }))
  unfolding receive_reliable_message process_message
  receive-next hl hp hh frag = rw (
    (in_window_iff stream 1 hl (omega arith) hh).1 (omega arith),
    frag,
    (==_iff (seq_num_add stream.last_handled 1) (seq_num_add stream.last_handled 1)).1 refl,
  )

  -- A message in the window whose slot is already taken is dropped, unless it is the next one and not a
  -- fragment: of the stream only the last announced number may change.
  pub receive-duplicate :
      (seq_num : ℕ)
      → in_window stream seq_num ≡ true
      → get_reliable_buffer_size stream.base seq_num ≢ 0
      → (is_no_fragmented (stream.on_get_fragmentation_info (λ i. get_or message i 0))
          && seq_num == seq_num_add stream.last_handled 1)
        ≡ false
      → receive_reliable_message fuel stream seq_num message
        ≡ some (false, none, announce seq_num stream)
  unfolding receive_reliable_message process_message
  receive-duplicate seq_num hw full later =
      let taken : (get_reliable_buffer_size stream.base seq_num == 0) ≡ false = ground arith in
      rw (hw, later, taken)
