-- ===== src/Stream/ReliableBuffer/Store.antt =====
-- A message put into a slot: its bytes, and then its length.
use micro_xrce_dds_client.Prelude.{
  ℕ, ◌+◌, ◌/◌, ◌^◌, ◌≤◌, ◌<◌, ◌≡◌, refl, ap, ◌∙◌, arith, List, length, get_or, ltb, ◌&&◌, ◌==◌,
  if◌then◌else◌,
}
use micro_xrce_dds_client.Prelude.Memory.{memcpy}
use micro_xrce_dds_client.Stream.ReliableBuffer.{
  ReliableStream, get_reliable_buffer, get_reliable_buffer_size, get_reliable_buffer_capacity,
  set_reliable_buffer_size,
}
use micro_xrce_dds_client.Stream.ReliableBuffer.Slots.{
  IsBlock, slot, get_size-set_size, get_size-memcpy, message-set_size, message-memcpy,
}

abbrev pub filled : ReliableStream → ℕ → List ℕ → ReliableStream
filled s n bytes = record s { buffer = memcpy s.buffer (get_reliable_buffer s n) bytes }

abbrev pub store_message : ReliableStream → ℕ → List ℕ → ReliableStream
store_message s n bytes = set_reliable_buffer_size (filled s n bytes) n (length bytes)

pub capacity_lem :
    {s : ReliableStream} → IsBlock s → get_reliable_buffer_capacity s + 4 ≡ s.size / s.history
unfolding get_reliable_buffer_capacity
capacity_lem {s} b = omega (arith, small, b.some_room, b.size_fits)
  where
    small : s.size / s.history ≤ s.size
    small = grind arith

module _ {s : ReliableStream} (b : IsBlock s) (n m : ℕ) (bytes : List ℕ)
    (fits : length bytes ≤ get_reliable_buffer_capacity s) where
  filled-IsBlock : IsBlock (filled s n bytes)
  filled-IsBlock = record {
    some_history = b.some_history;
    history_fits = b.history_fits;
    some_room = b.some_room;
    size_fits = b.size_fits;
  }

  pub length_fits : length bytes < 2 ^ 32
  length_fits = omega (arith, fits, capacity_lem b, b.size_fits, small)
    where
      small : s.size / s.history ≤ s.size
      small = grind arith

  -- Only the length of that slot changes.
  pub get_size-store_message :
      get_reliable_buffer_size (store_message s n bytes) m
      ≡ (if slot s n == slot s m then length bytes else get_reliable_buffer_size s m)
  get_size-store_message =
      get_size-set_size filled-IsBlock n (length bytes) m length_fits
      ∙ ap (λ k. if slot s n == slot s m then length bytes else k)
          (get_size-memcpy b n m bytes fits)

  -- Only the bytes of that slot change.
  pub message-store_message :
      (i : ℕ)
      → i < get_reliable_buffer_capacity s
      → (store_message s n bytes).buffer (get_reliable_buffer s m + i) ≡ (
          if slot s n == slot s m && ltb i (length bytes)
          then get_or bytes i 0
          else s.buffer (get_reliable_buffer s m + i))
  message-store_message i h =
      message-set_size filled-IsBlock n (length bytes) m i (cap i h)
      ∙ message-memcpy b n m i bytes fits h
    where
      cap :
          (i : ℕ)
          → i < get_reliable_buffer_capacity s
          → i < get_reliable_buffer_capacity (filled s n bytes)
      cap i h = unfold get_reliable_buffer_capacity in h

-- Neither the geometry of the block nor a pointer into it changes.
pub store_message-IsBlock :
    {s : ReliableStream} → IsBlock s → (n : ℕ) (bytes : List ℕ) → IsBlock (store_message s n bytes)
unfolding set_reliable_buffer_size
store_message-IsBlock b n bytes = record {
  some_history = b.some_history;
  history_fits = b.history_fits;
  some_room = b.some_room;
  size_fits = b.size_fits;
}

pub history-store_message :
    (s : ReliableStream) (n : ℕ) (bytes : List ℕ) → (store_message s n bytes).history ≡ s.history
unfolding set_reliable_buffer_size
history-store_message s n bytes = refl

pub get_reliable_buffer-store_message :
    (s : ReliableStream) (n m : ℕ) (bytes : List ℕ)
    → get_reliable_buffer (store_message s n bytes) m ≡ get_reliable_buffer s m
unfolding set_reliable_buffer_size
get_reliable_buffer-store_message s n m bytes = refl
