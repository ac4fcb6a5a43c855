-- ===== src/Stream/ReliableBuffer/Slots.antt =====
-- The slots lie in the block and do not overlap.
use micro_xrce_dds_client.Prelude.{
  ℕ, ◌+◌, ◌-◌, ◌*◌, ◌/◌, ◌%◌, ◌^◌, ◌≤◌, ◌<◌, ◌≡◌, ◌≢◌, ap, ◌∙◌, sym, arith, List, length, get_or,
  ltb, ◌&&◌, inl, inr, ◌⊎◌, ◌==◌, if◌then◌else◌, Bool-cases, ==_iff,
}
use native.Mathlib.Decide.{dec_lt, ℕ_discrete}
use native.Mathlib.Nat.{mod-eq_of_lt, div-add-mod}
use micro_xrce_dds_client.Prelude.Memory.{
  write_u32, memcpy, memcpy-outside, read-write_u32, read_u32-write_u32, read_u32-memcpy,
}
use micro_xrce_dds_client.Stream.ReliableBuffer.{
  ReliableStream, get_reliable_buffer, get_reliable_buffer_capacity, get_reliable_buffer_size,
  set_reliable_buffer_size,
}

-- A block that `uxr_init_*_reliable_stream` may be given: at least one slot, and in each slot room
-- for the length and a byte.
pub record IsBlock (s : ReliableStream) : Type 0 where
  pub some_history : 0 < s.history
  pub history_fits : s.history < 2 ^ 16
  pub some_room : 4 < s.size / s.history
  pub size_fits : s.size < 2 ^ 32

abbrev pub slot_size : ReliableStream → ℕ
slot_size s = s.size / s.history

abbrev pub slot : ReliableStream → ℕ → ℕ
slot s n = n % s.history

pub slot-lt : {s : ReliableStream} → IsBlock s → (n : ℕ) → slot s n < s.history
slot-lt {s} b n = omega (arith, b.some_history)

-- Taking the remainder twice changes nothing.
slot-slot : {s : ReliableStream} → IsBlock s → (n : ℕ) → slot s (slot s n) ≡ slot s n
slot-slot {s} b n = mod-eq_of_lt (slot-lt b n)

-- Distinct slots are a slot apart.
slots_apart : (i j k : ℕ) → i < j → i * k + k ≤ j * k
slots_apart i j k h = let e : (i + 1) * k ≤ j * k = grind arith in omega (arith, e)

pub slot_in_block :
    {s : ReliableStream} → IsBlock s → (n : ℕ) → slot s n * slot_size s + slot_size s ≤ s.size
slot_in_block {s} b n = omega (
  arith,
  slots_apart (slot s n) s.history (slot_size s) (slot-lt b n),
  div-add-mod s.size s.history,
)

-- Where the length of the message of a sequence number stands.
abbrev length_offset : ReliableStream → ℕ → ℕ
length_offset s n = get_reliable_buffer s (slot s n) - 4

length_offset_lem :
    {s : ReliableStream} → IsBlock s → (n : ℕ) → length_offset s n ≡ slot s n * slot_size s
length_offset_lem {s} b n = rw (slot-slot b n) (omega arith)

-- Two length fields coincide or do not overlap, and so with a message.
module _ {s : ReliableStream} (b : IsBlock s) (n m : ℕ) (apart : slot s n ≢ slot s m) where
  slots_disjoint :
      (slot s m * slot_size s + slot_size s ≤ slot s n * slot_size s)
      ⊎ (slot s n * slot_size s + slot_size s ≤ slot s m * slot_size s)
  slots_disjoint = elim (dec_lt (slot s m) (slot s n)) [
    | yes lt ↦ inl (slots_apart (slot s m) (slot s n) (slot_size s) lt)
    | no ge ↦ inr (slots_apart (slot s n) (slot s m) (slot_size s) (omega (arith, ge, apart)))
  ]

length_offset_same :
    {s : ReliableStream}
    → IsBlock s
    → (n m : ℕ) → slot s n ≡ slot s m
    → length_offset s n ≡ length_offset s m
length_offset_same {s} b n m e =
    length_offset_lem b n ∙ ap (λ (k : ℕ). k * slot_size s) e ∙ sym (length_offset_lem b m)

-- Setting the length of one slot is seen in that slot only.
pub get_size-set_size :
    {s : ReliableStream}
    → IsBlock s
    → (n len m : ℕ) → len < 2 ^ 32
    → get_reliable_buffer_size (set_reliable_buffer_size s n len) m
      ≡ (if slot s n == slot s m then len else get_reliable_buffer_size s m)
unfolding get_reliable_buffer_size set_reliable_buffer_size
get_size-set_size {s} b n len m h = elim (Bool-cases (slot s n == slot s m)) [
  | inl t ↦
      let fits : len % 2 ^ 32 ≡ len = omega arith in
      rw (t, length_offset_same b n m ((==_iff (slot s n) (slot s m)).0 t), fits)
        (read-write_u32 s.buffer (length_offset s m) len h)
  | inr f ↦ rw f (
      read_u32-write_u32 s.buffer (length_offset s n) (length_offset s m) (len % 2 ^ 32) (
        omega (
          arith,
          length_offset_lem b m,
          length_offset_lem b n,
          b.some_room,
          slots_disjoint b n m (ground arith),
        )))
]

-- A message of at most the capacity changes no length.
pub get_size-memcpy :
    {s : ReliableStream}
    → IsBlock s
    → (n m : ℕ) (bytes : List ℕ) → length bytes ≤ get_reliable_buffer_capacity s
    → get_reliable_buffer_size
        (record s { buffer = memcpy s.buffer (get_reliable_buffer s n) bytes })
        m
      ≡ get_reliable_buffer_size s m
unfolding get_reliable_buffer_size get_reliable_buffer_capacity
get_size-memcpy {s} b n m bytes h = elim (ℕ_discrete (slot s n) (slot s m)) [
  | yes e ↦
      read_u32-memcpy s.buffer (get_reliable_buffer s n) (length_offset s m) bytes
        (inl (omega (arith, length_offset_lem b m, ap (λ (k : ℕ). k * slot_size s) e)))
  | no ne ↦
      read_u32-memcpy s.buffer (get_reliable_buffer s n) (length_offset s m) bytes
        (omega (arith, length_offset_lem b m, b.some_room, slots_disjoint b n m ne))
]

-- What one slot holds is outside the reach of a length: messages survive.
pub message-set_size :
    {s : ReliableStream}
    → IsBlock s
    → (n len m i : ℕ) → i < get_reliable_buffer_capacity s
    → (set_reliable_buffer_size s n len).buffer (get_reliable_buffer s m + i)
      ≡ s.buffer (get_reliable_buffer s m + i)
unfolding set_reliable_buffer_size get_reliable_buffer_capacity write_u32
message-set_size {s} b n len m i h = elim (ℕ_discrete (slot s n) (slot s m)) [
  | yes e ↦
      memcpy-outside s.buffer (length_offset s n) _ (get_reliable_buffer s m + i)
        (inr (omega (arith, length_offset_lem b n, ap (λ (k : ℕ). k * slot_size s) e)))
  | no ne ↦
      memcpy-outside s.buffer (length_offset s n) _ (get_reliable_buffer s m + i)
        (omega (arith, length_offset_lem b n, b.some_room, slots_disjoint b n m ne))
]

-- A message written to one slot is read back there, and leaves the others.
pub message-memcpy :
    {s : ReliableStream}
    → IsBlock s
    → (n m i : ℕ) (bytes : List ℕ) → length bytes ≤ get_reliable_buffer_capacity s
    → i < get_reliable_buffer_capacity s
    → memcpy s.buffer (get_reliable_buffer s n) bytes (get_reliable_buffer s m + i) ≡ (
        if slot s n == slot s m && ltb i (length bytes)
        then get_or bytes i 0
        else s.buffer (get_reliable_buffer s m + i))
unfolding get_reliable_buffer_capacity memcpy
message-memcpy {s} b n m i bytes hl hi = elim (ℕ_discrete (slot s n) (slot s m)) [
  | yes e ↦ let ep = ap (λ (k : ℕ). k * slot_size s) e in ground arith
  | no ne ↦ let d = slots_disjoint b n m ne in ground arith
]
