-- ===== src/Xrce/Cdr.antt =====
-- What core/serialization/xrce_types.c uses of Micro-CDR, a library that is not part of the
-- repository: its calls are the fields of an interface over a type of buffers, with the shape of
-- the code around them. A call reports success, and the code runs the next call after a failed one
-- (`ret &= ...`), so a step returns its flag beside its value.
pub mod Laws
pub mod Rules
pub mod Items
use micro_xrce_dds_client.Prelude.{
  ℕ, zero, suc, Bool, true, false, ◌&&◌, Option, none, some, List, [], ◌∷◌, length, if◌then◌else◌,
  ltb,
}
use micro_xrce_dds_client.Prelude.Int.{ℤ}

-- A call on a buffer: the success flag, what it returns or stores through its last argument, and
-- the buffer after it.
abbrev pub Step : Type 0 → Type 0 → Type 0
Step B A = B → Bool × A × B

-- The Micro-CDR calls. A string is its octets without the final zero; a `deserialize` call of a
-- string or a sequence takes the capacity of the destination, one of an array its length.
pub record MicroCdr (B : Type 0) : Type 0 where
  pub serialize_bool : Bool → Step B (Unit {0})
  pub serialize_uint8 : ℕ → Step B (Unit {0})
  pub serialize_uint16 : ℕ → Step B (Unit {0})
  pub serialize_uint32 : ℕ → Step B (Unit {0})
  pub serialize_uint64 : ℕ → Step B (Unit {0})
  pub serialize_int16 : ℤ → Step B (Unit {0})
  pub serialize_int32 : ℤ → Step B (Unit {0})
  pub serialize_string : List ℕ → Step B (Unit {0})
  pub serialize_array_uint8 : ℕ → List ℕ → Step B (Unit {0})
  pub serialize_sequence_uint8 : List ℕ → Step B (Unit {0})
  pub deserialize_bool : Step B Bool
  pub deserialize_uint8 : Step B ℕ
  pub deserialize_uint16 : Step B ℕ
  pub deserialize_uint32 : Step B ℕ
  pub deserialize_uint64 : Step B ℕ
  pub deserialize_int16 : Step B ℤ
  pub deserialize_int32 : Step B ℤ
  pub deserialize_string : ℕ → Step B (List ℕ)
  pub deserialize_array_uint8 : ℕ → Step B (List ℕ)
  pub deserialize_sequence_uint8 : ℕ → Step B (List ℕ)
  -- `true` stands for little endian.
  pub serialize_endian_uint16 : Bool → ℕ → Step B (Unit {0})
  pub deserialize_endian_uint16 : Bool → Step B ℕ
  pub machine_endianness : Bool
  pub set_endianness : Bool → B → B
  -- `ucdr_init_buffer` over octets, and the octets that were written from the start of a buffer.
  pub init_buffer : List ℕ → B
  pub octets : B → List ℕ
  pub align_to : ℕ → B → B
  pub buffer_remaining : B → ℕ
  -- `buffer->error = true`
  pub set_error : B → B

module _ {B : Type 0} where
  unfoldable pub pure : {A : Type 0} → A → Step B A
  pure a b = (true, a, b)

  -- Both steps run, and their flags are combined.
  infixl 5 ◌>>=◌ ◌>>◌
  unfoldable pub ◌>>=◌ : {A C : Type 0} → Step B A → (A → Step B C) → Step B C
  (m >>= f) b =
      let first = m b in let second = f first.1 first.2 in (first.0 && second.0, second.1, second.2)

  unfoldable pub ◌>>◌ : {A C : Type 0} → Step B A → Step B C → Step B C
  unfolding ◌>>=◌
  m >> k = m >>= λ _. k

  -- `if (ret) { ... }`: the second step only runs when the first succeeded.
  unfoldable pub if_ok : {A C : Type 0} → Step B A → (A → C) → (A → Step B C) → Step B C
  if_ok m failed f b =
      let first = m b in
      let second = f first.1 first.2 in if first.0 then second else (false, failed first.1, first.2)

  unfoldable pub when_ok : Step B (Unit {0}) → Step B (Unit {0}) → Step B (Unit {0})
  unfolding if_ok
  when_ok m k = if_ok m (λ _. tt) (λ _. k)

  -- `for (i = 0; i < size && ret; i++) ret = ...`
  unfoldable pub serialize_each :
      {A : Type 0} → (A → Step B (Unit {0})) → List A → Step B (Unit {0})
  serialize_each serialize [] = pure tt
  serialize_each serialize (x ∷ xs) = when_ok (serialize x) (serialize_each serialize xs)

  unfoldable pub deserialize_each : {A : Type 0} → Step B A → ℕ → Step B (List A)
  deserialize_each deserialize zero = pure []
  deserialize_each deserialize (suc n) =
      if_ok deserialize (λ x. x ∷ []) (λ x. deserialize_each deserialize n >>= λ xs. pure (x ∷ xs))

-- What the read of a structure of a size and an array leaves in it: the size, and the elements that are
-- stored in the array.
pub record SequenceRead (A : Type 0) : Type 0 where
  pub size : ℕ
  pub elements : List A

module _ {B : Type 0} ⦃cdr : MicroCdr B⦄ where
  -- A structure of a size and an array of elements.
  unfoldable pub serialize_sequence :
      {A : Type 0} → (A → Step B (Unit {0})) → List A → Step B (Unit {0})
  serialize_sequence serialize xs =
      when_ok (cdr.serialize_uint32 (length xs)) (serialize_each serialize xs)

  -- A size above the capacity sets the buffer's error, and stays in the member `size`.
  unfoldable pub read_sequence : {A : Type 0} → ℕ → Step B A → Step B (SequenceRead A)
  read_sequence capacity deserialize b =
      let size = cdr.deserialize_uint32 b in
      let each = deserialize_each deserialize size.1 size.2 in
      if ltb capacity size.1
      then (false, record { size = size.1; elements = [] }, cdr.set_error size.2)
      else if size.0
      then (each.0, record { size = size.1; elements = each.1 }, each.2)
      else (false, record { size = size.1; elements = [] }, size.2)

  -- A sequence inside another type is the list of the elements that are stored: after a successful read
  -- all of it. After a failed one the member `size`, which `read_sequence` has, is not part of the list.
  unfoldable pub deserialize_sequence : {A : Type 0} → ℕ → Step B A → Step B (List A)
  unfolding read_sequence
  deserialize_sequence capacity deserialize b =
      let result = read_sequence capacity deserialize b in (result.0, result.1.elements, result.2)

  -- A flag `optional_x`, and the member `x` that follows when it is set.
  unfoldable pub serialize_optional :
      {A : Type 0} → (A → Step B (Unit {0})) → Option A → Step B (Unit {0})
  serialize_optional serialize none = do cdr.serialize_bool false; pure tt
  serialize_optional serialize (some x) = do cdr.serialize_bool true; serialize x

  unfoldable pub deserialize_optional : {A : Type 0} → Step B A → Step B (Option A)
  deserialize_optional deserialize = do
    present ← cdr.deserialize_bool
    if present then (do x ← deserialize; pure (some x)) else pure none
