-- ===== src/Xrce/Cdr/Laws.antt =====
-- What the proofs use of Micro-CDR: the items that a buffer holds and still has to give.
use micro_xrce_dds_client.Prelude.{
  ℕ, ◌≤◌, ◌<◌, ◌≡◌, refl, Bool, true, false, Option, none, some, List, [], ◌∷◌, ◌++◌, length,
}
use micro_xrce_dds_client.Prelude.Int.{ℤ}
use micro_xrce_dds_client.Xrce.Cdr.{Step, MicroCdr}

-- One primitive value of the format.
pub data Item : Type 0 where
  flag : Bool → Item
  uint8 uint16 uint32 uint64 : ℕ → Item
  endian_uint16 : Bool → ℕ → Item
  int16 int32 : ℤ → Item
  string array sequence : List ℕ → Item

-- `Fits b items`: the values are within their widths and the buffer has room for all of them, one
-- after another. `written` and `unread` are the items behind and before the buffer's position.
pub record View (B : Type 0) : Type 1 where
  pub Fits : B → List Item → Type 0
  pub written : B → List Item
  pub unread : B → List Item

-- The step succeeds on a buffer with room for the items, and appends them.
pub record Writes {B : Type 0} (v : View B) (m : Step B (Unit {0})) (items : List Item)
    : Type 0 where
  pub run :
      (b : B) (more : List Item)
      → v.Fits b (items ++ more)
      → (b' : B) × (m b ≡ (true, tt, b')) × (v.written b' ≡ v.written b ++ items) × v.Fits b' more

-- The step succeeds on a buffer whose next items these are, returns `a` and leaves the rest.
pub record Reads {B A : Type 0} (v : View B) (m : Step B A) (items : List Item) (a : A)
    : Type 0 where
  pub run :
      (b : B) (more : List Item)
      → v.unread b ≡ items ++ more
      → (b' : B) × (m b ≡ (true, a, b')) × (v.unread b' ≡ more)

abbrev pub layout_optional : {A : Type 0} → (A → List Item) → Option A → List Item
layout_optional layout none = flag false ∷ []
layout_optional layout (some x) = flag true ∷ layout x

abbrev pub Holds : {A : Type 0} → (A → Type 0) → Option A → Type 0
Holds P none = Unit {0}
Holds P (some x) = P x

pub Holds-trivial : {A : Type 0} (x : Option A) → Holds (λ _. Unit {0}) x
Holds-trivial none = tt
Holds-trivial (some x) = tt

abbrev pub layout_each : {A : Type 0} → (A → List Item) → List A → List Item
layout_each layout [] = []
layout_each layout (x ∷ xs) = layout x ++ layout_each layout xs

abbrev pub layout_sequence : {A : Type 0} → (A → List Item) → List A → List Item
layout_sequence layout xs = uint32 (length xs) ∷ layout_each layout xs

-- What `m` writes, `k` reads back.
pub record Codec {B A : Type 0} (v : View B) (m : Step B (Unit {0})) (k : Step B A)
    (items : List Item) (a : A) : Type 0 where
  pub writes : Writes v m items
  pub reads : Reads v k items a

-- The capacity of a string counts the final zero.
pub record Laws {B : Type 0} (cdr : MicroCdr B) : Type 1 where
  pub view : View B
  pub codec_bool :
      (x : Bool) → Codec view (cdr.serialize_bool x) cdr.deserialize_bool (flag x ∷ []) x
  pub codec_uint8 :
      (x : ℕ) → Codec view (cdr.serialize_uint8 x) cdr.deserialize_uint8 (uint8 x ∷ []) x
  pub codec_uint16 :
      (x : ℕ) → Codec view (cdr.serialize_uint16 x) cdr.deserialize_uint16 (uint16 x ∷ []) x
  pub codec_uint32 :
      (x : ℕ) → Codec view (cdr.serialize_uint32 x) cdr.deserialize_uint32 (uint32 x ∷ []) x
  pub codec_uint64 :
      (x : ℕ) → Codec view (cdr.serialize_uint64 x) cdr.deserialize_uint64 (uint64 x ∷ []) x
  pub codec_int16 :
      (x : ℤ) → Codec view (cdr.serialize_int16 x) cdr.deserialize_int16 (int16 x ∷ []) x
  pub codec_int32 :
      (x : ℤ) → Codec view (cdr.serialize_int32 x) cdr.deserialize_int32 (int32 x ∷ []) x
  pub codec_endian_uint16 :
      (little : Bool) (x : ℕ)
      → Codec view
          (cdr.serialize_endian_uint16 little x)
          (cdr.deserialize_endian_uint16 little)
          (endian_uint16 little x ∷ [])
          x
  pub codec_string :
      (n : ℕ) (x : List ℕ)
      → length x < n
      → Codec view (cdr.serialize_string x) (cdr.deserialize_string n) (string x ∷ []) x
  pub codec_array :
      (n : ℕ) (x : List ℕ)
      → length x ≡ n
      → Codec view (cdr.serialize_array_uint8 n x) (cdr.deserialize_array_uint8 n) (array x ∷ []) x
  pub codec_sequence :
      (n : ℕ) (x : List ℕ)
      → length x ≤ n
      → Codec view
          (cdr.serialize_sequence_uint8 x)
          (cdr.deserialize_sequence_uint8 n)
          (sequence x ∷ [])
          x

pub Holds-absent : {A : Type 0} (x : Option A) → Holds (λ _. ⊥) x → x ≡ none
Holds-absent none h = refl
Holds-absent (some x) h = absurd h
