-- ===== src/Xrce/Cdr/Items.antt =====
-- A Micro-CDR whose buffer is the items themselves: the laws can be met.
use micro_xrce_dds_client.Prelude.{
  ℕ, zero, suc, ◌≤◌, ◌<◌, ◌*◌, ◌/◌, ◌%◌, ◌≡◌, refl, Bool, true, false, Option, none, some, List, [],
  ◌∷◌, ◌++◌, length, if◌then◌else◌, leb, ◌==◌, ltb, arith,
}
use micro_xrce_dds_client.Prelude.Int.{ℤ, pos}
use micro_xrce_dds_client.Xrce.Cdr.{Step, MicroCdr}
use micro_xrce_dds_client.Xrce.Cdr.Laws.{
  Item, flag, uint8, uint16, uint32, uint64, endian_uint16, int16, int32, string, array, sequence,
  View, Reads, Codec, Laws,
}

-- The items behind the position, those before it, the items that still fit, and the error flag.
pub record Buffer : Type 0 where
  pub written : List Item
  pub unread : List Item
  pub room : ℕ
  pub error : Bool

abbrev pub put : Item → ℕ → Buffer → Bool × Unit {0} × Buffer
put item zero b = (false, tt, record b { error = true })
put item (suc n) b = (true, tt, record b { written = b.written ++ item ∷ []; room = n })

abbrev pub write : Item → Step Buffer (Unit {0})
write item b = put item b.room b

abbrev pub take : {A : Type 0} → (Item → Option A) → A → List Item → Buffer → Bool × A × Buffer
take f d [] b = (false, d, record b { error = true })
take f d (item ∷ items) b = elim (f item) [
  | some a ↦ (true, a, record b { unread = items })
  | none ↦ (false, d, record b { error = true })
]

abbrev pub read : {A : Type 0} → (Item → Option A) → A → Step Buffer A
read f d b = take f d b.unread b

abbrev pub as_bool : Item → Option Bool
as_bool (flag x) = some x
as_bool _ = none

abbrev pub as_uint8 : Item → Option ℕ
as_uint8 (uint8 x) = some x
as_uint8 _ = none

abbrev pub as_uint16 : Item → Option ℕ
as_uint16 (uint16 x) = some x
as_uint16 _ = none

abbrev pub as_uint32 : Item → Option ℕ
as_uint32 (uint32 x) = some x
as_uint32 _ = none

abbrev pub as_uint64 : Item → Option ℕ
as_uint64 (uint64 x) = some x
as_uint64 _ = none

abbrev pub as_int16 : Item → Option ℤ
as_int16 (int16 x) = some x
as_int16 _ = none

abbrev pub as_int32 : Item → Option ℤ
as_int32 (int32 x) = some x
as_int32 _ = none

abbrev pub as_string : ℕ → Item → Option (List ℕ)
as_string n (string x) = if ltb (length x) n then some x else none
as_string n _ = none

abbrev pub as_array : ℕ → Item → Option (List ℕ)
as_array n (array x) = if length x == n then some x else none
as_array n _ = none

abbrev pub as_sequence : ℕ → Item → Option (List ℕ)
as_sequence n (sequence x) = if leb (length x) n then some x else none
as_sequence n _ = none

-- The order of the octets has to agree.
abbrev pub as_endian : Bool → Item → Option ℕ
as_endian true (endian_uint16 true x) = some x
as_endian false (endian_uint16 false x) = some x
as_endian _ _ = none

pub as_endian-endian : (little : Bool) (x : ℕ) → as_endian little (endian_uint16 little x) ≡ some x
as_endian-endian true x = refl
as_endian-endian false x = refl

-- The octets of the items of a message header.
abbrev pub item_octets : List Item → List ℕ
item_octets [] = []
item_octets (uint8 x ∷ items) = x ∷ item_octets items
item_octets (endian_uint16 true x ∷ items) = x % 256 ∷ x / 256 ∷ item_octets items
item_octets (array xs ∷ items) = xs ++ item_octets items
item_octets (_ ∷ items) = item_octets items

instance abbrev pub item_cdr : MicroCdr Buffer
item_cdr = record {
  serialize_bool = λ x. write (flag x);
  serialize_uint8 = λ x. write (uint8 x);
  serialize_uint16 = λ x. write (uint16 x);
  serialize_uint32 = λ x. write (uint32 x);
  serialize_uint64 = λ x. write (uint64 x);
  serialize_int16 = λ x. write (int16 x);
  serialize_int32 = λ x. write (int32 x);
  serialize_string = λ x. write (string x);
  serialize_array_uint8 = λ n x. write (array x);
  serialize_sequence_uint8 = λ x. write (sequence x);
  deserialize_bool = read as_bool (false);
  deserialize_uint8 = read as_uint8 (0);
  deserialize_uint16 = read as_uint16 (0);
  deserialize_uint32 = read as_uint32 (0);
  deserialize_uint64 = read as_uint64 (0);
  deserialize_int16 = read as_int16 (pos 0);
  deserialize_int32 = read as_int32 (pos 0);
  deserialize_string = λ n. read (as_string n) [];
  deserialize_array_uint8 = λ n. read (as_array n) [];
  deserialize_sequence_uint8 = λ n. read (as_sequence n) [];
  serialize_endian_uint16 = λ little x. write (endian_uint16 little x);
  deserialize_endian_uint16 = λ little. read (as_endian little) 0;
  machine_endianness = true;
  set_endianness = λ little b. b;
  init_buffer = λ xs. record { written = []; unread = []; room = length xs; error = false };
  octets = λ b. item_octets b.written;
  align_to = λ n b. b;
  buffer_remaining = λ b. 4 * length b.unread;
  set_error = λ b. record b { error = true };
}

abbrev pub items : View Buffer
items = record {
  Fits = λ b xs. length xs ≤ b.room;
  written = λ b. b.written;
  unread = λ b. b.unread;
}

put-suc :
    (item : Item) (n : ℕ) (b : Buffer) (more : List Item)
    → suc (length more) ≤ n
    → (b' : Buffer) × (put item n b ≡ (true, tt, b'))
      × (b'.written ≡ b.written ++ item ∷ [])
      × (length more ≤ b'.room)
put-suc item zero b more h = absurd (omega arith)
put-suc item (suc n) b more h = (_, refl, refl, omega (arith, h))

take-some :
    {A : Type 0} (f : Item → Option A) (d a : A) (item : Item)
    → f item ≡ some a
    → Reads items (read f d) (item ∷ []) a
take-some f d a item e = record { run = λ b more u. (record b { unread = more }, rw (u, e), refl) }

pub item-Codec :
    {A : Type 0} (item : Item) (f : Item → Option A) (d a : A)
    → f item ≡ some a
    → Codec items (write item) (read f d) (item ∷ []) a
item-Codec item f d a e = record {
  writes = record { run = λ b more h. put-suc item b.room b more h };
  reads = take-some f d a item e;
}

pub as_string-string : (n : ℕ) (x : List ℕ) → length x < n → as_string n (string x) ≡ some x
as_string-string n x h = ground arith

pub as_array-array : (n : ℕ) (x : List ℕ) → length x ≡ n → as_array n (array x) ≡ some x
as_array-array n x h = ground arith

pub as_sequence-sequence : (n : ℕ) (x : List ℕ) → length x ≤ n → as_sequence n (sequence x) ≡ some x
as_sequence-sequence n x h = ground arith

instance abbrev pub item_laws : Laws item_cdr
item_laws = record {
  view = items;
  codec_bool = λ x. item-Codec (flag x) _ _ x refl;
  codec_uint8 = λ x. item-Codec (uint8 x) _ _ x refl;
  codec_uint16 = λ x. item-Codec (uint16 x) _ _ x refl;
  codec_uint32 = λ x. item-Codec (uint32 x) _ _ x refl;
  codec_uint64 = λ x. item-Codec (uint64 x) _ _ x refl;
  codec_int16 = λ x. item-Codec (int16 x) _ _ x refl;
  codec_int32 = λ x. item-Codec (int32 x) _ _ x refl;
  codec_endian_uint16 = λ little x.
      item-Codec (endian_uint16 little x) (as_endian little) 0 x (as_endian-endian little x);
  codec_string = λ n x h. item-Codec (string x) (as_string n) [] x (as_string-string n x h);
  codec_array = λ n x h. item-Codec (array x) (as_array n) [] x (as_array-array n x h);
  codec_sequence =
      λ n x h. item-Codec (sequence x) (as_sequence n) [] x (as_sequence-sequence n x h);
}
