-- ===== src/Session/Info/Accepts.antt =====
-- The header that a session writes, and which sessions accept it.
use micro_xrce_dds_client.Prelude.{
  ℕ, ◌<◌, ◌≡◌, ◌↔◌, refl, ap, ◌∙◌, Bool, true, false, Option, none, some, List, [], ◌∷◌, ◌++◌,
  length, if◌then◌else◌, ltb, lt→ltb, arith,
}
use micro_xrce_dds_client.Session.Header.{
  MessageHeader, serialize_key, deserialize_key, serialize_message_header,
  deserialize_message_header, session_id_without_client_key,
}
use micro_xrce_dds_client.Session.Info.{
  SessionInfo, stamp_session_header, read_session_header, is_session_header, same_octets, same_key,
}
use micro_xrce_dds_client.Xrce.Cdr.{MicroCdr, ◌>>=◌, pure}
use micro_xrce_dds_client.Xrce.Cdr.Laws.{Item, Laws, Codec}
use micro_xrce_dds_client.Xrce.Cdr.Rules.{Codec->>, Codec-last, Codec-pure, Codec-written}

-- The key travels with the sessions whose number is below 128.
abbrev pub key_of : SessionInfo → Option (List ℕ)
key_of info = if ltb info.id session_id_without_client_key then some info.key else none

abbrev pub header_of : SessionInfo → ℕ → ℕ → MessageHeader
header_of info stream_id seq_num = record {
  session_id = info.id;
  stream_id = stream_id;
  seq_num = seq_num;
  key = key_of info;
}

abbrev layout_key : Bool → List ℕ → List Item
layout_key true key = Item.array key ∷ []
layout_key false key = []

abbrev pub layout_message_header : SessionInfo → ℕ → ℕ → List Item
layout_message_header info stream_id seq_num =
    Item.uint8 info.id
    ∷ Item.uint8 stream_id
    ∷ Item.endian_uint16 true seq_num
    ∷ layout_key (ltb info.id session_id_without_client_key) info.key

module _ {B : Type 0} ⦃cdr : MicroCdr B⦄ ⦃laws : Laws cdr⦄ where
  key-Codec :
      (with_key : Bool) (key : List ℕ)
      → length key ≡ 4
      → Codec laws.view
          (if with_key then cdr.serialize_array_uint8 4 key else pure tt)
          (if with_key then (do pure (some (← cdr.deserialize_array_uint8 4))) else pure none)
          (layout_key with_key key)
          (if with_key then some key else none)
  key-Codec true key h = Codec-last _ (laws.codec_array 4 key h)
  key-Codec false key h = Codec-pure

  message_header-Codec :
      (info : SessionInfo) (stream_id seq_num : ℕ)
      → length info.key ≡ 4
      → Codec laws.view
          (serialize_message_header info.id stream_id seq_num info.key)
          deserialize_message_header
          (layout_message_header info stream_id seq_num)
          (header_of info stream_id seq_num)
  unfolding serialize_message_header deserialize_message_header serialize_key deserialize_key
  message_header-Codec info stream_id seq_num h = Codec->> _ (laws.codec_uint8 info.id) (
      Codec->> _ (laws.codec_uint8 stream_id) (
        Codec->> _ (laws.codec_endian_uint16 true seq_num)
          (Codec-last _ (key-Codec (ltb info.id session_id_without_client_key) info.key h))))

  read_session_header-read :
      (info : SessionInfo) (header : MessageHeader) (ub rest : B)
      → 8 < cdr.buffer_remaining ub
      → deserialize_message_header ub ≡ (true, header, rest)
      → read_session_header info ub ≡ (is_session_header info header, some header, rest)
  unfolding read_session_header
  read_session_header-read info header ub rest h e = rw (lt→ltb 8 _ h, e)

same_octets_iff : (xs ys : List ℕ) → (same_octets xs ys ≡ true) ↔ (xs ≡ ys)
unfolding same_octets
same_octets_iff [] [] = (λ _. refl, λ _. refl)
same_octets_iff [] (y ∷ ys) = (λ h. cc, λ h. cc)
same_octets_iff (x ∷ xs) [] = (λ h. cc, λ h. cc)
same_octets_iff (x ∷ xs) (y ∷ ys) = let ih = same_octets_iff xs ys in grind (arith, ih)

is_session_header_iff :
    (info writer : SessionInfo) (stream_id seq_num : ℕ)
    → (is_session_header info (header_of writer stream_id seq_num) ≡ true)
      ↔ (writer.id ≡ info.id) × (info.id < 128 → writer.key ≡ info.key)
unfolding is_session_header same_key
is_session_header_iff info writer stream_id seq_num =
    grind (arith, same_octets_iff writer.key info.key)

-- The header that a session with a key of 4 octets stamps on a message, with room for it, is read
-- from a buffer with more than 8 octets left: the result is that header, what follows it stays
-- unread, and the reading session accepts it exactly if both have the same number and, below 128,
-- the same key.
pub read_session_header-stamp_session_header :
    {B : Type 0} ⦃cdr : MicroCdr B⦄ ⦃laws : Laws cdr⦄ (info writer : SessionInfo)
    (stream_id seq_num : ℕ) (ub ub' : B) (more : List Item)
    → length writer.key ≡ 4
    → laws.view.Fits ub (layout_message_header writer stream_id seq_num)
    → laws.view.written ub ≡ []
    → laws.view.unread ub'
      ≡ laws.view.written (stamp_session_header writer stream_id seq_num ub) ++ more
    → 8 < cdr.buffer_remaining ub'
    → (accepted : Bool) × (rest : B) × (read_session_header info ub'
        ≡ (accepted, some (header_of writer stream_id seq_num), rest))
      × (laws.view.unread rest ≡ more)
      × ((accepted ≡ true) ↔ (writer.id ≡ info.id) × (info.id < 128 → writer.key ≡ info.key))
unfolding stamp_session_header
read_session_header-stamp_session_header ⦃laws⦄ info writer stream_id seq_num ub ub' more h fits
      empty e room =
    let codec = message_header-Codec writer stream_id seq_num h in
    let header = header_of writer stream_id seq_num in
    let held = (Codec-written codec ub fits empty).1 in
    let (rest, r, u) = codec.reads.run ub' more (e ∙ ap (λ xs. xs ++ more) held) in
    (
      is_session_header info header,
      rest,
      read_session_header-read info header ub' rest room r,
      u,
      is_session_header_iff info writer stream_id seq_num,
    )
