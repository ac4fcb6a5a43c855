-- ===== src/Session/Header.antt =====
-- core/serialization/xrce_header.c and xrce_subheader.c: the headers of messages and submessages.
use micro_xrce_dds_client.Prelude.{ℕ, true, Option, none, some, List, if◌then◌else◌, ltb}
use micro_xrce_dds_client.Xrce.Cdr.{Step, MicroCdr, pure, ◌>>=◌, ◌>>◌}

abbrev pub client_key_size : ℕ
client_key_size = 4

abbrev pub session_id_without_client_key : ℕ
session_id_without_client_key = 0x80

-- The outputs of `uxr_deserialize_message_header`; a key that is not read is left as it is.
pub record MessageHeader : Type 0 where
  pub session_id : ℕ
  pub stream_id : ℕ
  pub seq_num : ℕ
  pub key : Option (List ℕ)

pub record SubmessageHeader : Type 0 where
  pub id : ℕ
  pub flags : ℕ
  pub length : ℕ

module _ {B : Type 0} ⦃cdr : MicroCdr B⦄ where
  unfoldable pub serialize_key : ℕ → List ℕ → Step B (Unit {0})
  serialize_key session_id key =
      if ltb session_id session_id_without_client_key
      then cdr.serialize_array_uint8 client_key_size key
      else pure tt

  unfoldable pub serialize_message_header : ℕ → ℕ → ℕ → List ℕ → Step B (Unit {0})
  serialize_message_header session_id stream_id seq_num key = do
    cdr.serialize_uint8 session_id
    cdr.serialize_uint8 stream_id
    cdr.serialize_endian_uint16 true seq_num
    serialize_key session_id key

  unfoldable pub deserialize_key : ℕ → Step B (Option (List ℕ))
  deserialize_key session_id =
      if ltb session_id session_id_without_client_key
      then (do pure (some (← cdr.deserialize_array_uint8 client_key_size)))
      else pure none

  unfoldable pub deserialize_message_header : Step B MessageHeader
  deserialize_message_header = do
    id ← cdr.deserialize_uint8
    stream ← cdr.deserialize_uint8
    number ← cdr.deserialize_endian_uint16 true
    key ← deserialize_key id
    pure (record { session_id = id; stream_id = stream; seq_num = number; key = key })

  unfoldable pub serialize_submessage_header : ℕ → ℕ → ℕ → Step B (Unit {0})
  serialize_submessage_header id flags length = do
    cdr.serialize_uint8 id
    cdr.serialize_uint8 flags
    cdr.serialize_endian_uint16 true length

  unfoldable pub deserialize_submessage_header : Step B SubmessageHeader
  deserialize_submessage_header = do
    pure (record {
      id = (← cdr.deserialize_uint8);
      flags = (← cdr.deserialize_uint8);
      length = (← cdr.deserialize_endian_uint16 true);
    })
