-- ===== src/Xrce/Basic/Deserialize.antt =====
-- xrce_types.c: the `uxr_deserialize_` functions of the times, sequences and identifiers.
use micro_xrce_dds_client.Xrce.Cdr.{Step, MicroCdr, pure, ◌>>=◌, deserialize_sequence}
use micro_xrce_dds_client.Xrce.Basic.{
  uxr_binary_sequence_max, uxr_string_sequence_max, uxr_string_size_max, Time, BinarySequence,
  StringSequence, ClientKey, ObjectId, ObjectPrefix, XrceCookie, XrceVersion, XrceVendorId,
}

module _ {B : Type 0} ⦃cdr : MicroCdr B⦄ where
  unfoldable pub deserialize_time : Step B Time
  deserialize_time = do
    pure (record { seconds = (← cdr.deserialize_int32); nanoseconds = (← cdr.deserialize_uint32) })

  unfoldable pub deserialize_binary_sequence : Step B BinarySequence
  deserialize_binary_sequence = cdr.deserialize_sequence_uint8 uxr_binary_sequence_max

  unfoldable pub deserialize_string_sequence : Step B StringSequence
  deserialize_string_sequence =
      deserialize_sequence uxr_string_sequence_max (cdr.deserialize_string uxr_string_size_max)

  unfoldable pub deserialize_client_key : Step B ClientKey
  deserialize_client_key = do pure (record { octets = (← cdr.deserialize_array_uint8 4) })

  unfoldable pub deserialize_object_id : Step B ObjectId
  deserialize_object_id = do pure (record { octets = (← cdr.deserialize_array_uint8 2) })

  unfoldable pub deserialize_object_prefix : Step B ObjectPrefix
  deserialize_object_prefix = do pure (record { octets = (← cdr.deserialize_array_uint8 2) })

  unfoldable pub deserialize_xrce_cookie : Step B XrceCookie
  deserialize_xrce_cookie = do pure (record { octets = (← cdr.deserialize_array_uint8 4) })

  unfoldable pub deserialize_xrce_version : Step B XrceVersion
  deserialize_xrce_version = do pure (record { octets = (← cdr.deserialize_array_uint8 2) })

  unfoldable pub deserialize_xrce_vendor_id : Step B XrceVendorId
  deserialize_xrce_vendor_id = do pure (record { octets = (← cdr.deserialize_array_uint8 2) })
