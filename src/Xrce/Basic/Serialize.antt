-- ===== src/Xrce/Basic/Serialize.antt =====
-- xrce_types.c: the `uxr_serialize_` functions of the times, sequences and identifiers.
use micro_xrce_dds_client.Xrce.Cdr.{Step, MicroCdr, ◌>>◌, serialize_sequence}
use micro_xrce_dds_client.Xrce.Basic.{
  Time, BinarySequence, StringSequence, ClientKey, ObjectId, ObjectPrefix, XrceCookie, XrceVersion,
  XrceVendorId,
}

module _ {B : Type 0} ⦃cdr : MicroCdr B⦄ where
  unfoldable pub serialize_time : Time → Step B (Unit {0})
  serialize_time x = do cdr.serialize_int32 x.seconds; cdr.serialize_uint32 x.nanoseconds

  unfoldable pub serialize_binary_sequence : BinarySequence → Step B (Unit {0})
  serialize_binary_sequence x = cdr.serialize_sequence_uint8 x

  unfoldable pub serialize_string_sequence : StringSequence → Step B (Unit {0})
  serialize_string_sequence x = serialize_sequence cdr.serialize_string x

  unfoldable pub serialize_client_key : ClientKey → Step B (Unit {0})
  serialize_client_key x = cdr.serialize_array_uint8 4 x.octets

  unfoldable pub serialize_object_id : ObjectId → Step B (Unit {0})
  serialize_object_id x = cdr.serialize_array_uint8 2 x.octets

  unfoldable pub serialize_object_prefix : ObjectPrefix → Step B (Unit {0})
  serialize_object_prefix x = cdr.serialize_array_uint8 2 x.octets

  unfoldable pub serialize_xrce_cookie : XrceCookie → Step B (Unit {0})
  serialize_xrce_cookie x = cdr.serialize_array_uint8 4 x.octets

  unfoldable pub serialize_xrce_version : XrceVersion → Step B (Unit {0})
  serialize_xrce_version x = cdr.serialize_array_uint8 2 x.octets

  unfoldable pub serialize_xrce_vendor_id : XrceVendorId → Step B (Unit {0})
  serialize_xrce_vendor_id x = cdr.serialize_array_uint8 2 x.octets
