-- ===== src/Xrce/Basic/Codec.antt =====
-- What is written for one of the times, sequences and identifiers is its items, and these are read back as the value.
use micro_xrce_dds_client.Xrce.Cdr.{MicroCdr}
use micro_xrce_dds_client.Xrce.Cdr.Laws.{Laws, Codec}
use micro_xrce_dds_client.Xrce.Cdr.Rules.{Codec->>, Codec-last, sequence-Codec}
use micro_xrce_dds_client.Xrce.Basic.{
  uxr_binary_sequence_max, uxr_string_size_max, Time, BinarySequence, StringSequence, ClientKey,
  ObjectId, ObjectPrefix, XrceCookie, XrceVersion, XrceVendorId,
}
use micro_xrce_dds_client.Xrce.Basic.Deserialize.{
  deserialize_time, deserialize_binary_sequence, deserialize_string_sequence,
  deserialize_client_key, deserialize_object_id, deserialize_object_prefix, deserialize_xrce_cookie,
  deserialize_xrce_version, deserialize_xrce_vendor_id,
}
use micro_xrce_dds_client.Xrce.Basic.Layout.{
  layout_time, layout_binary_sequence, layout_string_sequence, layout_client_key, layout_object_id,
  layout_object_prefix, layout_xrce_cookie, layout_xrce_version, layout_xrce_vendor_id,
  IsValidBinarySequence, IsValidStringSequence, IsValidClientKey, IsValidObjectId,
  IsValidObjectPrefix, IsValidXrceCookie, IsValidXrceVersion, IsValidXrceVendorId,
}
use micro_xrce_dds_client.Xrce.Basic.Serialize.{
  serialize_time, serialize_binary_sequence, serialize_string_sequence, serialize_client_key,
  serialize_object_id, serialize_object_prefix, serialize_xrce_cookie, serialize_xrce_version,
  serialize_xrce_vendor_id,
}

module _ {B : Type 0} ⦃cdr : MicroCdr B⦄ ⦃laws : Laws cdr⦄ where
  pub time-Codec :
      (x : Time) → Codec laws.view (serialize_time x) deserialize_time (layout_time x) x
  unfolding serialize_time deserialize_time layout_time
  time-Codec x =
      Codec->> _ (laws.codec_int32 x.seconds) (Codec-last _ (laws.codec_uint32 x.nanoseconds))

  pub binary_sequence-Codec :
      (x : BinarySequence)
      → IsValidBinarySequence x
      → Codec laws.view
          (serialize_binary_sequence x)
          deserialize_binary_sequence
          (layout_binary_sequence x)
          x
  unfolding serialize_binary_sequence deserialize_binary_sequence layout_binary_sequence
  binary_sequence-Codec x h = laws.codec_sequence uxr_binary_sequence_max x h

  pub string_sequence-Codec :
      (x : StringSequence)
      → IsValidStringSequence x
      → Codec laws.view
          (serialize_string_sequence x)
          deserialize_string_sequence
          (layout_string_sequence x)
          x
  unfolding serialize_string_sequence deserialize_string_sequence layout_string_sequence
  string_sequence-Codec x (h, all) =
      sequence-Codec _ _ _ _ x h all (λ a h1. laws.codec_string uxr_string_size_max a h1)

  pub client_key-Codec :
      (x : ClientKey)
      → IsValidClientKey x
      → Codec laws.view (serialize_client_key x) deserialize_client_key (layout_client_key x) x
  unfolding serialize_client_key deserialize_client_key layout_client_key
  client_key-Codec x h1 = Codec-last _ (laws.codec_array 4 x.octets h1)

  pub object_id-Codec :
      (x : ObjectId)
      → IsValidObjectId x
      → Codec laws.view (serialize_object_id x) deserialize_object_id (layout_object_id x) x
  unfolding serialize_object_id deserialize_object_id layout_object_id
  object_id-Codec x h1 = Codec-last _ (laws.codec_array 2 x.octets h1)

  object_prefix-Codec :
      (x : ObjectPrefix)
      → IsValidObjectPrefix x
      → Codec laws.view
          (serialize_object_prefix x)
          deserialize_object_prefix
          (layout_object_prefix x)
          x
  unfolding serialize_object_prefix deserialize_object_prefix layout_object_prefix
  object_prefix-Codec x h1 = Codec-last _ (laws.codec_array 2 x.octets h1)

  pub xrce_cookie-Codec :
      (x : XrceCookie)
      → IsValidXrceCookie x
      → Codec laws.view (serialize_xrce_cookie x) deserialize_xrce_cookie (layout_xrce_cookie x) x
  unfolding serialize_xrce_cookie deserialize_xrce_cookie layout_xrce_cookie
  xrce_cookie-Codec x h1 = Codec-last _ (laws.codec_array 4 x.octets h1)

  pub xrce_version-Codec :
      (x : XrceVersion)
      → IsValidXrceVersion x
      → Codec laws.view
          (serialize_xrce_version x)
          deserialize_xrce_version
          (layout_xrce_version x)
          x
  unfolding serialize_xrce_version deserialize_xrce_version layout_xrce_version
  xrce_version-Codec x h1 = Codec-last _ (laws.codec_array 2 x.octets h1)

  pub xrce_vendor_id-Codec :
      (x : XrceVendorId)
      → IsValidXrceVendorId x
      → Codec laws.view
          (serialize_xrce_vendor_id x)
          deserialize_xrce_vendor_id
          (layout_xrce_vendor_id x)
          x
  unfolding serialize_xrce_vendor_id deserialize_xrce_vendor_id layout_xrce_vendor_id
  xrce_vendor_id-Codec x h1 = Codec-last _ (laws.codec_array 2 x.octets h1)
