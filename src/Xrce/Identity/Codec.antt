-- ===== src/Xrce/Identity/Codec.antt =====
-- What is written for one of the identities of samples is its items, and these are read back as the value.
use micro_xrce_dds_client.Xrce.Cdr.{MicroCdr}
use micro_xrce_dds_client.Xrce.Cdr.Laws.{Laws, Codec}
use micro_xrce_dds_client.Xrce.Cdr.Rules.{Codec->>, Codec-last}
use micro_xrce_dds_client.Xrce.Identity.{GuidPrefix, EntityId, Guid, SequenceNumber, SampleIdentity}
use micro_xrce_dds_client.Xrce.Identity.Deserialize.{
  deserialize_guid_prefix, deserialize_entity_id, deserialize_guid, deserialize_sequence_number,
  deserialize_sample_identity,
}
use micro_xrce_dds_client.Xrce.Identity.Layout.{
  layout_guid_prefix, layout_entity_id, layout_guid, layout_sequence_number, layout_sample_identity,
  IsValidGuidPrefix, IsValidEntityId, IsValidGuid, IsValidSampleIdentity,
}
use micro_xrce_dds_client.Xrce.Identity.Serialize.{
  serialize_guid_prefix, serialize_entity_id, serialize_guid, serialize_sequence_number,
  serialize_sample_identity,
}

module _ {B : Type 0} ⦃cdr : MicroCdr B⦄ ⦃laws : Laws cdr⦄ where
  guid_prefix-Codec :
      (x : GuidPrefix)
      → IsValidGuidPrefix x
      → Codec laws.view (serialize_guid_prefix x) deserialize_guid_prefix (layout_guid_prefix x) x
  unfolding serialize_guid_prefix deserialize_guid_prefix layout_guid_prefix
  guid_prefix-Codec x h1 = Codec-last _ (laws.codec_array 12 x.octets h1)

  entity_id-Codec :
      (x : EntityId)
      → IsValidEntityId x
      → Codec laws.view (serialize_entity_id x) deserialize_entity_id (layout_entity_id x) x
  unfolding serialize_entity_id deserialize_entity_id layout_entity_id
  entity_id-Codec x h1 =
      Codec->> _ (laws.codec_array 3 x.entity_key h1)
        (Codec-last _ (laws.codec_uint8 x.entity_kind))

  guid-Codec :
      (x : Guid)
      → IsValidGuid x
      → Codec laws.view (serialize_guid x) deserialize_guid (layout_guid x) x
  unfolding serialize_guid deserialize_guid layout_guid
  guid-Codec x (h1, h2) =
      Codec->> _ (guid_prefix-Codec x.guid_prefix h1)
        (Codec-last _ (entity_id-Codec x.entity_id h2))

  sequence_number-Codec :
      (x : SequenceNumber)
      → Codec laws.view
          (serialize_sequence_number x)
          deserialize_sequence_number
          (layout_sequence_number x)
          x
  unfolding serialize_sequence_number deserialize_sequence_number layout_sequence_number
  sequence_number-Codec x =
      Codec->> _ (laws.codec_int32 x.high) (Codec-last _ (laws.codec_uint32 x.low))

  sample_identity-Codec :
      (x : SampleIdentity)
      → IsValidSampleIdentity x
      → Codec laws.view
          (serialize_sample_identity x)
          deserialize_sample_identity
          (layout_sample_identity x)
          x
  unfolding serialize_sample_identity deserialize_sample_identity layout_sample_identity
  sample_identity-Codec x h1 =
      Codec->> _ (guid-Codec x.writer_guid h1)
        (Codec-last _ (sequence_number-Codec x.sequence_number))
