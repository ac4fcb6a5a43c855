-- ===== src/Xrce/Identity/Serialize.antt =====
-- xrce_types.c: the `uxr_serialize_` functions of the identities of samples.
use micro_xrce_dds_client.Xrce.Cdr.{Step, MicroCdr, ◌>>◌}
use micro_xrce_dds_client.Xrce.Identity.{GuidPrefix, EntityId, Guid, SequenceNumber, SampleIdentity}

module _ {B : Type 0} ⦃cdr : MicroCdr B⦄ where
  unfoldable pub serialize_guid_prefix : GuidPrefix → Step B (Unit {0})
  serialize_guid_prefix x = cdr.serialize_array_uint8 12 x.octets

  unfoldable pub serialize_entity_id : EntityId → Step B (Unit {0})
  serialize_entity_id x = do
    cdr.serialize_array_uint8 3 x.entity_key
    cdr.serialize_uint8 x.entity_kind

  unfoldable pub serialize_guid : Guid → Step B (Unit {0})
  serialize_guid x = do serialize_guid_prefix x.guid_prefix; serialize_entity_id x.entity_id

  unfoldable pub serialize_sequence_number : SequenceNumber → Step B (Unit {0})
  serialize_sequence_number x = do cdr.serialize_int32 x.high; cdr.serialize_uint32 x.low

  unfoldable pub serialize_sample_identity : SampleIdentity → Step B (Unit {0})
  serialize_sample_identity x = do
    serialize_guid x.writer_guid
    serialize_sequence_number x.sequence_number
