-- ===== src/Xrce/Identity/Deserialize.antt =====
-- xrce_types.c: the `uxr_deserialize_` functions of the identities of samples.
use micro_xrce_dds_client.Xrce.Cdr.{Step, MicroCdr, pure, ◌>>=◌}
use micro_xrce_dds_client.Xrce.Identity.{GuidPrefix, EntityId, Guid, SequenceNumber, SampleIdentity}

module _ {B : Type 0} ⦃cdr : MicroCdr B⦄ where
  unfoldable pub deserialize_guid_prefix : Step B GuidPrefix
  deserialize_guid_prefix = do pure (record { octets = (← cdr.deserialize_array_uint8 12) })

  unfoldable pub deserialize_entity_id : Step B EntityId
  deserialize_entity_id = do
    pure (record {
      entity_key = (← cdr.deserialize_array_uint8 3);
      entity_kind = (← cdr.deserialize_uint8);
    })

  unfoldable pub deserialize_guid : Step B Guid
  deserialize_guid = do
    pure (record {
      guid_prefix = (← deserialize_guid_prefix);
      entity_id = (← deserialize_entity_id);
    })

  unfoldable pub deserialize_sequence_number : Step B SequenceNumber
  deserialize_sequence_number = do
    pure (record { high = (← cdr.deserialize_int32); low = (← cdr.deserialize_uint32) })

  unfoldable pub deserialize_sample_identity : Step B SampleIdentity
  deserialize_sample_identity = do
    pure (record {
      writer_guid = (← deserialize_guid);
      sequence_number = (← deserialize_sequence_number);
    })
