-- ===== src/Xrce/Identity.antt =====
-- xrce_types.h: identities of samples.
pub mod Serialize
pub mod Deserialize
pub mod Layout
pub mod Codec
use micro_xrce_dds_client.Prelude.{ℕ, List}
use micro_xrce_dds_client.Prelude.Int.{ℤ}

pub record GuidPrefix : Type 0 where
  pub octets : List ℕ

pub record EntityId : Type 0 where
  pub entity_key : List ℕ
  pub entity_kind : ℕ

pub record Guid : Type 0 where
  pub guid_prefix : GuidPrefix
  pub entity_id : EntityId

pub record SequenceNumber : Type 0 where
  pub high : ℤ
  pub low : ℕ

pub record SampleIdentity : Type 0 where
  pub writer_guid : Guid
  pub sequence_number : SequenceNumber
