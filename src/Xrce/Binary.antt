-- ===== src/Xrce/Binary.antt =====
-- xrce_types.h: binary representations of participants, topics, publishers and subscribers.
pub mod Serialize
pub mod Deserialize
pub mod Layout
pub mod Codec
use micro_xrce_dds_client.Prelude.{ℕ, Option, List}
use micro_xrce_dds_client.Xrce.Basic.{BinarySequence, StringSequence}

pub record ObjkDomainParticipantBinary : Type 0 where
  pub domain_reference : Option (List ℕ)
  pub qos_profile_reference : Option (List ℕ)

pub record ObjkTopicBinary : Type 0 where
  pub topic_name : List ℕ
  pub type_reference : Option (List ℕ)
  pub type_name : Option (List ℕ)

pub record ObjkPublisherBinaryQos : Type 0 where
  pub partitions : Option StringSequence
  pub group_data : Option BinarySequence

pub record ObjkPublisherBinary : Type 0 where
  pub publisher_name : Option (List ℕ)
  pub qos : Option ObjkPublisherBinaryQos

pub record ObjkSubscriberBinaryQos : Type 0 where
  pub partitions : Option StringSequence
  pub group_data : Option BinarySequence

pub record ObjkSubscriberBinary : Type 0 where
  pub subscriber_name : Option (List ℕ)
  pub qos : Option ObjkSubscriberBinaryQos
