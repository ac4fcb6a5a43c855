-- ===== src/Xrce/Entity.antt =====
-- xrce_types.h: representations of entities.
pub mod Serialize
pub mod Deserialize
pub mod Layout
pub mod Codec
use micro_xrce_dds_client.Prelude.Int.{ℤ}
use micro_xrce_dds_client.Xrce.Basic.{ObjectId}
use micro_xrce_dds_client.Xrce.Object.{
  ObjkRepresentationRefAndXmlBase, ObjkRepresentationBinAndXmlBase, ObjkRepresentation3Base,
}

pub record ObjkQosprofileRepresentation : Type 0 where
  pub base : ObjkRepresentationRefAndXmlBase

pub record ObjkTypeRepresentation : Type 0 where
  pub base : ObjkRepresentationRefAndXmlBase

pub record ObjkDomainRepresentation : Type 0 where
  pub base : ObjkRepresentationRefAndXmlBase

pub record ObjkApplicationRepresentation : Type 0 where
  pub base : ObjkRepresentationRefAndXmlBase

pub record ObjkPublisherRepresentation : Type 0 where
  pub base : ObjkRepresentationBinAndXmlBase
  pub participant_id : ObjectId

pub record ObjkSubscriberRepresentation : Type 0 where
  pub base : ObjkRepresentationBinAndXmlBase
  pub participant_id : ObjectId

pub record DatawriterRepresentation : Type 0 where
  pub base : ObjkRepresentation3Base
  pub publisher_id : ObjectId

pub record DatareaderRepresentation : Type 0 where
  pub base : ObjkRepresentation3Base
  pub subscriber_id : ObjectId

pub record ObjkParticipantRepresentation : Type 0 where
  pub base : ObjkRepresentation3Base
  pub domain_id : ℤ

pub record ObjkTopicRepresentation : Type 0 where
  pub base : ObjkRepresentation3Base
  pub participant_id : ObjectId

pub record ObjkRequesterRepresentation : Type 0 where
  pub base : ObjkRepresentation3Base
  pub participant_id : ObjectId

pub record ObjkReplierRepresentation : Type 0 where
  pub base : ObjkRepresentation3Base
  pub participant_id : ObjectId
