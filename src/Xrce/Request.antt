-- ===== src/Xrce/Request.antt =====
-- xrce_types.h: object variants, requests, replies and object information.
pub mod Serialize
pub mod Deserialize
pub mod Layout
pub mod Codec
use micro_xrce_dds_client.Prelude.{ℕ, Bool, Option, List}
use micro_xrce_dds_client.Prelude.Int.{ℤ}
use micro_xrce_dds_client.Xrce.Basic.{ObjectId}
use micro_xrce_dds_client.Xrce.Entity.{
  ObjkQosprofileRepresentation, ObjkTypeRepresentation, ObjkApplicationRepresentation,
  ObjkPublisherRepresentation, ObjkSubscriberRepresentation, DatawriterRepresentation,
  DatareaderRepresentation, ObjkParticipantRepresentation, ObjkTopicRepresentation,
  ObjkRequesterRepresentation, ObjkReplierRepresentation,
}
use micro_xrce_dds_client.Xrce.Locator.{TransportLocatorSeq}
use micro_xrce_dds_client.Xrce.Object.{ClientRepresentation, AgentRepresentation}

abbrev pub dds_xrce_objk_agent : ℕ
dds_xrce_objk_agent = 13

abbrev pub dds_xrce_objk_client : ℕ
dds_xrce_objk_client = 14

abbrev pub dds_xrce_objk_application : ℕ
dds_xrce_objk_application = 12

abbrev pub dds_xrce_objk_participant : ℕ
dds_xrce_objk_participant = 1

abbrev pub dds_xrce_objk_qosprofile : ℕ
dds_xrce_objk_qosprofile = 11

abbrev pub dds_xrce_objk_type : ℕ
dds_xrce_objk_type = 10

abbrev pub dds_xrce_objk_topic : ℕ
dds_xrce_objk_topic = 2

abbrev pub dds_xrce_objk_publisher : ℕ
dds_xrce_objk_publisher = 3

abbrev pub dds_xrce_objk_subscriber : ℕ
dds_xrce_objk_subscriber = 4

abbrev pub dds_xrce_objk_datawriter : ℕ
dds_xrce_objk_datawriter = 5

abbrev pub dds_xrce_objk_datareader : ℕ
dds_xrce_objk_datareader = 6

abbrev pub dds_xrce_objk_requester : ℕ
dds_xrce_objk_requester = 7

abbrev pub dds_xrce_objk_replier : ℕ
dds_xrce_objk_replier = 8

pub data ObjectVariant : Type 0 where
  agent : AgentRepresentation → ObjectVariant
  client : ClientRepresentation → ObjectVariant
  application : ObjkApplicationRepresentation → ObjectVariant
  participant : ObjkParticipantRepresentation → ObjectVariant
  qos_profile : ObjkQosprofileRepresentation → ObjectVariant
  type : ObjkTypeRepresentation → ObjectVariant
  topic : ObjkTopicRepresentation → ObjectVariant
  publisher : ObjkPublisherRepresentation → ObjectVariant
  subscriber : ObjkSubscriberRepresentation → ObjectVariant
  data_writer : DatawriterRepresentation → ObjectVariant
  data_reader : DatareaderRepresentation → ObjectVariant
  requester : ObjkRequesterRepresentation → ObjectVariant
  replier : ObjkReplierRepresentation → ObjectVariant
  other : ℕ → ObjectVariant

pub record CreationMode : Type 0 where
  pub reuse : Bool
  pub replace : Bool

pub record RequestId : Type 0 where
  pub octets : List ℕ

pub record ResultStatus : Type 0 where
  pub status : ℕ
  pub implementation_status : ℕ

pub record BaseObjectRequest : Type 0 where
  pub request_id : RequestId
  pub object_id : ObjectId

pub record AgentActivityInfo : Type 0 where
  pub availability : ℤ
  pub address_seq : TransportLocatorSeq

pub record DatareaderActivityInfo : Type 0 where
  pub highest_acked_num : ℤ

pub record DatawriterActivityInfo : Type 0 where
  pub stream_seq_num : ℤ
  pub sample_seq_num : ℕ

pub data ActivityInfoVariant : Type 0 where
  agent : AgentActivityInfo → ActivityInfoVariant
  data_writer : DatawriterActivityInfo → ActivityInfoVariant
  data_reader : DatareaderActivityInfo → ActivityInfoVariant
  other : ℕ → ActivityInfoVariant

pub record ObjectInfo : Type 0 where
  pub config : Option ObjectVariant
  pub activity : Option ActivityInfoVariant

pub record BaseObjectReply : Type 0 where
  pub related_request : BaseObjectRequest
  pub result : ResultStatus
