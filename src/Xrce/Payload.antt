-- ===== src/Xrce/Payload.antt =====
-- xrce_types.h: payloads of requests and replies.
pub mod Serialize
pub mod Deserialize
pub mod Layout
pub mod Codec
use micro_xrce_dds_client.Prelude.{ℕ}
use micro_xrce_dds_client.Xrce.Object.{ClientRepresentation, AgentRepresentation}
use micro_xrce_dds_client.Xrce.Request.{
  ObjectVariant, ResultStatus, BaseObjectRequest, ObjectInfo, BaseObjectReply,
}
use micro_xrce_dds_client.Xrce.Sample.{ReadSpecification}

pub record CreateClientPayload : Type 0 where
  pub client_representation : ClientRepresentation

pub record CreatePayload : Type 0 where
  pub base : BaseObjectRequest
  pub object_representation : ObjectVariant

pub record GetInfoPayload : Type 0 where
  pub base : BaseObjectRequest
  pub info_mask : ℕ

pub record DeletePayload : Type 0 where
  pub base : BaseObjectRequest

pub record StatusAgentPayload : Type 0 where
  pub result : ResultStatus
  pub agent_info : AgentRepresentation

pub record StatusPayload : Type 0 where
  pub base : BaseObjectReply

pub record InfoPayload : Type 0 where
  pub base : BaseObjectReply
  pub object_info : ObjectInfo

pub record ReadDataPayload : Type 0 where
  pub base : BaseObjectRequest
  pub read_specification : ReadSpecification
