-- ===== src/Xrce/Endpoint.antt =====
-- xrce_types.h: binary representations of endpoints.
pub mod Serialize
pub mod Deserialize
pub mod Layout
pub mod Codec
use micro_xrce_dds_client.Prelude.{ℕ, Option, List}
use micro_xrce_dds_client.Xrce.Basic.{BinarySequence, ObjectId}

pub record ObjkEndpointQosBinary : Type 0 where
  pub qos_flags : ℕ
  pub history_depth : Option ℕ
  pub deadline_msec : Option ℕ
  pub lifespan_msec : Option ℕ
  pub user_data : Option BinarySequence

pub record ObjkDataWriterBinaryQos : Type 0 where
  pub base : ObjkEndpointQosBinary
  pub ownership_strength : Option ℕ

pub record ObjkDataReaderBinaryQos : Type 0 where
  pub base : ObjkEndpointQosBinary
  pub timebasedfilter_msec : Option ℕ
  pub contentbased_filter : Option (List ℕ)

pub record ObjkDataReaderBinary : Type 0 where
  pub topic_id : ObjectId
  pub qos : Option ObjkDataReaderBinaryQos

pub record ObjkDataWriterBinary : Type 0 where
  pub topic_id : ObjectId
  pub qos : Option ObjkDataWriterBinaryQos

pub record ObjkRequesterBinary : Type 0 where
  pub service_name : List ℕ
  pub request_type : List ℕ
  pub reply_type : List ℕ
  pub request_topic_name : Option (List ℕ)
  pub reply_topic_name : Option (List ℕ)

pub record ObjkReplierBinary : Type 0 where
  pub service_name : List ℕ
  pub request_type : List ℕ
  pub reply_type : List ℕ
  pub request_topic_name : Option (List ℕ)
  pub reply_topic_name : Option (List ℕ)
