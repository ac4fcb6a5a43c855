-- ===== src/Xrce/Data.antt =====
-- xrce_types.h: payloads that carry samples.
pub mod Serialize
pub mod Deserialize
pub mod Layout
pub mod Codec
use micro_xrce_dds_client.Xrce.Request.{BaseObjectRequest}
use micro_xrce_dds_client.Xrce.Sample.{SampleDataSeq, Sample, SampleSeq, PackedSamples}

pub record WriteDataPayloadData : Type 0 where
  pub base : BaseObjectRequest

pub record WriteDataPayloadSample : Type 0 where
  pub base : BaseObjectRequest
  pub sample : Sample

pub record WriteDataPayloadDataSeq : Type 0 where
  pub base : BaseObjectRequest
  pub data_seq : SampleDataSeq

pub record WriteDataPayloadSampleSeq : Type 0 where
  pub base : BaseObjectRequest
  pub sample_seq : SampleSeq

pub record WriteDataPayloadPackedSamples : Type 0 where
  pub base : BaseObjectRequest
  pub packed_samples : PackedSamples

pub record DataPayloadData : Type 0 where
  pub base : BaseObjectRequest

pub record DataPayloadSample : Type 0 where
  pub base : BaseObjectRequest
  pub sample : Sample

pub record DataPayloadDataSeq : Type 0 where
  pub base : BaseObjectRequest
  pub data_seq : SampleDataSeq

pub record DataPayloadSampleSeq : Type 0 where
  pub base : BaseObjectRequest
  pub sample_seq : SampleSeq

pub record DataPayloadPackedSamples : Type 0 where
  pub base : BaseObjectRequest
  pub packed_samples : PackedSamples
