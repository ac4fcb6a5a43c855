-- ===== src/Xrce/Data/Serialize.antt =====
-- xrce_types.c: the `uxr_serialize_` functions of the payloads that carry samples.
use micro_xrce_dds_client.Xrce.Cdr.{Step, MicroCdr, ◌>>◌}
use micro_xrce_dds_client.Xrce.Data.{
  WriteDataPayloadData, WriteDataPayloadSample, WriteDataPayloadDataSeq, WriteDataPayloadSampleSeq,
  WriteDataPayloadPackedSamples, DataPayloadData, DataPayloadSample, DataPayloadDataSeq,
  DataPayloadSampleSeq, DataPayloadPackedSamples,
}
use micro_xrce_dds_client.Xrce.Request.Serialize.{serialize_base_object_request}
use micro_xrce_dds_client.Xrce.Sample.Serialize.{
  serialize_sample_data_seq, serialize_sample, serialize_sample_seq, serialize_packed_samples,
}

module _ {B : Type 0} ⦃cdr : MicroCdr B⦄ where
  unfoldable pub serialize_write_data_payload_data : WriteDataPayloadData → Step B (Unit {0})
  serialize_write_data_payload_data x = serialize_base_object_request x.base

  unfoldable pub serialize_write_data_payload_sample : WriteDataPayloadSample → Step B (Unit {0})
  serialize_write_data_payload_sample x = do
    serialize_base_object_request x.base
    serialize_sample x.sample

  unfoldable pub serialize_write_data_payload_data_seq : WriteDataPayloadDataSeq → Step B (Unit {0})
  serialize_write_data_payload_data_seq x = do
    serialize_base_object_request x.base
    serialize_sample_data_seq x.data_seq

  unfoldable pub serialize_write_data_payload_sample_seq :
      WriteDataPayloadSampleSeq → Step B (Unit {0})
  serialize_write_data_payload_sample_seq x = do
    serialize_base_object_request x.base
    serialize_sample_seq x.sample_seq

  unfoldable pub serialize_write_data_payload_packed_samples :
      WriteDataPayloadPackedSamples → Step B (Unit {0})
  serialize_write_data_payload_packed_samples x = do
    serialize_base_object_request x.base
    serialize_packed_samples x.packed_samples

  unfoldable pub serialize_data_payload_data : DataPayloadData → Step B (Unit {0})
  serialize_data_payload_data x = serialize_base_object_request x.base

  unfoldable pub serialize_data_payload_sample : DataPayloadSample → Step B (Unit {0})
  serialize_data_payload_sample x = do
    serialize_base_object_request x.base
    serialize_sample x.sample

  unfoldable pub serialize_data_payload_data_seq : DataPayloadDataSeq → Step B (Unit {0})
  serialize_data_payload_data_seq x = do
    serialize_base_object_request x.base
    serialize_sample_data_seq x.data_seq

  unfoldable pub serialize_data_payload_sample_seq : DataPayloadSampleSeq → Step B (Unit {0})
  serialize_data_payload_sample_seq x = do
    serialize_base_object_request x.base
    serialize_sample_seq x.sample_seq

  unfoldable pub serialize_data_payload_packed_samples :
      DataPayloadPackedSamples → Step B (Unit {0})
  serialize_data_payload_packed_samples x = do
    serialize_base_object_request x.base
    serialize_packed_samples x.packed_samples
