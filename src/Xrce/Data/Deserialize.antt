-- ===== src/Xrce/Data/Deserialize.antt =====
-- xrce_types.c: the `uxr_deserialize_` functions of the payloads that carry samples.
use micro_xrce_dds_client.Xrce.Cdr.{Step, MicroCdr, pure, ◌>>=◌}
use micro_xrce_dds_client.Xrce.Data.{
  WriteDataPayloadData, WriteDataPayloadSample, WriteDataPayloadDataSeq, WriteDataPayloadSampleSeq,
  WriteDataPayloadPackedSamples, DataPayloadData, DataPayloadSample, DataPayloadDataSeq,
  DataPayloadSampleSeq, DataPayloadPackedSamples,
}
use micro_xrce_dds_client.Xrce.Request.Deserialize.{deserialize_base_object_request}
use micro_xrce_dds_client.Xrce.Sample.Deserialize.{
  deserialize_sample_data_seq, deserialize_sample, deserialize_sample_seq,
  deserialize_packed_samples,
}

module _ {B : Type 0} ⦃cdr : MicroCdr B⦄ where
  unfoldable pub deserialize_write_data_payload_data : Step B WriteDataPayloadData
  deserialize_write_data_payload_data = do
    pure (record { base = (← deserialize_base_object_request) })

  unfoldable pub deserialize_write_data_payload_sample : Step B WriteDataPayloadSample
  deserialize_write_data_payload_sample = do
    pure (record { base = (← deserialize_base_object_request); sample = (← deserialize_sample) })

  unfoldable pub deserialize_write_data_payload_data_seq : Step B WriteDataPayloadDataSeq
  deserialize_write_data_payload_data_seq = do
    pure (record {
      base = (← deserialize_base_object_request);
      data_seq = (← deserialize_sample_data_seq);
    })

  unfoldable pub deserialize_write_data_payload_sample_seq : Step B WriteDataPayloadSampleSeq
  deserialize_write_data_payload_sample_seq = do
    pure (record {
      base = (← deserialize_base_object_request);
      sample_seq = (← deserialize_sample_seq);
    })

  unfoldable pub deserialize_write_data_payload_packed_samples :
      Step B WriteDataPayloadPackedSamples
  deserialize_write_data_payload_packed_samples = do
    pure (record {
      base = (← deserialize_base_object_request);
      packed_samples = (← deserialize_packed_samples);
    })

  unfoldable pub deserialize_data_payload_data : Step B DataPayloadData
  deserialize_data_payload_data = do pure (record { base = (← deserialize_base_object_request) })

  unfoldable pub deserialize_data_payload_sample : Step B DataPayloadSample
  deserialize_data_payload_sample = do
    pure (record { base = (← deserialize_base_object_request); sample = (← deserialize_sample) })

  unfoldable pub deserialize_data_payload_data_seq : Step B DataPayloadDataSeq
  deserialize_data_payload_data_seq = do
    pure (record {
      base = (← deserialize_base_object_request);
      data_seq = (← deserialize_sample_data_seq);
    })

  unfoldable pub deserialize_data_payload_sample_seq : Step B DataPayloadSampleSeq
  deserialize_data_payload_sample_seq = do
    pure (record {
      base = (← deserialize_base_object_request);
      sample_seq = (← deserialize_sample_seq);
    })

  unfoldable pub deserialize_data_payload_packed_samples : Step B DataPayloadPackedSamples
  deserialize_data_payload_packed_samples = do
    pure (record {
      base = (← deserialize_base_object_request);
      packed_samples = (← deserialize_packed_samples);
    })
