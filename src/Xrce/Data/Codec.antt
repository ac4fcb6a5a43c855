-- ===== src/Xrce/Data/Codec.antt =====
-- What is written for one of the payloads that carry samples is its items, and these are read back as the value.
use micro_xrce_dds_client.Xrce.Cdr.{MicroCdr}
use micro_xrce_dds_client.Xrce.Cdr.Laws.{Laws, Codec}
use micro_xrce_dds_client.Xrce.Cdr.Rules.{Codec->>, Codec-last}
use micro_xrce_dds_client.Xrce.Data.{
  WriteDataPayloadData, WriteDataPayloadSample, WriteDataPayloadDataSeq, WriteDataPayloadSampleSeq,
  WriteDataPayloadPackedSamples, DataPayloadData, DataPayloadSample, DataPayloadDataSeq,
  DataPayloadSampleSeq, DataPayloadPackedSamples,
}
use micro_xrce_dds_client.Xrce.Data.Deserialize.{
  deserialize_write_data_payload_data, deserialize_write_data_payload_sample,
  deserialize_write_data_payload_data_seq, deserialize_write_data_payload_sample_seq,
  deserialize_write_data_payload_packed_samples, deserialize_data_payload_data,
  deserialize_data_payload_sample, deserialize_data_payload_data_seq,
  deserialize_data_payload_sample_seq, deserialize_data_payload_packed_samples,
}
use micro_xrce_dds_client.Xrce.Data.Layout.{
  layout_write_data_payload_data, layout_write_data_payload_sample,
  layout_write_data_payload_data_seq, layout_write_data_payload_sample_seq,
  layout_write_data_payload_packed_samples, layout_data_payload_data, layout_data_payload_sample,
  layout_data_payload_data_seq, layout_data_payload_sample_seq, layout_data_payload_packed_samples,
  IsValidWriteDataPayloadData, IsValidWriteDataPayloadSample, IsValidWriteDataPayloadDataSeq,
  IsValidWriteDataPayloadSampleSeq, IsValidWriteDataPayloadPackedSamples, IsValidDataPayloadData,
  IsValidDataPayloadSample, IsValidDataPayloadDataSeq, IsValidDataPayloadSampleSeq,
  IsValidDataPayloadPackedSamples,
}
use micro_xrce_dds_client.Xrce.Data.Serialize.{
  serialize_write_data_payload_data, serialize_write_data_payload_sample,
  serialize_write_data_payload_data_seq, serialize_write_data_payload_sample_seq,
  serialize_write_data_payload_packed_samples, serialize_data_payload_data,
  serialize_data_payload_sample, serialize_data_payload_data_seq, serialize_data_payload_sample_seq,
  serialize_data_payload_packed_samples,
}
use micro_xrce_dds_client.Xrce.Request.Codec.{base_object_request-Codec}
use micro_xrce_dds_client.Xrce.Sample.Codec.{
  sample_data_seq-Codec, sample-Codec, sample_seq-Codec, packed_samples-Codec,
}

module _ {B : Type 0} ⦃cdr : MicroCdr B⦄ ⦃laws : Laws cdr⦄ where
  write_data_payload_data-Codec :
      (x : WriteDataPayloadData)
      → IsValidWriteDataPayloadData x
      → Codec laws.view
          (serialize_write_data_payload_data x)
          deserialize_write_data_payload_data
          (layout_write_data_payload_data x)
          x
  unfolding serialize_write_data_payload_data deserialize_write_data_payload_data
      layout_write_data_payload_data
  write_data_payload_data-Codec x h1 = Codec-last _ (base_object_request-Codec x.base h1)

  write_data_payload_sample-Codec :
      (x : WriteDataPayloadSample)
      → IsValidWriteDataPayloadSample x
      → Codec laws.view
          (serialize_write_data_payload_sample x)
          deserialize_write_data_payload_sample
          (layout_write_data_payload_sample x)
          x
  unfolding serialize_write_data_payload_sample deserialize_write_data_payload_sample
      layout_write_data_payload_sample
  write_data_payload_sample-Codec x (h1, h2) =
      Codec->> _ (base_object_request-Codec x.base h1) (Codec-last _ (sample-Codec x.sample h2))

  write_data_payload_data_seq-Codec :
      (x : WriteDataPayloadDataSeq)
      → IsValidWriteDataPayloadDataSeq x
      → Codec laws.view
          (serialize_write_data_payload_data_seq x)
          deserialize_write_data_payload_data_seq
          (layout_write_data_payload_data_seq x)
          x
  unfolding serialize_write_data_payload_data_seq deserialize_write_data_payload_data_seq
      layout_write_data_payload_data_seq
  write_data_payload_data_seq-Codec x (h1, h2) =
      Codec->> _ (base_object_request-Codec x.base h1)
        (Codec-last _ (sample_data_seq-Codec x.data_seq h2))

  write_data_payload_sample_seq-Codec :
      (x : WriteDataPayloadSampleSeq)
      → IsValidWriteDataPayloadSampleSeq x
      → Codec laws.view
          (serialize_write_data_payload_sample_seq x)
          deserialize_write_data_payload_sample_seq
          (layout_write_data_payload_sample_seq x)
          x
  unfolding serialize_write_data_payload_sample_seq deserialize_write_data_payload_sample_seq
      layout_write_data_payload_sample_seq
  write_data_payload_sample_seq-Codec x (h1, h2) =
      Codec->> _ (base_object_request-Codec x.base h1)
        (Codec-last _ (sample_seq-Codec x.sample_seq h2))

  write_data_payload_packed_samples-Codec :
      (x : WriteDataPayloadPackedSamples)
      → IsValidWriteDataPayloadPackedSamples x
      → Codec laws.view
          (serialize_write_data_payload_packed_samples x)
          deserialize_write_data_payload_packed_samples
          (layout_write_data_payload_packed_samples x)
          x
  unfolding serialize_write_data_payload_packed_samples
      deserialize_write_data_payload_packed_samples layout_write_data_payload_packed_samples
  write_data_payload_packed_samples-Codec x (h1, h2) =
      Codec->> _ (base_object_request-Codec x.base h1)
        (Codec-last _ (packed_samples-Codec x.packed_samples h2))

  data_payload_data-Codec :
      (x : DataPayloadData)
      → IsValidDataPayloadData x
      → Codec laws.view
          (serialize_data_payload_data x)
          deserialize_data_payload_data
          (layout_data_payload_data x)
          x
  unfolding serialize_data_payload_data deserialize_data_payload_data layout_data_payload_data
  data_payload_data-Codec x h1 = Codec-last _ (base_object_request-Codec x.base h1)

  data_payload_sample-Codec :
      (x : DataPayloadSample)
      → IsValidDataPayloadSample x
      → Codec laws.view
          (serialize_data_payload_sample x)
          deserialize_data_payload_sample
          (layout_data_payload_sample x)
          x
  unfolding serialize_data_payload_sample deserialize_data_payload_sample layout_data_payload_sample
  data_payload_sample-Codec x (h1, h2) =
      Codec->> _ (base_object_request-Codec x.base h1) (Codec-last _ (sample-Codec x.sample h2))

  data_payload_data_seq-Codec :
      (x : DataPayloadDataSeq)
      → IsValidDataPayloadDataSeq x
      → Codec laws.view
          (serialize_data_payload_data_seq x)
          deserialize_data_payload_data_seq
          (layout_data_payload_data_seq x)
          x
  unfolding serialize_data_payload_data_seq deserialize_data_payload_data_seq
      layout_data_payload_data_seq
  data_payload_data_seq-Codec x (h1, h2) =
      Codec->> _ (base_object_request-Codec x.base h1)
        (Codec-last _ (sample_data_seq-Codec x.data_seq h2))

  data_payload_sample_seq-Codec :
      (x : DataPayloadSampleSeq)
      → IsValidDataPayloadSampleSeq x
      → Codec laws.view
          (serialize_data_payload_sample_seq x)
          deserialize_data_payload_sample_seq
          (layout_data_payload_sample_seq x)
          x
  unfolding serialize_data_payload_sample_seq deserialize_data_payload_sample_seq
      layout_data_payload_sample_seq
  data_payload_sample_seq-Codec x (h1, h2) =
      Codec->> _ (base_object_request-Codec x.base h1)
        (Codec-last _ (sample_seq-Codec x.sample_seq h2))

  data_payload_packed_samples-Codec :
      (x : DataPayloadPackedSamples)
      → IsValidDataPayloadPackedSamples x
      → Codec laws.view
          (serialize_data_payload_packed_samples x)
          deserialize_data_payload_packed_samples
          (layout_data_payload_packed_samples x)
          x
  unfolding serialize_data_payload_packed_samples deserialize_data_payload_packed_samples
      layout_data_payload_packed_samples
  data_payload_packed_samples-Codec x (h1, h2) =
      Codec->> _ (base_object_request-Codec x.base h1)
        (Codec-last _ (packed_samples-Codec x.packed_samples h2))
