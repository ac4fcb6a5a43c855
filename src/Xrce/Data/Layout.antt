-- ===== src/Xrce/Data/Layout.antt =====
-- The items that stand for the payloads that carry samples, and the bounds that a value meets to be read back.
use micro_xrce_dds_client.Prelude.{◌++◌, List}
use micro_xrce_dds_client.Xrce.Cdr.Laws.{Item}
use micro_xrce_dds_client.Xrce.Data.{
  WriteDataPayloadData, WriteDataPayloadSample, WriteDataPayloadDataSeq, WriteDataPayloadSampleSeq,
  WriteDataPayloadPackedSamples, DataPayloadData, DataPayloadSample, DataPayloadDataSeq,
  DataPayloadSampleSeq, DataPayloadPackedSamples,
}
use micro_xrce_dds_client.Xrce.Request.Layout.{layout_base_object_request, IsValidBaseObjectRequest}
use micro_xrce_dds_client.Xrce.Sample.Layout.{
  layout_sample_data_seq, layout_sample, layout_sample_seq, layout_packed_samples,
  IsValidSampleDataSeq, IsValidSample, IsValidSampleSeq, IsValidPackedSamples,
}

unfoldable pub layout_write_data_payload_data : WriteDataPayloadData → List Item
layout_write_data_payload_data x = layout_base_object_request x.base

abbrev pub IsValidWriteDataPayloadData : WriteDataPayloadData → Type 0
IsValidWriteDataPayloadData x = IsValidBaseObjectRequest x.base

unfoldable pub layout_write_data_payload_sample : WriteDataPayloadSample → List Item
layout_write_data_payload_sample x = layout_base_object_request x.base ++ layout_sample x.sample

abbrev pub IsValidWriteDataPayloadSample : WriteDataPayloadSample → Type 0
IsValidWriteDataPayloadSample x = (IsValidBaseObjectRequest x.base) × (IsValidSample x.sample)

unfoldable pub layout_write_data_payload_data_seq : WriteDataPayloadDataSeq → List Item
layout_write_data_payload_data_seq x =
    layout_base_object_request x.base ++ layout_sample_data_seq x.data_seq

abbrev pub IsValidWriteDataPayloadDataSeq : WriteDataPayloadDataSeq → Type 0
IsValidWriteDataPayloadDataSeq x =
    (IsValidBaseObjectRequest x.base) × (IsValidSampleDataSeq x.data_seq)

unfoldable pub layout_write_data_payload_sample_seq : WriteDataPayloadSampleSeq → List Item
layout_write_data_payload_sample_seq x =
    layout_base_object_request x.base ++ layout_sample_seq x.sample_seq

abbrev pub IsValidWriteDataPayloadSampleSeq : WriteDataPayloadSampleSeq → Type 0
IsValidWriteDataPayloadSampleSeq x =
    (IsValidBaseObjectRequest x.base) × (IsValidSampleSeq x.sample_seq)

unfoldable pub layout_write_data_payload_packed_samples : WriteDataPayloadPackedSamples → List Item
layout_write_data_payload_packed_samples x =
    layout_base_object_request x.base ++ layout_packed_samples x.packed_samples

abbrev pub IsValidWriteDataPayloadPackedSamples : WriteDataPayloadPackedSamples → Type 0
IsValidWriteDataPayloadPackedSamples x =
    (IsValidBaseObjectRequest x.base) × (IsValidPackedSamples x.packed_samples)

unfoldable pub layout_data_payload_data : DataPayloadData → List Item
layout_data_payload_data x = layout_base_object_request x.base

abbrev pub IsValidDataPayloadData : DataPayloadData → Type 0
IsValidDataPayloadData x = IsValidBaseObjectRequest x.base

unfoldable pub layout_data_payload_sample : DataPayloadSample → List Item
layout_data_payload_sample x = layout_base_object_request x.base ++ layout_sample x.sample

abbrev pub IsValidDataPayloadSample : DataPayloadSample → Type 0
IsValidDataPayloadSample x = (IsValidBaseObjectRequest x.base) × (IsValidSample x.sample)

unfoldable pub layout_data_payload_data_seq : DataPayloadDataSeq → List Item
layout_data_payload_data_seq x =
    layout_base_object_request x.base ++ layout_sample_data_seq x.data_seq

abbrev pub IsValidDataPayloadDataSeq : DataPayloadDataSeq → Type 0
IsValidDataPayloadDataSeq x = (IsValidBaseObjectRequest x.base) × (IsValidSampleDataSeq x.data_seq)

unfoldable pub layout_data_payload_sample_seq : DataPayloadSampleSeq → List Item
layout_data_payload_sample_seq x =
    layout_base_object_request x.base ++ layout_sample_seq x.sample_seq

abbrev pub IsValidDataPayloadSampleSeq : DataPayloadSampleSeq → Type 0
IsValidDataPayloadSampleSeq x = (IsValidBaseObjectRequest x.base) × (IsValidSampleSeq x.sample_seq)

unfoldable pub layout_data_payload_packed_samples : DataPayloadPackedSamples → List Item
layout_data_payload_packed_samples x =
    layout_base_object_request x.base ++ layout_packed_samples x.packed_samples

abbrev pub IsValidDataPayloadPackedSamples : DataPayloadPackedSamples → Type 0
IsValidDataPayloadPackedSamples x =
    (IsValidBaseObjectRequest x.base) × (IsValidPackedSamples x.packed_samples)
