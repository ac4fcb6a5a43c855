-- ===== src/Xrce/Sample/Layout.antt =====
-- The items that stand for the read specifications, samples and their sequences, and the bounds that a value meets to be read back.
use micro_xrce_dds_client.Prelude.{◌≡◌, ◌++◌, ◌∷◌, [], false, List, All, length, ◌==◌, ◌≤◌, ◌<◌}
use micro_xrce_dds_client.Xrce.Cdr.Laws.{Item, Holds, layout_optional, layout_sequence}
use micro_xrce_dds_client.Xrce.Basic.{uxr_string_size_max}
use micro_xrce_dds_client.Xrce.Sample.{
  format_empty, format_seqnum, format_timestamp, uxr_sample_data_size_max,
  uxr_sample_data_sequence_max, uxr_sample_sequence_max, uxr_sample_delta_sequence_max,
  uxr_packed_samples_sequence_max, format_data, format_sample, format_data_seq, format_sample_seq,
  format_packed_samples, DataDeliveryControl, ReadSpecification, SeqNumberAndTimestamp,
  SampleInfoDetail, SampleInfo, SampleInfoDelta, SampleData, SampleDataSeq, Sample, SampleSeq,
  SampleDelta, SampleDeltaSequence, PackedSamples, SamplePackedSeq, DataRepresentation,
}

unfoldable pub layout_data_delivery_control : DataDeliveryControl → List Item
layout_data_delivery_control x =
    Item.uint16 x.max_samples
    ∷ Item.uint16 x.max_elapsed_time
    ∷ Item.uint16 x.max_bytes_per_seconds
    ∷ Item.uint16 x.min_pace_period
    ∷ []

unfoldable pub layout_read_specification : ReadSpecification → List Item
layout_read_specification x =
    Item.uint8 x.preferred_stream_id
      ∷ Item.uint8 x.data_format
      ∷ layout_optional (λ y. Item.string y ∷ []) x.content_filter_expression
    ++ layout_optional layout_data_delivery_control x.delivery_control

abbrev pub IsValidReadSpecification : ReadSpecification → Type 0
IsValidReadSpecification x = Holds (λ y. length y < uxr_string_size_max) x.content_filter_expression

unfoldable pub layout_seq_number_and_timestamp : SeqNumberAndTimestamp → List Item
layout_seq_number_and_timestamp x =
    Item.uint32 x.sequence_number ∷ Item.uint32 x.session_time_offset ∷ []

unfoldable pub layout_sample_info_detail : SampleInfoDetail → List Item
layout_sample_info_detail (SampleInfoDetail.sequence_number x) =
    Item.uint32 format_empty ∷ Item.uint32 x ∷ []
layout_sample_info_detail (SampleInfoDetail.session_time_offset x) =
    Item.uint32 format_seqnum ∷ Item.uint32 x ∷ []
layout_sample_info_detail (SampleInfoDetail.seqnum_n_timestamp x) =
    Item.uint32 format_timestamp ∷ layout_seq_number_and_timestamp x
layout_sample_info_detail (SampleInfoDetail.other format) = Item.uint32 format ∷ []

abbrev pub IsValidSampleInfoDetail : SampleInfoDetail → Type 0
IsValidSampleInfoDetail (SampleInfoDetail.sequence_number x) = Unit {0}
IsValidSampleInfoDetail (SampleInfoDetail.session_time_offset x) = Unit {0}
IsValidSampleInfoDetail (SampleInfoDetail.seqnum_n_timestamp x) = Unit {0}
IsValidSampleInfoDetail (SampleInfoDetail.other format) =
    (format == format_empty ≡ false)
    × (format == format_seqnum ≡ false)
    × (format == format_timestamp ≡ false)

unfoldable pub layout_sample_info : SampleInfo → List Item
layout_sample_info x = Item.uint8 x.state ∷ layout_sample_info_detail x.detail

abbrev pub IsValidSampleInfo : SampleInfo → Type 0
IsValidSampleInfo x = IsValidSampleInfoDetail x.detail

unfoldable pub layout_sample_info_delta : SampleInfoDelta → List Item
layout_sample_info_delta x =
    Item.uint8 x.state ∷ Item.uint8 x.seq_number_delta ∷ Item.uint16 x.timestamp_delta ∷ []

unfoldable pub layout_sample_data : SampleData → List Item
layout_sample_data x = Item.sequence x ∷ []

abbrev pub IsValidSampleData : SampleData → Type 0
IsValidSampleData x = length x ≤ uxr_sample_data_size_max

unfoldable pub layout_sample_data_seq : SampleDataSeq → List Item
layout_sample_data_seq x = layout_sequence layout_sample_data x

abbrev pub IsValidSampleDataSeq : SampleDataSeq → Type 0
IsValidSampleDataSeq x = (length x ≤ uxr_sample_data_sequence_max) × All IsValidSampleData x

unfoldable pub layout_sample : Sample → List Item
layout_sample x = layout_sample_info x.info ++ layout_sample_data x.octets

abbrev pub IsValidSample : Sample → Type 0
IsValidSample x = (IsValidSampleInfo x.info) × (IsValidSampleData x.octets)

unfoldable pub layout_sample_seq : SampleSeq → List Item
layout_sample_seq x = layout_sequence layout_sample x

abbrev pub IsValidSampleSeq : SampleSeq → Type 0
IsValidSampleSeq x = (length x ≤ uxr_sample_sequence_max) × All IsValidSample x

unfoldable pub layout_sample_delta : SampleDelta → List Item
layout_sample_delta x = layout_sample_info_delta x.info_delta ++ layout_sample_data x.octets

abbrev pub IsValidSampleDelta : SampleDelta → Type 0
IsValidSampleDelta x = IsValidSampleData x.octets

unfoldable pub layout_sample_delta_sequence : SampleDeltaSequence → List Item
layout_sample_delta_sequence x = layout_sequence layout_sample_delta x

abbrev pub IsValidSampleDeltaSequence : SampleDeltaSequence → Type 0
IsValidSampleDeltaSequence x = (length x ≤ uxr_sample_delta_sequence_max) × All IsValidSampleDelta x

unfoldable pub layout_packed_samples : PackedSamples → List Item
layout_packed_samples x =
    layout_sample_info x.info_base ++ layout_sample_delta_sequence x.sample_delta_seq

abbrev pub IsValidPackedSamples : PackedSamples → Type 0
IsValidPackedSamples x =
    (IsValidSampleInfo x.info_base) × (IsValidSampleDeltaSequence x.sample_delta_seq)

unfoldable pub layout_sample_packed_seq : SamplePackedSeq → List Item
layout_sample_packed_seq x = layout_sequence layout_packed_samples x

abbrev pub IsValidSamplePackedSeq : SamplePackedSeq → Type 0
IsValidSamplePackedSeq x = (length x ≤ uxr_packed_samples_sequence_max) × All IsValidPackedSamples x

unfoldable pub layout_data_representation : DataRepresentation → List Item
layout_data_representation (DataRepresentation.sample_data x) =
    Item.uint8 format_data ∷ layout_sample_data x
layout_data_representation (DataRepresentation.sample x) =
    Item.uint8 format_sample ∷ layout_sample x
layout_data_representation (DataRepresentation.data_seq x) =
    Item.uint8 format_data_seq ∷ layout_sample_data_seq x
layout_data_representation (DataRepresentation.sample_seq x) =
    Item.uint8 format_sample_seq ∷ layout_sample_seq x
layout_data_representation (DataRepresentation.packed_samples x) =
    Item.uint8 format_packed_samples ∷ layout_packed_samples x
layout_data_representation (DataRepresentation.other format) = Item.uint8 format ∷ []

abbrev pub IsValidDataRepresentation : DataRepresentation → Type 0
IsValidDataRepresentation (DataRepresentation.sample_data x) = IsValidSampleData x
IsValidDataRepresentation (DataRepresentation.sample x) = IsValidSample x
IsValidDataRepresentation (DataRepresentation.data_seq x) = IsValidSampleDataSeq x
IsValidDataRepresentation (DataRepresentation.sample_seq x) = IsValidSampleSeq x
IsValidDataRepresentation (DataRepresentation.packed_samples x) = IsValidPackedSamples x
IsValidDataRepresentation (DataRepresentation.other format) =
    (format == format_data ≡ false)
    × (format == format_sample ≡ false)
    × (format == format_data_seq ≡ false)
    × (format == format_sample_seq ≡ false)
    × (format == format_packed_samples ≡ false)
