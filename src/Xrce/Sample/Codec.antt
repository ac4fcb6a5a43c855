-- ===== src/Xrce/Sample/Codec.antt =====
-- What is written for one of the read specifications, samples and their sequences is its items, and these are read back as the value.
use micro_xrce_dds_client.Prelude.{◌∷◌, []}
use micro_xrce_dds_client.Xrce.Cdr.{MicroCdr}
use micro_xrce_dds_client.Xrce.Cdr.Laws.{Item, Laws, Codec, Holds-trivial}
use micro_xrce_dds_client.Xrce.Cdr.Rules.{
  Codec-pure, Codec->>, Codec-last, Codec-case, Codec-else, optional-Codec, sequence-Codec,
}
use micro_xrce_dds_client.Xrce.Basic.{uxr_string_size_max}
use micro_xrce_dds_client.Xrce.Sample.{
  uxr_sample_data_size_max, DataDeliveryControl, ReadSpecification, SeqNumberAndTimestamp,
  SampleInfoDetail, SampleInfo, SampleInfoDelta, SampleData, SampleDataSeq, Sample, SampleSeq,
  SampleDelta, SampleDeltaSequence, PackedSamples, SamplePackedSeq, DataRepresentation,
}
use micro_xrce_dds_client.Xrce.Sample.Deserialize.{
  deserialize_data_delivery_control, deserialize_read_specification,
  deserialize_seq_number_and_timestamp, deserialize_sample_info_detail, deserialize_sample_info,
  deserialize_sample_info_delta, deserialize_sample_data, deserialize_sample_data_seq,
  deserialize_sample, deserialize_sample_seq, deserialize_sample_delta,
  deserialize_sample_delta_sequence, deserialize_packed_samples, deserialize_sample_packed_seq,
  deserialize_data_representation,
}
use micro_xrce_dds_client.Xrce.Sample.Layout.{
  layout_data_delivery_control, layout_read_specification, layout_seq_number_and_timestamp,
  layout_sample_info_detail, layout_sample_info, layout_sample_info_delta, layout_sample_data,
  layout_sample_data_seq, layout_sample, layout_sample_seq, layout_sample_delta,
  layout_sample_delta_sequence, layout_packed_samples, layout_sample_packed_seq,
  layout_data_representation, IsValidReadSpecification, IsValidSampleInfoDetail, IsValidSampleInfo,
  IsValidSampleData, IsValidSampleDataSeq, IsValidSample, IsValidSampleSeq, IsValidSampleDelta,
  IsValidSampleDeltaSequence, IsValidPackedSamples, IsValidSamplePackedSeq,
  IsValidDataRepresentation,
}
use micro_xrce_dds_client.Xrce.Sample.Serialize.{
  serialize_data_delivery_control, serialize_read_specification, serialize_seq_number_and_timestamp,
  serialize_sample_info_detail, serialize_sample_info, serialize_sample_info_delta,
  serialize_sample_data, serialize_sample_data_seq, serialize_sample, serialize_sample_seq,
  serialize_sample_delta, serialize_sample_delta_sequence, serialize_packed_samples,
  serialize_sample_packed_seq, serialize_data_representation,
}

module _ {B : Type 0} ⦃cdr : MicroCdr B⦄ ⦃laws : Laws cdr⦄ where
  data_delivery_control-Codec :
      (x : DataDeliveryControl)
      → Codec laws.view
          (serialize_data_delivery_control x)
          deserialize_data_delivery_control
          (layout_data_delivery_control x)
          x
  unfolding serialize_data_delivery_control deserialize_data_delivery_control
      layout_data_delivery_control
  data_delivery_control-Codec x = Codec->> _ (laws.codec_uint16 x.max_samples) (
      Codec->> _ (laws.codec_uint16 x.max_elapsed_time) (
        Codec->> _ (laws.codec_uint16 x.max_bytes_per_seconds)
          (Codec-last _ (laws.codec_uint16 x.min_pace_period))))

  pub read_specification-Codec :
      (x : ReadSpecification)
      → IsValidReadSpecification x
      → Codec laws.view
          (serialize_read_specification x)
          deserialize_read_specification
          (layout_read_specification x)
          x
  unfolding serialize_read_specification deserialize_read_specification layout_read_specification
  read_specification-Codec x h1 = Codec->> _ (laws.codec_uint8 x.preferred_stream_id) (
      Codec->> _ (laws.codec_uint8 x.data_format) (
        Codec->> _
          (optional-Codec cdr.serialize_string (cdr.deserialize_string uxr_string_size_max)
            (λ y. Item.string y ∷ []) x.content_filter_expression h1
            (λ a h. laws.codec_string uxr_string_size_max a h))
          (Codec-last _ (
            optional-Codec serialize_data_delivery_control deserialize_data_delivery_control
              layout_data_delivery_control x.delivery_control (Holds-trivial x.delivery_control)
              (λ a h. data_delivery_control-Codec a)))))

  seq_number_and_timestamp-Codec :
      (x : SeqNumberAndTimestamp)
      → Codec laws.view
          (serialize_seq_number_and_timestamp x)
          deserialize_seq_number_and_timestamp
          (layout_seq_number_and_timestamp x)
          x
  unfolding serialize_seq_number_and_timestamp deserialize_seq_number_and_timestamp
      layout_seq_number_and_timestamp
  seq_number_and_timestamp-Codec x =
      Codec->> _ (laws.codec_uint32 x.sequence_number)
        (Codec-last _ (laws.codec_uint32 x.session_time_offset))

  sample_info_detail-Codec :
      (x : SampleInfoDetail)
      → IsValidSampleInfoDetail x
      → Codec laws.view
          (serialize_sample_info_detail x)
          deserialize_sample_info_detail
          (layout_sample_info_detail x)
          x
  unfolding serialize_sample_info_detail deserialize_sample_info_detail layout_sample_info_detail
  sample_info_detail-Codec (SampleInfoDetail.sequence_number x) h =
      Codec-case _ _ (laws.codec_uint32 _) (Codec-last _ (laws.codec_uint32 x))
  sample_info_detail-Codec (SampleInfoDetail.session_time_offset x) h =
      Codec-case _ _ (laws.codec_uint32 _) (Codec-last _ (laws.codec_uint32 x))
  sample_info_detail-Codec (SampleInfoDetail.seqnum_n_timestamp x) h =
      Codec-case _ _ (laws.codec_uint32 _) (Codec-last _ (seq_number_and_timestamp-Codec x))
  sample_info_detail-Codec (SampleInfoDetail.other x) (h1, h2, h3) =
      Codec-case _ _ (laws.codec_uint32 x)
        (Codec-else _ _ h1 (Codec-else _ _ h2 (Codec-else _ _ h3 Codec-pure)))

  sample_info-Codec :
      (x : SampleInfo)
      → IsValidSampleInfo x
      → Codec laws.view (serialize_sample_info x) deserialize_sample_info (layout_sample_info x) x
  unfolding serialize_sample_info deserialize_sample_info layout_sample_info
  sample_info-Codec x h1 =
      Codec->> _ (laws.codec_uint8 x.state) (Codec-last _ (sample_info_detail-Codec x.detail h1))

  sample_info_delta-Codec :
      (x : SampleInfoDelta)
      → Codec laws.view
          (serialize_sample_info_delta x)
          deserialize_sample_info_delta
          (layout_sample_info_delta x)
          x
  unfolding serialize_sample_info_delta deserialize_sample_info_delta layout_sample_info_delta
  sample_info_delta-Codec x = Codec->> _ (laws.codec_uint8 x.state) (
      Codec->> _ (laws.codec_uint8 x.seq_number_delta)
        (Codec-last _ (laws.codec_uint16 x.timestamp_delta)))

  sample_data-Codec :
      (x : SampleData)
      → IsValidSampleData x
      → Codec laws.view (serialize_sample_data x) deserialize_sample_data (layout_sample_data x) x
  unfolding serialize_sample_data deserialize_sample_data layout_sample_data
  sample_data-Codec x h = laws.codec_sequence uxr_sample_data_size_max x h

  pub sample_data_seq-Codec :
      (x : SampleDataSeq)
      → IsValidSampleDataSeq x
      → Codec laws.view
          (serialize_sample_data_seq x)
          deserialize_sample_data_seq
          (layout_sample_data_seq x)
          x
  unfolding serialize_sample_data_seq deserialize_sample_data_seq layout_sample_data_seq
  sample_data_seq-Codec x (h, all) = sequence-Codec _ _ _ _ x h all (λ a h1. sample_data-Codec a h1)

  pub sample-Codec :
      (x : Sample)
      → IsValidSample x
      → Codec laws.view (serialize_sample x) deserialize_sample (layout_sample x) x
  unfolding serialize_sample deserialize_sample layout_sample
  sample-Codec x (h1, h2) =
      Codec->> _ (sample_info-Codec x.info h1) (Codec-last _ (sample_data-Codec x.octets h2))

  pub sample_seq-Codec :
      (x : SampleSeq)
      → IsValidSampleSeq x
      → Codec laws.view (serialize_sample_seq x) deserialize_sample_seq (layout_sample_seq x) x
  unfolding serialize_sample_seq deserialize_sample_seq layout_sample_seq
  sample_seq-Codec x (h, all) = sequence-Codec _ _ _ _ x h all (λ a h1. sample-Codec a h1)

  sample_delta-Codec :
      (x : SampleDelta)
      → IsValidSampleDelta x
      → Codec laws.view
          (serialize_sample_delta x)
          deserialize_sample_delta
          (layout_sample_delta x)
          x
  unfolding serialize_sample_delta deserialize_sample_delta layout_sample_delta
  sample_delta-Codec x h1 =
      Codec->> _ (sample_info_delta-Codec x.info_delta)
        (Codec-last _ (sample_data-Codec x.octets h1))

  sample_delta_sequence-Codec :
      (x : SampleDeltaSequence)
      → IsValidSampleDeltaSequence x
      → Codec laws.view
          (serialize_sample_delta_sequence x)
          deserialize_sample_delta_sequence
          (layout_sample_delta_sequence x)
          x
  unfolding serialize_sample_delta_sequence deserialize_sample_delta_sequence
      layout_sample_delta_sequence
  sample_delta_sequence-Codec x (h, all) =
      sequence-Codec _ _ _ _ x h all (λ a h1. sample_delta-Codec a h1)

  pub packed_samples-Codec :
      (x : PackedSamples)
      → IsValidPackedSamples x
      → Codec laws.view
          (serialize_packed_samples x)
          deserialize_packed_samples
          (layout_packed_samples x)
          x
  unfolding serialize_packed_samples deserialize_packed_samples layout_packed_samples
  packed_samples-Codec x (h1, h2) =
      Codec->> _ (sample_info-Codec x.info_base h1)
        (Codec-last _ (sample_delta_sequence-Codec x.sample_delta_seq h2))

  sample_packed_seq-Codec :
      (x : SamplePackedSeq)
      → IsValidSamplePackedSeq x
      → Codec laws.view
          (serialize_sample_packed_seq x)
          deserialize_sample_packed_seq
          (layout_sample_packed_seq x)
          x
  unfolding serialize_sample_packed_seq deserialize_sample_packed_seq layout_sample_packed_seq
  sample_packed_seq-Codec x (h, all) =
      sequence-Codec _ _ _ _ x h all (λ a h1. packed_samples-Codec a h1)

  data_representation-Codec :
      (x : DataRepresentation)
      → IsValidDataRepresentation x
      → Codec laws.view
          (serialize_data_representation x)
          deserialize_data_representation
          (layout_data_representation x)
          x
  unfolding serialize_data_representation deserialize_data_representation layout_data_representation
  data_representation-Codec (DataRepresentation.sample_data x) h =
      Codec-case _ _ (laws.codec_uint8 _) (Codec-last _ (sample_data-Codec x h))
  data_representation-Codec (DataRepresentation.sample x) h =
      Codec-case _ _ (laws.codec_uint8 _) (Codec-last _ (sample-Codec x h))
  data_representation-Codec (DataRepresentation.data_seq x) h =
      Codec-case _ _ (laws.codec_uint8 _) (Codec-last _ (sample_data_seq-Codec x h))
  data_representation-Codec (DataRepresentation.sample_seq x) h =
      Codec-case _ _ (laws.codec_uint8 _) (Codec-last _ (sample_seq-Codec x h))
  data_representation-Codec (DataRepresentation.packed_samples x) h =
      Codec-case _ _ (laws.codec_uint8 _) (Codec-last _ (packed_samples-Codec x h))
  data_representation-Codec (DataRepresentation.other x) (h1, h2, h3, h4, h5) =
      Codec-case _ _ (laws.codec_uint8 x) (
        Codec-else _ _ h1 (
          Codec-else _ _ h2 (Codec-else _ _ h3 (Codec-else _ _ h4 (Codec-else _ _ h5 Codec-pure)))))
