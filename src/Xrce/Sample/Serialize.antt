-- ===== src/Xrce/Sample/Serialize.antt =====
-- xrce_types.c: the `uxr_serialize_` functions of the read specifications, samples and their sequences.
use micro_xrce_dds_client.Xrce.Cdr.{
  Step, MicroCdr, pure, ◌>>◌, when_ok, serialize_sequence, serialize_optional,
}
use micro_xrce_dds_client.Xrce.Sample.{
  format_empty, format_seqnum, format_timestamp, format_data, format_sample, format_data_seq,
  format_sample_seq, format_packed_samples, DataDeliveryControl, ReadSpecification,
  SeqNumberAndTimestamp, SampleInfoDetail, SampleInfo, SampleInfoDelta, SampleData, SampleDataSeq,
  Sample, SampleSeq, SampleDelta, SampleDeltaSequence, PackedSamples, SamplePackedSeq,
  DataRepresentation,
}

module _ {B : Type 0} ⦃cdr : MicroCdr B⦄ where
  unfoldable pub serialize_data_delivery_control : DataDeliveryControl → Step B (Unit {0})
  serialize_data_delivery_control x = do
    cdr.serialize_uint16 x.max_samples
    cdr.serialize_uint16 x.max_elapsed_time
    cdr.serialize_uint16 x.max_bytes_per_seconds
    cdr.serialize_uint16 x.min_pace_period

  unfoldable pub serialize_read_specification : ReadSpecification → Step B (Unit {0})
  serialize_read_specification x = do
    cdr.serialize_uint8 x.preferred_stream_id
    cdr.serialize_uint8 x.data_format
    serialize_optional cdr.serialize_string x.content_filter_expression
    serialize_optional serialize_data_delivery_control x.delivery_control

  unfoldable pub serialize_seq_number_and_timestamp : SeqNumberAndTimestamp → Step B (Unit {0})
  serialize_seq_number_and_timestamp x = do
    cdr.serialize_uint32 x.sequence_number
    cdr.serialize_uint32 x.session_time_offset

  unfoldable pub serialize_sample_info_detail : SampleInfoDetail → Step B (Unit {0})
  serialize_sample_info_detail (SampleInfoDetail.sequence_number x) =
      when_ok (cdr.serialize_uint32 format_empty) (cdr.serialize_uint32 x)
  serialize_sample_info_detail (SampleInfoDetail.session_time_offset x) =
      when_ok (cdr.serialize_uint32 format_seqnum) (cdr.serialize_uint32 x)
  serialize_sample_info_detail (SampleInfoDetail.seqnum_n_timestamp x) =
      when_ok (cdr.serialize_uint32 format_timestamp) (serialize_seq_number_and_timestamp x)
  serialize_sample_info_detail (SampleInfoDetail.other format) =
      when_ok (cdr.serialize_uint32 format) (pure tt)

  unfoldable pub serialize_sample_info : SampleInfo → Step B (Unit {0})
  serialize_sample_info x = do cdr.serialize_uint8 x.state; serialize_sample_info_detail x.detail

  unfoldable pub serialize_sample_info_delta : SampleInfoDelta → Step B (Unit {0})
  serialize_sample_info_delta x = do
    cdr.serialize_uint8 x.state
    cdr.serialize_uint8 x.seq_number_delta
    cdr.serialize_uint16 x.timestamp_delta

  unfoldable pub serialize_sample_data : SampleData → Step B (Unit {0})
  serialize_sample_data x = cdr.serialize_sequence_uint8 x

  unfoldable pub serialize_sample_data_seq : SampleDataSeq → Step B (Unit {0})
  serialize_sample_data_seq x = serialize_sequence serialize_sample_data x

  unfoldable pub serialize_sample : Sample → Step B (Unit {0})
  serialize_sample x = do serialize_sample_info x.info; serialize_sample_data x.octets

  unfoldable pub serialize_sample_seq : SampleSeq → Step B (Unit {0})
  serialize_sample_seq x = serialize_sequence serialize_sample x

  unfoldable pub serialize_sample_delta : SampleDelta → Step B (Unit {0})
  serialize_sample_delta x = do
    serialize_sample_info_delta x.info_delta
    serialize_sample_data x.octets

  unfoldable pub serialize_sample_delta_sequence : SampleDeltaSequence → Step B (Unit {0})
  serialize_sample_delta_sequence x = serialize_sequence serialize_sample_delta x

  unfoldable pub serialize_packed_samples : PackedSamples → Step B (Unit {0})
  serialize_packed_samples x = do
    serialize_sample_info x.info_base
    serialize_sample_delta_sequence x.sample_delta_seq

  unfoldable pub serialize_sample_packed_seq : SamplePackedSeq → Step B (Unit {0})
  serialize_sample_packed_seq x = serialize_sequence serialize_packed_samples x

  unfoldable pub serialize_data_representation : DataRepresentation → Step B (Unit {0})
  serialize_data_representation (DataRepresentation.sample_data x) =
      when_ok (cdr.serialize_uint8 format_data) (serialize_sample_data x)
  serialize_data_representation (DataRepresentation.sample x) =
      when_ok (cdr.serialize_uint8 format_sample) (serialize_sample x)
  serialize_data_representation (DataRepresentation.data_seq x) =
      when_ok (cdr.serialize_uint8 format_data_seq) (serialize_sample_data_seq x)
  serialize_data_representation (DataRepresentation.sample_seq x) =
      when_ok (cdr.serialize_uint8 format_sample_seq) (serialize_sample_seq x)
  serialize_data_representation (DataRepresentation.packed_samples x) =
      when_ok (cdr.serialize_uint8 format_packed_samples) (serialize_packed_samples x)
  serialize_data_representation (DataRepresentation.other format) =
      when_ok (cdr.serialize_uint8 format) (pure tt)
