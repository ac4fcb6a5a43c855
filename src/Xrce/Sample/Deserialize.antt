-- ===== src/Xrce/Sample/Deserialize.antt =====
-- xrce_types.c: the `uxr_deserialize_` functions of the read specifications, samples and their sequences.
use micro_xrce_dds_client.Prelude.{if◌then◌else◌, ◌==◌}
use micro_xrce_dds_client.Xrce.Cdr.{
  Step, MicroCdr, pure, ◌>>=◌, if_ok, deserialize_sequence, deserialize_optional,
}
use micro_xrce_dds_client.Xrce.Basic.{uxr_string_size_max}
use micro_xrce_dds_client.Xrce.Sample.{
  format_empty, format_seqnum, format_timestamp, uxr_sample_data_size_max,
  uxr_sample_data_sequence_max, uxr_sample_sequence_max, uxr_sample_delta_sequence_max,
  uxr_packed_samples_sequence_max, format_data, format_sample, format_data_seq, format_sample_seq,
  format_packed_samples, DataDeliveryControl, ReadSpecification, SeqNumberAndTimestamp,
  SampleInfoDetail, SampleInfo, SampleInfoDelta, SampleData, SampleDataSeq, Sample, SampleSeq,
  SampleDelta, SampleDeltaSequence, PackedSamples, SamplePackedSeq, DataRepresentation,
}

module _ {B : Type 0} ⦃cdr : MicroCdr B⦄ where
  unfoldable pub deserialize_data_delivery_control : Step B DataDeliveryControl
  deserialize_data_delivery_control = do
    pure (record {
      max_samples = (← cdr.deserialize_uint16);
      max_elapsed_time = (← cdr.deserialize_uint16);
      max_bytes_per_seconds = (← cdr.deserialize_uint16);
      min_pace_period = (← cdr.deserialize_uint16);
    })

  unfoldable pub deserialize_read_specification : Step B ReadSpecification
  deserialize_read_specification = do
    pure (record {
      preferred_stream_id = (← cdr.deserialize_uint8);
      data_format = (← cdr.deserialize_uint8);
      content_filter_expression =
          (← deserialize_optional (cdr.deserialize_string uxr_string_size_max));
      delivery_control = (← deserialize_optional deserialize_data_delivery_control);
    })

  unfoldable pub deserialize_seq_number_and_timestamp : Step B SeqNumberAndTimestamp
  deserialize_seq_number_and_timestamp = do
    pure (record {
      sequence_number = (← cdr.deserialize_uint32);
      session_time_offset = (← cdr.deserialize_uint32);
    })

  unfoldable pub deserialize_sample_info_detail : Step B SampleInfoDetail
  deserialize_sample_info_detail = if_ok cdr.deserialize_uint32 SampleInfoDetail.other λ format.
      if format == format_empty
      then (do pure (SampleInfoDetail.sequence_number (← cdr.deserialize_uint32)))
      else if format == format_seqnum
      then (do pure (SampleInfoDetail.session_time_offset (← cdr.deserialize_uint32)))
      else if format == format_timestamp
      then (do pure (SampleInfoDetail.seqnum_n_timestamp (← deserialize_seq_number_and_timestamp)))
      else pure (SampleInfoDetail.other format)

  unfoldable pub deserialize_sample_info : Step B SampleInfo
  deserialize_sample_info = do
    pure (record { state = (← cdr.deserialize_uint8); detail = (← deserialize_sample_info_detail) })

  unfoldable pub deserialize_sample_info_delta : Step B SampleInfoDelta
  deserialize_sample_info_delta = do
    pure (record {
      state = (← cdr.deserialize_uint8);
      seq_number_delta = (← cdr.deserialize_uint8);
      timestamp_delta = (← cdr.deserialize_uint16);
    })

  unfoldable pub deserialize_sample_data : Step B SampleData
  deserialize_sample_data = cdr.deserialize_sequence_uint8 uxr_sample_data_size_max

  unfoldable pub deserialize_sample_data_seq : Step B SampleDataSeq
  deserialize_sample_data_seq =
      deserialize_sequence uxr_sample_data_sequence_max deserialize_sample_data

  unfoldable pub deserialize_sample : Step B Sample
  deserialize_sample = do
    pure (record { info = (← deserialize_sample_info); octets = (← deserialize_sample_data) })

  unfoldable pub deserialize_sample_seq : Step B SampleSeq
  deserialize_sample_seq = deserialize_sequence uxr_sample_sequence_max deserialize_sample

  unfoldable pub deserialize_sample_delta : Step B SampleDelta
  deserialize_sample_delta = do
    pure (record {
      info_delta = (← deserialize_sample_info_delta);
      octets = (← deserialize_sample_data);
    })

  unfoldable pub deserialize_sample_delta_sequence : Step B SampleDeltaSequence
  deserialize_sample_delta_sequence =
      deserialize_sequence uxr_sample_delta_sequence_max deserialize_sample_delta

  unfoldable pub deserialize_packed_samples : Step B PackedSamples
  deserialize_packed_samples = do
    pure (record {
      info_base = (← deserialize_sample_info);
      sample_delta_seq = (← deserialize_sample_delta_sequence);
    })

  unfoldable pub deserialize_sample_packed_seq : Step B SamplePackedSeq
  deserialize_sample_packed_seq =
      deserialize_sequence uxr_packed_samples_sequence_max deserialize_packed_samples

  unfoldable pub deserialize_data_representation : Step B DataRepresentation
  deserialize_data_representation = if_ok cdr.deserialize_uint8 DataRepresentation.other λ format.
      if format == format_data
      then (do pure (DataRepresentation.sample_data (← deserialize_sample_data)))
      else if format == format_sample
      then (do pure (DataRepresentation.sample (← deserialize_sample)))
      else if format == format_data_seq
      then (do pure (DataRepresentation.data_seq (← deserialize_sample_data_seq)))
      else if format == format_sample_seq
      then (do pure (DataRepresentation.sample_seq (← deserialize_sample_seq)))
      else if format == format_packed_samples
      then (do pure (DataRepresentation.packed_samples (← deserialize_packed_samples)))
      else pure (DataRepresentation.other format)
