-- ===== src/Xrce/Sample.antt =====
-- xrce_types.h: read specifications, samples and their sequences.
pub mod Serialize
pub mod Deserialize
pub mod Layout
pub mod Codec
use micro_xrce_dds_client.Prelude.{ℕ, Option, List}

abbrev pub format_empty : ℕ
format_empty = 0

abbrev pub format_seqnum : ℕ
format_seqnum = 1

abbrev pub format_timestamp : ℕ
format_timestamp = 2

abbrev pub uxr_sample_data_size_max : ℕ
uxr_sample_data_size_max = 512

abbrev pub uxr_sample_data_sequence_max : ℕ
uxr_sample_data_sequence_max = 8

abbrev pub uxr_sample_sequence_max : ℕ
uxr_sample_sequence_max = 8

abbrev pub uxr_sample_delta_sequence_max : ℕ
uxr_sample_delta_sequence_max = 8

abbrev pub uxr_packed_samples_sequence_max : ℕ
uxr_packed_samples_sequence_max = 8

abbrev pub format_data : ℕ
format_data = 0

abbrev pub format_sample : ℕ
format_sample = 2

abbrev pub format_data_seq : ℕ
format_data_seq = 8

abbrev pub format_sample_seq : ℕ
format_sample_seq = 10

abbrev pub format_packed_samples : ℕ
format_packed_samples = 14

pub record DataDeliveryControl : Type 0 where
  pub max_samples : ℕ
  pub max_elapsed_time : ℕ
  pub max_bytes_per_seconds : ℕ
  pub min_pace_period : ℕ

pub record ReadSpecification : Type 0 where
  pub preferred_stream_id : ℕ
  pub data_format : ℕ
  pub content_filter_expression : Option (List ℕ)
  pub delivery_control : Option DataDeliveryControl

pub record SeqNumberAndTimestamp : Type 0 where
  pub sequence_number : ℕ
  pub session_time_offset : ℕ

pub data SampleInfoDetail : Type 0 where
  sequence_number : ℕ → SampleInfoDetail
  session_time_offset : ℕ → SampleInfoDetail
  seqnum_n_timestamp : SeqNumberAndTimestamp → SampleInfoDetail
  other : ℕ → SampleInfoDetail

pub record SampleInfo : Type 0 where
  pub state : ℕ
  pub detail : SampleInfoDetail

pub record SampleInfoDelta : Type 0 where
  pub state : ℕ
  pub seq_number_delta : ℕ
  pub timestamp_delta : ℕ

abbrev pub SampleData : Type 0
SampleData = List ℕ

abbrev pub SampleDataSeq : Type 0
SampleDataSeq = List SampleData

pub record Sample : Type 0 where
  pub info : SampleInfo
  pub octets : SampleData

abbrev pub SampleSeq : Type 0
SampleSeq = List Sample

pub record SampleDelta : Type 0 where
  pub info_delta : SampleInfoDelta
  pub octets : SampleData

abbrev pub SampleDeltaSequence : Type 0
SampleDeltaSequence = List SampleDelta

pub record PackedSamples : Type 0 where
  pub info_base : SampleInfo
  pub sample_delta_seq : SampleDeltaSequence

abbrev pub SamplePackedSeq : Type 0
SamplePackedSeq = List PackedSamples

pub data DataRepresentation : Type 0 where
  sample_data : SampleData → DataRepresentation
  sample : Sample → DataRepresentation
  data_seq : SampleDataSeq → DataRepresentation
  sample_seq : SampleSeq → DataRepresentation
  packed_samples : PackedSamples → DataRepresentation
  other : ℕ → DataRepresentation
