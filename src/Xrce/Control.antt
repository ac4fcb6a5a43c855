-- ===== src/Xrce/Control.antt =====
-- xrce_types.h: payloads of acknowledgements, heartbeats and timestamps.
pub mod Serialize
pub mod Deserialize
pub mod Layout
pub mod Codec
use micro_xrce_dds_client.Prelude.{ℕ, List}
use micro_xrce_dds_client.Xrce.Basic.{Time}

pub record AcknackPayload : Type 0 where
  pub first_unacked_seq_num : ℕ
  pub nack_bitmap : List ℕ
  pub stream_id : ℕ

pub record HeartbeatPayload : Type 0 where
  pub first_unacked_seq_nr : ℕ
  pub last_unacked_seq_nr : ℕ
  pub stream_id : ℕ

pub record TimestampPayload : Type 0 where
  pub transmit_timestamp : Time

pub record TimestampReplyPayload : Type 0 where
  pub transmit_timestamp : Time
  pub receive_timestamp : Time
  pub originate_timestamp : Time

-- Built for performance tests. `buf` has `len` octets; the length is not sent.
pub record PerformancePayload : Type 0 where
  pub epoch_time_lsb : ℕ
  pub epoch_time_msb : ℕ
  pub buf : List ℕ
