-- ===== src/Xrce/Control/Serialize.antt =====
-- xrce_types.c: the `uxr_serialize_` functions of the payloads of acknowledgements, heartbeats and timestamps.
use micro_xrce_dds_client.Prelude.{length}
use micro_xrce_dds_client.Xrce.Cdr.{Step, MicroCdr, ◌>>◌}
use micro_xrce_dds_client.Xrce.Basic.Serialize.{serialize_time}
use micro_xrce_dds_client.Xrce.Control.{
  AcknackPayload, HeartbeatPayload, TimestampPayload, TimestampReplyPayload, PerformancePayload,
}

module _ {B : Type 0} ⦃cdr : MicroCdr B⦄ where
  unfoldable pub serialize_acknack_payload : AcknackPayload → Step B (Unit {0})
  serialize_acknack_payload x = do
    cdr.serialize_uint16 x.first_unacked_seq_num
    cdr.serialize_array_uint8 2 x.nack_bitmap
    cdr.serialize_uint8 x.stream_id

  unfoldable pub serialize_heartbeat_payload : HeartbeatPayload → Step B (Unit {0})
  serialize_heartbeat_payload x = do
    cdr.serialize_uint16 x.first_unacked_seq_nr
    cdr.serialize_uint16 x.last_unacked_seq_nr
    cdr.serialize_uint8 x.stream_id

  unfoldable pub serialize_timestamp_payload : TimestampPayload → Step B (Unit {0})
  serialize_timestamp_payload x = serialize_time x.transmit_timestamp

  unfoldable pub serialize_timestamp_reply_payload : TimestampReplyPayload → Step B (Unit {0})
  serialize_timestamp_reply_payload x = do
    serialize_time x.transmit_timestamp
    serialize_time x.receive_timestamp
    serialize_time x.originate_timestamp

  unfoldable pub serialize_performance_payload : PerformancePayload → Step B (Unit {0})
  serialize_performance_payload x = do
    cdr.serialize_uint32 x.epoch_time_lsb
    cdr.serialize_uint32 x.epoch_time_msb
    cdr.serialize_array_uint8 (length x.buf) x.buf
