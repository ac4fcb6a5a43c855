-- ===== src/Xrce/Control/Deserialize.antt =====
-- xrce_types.c: the `uxr_deserialize_` functions of the payloads of acknowledgements, heartbeats and timestamps.
use micro_xrce_dds_client.Prelude.{ℕ}
use micro_xrce_dds_client.Xrce.Cdr.{Step, MicroCdr, pure, ◌>>=◌}
use micro_xrce_dds_client.Xrce.Basic.Deserialize.{deserialize_time}
use micro_xrce_dds_client.Xrce.Control.{
  AcknackPayload, HeartbeatPayload, TimestampPayload, TimestampReplyPayload, PerformancePayload,
}

module _ {B : Type 0} ⦃cdr : MicroCdr B⦄ where
  unfoldable pub deserialize_acknack_payload : Step B AcknackPayload
  deserialize_acknack_payload = do
    pure (record {
      first_unacked_seq_num = (← cdr.deserialize_uint16);
      nack_bitmap = (← cdr.deserialize_array_uint8 2);
      stream_id = (← cdr.deserialize_uint8);
    })

  unfoldable pub deserialize_heartbeat_payload : Step B HeartbeatPayload
  deserialize_heartbeat_payload = do
    pure (record {
      first_unacked_seq_nr = (← cdr.deserialize_uint16);
      last_unacked_seq_nr = (← cdr.deserialize_uint16);
      stream_id = (← cdr.deserialize_uint8);
    })

  unfoldable pub deserialize_timestamp_payload : Step B TimestampPayload
  deserialize_timestamp_payload = do pure (record { transmit_timestamp = (← deserialize_time) })

  unfoldable pub deserialize_timestamp_reply_payload : Step B TimestampReplyPayload
  deserialize_timestamp_reply_payload = do
    pure (record {
      transmit_timestamp = (← deserialize_time);
      receive_timestamp = (← deserialize_time);
      originate_timestamp = (← deserialize_time);
    })

  -- The length is the one that the destination has.
  unfoldable pub deserialize_performance_payload : ℕ → Step B PerformancePayload
  deserialize_performance_payload len = do
    pure (record {
      epoch_time_lsb = (← cdr.deserialize_uint32);
      epoch_time_msb = (← cdr.deserialize_uint32);
      buf = (← cdr.deserialize_array_uint8 len);
    })
