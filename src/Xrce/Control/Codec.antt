-- ===== src/Xrce/Control/Codec.antt =====
-- What is written for one of the payloads of acknowledgements, heartbeats and timestamps is its items, and these are read back as the value.
use micro_xrce_dds_client.Prelude.{refl, length}
use micro_xrce_dds_client.Xrce.Cdr.{MicroCdr}
use micro_xrce_dds_client.Xrce.Cdr.Laws.{Laws, Codec}
use micro_xrce_dds_client.Xrce.Cdr.Rules.{Codec->>, Codec-last}
use micro_xrce_dds_client.Xrce.Basic.Codec.{time-Codec}
use micro_xrce_dds_client.Xrce.Control.{
  AcknackPayload, HeartbeatPayload, TimestampPayload, TimestampReplyPayload, PerformancePayload,
}
use micro_xrce_dds_client.Xrce.Control.Deserialize.{
  deserialize_acknack_payload, deserialize_heartbeat_payload, deserialize_timestamp_payload,
  deserialize_timestamp_reply_payload, deserialize_performance_payload,
}
use micro_xrce_dds_client.Xrce.Control.Layout.{
  layout_acknack_payload, layout_heartbeat_payload, layout_timestamp_payload,
  layout_timestamp_reply_payload, IsValidAcknackPayload, layout_performance_payload,
}
use micro_xrce_dds_client.Xrce.Control.Serialize.{
  serialize_acknack_payload, serialize_heartbeat_payload, serialize_timestamp_payload,
  serialize_timestamp_reply_payload, serialize_performance_payload,
}

module _ {B : Type 0} ⦃cdr : MicroCdr B⦄ ⦃laws : Laws cdr⦄ where
  acknack_payload-Codec :
      (x : AcknackPayload)
      → IsValidAcknackPayload x
      → Codec laws.view
          (serialize_acknack_payload x)
          deserialize_acknack_payload
          (layout_acknack_payload x)
          x
  unfolding serialize_acknack_payload deserialize_acknack_payload layout_acknack_payload
  acknack_payload-Codec x h1 = Codec->> _ (laws.codec_uint16 x.first_unacked_seq_num) (
      Codec->> _ (laws.codec_array 2 x.nack_bitmap h1)
        (Codec-last _ (laws.codec_uint8 x.stream_id)))

  heartbeat_payload-Codec :
      (x : HeartbeatPayload)
      → Codec laws.view
          (serialize_heartbeat_payload x)
          deserialize_heartbeat_payload
          (layout_heartbeat_payload x)
          x
  unfolding serialize_heartbeat_payload deserialize_heartbeat_payload layout_heartbeat_payload
  heartbeat_payload-Codec x = Codec->> _ (laws.codec_uint16 x.first_unacked_seq_nr) (
      Codec->> _ (laws.codec_uint16 x.last_unacked_seq_nr)
        (Codec-last _ (laws.codec_uint8 x.stream_id)))

  timestamp_payload-Codec :
      (x : TimestampPayload)
      → Codec laws.view
          (serialize_timestamp_payload x)
          deserialize_timestamp_payload
          (layout_timestamp_payload x)
          x
  unfolding serialize_timestamp_payload deserialize_timestamp_payload layout_timestamp_payload
  timestamp_payload-Codec x = Codec-last _ (time-Codec x.transmit_timestamp)

  timestamp_reply_payload-Codec :
      (x : TimestampReplyPayload)
      → Codec laws.view
          (serialize_timestamp_reply_payload x)
          deserialize_timestamp_reply_payload
          (layout_timestamp_reply_payload x)
          x
  unfolding serialize_timestamp_reply_payload deserialize_timestamp_reply_payload
      layout_timestamp_reply_payload
  timestamp_reply_payload-Codec x = Codec->> _ (time-Codec x.transmit_timestamp) (
      Codec->> _ (time-Codec x.receive_timestamp) (Codec-last _ (time-Codec x.originate_timestamp)))

  performance_payload-Codec :
      (x : PerformancePayload)
      → Codec laws.view
          (serialize_performance_payload x)
          (deserialize_performance_payload (length x.buf))
          (layout_performance_payload x)
          x
  unfolding serialize_performance_payload deserialize_performance_payload layout_performance_payload
  performance_payload-Codec x = Codec->> _ (laws.codec_uint32 x.epoch_time_lsb) (
      Codec->> _ (laws.codec_uint32 x.epoch_time_msb)
        (Codec-last _ (laws.codec_array (length x.buf) x.buf refl)))
