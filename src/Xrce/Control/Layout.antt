-- ===== src/Xrce/Control/Layout.antt =====
-- The items that stand for the payloads of acknowledgements, heartbeats and timestamps, and the bounds that a value meets to be read back.
use micro_xrce_dds_client.Prelude.{◌≡◌, ◌++◌, ◌∷◌, [], List, length}
use micro_xrce_dds_client.Xrce.Cdr.Laws.{Item}
use micro_xrce_dds_client.Xrce.Basic.Layout.{layout_time}
use micro_xrce_dds_client.Xrce.Control.{
  AcknackPayload, HeartbeatPayload, TimestampPayload, TimestampReplyPayload, PerformancePayload,
}

unfoldable pub layout_acknack_payload : AcknackPayload → List Item
layout_acknack_payload x =
    Item.uint16 x.first_unacked_seq_num ∷ Item.array x.nack_bitmap ∷ Item.uint8 x.stream_id ∷ []

abbrev pub IsValidAcknackPayload : AcknackPayload → Type 0
IsValidAcknackPayload x = length x.nack_bitmap ≡ 2

unfoldable pub layout_heartbeat_payload : HeartbeatPayload → List Item
layout_heartbeat_payload x =
    Item.uint16 x.first_unacked_seq_nr
    ∷ Item.uint16 x.last_unacked_seq_nr
    ∷ Item.uint8 x.stream_id
    ∷ []

unfoldable pub layout_timestamp_payload : TimestampPayload → List Item
layout_timestamp_payload x = layout_time x.transmit_timestamp

unfoldable pub layout_timestamp_reply_payload : TimestampReplyPayload → List Item
layout_timestamp_reply_payload x =
    layout_time x.transmit_timestamp
    ++ (layout_time x.receive_timestamp ++ layout_time x.originate_timestamp)

unfoldable pub layout_performance_payload : PerformancePayload → List Item
layout_performance_payload x =
    Item.uint32 x.epoch_time_lsb ∷ Item.uint32 x.epoch_time_msb ∷ Item.array x.buf ∷ []
