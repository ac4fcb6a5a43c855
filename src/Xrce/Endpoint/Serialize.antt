-- ===== src/Xrce/Endpoint/Serialize.antt =====
-- xrce_types.c: the `uxr_serialize_` functions of the binary representations of endpoints.
use micro_xrce_dds_client.Xrce.Cdr.{Step, MicroCdr, ◌>>◌, serialize_optional}
use micro_xrce_dds_client.Xrce.Basic.Serialize.{serialize_binary_sequence, serialize_object_id}
use micro_xrce_dds_client.Xrce.Endpoint.{
  ObjkEndpointQosBinary, ObjkDataWriterBinaryQos, ObjkDataReaderBinaryQos, ObjkDataReaderBinary,
  ObjkDataWriterBinary, ObjkRequesterBinary, ObjkReplierBinary,
}

module _ {B : Type 0} ⦃cdr : MicroCdr B⦄ where
  unfoldable pub serialize_objk_endpoint_qos_binary : ObjkEndpointQosBinary → Step B (Unit {0})
  serialize_objk_endpoint_qos_binary x = do
    cdr.serialize_uint16 x.qos_flags
    serialize_optional cdr.serialize_uint16 x.history_depth
    serialize_optional cdr.serialize_uint32 x.deadline_msec
    serialize_optional cdr.serialize_uint32 x.lifespan_msec
    serialize_optional serialize_binary_sequence x.user_data

  unfoldable pub serialize_objk_data_writer_binary_qos : ObjkDataWriterBinaryQos → Step B (Unit {0})
  serialize_objk_data_writer_binary_qos x = do
    serialize_objk_endpoint_qos_binary x.base
    serialize_optional cdr.serialize_uint64 x.ownership_strength

  unfoldable pub serialize_objk_data_reader_binary_qos : ObjkDataReaderBinaryQos → Step B (Unit {0})
  serialize_objk_data_reader_binary_qos x = do
    serialize_objk_endpoint_qos_binary x.base
    serialize_optional cdr.serialize_uint64 x.timebasedfilter_msec
    serialize_optional cdr.serialize_string x.contentbased_filter

  unfoldable pub serialize_objk_data_reader_binary : ObjkDataReaderBinary → Step B (Unit {0})
  serialize_objk_data_reader_binary x = do
    serialize_object_id x.topic_id
    serialize_optional serialize_objk_data_reader_binary_qos x.qos

  unfoldable pub serialize_objk_data_writer_binary : ObjkDataWriterBinary → Step B (Unit {0})
  serialize_objk_data_writer_binary x = do
    serialize_object_id x.topic_id
    serialize_optional serialize_objk_data_writer_binary_qos x.qos

  unfoldable pub serialize_objk_requester_binary : ObjkRequesterBinary → Step B (Unit {0})
  serialize_objk_requester_binary x = do
    cdr.serialize_string x.service_name
    cdr.serialize_string x.request_type
    cdr.serialize_string x.reply_type
    serialize_optional cdr.serialize_string x.request_topic_name
    serialize_optional cdr.serialize_string x.reply_topic_name

  unfoldable pub serialize_objk_replier_binary : ObjkReplierBinary → Step B (Unit {0})
  serialize_objk_replier_binary x = do
    cdr.serialize_string x.service_name
    cdr.serialize_string x.request_type
    cdr.serialize_string x.reply_type
    serialize_optional cdr.serialize_string x.request_topic_name
    serialize_optional cdr.serialize_string x.reply_topic_name
