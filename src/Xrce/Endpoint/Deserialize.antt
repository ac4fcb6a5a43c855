-- ===== src/Xrce/Endpoint/Deserialize.antt =====
-- xrce_types.c: the `uxr_deserialize_` functions of the binary representations of endpoints.
use micro_xrce_dds_client.Xrce.Cdr.{Step, MicroCdr, pure, ◌>>=◌, deserialize_optional}
use micro_xrce_dds_client.Xrce.Basic.{uxr_string_size_max}
use micro_xrce_dds_client.Xrce.Basic.Deserialize.{
  deserialize_binary_sequence, deserialize_object_id,
}
use micro_xrce_dds_client.Xrce.Endpoint.{
  ObjkEndpointQosBinary, ObjkDataWriterBinaryQos, ObjkDataReaderBinaryQos, ObjkDataReaderBinary,
  ObjkDataWriterBinary, ObjkRequesterBinary, ObjkReplierBinary,
}

module _ {B : Type 0} ⦃cdr : MicroCdr B⦄ where
  unfoldable pub deserialize_objk_endpoint_qos_binary : Step B ObjkEndpointQosBinary
  deserialize_objk_endpoint_qos_binary = do
    pure (record {
      qos_flags = (← cdr.deserialize_uint16);
      history_depth = (← deserialize_optional cdr.deserialize_uint16);
      deadline_msec = (← deserialize_optional cdr.deserialize_uint32);
      lifespan_msec = (← deserialize_optional cdr.deserialize_uint32);
      user_data = (← deserialize_optional deserialize_binary_sequence);
    })

  unfoldable pub deserialize_objk_data_writer_binary_qos : Step B ObjkDataWriterBinaryQos
  deserialize_objk_data_writer_binary_qos = do
    pure (record {
      base = (← deserialize_objk_endpoint_qos_binary);
      ownership_strength = (← deserialize_optional cdr.deserialize_uint64);
    })

  unfoldable pub deserialize_objk_data_reader_binary_qos : Step B ObjkDataReaderBinaryQos
  deserialize_objk_data_reader_binary_qos = do
    pure (record {
      base = (← deserialize_objk_endpoint_qos_binary);
      timebasedfilter_msec = (← deserialize_optional cdr.deserialize_uint64);
      contentbased_filter = (← deserialize_optional (cdr.deserialize_string uxr_string_size_max));
    })

  unfoldable pub deserialize_objk_data_reader_binary : Step B ObjkDataReaderBinary
  deserialize_objk_data_reader_binary = do
    pure (record {
      topic_id = (← deserialize_object_id);
      qos = (← deserialize_optional deserialize_objk_data_reader_binary_qos);
    })

  unfoldable pub deserialize_objk_data_writer_binary : Step B ObjkDataWriterBinary
  deserialize_objk_data_writer_binary = do
    pure (record {
      topic_id = (← deserialize_object_id);
      qos = (← deserialize_optional deserialize_objk_data_writer_binary_qos);
    })

  unfoldable pub deserialize_objk_requester_binary : Step B ObjkRequesterBinary
  deserialize_objk_requester_binary = do
    pure (record {
      service_name = (← cdr.deserialize_string uxr_string_size_max);
      request_type = (← cdr.deserialize_string uxr_string_size_max);
      reply_type = (← cdr.deserialize_string uxr_string_size_max);
      request_topic_name = (← deserialize_optional (cdr.deserialize_string uxr_string_size_max));
      reply_topic_name = (← deserialize_optional (cdr.deserialize_string uxr_string_size_max));
    })

  unfoldable pub deserialize_objk_replier_binary : Step B ObjkReplierBinary
  deserialize_objk_replier_binary = do
    pure (record {
      service_name = (← cdr.deserialize_string uxr_string_size_max);
      request_type = (← cdr.deserialize_string uxr_string_size_max);
      reply_type = (← cdr.deserialize_string uxr_string_size_max);
      request_topic_name = (← deserialize_optional (cdr.deserialize_string uxr_string_size_max));
      reply_topic_name = (← deserialize_optional (cdr.deserialize_string uxr_string_size_max));
    })
