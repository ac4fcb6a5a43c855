-- ===== src/Xrce/Request/Deserialize.antt =====
-- xrce_types.c: the `uxr_deserialize_` functions of the object variants, requests, replies and object information.
use micro_xrce_dds_client.Prelude.{if◌then◌else◌, ◌==◌}
use micro_xrce_dds_client.Xrce.Cdr.{Step, MicroCdr, pure, ◌>>=◌, if_ok, deserialize_optional}
use micro_xrce_dds_client.Xrce.Basic.Deserialize.{deserialize_object_id}
use micro_xrce_dds_client.Xrce.Entity.Deserialize.{
  deserialize_objk_qosprofile_representation, deserialize_objk_type_representation,
  deserialize_objk_application_representation, deserialize_objk_publisher_representation,
  deserialize_objk_subscriber_representation, deserialize_datawriter_representation,
  deserialize_datareader_representation, deserialize_objk_participant_representation,
  deserialize_objk_topic_representation, deserialize_objk_requester_representation,
  deserialize_objk_replier_representation,
}
use micro_xrce_dds_client.Xrce.Locator.Deserialize.{deserialize_transport_locator_seq}
use micro_xrce_dds_client.Xrce.Object.Deserialize.{
  deserialize_client_representation, deserialize_agent_representation,
}
use micro_xrce_dds_client.Xrce.Request.{
  dds_xrce_objk_agent, dds_xrce_objk_client, dds_xrce_objk_application, dds_xrce_objk_participant,
  dds_xrce_objk_qosprofile, dds_xrce_objk_type, dds_xrce_objk_topic, dds_xrce_objk_publisher,
  dds_xrce_objk_subscriber, dds_xrce_objk_datawriter, dds_xrce_objk_datareader,
  dds_xrce_objk_requester, dds_xrce_objk_replier, ObjectVariant, CreationMode, RequestId,
  ResultStatus, BaseObjectRequest, AgentActivityInfo, DatareaderActivityInfo,
  DatawriterActivityInfo, ActivityInfoVariant, ObjectInfo, BaseObjectReply,
}

module _ {B : Type 0} ⦃cdr : MicroCdr B⦄ where
  unfoldable pub deserialize_object_variant : Step B ObjectVariant
  deserialize_object_variant = if_ok cdr.deserialize_uint8 ObjectVariant.other λ kind.
      if kind == dds_xrce_objk_agent
      then (do pure (ObjectVariant.agent (← deserialize_agent_representation)))
      else if kind == dds_xrce_objk_client
      then (do pure (ObjectVariant.client (← deserialize_client_representation)))
      else if kind == dds_xrce_objk_application
      then (do pure (ObjectVariant.application (← deserialize_objk_application_representation)))
      else if kind == dds_xrce_objk_participant
      then (do pure (ObjectVariant.participant (← deserialize_objk_participant_representation)))
      else if kind == dds_xrce_objk_qosprofile
      then (do pure (ObjectVariant.qos_profile (← deserialize_objk_qosprofile_representation)))
      else if kind == dds_xrce_objk_type
      then (do pure (ObjectVariant.type (← deserialize_objk_type_representation)))
      else if kind == dds_xrce_objk_topic
      then (do pure (ObjectVariant.topic (← deserialize_objk_topic_representation)))
      else if kind == dds_xrce_objk_publisher
      then (do pure (ObjectVariant.publisher (← deserialize_objk_publisher_representation)))
      else if kind == dds_xrce_objk_subscriber
      then (do pure (ObjectVariant.subscriber (← deserialize_objk_subscriber_representation)))
      else if kind == dds_xrce_objk_datawriter
      then (do pure (ObjectVariant.data_writer (← deserialize_datawriter_representation)))
      else if kind == dds_xrce_objk_datareader
      then (do pure (ObjectVariant.data_reader (← deserialize_datareader_representation)))
      else if kind == dds_xrce_objk_requester
      then (do pure (ObjectVariant.requester (← deserialize_objk_requester_representation)))
      else if kind == dds_xrce_objk_replier
      then (do pure (ObjectVariant.replier (← deserialize_objk_replier_representation)))
      else pure (ObjectVariant.other kind)

  unfoldable pub deserialize_creation_mode : Step B CreationMode
  deserialize_creation_mode = do
    pure (record { reuse = (← cdr.deserialize_bool); replace = (← cdr.deserialize_bool) })

  unfoldable pub deserialize_request_id : Step B RequestId
  deserialize_request_id = do pure (record { octets = (← cdr.deserialize_array_uint8 2) })

  unfoldable pub deserialize_result_status : Step B ResultStatus
  deserialize_result_status = do
    pure (record {
      status = (← cdr.deserialize_uint8);
      implementation_status = (← cdr.deserialize_uint8);
    })

  unfoldable pub deserialize_base_object_request : Step B BaseObjectRequest
  deserialize_base_object_request = do
    pure (record { request_id = (← deserialize_request_id); object_id = (← deserialize_object_id) })

  unfoldable pub deserialize_agent_activity_info : Step B AgentActivityInfo
  deserialize_agent_activity_info = do
    pure (record {
      availability = (← cdr.deserialize_int16);
      address_seq = (← deserialize_transport_locator_seq);
    })

  unfoldable pub deserialize_datareader_activity_info : Step B DatareaderActivityInfo
  deserialize_datareader_activity_info = do
    pure (record { highest_acked_num = (← cdr.deserialize_int16) })

  unfoldable pub deserialize_datawriter_activity_info : Step B DatawriterActivityInfo
  deserialize_datawriter_activity_info = do
    pure (record {
      stream_seq_num = (← cdr.deserialize_int16);
      sample_seq_num = (← cdr.deserialize_uint64);
    })

  unfoldable pub deserialize_activity_info_variant : Step B ActivityInfoVariant
  deserialize_activity_info_variant = if_ok cdr.deserialize_uint8 ActivityInfoVariant.other λ kind.
      if kind == dds_xrce_objk_agent
      then (do pure (ActivityInfoVariant.agent (← deserialize_agent_activity_info)))
      else if kind == dds_xrce_objk_datawriter
      then (do pure (ActivityInfoVariant.data_writer (← deserialize_datawriter_activity_info)))
      else if kind == dds_xrce_objk_datareader
      then (do pure (ActivityInfoVariant.data_reader (← deserialize_datareader_activity_info)))
      else pure (ActivityInfoVariant.other kind)

  unfoldable pub deserialize_object_info : Step B ObjectInfo
  deserialize_object_info = do
    pure (record {
      config = (← deserialize_optional deserialize_object_variant);
      activity = (← deserialize_optional deserialize_activity_info_variant);
    })

  unfoldable pub deserialize_base_object_reply : Step B BaseObjectReply
  deserialize_base_object_reply = do
    pure (record {
      related_request = (← deserialize_base_object_request);
      result = (← deserialize_result_status);
    })
