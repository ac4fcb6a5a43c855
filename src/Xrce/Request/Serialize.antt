-- ===== src/Xrce/Request/Serialize.antt =====
-- xrce_types.c: the `uxr_serialize_` functions of the object variants, requests, replies and object information.
use micro_xrce_dds_client.Xrce.Cdr.{Step, MicroCdr, pure, ◌>>◌, when_ok, serialize_optional}
use micro_xrce_dds_client.Xrce.Basic.Serialize.{serialize_object_id}
use micro_xrce_dds_client.Xrce.Entity.Serialize.{
  serialize_objk_qosprofile_representation, serialize_objk_type_representation,
  serialize_objk_application_representation, serialize_objk_publisher_representation,
  serialize_objk_subscriber_representation, serialize_datawriter_representation,
  serialize_datareader_representation, serialize_objk_participant_representation,
  serialize_objk_topic_representation, serialize_objk_requester_representation,
  serialize_objk_replier_representation,
}
use micro_xrce_dds_client.Xrce.Locator.Serialize.{serialize_transport_locator_seq}
use micro_xrce_dds_client.Xrce.Object.Serialize.{
  serialize_client_representation, serialize_agent_representation,
}
use micro_xrce_dds_client.Xrce.Request.{
  dds_xrce_objk_agent, dds_xrce_objk_client, dds_xrce_objk_application, dds_xrce_objk_participant,
  dds_xrce_objk_qosprofile, dds_xrce_objk_type, dds_xrce_objk_topic, dds_xrce_objk_publisher,
  dds_xrce_objk_subscriber, dds_xrce_objk_datawriter, dds_xrce_objk_datareader,
  dds_xrce_objk_requester, dds_xrce_objk_replier, ObjectVariant, CreationMode, RequestId,
  ResultStatus, BaseObjectRequest, AgentActivityInfo, DatareaderActivityInfo,
  DatawriterActivityInfo, ActivityInfoVariant, ObjectInfo, BaseObjectReply,
}

module _ {B : Type 0} ⦃cdr : MicroCdr B⦄ where
  unfoldable pub serialize_object_variant : ObjectVariant → Step B (Unit {0})
  serialize_object_variant (ObjectVariant.agent x) =
      when_ok (cdr.serialize_uint8 dds_xrce_objk_agent) (serialize_agent_representation x)
  serialize_object_variant (ObjectVariant.client x) =
      when_ok (cdr.serialize_uint8 dds_xrce_objk_client) (serialize_client_representation x)
  serialize_object_variant (ObjectVariant.application x) =
      when_ok (cdr.serialize_uint8 dds_xrce_objk_application)
        (serialize_objk_application_representation x)
  serialize_object_variant (ObjectVariant.participant x) =
      when_ok (cdr.serialize_uint8 dds_xrce_objk_participant)
        (serialize_objk_participant_representation x)
  serialize_object_variant (ObjectVariant.qos_profile x) =
      when_ok (cdr.serialize_uint8 dds_xrce_objk_qosprofile)
        (serialize_objk_qosprofile_representation x)
  serialize_object_variant (ObjectVariant.type x) =
      when_ok (cdr.serialize_uint8 dds_xrce_objk_type) (serialize_objk_type_representation x)
  serialize_object_variant (ObjectVariant.topic x) =
      when_ok (cdr.serialize_uint8 dds_xrce_objk_topic) (serialize_objk_topic_representation x)
  serialize_object_variant (ObjectVariant.publisher x) =
      when_ok (cdr.serialize_uint8 dds_xrce_objk_publisher)
        (serialize_objk_publisher_representation x)
  serialize_object_variant (ObjectVariant.subscriber x) =
      when_ok (cdr.serialize_uint8 dds_xrce_objk_subscriber)
        (serialize_objk_subscriber_representation x)
  serialize_object_variant (ObjectVariant.data_writer x) =
      when_ok (cdr.serialize_uint8 dds_xrce_objk_datawriter) (serialize_datawriter_representation x)
  serialize_object_variant (ObjectVariant.data_reader x) =
      when_ok (cdr.serialize_uint8 dds_xrce_objk_datareader) (serialize_datareader_representation x)
  serialize_object_variant (ObjectVariant.requester x) =
      when_ok (cdr.serialize_uint8 dds_xrce_objk_requester)
        (serialize_objk_requester_representation x)
  serialize_object_variant (ObjectVariant.replier x) =
      when_ok (cdr.serialize_uint8 dds_xrce_objk_replier) (serialize_objk_replier_representation x)
  serialize_object_variant (ObjectVariant.other kind) = when_ok (cdr.serialize_uint8 kind) (pure tt)

  unfoldable pub serialize_creation_mode : CreationMode → Step B (Unit {0})
  serialize_creation_mode x = do cdr.serialize_bool x.reuse; cdr.serialize_bool x.replace

  unfoldable pub serialize_request_id : RequestId → Step B (Unit {0})
  serialize_request_id x = cdr.serialize_array_uint8 2 x.octets

  unfoldable pub serialize_result_status : ResultStatus → Step B (Unit {0})
  serialize_result_status x = do
    cdr.serialize_uint8 x.status
    cdr.serialize_uint8 x.implementation_status

  unfoldable pub serialize_base_object_request : BaseObjectRequest → Step B (Unit {0})
  serialize_base_object_request x = do
    serialize_request_id x.request_id
    serialize_object_id x.object_id

  unfoldable pub serialize_agent_activity_info : AgentActivityInfo → Step B (Unit {0})
  serialize_agent_activity_info x = do
    cdr.serialize_int16 x.availability
    serialize_transport_locator_seq x.address_seq

  unfoldable pub serialize_datareader_activity_info : DatareaderActivityInfo → Step B (Unit {0})
  serialize_datareader_activity_info x = cdr.serialize_int16 x.highest_acked_num

  unfoldable pub serialize_datawriter_activity_info : DatawriterActivityInfo → Step B (Unit {0})
  serialize_datawriter_activity_info x = do
    cdr.serialize_int16 x.stream_seq_num
    cdr.serialize_uint64 x.sample_seq_num

  unfoldable pub serialize_activity_info_variant : ActivityInfoVariant → Step B (Unit {0})
  serialize_activity_info_variant (ActivityInfoVariant.agent x) =
      when_ok (cdr.serialize_uint8 dds_xrce_objk_agent) (serialize_agent_activity_info x)
  serialize_activity_info_variant (ActivityInfoVariant.data_writer x) =
      when_ok (cdr.serialize_uint8 dds_xrce_objk_datawriter) (serialize_datawriter_activity_info x)
  serialize_activity_info_variant (ActivityInfoVariant.data_reader x) =
      when_ok (cdr.serialize_uint8 dds_xrce_objk_datareader) (serialize_datareader_activity_info x)
  serialize_activity_info_variant (ActivityInfoVariant.other kind) =
      when_ok (cdr.serialize_uint8 kind) (pure tt)

  unfoldable pub serialize_object_info : ObjectInfo → Step B (Unit {0})
  serialize_object_info x = do
    serialize_optional serialize_object_variant x.config
    serialize_optional serialize_activity_info_variant x.activity

  unfoldable pub serialize_base_object_reply : BaseObjectReply → Step B (Unit {0})
  serialize_base_object_reply x = do
    serialize_base_object_request x.related_request
    serialize_result_status x.result
