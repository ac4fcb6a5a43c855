-- ===== src/Xrce/Request/Codec.antt =====
-- What is written for one of the object variants, requests, replies and object information is its items, and these are read back as the value.
use micro_xrce_dds_client.Xrce.Cdr.{MicroCdr}
use micro_xrce_dds_client.Xrce.Cdr.Laws.{Laws, Codec}
use micro_xrce_dds_client.Xrce.Cdr.Rules.{
  Codec-pure, Codec->>, Codec-last, Codec-case, Codec-else, optional-Codec,
}
use micro_xrce_dds_client.Xrce.Basic.Codec.{object_id-Codec}
use micro_xrce_dds_client.Xrce.Entity.Codec.{
  objk_qosprofile_representation-Codec, objk_type_representation-Codec,
  objk_application_representation-Codec, objk_publisher_representation-Codec,
  objk_subscriber_representation-Codec, datawriter_representation-Codec,
  datareader_representation-Codec, objk_participant_representation-Codec,
  objk_topic_representation-Codec, objk_requester_representation-Codec,
  objk_replier_representation-Codec,
}
use micro_xrce_dds_client.Xrce.Locator.Codec.{transport_locator_seq-Codec}
use micro_xrce_dds_client.Xrce.Object.Codec.{
  client_representation-Codec, agent_representation-Codec,
}
use micro_xrce_dds_client.Xrce.Request.{
  ObjectVariant, CreationMode, RequestId, ResultStatus, BaseObjectRequest, AgentActivityInfo,
  DatareaderActivityInfo, DatawriterActivityInfo, ActivityInfoVariant, ObjectInfo, BaseObjectReply,
}
use micro_xrce_dds_client.Xrce.Request.Deserialize.{
  deserialize_object_variant, deserialize_creation_mode, deserialize_request_id,
  deserialize_result_status, deserialize_base_object_request, deserialize_agent_activity_info,
  deserialize_datareader_activity_info, deserialize_datawriter_activity_info,
  deserialize_activity_info_variant, deserialize_object_info, deserialize_base_object_reply,
}
use micro_xrce_dds_client.Xrce.Request.Layout.{
  layout_object_variant, layout_creation_mode, layout_request_id, layout_result_status,
  layout_base_object_request, layout_agent_activity_info, layout_datareader_activity_info,
  layout_datawriter_activity_info, layout_activity_info_variant, layout_object_info,
  layout_base_object_reply, IsValidObjectVariant, IsValidRequestId, IsValidBaseObjectRequest,
  IsValidAgentActivityInfo, IsValidActivityInfoVariant, IsValidObjectInfo, IsValidBaseObjectReply,
}
use micro_xrce_dds_client.Xrce.Request.Serialize.{
  serialize_object_variant, serialize_creation_mode, serialize_request_id, serialize_result_status,
  serialize_base_object_request, serialize_agent_activity_info, serialize_datareader_activity_info,
  serialize_datawriter_activity_info, serialize_activity_info_variant, serialize_object_info,
  serialize_base_object_reply,
}

module _ {B : Type 0} ⦃cdr : MicroCdr B⦄ ⦃laws : Laws cdr⦄ where
  pub object_variant-Codec :
      (x : ObjectVariant)
      → IsValidObjectVariant x
      → Codec laws.view
          (serialize_object_variant x)
          deserialize_object_variant
          (layout_object_variant x)
          x
  unfolding serialize_object_variant deserialize_object_variant layout_object_variant
  object_variant-Codec (ObjectVariant.agent x) h =
      Codec-case _ _ (laws.codec_uint8 _) (Codec-last _ (agent_representation-Codec x h))
  object_variant-Codec (ObjectVariant.client x) h =
      Codec-case _ _ (laws.codec_uint8 _) (Codec-last _ (client_representation-Codec x h))
  object_variant-Codec (ObjectVariant.application x) h =
      Codec-case _ _ (laws.codec_uint8 _) (Codec-last _ (objk_application_representation-Codec x h))
  object_variant-Codec (ObjectVariant.participant x) h =
      Codec-case _ _ (laws.codec_uint8 _) (Codec-last _ (objk_participant_representation-Codec x h))
  object_variant-Codec (ObjectVariant.qos_profile x) h =
      Codec-case _ _ (laws.codec_uint8 _) (Codec-last _ (objk_qosprofile_representation-Codec x h))
  object_variant-Codec (ObjectVariant.type x) h =
      Codec-case _ _ (laws.codec_uint8 _) (Codec-last _ (objk_type_representation-Codec x h))
  object_variant-Codec (ObjectVariant.topic x) h =
      Codec-case _ _ (laws.codec_uint8 _) (Codec-last _ (objk_topic_representation-Codec x h))
  object_variant-Codec (ObjectVariant.publisher x) h =
      Codec-case _ _ (laws.codec_uint8 _) (Codec-last _ (objk_publisher_representation-Codec x h))
  object_variant-Codec (ObjectVariant.subscriber x) h =
      Codec-case _ _ (laws.codec_uint8 _) (Codec-last _ (objk_subscriber_representation-Codec x h))
  object_variant-Codec (ObjectVariant.data_writer x) h =
      Codec-case _ _ (laws.codec_uint8 _) (Codec-last _ (datawriter_representation-Codec x h))
  object_variant-Codec (ObjectVariant.data_reader x) h =
      Codec-case _ _ (laws.codec_uint8 _) (Codec-last _ (datareader_representation-Codec x h))
  object_variant-Codec (ObjectVariant.requester x) h =
      Codec-case _ _ (laws.codec_uint8 _) (Codec-last _ (objk_requester_representation-Codec x h))
  object_variant-Codec (ObjectVariant.replier x) h =
      Codec-case _ _ (laws.codec_uint8 _) (Codec-last _ (objk_replier_representation-Codec x h))
  object_variant-Codec (ObjectVariant.other x)
        (h1, h2, h3, h4, h5, h6, h7, h8, h9, h10, h11, h12, h13) =
      Codec-case _ _ (laws.codec_uint8 x) (
        Codec-else _ _ h1 (
          Codec-else _ _ h2 (
            Codec-else _ _ h3 (
              Codec-else _ _ h4 (
                Codec-else _ _ h5 (
                  Codec-else _ _ h6 (
                    Codec-else _ _ h7 (
                      Codec-else _ _ h8 (
                        Codec-else _ _ h9 (
                          Codec-else _ _ h10 (
                            Codec-else _ _ h11
                              (Codec-else _ _ h12 (Codec-else _ _ h13 Codec-pure)))))))))))))

  creation_mode-Codec :
      (x : CreationMode)
      → Codec laws.view
          (serialize_creation_mode x)
          deserialize_creation_mode
          (layout_creation_mode x)
          x
  unfolding serialize_creation_mode deserialize_creation_mode layout_creation_mode
  creation_mode-Codec x =
      Codec->> _ (laws.codec_bool x.reuse) (Codec-last _ (laws.codec_bool x.replace))

  request_id-Codec :
      (x : RequestId)
      → IsValidRequestId x
      → Codec laws.view (serialize_request_id x) deserialize_request_id (layout_request_id x) x
  unfolding serialize_request_id deserialize_request_id layout_request_id
  request_id-Codec x h1 = Codec-last _ (laws.codec_array 2 x.octets h1)

  pub result_status-Codec :
      (x : ResultStatus)
      → Codec laws.view
          (serialize_result_status x)
          deserialize_result_status
          (layout_result_status x)
          x
  unfolding serialize_result_status deserialize_result_status layout_result_status
  result_status-Codec x =
      Codec->> _ (laws.codec_uint8 x.status)
        (Codec-last _ (laws.codec_uint8 x.implementation_status))

  pub base_object_request-Codec :
      (x : BaseObjectRequest)
      → IsValidBaseObjectRequest x
      → Codec laws.view
          (serialize_base_object_request x)
          deserialize_base_object_request
          (layout_base_object_request x)
          x
  unfolding serialize_base_object_request deserialize_base_object_request layout_base_object_request
  base_object_request-Codec x (h1, h2) =
      Codec->> _ (request_id-Codec x.request_id h1) (Codec-last _ (object_id-Codec x.object_id h2))

  agent_activity_info-Codec :
      (x : AgentActivityInfo)
      → IsValidAgentActivityInfo x
      → Codec laws.view
          (serialize_agent_activity_info x)
          deserialize_agent_activity_info
          (layout_agent_activity_info x)
          x
  unfolding serialize_agent_activity_info deserialize_agent_activity_info layout_agent_activity_info
  agent_activity_info-Codec x h1 =
      Codec->> _ (laws.codec_int16 x.availability)
        (Codec-last _ (transport_locator_seq-Codec x.address_seq h1))

  datareader_activity_info-Codec :
      (x : DatareaderActivityInfo)
      → Codec laws.view
          (serialize_datareader_activity_info x)
          deserialize_datareader_activity_info
          (layout_datareader_activity_info x)
          x
  unfolding serialize_datareader_activity_info deserialize_datareader_activity_info
      layout_datareader_activity_info
  datareader_activity_info-Codec x = Codec-last _ (laws.codec_int16 x.highest_acked_num)

  datawriter_activity_info-Codec :
      (x : DatawriterActivityInfo)
      → Codec laws.view
          (serialize_datawriter_activity_info x)
          deserialize_datawriter_activity_info
          (layout_datawriter_activity_info x)
          x
  unfolding serialize_datawriter_activity_info deserialize_datawriter_activity_info
      layout_datawriter_activity_info
  datawriter_activity_info-Codec x =
      Codec->> _ (laws.codec_int16 x.stream_seq_num)
        (Codec-last _ (laws.codec_uint64 x.sample_seq_num))

  activity_info_variant-Codec :
      (x : ActivityInfoVariant)
      → IsValidActivityInfoVariant x
      → Codec laws.view
          (serialize_activity_info_variant x)
          deserialize_activity_info_variant
          (layout_activity_info_variant x)
          x
  unfolding serialize_activity_info_variant deserialize_activity_info_variant
      layout_activity_info_variant
  activity_info_variant-Codec (ActivityInfoVariant.agent x) h =
      Codec-case _ _ (laws.codec_uint8 _) (Codec-last _ (agent_activity_info-Codec x h))
  activity_info_variant-Codec (ActivityInfoVariant.data_writer x) h =
      Codec-case _ _ (laws.codec_uint8 _) (Codec-last _ (datawriter_activity_info-Codec x))
  activity_info_variant-Codec (ActivityInfoVariant.data_reader x) h =
      Codec-case _ _ (laws.codec_uint8 _) (Codec-last _ (datareader_activity_info-Codec x))
  activity_info_variant-Codec (ActivityInfoVariant.other x) (h1, h2, h3) =
      Codec-case _ _ (laws.codec_uint8 x)
        (Codec-else _ _ h1 (Codec-else _ _ h2 (Codec-else _ _ h3 Codec-pure)))

  pub object_info-Codec :
      (x : ObjectInfo)
      → IsValidObjectInfo x
      → Codec laws.view (serialize_object_info x) deserialize_object_info (layout_object_info x) x
  unfolding serialize_object_info deserialize_object_info layout_object_info
  object_info-Codec x (h1, h2) =
      Codec->> _
        (optional-Codec serialize_object_variant deserialize_object_variant layout_object_variant
          x.config h1 (λ a h. object_variant-Codec a h))
        (Codec-last _ (
          optional-Codec serialize_activity_info_variant deserialize_activity_info_variant
            layout_activity_info_variant x.activity h2 (λ a h. activity_info_variant-Codec a h)))

  pub base_object_reply-Codec :
      (x : BaseObjectReply)
      → IsValidBaseObjectReply x
      → Codec laws.view
          (serialize_base_object_reply x)
          deserialize_base_object_reply
          (layout_base_object_reply x)
          x
  unfolding serialize_base_object_reply deserialize_base_object_reply layout_base_object_reply
  base_object_reply-Codec x h1 =
      Codec->> _ (base_object_request-Codec x.related_request h1)
        (Codec-last _ (result_status-Codec x.result))
