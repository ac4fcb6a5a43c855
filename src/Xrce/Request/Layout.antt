-- ===== src/Xrce/Request/Layout.antt =====
-- The items that stand for the object variants, requests, replies and object information, and the bounds that a value meets to be read back.
use micro_xrce_dds_client.Prelude.{◌≡◌, ◌++◌, ◌∷◌, [], false, List, length, ◌==◌}
use micro_xrce_dds_client.Xrce.Cdr.Laws.{Item, Holds, layout_optional}
use micro_xrce_dds_client.Xrce.Basic.Layout.{layout_object_id, IsValidObjectId}
use micro_xrce_dds_client.Xrce.Entity.Layout.{
  layout_objk_qosprofile_representation, layout_objk_type_representation,
  layout_objk_application_representation, layout_objk_publisher_representation,
  layout_objk_subscriber_representation, layout_datawriter_representation,
  layout_datareader_representation, layout_objk_participant_representation,
  layout_objk_topic_representation, layout_objk_requester_representation,
  layout_objk_replier_representation, IsValidObjkQosprofileRepresentation,
  IsValidObjkTypeRepresentation, IsValidObjkApplicationRepresentation,
  IsValidObjkPublisherRepresentation, IsValidObjkSubscriberRepresentation,
  IsValidDatawriterRepresentation, IsValidDatareaderRepresentation,
  IsValidObjkParticipantRepresentation, IsValidObjkTopicRepresentation,
  IsValidObjkRequesterRepresentation, IsValidObjkReplierRepresentation,
}
use micro_xrce_dds_client.Xrce.Locator.Layout.{
  layout_transport_locator_seq, IsValidTransportLocatorSeq,
}
use micro_xrce_dds_client.Xrce.Object.Layout.{
  layout_client_representation, layout_agent_representation, IsValidClientRepresentation,
  IsValidAgentRepresentation,
}
use micro_xrce_dds_client.Xrce.Request.{
  dds_xrce_objk_agent, dds_xrce_objk_client, dds_xrce_objk_application, dds_xrce_objk_participant,
  dds_xrce_objk_qosprofile, dds_xrce_objk_type, dds_xrce_objk_topic, dds_xrce_objk_publisher,
  dds_xrce_objk_subscriber, dds_xrce_objk_datawriter, dds_xrce_objk_datareader,
  dds_xrce_objk_requester, dds_xrce_objk_replier, ObjectVariant, CreationMode, RequestId,
  ResultStatus, BaseObjectRequest, AgentActivityInfo, DatareaderActivityInfo,
  DatawriterActivityInfo, ActivityInfoVariant, ObjectInfo, BaseObjectReply,
}

unfoldable pub layout_object_variant : ObjectVariant → List Item
layout_object_variant (ObjectVariant.agent x) =
    Item.uint8 dds_xrce_objk_agent ∷ layout_agent_representation x
layout_object_variant (ObjectVariant.client x) =
    Item.uint8 dds_xrce_objk_client ∷ layout_client_representation x
layout_object_variant (ObjectVariant.application x) =
    Item.uint8 dds_xrce_objk_application ∷ layout_objk_application_representation x
layout_object_variant (ObjectVariant.participant x) =
    Item.uint8 dds_xrce_objk_participant ∷ layout_objk_participant_representation x
layout_object_variant (ObjectVariant.qos_profile x) =
    Item.uint8 dds_xrce_objk_qosprofile ∷ layout_objk_qosprofile_representation x
layout_object_variant (ObjectVariant.type x) =
    Item.uint8 dds_xrce_objk_type ∷ layout_objk_type_representation x
layout_object_variant (ObjectVariant.topic x) =
    Item.uint8 dds_xrce_objk_topic ∷ layout_objk_topic_representation x
layout_object_variant (ObjectVariant.publisher x) =
    Item.uint8 dds_xrce_objk_publisher ∷ layout_objk_publisher_representation x
layout_object_variant (ObjectVariant.subscriber x) =
    Item.uint8 dds_xrce_objk_subscriber ∷ layout_objk_subscriber_representation x
layout_object_variant (ObjectVariant.data_writer x) =
    Item.uint8 dds_xrce_objk_datawriter ∷ layout_datawriter_representation x
layout_object_variant (ObjectVariant.data_reader x) =
    Item.uint8 dds_xrce_objk_datareader ∷ layout_datareader_representation x
layout_object_variant (ObjectVariant.requester x) =
    Item.uint8 dds_xrce_objk_requester ∷ layout_objk_requester_representation x
layout_object_variant (ObjectVariant.replier x) =
    Item.uint8 dds_xrce_objk_replier ∷ layout_objk_replier_representation x
layout_object_variant (ObjectVariant.other kind) = Item.uint8 kind ∷ []

abbrev pub IsValidObjectVariant : ObjectVariant → Type 0
IsValidObjectVariant (ObjectVariant.agent x) = IsValidAgentRepresentation x
IsValidObjectVariant (ObjectVariant.client x) = IsValidClientRepresentation x
IsValidObjectVariant (ObjectVariant.application x) = IsValidObjkApplicationRepresentation x
IsValidObjectVariant (ObjectVariant.participant x) = IsValidObjkParticipantRepresentation x
IsValidObjectVariant (ObjectVariant.qos_profile x) = IsValidObjkQosprofileRepresentation x
IsValidObjectVariant (ObjectVariant.type x) = IsValidObjkTypeRepresentation x
IsValidObjectVariant (ObjectVariant.topic x) = IsValidObjkTopicRepresentation x
IsValidObjectVariant (ObjectVariant.publisher x) = IsValidObjkPublisherRepresentation x
IsValidObjectVariant (ObjectVariant.subscriber x) = IsValidObjkSubscriberRepresentation x
IsValidObjectVariant (ObjectVariant.data_writer x) = IsValidDatawriterRepresentation x
IsValidObjectVariant (ObjectVariant.data_reader x) = IsValidDatareaderRepresentation x
IsValidObjectVariant (ObjectVariant.requester x) = IsValidObjkRequesterRepresentation x
IsValidObjectVariant (ObjectVariant.replier x) = IsValidObjkReplierRepresentation x
IsValidObjectVariant (ObjectVariant.other kind) =
    (kind == dds_xrce_objk_agent ≡ false)
    × (kind == dds_xrce_objk_client ≡ false)
    × (kind == dds_xrce_objk_application ≡ false)
    × (kind == dds_xrce_objk_participant ≡ false)
    × (kind == dds_xrce_objk_qosprofile ≡ false)
    × (kind == dds_xrce_objk_type ≡ false)
    × (kind == dds_xrce_objk_topic ≡ false)
    × (kind == dds_xrce_objk_publisher ≡ false)
    × (kind == dds_xrce_objk_subscriber ≡ false)
    × (kind == dds_xrce_objk_datawriter ≡ false)
    × (kind == dds_xrce_objk_datareader ≡ false)
    × (kind == dds_xrce_objk_requester ≡ false)
    × (kind == dds_xrce_objk_replier ≡ false)

unfoldable pub layout_creation_mode : CreationMode → List Item
layout_creation_mode x = Item.flag x.reuse ∷ Item.flag x.replace ∷ []

unfoldable pub layout_request_id : RequestId → List Item
layout_request_id x = Item.array x.octets ∷ []

abbrev pub IsValidRequestId : RequestId → Type 0
IsValidRequestId x = length x.octets ≡ 2

unfoldable pub layout_result_status : ResultStatus → List Item
layout_result_status x = Item.uint8 x.status ∷ Item.uint8 x.implementation_status ∷ []

unfoldable pub layout_base_object_request : BaseObjectRequest → List Item
layout_base_object_request x = layout_request_id x.request_id ++ layout_object_id x.object_id

abbrev pub IsValidBaseObjectRequest : BaseObjectRequest → Type 0
IsValidBaseObjectRequest x = (IsValidRequestId x.request_id) × (IsValidObjectId x.object_id)

unfoldable pub layout_agent_activity_info : AgentActivityInfo → List Item
layout_agent_activity_info x =
    Item.int16 x.availability ∷ layout_transport_locator_seq x.address_seq

abbrev pub IsValidAgentActivityInfo : AgentActivityInfo → Type 0
IsValidAgentActivityInfo x = IsValidTransportLocatorSeq x.address_seq

unfoldable pub layout_datareader_activity_info : DatareaderActivityInfo → List Item
layout_datareader_activity_info x = Item.int16 x.highest_acked_num ∷ []

unfoldable pub layout_datawriter_activity_info : DatawriterActivityInfo → List Item
layout_datawriter_activity_info x = Item.int16 x.stream_seq_num ∷ Item.uint64 x.sample_seq_num ∷ []

unfoldable pub layout_activity_info_variant : ActivityInfoVariant → List Item
layout_activity_info_variant (ActivityInfoVariant.agent x) =
    Item.uint8 dds_xrce_objk_agent ∷ layout_agent_activity_info x
layout_activity_info_variant (ActivityInfoVariant.data_writer x) =
    Item.uint8 dds_xrce_objk_datawriter ∷ layout_datawriter_activity_info x
layout_activity_info_variant (ActivityInfoVariant.data_reader x) =
    Item.uint8 dds_xrce_objk_datareader ∷ layout_datareader_activity_info x
layout_activity_info_variant (ActivityInfoVariant.other kind) = Item.uint8 kind ∷ []

abbrev pub IsValidActivityInfoVariant : ActivityInfoVariant → Type 0
IsValidActivityInfoVariant (ActivityInfoVariant.agent x) = IsValidAgentActivityInfo x
IsValidActivityInfoVariant (ActivityInfoVariant.data_writer x) = Unit {0}
IsValidActivityInfoVariant (ActivityInfoVariant.data_reader x) = Unit {0}
IsValidActivityInfoVariant (ActivityInfoVariant.other kind) =
    (kind == dds_xrce_objk_agent ≡ false)
    × (kind == dds_xrce_objk_datawriter ≡ false)
    × (kind == dds_xrce_objk_datareader ≡ false)

unfoldable pub layout_object_info : ObjectInfo → List Item
layout_object_info x =
    layout_optional layout_object_variant x.config
    ++ layout_optional layout_activity_info_variant x.activity

abbrev pub IsValidObjectInfo : ObjectInfo → Type 0
IsValidObjectInfo x =
    (Holds IsValidObjectVariant x.config) × (Holds IsValidActivityInfoVariant x.activity)

unfoldable pub layout_base_object_reply : BaseObjectReply → List Item
layout_base_object_reply x =
    layout_base_object_request x.related_request ++ layout_result_status x.result

abbrev pub IsValidBaseObjectReply : BaseObjectReply → Type 0
IsValidBaseObjectReply x = IsValidBaseObjectRequest x.related_request
