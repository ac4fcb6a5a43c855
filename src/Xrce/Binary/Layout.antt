-- ===== src/Xrce/Binary/Layout.antt =====
-- The items that stand for the binary representations of participants, topics, publishers and subscribers, and the bounds that a value meets to be read back.
use micro_xrce_dds_client.Prelude.{◌++◌, ◌∷◌, [], List, length, ◌<◌}
use micro_xrce_dds_client.Xrce.Cdr.Laws.{Item, Holds, layout_optional}
use micro_xrce_dds_client.Xrce.Basic.{uxr_string_size_max}
use micro_xrce_dds_client.Xrce.Basic.Layout.{
  layout_binary_sequence, layout_string_sequence, IsValidBinarySequence, IsValidStringSequence,
}
use micro_xrce_dds_client.Xrce.Binary.{
  ObjkDomainParticipantBinary, ObjkTopicBinary, ObjkPublisherBinaryQos, ObjkPublisherBinary,
  ObjkSubscriberBinaryQos, ObjkSubscriberBinary,
}

unfoldable pub layout_objk_domain_participant_binary : ObjkDomainParticipantBinary → List Item
layout_objk_domain_participant_binary x =
    layout_optional (λ y. Item.string y ∷ []) x.domain_reference
    ++ layout_optional (λ y. Item.string y ∷ []) x.qos_profile_reference

abbrev pub IsValidObjkDomainParticipantBinary : ObjkDomainParticipantBinary → Type 0
IsValidObjkDomainParticipantBinary x =
    (Holds (λ y. length y < uxr_string_size_max) x.domain_reference)
    × (Holds (λ y. length y < uxr_string_size_max) x.qos_profile_reference)

unfoldable pub layout_objk_topic_binary : ObjkTopicBinary → List Item
layout_objk_topic_binary x =
    Item.string x.topic_name ∷ layout_optional (λ y. Item.string y ∷ []) x.type_reference
    ++ layout_optional (λ y. Item.string y ∷ []) x.type_name

abbrev pub IsValidObjkTopicBinary : ObjkTopicBinary → Type 0
IsValidObjkTopicBinary x =
    (length x.topic_name < uxr_string_size_max)
    × (Holds (λ y. length y < uxr_string_size_max) x.type_reference)
    × (Holds (λ y. length y < uxr_string_size_max) x.type_name)

unfoldable pub layout_objk_publisher_binary_qos : ObjkPublisherBinaryQos → List Item
layout_objk_publisher_binary_qos x =
    layout_optional layout_string_sequence x.partitions
    ++ layout_optional layout_binary_sequence x.group_data

abbrev pub IsValidObjkPublisherBinaryQos : ObjkPublisherBinaryQos → Type 0
IsValidObjkPublisherBinaryQos x =
    (Holds IsValidStringSequence x.partitions) × (Holds IsValidBinarySequence x.group_data)

unfoldable pub layout_objk_publisher_binary : ObjkPublisherBinary → List Item
layout_objk_publisher_binary x =
    layout_optional (λ y. Item.string y ∷ []) x.publisher_name
    ++ layout_optional layout_objk_publisher_binary_qos x.qos

abbrev pub IsValidObjkPublisherBinary : ObjkPublisherBinary → Type 0
IsValidObjkPublisherBinary x =
    (Holds (λ y. length y < uxr_string_size_max) x.publisher_name)
    × (Holds IsValidObjkPublisherBinaryQos x.qos)

unfoldable pub layout_objk_subscriber_binary_qos : ObjkSubscriberBinaryQos → List Item
layout_objk_subscriber_binary_qos x =
    layout_optional layout_string_sequence x.partitions
    ++ layout_optional layout_binary_sequence x.group_data

abbrev pub IsValidObjkSubscriberBinaryQos : ObjkSubscriberBinaryQos → Type 0
IsValidObjkSubscriberBinaryQos x =
    (Holds IsValidStringSequence x.partitions) × (Holds IsValidBinarySequence x.group_data)

unfoldable pub layout_objk_subscriber_binary : ObjkSubscriberBinary → List Item
layout_objk_subscriber_binary x =
    layout_optional (λ y. Item.string y ∷ []) x.subscriber_name
    ++ layout_optional layout_objk_subscriber_binary_qos x.qos

abbrev pub IsValidObjkSubscriberBinary : ObjkSubscriberBinary → Type 0
IsValidObjkSubscriberBinary x =
    (Holds (λ y. length y < uxr_string_size_max) x.subscriber_name)
    × (Holds IsValidObjkSubscriberBinaryQos x.qos)
