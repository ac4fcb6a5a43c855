-- ===== src/Xrce/Entity/Layout.antt =====
-- The items that stand for the representations of entities, and the bounds that a value meets to be read back.
use micro_xrce_dds_client.Prelude.{◌++◌, ◌∷◌, [], List}
use micro_xrce_dds_client.Xrce.Cdr.Laws.{Item}
use micro_xrce_dds_client.Xrce.Basic.Layout.{layout_object_id, IsValidObjectId}
use micro_xrce_dds_client.Xrce.Entity.{
  ObjkQosprofileRepresentation, ObjkTypeRepresentation, ObjkDomainRepresentation,
  ObjkApplicationRepresentation, ObjkPublisherRepresentation, ObjkSubscriberRepresentation,
  DatawriterRepresentation, DatareaderRepresentation, ObjkParticipantRepresentation,
  ObjkTopicRepresentation, ObjkRequesterRepresentation, ObjkReplierRepresentation,
}
use micro_xrce_dds_client.Xrce.Object.Layout.{
  layout_objk_representation_ref_and_xml_base, layout_objk_representation_bin_and_xml_base,
  layout_objk_representation3_base, IsValidObjkRepresentationRefAndXmlBase,
  IsValidObjkRepresentationBinAndXmlBase, IsValidObjkRepresentation3Base,
}

unfoldable pub layout_objk_qosprofile_representation : ObjkQosprofileRepresentation → List Item
layout_objk_qosprofile_representation x = layout_objk_representation_ref_and_xml_base x.base

abbrev pub IsValidObjkQosprofileRepresentation : ObjkQosprofileRepresentation → Type 0
IsValidObjkQosprofileRepresentation x = IsValidObjkRepresentationRefAndXmlBase x.base

unfoldable pub layout_objk_type_representation : ObjkTypeRepresentation → List Item
layout_objk_type_representation x = layout_objk_representation_ref_and_xml_base x.base

abbrev pub IsValidObjkTypeRepresentation : ObjkTypeRepresentation → Type 0
IsValidObjkTypeRepresentation x = IsValidObjkRepresentationRefAndXmlBase x.base

unfoldable pub layout_objk_domain_representation : ObjkDomainRepresentation → List Item
layout_objk_domain_representation x = layout_objk_representation_ref_and_xml_base x.base

abbrev pub IsValidObjkDomainRepresentation : ObjkDomainRepresentation → Type 0
IsValidObjkDomainRepresentation x = IsValidObjkRepresentationRefAndXmlBase x.base

unfoldable pub layout_objk_application_representation : ObjkApplicationRepresentation → List Item
layout_objk_application_representation x = layout_objk_representation_ref_and_xml_base x.base

abbrev pub IsValidObjkApplicationRepresentation : ObjkApplicationRepresentation → Type 0
IsValidObjkApplicationRepresentation x = IsValidObjkRepresentationRefAndXmlBase x.base

unfoldable pub layout_objk_publisher_representation : ObjkPublisherRepresentation → List Item
layout_objk_publisher_representation x =
    layout_objk_representation_bin_and_xml_base x.base ++ layout_object_id x.participant_id

abbrev pub IsValidObjkPublisherRepresentation : ObjkPublisherRepresentation → Type 0
IsValidObjkPublisherRepresentation x =
    (IsValidObjkRepresentationBinAndXmlBase x.base) × (IsValidObjectId x.participant_id)

unfoldable pub layout_objk_subscriber_representation : ObjkSubscriberRepresentation → List Item
layout_objk_subscriber_representation x =
    layout_objk_representation_bin_and_xml_base x.base ++ layout_object_id x.participant_id

abbrev pub IsValidObjkSubscriberRepresentation : ObjkSubscriberRepresentation → Type 0
IsValidObjkSubscriberRepresentation x =
    (IsValidObjkRepresentationBinAndXmlBase x.base) × (IsValidObjectId x.participant_id)

unfoldable pub layout_datawriter_representation : DatawriterRepresentation → List Item
layout_datawriter_representation x =
    layout_objk_representation3_base x.base ++ layout_object_id x.publisher_id

abbrev pub IsValidDatawriterRepresentation : DatawriterRepresentation → Type 0
IsValidDatawriterRepresentation x =
    (IsValidObjkRepresentation3Base x.base) × (IsValidObjectId x.publisher_id)

unfoldable pub layout_datareader_representation : DatareaderRepresentation → List Item
layout_datareader_representation x =
    layout_objk_representation3_base x.base ++ layout_object_id x.subscriber_id

abbrev pub IsValidDatareaderRepresentation : DatareaderRepresentation → Type 0
IsValidDatareaderRepresentation x =
    (IsValidObjkRepresentation3Base x.base) × (IsValidObjectId x.subscriber_id)

unfoldable pub layout_objk_participant_representation : ObjkParticipantRepresentation → List Item
layout_objk_participant_representation x =
    layout_objk_representation3_base x.base ++ Item.int16 x.domain_id ∷ []

abbrev pub IsValidObjkParticipantRepresentation : ObjkParticipantRepresentation → Type 0
IsValidObjkParticipantRepresentation x = IsValidObjkRepresentation3Base x.base

unfoldable pub layout_objk_topic_representation : ObjkTopicRepresentation → List Item
layout_objk_topic_representation x =
    layout_objk_representation3_base x.base ++ layout_object_id x.participant_id

abbrev pub IsValidObjkTopicRepresentation : ObjkTopicRepresentation → Type 0
IsValidObjkTopicRepresentation x =
    (IsValidObjkRepresentation3Base x.base) × (IsValidObjectId x.participant_id)

unfoldable pub layout_objk_requester_representation : ObjkRequesterRepresentation → List Item
layout_objk_requester_representation x =
    layout_objk_representation3_base x.base ++ layout_object_id x.participant_id

abbrev pub IsValidObjkRequesterRepresentation : ObjkRequesterRepresentation → Type 0
IsValidObjkRequesterRepresentation x =
    (IsValidObjkRepresentation3Base x.base) × (IsValidObjectId x.participant_id)

unfoldable pub layout_objk_replier_representation : ObjkReplierRepresentation → List Item
layout_objk_replier_representation x =
    layout_objk_representation3_base x.base ++ layout_object_id x.participant_id

abbrev pub IsValidObjkReplierRepresentation : ObjkReplierRepresentation → Type 0
IsValidObjkReplierRepresentation x =
    (IsValidObjkRepresentation3Base x.base) × (IsValidObjectId x.participant_id)
