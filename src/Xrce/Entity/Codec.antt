-- ===== src/Xrce/Entity/Codec.antt =====
-- What is written for one of the representations of entities is its items, and these are read back as the value.
use micro_xrce_dds_client.Xrce.Cdr.{MicroCdr}
use micro_xrce_dds_client.Xrce.Cdr.Laws.{Laws, Codec}
use micro_xrce_dds_client.Xrce.Cdr.Rules.{Codec->>, Codec-last}
use micro_xrce_dds_client.Xrce.Basic.Codec.{object_id-Codec}
use micro_xrce_dds_client.Xrce.Entity.{
  ObjkQosprofileRepresentation, ObjkTypeRepresentation, ObjkDomainRepresentation,
  ObjkApplicationRepresentation, ObjkPublisherRepresentation, ObjkSubscriberRepresentation,
  DatawriterRepresentation, DatareaderRepresentation, ObjkParticipantRepresentation,
  ObjkTopicRepresentation, ObjkRequesterRepresentation, ObjkReplierRepresentation,
}
use micro_xrce_dds_client.Xrce.Entity.Deserialize.{
  deserialize_objk_qosprofile_representation, deserialize_objk_type_representation,
  deserialize_objk_domain_representation, deserialize_objk_application_representation,
  deserialize_objk_publisher_representation, deserialize_objk_subscriber_representation,
  deserialize_datawriter_representation, deserialize_datareader_representation,
  deserialize_objk_participant_representation, deserialize_objk_topic_representation,
  deserialize_objk_requester_representation, deserialize_objk_replier_representation,
}
use micro_xrce_dds_client.Xrce.Entity.Layout.{
  layout_objk_qosprofile_representation, layout_objk_type_representation,
  layout_objk_domain_representation, layout_objk_application_representation,
  layout_objk_publisher_representation, layout_objk_subscriber_representation,
  layout_datawriter_representation, layout_datareader_representation,
  layout_objk_participant_representation, layout_objk_topic_representation,
  layout_objk_requester_representation, layout_objk_replier_representation,
  IsValidObjkQosprofileRepresentation, IsValidObjkTypeRepresentation,
  IsValidObjkDomainRepresentation, IsValidObjkApplicationRepresentation,
  IsValidObjkPublisherRepresentation, IsValidObjkSubscriberRepresentation,
  IsValidDatawriterRepresentation, IsValidDatareaderRepresentation,
  IsValidObjkParticipantRepresentation, IsValidObjkTopicRepresentation,
  IsValidObjkRequesterRepresentation, IsValidObjkReplierRepresentation,
}
use micro_xrce_dds_client.Xrce.Entity.Serialize.{
  serialize_objk_qosprofile_representation, serialize_objk_type_representation,
  serialize_objk_domain_representation, serialize_objk_application_representation,
  serialize_objk_publisher_representation, serialize_objk_subscriber_representation,
  serialize_datawriter_representation, serialize_datareader_representation,
  serialize_objk_participant_representation, serialize_objk_topic_representation,
  serialize_objk_requester_representation, serialize_objk_replier_representation,
}
use micro_xrce_dds_client.Xrce.Object.Codec.{
  objk_representation_ref_and_xml_base-Codec, objk_representation_bin_and_xml_base-Codec,
  objk_representation3_base-Codec,
}

module _ {B : Type 0} ⦃cdr : MicroCdr B⦄ ⦃laws : Laws cdr⦄ where
  pub objk_qosprofile_representation-Codec :
      (x : ObjkQosprofileRepresentation)
      → IsValidObjkQosprofileRepresentation x
      → Codec laws.view
          (serialize_objk_qosprofile_representation x)
          deserialize_objk_qosprofile_representation
          (layout_objk_qosprofile_representation x)
          x
  unfolding serialize_objk_qosprofile_representation deserialize_objk_qosprofile_representation
      layout_objk_qosprofile_representation
  objk_qosprofile_representation-Codec x h1 =
      Codec-last _ (objk_representation_ref_and_xml_base-Codec x.base h1)

  pub objk_type_representation-Codec :
      (x : ObjkTypeRepresentation)
      → IsValidObjkTypeRepresentation x
      → Codec laws.view
          (serialize_objk_type_representation x)
          deserialize_objk_type_representation
          (layout_objk_type_representation x)
          x
  unfolding serialize_objk_type_representation deserialize_objk_type_representation
      layout_objk_type_representation
  objk_type_representation-Codec x h1 =
      Codec-last _ (objk_representation_ref_and_xml_base-Codec x.base h1)

  objk_domain_representation-Codec :
      (x : ObjkDomainRepresentation)
      → IsValidObjkDomainRepresentation x
      → Codec laws.view
          (serialize_objk_domain_representation x)
          deserialize_objk_domain_representation
          (layout_objk_domain_representation x)
          x
  unfolding serialize_objk_domain_representation deserialize_objk_domain_representation
      layout_objk_domain_representation
  objk_domain_representation-Codec x h1 =
      Codec-last _ (objk_representation_ref_and_xml_base-Codec x.base h1)

  pub objk_application_representation-Codec :
      (x : ObjkApplicationRepresentation)
      → IsValidObjkApplicationRepresentation x
      → Codec laws.view
          (serialize_objk_application_representation x)
          deserialize_objk_application_representation
          (layout_objk_application_representation x)
          x
  unfolding serialize_objk_application_representation deserialize_objk_application_representation
      layout_objk_application_representation
  objk_application_representation-Codec x h1 =
      Codec-last _ (objk_representation_ref_and_xml_base-Codec x.base h1)

  pub objk_publisher_representation-Codec :
      (x : ObjkPublisherRepresentation)
      → IsValidObjkPublisherRepresentation x
      → Codec laws.view
          (serialize_objk_publisher_representation x)
          deserialize_objk_publisher_representation
          (layout_objk_publisher_representation x)
          x
  unfolding serialize_objk_publisher_representation deserialize_objk_publisher_representation
      layout_objk_publisher_representation
  objk_publisher_representation-Codec x (h1, h2) =
      Codec->> _ (objk_representation_bin_and_xml_base-Codec x.base h1)
        (Codec-last _ (object_id-Codec x.participant_id h2))

  pub objk_subscriber_representation-Codec :
      (x : ObjkSubscriberRepresentation)
      → IsValidObjkSubscriberRepresentation x
      → Codec laws.view
          (serialize_objk_subscriber_representation x)
          deserialize_objk_subscriber_representation
          (layout_objk_subscriber_representation x)
          x
  unfolding serialize_objk_subscriber_representation deserialize_objk_subscriber_representation
      layout_objk_subscriber_representation
  objk_subscriber_representation-Codec x (h1, h2) =
      Codec->> _ (objk_representation_bin_and_xml_base-Codec x.base h1)
        (Codec-last _ (object_id-Codec x.participant_id h2))

  pub datawriter_representation-Codec :
      (x : DatawriterRepresentation)
      → IsValidDatawriterRepresentation x
      → Codec laws.view
          (serialize_datawriter_representation x)
          deserialize_datawriter_representation
          (layout_datawriter_representation x)
          x
  unfolding serialize_datawriter_representation deserialize_datawriter_representation
      layout_datawriter_representation
  datawriter_representation-Codec x (h1, h2) =
      Codec->> _ (objk_representation3_base-Codec x.base h1)
        (Codec-last _ (object_id-Codec x.publisher_id h2))

  pub datareader_representation-Codec :
      (x : DatareaderRepresentation)
      → IsValidDatareaderRepresentation x
      → Codec laws.view
          (serialize_datareader_representation x)
          deserialize_datareader_representation
          (layout_datareader_representation x)
          x
  unfolding serialize_datareader_representation deserialize_datareader_representation
      layout_datareader_representation
  datareader_representation-Codec x (h1, h2) =
      Codec->> _ (objk_representation3_base-Codec x.base h1)
        (Codec-last _ (object_id-Codec x.subscriber_id h2))

  pub objk_participant_representation-Codec :
      (x : ObjkParticipantRepresentation)
      → IsValidObjkParticipantRepresentation x
      → Codec laws.view
          (serialize_objk_participant_representation x)
          deserialize_objk_participant_representation
          (layout_objk_participant_representation x)
          x
  unfolding serialize_objk_participant_representation deserialize_objk_participant_representation
      layout_objk_participant_representation
  objk_participant_representation-Codec x h1 =
      Codec->> _ (objk_representation3_base-Codec x.base h1)
        (Codec-last _ (laws.codec_int16 x.domain_id))

  pub objk_topic_representation-Codec :
      (x : ObjkTopicRepresentation)
      → IsValidObjkTopicRepresentation x
      → Codec laws.view
          (serialize_objk_topic_representation x)
          deserialize_objk_topic_representation
          (layout_objk_topic_representation x)
          x
  unfolding serialize_objk_topic_representation deserialize_objk_topic_representation
      layout_objk_topic_representation
  objk_topic_representation-Codec x (h1, h2) =
      Codec->> _ (objk_representation3_base-Codec x.base h1)
        (Codec-last _ (object_id-Codec x.participant_id h2))

  pub objk_requester_representation-Codec :
      (x : ObjkRequesterRepresentation)
      → IsValidObjkRequesterRepresentation x
      → Codec laws.view
          (serialize_objk_requester_representation x)
          deserialize_objk_requester_representation
          (layout_objk_requester_representation x)
          x
  unfolding serialize_objk_requester_representation deserialize_objk_requester_representation
      layout_objk_requester_representation
  objk_requester_representation-Codec x (h1, h2) =
      Codec->> _ (objk_representation3_base-Codec x.base h1)
        (Codec-last _ (object_id-Codec x.participant_id h2))

  pub objk_replier_representation-Codec :
      (x : ObjkReplierRepresentation)
      → IsValidObjkReplierRepresentation x
      → Codec laws.view
          (serialize_objk_replier_representation x)
          deserialize_objk_replier_representation
          (layout_objk_replier_representation x)
          x
  unfolding serialize_objk_replier_representation deserialize_objk_replier_representation
      layout_objk_replier_representation
  objk_replier_representation-Codec x (h1, h2) =
      Codec->> _ (objk_representation3_base-Codec x.base h1)
        (Codec-last _ (object_id-Codec x.participant_id h2))
