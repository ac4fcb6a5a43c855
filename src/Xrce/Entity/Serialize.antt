-- ===== src/Xrce/Entity/Serialize.antt =====
-- xrce_types.c: the `uxr_serialize_` functions of the representations of entities.
use micro_xrce_dds_client.Xrce.Cdr.{Step, MicroCdr, ◌>>◌}
use micro_xrce_dds_client.Xrce.Basic.Serialize.{serialize_object_id}
use micro_xrce_dds_client.Xrce.Entity.{
  ObjkQosprofileRepresentation, ObjkTypeRepresentation, ObjkDomainRepresentation,
  ObjkApplicationRepresentation, ObjkPublisherRepresentation, ObjkSubscriberRepresentation,
  DatawriterRepresentation, DatareaderRepresentation, ObjkParticipantRepresentation,
  ObjkTopicRepresentation, ObjkRequesterRepresentation, ObjkReplierRepresentation,
}
use micro_xrce_dds_client.Xrce.Object.Serialize.{
  serialize_objk_representation_ref_and_xml_base, serialize_objk_representation_bin_and_xml_base,
  serialize_objk_representation3_base,
}

module _ {B : Type 0} ⦃cdr : MicroCdr B⦄ where
  unfoldable pub serialize_objk_qosprofile_representation :
      ObjkQosprofileRepresentation → Step B (Unit {0})
  serialize_objk_qosprofile_representation x = serialize_objk_representation_ref_and_xml_base x.base

  unfoldable pub serialize_objk_type_representation : ObjkTypeRepresentation → Step B (Unit {0})
  serialize_objk_type_representation x = serialize_objk_representation_ref_and_xml_base x.base

  unfoldable pub serialize_objk_domain_representation : ObjkDomainRepresentation → Step B (Unit {0})
  serialize_objk_domain_representation x = serialize_objk_representation_ref_and_xml_base x.base

  unfoldable pub serialize_objk_application_representation :
      ObjkApplicationRepresentation → Step B (Unit {0})
  serialize_objk_application_representation x =
      serialize_objk_representation_ref_and_xml_base x.base

  unfoldable pub serialize_objk_publisher_representation :
      ObjkPublisherRepresentation → Step B (Unit {0})
  serialize_objk_publisher_representation x = do
    serialize_objk_representation_bin_and_xml_base x.base
    serialize_object_id x.participant_id

  unfoldable pub serialize_objk_subscriber_representation :
      ObjkSubscriberRepresentation → Step B (Unit {0})
  serialize_objk_subscriber_representation x = do
    serialize_objk_representation_bin_and_xml_base x.base
    serialize_object_id x.participant_id

  unfoldable pub serialize_datawriter_representation : DatawriterRepresentation → Step B (Unit {0})
  serialize_datawriter_representation x = do
    serialize_objk_representation3_base x.base
    serialize_object_id x.publisher_id

  unfoldable pub serialize_datareader_representation : DatareaderRepresentation → Step B (Unit {0})
  serialize_datareader_representation x = do
    serialize_objk_representation3_base x.base
    serialize_object_id x.subscriber_id

  unfoldable pub serialize_objk_participant_representation :
      ObjkParticipantRepresentation → Step B (Unit {0})
  serialize_objk_participant_representation x = do
    serialize_objk_representation3_base x.base
    cdr.serialize_int16 x.domain_id

  unfoldable pub serialize_objk_topic_representation : ObjkTopicRepresentation → Step B (Unit {0})
  serialize_objk_topic_representation x = do
    serialize_objk_representation3_base x.base
    serialize_object_id x.participant_id

  unfoldable pub serialize_objk_requester_representation :
      ObjkRequesterRepresentation → Step B (Unit {0})
  serialize_objk_requester_representation x = do
    serialize_objk_representation3_base x.base
    serialize_object_id x.participant_id

  unfoldable pub serialize_objk_replier_representation :
      ObjkReplierRepresentation → Step B (Unit {0})
  serialize_objk_replier_representation x = do
    serialize_objk_representation3_base x.base
    serialize_object_id x.participant_id
