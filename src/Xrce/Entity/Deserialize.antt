-- ===== src/Xrce/Entity/Deserialize.antt =====
-- xrce_types.c: the `uxr_deserialize_` functions of the representations of entities.
use micro_xrce_dds_client.Xrce.Cdr.{Step, MicroCdr, pure, ◌>>=◌}
use micro_xrce_dds_client.Xrce.Basic.Deserialize.{deserialize_object_id}
use micro_xrce_dds_client.Xrce.Entity.{
  ObjkQosprofileRepresentation, ObjkTypeRepresentation, ObjkDomainRepresentation,
  ObjkApplicationRepresentation, ObjkPublisherRepresentation, ObjkSubscriberRepresentation,
  DatawriterRepresentation, DatareaderRepresentation, ObjkParticipantRepresentation,
  ObjkTopicRepresentation, ObjkRequesterRepresentation, ObjkReplierRepresentation,
}
use micro_xrce_dds_client.Xrce.Object.Deserialize.{
  deserialize_objk_representation_ref_and_xml_base,
  deserialize_objk_representation_bin_and_xml_base, deserialize_objk_representation3_base,
}

module _ {B : Type 0} ⦃cdr : MicroCdr B⦄ where
  unfoldable pub deserialize_objk_qosprofile_representation : Step B ObjkQosprofileRepresentation
  deserialize_objk_qosprofile_representation = do
    pure (record { base = (← deserialize_objk_representation_ref_and_xml_base) })

  unfoldable pub deserialize_objk_type_representation : Step B ObjkTypeRepresentation
  deserialize_objk_type_representation = do
    pure (record { base = (← deserialize_objk_representation_ref_and_xml_base) })

  unfoldable pub deserialize_objk_domain_representation : Step B ObjkDomainRepresentation
  deserialize_objk_domain_representation = do
    pure (record { base = (← deserialize_objk_representation_ref_and_xml_base) })

  unfoldable pub deserialize_objk_application_representation : Step B ObjkApplicationRepresentation
  deserialize_objk_application_representation = do
    pure (record { base = (← deserialize_objk_representation_ref_and_xml_base) })

  unfoldable pub deserialize_objk_publisher_representation : Step B ObjkPublisherRepresentation
  deserialize_objk_publisher_representation = do
    pure (record {
      base = (← deserialize_objk_representation_bin_and_xml_base);
      participant_id = (← deserialize_object_id);
    })

  unfoldable pub deserialize_objk_subscriber_representation : Step B ObjkSubscriberRepresentation
  deserialize_objk_subscriber_representation = do
    pure (record {
      base = (← deserialize_objk_representation_bin_and_xml_base);
      participant_id = (← deserialize_object_id);
    })

  unfoldable pub deserialize_datawriter_representation : Step B DatawriterRepresentation
  deserialize_datawriter_representation = do
    pure (record {
      base = (← deserialize_objk_representation3_base);
      publisher_id = (← deserialize_object_id);
    })

  unfoldable pub deserialize_datareader_representation : Step B DatareaderRepresentation
  deserialize_datareader_representation = do
    pure (record {
      base = (← deserialize_objk_representation3_base);
      subscriber_id = (← deserialize_object_id);
    })

  unfoldable pub deserialize_objk_participant_representation : Step B ObjkParticipantRepresentation
  deserialize_objk_participant_representation = do
    pure (record {
      base = (← deserialize_objk_representation3_base);
      domain_id = (← cdr.deserialize_int16);
    })

  unfoldable pub deserialize_objk_topic_representation : Step B ObjkTopicRepresentation
  deserialize_objk_topic_representation = do
    pure (record {
      base = (← deserialize_objk_representation3_base);
      participant_id = (← deserialize_object_id);
    })

  unfoldable pub deserialize_objk_requester_representation : Step B ObjkRequesterRepresentation
  deserialize_objk_requester_representation = do
    pure (record {
      base = (← deserialize_objk_representation3_base);
      participant_id = (← deserialize_object_id);
    })

  unfoldable pub deserialize_objk_replier_representation : Step B ObjkReplierRepresentation
  deserialize_objk_replier_representation = do
    pure (record {
      base = (← deserialize_objk_representation3_base);
      participant_id = (← deserialize_object_id);
    })
