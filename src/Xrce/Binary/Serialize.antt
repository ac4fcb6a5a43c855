-- ===== src/Xrce/Binary/Serialize.antt =====
-- xrce_types.c: the `uxr_serialize_` functions of the binary representations of participants, topics, publishers and subscribers.
use micro_xrce_dds_client.Xrce.Cdr.{Step, MicroCdr, ◌>>◌, serialize_optional}
use micro_xrce_dds_client.Xrce.Basic.Serialize.{
  serialize_binary_sequence, serialize_string_sequence,
}
use micro_xrce_dds_client.Xrce.Binary.{
  ObjkDomainParticipantBinary, ObjkTopicBinary, ObjkPublisherBinaryQos, ObjkPublisherBinary,
  ObjkSubscriberBinaryQos, ObjkSubscriberBinary,
}

module _ {B : Type 0} ⦃cdr : MicroCdr B⦄ where
  unfoldable pub serialize_objk_domain_participant_binary :
      ObjkDomainParticipantBinary → Step B (Unit {0})
  serialize_objk_domain_participant_binary x = do
    serialize_optional cdr.serialize_string x.domain_reference
    serialize_optional cdr.serialize_string x.qos_profile_reference

  unfoldable pub serialize_objk_topic_binary : ObjkTopicBinary → Step B (Unit {0})
  serialize_objk_topic_binary x = do
    cdr.serialize_string x.topic_name
    serialize_optional cdr.serialize_string x.type_reference
    serialize_optional cdr.serialize_string x.type_name

  unfoldable pub serialize_objk_publisher_binary_qos : ObjkPublisherBinaryQos → Step B (Unit {0})
  serialize_objk_publisher_binary_qos x = do
    serialize_optional serialize_string_sequence x.partitions
    serialize_optional serialize_binary_sequence x.group_data

  unfoldable pub serialize_objk_publisher_binary : ObjkPublisherBinary → Step B (Unit {0})
  serialize_objk_publisher_binary x = do
    serialize_optional cdr.serialize_string x.publisher_name
    serialize_optional serialize_objk_publisher_binary_qos x.qos

  unfoldable pub serialize_objk_subscriber_binary_qos : ObjkSubscriberBinaryQos → Step B (Unit {0})
  serialize_objk_subscriber_binary_qos x = do
    serialize_optional serialize_string_sequence x.partitions
    serialize_optional serialize_binary_sequence x.group_data

  unfoldable pub serialize_objk_subscriber_binary : ObjkSubscriberBinary → Step B (Unit {0})
  serialize_objk_subscriber_binary x = do
    serialize_optional cdr.serialize_string x.subscriber_name
    serialize_optional serialize_objk_subscriber_binary_qos x.qos
