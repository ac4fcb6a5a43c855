-- ===== src/Xrce/Binary/Deserialize.antt =====
-- xrce_types.c: the `uxr_deserialize_` functions of the binary representations of participants, topics, publishers and subscribers.
use micro_xrce_dds_client.Xrce.Cdr.{Step, MicroCdr, pure, ◌>>=◌, deserialize_optional}
use micro_xrce_dds_client.Xrce.Basic.{uxr_string_size_max}
use micro_xrce_dds_client.Xrce.Basic.Deserialize.{
  deserialize_binary_sequence, deserialize_string_sequence,
}
use micro_xrce_dds_client.Xrce.Binary.{
  ObjkDomainParticipantBinary, ObjkTopicBinary, ObjkPublisherBinaryQos, ObjkPublisherBinary,
  ObjkSubscriberBinaryQos, ObjkSubscriberBinary,
}

module _ {B : Type 0} ⦃cdr : MicroCdr B⦄ where
  unfoldable pub deserialize_objk_domain_participant_binary : Step B ObjkDomainParticipantBinary
  deserialize_objk_domain_participant_binary = do
    pure (record {
      domain_reference = (← deserialize_optional (cdr.deserialize_string uxr_string_size_max));
      qos_profile_reference = (← deserialize_optional (cdr.deserialize_string uxr_string_size_max));
    })

  unfoldable pub deserialize_objk_topic_binary : Step B ObjkTopicBinary
  deserialize_objk_topic_binary = do
    pure (record {
      topic_name = (← cdr.deserialize_string uxr_string_size_max);
      type_reference = (← deserialize_optional (cdr.deserialize_string uxr_string_size_max));
      type_name = (← deserialize_optional (cdr.deserialize_string uxr_string_size_max));
    })

  unfoldable pub deserialize_objk_publisher_binary_qos : Step B ObjkPublisherBinaryQos
  deserialize_objk_publisher_binary_qos = do
    pure (record {
      partitions = (← deserialize_optional deserialize_string_sequence);
      group_data = (← deserialize_optional deserialize_binary_sequence);
    })

  unfoldable pub deserialize_objk_publisher_binary : Step B ObjkPublisherBinary
  deserialize_objk_publisher_binary = do
    pure (record {
      publisher_name = (← deserialize_optional (cdr.deserialize_string uxr_string_size_max));
      qos = (← deserialize_optional deserialize_objk_publisher_binary_qos);
    })

  unfoldable pub deserialize_objk_subscriber_binary_qos : Step B ObjkSubscriberBinaryQos
  deserialize_objk_subscriber_binary_qos = do
    pure (record {
      partitions = (← deserialize_optional deserialize_string_sequence);
      group_data = (← deserialize_optional deserialize_binary_sequence);
    })

  unfoldable pub deserialize_objk_subscriber_binary : Step B ObjkSubscriberBinary
  deserialize_objk_subscriber_binary = do
    pure (record {
      subscriber_name = (← deserialize_optional (cdr.deserialize_string uxr_string_size_max));
      qos = (← deserialize_optional deserialize_objk_subscriber_binary_qos);
    })
