-- ===== src/Xrce/Binary/Codec.antt =====
-- What is written for one of the binary representations of participants, topics, publishers and subscribers is its items, and these are read back as the value.
use micro_xrce_dds_client.Prelude.{◌∷◌, []}
use micro_xrce_dds_client.Xrce.Cdr.{MicroCdr}
use micro_xrce_dds_client.Xrce.Cdr.Laws.{Item, Laws, Codec}
use micro_xrce_dds_client.Xrce.Cdr.Rules.{Codec->>, Codec-last, optional-Codec}
use micro_xrce_dds_client.Xrce.Basic.{uxr_string_size_max}
use micro_xrce_dds_client.Xrce.Basic.Codec.{binary_sequence-Codec, string_sequence-Codec}
use micro_xrce_dds_client.Xrce.Basic.Deserialize.{
  deserialize_binary_sequence, deserialize_string_sequence,
}
use micro_xrce_dds_client.Xrce.Basic.Layout.{layout_binary_sequence, layout_string_sequence}
use micro_xrce_dds_client.Xrce.Basic.Serialize.{
  serialize_binary_sequence, serialize_string_sequence,
}
use micro_xrce_dds_client.Xrce.Binary.{
  ObjkDomainParticipantBinary, ObjkTopicBinary, ObjkPublisherBinaryQos, ObjkPublisherBinary,
  ObjkSubscriberBinaryQos, ObjkSubscriberBinary,
}
use micro_xrce_dds_client.Xrce.Binary.Deserialize.{
  deserialize_objk_domain_participant_binary, deserialize_objk_topic_binary,
  deserialize_objk_publisher_binary_qos, deserialize_objk_publisher_binary,
  deserialize_objk_subscriber_binary_qos, deserialize_objk_subscriber_binary,
}
use micro_xrce_dds_client.Xrce.Binary.Layout.{
  layout_objk_domain_participant_binary, layout_objk_topic_binary, layout_objk_publisher_binary_qos,
  layout_objk_publisher_binary, layout_objk_subscriber_binary_qos, layout_objk_subscriber_binary,
  IsValidObjkDomainParticipantBinary, IsValidObjkTopicBinary, IsValidObjkPublisherBinaryQos,
  IsValidObjkPublisherBinary, IsValidObjkSubscriberBinaryQos, IsValidObjkSubscriberBinary,
}
use micro_xrce_dds_client.Xrce.Binary.Serialize.{
  serialize_objk_domain_participant_binary, serialize_objk_topic_binary,
  serialize_objk_publisher_binary_qos, serialize_objk_publisher_binary,
  serialize_objk_subscriber_binary_qos, serialize_objk_subscriber_binary,
}

module _ {B : Type 0} ⦃cdr : MicroCdr B⦄ ⦃laws : Laws cdr⦄ where
  objk_domain_participant_binary-Codec :
      (x : ObjkDomainParticipantBinary)
      → IsValidObjkDomainParticipantBinary x
      → Codec laws.view
          (serialize_objk_domain_participant_binary x)
          deserialize_objk_domain_participant_binary
          (layout_objk_domain_participant_binary x)
          x
  unfolding serialize_objk_domain_participant_binary deserialize_objk_domain_participant_binary
      layout_objk_domain_participant_binary
  objk_domain_participant_binary-Codec x (h1, h2) =
      Codec->> _
        (optional-Codec cdr.serialize_string (cdr.deserialize_string uxr_string_size_max)
          (λ y. Item.string y ∷ []) x.domain_reference h1
          (λ a h. laws.codec_string uxr_string_size_max a h))
        (Codec-last _ (
          optional-Codec cdr.serialize_string (cdr.deserialize_string uxr_string_size_max)
            (λ y. Item.string y ∷ []) x.qos_profile_reference h2
            (λ a h. laws.codec_string uxr_string_size_max a h)))

  objk_topic_binary-Codec :
      (x : ObjkTopicBinary)
      → IsValidObjkTopicBinary x
      → Codec laws.view
          (serialize_objk_topic_binary x)
          deserialize_objk_topic_binary
          (layout_objk_topic_binary x)
          x
  unfolding serialize_objk_topic_binary deserialize_objk_topic_binary layout_objk_topic_binary
  objk_topic_binary-Codec x (h1, h2, h3) =
      Codec->> _ (laws.codec_string uxr_string_size_max x.topic_name h1) (
        Codec->> _
          (optional-Codec cdr.serialize_string (cdr.deserialize_string uxr_string_size_max)
            (λ y. Item.string y ∷ []) x.type_reference h2
            (λ a h. laws.codec_string uxr_string_size_max a h))
          (Codec-last _ (
            optional-Codec cdr.serialize_string (cdr.deserialize_string uxr_string_size_max)
              (λ y. Item.string y ∷ []) x.type_name h3
              (λ a h. laws.codec_string uxr_string_size_max a h))))

  objk_publisher_binary_qos-Codec :
      (x : ObjkPublisherBinaryQos)
      → IsValidObjkPublisherBinaryQos x
      → Codec laws.view
          (serialize_objk_publisher_binary_qos x)
          deserialize_objk_publisher_binary_qos
          (layout_objk_publisher_binary_qos x)
          x
  unfolding serialize_objk_publisher_binary_qos deserialize_objk_publisher_binary_qos
      layout_objk_publisher_binary_qos
  objk_publisher_binary_qos-Codec x (h1, h2) =
      Codec->> _
        (optional-Codec serialize_string_sequence deserialize_string_sequence layout_string_sequence
          x.partitions h1 (λ a h. string_sequence-Codec a h))
        (Codec-last _ (
          optional-Codec serialize_binary_sequence deserialize_binary_sequence
            layout_binary_sequence x.group_data h2 (λ a h. binary_sequence-Codec a h)))

  objk_publisher_binary-Codec :
      (x : ObjkPublisherBinary)
      → IsValidObjkPublisherBinary x
      → Codec laws.view
          (serialize_objk_publisher_binary x)
          deserialize_objk_publisher_binary
          (layout_objk_publisher_binary x)
          x
  unfolding serialize_objk_publisher_binary deserialize_objk_publisher_binary
      layout_objk_publisher_binary
  objk_publisher_binary-Codec x (h1, h2) =
      Codec->> _
        (optional-Codec cdr.serialize_string (cdr.deserialize_string uxr_string_size_max)
          (λ y. Item.string y ∷ []) x.publisher_name h1
          (λ a h. laws.codec_string uxr_string_size_max a h))
        (Codec-last _ (
          optional-Codec serialize_objk_publisher_binary_qos deserialize_objk_publisher_binary_qos
            layout_objk_publisher_binary_qos x.qos h2 (λ a h. objk_publisher_binary_qos-Codec a h)))

  objk_subscriber_binary_qos-Codec :
      (x : ObjkSubscriberBinaryQos)
      → IsValidObjkSubscriberBinaryQos x
      → Codec laws.view
          (serialize_objk_subscriber_binary_qos x)
          deserialize_objk_subscriber_binary_qos
          (layout_objk_subscriber_binary_qos x)
          x
  unfolding serialize_objk_subscriber_binary_qos deserialize_objk_subscriber_binary_qos
      layout_objk_subscriber_binary_qos
  objk_subscriber_binary_qos-Codec x (h1, h2) =
      Codec->> _
        (optional-Codec serialize_string_sequence deserialize_string_sequence layout_string_sequence
          x.partitions h1 (λ a h. string_sequence-Codec a h))
        (Codec-last _ (
          optional-Codec serialize_binary_sequence deserialize_binary_sequence
            layout_binary_sequence x.group_data h2 (λ a h. binary_sequence-Codec a h)))

  objk_subscriber_binary-Codec :
      (x : ObjkSubscriberBinary)
      → IsValidObjkSubscriberBinary x
      → Codec laws.view
          (serialize_objk_subscriber_binary x)
          deserialize_objk_subscriber_binary
          (layout_objk_subscriber_binary x)
          x
  unfolding serialize_objk_subscriber_binary deserialize_objk_subscriber_binary
      layout_objk_subscriber_binary
  objk_subscriber_binary-Codec x (h1, h2) =
      Codec->> _
        (optional-Codec cdr.serialize_string (cdr.deserialize_string uxr_string_size_max)
          (λ y. Item.string y ∷ []) x.subscriber_name h1
          (λ a h. laws.codec_string uxr_string_size_max a h))
        (Codec-last _ (
          optional-Codec serialize_objk_subscriber_binary_qos deserialize_objk_subscriber_binary_qos
            layout_objk_subscriber_binary_qos x.qos h2
            (λ a h. objk_subscriber_binary_qos-Codec a h)))
