-- ===== src/Xrce/Locator/Codec.antt =====
-- What is written for one of the transport locators and properties is its items, and these are read back as the value.
use micro_xrce_dds_client.Xrce.Cdr.{MicroCdr}
use micro_xrce_dds_client.Xrce.Cdr.Laws.{Laws, Codec}
use micro_xrce_dds_client.Xrce.Cdr.Rules.{
  Codec-pure, Codec->>, Codec-last, Codec-case, Codec-else, sequence-Codec,
}
use micro_xrce_dds_client.Xrce.Basic.{uxr_string_size_max}
use micro_xrce_dds_client.Xrce.Locator.{
  TransportLocatorSmall, TransportLocatorMedium, TransportLocatorLarge, TransportLocatorString,
  TransportLocator, TransportLocatorSeq, Property, PropertySeq,
}
use micro_xrce_dds_client.Xrce.Locator.Deserialize.{
  deserialize_transport_locator_small, deserialize_transport_locator_medium,
  deserialize_transport_locator_large, deserialize_transport_locator_string,
  deserialize_transport_locator, deserialize_transport_locator_seq, deserialize_property,
  deserialize_property_seq,
}
use micro_xrce_dds_client.Xrce.Locator.Layout.{
  layout_transport_locator_small, layout_transport_locator_medium, layout_transport_locator_large,
  layout_transport_locator_string, layout_transport_locator, layout_transport_locator_seq,
  layout_property, layout_property_seq, IsValidTransportLocatorSmall, IsValidTransportLocatorMedium,
  IsValidTransportLocatorLarge, IsValidTransportLocatorString, IsValidTransportLocator,
  IsValidTransportLocatorSeq, IsValidProperty, IsValidPropertySeq,
}
use micro_xrce_dds_client.Xrce.Locator.Serialize.{
  serialize_transport_locator_small, serialize_transport_locator_medium,
  serialize_transport_locator_large, serialize_transport_locator_string,
  serialize_transport_locator, serialize_transport_locator_seq, serialize_property,
  serialize_property_seq,
}

module _ {B : Type 0} ⦃cdr : MicroCdr B⦄ ⦃laws : Laws cdr⦄ where
  transport_locator_small-Codec :
      (x : TransportLocatorSmall)
      → IsValidTransportLocatorSmall x
      → Codec laws.view
          (serialize_transport_locator_small x)
          deserialize_transport_locator_small
          (layout_transport_locator_small x)
          x
  unfolding serialize_transport_locator_small deserialize_transport_locator_small
      layout_transport_locator_small
  transport_locator_small-Codec x h1 =
      Codec->> _ (laws.codec_array 2 x.address h1) (Codec-last _ (laws.codec_uint8 x.locator_port))

  transport_locator_medium-Codec :
      (x : TransportLocatorMedium)
      → IsValidTransportLocatorMedium x
      → Codec laws.view
          (serialize_transport_locator_medium x)
          deserialize_transport_locator_medium
          (layout_transport_locator_medium x)
          x
  unfolding serialize_transport_locator_medium deserialize_transport_locator_medium
      layout_transport_locator_medium
  transport_locator_medium-Codec x h1 =
      Codec->> _ (laws.codec_array 4 x.address h1) (Codec-last _ (laws.codec_uint16 x.locator_port))

  transport_locator_large-Codec :
      (x : TransportLocatorLarge)
      → IsValidTransportLocatorLarge x
      → Codec laws.view
          (serialize_transport_locator_large x)
          deserialize_transport_locator_large
          (layout_transport_locator_large x)
          x
  unfolding serialize_transport_locator_large deserialize_transport_locator_large
      layout_transport_locator_large
  transport_locator_large-Codec x h1 =
      Codec->> _ (laws.codec_array 16 x.address h1)
        (Codec-last _ (laws.codec_uint32 x.locator_port))

  transport_locator_string-Codec :
      (x : TransportLocatorString)
      → IsValidTransportLocatorString x
      → Codec laws.view
          (serialize_transport_locator_string x)
          deserialize_transport_locator_string
          (layout_transport_locator_string x)
          x
  unfolding serialize_transport_locator_string deserialize_transport_locator_string
      layout_transport_locator_string
  transport_locator_string-Codec x h1 =
      Codec-last _ (laws.codec_string uxr_string_size_max x.value h1)

  transport_locator-Codec :
      (x : TransportLocator)
      → IsValidTransportLocator x
      → Codec laws.view
          (serialize_transport_locator x)
          deserialize_transport_locator
          (layout_transport_locator x)
          x
  unfolding serialize_transport_locator deserialize_transport_locator layout_transport_locator
  transport_locator-Codec (TransportLocator.small_locator x) h =
      Codec-case _ _ (laws.codec_uint8 _) (Codec-last _ (transport_locator_small-Codec x h))
  transport_locator-Codec (TransportLocator.medium_locator x) h =
      Codec-case _ _ (laws.codec_uint8 _) (Codec-last _ (transport_locator_medium-Codec x h))
  transport_locator-Codec (TransportLocator.large_locator x) h =
      Codec-case _ _ (laws.codec_uint8 _) (Codec-last _ (transport_locator_large-Codec x h))
  transport_locator-Codec (TransportLocator.string_locator x) h =
      Codec-case _ _ (laws.codec_uint8 _) (Codec-last _ (transport_locator_string-Codec x h))
  transport_locator-Codec (TransportLocator.other x) (h1, h2, h3, h4) =
      Codec-case _ _ (laws.codec_uint8 x)
        (Codec-else _ _ h1 (Codec-else _ _ h2 (Codec-else _ _ h3 (Codec-else _ _ h4 Codec-pure))))

  pub transport_locator_seq-Codec :
      (x : TransportLocatorSeq)
      → IsValidTransportLocatorSeq x
      → Codec laws.view
          (serialize_transport_locator_seq x)
          deserialize_transport_locator_seq
          (layout_transport_locator_seq x)
          x
  unfolding serialize_transport_locator_seq deserialize_transport_locator_seq
      layout_transport_locator_seq
  transport_locator_seq-Codec x (h, all) =
      sequence-Codec _ _ _ _ x h all (λ a h1. transport_locator-Codec a h1)

  property-Codec :
      (x : Property)
      → IsValidProperty x
      → Codec laws.view (serialize_property x) deserialize_property (layout_property x) x
  unfolding serialize_property deserialize_property layout_property
  property-Codec x (h1, h2) =
      Codec->> _ (laws.codec_string uxr_string_size_max x.name h1)
        (Codec-last _ (laws.codec_string uxr_string_size_max x.value h2))

  pub property_seq-Codec :
      (x : PropertySeq)
      → IsValidPropertySeq x
      → Codec laws.view
          (serialize_property_seq x)
          deserialize_property_seq
          (layout_property_seq x)
          x
  unfolding serialize_property_seq deserialize_property_seq layout_property_seq
  property_seq-Codec x (h, all) = sequence-Codec _ _ _ _ x h all (λ a h1. property-Codec a h1)
