-- ===== src/Xrce/Locator/Deserialize.antt =====
-- xrce_types.c: the `uxr_deserialize_` functions of the transport locators and properties.
use micro_xrce_dds_client.Prelude.{if◌then◌else◌, ◌==◌}
use micro_xrce_dds_client.Xrce.Cdr.{Step, MicroCdr, pure, ◌>>=◌, if_ok, deserialize_sequence}
use micro_xrce_dds_client.Xrce.Basic.{uxr_string_size_max}
use micro_xrce_dds_client.Xrce.Locator.{
  address_format_small, address_format_medium, address_format_large, address_format_string,
  uxr_transport_locator_sequence_max, uxr_property_sequence_max, TransportLocatorSmall,
  TransportLocatorMedium, TransportLocatorLarge, TransportLocatorString, TransportLocator,
  TransportLocatorSeq, Property, PropertySeq,
}

module _ {B : Type 0} ⦃cdr : MicroCdr B⦄ where
  unfoldable pub deserialize_transport_locator_small : Step B TransportLocatorSmall
  deserialize_transport_locator_small = do
    pure (record {
      address = (← cdr.deserialize_array_uint8 2);
      locator_port = (← cdr.deserialize_uint8);
    })

  unfoldable pub deserialize_transport_locator_medium : Step B TransportLocatorMedium
  deserialize_transport_locator_medium = do
    pure (record {
      address = (← cdr.deserialize_array_uint8 4);
      locator_port = (← cdr.deserialize_uint16);
    })

  unfoldable pub deserialize_transport_locator_large : Step B TransportLocatorLarge
  deserialize_transport_locator_large = do
    pure (record {
      address = (← cdr.deserialize_array_uint8 16);
      locator_port = (← cdr.deserialize_uint32);
    })

  unfoldable pub deserialize_transport_locator_string : Step B TransportLocatorString
  deserialize_transport_locator_string = do
    pure (record { value = (← cdr.deserialize_string uxr_string_size_max) })

  unfoldable pub deserialize_transport_locator : Step B TransportLocator
  deserialize_transport_locator = if_ok cdr.deserialize_uint8 TransportLocator.other λ format.
      if format == address_format_small
      then (do pure (TransportLocator.small_locator (← deserialize_transport_locator_small)))
      else if format == address_format_medium
      then (do pure (TransportLocator.medium_locator (← deserialize_transport_locator_medium)))
      else if format == address_format_large
      then (do pure (TransportLocator.large_locator (← deserialize_transport_locator_large)))
      else if format == address_format_string
      then (do pure (TransportLocator.string_locator (← deserialize_transport_locator_string)))
      else pure (TransportLocator.other format)

  unfoldable pub deserialize_transport_locator_seq : Step B TransportLocatorSeq
  deserialize_transport_locator_seq =
      deserialize_sequence uxr_transport_locator_sequence_max deserialize_transport_locator

  unfoldable pub deserialize_property : Step B Property
  deserialize_property = do
    pure (record {
      name = (← cdr.deserialize_string uxr_string_size_max);
      value = (← cdr.deserialize_string uxr_string_size_max);
    })

  unfoldable pub deserialize_property_seq : Step B PropertySeq
  deserialize_property_seq = deserialize_sequence uxr_property_sequence_max deserialize_property
