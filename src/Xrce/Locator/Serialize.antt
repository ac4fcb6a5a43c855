-- ===== src/Xrce/Locator/Serialize.antt =====
-- xrce_types.c: the `uxr_serialize_` functions of the transport locators and properties.
use micro_xrce_dds_client.Xrce.Cdr.{Step, MicroCdr, pure, ◌>>◌, when_ok, serialize_sequence}
use micro_xrce_dds_client.Xrce.Locator.{
  address_format_small, address_format_medium, address_format_large, address_format_string,
  TransportLocatorSmall, TransportLocatorMedium, TransportLocatorLarge, TransportLocatorString,
  TransportLocator, TransportLocatorSeq, Property, PropertySeq,
}

module _ {B : Type 0} ⦃cdr : MicroCdr B⦄ where
  unfoldable pub serialize_transport_locator_small : TransportLocatorSmall → Step B (Unit {0})
  serialize_transport_locator_small x = do
    cdr.serialize_array_uint8 2 x.address
    cdr.serialize_uint8 x.locator_port

  unfoldable pub serialize_transport_locator_medium : TransportLocatorMedium → Step B (Unit {0})
  serialize_transport_locator_medium x = do
    cdr.serialize_array_uint8 4 x.address
    cdr.serialize_uint16 x.locator_port

  unfoldable pub serialize_transport_locator_large : TransportLocatorLarge → Step B (Unit {0})
  serialize_transport_locator_large x = do
    cdr.serialize_array_uint8 16 x.address
    cdr.serialize_uint32 x.locator_port

  unfoldable pub serialize_transport_locator_string : TransportLocatorString → Step B (Unit {0})
  serialize_transport_locator_string x = cdr.serialize_string x.value

  unfoldable pub serialize_transport_locator : TransportLocator → Step B (Unit {0})
  serialize_transport_locator (TransportLocator.small_locator x) =
      when_ok (cdr.serialize_uint8 address_format_small) (serialize_transport_locator_small x)
  serialize_transport_locator (TransportLocator.medium_locator x) =
      when_ok (cdr.serialize_uint8 address_format_medium) (serialize_transport_locator_medium x)
  serialize_transport_locator (TransportLocator.large_locator x) =
      when_ok (cdr.serialize_uint8 address_format_large) (serialize_transport_locator_large x)
  serialize_transport_locator (TransportLocator.string_locator x) =
      when_ok (cdr.serialize_uint8 address_format_string) (serialize_transport_locator_string x)
  serialize_transport_locator (TransportLocator.other format) =
      when_ok (cdr.serialize_uint8 format) (pure tt)

  unfoldable pub serialize_transport_locator_seq : TransportLocatorSeq → Step B (Unit {0})
  serialize_transport_locator_seq x = serialize_sequence serialize_transport_locator x

  unfoldable pub serialize_property : Property → Step B (Unit {0})
  serialize_property x = do cdr.serialize_string x.name; cdr.serialize_string x.value

  unfoldable pub serialize_property_seq : PropertySeq → Step B (Unit {0})
  serialize_property_seq x = serialize_sequence serialize_property x
