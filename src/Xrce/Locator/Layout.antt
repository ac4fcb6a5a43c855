-- ===== src/Xrce/Locator/Layout.antt =====
-- The items that stand for the transport locators and properties, and the bounds that a value meets to be read back.
use micro_xrce_dds_client.Prelude.{◌≡◌, ◌∷◌, [], false, List, All, length, ◌==◌, ◌≤◌, ◌<◌}
use micro_xrce_dds_client.Xrce.Cdr.Laws.{Item, layout_sequence}
use micro_xrce_dds_client.Xrce.Basic.{uxr_string_size_max}
use micro_xrce_dds_client.Xrce.Locator.{
  address_format_small, address_format_medium, address_format_large, address_format_string,
  uxr_transport_locator_sequence_max, uxr_property_sequence_max, TransportLocatorSmall,
  TransportLocatorMedium, TransportLocatorLarge, TransportLocatorString, TransportLocator,
  TransportLocatorSeq, Property, PropertySeq,
}

unfoldable pub layout_transport_locator_small : TransportLocatorSmall → List Item
layout_transport_locator_small x = Item.array x.address ∷ Item.uint8 x.locator_port ∷ []

abbrev pub IsValidTransportLocatorSmall : TransportLocatorSmall → Type 0
IsValidTransportLocatorSmall x = length x.address ≡ 2

unfoldable pub layout_transport_locator_medium : TransportLocatorMedium → List Item
layout_transport_locator_medium x = Item.array x.address ∷ Item.uint16 x.locator_port ∷ []

abbrev pub IsValidTransportLocatorMedium : TransportLocatorMedium → Type 0
IsValidTransportLocatorMedium x = length x.address ≡ 4

unfoldable pub layout_transport_locator_large : TransportLocatorLarge → List Item
layout_transport_locator_large x = Item.array x.address ∷ Item.uint32 x.locator_port ∷ []

abbrev pub IsValidTransportLocatorLarge : TransportLocatorLarge → Type 0
IsValidTransportLocatorLarge x = length x.address ≡ 16

unfoldable pub layout_transport_locator_string : TransportLocatorString → List Item
layout_transport_locator_string x = Item.string x.value ∷ []

abbrev pub IsValidTransportLocatorString : TransportLocatorString → Type 0
IsValidTransportLocatorString x = length x.value < uxr_string_size_max

unfoldable pub layout_transport_locator : TransportLocator → List Item
layout_transport_locator (TransportLocator.small_locator x) =
    Item.uint8 address_format_small ∷ layout_transport_locator_small x
layout_transport_locator (TransportLocator.medium_locator x) =
    Item.uint8 address_format_medium ∷ layout_transport_locator_medium x
layout_transport_locator (TransportLocator.large_locator x) =
    Item.uint8 address_format_large ∷ layout_transport_locator_large x
layout_transport_locator (TransportLocator.string_locator x) =
    Item.uint8 address_format_string ∷ layout_transport_locator_string x
layout_transport_locator (TransportLocator.other format) = Item.uint8 format ∷ []

abbrev pub IsValidTransportLocator : TransportLocator → Type 0
IsValidTransportLocator (TransportLocator.small_locator x) = IsValidTransportLocatorSmall x
IsValidTransportLocator (TransportLocator.medium_locator x) = IsValidTransportLocatorMedium x
IsValidTransportLocator (TransportLocator.large_locator x) = IsValidTransportLocatorLarge x
IsValidTransportLocator (TransportLocator.string_locator x) = IsValidTransportLocatorString x
IsValidTransportLocator (TransportLocator.other format) =
    (format == address_format_small ≡ false)
    × (format == address_format_medium ≡ false)
    × (format == address_format_large ≡ false)
    × (format == address_format_string ≡ false)

unfoldable pub layout_transport_locator_seq : TransportLocatorSeq → List Item
layout_transport_locator_seq x = layout_sequence layout_transport_locator x

abbrev pub IsValidTransportLocatorSeq : TransportLocatorSeq → Type 0
IsValidTransportLocatorSeq x =
    (length x ≤ uxr_transport_locator_sequence_max) × All IsValidTransportLocator x

unfoldable pub layout_property : Property → List Item
layout_property x = Item.string x.name ∷ Item.string x.value ∷ []

abbrev pub IsValidProperty : Property → Type 0
IsValidProperty x = (length x.name < uxr_string_size_max) × (length x.value < uxr_string_size_max)

unfoldable pub layout_property_seq : PropertySeq → List Item
layout_property_seq x = layout_sequence layout_property x

abbrev pub IsValidPropertySeq : PropertySeq → Type 0
IsValidPropertySeq x = (length x ≤ uxr_property_sequence_max) × All IsValidProperty x
