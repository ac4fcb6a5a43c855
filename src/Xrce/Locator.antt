-- ===== src/Xrce/Locator.antt =====
-- xrce_types.h: transport locators and properties.
pub mod Serialize
pub mod Deserialize
pub mod Layout
pub mod Codec
use micro_xrce_dds_client.Prelude.{ℕ, List}

abbrev pub address_format_small : ℕ
address_format_small = 0

abbrev pub address_format_medium : ℕ
address_format_medium = 1

abbrev pub address_format_large : ℕ
address_format_large = 2

abbrev pub address_format_string : ℕ
address_format_string = 3

abbrev pub uxr_transport_locator_sequence_max : ℕ
uxr_transport_locator_sequence_max = 4

abbrev pub uxr_property_sequence_max : ℕ
uxr_property_sequence_max = 1

pub record TransportLocatorSmall : Type 0 where
  pub address : List ℕ
  pub locator_port : ℕ

pub record TransportLocatorMedium : Type 0 where
  pub address : List ℕ
  pub locator_port : ℕ

pub record TransportLocatorLarge : Type 0 where
  pub address : List ℕ
  pub locator_port : ℕ

pub record TransportLocatorString : Type 0 where
  pub value : List ℕ

pub data TransportLocator : Type 0 where
  small_locator : TransportLocatorSmall → TransportLocator
  medium_locator : TransportLocatorMedium → TransportLocator
  large_locator : TransportLocatorLarge → TransportLocator
  string_locator : TransportLocatorString → TransportLocator
  other : ℕ → TransportLocator

abbrev pub TransportLocatorSeq : Type 0
TransportLocatorSeq = List TransportLocator

pub record Property : Type 0 where
  pub name : List ℕ
  pub value : List ℕ

abbrev pub PropertySeq : Type 0
PropertySeq = List Property
