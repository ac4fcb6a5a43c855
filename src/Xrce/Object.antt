-- ===== src/Xrce/Object.antt =====
-- xrce_types.h: representations of clients and agents and the shared formats.
pub mod Serialize
pub mod Deserialize
pub mod Layout
pub mod Codec
use micro_xrce_dds_client.Prelude.{ℕ, Option, List}
use micro_xrce_dds_client.Xrce.Basic.{
  BinarySequence, ClientKey, XrceCookie, XrceVersion, XrceVendorId,
}
use micro_xrce_dds_client.Xrce.Locator.{PropertySeq}

abbrev pub dds_xrce_representation_by_reference : ℕ
dds_xrce_representation_by_reference = 1

abbrev pub dds_xrce_representation_as_xml_string : ℕ
dds_xrce_representation_as_xml_string = 2

abbrev pub dds_xrce_representation_in_binary : ℕ
dds_xrce_representation_in_binary = 3

pub record ClientRepresentation : Type 0 where
  pub xrce_cookie : XrceCookie
  pub xrce_version : XrceVersion
  pub xrce_vendor_id : XrceVendorId
  pub client_key : ClientKey
  pub session_id : ℕ
  pub properties : Option PropertySeq
  pub mtu : ℕ

pub record AgentRepresentation : Type 0 where
  pub xrce_cookie : XrceCookie
  pub xrce_version : XrceVersion
  pub xrce_vendor_id : XrceVendorId
  pub properties : Option PropertySeq

pub data ObjkRepresentation3Formats : Type 0 where
  object_reference : List ℕ → ObjkRepresentation3Formats
  xml_string_represenatation : List ℕ → ObjkRepresentation3Formats
  binary_representation : BinarySequence → ObjkRepresentation3Formats
  other : ℕ → ObjkRepresentation3Formats

pub data ObjkRepresentationRefAndXmlFormats : Type 0 where
  object_name : List ℕ → ObjkRepresentationRefAndXmlFormats
  xml_string_represenatation : List ℕ → ObjkRepresentationRefAndXmlFormats
  other : ℕ → ObjkRepresentationRefAndXmlFormats

pub data ObjkRepresentationBinAndXmlFormats : Type 0 where
  binary_representation : BinarySequence → ObjkRepresentationBinAndXmlFormats
  string_represenatation : List ℕ → ObjkRepresentationBinAndXmlFormats
  other : ℕ → ObjkRepresentationBinAndXmlFormats

pub record ObjkRepresentationRefAndXmlBase : Type 0 where
  pub representation : ObjkRepresentationRefAndXmlFormats

pub record ObjkRepresentationBinAndXmlBase : Type 0 where
  pub representation : ObjkRepresentationBinAndXmlFormats

pub record ObjkRepresentation3Base : Type 0 where
  pub representation : ObjkRepresentation3Formats
