-- ===== src/Xrce/Object/Serialize.antt =====
-- xrce_types.c: the `uxr_serialize_` functions of the representations of clients and agents and the shared formats.
use micro_xrce_dds_client.Xrce.Cdr.{Step, MicroCdr, pure, ◌>>◌, when_ok, serialize_optional}
use micro_xrce_dds_client.Xrce.Basic.Serialize.{
  serialize_binary_sequence, serialize_client_key, serialize_xrce_cookie, serialize_xrce_version,
  serialize_xrce_vendor_id,
}
use micro_xrce_dds_client.Xrce.Locator.Serialize.{serialize_property_seq}
use micro_xrce_dds_client.Xrce.Object.{
  dds_xrce_representation_by_reference, dds_xrce_representation_as_xml_string,
  dds_xrce_representation_in_binary, ClientRepresentation, AgentRepresentation,
  ObjkRepresentation3Formats, ObjkRepresentationRefAndXmlFormats,
  ObjkRepresentationBinAndXmlFormats, ObjkRepresentationRefAndXmlBase,
  ObjkRepresentationBinAndXmlBase, ObjkRepresentation3Base,
}

module _ {B : Type 0} ⦃cdr : MicroCdr B⦄ where
  unfoldable pub serialize_client_representation : ClientRepresentation → Step B (Unit {0})
  serialize_client_representation x = do
    serialize_xrce_cookie x.xrce_cookie
    serialize_xrce_version x.xrce_version
    serialize_xrce_vendor_id x.xrce_vendor_id
    serialize_client_key x.client_key
    cdr.serialize_uint8 x.session_id
    serialize_optional serialize_property_seq x.properties
    cdr.serialize_uint16 x.mtu

  unfoldable pub serialize_agent_representation : AgentRepresentation → Step B (Unit {0})
  serialize_agent_representation x = do
    serialize_xrce_cookie x.xrce_cookie
    serialize_xrce_version x.xrce_version
    serialize_xrce_vendor_id x.xrce_vendor_id
    serialize_optional serialize_property_seq x.properties

  unfoldable pub serialize_objk_representation3_formats :
      ObjkRepresentation3Formats → Step B (Unit {0})
  serialize_objk_representation3_formats (ObjkRepresentation3Formats.object_reference x) =
      when_ok (cdr.serialize_uint8 dds_xrce_representation_by_reference) (cdr.serialize_string x)
  serialize_objk_representation3_formats (ObjkRepresentation3Formats.xml_string_represenatation x) =
      when_ok (cdr.serialize_uint8 dds_xrce_representation_as_xml_string) (cdr.serialize_string x)
  serialize_objk_representation3_formats (ObjkRepresentation3Formats.binary_representation x) =
      when_ok (cdr.serialize_uint8 dds_xrce_representation_in_binary) (serialize_binary_sequence x)
  serialize_objk_representation3_formats (ObjkRepresentation3Formats.other format) =
      when_ok (cdr.serialize_uint8 format) (pure tt)

  unfoldable pub serialize_objk_representation_ref_and_xml_formats :
      ObjkRepresentationRefAndXmlFormats → Step B (Unit {0})
  serialize_objk_representation_ref_and_xml_formats
        (ObjkRepresentationRefAndXmlFormats.object_name x) =
      when_ok (cdr.serialize_uint8 dds_xrce_representation_by_reference) (cdr.serialize_string x)
  serialize_objk_representation_ref_and_xml_formats
        (ObjkRepresentationRefAndXmlFormats.xml_string_represenatation x) =
      when_ok (cdr.serialize_uint8 dds_xrce_representation_as_xml_string) (cdr.serialize_string x)
  serialize_objk_representation_ref_and_xml_formats
        (ObjkRepresentationRefAndXmlFormats.other format) =
      when_ok (cdr.serialize_uint8 format) (pure tt)

  unfoldable pub serialize_objk_representation_bin_and_xml_formats :
      ObjkRepresentationBinAndXmlFormats → Step B (Unit {0})
  serialize_objk_representation_bin_and_xml_formats
        (ObjkRepresentationBinAndXmlFormats.binary_representation x) =
      when_ok (cdr.serialize_uint8 dds_xrce_representation_in_binary) (serialize_binary_sequence x)
  serialize_objk_representation_bin_and_xml_formats
        (ObjkRepresentationBinAndXmlFormats.string_represenatation x) =
      when_ok (cdr.serialize_uint8 dds_xrce_representation_as_xml_string) (cdr.serialize_string x)
  serialize_objk_representation_bin_and_xml_formats
        (ObjkRepresentationBinAndXmlFormats.other format) =
      when_ok (cdr.serialize_uint8 format) (pure tt)

  unfoldable pub serialize_objk_representation_ref_and_xml_base :
      ObjkRepresentationRefAndXmlBase → Step B (Unit {0})
  serialize_objk_representation_ref_and_xml_base x =
      serialize_objk_representation_ref_and_xml_formats x.representation

  unfoldable pub serialize_objk_representation_bin_and_xml_base :
      ObjkRepresentationBinAndXmlBase → Step B (Unit {0})
  serialize_objk_representation_bin_and_xml_base x =
      serialize_objk_representation_bin_and_xml_formats x.representation

  unfoldable pub serialize_objk_representation3_base : ObjkRepresentation3Base → Step B (Unit {0})
  serialize_objk_representation3_base x = serialize_objk_representation3_formats x.representation
