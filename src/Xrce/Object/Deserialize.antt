-- ===== src/Xrce/Object/Deserialize.antt =====
-- xrce_types.c: the `uxr_deserialize_` functions of the representations of clients and agents and the shared formats.
use micro_xrce_dds_client.Prelude.{none, if◌then◌else◌, ◌==◌}
use micro_xrce_dds_client.Xrce.Cdr.{Step, MicroCdr, pure, ◌>>=◌, if_ok, deserialize_optional}
use micro_xrce_dds_client.Xrce.Basic.{uxr_string_size_max}
use micro_xrce_dds_client.Xrce.Basic.Deserialize.{
  deserialize_binary_sequence, deserialize_client_key, deserialize_xrce_cookie,
  deserialize_xrce_version, deserialize_xrce_vendor_id,
}
use micro_xrce_dds_client.Xrce.Locator.Deserialize.{deserialize_property_seq}
use micro_xrce_dds_client.Xrce.Object.{
  dds_xrce_representation_by_reference, dds_xrce_representation_as_xml_string,
  dds_xrce_representation_in_binary, ClientRepresentation, AgentRepresentation,
  ObjkRepresentation3Formats, ObjkRepresentationRefAndXmlFormats,
  ObjkRepresentationBinAndXmlFormats, ObjkRepresentationRefAndXmlBase,
  ObjkRepresentationBinAndXmlBase, ObjkRepresentation3Base,
}

module _ {B : Type 0} ⦃cdr : MicroCdr B⦄ where
  unfoldable pub deserialize_client_representation : Step B ClientRepresentation
  deserialize_client_representation = do
    pure (record {
      xrce_cookie = (← deserialize_xrce_cookie);
      xrce_version = (← deserialize_xrce_version);
      xrce_vendor_id = (← deserialize_xrce_vendor_id);
      client_key = (← deserialize_client_key);
      session_id = (← cdr.deserialize_uint8);
      properties = (← deserialize_optional deserialize_property_seq);
      mtu = (← cdr.deserialize_uint16);
    })

  -- The flag is read, and the properties that it announces are not.
  unfoldable pub deserialize_agent_representation : Step B AgentRepresentation
  deserialize_agent_representation = do
    xrce_cookie ← deserialize_xrce_cookie
    xrce_version ← deserialize_xrce_version
    xrce_vendor_id ← deserialize_xrce_vendor_id
    _ ← cdr.deserialize_bool
    pure (record {
      xrce_cookie = xrce_cookie;
      xrce_version = xrce_version;
      xrce_vendor_id = xrce_vendor_id;
      properties = none;
    })

  unfoldable pub deserialize_objk_representation3_formats : Step B ObjkRepresentation3Formats
  deserialize_objk_representation3_formats =
      if_ok cdr.deserialize_uint8 ObjkRepresentation3Formats.other λ format.
        if format == dds_xrce_representation_by_reference
        then (do
          pure (
              ObjkRepresentation3Formats.object_reference
                (← cdr.deserialize_string uxr_string_size_max)))
        else if format == dds_xrce_representation_as_xml_string
        then (do
          pure (
              ObjkRepresentation3Formats.xml_string_represenatation
                (← cdr.deserialize_string uxr_string_size_max)))
        else if format == dds_xrce_representation_in_binary
        then (do
          pure (ObjkRepresentation3Formats.binary_representation (← deserialize_binary_sequence)))
        else pure (ObjkRepresentation3Formats.other format)

  unfoldable pub deserialize_objk_representation_ref_and_xml_formats :
      Step B ObjkRepresentationRefAndXmlFormats
  deserialize_objk_representation_ref_and_xml_formats =
      if_ok cdr.deserialize_uint8 ObjkRepresentationRefAndXmlFormats.other λ format.
        if format == dds_xrce_representation_by_reference
        then (do
          pure (
              ObjkRepresentationRefAndXmlFormats.object_name
                (← cdr.deserialize_string uxr_string_size_max)))
        else if format == dds_xrce_representation_as_xml_string
        then (do
          pure (
              ObjkRepresentationRefAndXmlFormats.xml_string_represenatation
                (← cdr.deserialize_string uxr_string_size_max)))
        else pure (ObjkRepresentationRefAndXmlFormats.other format)

  unfoldable pub deserialize_objk_representation_bin_and_xml_formats :
      Step B ObjkRepresentationBinAndXmlFormats
  deserialize_objk_representation_bin_and_xml_formats =
      if_ok cdr.deserialize_uint8 ObjkRepresentationBinAndXmlFormats.other λ format.
        if format == dds_xrce_representation_in_binary
        then (do
          pure (
              ObjkRepresentationBinAndXmlFormats.binary_representation
                (← deserialize_binary_sequence)))
        else if format == dds_xrce_representation_as_xml_string
        then (do
          pure (
              ObjkRepresentationBinAndXmlFormats.string_represenatation
                (← cdr.deserialize_string uxr_string_size_max)))
        else pure (ObjkRepresentationBinAndXmlFormats.other format)

  unfoldable pub deserialize_objk_representation_ref_and_xml_base :
      Step B ObjkRepresentationRefAndXmlBase
  deserialize_objk_representation_ref_and_xml_base = do
    pure (record { representation = (← deserialize_objk_representation_ref_and_xml_formats) })

  unfoldable pub deserialize_objk_representation_bin_and_xml_base :
      Step B ObjkRepresentationBinAndXmlBase
  deserialize_objk_representation_bin_and_xml_base = do
    pure (record { representation = (← deserialize_objk_representation_bin_and_xml_formats) })

  unfoldable pub deserialize_objk_representation3_base : Step B ObjkRepresentation3Base
  deserialize_objk_representation3_base = do
    pure (record { representation = (← deserialize_objk_representation3_formats) })
