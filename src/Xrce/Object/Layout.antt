-- ===== src/Xrce/Object/Layout.antt =====
-- The items that stand for the representations of clients and agents and the shared formats, and the bounds that a value meets to be read back.
use micro_xrce_dds_client.Prelude.{◌≡◌, ◌++◌, ◌∷◌, [], false, List, length, ◌==◌, ◌<◌}
use micro_xrce_dds_client.Xrce.Cdr.Laws.{Item, Holds, layout_optional}
use micro_xrce_dds_client.Xrce.Basic.{uxr_string_size_max}
use micro_xrce_dds_client.Xrce.Basic.Layout.{
  layout_binary_sequence, layout_client_key, layout_xrce_cookie, layout_xrce_version,
  layout_xrce_vendor_id, IsValidBinarySequence, IsValidClientKey, IsValidXrceCookie,
  IsValidXrceVersion, IsValidXrceVendorId,
}
use micro_xrce_dds_client.Xrce.Locator.Layout.{layout_property_seq, IsValidPropertySeq}
use micro_xrce_dds_client.Xrce.Object.{
  dds_xrce_representation_by_reference, dds_xrce_representation_as_xml_string,
  dds_xrce_representation_in_binary, ClientRepresentation, AgentRepresentation,
  ObjkRepresentation3Formats, ObjkRepresentationRefAndXmlFormats,
  ObjkRepresentationBinAndXmlFormats, ObjkRepresentationRefAndXmlBase,
  ObjkRepresentationBinAndXmlBase, ObjkRepresentation3Base,
}

unfoldable pub layout_client_representation : ClientRepresentation → List Item
layout_client_representation x =
    layout_xrce_cookie x.xrce_cookie
    ++ (layout_xrce_version x.xrce_version
        ++ (layout_xrce_vendor_id x.xrce_vendor_id
            ++ (layout_client_key x.client_key
                ++ (Item.uint8 x.session_id ∷ layout_optional layout_property_seq x.properties
                    ++ Item.uint16 x.mtu ∷ []))))

abbrev pub IsValidClientRepresentation : ClientRepresentation → Type 0
IsValidClientRepresentation x =
    (IsValidXrceCookie x.xrce_cookie)
    × (IsValidXrceVersion x.xrce_version)
    × (IsValidXrceVendorId x.xrce_vendor_id)
    × (IsValidClientKey x.client_key)
    × (Holds IsValidPropertySeq x.properties)

unfoldable pub layout_agent_representation : AgentRepresentation → List Item
layout_agent_representation x =
    layout_xrce_cookie x.xrce_cookie
    ++ (layout_xrce_version x.xrce_version
        ++ (layout_xrce_vendor_id x.xrce_vendor_id
            ++ layout_optional layout_property_seq x.properties))

abbrev pub IsValidAgentRepresentation : AgentRepresentation → Type 0
IsValidAgentRepresentation x =
    (IsValidXrceCookie x.xrce_cookie)
    × (IsValidXrceVersion x.xrce_version)
    × (IsValidXrceVendorId x.xrce_vendor_id)
    × (Holds (λ _. ⊥) x.properties)

unfoldable pub layout_objk_representation3_formats : ObjkRepresentation3Formats → List Item
layout_objk_representation3_formats (ObjkRepresentation3Formats.object_reference x) =
    Item.uint8 dds_xrce_representation_by_reference ∷ Item.string x ∷ []
layout_objk_representation3_formats (ObjkRepresentation3Formats.xml_string_represenatation x) =
    Item.uint8 dds_xrce_representation_as_xml_string ∷ Item.string x ∷ []
layout_objk_representation3_formats (ObjkRepresentation3Formats.binary_representation x) =
    Item.uint8 dds_xrce_representation_in_binary ∷ layout_binary_sequence x
layout_objk_representation3_formats (ObjkRepresentation3Formats.other format) =
    Item.uint8 format ∷ []

abbrev pub IsValidObjkRepresentation3Formats : ObjkRepresentation3Formats → Type 0
IsValidObjkRepresentation3Formats (ObjkRepresentation3Formats.object_reference x) =
    length x < uxr_string_size_max
IsValidObjkRepresentation3Formats (ObjkRepresentation3Formats.xml_string_represenatation x) =
    length x < uxr_string_size_max
IsValidObjkRepresentation3Formats (ObjkRepresentation3Formats.binary_representation x) =
    IsValidBinarySequence x
IsValidObjkRepresentation3Formats (ObjkRepresentation3Formats.other format) =
    (format == dds_xrce_representation_by_reference ≡ false)
    × (format == dds_xrce_representation_as_xml_string ≡ false)
    × (format == dds_xrce_representation_in_binary ≡ false)

unfoldable pub layout_objk_representation_ref_and_xml_formats :
    ObjkRepresentationRefAndXmlFormats → List Item
layout_objk_representation_ref_and_xml_formats (ObjkRepresentationRefAndXmlFormats.object_name x) =
    Item.uint8 dds_xrce_representation_by_reference ∷ Item.string x ∷ []
layout_objk_representation_ref_and_xml_formats
      (ObjkRepresentationRefAndXmlFormats.xml_string_represenatation x) =
    Item.uint8 dds_xrce_representation_as_xml_string ∷ Item.string x ∷ []
layout_objk_representation_ref_and_xml_formats (ObjkRepresentationRefAndXmlFormats.other format) =
    Item.uint8 format ∷ []

abbrev pub IsValidObjkRepresentationRefAndXmlFormats : ObjkRepresentationRefAndXmlFormats → Type 0
IsValidObjkRepresentationRefAndXmlFormats (ObjkRepresentationRefAndXmlFormats.object_name x) =
    length x < uxr_string_size_max
IsValidObjkRepresentationRefAndXmlFormats
      (ObjkRepresentationRefAndXmlFormats.xml_string_represenatation x) =
    length x < uxr_string_size_max
IsValidObjkRepresentationRefAndXmlFormats (ObjkRepresentationRefAndXmlFormats.other format) =
    (format == dds_xrce_representation_by_reference ≡ false)
    × (format == dds_xrce_representation_as_xml_string ≡ false)

unfoldable pub layout_objk_representation_bin_and_xml_formats :
    ObjkRepresentationBinAndXmlFormats → List Item
layout_objk_representation_bin_and_xml_formats
      (ObjkRepresentationBinAndXmlFormats.binary_representation x) =
    Item.uint8 dds_xrce_representation_in_binary ∷ layout_binary_sequence x
layout_objk_representation_bin_and_xml_formats
      (ObjkRepresentationBinAndXmlFormats.string_represenatation x) =
    Item.uint8 dds_xrce_representation_as_xml_string ∷ Item.string x ∷ []
layout_objk_representation_bin_and_xml_formats (ObjkRepresentationBinAndXmlFormats.other format) =
    Item.uint8 format ∷ []

abbrev pub IsValidObjkRepresentationBinAndXmlFormats : ObjkRepresentationBinAndXmlFormats → Type 0
IsValidObjkRepresentationBinAndXmlFormats
      (ObjkRepresentationBinAndXmlFormats.binary_representation x) =
    IsValidBinarySequence x
IsValidObjkRepresentationBinAndXmlFormats
      (ObjkRepresentationBinAndXmlFormats.string_represenatation x) =
    length x < uxr_string_size_max
IsValidObjkRepresentationBinAndXmlFormats (ObjkRepresentationBinAndXmlFormats.other format) =
    (format == dds_xrce_representation_in_binary ≡ false)
    × (format == dds_xrce_representation_as_xml_string ≡ false)

unfoldable pub layout_objk_representation_ref_and_xml_base :
    ObjkRepresentationRefAndXmlBase → List Item
layout_objk_representation_ref_and_xml_base x =
    layout_objk_representation_ref_and_xml_formats x.representation

abbrev pub IsValidObjkRepresentationRefAndXmlBase : ObjkRepresentationRefAndXmlBase → Type 0
IsValidObjkRepresentationRefAndXmlBase x =
    IsValidObjkRepresentationRefAndXmlFormats x.representation

unfoldable pub layout_objk_representation_bin_and_xml_base :
    ObjkRepresentationBinAndXmlBase → List Item
layout_objk_representation_bin_and_xml_base x =
    layout_objk_representation_bin_and_xml_formats x.representation

abbrev pub IsValidObjkRepresentationBinAndXmlBase : ObjkRepresentationBinAndXmlBase → Type 0
IsValidObjkRepresentationBinAndXmlBase x =
    IsValidObjkRepresentationBinAndXmlFormats x.representation

unfoldable pub layout_objk_representation3_base : ObjkRepresentation3Base → List Item
layout_objk_representation3_base x = layout_objk_representation3_formats x.representation

abbrev pub IsValidObjkRepresentation3Base : ObjkRepresentation3Base → Type 0
IsValidObjkRepresentation3Base x = IsValidObjkRepresentation3Formats x.representation
