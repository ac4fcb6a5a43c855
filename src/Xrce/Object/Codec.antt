-- ===== src/Xrce/Object/Codec.antt =====
-- What is written for one of the representations of clients and agents and the shared formats is its items, and these are read back as the value.
use mathlib.Core.Path.{subst}
use micro_xrce_dds_client.Prelude.{false, none, sym}
use micro_xrce_dds_client.Xrce.Cdr.{MicroCdr, serialize_optional}
use micro_xrce_dds_client.Xrce.Cdr.Laws.{Laws, Codec, Holds-absent}
use micro_xrce_dds_client.Xrce.Cdr.Rules.{
  Codec-pure, Codec->>, Codec-last, Codec-case, Codec-else, optional-Codec,
}
use micro_xrce_dds_client.Xrce.Basic.{uxr_string_size_max}
use micro_xrce_dds_client.Xrce.Basic.Codec.{
  binary_sequence-Codec, client_key-Codec, xrce_cookie-Codec, xrce_version-Codec,
  xrce_vendor_id-Codec,
}
use micro_xrce_dds_client.Xrce.Locator.Codec.{property_seq-Codec}
use micro_xrce_dds_client.Xrce.Locator.Deserialize.{deserialize_property_seq}
use micro_xrce_dds_client.Xrce.Locator.Layout.{layout_property_seq}
use micro_xrce_dds_client.Xrce.Locator.Serialize.{serialize_property_seq}
use micro_xrce_dds_client.Xrce.Object.{
  ClientRepresentation, AgentRepresentation, ObjkRepresentation3Formats,
  ObjkRepresentationRefAndXmlFormats, ObjkRepresentationBinAndXmlFormats,
  ObjkRepresentationRefAndXmlBase, ObjkRepresentationBinAndXmlBase, ObjkRepresentation3Base,
}
use micro_xrce_dds_client.Xrce.Object.Deserialize.{
  deserialize_client_representation, deserialize_agent_representation,
  deserialize_objk_representation3_formats, deserialize_objk_representation_ref_and_xml_formats,
  deserialize_objk_representation_bin_and_xml_formats,
  deserialize_objk_representation_ref_and_xml_base,
  deserialize_objk_representation_bin_and_xml_base, deserialize_objk_representation3_base,
}
use micro_xrce_dds_client.Xrce.Object.Layout.{
  layout_client_representation, layout_agent_representation, layout_objk_representation3_formats,
  layout_objk_representation_ref_and_xml_formats, layout_objk_representation_bin_and_xml_formats,
  layout_objk_representation_ref_and_xml_base, layout_objk_representation_bin_and_xml_base,
  layout_objk_representation3_base, IsValidClientRepresentation, IsValidAgentRepresentation,
  IsValidObjkRepresentation3Formats, IsValidObjkRepresentationRefAndXmlFormats,
  IsValidObjkRepresentationBinAndXmlFormats, IsValidObjkRepresentationRefAndXmlBase,
  IsValidObjkRepresentationBinAndXmlBase, IsValidObjkRepresentation3Base,
}
use micro_xrce_dds_client.Xrce.Object.Serialize.{
  serialize_client_representation, serialize_agent_representation,
  serialize_objk_representation3_formats, serialize_objk_representation_ref_and_xml_formats,
  serialize_objk_representation_bin_and_xml_formats, serialize_objk_representation_ref_and_xml_base,
  serialize_objk_representation_bin_and_xml_base, serialize_objk_representation3_base,
}

module _ {B : Type 0} ⦃cdr : MicroCdr B⦄ ⦃laws : Laws cdr⦄ where
  pub client_representation-Codec :
      (x : ClientRepresentation)
      → IsValidClientRepresentation x
      → Codec laws.view
          (serialize_client_representation x)
          deserialize_client_representation
          (layout_client_representation x)
          x
  unfolding serialize_client_representation deserialize_client_representation
      layout_client_representation
  client_representation-Codec x (h1, h2, h3, h4, h5) =
      Codec->> _ (xrce_cookie-Codec x.xrce_cookie h1) (
        Codec->> _ (xrce_version-Codec x.xrce_version h2) (
          Codec->> _ (xrce_vendor_id-Codec x.xrce_vendor_id h3) (
            Codec->> _ (client_key-Codec x.client_key h4) (
              Codec->> _ (laws.codec_uint8 x.session_id) (
                Codec->> _
                  (optional-Codec serialize_property_seq deserialize_property_seq
                    layout_property_seq x.properties h5 (λ a h. property_seq-Codec a h))
                  (Codec-last _ (laws.codec_uint16 x.mtu)))))))

  agent_without_properties-Codec :
      (x : AgentRepresentation)
      → IsValidAgentRepresentation x
      → let y = record x { properties = none } in
        Codec laws.view
          (serialize_agent_representation y)
          deserialize_agent_representation
          (layout_agent_representation y)
          y
  unfolding serialize_agent_representation deserialize_agent_representation
      layout_agent_representation serialize_optional
  agent_without_properties-Codec x (h1, h2, h3, h4) =
      Codec->> _ (xrce_cookie-Codec x.xrce_cookie h1) (
        Codec->> _ (xrce_version-Codec x.xrce_version h2) (
          Codec->> _ (xrce_vendor_id-Codec x.xrce_vendor_id h3)
            (Codec->> _ (laws.codec_bool false) Codec-pure)))

  pub agent_representation-Codec :
      (x : AgentRepresentation)
      → IsValidAgentRepresentation x
      → Codec laws.view
          (serialize_agent_representation x)
          deserialize_agent_representation
          (layout_agent_representation x)
          x
  agent_representation-Codec x h =
      subst
        (λ p.
          let y = record x { properties = p } in
          Codec laws.view (serialize_agent_representation y) deserialize_agent_representation
            (layout_agent_representation y) y)
        (sym (Holds-absent x.properties h.3)) (agent_without_properties-Codec x h)

  objk_representation3_formats-Codec :
      (x : ObjkRepresentation3Formats)
      → IsValidObjkRepresentation3Formats x
      → Codec laws.view
          (serialize_objk_representation3_formats x)
          deserialize_objk_representation3_formats
          (layout_objk_representation3_formats x)
          x
  unfolding serialize_objk_representation3_formats deserialize_objk_representation3_formats
      layout_objk_representation3_formats
  objk_representation3_formats-Codec (ObjkRepresentation3Formats.object_reference x) h =
      Codec-case _ _ (laws.codec_uint8 _) (Codec-last _ (laws.codec_string uxr_string_size_max x h))
  objk_representation3_formats-Codec (ObjkRepresentation3Formats.xml_string_represenatation x) h =
      Codec-case _ _ (laws.codec_uint8 _) (Codec-last _ (laws.codec_string uxr_string_size_max x h))
  objk_representation3_formats-Codec (ObjkRepresentation3Formats.binary_representation x) h =
      Codec-case _ _ (laws.codec_uint8 _) (Codec-last _ (binary_sequence-Codec x h))
  objk_representation3_formats-Codec (ObjkRepresentation3Formats.other x) (h1, h2, h3) =
      Codec-case _ _ (laws.codec_uint8 x)
        (Codec-else _ _ h1 (Codec-else _ _ h2 (Codec-else _ _ h3 Codec-pure)))

  objk_representation_ref_and_xml_formats-Codec :
      (x : ObjkRepresentationRefAndXmlFormats)
      → IsValidObjkRepresentationRefAndXmlFormats x
      → Codec laws.view
          (serialize_objk_representation_ref_and_xml_formats x)
          deserialize_objk_representation_ref_and_xml_formats
          (layout_objk_representation_ref_and_xml_formats x)
          x
  unfolding serialize_objk_representation_ref_and_xml_formats
      deserialize_objk_representation_ref_and_xml_formats
      layout_objk_representation_ref_and_xml_formats
  objk_representation_ref_and_xml_formats-Codec (ObjkRepresentationRefAndXmlFormats.object_name x)
        h =
      Codec-case _ _ (laws.codec_uint8 _) (Codec-last _ (laws.codec_string uxr_string_size_max x h))
  objk_representation_ref_and_xml_formats-Codec
        (ObjkRepresentationRefAndXmlFormats.xml_string_represenatation x) h =
      Codec-case _ _ (laws.codec_uint8 _) (Codec-last _ (laws.codec_string uxr_string_size_max x h))
  objk_representation_ref_and_xml_formats-Codec (ObjkRepresentationRefAndXmlFormats.other x)
        (h1, h2) =
      Codec-case _ _ (laws.codec_uint8 x) (Codec-else _ _ h1 (Codec-else _ _ h2 Codec-pure))

  objk_representation_bin_and_xml_formats-Codec :
      (x : ObjkRepresentationBinAndXmlFormats)
      → IsValidObjkRepresentationBinAndXmlFormats x
      → Codec laws.view
          (serialize_objk_representation_bin_and_xml_formats x)
          deserialize_objk_representation_bin_and_xml_formats
          (layout_objk_representation_bin_and_xml_formats x)
          x
  unfolding serialize_objk_representation_bin_and_xml_formats
      deserialize_objk_representation_bin_and_xml_formats
      layout_objk_representation_bin_and_xml_formats
  objk_representation_bin_and_xml_formats-Codec
        (ObjkRepresentationBinAndXmlFormats.binary_representation x) h =
      Codec-case _ _ (laws.codec_uint8 _) (Codec-last _ (binary_sequence-Codec x h))
  objk_representation_bin_and_xml_formats-Codec
        (ObjkRepresentationBinAndXmlFormats.string_represenatation x) h =
      Codec-case _ _ (laws.codec_uint8 _) (Codec-last _ (laws.codec_string uxr_string_size_max x h))
  objk_representation_bin_and_xml_formats-Codec (ObjkRepresentationBinAndXmlFormats.other x)
        (h1, h2) =
      Codec-case _ _ (laws.codec_uint8 x) (Codec-else _ _ h1 (Codec-else _ _ h2 Codec-pure))

  pub objk_representation_ref_and_xml_base-Codec :
      (x : ObjkRepresentationRefAndXmlBase)
      → IsValidObjkRepresentationRefAndXmlBase x
      → Codec laws.view
          (serialize_objk_representation_ref_and_xml_base x)
          deserialize_objk_representation_ref_and_xml_base
          (layout_objk_representation_ref_and_xml_base x)
          x
  unfolding serialize_objk_representation_ref_and_xml_base
      deserialize_objk_representation_ref_and_xml_base layout_objk_representation_ref_and_xml_base
  objk_representation_ref_and_xml_base-Codec x h1 =
      Codec-last _ (objk_representation_ref_and_xml_formats-Codec x.representation h1)

  pub objk_representation_bin_and_xml_base-Codec :
      (x : ObjkRepresentationBinAndXmlBase)
      → IsValidObjkRepresentationBinAndXmlBase x
      → Codec laws.view
          (serialize_objk_representation_bin_and_xml_base x)
          deserialize_objk_representation_bin_and_xml_base
          (layout_objk_representation_bin_and_xml_base x)
          x
  unfolding serialize_objk_representation_bin_and_xml_base
      deserialize_objk_representation_bin_and_xml_base layout_objk_representation_bin_and_xml_base
  objk_representation_bin_and_xml_base-Codec x h1 =
      Codec-last _ (objk_representation_bin_and_xml_formats-Codec x.representation h1)

  pub objk_representation3_base-Codec :
      (x : ObjkRepresentation3Base)
      → IsValidObjkRepresentation3Base x
      → Codec laws.view
          (serialize_objk_representation3_base x)
          deserialize_objk_representation3_base
          (layout_objk_representation3_base x)
          x
  unfolding serialize_objk_representation3_base deserialize_objk_representation3_base
      layout_objk_representation3_base
  objk_representation3_base-Codec x h1 =
      Codec-last _ (objk_representation3_formats-Codec x.representation h1)
