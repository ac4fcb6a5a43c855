-- ===== src/Xrce/Endpoint/Codec.antt =====
-- What is written for one of the binary representations of endpoints is its items, and these are read back as the value.
use micro_xrce_dds_client.Prelude.{◌∷◌, []}
use micro_xrce_dds_client.Xrce.Cdr.{MicroCdr}
use micro_xrce_dds_client.Xrce.Cdr.Laws.{Item, Laws, Codec, Holds-trivial}
use micro_xrce_dds_client.Xrce.Cdr.Rules.{Codec->>, Codec-last, optional-Codec}
use micro_xrce_dds_client.Xrce.Basic.{uxr_string_size_max}
use micro_xrce_dds_client.Xrce.Basic.Codec.{binary_sequence-Codec, object_id-Codec}
use micro_xrce_dds_client.Xrce.Basic.Deserialize.{deserialize_binary_sequence}
use micro_xrce_dds_client.Xrce.Basic.Layout.{layout_binary_sequence}
use micro_xrce_dds_client.Xrce.Basic.Serialize.{serialize_binary_sequence}
use micro_xrce_dds_client.Xrce.Endpoint.{
  ObjkEndpointQosBinary, ObjkDataWriterBinaryQos, ObjkDataReaderBinaryQos, ObjkDataReaderBinary,
  ObjkDataWriterBinary, ObjkRequesterBinary, ObjkReplierBinary,
}
use micro_xrce_dds_client.Xrce.Endpoint.Deserialize.{
  deserialize_objk_endpoint_qos_binary, deserialize_objk_data_writer_binary_qos,
  deserialize_objk_data_reader_binary_qos, deserialize_objk_data_reader_binary,
  deserialize_objk_data_writer_binary, deserialize_objk_requester_binary,
  deserialize_objk_replier_binary,
}
use micro_xrce_dds_client.Xrce.Endpoint.Layout.{
  layout_objk_endpoint_qos_binary, layout_objk_data_writer_binary_qos,
  layout_objk_data_reader_binary_qos, layout_objk_data_reader_binary,
  layout_objk_data_writer_binary, layout_objk_requester_binary, layout_objk_replier_binary,
  IsValidObjkEndpointQosBinary, IsValidObjkDataWriterBinaryQos, IsValidObjkDataReaderBinaryQos,
  IsValidObjkDataReaderBinary, IsValidObjkDataWriterBinary, IsValidObjkRequesterBinary,
  IsValidObjkReplierBinary,
}
use micro_xrce_dds_client.Xrce.Endpoint.Serialize.{
  serialize_objk_endpoint_qos_binary, serialize_objk_data_writer_binary_qos,
  serialize_objk_data_reader_binary_qos, serialize_objk_data_reader_binary,
  serialize_objk_data_writer_binary, serialize_objk_requester_binary, serialize_objk_replier_binary,
}

module _ {B : Type 0} ⦃cdr : MicroCdr B⦄ ⦃laws : Laws cdr⦄ where
  objk_endpoint_qos_binary-Codec :
      (x : ObjkEndpointQosBinary)
      → IsValidObjkEndpointQosBinary x
      → Codec laws.view
          (serialize_objk_endpoint_qos_binary x)
          deserialize_objk_endpoint_qos_binary
          (layout_objk_endpoint_qos_binary x)
          x
  unfolding serialize_objk_endpoint_qos_binary deserialize_objk_endpoint_qos_binary
      layout_objk_endpoint_qos_binary
  objk_endpoint_qos_binary-Codec x h1 = Codec->> _ (laws.codec_uint16 x.qos_flags) (
      Codec->> _
        (optional-Codec cdr.serialize_uint16 cdr.deserialize_uint16 (λ y. Item.uint16 y ∷ [])
          x.history_depth (Holds-trivial x.history_depth) (λ a h. laws.codec_uint16 a))
        (Codec->> _
          (optional-Codec cdr.serialize_uint32 cdr.deserialize_uint32 (λ y. Item.uint32 y ∷ [])
            x.deadline_msec (Holds-trivial x.deadline_msec) (λ a h. laws.codec_uint32 a))
          (Codec->> _
            (optional-Codec cdr.serialize_uint32 cdr.deserialize_uint32 (λ y. Item.uint32 y ∷ [])
              x.lifespan_msec (Holds-trivial x.lifespan_msec) (λ a h. laws.codec_uint32 a))
            (Codec-last _ (
              optional-Codec serialize_binary_sequence deserialize_binary_sequence
                layout_binary_sequence x.user_data h1 (λ a h. binary_sequence-Codec a h))))))

  objk_data_writer_binary_qos-Codec :
      (x : ObjkDataWriterBinaryQos)
      → IsValidObjkDataWriterBinaryQos x
      → Codec laws.view
          (serialize_objk_data_writer_binary_qos x)
          deserialize_objk_data_writer_binary_qos
          (layout_objk_data_writer_binary_qos x)
          x
  unfolding serialize_objk_data_writer_binary_qos deserialize_objk_data_writer_binary_qos
      layout_objk_data_writer_binary_qos
  objk_data_writer_binary_qos-Codec x h1 = Codec->> _ (objk_endpoint_qos_binary-Codec x.base h1) (
      Codec-last _ (
        optional-Codec cdr.serialize_uint64 cdr.deserialize_uint64 (λ y. Item.uint64 y ∷ [])
          x.ownership_strength (Holds-trivial x.ownership_strength) (λ a h. laws.codec_uint64 a)))

  objk_data_reader_binary_qos-Codec :
      (x : ObjkDataReaderBinaryQos)
      → IsValidObjkDataReaderBinaryQos x
      → Codec laws.view
          (serialize_objk_data_reader_binary_qos x)
          deserialize_objk_data_reader_binary_qos
          (layout_objk_data_reader_binary_qos x)
          x
  unfolding serialize_objk_data_reader_binary_qos deserialize_objk_data_reader_binary_qos
      layout_objk_data_reader_binary_qos
  objk_data_reader_binary_qos-Codec x (h1, h2) =
      Codec->> _ (objk_endpoint_qos_binary-Codec x.base h1) (
        Codec->> _
          (optional-Codec cdr.serialize_uint64 cdr.deserialize_uint64 (λ y. Item.uint64 y ∷ [])
            x.timebasedfilter_msec (Holds-trivial x.timebasedfilter_msec)
            (λ a h. laws.codec_uint64 a))
          (Codec-last _ (
            optional-Codec cdr.serialize_string (cdr.deserialize_string uxr_string_size_max)
              (λ y. Item.string y ∷ []) x.contentbased_filter h2
              (λ a h. laws.codec_string uxr_string_size_max a h))))

  objk_data_reader_binary-Codec :
      (x : ObjkDataReaderBinary)
      → IsValidObjkDataReaderBinary x
      → Codec laws.view
          (serialize_objk_data_reader_binary x)
          deserialize_objk_data_reader_binary
          (layout_objk_data_reader_binary x)
          x
  unfolding serialize_objk_data_reader_binary deserialize_objk_data_reader_binary
      layout_objk_data_reader_binary
  objk_data_reader_binary-Codec x (h1, h2) = Codec->> _ (object_id-Codec x.topic_id h1) (
      Codec-last _ (
        optional-Codec serialize_objk_data_reader_binary_qos deserialize_objk_data_reader_binary_qos
          layout_objk_data_reader_binary_qos x.qos h2
          (λ a h. objk_data_reader_binary_qos-Codec a h)))

  objk_data_writer_binary-Codec :
      (x : ObjkDataWriterBinary)
      → IsValidObjkDataWriterBinary x
      → Codec laws.view
          (serialize_objk_data_writer_binary x)
          deserialize_objk_data_writer_binary
          (layout_objk_data_writer_binary x)
          x
  unfolding serialize_objk_data_writer_binary deserialize_objk_data_writer_binary
      layout_objk_data_writer_binary
  objk_data_writer_binary-Codec x (h1, h2) = Codec->> _ (object_id-Codec x.topic_id h1) (
      Codec-last _ (
        optional-Codec serialize_objk_data_writer_binary_qos deserialize_objk_data_writer_binary_qos
          layout_objk_data_writer_binary_qos x.qos h2
          (λ a h. objk_data_writer_binary_qos-Codec a h)))

  objk_requester_binary-Codec :
      (x : ObjkRequesterBinary)
      → IsValidObjkRequesterBinary x
      → Codec laws.view
          (serialize_objk_requester_binary x)
          deserialize_objk_requester_binary
          (layout_objk_requester_binary x)
          x
  unfolding serialize_objk_requester_binary deserialize_objk_requester_binary
      layout_objk_requester_binary
  objk_requester_binary-Codec x (h1, h2, h3, h4, h5) =
      Codec->> _ (laws.codec_string uxr_string_size_max x.service_name h1) (
        Codec->> _ (laws.codec_string uxr_string_size_max x.request_type h2) (
          Codec->> _ (laws.codec_string uxr_string_size_max x.reply_type h3) (
            Codec->> _
              (optional-Codec cdr.serialize_string (cdr.deserialize_string uxr_string_size_max)
                (λ y. Item.string y ∷ []) x.request_topic_name h4
                (λ a h. laws.codec_string uxr_string_size_max a h))
              (Codec-last _ (
                optional-Codec cdr.serialize_string (cdr.deserialize_string uxr_string_size_max)
                  (λ y. Item.string y ∷ []) x.reply_topic_name h5
                  (λ a h. laws.codec_string uxr_string_size_max a h))))))

  objk_replier_binary-Codec :
      (x : ObjkReplierBinary)
      → IsValidObjkReplierBinary x
      → Codec laws.view
          (serialize_objk_replier_binary x)
          deserialize_objk_replier_binary
          (layout_objk_replier_binary x)
          x
  unfolding serialize_objk_replier_binary deserialize_objk_replier_binary layout_objk_replier_binary
  objk_replier_binary-Codec x (h1, h2, h3, h4, h5) =
      Codec->> _ (laws.codec_string uxr_string_size_max x.service_name h1) (
        Codec->> _ (laws.codec_string uxr_string_size_max x.request_type h2) (
          Codec->> _ (laws.codec_string uxr_string_size_max x.reply_type h3) (
            Codec->> _
              (optional-Codec cdr.serialize_string (cdr.deserialize_string uxr_string_size_max)
                (λ y. Item.string y ∷ []) x.request_topic_name h4
                (λ a h. laws.codec_string uxr_string_size_max a h))
              (Codec-last _ (
                optional-Codec cdr.serialize_string (cdr.deserialize_string uxr_string_size_max)
                  (λ y. Item.string y ∷ []) x.reply_topic_name h5
                  (λ a h. laws.codec_string uxr_string_size_max a h))))))
