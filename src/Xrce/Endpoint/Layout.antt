-- ===== src/Xrce/Endpoint/Layout.antt =====
-- The items that stand for the binary representations of endpoints, and the bounds that a value meets to be read back.
use micro_xrce_dds_client.Prelude.{◌++◌, ◌∷◌, [], List, length, ◌<◌}
use micro_xrce_dds_client.Xrce.Cdr.Laws.{Item, Holds, layout_optional}
use micro_xrce_dds_client.Xrce.Basic.{uxr_string_size_max}
use micro_xrce_dds_client.Xrce.Basic.Layout.{
  layout_binary_sequence, layout_object_id, IsValidBinarySequence, IsValidObjectId,
}
use micro_xrce_dds_client.Xrce.Endpoint.{
  ObjkEndpointQosBinary, ObjkDataWriterBinaryQos, ObjkDataReaderBinaryQos, ObjkDataReaderBinary,
  ObjkDataWriterBinary, ObjkRequesterBinary, ObjkReplierBinary,
}

unfoldable pub layout_objk_endpoint_qos_binary : ObjkEndpointQosBinary → List Item
layout_objk_endpoint_qos_binary x =
    Item.uint16 x.qos_flags ∷ layout_optional (λ y. Item.uint16 y ∷ []) x.history_depth
    ++ (layout_optional (λ y. Item.uint32 y ∷ []) x.deadline_msec
        ++ (layout_optional (λ y. Item.uint32 y ∷ []) x.lifespan_msec
            ++ layout_optional layout_binary_sequence x.user_data))

abbrev pub IsValidObjkEndpointQosBinary : ObjkEndpointQosBinary → Type 0
IsValidObjkEndpointQosBinary x = Holds IsValidBinarySequence x.user_data

unfoldable pub layout_objk_data_writer_binary_qos : ObjkDataWriterBinaryQos → List Item
layout_objk_data_writer_binary_qos x =
    layout_objk_endpoint_qos_binary x.base
    ++ layout_optional (λ y. Item.uint64 y ∷ []) x.ownership_strength

abbrev pub IsValidObjkDataWriterBinaryQos : ObjkDataWriterBinaryQos → Type 0
IsValidObjkDataWriterBinaryQos x = IsValidObjkEndpointQosBinary x.base

unfoldable pub layout_objk_data_reader_binary_qos : ObjkDataReaderBinaryQos → List Item
layout_objk_data_reader_binary_qos x =
    layout_objk_endpoint_qos_binary x.base
    ++ (layout_optional (λ y. Item.uint64 y ∷ []) x.timebasedfilter_msec
        ++ layout_optional (λ y. Item.string y ∷ []) x.contentbased_filter)

abbrev pub IsValidObjkDataReaderBinaryQos : ObjkDataReaderBinaryQos → Type 0
IsValidObjkDataReaderBinaryQos x =
    (IsValidObjkEndpointQosBinary x.base)
    × (Holds (λ y. length y < uxr_string_size_max) x.contentbased_filter)

unfoldable pub layout_objk_data_reader_binary : ObjkDataReaderBinary → List Item
layout_objk_data_reader_binary x =
    layout_object_id x.topic_id ++ layout_optional layout_objk_data_reader_binary_qos x.qos

abbrev pub IsValidObjkDataReaderBinary : ObjkDataReaderBinary → Type 0
IsValidObjkDataReaderBinary x =
    (IsValidObjectId x.topic_id) × (Holds IsValidObjkDataReaderBinaryQos x.qos)

unfoldable pub layout_objk_data_writer_binary : ObjkDataWriterBinary → List Item
layout_objk_data_writer_binary x =
    layout_object_id x.topic_id ++ layout_optional layout_objk_data_writer_binary_qos x.qos

abbrev pub IsValidObjkDataWriterBinary : ObjkDataWriterBinary → Type 0
IsValidObjkDataWriterBinary x =
    (IsValidObjectId x.topic_id) × (Holds IsValidObjkDataWriterBinaryQos x.qos)

unfoldable pub layout_objk_requester_binary : ObjkRequesterBinary → List Item
layout_objk_requester_binary x =
    Item.string x.service_name
      ∷ Item.string x.request_type
      ∷ Item.string x.reply_type
      ∷ layout_optional (λ y. Item.string y ∷ []) x.request_topic_name
    ++ layout_optional (λ y. Item.string y ∷ []) x.reply_topic_name

abbrev pub IsValidObjkRequesterBinary : ObjkRequesterBinary → Type 0
IsValidObjkRequesterBinary x =
    (length x.service_name < uxr_string_size_max)
    × (length x.request_type < uxr_string_size_max)
    × (length x.reply_type < uxr_string_size_max)
    × (Holds (λ y. length y < uxr_string_size_max) x.request_topic_name)
    × (Holds (λ y. length y < uxr_string_size_max) x.reply_topic_name)

unfoldable pub layout_objk_replier_binary : ObjkReplierBinary → List Item
layout_objk_replier_binary x =
    Item.string x.service_name
      ∷ Item.string x.request_type
      ∷ Item.string x.reply_type
      ∷ layout_optional (λ y. Item.string y ∷ []) x.request_topic_name
    ++ layout_optional (λ y. Item.string y ∷ []) x.reply_topic_name

abbrev pub IsValidObjkReplierBinary : ObjkReplierBinary → Type 0
IsValidObjkReplierBinary x =
    (length x.service_name < uxr_string_size_max)
    × (length x.request_type < uxr_string_size_max)
    × (length x.reply_type < uxr_string_size_max)
    × (Holds (λ y. length y < uxr_string_size_max) x.request_topic_name)
    × (Holds (λ y. length y < uxr_string_size_max) x.reply_topic_name)
