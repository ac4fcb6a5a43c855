-- ===== src/Xrce/Payload/Layout.antt =====
-- The items that stand for the payloads of requests and replies, and the bounds that a value meets to be read back.
use micro_xrce_dds_client.Prelude.{◌++◌, ◌∷◌, [], List}
use micro_xrce_dds_client.Xrce.Cdr.Laws.{Item}
use micro_xrce_dds_client.Xrce.Object.Layout.{
  layout_client_representation, layout_agent_representation, IsValidClientRepresentation,
  IsValidAgentRepresentation,
}
use micro_xrce_dds_client.Xrce.Payload.{
  CreateClientPayload, CreatePayload, GetInfoPayload, DeletePayload, StatusAgentPayload,
  StatusPayload, InfoPayload, ReadDataPayload,
}
use micro_xrce_dds_client.Xrce.Request.Layout.{
  layout_object_variant, layout_result_status, layout_base_object_request, layout_object_info,
  layout_base_object_reply, IsValidObjectVariant, IsValidBaseObjectRequest, IsValidObjectInfo,
  IsValidBaseObjectReply,
}
use micro_xrce_dds_client.Xrce.Sample.Layout.{layout_read_specification, IsValidReadSpecification}

unfoldable pub layout_create_client_payload : CreateClientPayload → List Item
layout_create_client_payload x = layout_client_representation x.client_representation

abbrev pub IsValidCreateClientPayload : CreateClientPayload → Type 0
IsValidCreateClientPayload x = IsValidClientRepresentation x.client_representation

unfoldable pub layout_create_payload : CreatePayload → List Item
layout_create_payload x =
    layout_base_object_request x.base ++ layout_object_variant x.object_representation

abbrev pub IsValidCreatePayload : CreatePayload → Type 0
IsValidCreatePayload x =
    (IsValidBaseObjectRequest x.base) × (IsValidObjectVariant x.object_representation)

unfoldable pub layout_get_info_payload : GetInfoPayload → List Item
layout_get_info_payload x = layout_base_object_request x.base ++ Item.uint32 x.info_mask ∷ []

abbrev pub IsValidGetInfoPayload : GetInfoPayload → Type 0
IsValidGetInfoPayload x = IsValidBaseObjectRequest x.base

unfoldable pub layout_delete_payload : DeletePayload → List Item
layout_delete_payload x = layout_base_object_request x.base

abbrev pub IsValidDeletePayload : DeletePayload → Type 0
IsValidDeletePayload x = IsValidBaseObjectRequest x.base

unfoldable pub layout_status_agent_payload : StatusAgentPayload → List Item
layout_status_agent_payload x =
    layout_result_status x.result ++ layout_agent_representation x.agent_info

abbrev pub IsValidStatusAgentPayload : StatusAgentPayload → Type 0
IsValidStatusAgentPayload x = IsValidAgentRepresentation x.agent_info

unfoldable pub layout_status_payload : StatusPayload → List Item
layout_status_payload x = layout_base_object_reply x.base

abbrev pub IsValidStatusPayload : StatusPayload → Type 0
IsValidStatusPayload x = IsValidBaseObjectReply x.base

unfoldable pub layout_info_payload : InfoPayload → List Item
layout_info_payload x = layout_base_object_reply x.base ++ layout_object_info x.object_info

abbrev pub IsValidInfoPayload : InfoPayload → Type 0
IsValidInfoPayload x = (IsValidBaseObjectReply x.base) × (IsValidObjectInfo x.object_info)

unfoldable pub layout_read_data_payload : ReadDataPayload → List Item
layout_read_data_payload x =
    layout_base_object_request x.base ++ layout_read_specification x.read_specification

abbrev pub IsValidReadDataPayload : ReadDataPayload → Type 0
IsValidReadDataPayload x =
    (IsValidBaseObjectRequest x.base) × (IsValidReadSpecification x.read_specification)
