-- ===== src/Xrce/Payload/Serialize.antt =====
-- xrce_types.c: the `uxr_serialize_` functions of the payloads of requests and replies.
use micro_xrce_dds_client.Xrce.Cdr.{Step, MicroCdr, ◌>>◌}
use micro_xrce_dds_client.Xrce.Object.Serialize.{
  serialize_client_representation, serialize_agent_representation,
}
use micro_xrce_dds_client.Xrce.Payload.{
  CreateClientPayload, CreatePayload, GetInfoPayload, DeletePayload, StatusAgentPayload,
  StatusPayload, InfoPayload, ReadDataPayload,
}
use micro_xrce_dds_client.Xrce.Request.Serialize.{
  serialize_object_variant, serialize_result_status, serialize_base_object_request,
  serialize_object_info, serialize_base_object_reply,
}
use micro_xrce_dds_client.Xrce.Sample.Serialize.{serialize_read_specification}

module _ {B : Type 0} ⦃cdr : MicroCdr B⦄ where
  unfoldable pub serialize_create_client_payload : CreateClientPayload → Step B (Unit {0})
  serialize_create_client_payload x = serialize_client_representation x.client_representation

  unfoldable pub serialize_create_payload : CreatePayload → Step B (Unit {0})
  serialize_create_payload x = do
    serialize_base_object_request x.base
    serialize_object_variant x.object_representation

  unfoldable pub serialize_get_info_payload : GetInfoPayload → Step B (Unit {0})
  serialize_get_info_payload x = do
    serialize_base_object_request x.base
    cdr.serialize_uint32 x.info_mask

  unfoldable pub serialize_delete_payload : DeletePayload → Step B (Unit {0})
  serialize_delete_payload x = serialize_base_object_request x.base

  unfoldable pub serialize_status_agent_payload : StatusAgentPayload → Step B (Unit {0})
  serialize_status_agent_payload x = do
    serialize_result_status x.result
    serialize_agent_representation x.agent_info

  unfoldable pub serialize_status_payload : StatusPayload → Step B (Unit {0})
  serialize_status_payload x = serialize_base_object_reply x.base

  unfoldable pub serialize_info_payload : InfoPayload → Step B (Unit {0})
  serialize_info_payload x = do
    serialize_base_object_reply x.base
    serialize_object_info x.object_info

  unfoldable pub serialize_read_data_payload : ReadDataPayload → Step B (Unit {0})
  serialize_read_data_payload x = do
    serialize_base_object_request x.base
    serialize_read_specification x.read_specification
