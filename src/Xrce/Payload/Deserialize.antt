-- ===== src/Xrce/Payload/Deserialize.antt =====
-- xrce_types.c: the `uxr_deserialize_` functions of the payloads of requests and replies.
use micro_xrce_dds_client.Xrce.Cdr.{Step, MicroCdr, pure, ◌>>=◌}
use micro_xrce_dds_client.Xrce.Object.Deserialize.{
  deserialize_client_representation, deserialize_agent_representation,
}
use micro_xrce_dds_client.Xrce.Payload.{
  CreateClientPayload, CreatePayload, GetInfoPayload, DeletePayload, StatusAgentPayload,
  StatusPayload, InfoPayload, ReadDataPayload,
}
use micro_xrce_dds_client.Xrce.Request.Deserialize.{
  deserialize_object_variant, deserialize_result_status, deserialize_base_object_request,
  deserialize_object_info, deserialize_base_object_reply,
}
use micro_xrce_dds_client.Xrce.Sample.Deserialize.{deserialize_read_specification}

module _ {B : Type 0} ⦃cdr : MicroCdr B⦄ where
  unfoldable pub deserialize_create_client_payload : Step B CreateClientPayload
  deserialize_create_client_payload = do
    pure (record { client_representation = (← deserialize_client_representation) })

  unfoldable pub deserialize_create_payload : Step B CreatePayload
  deserialize_create_payload = do
    pure (record {
      base = (← deserialize_base_object_request);
      object_representation = (← deserialize_object_variant);
    })

  unfoldable pub deserialize_get_info_payload : Step B GetInfoPayload
  deserialize_get_info_payload = do
    pure (record {
      base = (← deserialize_base_object_request);
      info_mask = (← cdr.deserialize_uint32);
    })

  unfoldable pub deserialize_delete_payload : Step B DeletePayload
  deserialize_delete_payload = do pure (record { base = (← deserialize_base_object_request) })

  unfoldable pub deserialize_status_agent_payload : Step B StatusAgentPayload
  deserialize_status_agent_payload = do
    pure (record {
      result = (← deserialize_result_status);
      agent_info = (← deserialize_agent_representation);
    })

  unfoldable pub deserialize_status_payload : Step B StatusPayload
  deserialize_status_payload = do pure (record { base = (← deserialize_base_object_reply) })

  unfoldable pub deserialize_info_payload : Step B InfoPayload
  deserialize_info_payload = do
    pure (record {
      base = (← deserialize_base_object_reply);
      object_info = (← deserialize_object_info);
    })

  unfoldable pub deserialize_read_data_payload : Step B ReadDataPayload
  deserialize_read_data_payload = do
    pure (record {
      base = (← deserialize_base_object_request);
      read_specification = (← deserialize_read_specification);
    })
