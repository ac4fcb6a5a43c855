-- ===== src/Xrce/Payload/Codec.antt =====
-- What is written for one of the payloads of requests and replies is its items, and these are read back as the value.
use micro_xrce_dds_client.Xrce.Cdr.{MicroCdr}
use micro_xrce_dds_client.Xrce.Cdr.Laws.{Laws, Codec}
use micro_xrce_dds_client.Xrce.Cdr.Rules.{Codec->>, Codec-last}
use micro_xrce_dds_client.Xrce.Object.Codec.{
  client_representation-Codec, agent_representation-Codec,
}
use micro_xrce_dds_client.Xrce.Payload.{
  CreateClientPayload, CreatePayload, GetInfoPayload, DeletePayload, StatusAgentPayload,
  StatusPayload, InfoPayload, ReadDataPayload,
}
use micro_xrce_dds_client.Xrce.Payload.Deserialize.{
  deserialize_create_client_payload, deserialize_create_payload, deserialize_get_info_payload,
  deserialize_delete_payload, deserialize_status_agent_payload, deserialize_status_payload,
  deserialize_info_payload, deserialize_read_data_payload,
}
use micro_xrce_dds_client.Xrce.Payload.Layout.{
  layout_create_client_payload, layout_create_payload, layout_get_info_payload,
  layout_delete_payload, layout_status_agent_payload, layout_status_payload, layout_info_payload,
  layout_read_data_payload, IsValidCreateClientPayload, IsValidCreatePayload, IsValidGetInfoPayload,
  IsValidDeletePayload, IsValidStatusAgentPayload, IsValidStatusPayload, IsValidInfoPayload,
  IsValidReadDataPayload,
}
use micro_xrce_dds_client.Xrce.Payload.Serialize.{
  serialize_create_client_payload, serialize_create_payload, serialize_get_info_payload,
  serialize_delete_payload, serialize_status_agent_payload, serialize_status_payload,
  serialize_info_payload, serialize_read_data_payload,
}
use micro_xrce_dds_client.Xrce.Request.Codec.{
  object_variant-Codec, result_status-Codec, base_object_request-Codec, object_info-Codec,
  base_object_reply-Codec,
}
use micro_xrce_dds_client.Xrce.Sample.Codec.{read_specification-Codec}

module _ {B : Type 0} ⦃cdr : MicroCdr B⦄ ⦃laws : Laws cdr⦄ where
  create_client_payload-Codec :
      (x : CreateClientPayload)
      → IsValidCreateClientPayload x
      → Codec laws.view
          (serialize_create_client_payload x)
          deserialize_create_client_payload
          (layout_create_client_payload x)
          x
  unfolding serialize_create_client_payload deserialize_create_client_payload
      layout_create_client_payload
  create_client_payload-Codec x h1 =
      Codec-last _ (client_representation-Codec x.client_representation h1)

  pub create_payload-Codec :
      (x : CreatePayload)
      → IsValidCreatePayload x
      → Codec laws.view
          (serialize_create_payload x)
          deserialize_create_payload
          (layout_create_payload x)
          x
  unfolding serialize_create_payload deserialize_create_payload layout_create_payload
  create_payload-Codec x (h1, h2) =
      Codec->> _ (base_object_request-Codec x.base h1)
        (Codec-last _ (object_variant-Codec x.object_representation h2))

  get_info_payload-Codec :
      (x : GetInfoPayload)
      → IsValidGetInfoPayload x
      → Codec laws.view
          (serialize_get_info_payload x)
          deserialize_get_info_payload
          (layout_get_info_payload x)
          x
  unfolding serialize_get_info_payload deserialize_get_info_payload layout_get_info_payload
  get_info_payload-Codec x h1 =
      Codec->> _ (base_object_request-Codec x.base h1)
        (Codec-last _ (laws.codec_uint32 x.info_mask))

  delete_payload-Codec :
      (x : DeletePayload)
      → IsValidDeletePayload x
      → Codec laws.view
          (serialize_delete_payload x)
          deserialize_delete_payload
          (layout_delete_payload x)
          x
  unfolding serialize_delete_payload deserialize_delete_payload layout_delete_payload
  delete_payload-Codec x h1 = Codec-last _ (base_object_request-Codec x.base h1)

  status_agent_payload-Codec :
      (x : StatusAgentPayload)
      → IsValidStatusAgentPayload x
      → Codec laws.view
          (serialize_status_agent_payload x)
          deserialize_status_agent_payload
          (layout_status_agent_payload x)
          x
  unfolding serialize_status_agent_payload deserialize_status_agent_payload
      layout_status_agent_payload
  status_agent_payload-Codec x h1 =
      Codec->> _ (result_status-Codec x.result)
        (Codec-last _ (agent_representation-Codec x.agent_info h1))

  status_payload-Codec :
      (x : StatusPayload)
      → IsValidStatusPayload x
      → Codec laws.view
          (serialize_status_payload x)
          deserialize_status_payload
          (layout_status_payload x)
          x
  unfolding serialize_status_payload deserialize_status_payload layout_status_payload
  status_payload-Codec x h1 = Codec-last _ (base_object_reply-Codec x.base h1)

  info_payload-Codec :
      (x : InfoPayload)
      → IsValidInfoPayload x
      → Codec laws.view
          (serialize_info_payload x)
          deserialize_info_payload
          (layout_info_payload x)
          x
  unfolding serialize_info_payload deserialize_info_payload layout_info_payload
  info_payload-Codec x (h1, h2) =
      Codec->> _ (base_object_reply-Codec x.base h1)
        (Codec-last _ (object_info-Codec x.object_info h2))

  read_data_payload-Codec :
      (x : ReadDataPayload)
      → IsValidReadDataPayload x
      → Codec laws.view
          (serialize_read_data_payload x)
          deserialize_read_data_payload
          (layout_read_data_payload x)
          x
  unfolding serialize_read_data_payload deserialize_read_data_payload layout_read_data_payload
  read_data_payload-Codec x (h1, h2) =
      Codec->> _ (base_object_request-Codec x.base h1)
        (Codec-last _ (read_specification-Codec x.read_specification h2))
