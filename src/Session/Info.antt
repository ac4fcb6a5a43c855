-- ===== src/Session/Info.antt =====
-- core/session/session_info.c: the identity of a session, its requests and the header of its
-- messages.
pub mod Requests
pub mod Accepts
use micro_xrce_dds_client.Prelude.{
  ℕ, ◌+◌, ◌*◌, ◌/◌, ◌%◌, ◌^◌, Bool, true, false, ◌&&◌, ◌||◌, Option, none, some, List, [], ◌∷◌,
  get_or, if◌then◌else◌, ltb, leb, ◌==◌, bit_and,
}
use micro_xrce_dds_client.ObjectId.{object_id_from_raw, object_id_to_raw}
use micro_xrce_dds_client.ObjectId
use micro_xrce_dds_client.Session.Header.{
  MessageHeader, serialize_message_header, deserialize_message_header,
  session_id_without_client_key,
}
use micro_xrce_dds_client.Session.Submessage.{buffer_submessage_header}
use micro_xrce_dds_client.Xrce.Cdr.{MicroCdr}
use micro_xrce_dds_client.Xrce.Object.{ClientRepresentation}
use micro_xrce_dds_client.Xrce.Request.{BaseObjectRequest, RequestId}
use micro_xrce_dds_client.Xrce.Payload.{CreateClientPayload, DeletePayload}
use micro_xrce_dds_client.Xrce.Payload.Serialize.{
  serialize_create_client_payload, serialize_delete_payload,
}
use micro_xrce_dds_client.Xrce.Payload.Deserialize.{
  deserialize_status_agent_payload, deserialize_status_payload,
}

abbrev pub reserved_requests_id : ℕ
reserved_requests_id = 9

abbrev pub request_login : ℕ
request_login = 0x01

abbrev pub request_logout : ℕ
request_logout = 0x02

abbrev pub status_none : ℕ
status_none = 0xff

abbrev pub min_header_size : ℕ
min_header_size = 4

abbrev pub max_header_size : ℕ
max_header_size = 8

abbrev pub create_client_payload_size : ℕ
create_client_payload_size = 16

abbrev pub delete_client_payload_size : ℕ
delete_client_payload_size = 4

abbrev pub submessage_id_create_client : ℕ
submessage_id_create_client = 0

abbrev pub submessage_id_delete : ℕ
submessage_id_delete = 3

pub record SessionInfo : Type 0 where
  pub id : ℕ
  pub key : List ℕ
  pub last_requested_status : ℕ
  pub last_request_id : ℕ

unfoldable pub init_session_info : ℕ → ℕ → SessionInfo
init_session_info id key = record {
  id = id;
  key =
      key / 2 ^ 24 % 2 ^ 8
      ∷ key * 2 ^ 8 % 2 ^ 32 / 2 ^ 24
      ∷ key * 2 ^ 16 % 2 ^ 32 / 2 ^ 24
      ∷ key * 2 ^ 24 % 2 ^ 32 / 2 ^ 24
      ∷ [];
  last_requested_status = status_none;
  last_request_id = reserved_requests_id;
}

-- The new state, and the number that it keeps.
unfoldable pub generate_request_id : SessionInfo → SessionInfo × ℕ
generate_request_id session =
    let out_of_bounds =
      session.last_request_id == 65535 || leb session.last_request_id reserved_requests_id in
    let id =
      ((if out_of_bounds then reserved_requests_id else session.last_request_id) + 1) % 2 ^ 16 in
    (record session { last_request_id = id }, id)

unfoldable pub init_base_object_request :
    SessionInfo → ObjectId.ObjectId → SessionInfo × ℕ × BaseObjectRequest
unfolding generate_request_id
init_base_object_request info object_id =
    let (info', request_id) = generate_request_id info in
    let (raw0, raw1) = object_id_to_raw object_id in
    (
      info',
      request_id,
      record {
        request_id = record { octets = request_id / 2 ^ 8 ∷ request_id % 2 ^ 8 ∷ [] };
        object_id = record { octets = raw0 ∷ raw1 ∷ [] };
      },
    )

unfoldable pub parse_base_object_request : BaseObjectRequest → ObjectId.ObjectId × ℕ
parse_base_object_request base = (
  object_id_from_raw (get_or base.object_id.octets 0 0, get_or base.object_id.octets 1 0),
  (get_or base.request_id.octets 0 0 * 2 ^ 8 + get_or base.request_id.octets 1 0) % 2 ^ 16,
)

unfoldable pub session_header_offset : SessionInfo → ℕ
session_header_offset info =
    if ltb info.id session_id_without_client_key then max_header_size else min_header_size

unfoldable pub process_delete_session_status : SessionInfo → ℕ → ℕ → SessionInfo
process_delete_session_status info status request_id =
    if request_id == request_logout then record info { last_requested_status = status } else info

-- The payload of the default build, without properties.
unfoldable pub create_client_payload : SessionInfo → ℕ → CreateClientPayload
create_client_payload info mtu = record {
  client_representation = record {
    xrce_cookie = record { octets = 0x58 ∷ 0x52 ∷ 0x43 ∷ 0x45 ∷ [] };
    xrce_version = record { octets = 0x01 ∷ 0x00 ∷ [] };
    xrce_vendor_id = record { octets = 0x01 ∷ 0x0f ∷ [] };
    client_key = record {
      octets =
          get_or info.key 0 0
          ∷ get_or info.key 1 0
          ∷ get_or info.key 2 0
          ∷ get_or info.key 3 0
          ∷ [];
    };
    session_id = info.id;
    properties = none;
    mtu = mtu;
  };
}

unfoldable pub delete_client_payload : DeletePayload
delete_client_payload = record {
  base = record {
    request_id = record { octets = 0x00 ∷ request_logout ∷ [] };
    object_id = record { octets = 0xff ∷ 0xfe ∷ [] };
  };
}

-- `memcmp` of the keys.
unfoldable pub same_octets : List ℕ → List ℕ → Bool
same_octets [] [] = true
same_octets (x ∷ xs) (y ∷ ys) = x == y && same_octets xs ys
same_octets _ _ = false

-- A key that was not read is only compared if the session has none to compare it with.
unfoldable pub same_key : Option (List ℕ) → List ℕ → Bool
unfolding same_octets
same_key (some key) own = same_octets key own
same_key none own = false

-- The tests on a header that was read.
unfoldable pub is_session_header : SessionInfo → MessageHeader → Bool
is_session_header info header =
    header.session_id == info.id
    && (if ltb info.id session_id_without_client_key then same_key header.key info.key else true)

module _ {B : Type 0} ⦃cdr : MicroCdr B⦄ where
  unfoldable pub buffer_create_session : SessionInfo → ℕ → B → SessionInfo × B
  buffer_create_session info mtu ub =
      let ub' =
        (buffer_submessage_header submessage_id_create_client create_client_payload_size 0 ub).1 in
      (
        record info { last_request_id = request_login },
        (serialize_create_client_payload (create_client_payload info mtu) ub').2,
      )

  unfoldable pub buffer_delete_session : SessionInfo → B → SessionInfo × B
  buffer_delete_session info ub =
      let ub' = (buffer_submessage_header submessage_id_delete delete_client_payload_size 0 ub).1 in
      (
        record info { last_request_id = request_logout },
        (serialize_delete_payload delete_client_payload ub').2,
      )

  unfoldable pub read_create_session_status : SessionInfo → B → SessionInfo × B
  read_create_session_status info ub =
      let (_, payload, ub') = deserialize_status_agent_payload ub in
      (record info { last_requested_status = payload.result.status }, ub')

  unfoldable pub read_delete_session_status : SessionInfo → B → SessionInfo × B
  read_delete_session_status info ub =
      let (_, payload, ub') = deserialize_status_payload ub in
      let request_id = (parse_base_object_request payload.base.related_request).1 in
      (
        if info.last_request_id == request_logout
            then process_delete_session_status info payload.base.result.status request_id
            else info,
        ub',
      )

  -- The buffer is the one that is initialised over the message.
  unfoldable pub stamp_create_session_header : SessionInfo → B → B
  stamp_create_session_header info ub =
      (serialize_message_header (bit_and info.id session_id_without_client_key) 0 0 info.key ub).2

  unfoldable pub stamp_session_header : SessionInfo → ℕ → ℕ → B → B
  stamp_session_header info stream_id_raw seq_num ub =
      (serialize_message_header info.id stream_id_raw seq_num info.key ub).2

  -- Whether the message is for the session, the header if it was read, and the buffer behind it.
  unfoldable pub read_session_header : SessionInfo → B → Bool × Option MessageHeader × B
  read_session_header info ub =
      let (_, header, ub') = deserialize_message_header ub in
      if ltb max_header_size (cdr.buffer_remaining ub)
      then (is_session_header info header, some header, ub')
      else (false, none, ub)
