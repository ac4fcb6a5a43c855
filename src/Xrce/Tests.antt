-- ===== src/Xrce/Tests.antt =====
-- Payloads that are written and read, and the theorems on them.
use micro_xrce_dds_client.Prelude.{◌≤◌, ◌<◌, ◌≡◌, refl, true, false, List, [], ◌∷◌, length, arith}
use micro_xrce_dds_client.Xrce.Cdr.{read_sequence}
use micro_xrce_dds_client.Xrce.Cdr.Laws.{Item, uint8, uint32}
use micro_xrce_dds_client.Xrce.Cdr.Items.{Buffer, read, as_uint8, item_cdr, item_laws}
use micro_xrce_dds_client.Xrce.Object.{ObjkRepresentation3Formats}
use micro_xrce_dds_client.Xrce.Request.{BaseObjectRequest, ObjectVariant}
use micro_xrce_dds_client.Xrce.Payload.{CreatePayload}
use micro_xrce_dds_client.Xrce.Payload.Serialize.{serialize_create_payload}
use micro_xrce_dds_client.Xrce.Payload.Deserialize.{deserialize_create_payload}
use micro_xrce_dds_client.Xrce.Basic.Layout.{layout_object_id}
use micro_xrce_dds_client.Xrce.Entity.Layout.{layout_datareader_representation}
use micro_xrce_dds_client.Xrce.Object.Layout.{
  layout_objk_representation3_base, layout_objk_representation3_formats,
}
use micro_xrce_dds_client.Xrce.Payload.Layout.{layout_create_payload}
use micro_xrce_dds_client.Xrce.Request.Layout.{
  layout_base_object_request, layout_object_variant, layout_request_id,
}
use micro_xrce_dds_client.Xrce.RoundTrip.{
  deserialize_create_payload-serialize_create_payload, read_sequence_lem,
}

abbrev empty : Buffer
empty = record { written = []; unread = []; room = 64; error = false }

abbrev holding : List Item → Buffer
holding items = record { written = []; unread = items; room = 0; error = false }

abbrev request : BaseObjectRequest
request = record {
  request_id = record { octets = 0 ∷ 10 ∷ [] };
  object_id = record { octets = 0 ∷ 22 ∷ [] };
}

-- A data reader by its XML representation.
abbrev create_reader : CreatePayload
create_reader = record {
  base = request;
  object_representation = ObjectVariant.data_reader (record {
    base = record {
      representation = ObjkRepresentation3Formats.xml_string_represenatation (60 ∷ 47 ∷ 62 ∷ []);
    };
    subscriber_id = record { octets = 0 ∷ 20 ∷ [] };
  });
}

deserialize_create_payload-serialize_create_payload_example :
    ((serialize_create_payload create_reader empty).0 ≡ true)
    × (rest : Buffer) × (deserialize_create_payload
          (holding (serialize_create_payload create_reader empty).2.written)
        ≡ (true, create_reader, rest))
    × (rest.unread ≡ [])
unfolding layout_create_payload layout_base_object_request layout_request_id layout_object_id
    layout_object_variant layout_datareader_representation layout_objk_representation3_base
    layout_objk_representation3_formats
deserialize_create_payload-serialize_create_payload_example =
    deserialize_create_payload-serialize_create_payload create_reader
      ((refl, refl), (omega arith, refl)) empty (omega arith) refl
      (holding (serialize_create_payload create_reader empty).2.written) refl

-- Nine elements are announced to a destination of eight.
read_sequence_lem_example :
    let (ok, sequence, b') =
      read_sequence 8 (read as_uint8 0) (holding (uint32 9 ∷ uint8 1 ∷ [])) in
    (sequence.size ≡ 9)
    × (length sequence.elements ≤ 8)
    × (length sequence.elements ≤ 9)
    × (8 < 9
        → (ok ≡ false)
          × (sequence.elements ≡ [])
          × (b' ≡ record (holding (uint8 1 ∷ [])) { error = true }))
    × (ok ≡ true → (length sequence.elements ≡ 9) × (9 ≤ 8))
read_sequence_lem_example =
    read_sequence_lem 8 (read as_uint8 0) (holding (uint32 9 ∷ uint8 1 ∷ []))
