-- ===== src/Session/Tests.antt =====
-- Runs of a session's requests, headers and output streams, and the theorems on them.
use mathlib.Core.List.{map}
use micro_xrce_dds_client.Prelude.{
  ◌⊎◌, ℕ, ◌^◌, ◌<◌, ◌≡◌, ◌≢◌, ◌↔◌, refl, Bool, true, false, some, List, [], ◌∷◌, ◌++◌, All, arith,
  if◌then◌else◌, ◌==◌,
}
use micro_xrce_dds_client.Prelude.Int.{pos}
use micro_xrce_dds_client.SeqNum.{seq_num_sub}
use micro_xrce_dds_client.ObjectId.{object_id}
use micro_xrce_dds_client.Stream.OutputReliable.{OutputReliableStream}
use micro_xrce_dds_client.Stream.OutputReliable.Acknack.{IsOutput}
use micro_xrce_dds_client.Stream.OutputReliable.Flow.{IsFlow}
use micro_xrce_dds_client.Xrce.Cdr.{◌>>◌}
use micro_xrce_dds_client.Xrce.Cdr.Laws.{Item}
use micro_xrce_dds_client.Xrce.Cdr.Items.{Buffer, item_cdr, item_laws}
use micro_xrce_dds_client.Session.Header.{serialize_message_header, serialize_key}
use micro_xrce_dds_client.Session.Info.{
  SessionInfo, generate_request_id, init_session_info, init_base_object_request,
  parse_base_object_request, stamp_session_header, read_session_header,
}
use micro_xrce_dds_client.Session.Info.Requests.{
  nth_request_id, nth_request_id-distinct, parse-init_base_object_request,
}
use micro_xrce_dds_client.Session.Info.Accepts.{
  header_of, layout_message_header, read_session_header-stamp_session_header,
}
use micro_xrce_dds_client.Session.Status.{process_status, clear_statuses, all_confirmed, all_ok}
use micro_xrce_dds_client.Session.Status.Latest.{process_all, latest, process_all-latest}
use micro_xrce_dds_client.Session.Flush.{Communication, flash_reliable_streams}
use micro_xrce_dds_client.Session.Flush.Drained.{
  InUse, Drained, Works, flash_reliable_streams-drains,
}

abbrev session : SessionInfo
session = record {
  id = 0x01;
  key = 0xaa ∷ 0xbb ∷ 0xcc ∷ 0xdd ∷ [];
  last_requested_status = 0xff;
  last_request_id = 65534;
}

key_octets : init_session_info 0x01 0xaabbccdd ≡ record session { last_request_id = 9 }
unfolding init_session_info
key_octets = refl

-- The identifiers start over behind the largest.
request_ids : (nth_request_id 0 session ≡ 65535) × (nth_request_id 1 session ≡ 10)
unfolding generate_request_id
request_ids = (refl, refl)

nth_request_id-distinct_example :
    (9 < nth_request_id 0 session)
    × (nth_request_id 0 session < 2 ^ 16)
    × (nth_request_id 0 session ≢ nth_request_id 2 session)
nth_request_id-distinct_example =
    nth_request_id-distinct 0 2 session (omega arith) (omega arith) (omega arith)

parse-init_base_object_request_example :
    let (info', request_id, base) = init_base_object_request session (object_id 22 3) in
    (parse_base_object_request base ≡ (object_id 22 3, request_id))
    × (info'.last_request_id ≡ request_id)
parse-init_base_object_request_example =
    parse-init_base_object_request session 22 3 (omega arith) (omega arith) (omega arith)

abbrev empty : Buffer
empty = record { written = []; unread = []; room = 16; error = false }

abbrev message : Buffer
message = record {
  written = [];
  unread = layout_message_header session 0x80 7 ++ Item.uint8 5 ∷ [];
  room = 0;
  error = false;
}

read_session_header-stamp_session_header_example :
    (accepted : Bool) × (rest : Buffer) × (read_session_header session message
      ≡ (accepted, some (header_of session 0x80 7), rest))
    × (rest.unread ≡ Item.uint8 5 ∷ [])
    × ((accepted ≡ true)
        ↔ (session.id ≡ session.id) × (session.id < 128 → session.key ≡ session.key))
unfolding stamp_session_header serialize_message_header serialize_key ◌>>◌
read_session_header-stamp_session_header_example =
    read_session_header-stamp_session_header session session 0x80 7 empty message
      (Item.uint8 5 ∷ []) refl (omega arith) refl refl (omega arith)

-- Messages 1 and 2 are on the way, 3 is written and not sent. A free slot has the length 8.
abbrev output : OutputReliableStream
output = record {
  base = record {
    buffer = λ i.
        if i == 0
        then 8
        else if i == 16
        then 12
        else if i == 32
        then 12
        else if i == 48
        then 12
        else 0;
    size = 64;
    history = 4;
  };
  offset = 8;
  last_written = 3;
  last_sent = 2;
  last_acknown = 0;
  next_heartbeat_timestamp = pos 0;
  next_heartbeat_tries = 0;
  send_lost = false;
}

output-IsOutput : IsOutput output
output-IsOutput = omega arith

output-IsFlow : IsFlow output
output-IsFlow = record { output = output-IsOutput; window = unfold seq_num_sub in omega arith }

-- An instance that keeps what it is given.
abbrev keeping : Communication (List (List ℕ))
keeping = record { send_msg = λ kept bytes. (true, bytes ∷ kept) }

flash_reliable_streams-drains_example :
    (streams : List OutputReliableStream) × (kept : List (List ℕ)) × (flash_reliable_streams Buffer
        keeping session
        (2 ^ 16)
        1
        0
        (output ∷ [])
        []
      ≡ some (streams, kept))
    × All IsFlow streams
    × (Works keeping → InUse Drained 1 0 streams)
flash_reliable_streams-drains_example =
    flash_reliable_streams-drains Buffer keeping session (2 ^ 16) 1 0 (output ∷ []) [] (omega arith)
      (output-IsFlow, tt)

-- The first request gets two statuses, the second one, and there is one for another request.
abbrev received : List (ℕ × ℕ)
received = (10, 0x80) ∷ (12, 0x00) ∷ (11, 0x01) ∷ (10, 0x00) ∷ []

statuses : process_all (10 ∷ 11 ∷ []) received (clear_statuses (10 ∷ 11 ∷ [])) ≡ 0x00 ∷ 0x01 ∷ []
unfolding process_status clear_statuses
statuses = refl

process_all-latest_example :
    let statuses = process_all (10 ∷ 11 ∷ []) received (clear_statuses (10 ∷ 11 ∷ [])) in
    let status_of = latest received 0xff in
    (statuses ≡ map status_of (10 ∷ 11 ∷ []))
    × ((all_confirmed (10 ∷ 11 ∷ []) statuses ≡ true)
        ↔ All (λ r. (status_of r ≢ 0xff) ⊎ (r ≡ 0)) (10 ∷ 11 ∷ []))
    × ((all_ok statuses ≡ true)
        ↔ All (λ r. (status_of r ≡ 0x00) ⊎ (status_of r ≡ 0x01)) (10 ∷ 11 ∷ []))
process_all-latest_example =
    process_all-latest (10 ∷ 11 ∷ []) received ((omega arith, tt), (tt, tt))
