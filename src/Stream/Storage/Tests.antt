-- ===== src/Stream/Storage/Tests.antt =====
-- The theorems on the stream storage at concrete storages.
use mathlib.Core.Option.{map}
use micro_xrce_dds_client.Prelude.{ℕ, ◌≡◌, ◌↔◌, arith, true, false, some, [], ◌∷◌}
use micro_xrce_dds_client.Prelude.Int.{pos}
use micro_xrce_dds_client.Stream.BestEffort.{
  reset_input_best_effort_stream, reset_output_best_effort_stream,
}
use micro_xrce_dds_client.Stream.InputReliable.{reset_input_reliable_stream}
use micro_xrce_dds_client.Stream.OutputReliable.{
  OutputReliableStream, init_output_reliable_stream, reset_output_reliable_stream,
  is_output_up_to_date,
}
use micro_xrce_dds_client.Stream.Storage.{
  StreamStorage, reset_stream_storage, add_output_reliable_buffer, get_output_reliable_stream,
  get_input_reliable_stream, get_input_best_effort_stream, get_output_best_effort_stream,
  output_streams_confirmed,
}
use micro_xrce_dds_client.Stream.Storage.Lookup.{
  Added, add_output_reliable_buffer-Added, get-reset_stream_storage, output_streams_confirmed_iff,
}

abbrev output : OutputReliableStream
output = record {
  base = record { buffer = λ i. 0; size = 64; history = 4 };
  offset = 8;
  last_written = 3;
  last_sent = 2;
  last_acknown = 2;
  next_heartbeat_timestamp = pos 0;
  next_heartbeat_tries = 0;
  send_lost = false;
}

-- Two output reliable streams, of which one is in use, and an input best-effort stream.
abbrev storage : StreamStorage
storage = record {
  output_best_effort = [];
  output_best_effort_size = 0;
  output_reliable = output ∷ output ∷ [];
  output_reliable_size = 1;
  input_best_effort = record { last_handled = 4 } ∷ [];
  input_best_effort_size = 1;
  input_reliable = [];
  input_reliable_size = 0;
}

add_output_reliable_buffer-Added_example :
    let (id, storage') = add_output_reliable_buffer storage (λ i. 1) 128 8 12 in
    Added get_output_reliable_stream
      (λ _. init_output_reliable_stream (λ i. 1) 128 8 12)
      1
      (output ∷ output ∷ [])
      storage
      storage'
      id
add_output_reliable_buffer-Added_example =
    add_output_reliable_buffer-Added storage (λ i. 1) 128 8 12 (omega arith) (omega arith)

get-reset_stream_storage_example :
    let storage' = reset_stream_storage storage in
    (get_output_best_effort_stream storage' 0
      ≡ map reset_output_best_effort_stream (get_output_best_effort_stream storage 0))
    × (get_output_reliable_stream storage' 0
        ≡ map reset_output_reliable_stream (get_output_reliable_stream storage 0))
    × (get_input_best_effort_stream storage' 0
        ≡ map reset_input_best_effort_stream (get_input_best_effort_stream storage 0))
    × (get_input_reliable_stream storage' 0
        ≡ map reset_input_reliable_stream (get_input_reliable_stream storage 0))
get-reset_stream_storage_example = get-reset_stream_storage storage 0

output_streams_confirmed_iff_example : (output_streams_confirmed storage ≡ true) ↔ (
    (i : ℕ) (stream : OutputReliableStream)
    → get_output_reliable_stream storage i ≡ some stream
    → is_output_up_to_date stream ≡ true)
output_streams_confirmed_iff_example = output_streams_confirmed_iff storage
