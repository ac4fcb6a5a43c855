-- ===== src/Stream/Storage.antt =====
-- src/c/core/session/stream/stream_storage.c: the streams of a session, in one array for each kind.
pub mod Arrays
pub mod Lookup
mod Tests
use micro_xrce_dds_client.Prelude.{
  ℕ, zero, suc, ◌+◌, ◌%◌, ◌^◌, Bool, true, false, Option, none, some, List, [], ◌∷◌, ltb,
  if◌then◌else◌,
}
use micro_xrce_dds_client.Prelude.Memory.{Memory}
use micro_xrce_dds_client.StreamId.{
  StreamId, StreamType, StreamDirection, best_effort_stream, reliable_stream, input_stream,
  output_stream, stream_id,
}
use micro_xrce_dds_client.Stream.BestEffort.{
  InputBestEffortStream, OutputBestEffortStream, init_input_best_effort_stream,
  init_output_best_effort_stream, reset_input_best_effort_stream, reset_output_best_effort_stream,
}
use micro_xrce_dds_client.Stream.InputReliable.{
  InputReliableStream, FragmentationInfo, init_input_reliable_stream, reset_input_reliable_stream,
}
use micro_xrce_dds_client.Stream.OutputReliable.{
  OutputReliableStream, init_output_reliable_stream, reset_output_reliable_stream,
  is_output_up_to_date,
}

-- `uxrStreamStorage`. The lengths of the lists are the capacities of the configuration. C does not test
-- that a count stays within its array: with a larger count it writes and returns memory behind the
-- array, which is no part of this state. The definitions follow the code for counts within the arrays.
pub record StreamStorage : Type 0 where
  pub output_best_effort : List OutputBestEffortStream
  pub output_best_effort_size : ℕ
  pub output_reliable : List OutputReliableStream
  pub output_reliable_size : ℕ
  pub input_best_effort : List InputBestEffortStream
  pub input_best_effort_size : ℕ
  pub input_reliable : List InputReliableStream
  pub input_reliable_size : ℕ

-- An element of an array; `none` behind its end.
unfoldable pub get_elem? {ℓ} : {A : Type ℓ} → List A → ℕ → Option A
get_elem? [] i = none
get_elem? (x ∷ xs) zero = some x
get_elem? (x ∷ xs) (suc i) = get_elem? xs i

-- `array[i] = f(array[i])`; behind the end of the array, where C writes to other
-- memory, nothing of the array is changed.
unfoldable pub modify {ℓ} : {A : Type ℓ} → List A → ℕ → (A → A) → List A
modify [] i f = []
modify (x ∷ xs) zero f = f x ∷ xs
modify (x ∷ xs) (suc i) f = x ∷ modify xs i f

unfoldable pub init_stream_storage : StreamStorage → StreamStorage
init_stream_storage storage = record storage {
  output_best_effort_size = 0;
  output_reliable_size = 0;
  input_best_effort_size = 0;
  input_reliable_size = 0;
}

-- The four loops of `uxr_reset_stream_storage`: the rounds left, and `i`.
unfoldable pub reset_from {ℓ} : {A : Type ℓ} → ℕ → ℕ → (A → A) → List A → List A
reset_from zero i reset streams = streams
reset_from (suc n) i reset streams = reset_from n (i + 1) reset (modify streams i reset)

unfoldable pub reset_stream_storage : StreamStorage → StreamStorage
reset_stream_storage storage = record storage {
  output_best_effort =
      reset_from storage.output_best_effort_size 0 reset_output_best_effort_stream
        storage.output_best_effort;
  input_best_effort =
      reset_from storage.input_best_effort_size 0 reset_input_best_effort_stream
        storage.input_best_effort;
  output_reliable =
      reset_from storage.output_reliable_size 0 reset_output_reliable_stream
        storage.output_reliable;
  input_reliable =
      reset_from storage.input_reliable_size 0 reset_input_reliable_stream storage.input_reliable;
}

-- The counts have 8 bits. The first argument of `stream_id` is not used for these types of streams.
unfoldable pub add_output_best_effort_buffer : StreamStorage → ℕ → ℕ → StreamId × StreamStorage
add_output_best_effort_buffer storage size header_offset =
    let index = storage.output_best_effort_size in
    (
      stream_id 0 index best_effort_stream output_stream,
      record storage {
        output_best_effort_size = (index + 1) % 2 ^ 8;
        output_best_effort =
            modify storage.output_best_effort index
              (λ stream. init_output_best_effort_stream stream size header_offset);
      },
    )

unfoldable pub add_output_reliable_buffer :
    StreamStorage → Memory → ℕ → ℕ → ℕ → StreamId × StreamStorage
add_output_reliable_buffer storage buffer size history header_offset =
    let index = storage.output_reliable_size in
    (
      stream_id 0 index reliable_stream output_stream,
      record storage {
        output_reliable_size = (index + 1) % 2 ^ 8;
        output_reliable =
            modify storage.output_reliable index
              (λ _. init_output_reliable_stream buffer size history header_offset);
      },
    )

unfoldable pub add_input_best_effort_buffer : StreamStorage → StreamId × StreamStorage
add_input_best_effort_buffer storage =
    let index = storage.input_best_effort_size in
    (
      stream_id 0 index best_effort_stream input_stream,
      record storage {
        input_best_effort_size = (index + 1) % 2 ^ 8;
        input_best_effort = modify storage.input_best_effort index init_input_best_effort_stream;
      },
    )

unfoldable pub add_input_reliable_buffer :
    StreamStorage → Memory → ℕ → ℕ → (Memory → FragmentationInfo) → StreamId × StreamStorage
add_input_reliable_buffer storage buffer size history on_get_fragmentation_info =
    let index = storage.input_reliable_size in
    (
      stream_id 0 index reliable_stream input_stream,
      record storage {
        input_reliable_size = (index + 1) % 2 ^ 8;
        input_reliable =
            modify storage.input_reliable index
              (λ _. init_input_reliable_stream buffer size history on_get_fragmentation_info);
      },
    )

-- `NULL` is `none`. An index below the count and behind the array, for which C returns a pointer behind the
-- array, gives `none` too: the counts have to be within the arrays.
unfoldable pub get_output_best_effort_stream : StreamStorage → ℕ → Option OutputBestEffortStream
get_output_best_effort_stream storage index =
    if ltb index storage.output_best_effort_size
    then get_elem? storage.output_best_effort index
    else none

unfoldable pub get_output_reliable_stream : StreamStorage → ℕ → Option OutputReliableStream
get_output_reliable_stream storage index =
    if ltb index storage.output_reliable_size then get_elem? storage.output_reliable index else none

unfoldable pub get_input_best_effort_stream : StreamStorage → ℕ → Option InputBestEffortStream
get_input_best_effort_stream storage index =
    if ltb index storage.input_best_effort_size
    then get_elem? storage.input_best_effort index
    else none

unfoldable pub get_input_reliable_stream : StreamStorage → ℕ → Option InputReliableStream
get_input_reliable_stream storage index =
    if ltb index storage.input_reliable_size then get_elem? storage.input_reliable index else none

-- The loop of `uxr_output_streams_confirmed`; behind the end of the array there is no stream.
unfoldable pub confirmed_from : ℕ → List OutputReliableStream → Bool
confirmed_from zero streams = true
confirmed_from (suc n) [] = true
confirmed_from (suc n) (stream ∷ streams) =
    let rest = confirmed_from n streams in if is_output_up_to_date stream then rest else false

unfoldable pub output_streams_confirmed : StreamStorage → Bool
output_streams_confirmed storage =
    confirmed_from storage.output_reliable_size storage.output_reliable
