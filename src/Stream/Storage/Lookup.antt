-- ===== src/Stream/Storage/Lookup.antt =====
-- Which stream an identifier finds.
use mathlib.Core.Option.{map, none-ne-some, some-injective}
use micro_xrce_dds_client.Prelude.{
  ℕ, zero, suc, ◌<◌, ◌≡◌, ◌≢◌, ◌↔◌, refl, ap, ◌∙◌, sym, arith, true, Option, some, List, [], ◌∷◌,
  length,
}
use micro_xrce_dds_client.Prelude.Memory.{Memory}
use micro_xrce_dds_client.StreamId.{
  StreamId, stream_id, stream_id_from_raw, input_stream, output_stream, reliable_stream,
  best_effort_stream,
}
use micro_xrce_dds_client.StreamId.RoundTrip.{from_raw-stream_id}
use micro_xrce_dds_client.Stream.BestEffort.{
  init_input_best_effort_stream, init_output_best_effort_stream, reset_input_best_effort_stream,
  reset_output_best_effort_stream,
}
use micro_xrce_dds_client.Stream.InputReliable.{
  FragmentationInfo, init_input_reliable_stream, reset_input_reliable_stream,
}
use micro_xrce_dds_client.Stream.OutputReliable.{
  OutputReliableStream, init_output_reliable_stream, reset_output_reliable_stream,
  is_output_up_to_date,
}
use micro_xrce_dds_client.Stream.Storage.{
  StreamStorage, get_elem?, reset_stream_storage, add_output_reliable_buffer,
  add_input_reliable_buffer, add_input_best_effort_buffer, add_output_best_effort_buffer,
  get_output_reliable_stream, get_input_reliable_stream, get_input_best_effort_stream,
  get_output_best_effort_stream, confirmed_from, output_streams_confirmed,
}
use micro_xrce_dds_client.Stream.Storage.Arrays.{
  lookup, lookup-reset_from, lookup-modify, found-modify, lookup-cons, lookup-zero, lookup-nothing,
  lookup-empty,
}

-- The element `size` of an array that has room for it is set by `f`, and its index fits its type.
pub record Added {ℓ} {A : Type ℓ} (get : StreamStorage → ℕ → Option A) (f : A → A) (size : ℕ)
    (streams : List A) (storage storage' : StreamStorage) (id : StreamId) : Type ℓ where
  pub index : id.index ≡ size
  pub found :
      (stream : A) × (get_elem? streams size ≡ some stream)
      × (get storage' id.index ≡ some (f stream))
  pub others : (i : ℕ) → i ≢ size → get storage' i ≡ get storage i
  pub from_raw : stream_id_from_raw id.raw id.direction ≡ id

-- The stream that is added is found at the index of its identifier, as it was initialised, every other
-- stream is found as before, and the identifier is read back from its raw octet. The array has room for
-- one more stream, which C does not test, and there are fewer than 128 streams.
pub add_output_reliable_buffer-Added :
    (storage : StreamStorage) (buffer : Memory) (size history header_offset : ℕ)
    → storage.output_reliable_size < 128
    → storage.output_reliable_size < length storage.output_reliable
    → let (id, storage') = add_output_reliable_buffer storage buffer size history header_offset in
      Added get_output_reliable_stream
        (λ _. init_output_reliable_stream buffer size history header_offset)
        storage.output_reliable_size
        storage.output_reliable
        storage
        storage'
        id
unfolding add_output_reliable_buffer get_output_reliable_stream stream_id
add_output_reliable_buffer-Added storage buffer size history header_offset h room =
    let n = storage.output_reliable_size in
    record {
      index = refl;
      found = found-modify storage.output_reliable n _ (omega arith) room;
      others = λ i ne. lookup-modify storage.output_reliable n i _ (omega arith) ne;
      from_raw = from_raw-stream_id 0 n reliable_stream output_stream h;
    }

-- The same for the other three kinds of streams; of best-effort streams there are fewer than 127.
pub add_input_reliable_buffer-Added :
    (storage : StreamStorage) (buffer : Memory) (size history : ℕ) (cb : Memory → FragmentationInfo)
    → storage.input_reliable_size < 128
    → storage.input_reliable_size < length storage.input_reliable
    → let (id, storage') = add_input_reliable_buffer storage buffer size history cb in
      Added get_input_reliable_stream
        (λ _. init_input_reliable_stream buffer size history cb)
        storage.input_reliable_size
        storage.input_reliable
        storage
        storage'
        id
unfolding add_input_reliable_buffer get_input_reliable_stream stream_id
add_input_reliable_buffer-Added storage buffer size history cb h room =
    let n = storage.input_reliable_size in
    record {
      index = refl;
      found = found-modify storage.input_reliable n _ (omega arith) room;
      others = λ i ne. lookup-modify storage.input_reliable n i _ (omega arith) ne;
      from_raw = from_raw-stream_id 0 n reliable_stream input_stream h;
    }

pub add_output_best_effort_buffer-Added :
    (storage : StreamStorage) (size header_offset : ℕ)
    → storage.output_best_effort_size < 127
    → storage.output_best_effort_size < length storage.output_best_effort
    → let (id, storage') = add_output_best_effort_buffer storage size header_offset in
      Added get_output_best_effort_stream
        (λ stream. init_output_best_effort_stream stream size header_offset)
        storage.output_best_effort_size
        storage.output_best_effort
        storage
        storage'
        id
unfolding add_output_best_effort_buffer get_output_best_effort_stream stream_id
add_output_best_effort_buffer-Added storage size header_offset h room =
    let n = storage.output_best_effort_size in
    record {
      index = refl;
      found = found-modify storage.output_best_effort n _ (omega arith) room;
      others = λ i ne. lookup-modify storage.output_best_effort n i _ (omega arith) ne;
      from_raw = from_raw-stream_id 0 n best_effort_stream output_stream h;
    }

pub add_input_best_effort_buffer-Added :
    (storage : StreamStorage)
    → storage.input_best_effort_size < 127
    → storage.input_best_effort_size < length storage.input_best_effort
    → let (id, storage') = add_input_best_effort_buffer storage in
      Added get_input_best_effort_stream init_input_best_effort_stream
        storage.input_best_effort_size storage.input_best_effort storage storage' id
unfolding add_input_best_effort_buffer get_input_best_effort_stream stream_id
add_input_best_effort_buffer-Added storage h room =
    let n = storage.input_best_effort_size in
    record {
      index = refl;
      found = found-modify storage.input_best_effort n _ (omega arith) room;
      others = λ i ne. lookup-modify storage.input_best_effort n i _ (omega arith) ne;
      from_raw = from_raw-stream_id 0 n best_effort_stream input_stream h;
    }

-- Resetting the storage resets every stream that is in use, of all four kinds, and keeps which ones are.
pub get-reset_stream_storage :
    (storage : StreamStorage) (i : ℕ)
    → let storage' = reset_stream_storage storage in
      (get_output_best_effort_stream storage' i
        ≡ map reset_output_best_effort_stream (get_output_best_effort_stream storage i))
      × (get_output_reliable_stream storage' i
          ≡ map reset_output_reliable_stream (get_output_reliable_stream storage i))
      × (get_input_best_effort_stream storage' i
          ≡ map reset_input_best_effort_stream (get_input_best_effort_stream storage i))
      × (get_input_reliable_stream storage' i
          ≡ map reset_input_reliable_stream (get_input_reliable_stream storage i))
unfolding reset_stream_storage get_output_best_effort_stream get_output_reliable_stream
    get_input_best_effort_stream get_input_reliable_stream
get-reset_stream_storage storage i = (
  lookup-reset_from storage.output_best_effort storage.output_best_effort_size i
      reset_output_best_effort_stream,
  lookup-reset_from storage.output_reliable storage.output_reliable_size i
      reset_output_reliable_stream,
  lookup-reset_from storage.input_best_effort storage.input_best_effort_size i
      reset_input_best_effort_stream,
  lookup-reset_from storage.input_reliable storage.input_reliable_size i
      reset_input_reliable_stream,
)

abbrev AllConfirmed : ℕ → List OutputReliableStream → Type 0
AllConfirmed n streams =
    (i : ℕ) (stream : OutputReliableStream)
    → lookup streams n i ≡ some stream
    → is_output_up_to_date stream ≡ true

all_confirmed :
    (n : ℕ) (streams : List OutputReliableStream)
    → (confirmed_from n streams ≡ true) ↔ AllConfirmed n streams
unfolding confirmed_from
all_confirmed zero streams =
    (λ _ i s h. absurd (none-ne-some s (sym (lookup-nothing streams i) ∙ h)), λ _. refl)
all_confirmed (suc n) [] =
    (λ _ i s h. absurd (none-ne-some s (sym (lookup-empty (suc n) i) ∙ h)), λ _. refl)
all_confirmed (suc n) (x ∷ streams) =
    let (to, from) = all_confirmed n streams in
    (
      λ h. each (ground arith) (to (ground arith)),
      λ all.
          rw (all 0 x (lookup-zero x streams n))
            (from (λ i s e. all (suc i) s (lookup-cons x streams n i ∙ e))),
    )
  where
    each :
        is_output_up_to_date x ≡ true → AllConfirmed n streams → AllConfirmed (suc n) (x ∷ streams)
    each here rest zero s e =
        ap is_output_up_to_date (sym (some-injective x s (sym (lookup-zero x streams n) ∙ e)))
        ∙ here
    each here rest (suc i) s e = rest i s (sym (lookup-cons x streams n i) ∙ e)

-- The streams are confirmed exactly if every output reliable stream in use is up to date.
pub output_streams_confirmed_iff :
    (storage : StreamStorage)
    → (output_streams_confirmed storage ≡ true) ↔ (
        (i : ℕ) (stream : OutputReliableStream)
        → get_output_reliable_stream storage i ≡ some stream
        → is_output_up_to_date stream ≡ true)
unfolding output_streams_confirmed get_output_reliable_stream
output_streams_confirmed_iff storage =
    all_confirmed storage.output_reliable_size storage.output_reliable
