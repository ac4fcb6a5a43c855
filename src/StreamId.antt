-- ===== src/StreamId.antt =====
-- src/c/core/session/stream/stream_id.c: stream identifiers and their raw octet.
pub mod RoundTrip
mod Tests
use micro_xrce_dds_client.Prelude.{ℕ, ◌+◌, ◌-◌, ◌%◌, ltb, if◌then◌else◌}

pub data StreamType : Type 0 where
  none_stream best_effort_stream reliable_stream shared_memory_stream : StreamType

pub data StreamDirection : Type 0 where
  input_stream output_stream : StreamDirection

pub record StreamId : Type 0 where
  pub raw : ℕ
  pub index : ℕ
  pub kind : StreamType
  pub direction : StreamDirection

abbrev pub best_effort_stream_threshold : ℕ
best_effort_stream_threshold = 1

abbrev pub reliable_stream_threshold : ℕ
reliable_stream_threshold = 128

-- The `switch` of `uxr_stream_id`. `raw` is what the local variable held: no case of the switch
-- assigns it for a shared memory stream.
raw_of : ℕ → ℕ → StreamType → ℕ
raw_of raw index none_stream = 0
raw_of raw index best_effort_stream = (index + best_effort_stream_threshold) % 256
raw_of raw index reliable_stream = (index + reliable_stream_threshold) % 256
raw_of raw index shared_memory_stream = raw

unfoldable pub stream_id : ℕ → ℕ → StreamType → StreamDirection → StreamId
unfolding raw_of
stream_id raw index kind direction = record {
  raw = raw_of raw index kind;
  index = index;
  kind = kind;
  direction = direction;
}

unfoldable pub stream_id_from_raw : ℕ → StreamDirection → StreamId
stream_id_from_raw raw direction =
    if ltb raw best_effort_stream_threshold
    then record { raw = raw; index = raw; kind = none_stream; direction = direction }
    else if ltb raw reliable_stream_threshold
    then record {
      raw = raw;
      index = raw - best_effort_stream_threshold;
      kind = best_effort_stream;
      direction = direction;
    }
    else record {
      raw = raw;
      index = raw - reliable_stream_threshold;
      kind = reliable_stream;
      direction = direction;
    }
