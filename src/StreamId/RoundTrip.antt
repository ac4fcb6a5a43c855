-- ===== src/StreamId/RoundTrip.antt =====
-- Raw octets and stream identifiers determine one another.
use micro_xrce_dds_client.Prelude.{ℕ, ◌<◌, ◌≡◌, arith}
use micro_xrce_dds_client.StreamId.{
  StreamType, StreamDirection, none_stream, best_effort_stream, reliable_stream,
  shared_memory_stream, stream_id, stream_id_from_raw,
}

-- The indices that fit the range of a stream type: one none stream, 127 best-effort streams, 128
-- reliable streams, and no identifier for a shared memory stream.
abbrev pub IndexFits : StreamType → ℕ → Type 0
IndexFits none_stream i = i < 1
IndexFits best_effort_stream i = i < 127
IndexFits reliable_stream i = i < 128
IndexFits shared_memory_stream i = i < 0

-- Reading back the raw octet of an identifier whose index fits gives the identifier.
pub from_raw-stream_id :
    (u i : ℕ) (t : StreamType) (d : StreamDirection)
    → IndexFits t i
    → stream_id_from_raw (stream_id u i t d).raw d ≡ stream_id u i t d
unfolding stream_id stream_id_from_raw
from_raw-stream_id u i none_stream d h = ground arith
from_raw-stream_id u i best_effort_stream d h = ground arith
from_raw-stream_id u i reliable_stream d h = ground arith
from_raw-stream_id u i shared_memory_stream d h = absurd (omega arith)

-- Every octet is the raw form of the identifier read from it, whose index fits.
pub stream_id-from_raw :
    (u raw : ℕ) (d : StreamDirection)
    → raw < 256
    → let s = stream_id_from_raw raw d in
      (stream_id u s.index s.kind s.direction ≡ s) × IndexFits s.kind s.index
unfolding stream_id stream_id_from_raw
stream_id-from_raw u raw d h = ground arith
