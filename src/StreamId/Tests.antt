-- ===== src/StreamId/Tests.antt =====
-- The theorems on stream identifiers at concrete identifiers.
use micro_xrce_dds_client.Prelude.{◌≡◌, arith}
use micro_xrce_dds_client.StreamId.{
  reliable_stream, output_stream, input_stream, stream_id, stream_id_from_raw,
}
use micro_xrce_dds_client.StreamId.RoundTrip.{IndexFits, from_raw-stream_id, stream_id-from_raw}

from_raw-stream_id_example :
    stream_id_from_raw (stream_id 0 5 reliable_stream output_stream).raw output_stream
    ≡ stream_id 0 5 reliable_stream output_stream
from_raw-stream_id_example = from_raw-stream_id 0 5 reliable_stream output_stream (omega arith)

stream_id-from_raw_example :
    let s = stream_id_from_raw 133 input_stream in
    (stream_id 0 s.index s.kind s.direction ≡ s) × IndexFits s.kind s.index
stream_id-from_raw_example = stream_id-from_raw 0 133 input_stream (omega arith)
