-- ===== src/ObjectId/Tests.antt =====
-- The theorems on object identifiers at concrete identifiers.
use micro_xrce_dds_client.Prelude.{◌≡◌, ◌%◌, arith}
use micro_xrce_dds_client.ObjectId.{object_id, object_id_from_raw, object_id_to_raw}
use micro_xrce_dds_client.ObjectId.RoundTrip.{from_raw-to_raw, to_raw-from_raw}

from_raw-to_raw_example :
    object_id_from_raw (object_id_to_raw (object_id 0x123 5)) ≡ object_id (0x123 % 4096) (5 % 16)
from_raw-to_raw_example = from_raw-to_raw 0x123 5 (omega arith) (omega arith)

to_raw-from_raw_example : object_id_to_raw (object_id_from_raw (0x12, 0x35)) ≡ (0x12, 0x35)
to_raw-from_raw_example = to_raw-from_raw 0x12 0x35 (omega arith) (omega arith)
