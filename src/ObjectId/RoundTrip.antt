-- ===== src/ObjectId/RoundTrip.antt =====
-- Object identifiers survive their raw form.
use micro_xrce_dds_client.Prelude.{ℕ, ◌*◌, ◌%◌, ◌+◌, ◌<◌, ◌≡◌, arith, bit_and, bit_and-low4}
use micro_xrce_dds_client.ObjectId.{object_id, object_id_from_raw, object_id_to_raw}

-- Of a 16-bit id and an 8-bit type the two raw octets keep the low 12 and the low 4 bits.
pub from_raw-to_raw :
    (i t : ℕ)
    → i < 65536
    → t < 256
    → object_id_from_raw (object_id_to_raw (object_id i t)) ≡ object_id (i % 4096) (t % 16)
unfolding object_id object_id_from_raw object_id_to_raw
from_raw-to_raw i t hi ht =
    ground (arith, bit_and-low4 t, bit_and-low4 ((i % 256 * 16 + bit_and t 0x0f) % 256))

-- Any two octets are the raw form of the identifier read from them.
pub to_raw-from_raw :
    (a b : ℕ) → a < 256 → b < 256 → object_id_to_raw (object_id_from_raw (a, b)) ≡ (a, b)
unfolding object_id_from_raw object_id_to_raw
to_raw-from_raw a b ha hb = ground (arith, bit_and-low4 b, bit_and-low4 (bit_and b 0x0f))
