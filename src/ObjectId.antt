-- ===== src/ObjectId.antt =====
-- src/c/core/session/object_id.c: object identifiers and their two raw octets.
pub mod RoundTrip
mod Tests
use micro_xrce_dds_client.Prelude.{ℕ, ◌+◌, ◌*◌, ◌/◌, ◌%◌, ◌^◌, bit_and}

pub record ObjectId : Type 0 where
  pub id : ℕ
  pub kind : ℕ

unfoldable pub object_id : ℕ → ℕ → ObjectId
object_id id kind = record { id = id; kind = kind }

-- The pair is `raw[0]`, `raw[1]`.
unfoldable pub object_id_from_raw : ℕ × ℕ → ObjectId
object_id_from_raw (raw0, raw1) = record {
  id = (raw0 * 2 ^ 4 + raw1 / 2 ^ 4) % 2 ^ 16;
  kind = bit_and raw1 0x0f;
}

unfoldable pub object_id_to_raw : ObjectId → ℕ × ℕ
object_id_to_raw o = (o.id / 2 ^ 4 % 256, (o.id % 256 * 2 ^ 4 + bit_and o.kind 0x0f) % 256)
