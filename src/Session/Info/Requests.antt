-- ===== src/Session/Info/Requests.antt =====
-- The identifiers of the requests of a session.
use micro_xrce_dds_client.Prelude.{
  ℕ, zero, suc, ◌+◌, ◌-◌, ◌*◌, ◌/◌, ◌%◌, ◌^◌, ◌<◌, ◌≡◌, ◌≢◌, refl, ◌∙◌, ◌||◌, if◌then◌else◌, leb,
  ◌==◌, arith, [], ◌∷◌,
}
use micro_xrce_dds_client.ObjectId
use micro_xrce_dds_client.ObjectId.{object_id, object_id_to_raw, object_id_from_raw}
use micro_xrce_dds_client.ObjectId.RoundTrip.{from_raw-to_raw}
use micro_xrce_dds_client.Session.Info.{
  SessionInfo, generate_request_id, init_base_object_request, parse_base_object_request,
  reserved_requests_id,
}

-- The number of requests since the identifiers last started over.
abbrev position : SessionInfo → ℕ
position info =
    if info.last_request_id == 65535 || leb info.last_request_id reserved_requests_id
    then 0
    else info.last_request_id - reserved_requests_id

-- The session after a number of requests.
abbrev pub after_requests : ℕ → SessionInfo → SessionInfo
after_requests zero info = info
after_requests (suc n) info = after_requests n (generate_request_id info).0

-- The identifier of the request that follows them.
abbrev pub nth_request_id : ℕ → SessionInfo → ℕ
nth_request_id n info = (generate_request_id (after_requests n info)).1

generate-position :
    (info : SessionInfo)
    → info.last_request_id < 2 ^ 16
    → ((generate_request_id info).0.last_request_id < 2 ^ 16)
      × ((generate_request_id info).1 ≡ 10 + position info % 65526)
      × (position (generate_request_id info).0 ≡ (position info + 1) % 65526)
unfolding generate_request_id
generate-position info h = (ground arith, ground arith, ground arith)

nth_request_id_lem :
    (n : ℕ) (info : SessionInfo)
    → info.last_request_id < 2 ^ 16
    → nth_request_id n info ≡ 10 + (position info + n) % 65526
nth_request_id_lem zero info h = omega (arith, (generate-position info h).1)
nth_request_id_lem (suc n) info h =
    let (h', e, p) = generate-position info h in
    omega (arith, nth_request_id_lem n (generate_request_id info).0 h', p)

-- The requests of a session, whose last number is a 16-bit one: no identifier is one of the reserved
-- ones up to 9, each has 16 bits, and two requests that are less than 65526 requests apart have
-- different identifiers.
pub nth_request_id-distinct :
    (i j : ℕ) (info : SessionInfo)
    → info.last_request_id < 2 ^ 16
    → i < j
    → j < i + 65526
    → (9 < nth_request_id i info)
      × (nth_request_id i info < 2 ^ 16)
      × (nth_request_id i info ≢ nth_request_id j info)
nth_request_id-distinct i j info h hij hj =
    let ei = nth_request_id_lem i info h in
    let ej = nth_request_id_lem j info h in
    (omega (arith, ei), omega (arith, ei), λ e. omega (arith, ei, ej, e))

parse-octets :
    (o : ObjectId.ObjectId) (raw : ℕ × ℕ) (request_id : ℕ)
    → object_id_from_raw raw ≡ o
    → request_id < 2 ^ 16
    → parse_base_object_request (record {
      request_id = record { octets = request_id / 2 ^ 8 ∷ request_id % 2 ^ 8 ∷ [] };
      object_id = record { octets = raw.0 ∷ raw.1 ∷ [] };
    })
      ≡ (o, request_id)
unfolding parse_base_object_request
parse-octets o raw request_id e h = rw (e, word request_id h)
  where
    word : (q : ℕ) → q < 2 ^ 16 → (q / 256 * 256 + q % 256) % 65536 ≡ q
    word q h = omega arith

raw-object_id :
    (i t : ℕ)
    → i < 2 ^ 12
    → t < 2 ^ 4
    → object_id_from_raw (object_id_to_raw (object_id i t)) ≡ object_id i t
raw-object_id i t hi ht = from_raw-to_raw i t (omega arith) (omega arith) ∙ small i t hi ht
  where
    small : (i t : ℕ) → i < 4096 → t < 16 → object_id (i % 4096) (t % 16) ≡ object_id i t
    small i t hi ht = ground arith

-- What a new request writes for an object with an id of 12 and a type of 4 bits is read back as this
-- object and the identifier of the request, which the session keeps as its last one.
pub parse-init_base_object_request :
    (info : SessionInfo) (i t : ℕ)
    → info.last_request_id < 2 ^ 16
    → i < 2 ^ 12
    → t < 2 ^ 4
    → let (info', request_id, base) = init_base_object_request info (object_id i t) in
      (parse_base_object_request base ≡ (object_id i t, request_id))
      × (info'.last_request_id ≡ request_id)
unfolding init_base_object_request parse_base_object_request generate_request_id
parse-init_base_object_request info i t h hi ht =
    (parse-octets (object_id i t) _ _ (raw-object_id i t hi ht) (ground arith), refl)
