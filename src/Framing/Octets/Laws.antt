-- ===== src/Framing/Octets/Laws.antt =====
-- What one added octet appends to the pending bytes of the write buffer.
use micro_xrce_dds_client.Prelude.{
  ℕ, zero, suc, ◌+◌, ◌≤◌, ◌<◌, ◌≡◌, refl, ap, true, false, ◌||◌, List, [], ◌∷◌, ◌++◌, length, take,
  set, ◌==◌, if◌then◌else◌, bit_xor, arith, take-suc-set, length-set,
}
use micro_xrce_dds_client.Framing.{
  FramingIo, IsValid, buffer_size, framing_begin_flag, framing_esc_flag, framing_xor_flag,
}
use micro_xrce_dds_client.Framing.Octets.{add_next_octet}

-- The octets that stand for one octet on the wire.
unfoldable pub escape : ℕ → List ℕ
escape octet =
    if octet == framing_begin_flag || octet == framing_esc_flag
    then framing_esc_flag ∷ bit_xor octet framing_xor_flag ∷ []
    else octet ∷ []

-- The bytes of the write buffer that wait for the transport.
abbrev pub pending : FramingIo → List ℕ
pending io = take io.wb_pos io.wb

take-set_twice :
    (n : ℕ) (xs : List ℕ) (v w : ℕ)
    → n + 1 < length xs
    → take (n + 2) (set (set xs n v) (n + 1) w) ≡ take n xs ++ (v ∷ w ∷ [])
take-set_twice zero (x ∷ y ∷ xs) v w h = refl
take-set_twice zero (x ∷ []) v w h = absurd (omega arith)
take-set_twice n [] v w h = absurd (omega arith)
take-set_twice (suc n) (x ∷ xs) v w h =
    let e : suc n + 2 ≡ suc (n + 2) = omega arith in
    let e' : suc n + 1 ≡ suc (n + 1) = omega arith in
    rw (e, e') (ap (λ ys. x ∷ ys) (take-set_twice n xs v w (omega arith)))

take-add-one_set :
    (n : ℕ) (xs : List ℕ) (v : ℕ)
    → n < length xs
    → take (n + 1) (set xs n v) ≡ take n xs ++ (v ∷ [])
take-add-one_set n xs v h = let e : n + 1 ≡ suc n = omega arith in rw e (take-suc-set n xs v h)

-- The octet `octet`, added to `io`, has given `io'`.
pub record Added (io : FramingIo) (octet : ℕ) (io' : FramingIo) : Type 0 where
  pub valid : IsValid io'
  pub appended : pending io' ≡ pending io ++ escape octet
  pub moved : io'.wb_pos ≡ io.wb_pos + length (escape octet)
  pub addr : io'.local_addr ≡ io.local_addr

-- An octet that finds room is appended in its escaped form.
pub add_next_octet-Added :
    {io : FramingIo} (octet : ℕ)
    → IsValid io
    → io.wb_pos + length (escape octet) ≤ buffer_size
    → ((add_next_octet io octet).0 ≡ true) × Added io octet (add_next_octet io octet).1
unfolding add_next_octet escape
add_next_octet-Added {io} octet v h = ground (
  arith,
  take-set_twice io.wb_pos io.wb framing_esc_flag (bit_xor octet framing_xor_flag),
  take-add-one_set io.wb_pos io.wb octet,
  length-set io.wb io.wb_pos octet,
  length-set io.wb io.wb_pos framing_esc_flag,
  length-set (set io.wb io.wb_pos framing_esc_flag) (io.wb_pos + 1)
      (bit_xor octet framing_xor_flag),
)

-- An octet that finds no room is refused, and changes nothing.
pub add_next_octet-full :
    {io : FramingIo} (octet : ℕ)
    → IsValid io
    → buffer_size < io.wb_pos + length (escape octet)
    → add_next_octet io octet ≡ (false, io)
unfolding add_next_octet escape
add_next_octet-full {io} octet v h = ground arith

pub length-escape : (octet : ℕ) → (1 ≤ length (escape octet)) × (length (escape octet) ≤ 2)
unfolding escape
length-escape octet = ground arith
