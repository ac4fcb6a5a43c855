-- ===== src/Session/Status/Latest.antt =====
-- What a run knows of its requests is the latest status that came for each.
use micro_xrce_dds_client.Prelude.{
  ℕ, ◌≡◌, ◌≢◌, ◌↔◌, ◌⊎◌, inl, inr, refl, sym, ap, ◌∙◌, Bool, true, false, List, [], ◌∷◌, All,
  if◌then◌else◌, ◌==◌, ==_iff, Bool-cases, ◌&&◌, ◌||◌, arith,
}
use mathlib.Core.List.{map}
use mathlib.Core.Path.{subst}
use micro_xrce_dds_client.Session.Info.{status_none}
use micro_xrce_dds_client.Session.Status.{
  process_status, clear_statuses, confirmed, all_confirmed, all_ok, status_ok, status_ok_matched,
  invalid_request_id,
}

abbrev pub Distinct : List ℕ → Type 0
Distinct [] = Unit {0}
Distinct (x ∷ xs) = All (λ y. x ≢ y) xs × Distinct xs

-- The statuses of the submessages that were read, with their requests, in their order.
abbrev pub process_all : List ℕ → List (ℕ × ℕ) → List ℕ → List ℕ
process_all requests [] statuses = statuses
process_all requests ((id, status) ∷ received) statuses =
    process_all requests received (process_status requests id status statuses)

-- The latest status of one request, or the one before.
abbrev pub latest : List (ℕ × ℕ) → ℕ → ℕ → ℕ
latest [] before request = before
latest ((id, status) ∷ received) before request =
    latest received (if id == request then status else before) request

other : (f : ℕ → ℕ) (id status x : ℕ) → id ≢ x → f x ≡ (if id == x then status else f x)
other f id status x ne = ground arith

others :
    (f : ℕ → ℕ) (id status : ℕ) (xs : List ℕ)
    → All (λ y. id ≢ y) xs
    → map f xs ≡ map (λ x. if id == x then status else f x) xs
others f id status [] h = refl
others f id status (x ∷ xs) (ne, h) = cc (others f id status xs h, other f id status x ne)

process_status-map :
    (f : ℕ → ℕ) (id status : ℕ) (requests : List ℕ)
    → Distinct requests
    → process_status requests id status (map f requests)
      ≡ map (λ x. if id == x then status else f x) requests
unfolding process_status
process_status-map f id status [] d = refl
process_status-map f id status (r ∷ requests) (ne, d) = elim (Bool-cases (id == r)) [
  | inl e ↦
      let same = (==_iff id r).0 e in
      let rest =
        subst (λ z. map f requests ≡ map (λ x. if z == x then status else f x) requests) (sym same)
          (others f r status requests ne) in
      rw e (ap (λ t. status ∷ t) rest)
  | inr e ↦ rw e (ap (λ t. f r ∷ t) (process_status-map f id status requests d))
]

process_all-map :
    (received : List (ℕ × ℕ)) (f : ℕ → ℕ) (requests : List ℕ)
    → Distinct requests
    → process_all requests received (map f requests) ≡ map (λ r. latest received (f r) r) requests
process_all-map [] f requests d = refl
process_all-map ((id, status) ∷ received) f requests d =
    ap (process_all requests received) (process_status-map f id status requests d)
    ∙ process_all-map received (λ r. if id == r then status else f r) requests d

clear_statuses_lem : (requests : List ℕ) → clear_statuses requests ≡ map (λ _. status_none) requests
unfolding clear_statuses
clear_statuses_lem [] = refl
clear_statuses_lem (r ∷ requests) = ap (λ t. status_none ∷ t) (clear_statuses_lem requests)

&&-iff : {P Q : Type 0} (a b : Bool) → (a ≡ true) ↔ P → (b ≡ true) ↔ Q → ((a && b) ≡ true) ↔ P × Q
&&-iff true b p q = (λ h. (p.0 refl, q.0 h), λ (_, y). q.1 y)
&&-iff false b p q = (λ h. cc, λ (x, _). p.1 x)

confirmed_iff :
    (request status : ℕ)
    → (confirmed request status ≡ true) ↔ (status ≢ status_none) ⊎ (request ≡ invalid_request_id)
unfolding confirmed
confirmed_iff request status = grind arith

all_confirmed_iff :
    (g : ℕ → ℕ) (requests : List ℕ)
    → (all_confirmed requests (map g requests) ≡ true)
      ↔ All (λ r. (g r ≢ status_none) ⊎ (r ≡ invalid_request_id)) requests
unfolding all_confirmed
all_confirmed_iff g [] = (λ _. tt, λ _. refl)
all_confirmed_iff g (r ∷ requests) =
    &&-iff (confirmed r (g r)) (all_confirmed requests (map g requests)) (confirmed_iff r (g r))
      (all_confirmed_iff g requests)

ok_iff :
    (s : ℕ)
    → ((s == status_ok || s == status_ok_matched) ≡ true)
      ↔ (s ≡ status_ok) ⊎ (s ≡ status_ok_matched)
ok_iff s = grind arith

all_ok_iff :
    (g : ℕ → ℕ) (requests : List ℕ)
    → (all_ok (map g requests) ≡ true)
      ↔ All (λ r. (g r ≡ status_ok) ⊎ (g r ≡ status_ok_matched)) requests
unfolding all_ok
all_ok_iff g [] = (λ _. tt, λ _. refl)
all_ok_iff g (r ∷ requests) =
    &&-iff (g r == status_ok || g r == status_ok_matched) (all_ok (map g requests)) (ok_iff (g r))
      (all_ok_iff g requests)

-- For requests with distinct identifiers: after any statuses, in any order, the list of the run holds
-- the latest status of each request; all are confirmed exactly if each has a status or is the
-- invalid request, and the run succeeds exactly if the latest status of each is one of the two good
-- ones.
pub process_all-latest :
    (requests : List ℕ) (received : List (ℕ × ℕ))
    → Distinct requests
    → let statuses = process_all requests received (clear_statuses requests) in
      let status_of = latest received status_none in
      (statuses ≡ map status_of requests)
      × ((all_confirmed requests statuses ≡ true)
          ↔ All (λ r. (status_of r ≢ status_none) ⊎ (r ≡ invalid_request_id)) requests)
      × ((all_ok statuses ≡ true)
          ↔ All (λ r. (status_of r ≡ status_ok) ⊎ (status_of r ≡ status_ok_matched)) requests)
process_all-latest requests received d =
    let e =
      ap (process_all requests received) (clear_statuses_lem requests)
      ∙ process_all-map received (λ _. status_none) requests d in
    let status_of = latest received status_none in
    (e, rw e (all_confirmed_iff status_of requests), rw e (all_ok_iff status_of requests))
