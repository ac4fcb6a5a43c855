-- ===== src/Session/Status.antt =====
-- core/session/session.c: the statuses that the agent sends for the requests of a run.
pub mod Latest
use micro_xrce_dds_client.Prelude.{
  ℕ, Bool, true, false, not, ◌&&◌, ◌||◌, List, [], ◌∷◌, if◌then◌else◌, ◌==◌,
}
use micro_xrce_dds_client.Session.Info.{status_none}

abbrev pub status_ok : ℕ
status_ok = 0x00

abbrev pub status_ok_matched : ℕ
status_ok_matched = 0x01

abbrev pub invalid_request_id : ℕ
invalid_request_id = 0

-- The loop of `process_status`: the first request with the identifier gets the status. The lists are
-- the arrays of the session, of the same size.
unfoldable pub process_status : List ℕ → ℕ → ℕ → List ℕ → List ℕ
process_status (request ∷ request_list) request_id status (s ∷ status_list) =
    let rest = process_status request_list request_id status status_list in
    if request_id == request then status ∷ status_list else s ∷ rest
process_status _ request_id status status_list = status_list

-- The first loop of `uxr_run_session_until_all_status`.
unfoldable pub clear_statuses : List ℕ → List ℕ
clear_statuses [] = []
clear_statuses (_ ∷ request_list) = status_none ∷ clear_statuses request_list

unfoldable pub confirmed : ℕ → ℕ → Bool
confirmed request status = not (status == status_none) || request == invalid_request_id

-- Its loop over `status_confirmed`, which stops at the first request that is not.
unfoldable pub all_confirmed : List ℕ → List ℕ → Bool
all_confirmed (request ∷ request_list) (s ∷ status_list) =
    confirmed request s && all_confirmed request_list status_list
all_confirmed _ _ = true

-- The same in `uxr_run_session_until_one_status`, which stops at the first that is.
unfoldable pub one_confirmed : List ℕ → List ℕ → Bool
one_confirmed (request ∷ request_list) (s ∷ status_list) =
    confirmed request s || one_confirmed request_list status_list
one_confirmed _ _ = false

-- The last loop, over `status_ok`.
unfoldable pub all_ok : List ℕ → Bool
all_ok [] = true
all_ok (s ∷ status_list) = (s == status_ok || s == status_ok_matched) && all_ok status_list
