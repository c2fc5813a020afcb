-- ===== src/Worker/Tunnels.antt =====
-- cmd/worker/worker.go: the loop of the worker, which lists the open tunnels every second and starts each
-- new one. The answers of ListOpenTunnels and the clock are arguments; waits are in seconds.
use subtrace_docker_wireshar.Base.{
  ℕ, ◌*◌, Bool, true, false, ◌||◌, List, [], ◌∷◌, ◌++◌, Option, none, some, ltb, ◌==◌,
  if◌then◌else◌,
}

-- A tunnel of a list, by its two ids, which may not parse.
pub record Item : Type 0 where
  pub tunnel_id : Option ℕ
  pub namespace_id : Option ℕ

-- The end of the calls of ListOpenTunnels: a list, an error, or none yet.
pub data Listed : Type 0 where
  got : List Item → Listed
  gives_up waiting : Listed

-- The loop with exponential backoff: the waits between its attempts, and its end.
unfoldable pub list_open : ℕ → List (Option (List Item)) → List ℕ × Listed
list_open wait [] = ([], waiting)
list_open wait (some items ∷ rest) = ([], got items)
list_open wait (none ∷ rest) =
    let (waits, end) = list_open (wait * 2) rest in
    if ltb 30 wait then ([], gives_up) else (wait ∷ waits, end)

-- The tunnels that are known, those whose goroutine was started, and CreateAfterTime.
pub record State : Type 0 where
  pub known : List ℕ
  pub started : List ℕ
  pub after : ℕ

unfoldable pub start : State
start = record { known = []; started = []; after = 0 }

unfoldable pub member : ℕ → List ℕ → Bool
member id [] = false
member id (x ∷ xs) = (x == id) || member id xs

unfoldable pub start_tunnel : ℕ → State → State
unfolding member
start_tunnel id s =
    if member id s.known
    then s
    else record s { known = id ∷ s.known; started = s.started ++ id ∷ [] }

-- The loop over a list: whether all ids parse.
unfoldable pub visit : List Item → State → Bool × State
unfolding start_tunnel
visit [] s = (true, s)
visit (i ∷ rest) s = elim i.tunnel_id [
  | none ↦ (false, s)
  | some id ↦ elim i.namespace_id [
    | none ↦ (false, s)
    | some namespace ↦ visit rest (start_tunnel id s)
  ]
]

-- A round: the time at its start and what the calls of ListOpenTunnels answer.
pub record Round : Type 0 where
  pub now : ℕ
  pub outcomes : List (Option (List Item))

-- The loop goes on, waits for an answer, or has returned an error.
pub data Ended : Type 0 where
  runs pends list_fails bad_id : Ended

abbrev pub after_visit : (State → Ended × State) → ℕ → Bool × State → Ended × State
after_visit go_on now (true, s) = go_on (record s { after = now })
after_visit go_on now (false, s) = (bad_id, s)

abbrev pub on_list : (State → Ended × State) → ℕ → State → Listed → Ended × State
on_list go_on now s (got items) = after_visit go_on now (visit items s)
on_list go_on now s gives_up = (list_fails, s)
on_list go_on now s waiting = (pends, s)

unfoldable pub run_rounds : List Round → State → Ended × State
unfolding visit list_open
run_rounds [] s = (runs, s)
run_rounds (r ∷ rest) s = on_list (λ s'. run_rounds rest s') r.now s (list_open 1 r.outcomes).1
