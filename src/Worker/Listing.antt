-- ===== src/Worker/Listing.antt =====
-- The worker's loop of cmd/worker/worker.go starts each tunnel that is listed once.
use subtrace_docker_wireshar.Base.{
  ℕ, zero, suc, ◌+◌, ◌*◌, ◌≤◌, ◌<◌, ◌≡◌, refl, subst, some_inj, arith, Bool, true, false, ◌⊎◌, inl,
  inr, List, [], ◌∷◌, ◌++◌, Option, none, some, Option-cases, replicate, sum_by, ◌==◌,
  if◌then◌else◌,
}
use subtrace_docker_wireshar.Worker.Tunnels.{
  Item, Listed, got, gives_up, waiting, list_open, State, start, member, start_tunnel, visit, Round,
  Ended, runs, after_visit, on_list, run_rounds,
}

-- How often an id stands in a list.
unfoldable pub count : ℕ → List ℕ → ℕ
count id [] = 0
count id (x ∷ xs) = (if x == id then 1 else 0) + count id xs

abbrev pub presence : Bool → ℕ
presence b = if b then 1 else 0

count-snoc : (id x : ℕ) (xs : List ℕ) → count id (xs ++ x ∷ []) ≡ count id xs + presence (x == id)
unfolding count
count-snoc id x [] = ground arith
count-snoc id x (y ∷ ys) = ground (arith, count-snoc id x ys)

-- A tunnel was started once if it is known, and not before.
abbrev pub IsOnce : State → Type 0
IsOnce s = (id : ℕ) → count id s.started ≡ presence (member id s.known)

start_tunnel-IsOnce : (new : ℕ) (s : State) → IsOnce s → IsOnce (start_tunnel new s)
unfolding start_tunnel member
start_tunnel-IsOnce new s h id = ground (arith, h id, h new, count-snoc id new s.started)

start_tunnel-knows : (id : ℕ) (s : State) → member id (start_tunnel id s).known ≡ true
unfolding start_tunnel member
start_tunnel-knows id s = ground arith

start_tunnel-keeps :
    (new id : ℕ) (s : State)
    → member id s.known ≡ true
    → member id (start_tunnel new s).known ≡ true
unfolding start_tunnel member
start_tunnel-keeps new id s h = ground (arith, h)

-- A list names a tunnel.
abbrev pub InList : ℕ → List Item → Type 0
InList id [] = ⊥
InList id (i ∷ rest) = (i.tunnel_id ≡ some id) ⊎ InList id rest

record Visited (items : List Item) (s s' : State) (ok : Bool) : Type 0 where
  once : IsOnce s → IsOnce s'
  keeps : (id : ℕ) → member id s.known ≡ true → member id s'.known ≡ true
  knows : (id : ℕ) → ok ≡ true → InList id items → member id s'.known ≡ true

named :
    (id : ℕ) (s : State) (rest : List Item) (new : ℕ) (r : Bool × State)
    → Visited rest (start_tunnel new s) r.1 r.0
    → r.0 ≡ true
    → (some new ≡ some id) ⊎ InList id rest
    → member id r.1.known ≡ true
named id s rest new r ih k (inl e) = ih.keeps id (
    subst (λ x. member x (start_tunnel new s).known ≡ true) (some_inj e) (start_tunnel-knows new s))
named id s rest new r ih k (inr h) = ih.knows id k h

visit-Visited :
    (items : List Item) (s : State) → Visited items s (visit items s).1 (visit items s).0
unfolding visit
visit-Visited [] s = record { once = λ h. h; keeps = λ id h. h; knows = λ id e h. absurd h }
visit-Visited (i ∷ rest) s = elim (Option-cases i.tunnel_id) [
  | inl e ↦ rw (e, visit) (record { once = λ h. h; keeps = λ id h. h; knows = λ id k h. cc })
  | inr (new, e) ↦ elim (Option-cases i.namespace_id) [
    | inl f ↦ rw (e, f, visit) (record { once = λ h. h; keeps = λ id h. h; knows = λ id k h. cc })
    | inr (namespace, f) ↦
        let ih = visit-Visited rest (start_tunnel new s) in
        rw (e, f, visit)
          (record {
            once = λ h. ih.once (start_tunnel-IsOnce new s h);
            keeps = λ id h. ih.keeps id (start_tunnel-keeps new id s h);
            knows = λ id k h. named id s rest new (visit rest (start_tunnel new s)) ih k h;
          })
  ]
]

-- A list that a round gets names a tunnel.
abbrev pub InRounds : ℕ → List Round → Type 0
InRounds id [] = ⊥
InRounds id (r ∷ rest) =
    ((items : List Item) × ((list_open 1 r.outcomes).1 ≡ got items) × InList id items)
    ⊎ InRounds id rest

record Ran (rounds : List Round) (s s' : State) (end : Ended) : Type 0 where
  once : IsOnce s → IsOnce s'
  keeps : (id : ℕ) → member id s.known ≡ true → member id s'.known ≡ true
  knows : (id : ℕ) → end ≡ runs → InRounds id rounds → member id s'.known ≡ true

after_visit-Ran :
    (go_on : State → Ended × State) (r : Round) (rest : List Round) (items : List Item) (s : State)
    (v : Bool × State)
    → (list_open 1 r.outcomes).1 ≡ got items
    → Visited items s v.1 v.0
    → ((s' : State) → Ran rest s' (go_on s').1 (go_on s').0)
    → Ran (r ∷ rest) s (after_visit go_on r.now v).1 (after_visit go_on r.now v).0
after_visit-Ran go_on r rest items s (false, s1) e v ih = record {
  once = v.once;
  keeps = v.keeps;
  knows = λ id k h. cc;
}
after_visit-Ran go_on r rest items s (true, s1) e v ih =
    let next = ih (record s1 { after = r.now }) in
    record {
      once = λ h. next.once (v.once h);
      keeps = λ id h. next.keeps id (v.keeps id h);
      knows = λ id k h. named_round id k h;
    }
  where
    named_round :
        (id : ℕ)
        → (go_on (record s1 { after = r.now })).0 ≡ runs
        → InRounds id (r ∷ rest)
        → member id (go_on (record s1 { after = r.now })).1.known ≡ true
    named_round id k (inl (l, f, h)) =
        let same : l ≡ items = ground (arith, e, f) in
        (ih (record s1 { after = r.now })).keeps id (v.knows id refl (subst (InList id) same h))
    named_round id k (inr h) = (ih (record s1 { after = r.now })).knows id k h

on_list-Ran :
    (go_on : State → Ended × State) (r : Round) (rest : List Round) (s : State) (l : Listed)
    → (list_open 1 r.outcomes).1 ≡ l
    → ((s' : State) → Ran rest s' (go_on s').1 (go_on s').0)
    → Ran (r ∷ rest) s (on_list go_on r.now s l).1 (on_list go_on r.now s l).0
on_list-Ran go_on r rest s (got items) e ih =
    after_visit-Ran go_on r rest items s (visit items s) e (visit-Visited items s) ih
on_list-Ran go_on r rest s gives_up e ih = record {
  once = λ h. h;
  keeps = λ id h. h;
  knows = λ id k h. cc;
}
on_list-Ran go_on r rest s waiting e ih = record {
  once = λ h. h;
  keeps = λ id h. h;
  knows = λ id k h. cc;
}

run_rounds-Ran :
    (rounds : List Round) (s : State) → Ran rounds s (run_rounds rounds s).1 (run_rounds rounds s).0
unfolding run_rounds
run_rounds-Ran [] s = record { once = λ h. h; keeps = λ id h. h; knows = λ id k h. absurd h }
run_rounds-Ran (r ∷ rest) s =
    on_list-Ran (λ s'. run_rounds rest s') r rest s (list_open 1 r.outcomes).1 refl
      (λ s'. run_rounds-Ran rest s')

start-IsOnce : IsOnce start
unfolding start member count
start-IsOnce id = refl

-- However many rounds the worker runs and however they end, no tunnel is started twice.
pub run_rounds-once :
    (rounds : List Round) (id : ℕ) → count id (run_rounds rounds start).1.started ≤ 1
run_rounds-once rounds id =
    let ran = run_rounds-Ran rounds start in ground (arith, ran.once start-IsOnce id)

-- As long as the worker's loop has returned no error, each tunnel that a list named was started just once.
pub run_rounds-starts :
    (rounds : List Round) (id : ℕ)
    → (run_rounds rounds start).0 ≡ runs
    → InRounds id rounds
    → count id (run_rounds rounds start).1.started ≡ 1
run_rounds-starts rounds id k h =
    let ran = run_rounds-Ran rounds start in
    ground (arith, ran.once start-IsOnce id, ran.knows id k h)

-- The waits between some failures in a row, from a first one.
unfoldable pub doubling : ℕ → ℕ → List ℕ
doubling zero wait = []
doubling (suc n) wait = wait ∷ doubling n (wait * 2)

-- ListOpenTunnels is called until it succeeds, with waits of 1, 2, 4 and more seconds between, but six
-- times at most: after the sixth failure, 31 seconds of waits in all, the loop gives up.
pub list_open-attempts :
    (n : ℕ) (items : List Item) (rest : List (Option (List Item)))
    → (n < 6 → list_open 1 (replicate n none ++ some items ∷ rest) ≡ (doubling n 1, got items))
      × (list_open 1 (replicate 6 none ++ rest) ≡ (doubling 5 1, gives_up))
      × (sum_by (λ w. w) (doubling 5 1) ≡ 31)
unfolding list_open doubling
list_open-attempts n items rest = (λ h. few n h, refl, refl)
  where
    few :
        (n : ℕ)
        → n < 6
        → list_open 1 (replicate n none ++ some items ∷ rest) ≡ (doubling n 1, got items)
    few zero h = refl
    few (suc zero) h = refl
    few (suc (suc zero)) h = refl
    few (suc (suc (suc zero))) h = refl
    few (suc (suc (suc (suc zero)))) h = refl
    few (suc (suc (suc (suc (suc zero))))) h = refl
    few (suc (suc (suc (suc (suc (suc n)))))) h = absurd (omega arith)
