-- ===== src/Fd/Threads.antt =====
-- Any number of goroutines on one FD of cmd/run/fd/fd.go. Each step is one atomic operation on the
-- shared words; what a goroutine has still to do is its program counter. A compare-and-swap of
-- ClosingIncRef that fails changes nothing and is retried, so only the one that succeeds is a step.
use subtrace_docker_wireshar.Base.{
  ℕ, ◌+◌, ◌-◌, Bool, true, false, ◌&&◌, not, Option, none, some, List, [], ◌∷◌, replicate, leb,
  ◌==◌, if◌then◌else◌, get_elem?, set,
}
use subtrace_docker_wireshar.Fd.Word.{
  max_refs, no_fd, left, is_closed, add_one, sub_one, mark_closed,
}
use subtrace_docker_wireshar.Fd.Calls.{Fd}

pub data Pc : Type 0 where
  idle : Pc
  -- IncRef has added its reference to a closed word, and is about to take it back
  backing_out : Pc
  -- IncRef returned true
  holding : Pc
  -- ClosingIncRef returned true; then Lock waits for the semaphore; then Lock has returned
  closing : Pc
  waiting : Pc
  has_lock : Pc
  -- decRef has brought the count of a closed word to 1: semrelease is next
  waking : Pc
  -- decRef has brought it to 0: the swap is next; `true` is the decRef inside IncRef
  retiring : Bool → Pc
  crashed : Pc

-- What the goroutine does next. `use_fd` is a call of FD().
pub data Action : Type 0 where
  inc_ref closing_inc_ref dec_ref lock acquire wake retire use_fd : Action

-- The end of decRef after its atomic add.
after_dec : Bool → ℕ → Pc
after_dec internal r =
    if leb max_refs (left r)
    then crashed
    else if is_closed r
    then (if left r == 1 then waking else if left r == 0 then retiring internal else idle)
    else idle

decrement : Bool → Fd → Option (Fd × Pc)
unfolding after_dec
decrement internal f = let r = sub_one f.refs in some (record f { refs = r }, after_dec internal r)

unfoldable pub act : Pc → Action → Fd → Option (Fd × Pc)
unfolding decrement
act idle inc_ref f =
    let r = add_one f.refs in
    some (
      record f { refs = r },
      if is_closed r then backing_out else if leb max_refs r then crashed else holding,
    )
act idle closing_inc_ref f =
    if is_closed f.refs
    then some (f, idle)
    else some (record f { refs = mark_closed f.refs }, closing)
act backing_out dec_ref f = decrement true f
act holding dec_ref f = decrement false f
act holding use_fd f = if f.fd == no_fd then some (f, crashed) else some (f, holding)
act closing lock f = if leb (left f.refs) 1 then some (f, has_lock) else some (f, waiting)
act closing use_fd f = if f.fd == no_fd then some (f, crashed) else some (f, closing)
act closing dec_ref f = decrement false f
act waiting acquire f =
    if f.sema == 0 then none else some (record f { sema = f.sema - 1 }, has_lock)
act has_lock use_fd f = if f.fd == no_fd then some (f, crashed) else some (f, has_lock)
act has_lock dec_ref f = decrement false f
act waking wake f = some (record f { sema = f.sema + 1 }, idle)
act (retiring internal) retire f =
    some (record f { fd = no_fd }, if f.fd == no_fd && not internal then crashed else idle)
act _ _ f = none

pub record System : Type 0 where
  pub shared : Fd
  pub threads : List Pc

-- One step of goroutine `i`; `none` if it cannot take it.
unfoldable pub step : System → ℕ → Action → Option System
unfolding act
step s i a = elim (get_elem? s.threads i) [
  | none ↦ none
  | some p ↦ elim (act p a s.shared) [
    | none ↦ none
    | some (f, q) ↦ some (record { shared = f; threads = set s.threads i q })
  ]
]

-- A schedule: which goroutine steps, and how.
unfoldable pub run : System → List (ℕ × Action) → Option System
unfolding step
run s [] = some s
run s ((i, a) ∷ rest) = elim (step s i a) [ none ↦ none | some t ↦ run t rest ]

-- NewFD, with the creator's reference held by goroutine 0 and `n` goroutines beside it.
unfoldable pub start : ℕ → ℕ → System
start fd n = record {
  shared = record { fd = fd; refs = 1; sema = 0 };
  threads = holding ∷ replicate n idle;
}
