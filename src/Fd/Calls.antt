-- ===== src/Fd/Calls.antt =====
-- The methods of FD in cmd/run/fd/fd.go, run with no other goroutine in between. A panic is
-- `panic`; the logging under DEBUG, a constant false, is left out.
use subtrace_docker_wireshar.Base.{
  ℕ, ◌+◌, ◌-◌, Bool, true, false, ◌&&◌, not, Run, ok, panic, ◌>>=◌, leb, ◌==◌, if◌then◌else◌,
}
use subtrace_docker_wireshar.Fd.Word.{
  max_refs, no_fd, left, is_closed, add_one, sub_one, mark_closed,
}

pub record Fd : Type 0 where
  pub fd : ℕ
  pub refs : ℕ
  pub sema : ℕ

-- NewFD: one reference, the creator's.
unfoldable pub new_fd : ℕ → Fd
new_fd n = record { fd = n; refs = 1; sema = 0 }

-- The `case 0` of decRef: the swap of the descriptor for -1.
unfoldable pub retire : Bool → Fd → Run Fd
retire internal f = if f.fd == no_fd && not internal then panic else ok (record f { fd = no_fd })

unfoldable pub dec_ref_with : Bool → Fd → Run Fd
unfolding retire
dec_ref_with internal f =
    let r = sub_one f.refs in
    let g = record f { refs = r } in
    if leb max_refs (left r)
    then panic
    else if is_closed r
    then if left r == 1
      then ok (record g { sema = f.sema + 1 })
      else if left r == 0
      then retire internal g
      else ok g
    else ok g

unfoldable pub dec_ref : Fd → Run Fd
unfolding dec_ref_with
dec_ref f = dec_ref_with false f

unfoldable pub inc_ref : Fd → Run (Bool × Fd)
unfolding dec_ref_with
inc_ref f =
    let r = add_one f.refs in
    let g = record f { refs = r } in
    if is_closed r
    then (dec_ref_with true g >>= λ h. ok (false, h))
    else if leb max_refs r
    then panic
    else ok (true, g)

-- MustIncRef.
unfoldable pub must_inc_ref : Fd → Run Fd
unfolding inc_ref
must_inc_ref f = inc_ref f >>= λ (done, g). if done then ok g else panic

-- FD(): the descriptor's number, or a panic if it is gone.
unfoldable pub number : Fd → Run ℕ
number f = if f.fd == no_fd then panic else ok f.fd

-- The loop of ClosingIncRef ends at its first compare-and-swap, since no other goroutine runs.
unfoldable pub closing_inc_ref : Fd → Bool × Fd
closing_inc_ref f =
    if is_closed f.refs then (false, f) else (true, record f { refs = mark_closed f.refs })

pub data Locking : Type 0 where
  locked : Fd → Locking
  waits : Locking

-- Lock: `waits` is a wait in semacquire on an empty semaphore.
unfoldable pub lock : Fd → Run Locking
lock f =
    if is_closed f.refs
    then if leb (left f.refs) 1
      then ok (locked f)
      else if f.sema == 0
      then ok waits
      else ok (locked (record f { sema = f.sema - 1 }))
    else panic
