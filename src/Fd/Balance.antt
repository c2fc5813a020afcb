-- ===== src/Fd/Balance.antt =====
-- Calls of cmd/run/fd/fd.go with no other goroutine in between: what is taken is given back.
use subtrace_docker_wireshar.Base.{
  ◌+◌, ◌-◌, ◌≤◌, ◌<◌, ◌≡◌, arith, true, false, ok, ◌==◌, if◌then◌else◌,
}
use subtrace_docker_wireshar.Fd.Word.{flag_closed, max_refs, no_fd, left}
use subtrace_docker_wireshar.Fd.Calls.{
  Fd, inc_ref, dec_ref, closing_inc_ref, number, lock, locked, waits,
}

-- A descriptor that is there and not closed, with room for one more reference.
pub record IsLive (f : Fd) : Type 0 where
  pub present : f.fd < no_fd
  pub room : f.refs + 1 < max_refs

pub inc_ref-live : (f : Fd) → IsLive f → inc_ref f ≡ ok (true, record f { refs = f.refs + 1 })
unfolding inc_ref
inc_ref-live f h = ground arith

pub dec_ref_open :
    (f : Fd) → 0 < f.refs → f.refs < max_refs → dec_ref f ≡ ok (record f { refs = f.refs - 1 })
unfolding dec_ref
dec_ref_open f h k = ground arith

pub number-live : (f : Fd) → f.fd < no_fd → number f ≡ ok f.fd
unfolding number
number-live f h = ground arith

-- IncRef of a closed descriptor that someone has a reference to says so, and leaves its count and
-- number as they were. Where that reference is the closer's alone, the semaphore goes up once more.
pub inc_ref_closed :
    (f : Fd)
    → flag_closed < f.refs
    → f.refs + 1 < flag_closed + max_refs
    → inc_ref f
      ≡ ok (false, record f { sema = if f.refs == flag_closed + 1 then f.sema + 1 else f.sema })
unfolding inc_ref
inc_ref_closed f h k = ground arith

-- Closing a descriptor that nobody else holds: ClosingIncRef succeeds once, Lock does not wait, the
-- number is still there for close(2), and after the closer's DecRef it is gone.
pub close_cycle :
    (f : Fd)
    → f.fd < no_fd
    → f.refs ≡ 0
    → let g = (closing_inc_ref f).1 in
      ((closing_inc_ref f).0 ≡ true)
      × ((closing_inc_ref g).0 ≡ false)
      × (lock g ≡ ok (locked g))
      × (number g ≡ ok f.fd)
      × (dec_ref g ≡ ok (record g { fd = no_fd; refs = flag_closed }))
unfolding closing_inc_ref lock number dec_ref
close_cycle f h k = (ground arith, ground arith, ground arith, ground arith, ground arith)

-- Lock waits exactly where another reference is left and the semaphore is down.
pub lock-waits :
    (f : Fd)
    → flag_closed ≤ f.refs
    → f.refs < flag_closed + max_refs
    → f.sema ≡ 0
    → 1 < left f.refs
    → lock f ≡ ok waits
unfolding lock
lock-waits f h k s m = ground arith
