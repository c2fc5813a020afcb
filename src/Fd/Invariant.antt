-- ===== src/Fd/Invariant.antt =====
-- The invariant of the goroutines on one FD (cmd/run/fd/fd.go): how the shared words relate to the
-- number of goroutines at each program counter.
use subtrace_docker_wireshar.Base.{ℕ, ◌+◌, ◌≤◌, ◌<◌, ◌≡◌, ◌⊎◌, List, [], ◌∷◌, arith, length, sum_by}
use subtrace_docker_wireshar.Fd.Word.{flag_closed, no_fd}
use subtrace_docker_wireshar.Fd.Calls.{Fd}
use subtrace_docker_wireshar.Fd.Threads.{
  Pc, idle, backing_out, holding, closing, waiting, has_lock, waking, retiring, System,
}

abbrev pub is_holding : Pc → ℕ
is_holding holding = 1
is_holding _ = 0

abbrev pub is_backing_out : Pc → ℕ
is_backing_out backing_out = 1
is_backing_out _ = 0

-- The goroutine whose ClosingIncRef succeeded, until its DecRef.
abbrev pub is_closer : Pc → ℕ
is_closer closing = 1
is_closer waiting = 1
is_closer has_lock = 1
is_closer _ = 0

abbrev pub is_closing : Pc → ℕ
is_closing closing = 1
is_closing _ = 0

abbrev pub is_waiting : Pc → ℕ
is_waiting waiting = 1
is_waiting _ = 0

abbrev pub is_locking : Pc → ℕ
is_locking has_lock = 1
is_locking _ = 0

abbrev pub is_waking : Pc → ℕ
is_waking waking = 1
is_waking _ = 0

abbrev pub is_retiring : Pc → ℕ
is_retiring (retiring _) = 1
is_retiring _ = 0

-- Before any ClosingIncRef: the word counts the holders.
pub record IsOpen (fd : ℕ) (f : Fd) (ps : List Pc) : Type 0 where
  pub counts : f.refs ≡ sum_by is_holding ps
  pub nobody_backs_out : sum_by is_backing_out ps ≡ 0
  pub nobody_closes : sum_by is_closer ps ≡ 0
  pub nobody_waits : sum_by is_waiting ps ≡ 0
  pub nobody_locks : sum_by is_locking ps ≡ 0
  pub nobody_wakes : sum_by is_waking ps ≡ 0
  pub nobody_retires : sum_by is_retiring ps ≡ 0
  pub sema_zero : f.sema ≡ 0
  pub present : f.fd ≡ fd

-- After it: the word counts every reference, and there is at most one closer.
pub record IsClosed (fd : ℕ) (f : Fd) (ps : List Pc) : Type 0 where
  pub counts :
      f.refs ≡ flag_closed + sum_by is_holding ps + sum_by is_backing_out ps + sum_by is_closer ps
  pub one_closer : sum_by is_closer ps ≤ 1
  pub descriptor : (f.fd ≡ fd) ⊎ (f.fd ≡ no_fd)
  pub gone_last : f.fd ≡ no_fd → sum_by is_holding ps + sum_by is_closer ps ≡ 0
  pub retire_last : 0 < sum_by is_retiring ps → sum_by is_holding ps + sum_by is_closer ps ≡ 0
  pub wake_last :
      0 < f.sema + sum_by is_waking ps → 0 < sum_by is_closer ps → sum_by is_holding ps ≡ 0
  pub lock_last : 0 < sum_by is_locking ps → sum_by is_holding ps ≡ 0
  pub wake_comes :
      0 < sum_by is_waiting ps
      → 0 < f.sema + sum_by is_waking ps + sum_by is_holding ps + sum_by is_backing_out ps

abbrev pub Inv : ℕ → System → Type 0
Inv fd s = IsOpen fd s.shared s.threads ⊎ IsClosed fd s.shared s.threads

-- Every goroutine has at most one reference.
pub refs-le-length :
    (ps : List Pc)
    → sum_by is_holding ps + sum_by is_backing_out ps + sum_by is_closer ps ≤ length ps
refs-le-length [] = omega arith
refs-le-length (idle ∷ ps) = omega (arith, refs-le-length ps)
refs-le-length (_ ∷ ps) = omega (arith, refs-le-length ps)

-- The closer waits to lock, waits for the semaphore, or has the lock.
pub closer_parts :
    (ps : List Pc)
    → sum_by is_closing ps + sum_by is_waiting ps + sum_by is_locking ps ≡ sum_by is_closer ps
closer_parts [] = omega arith
closer_parts (idle ∷ ps) = omega (arith, closer_parts ps)
closer_parts (_ ∷ ps) = omega (arith, closer_parts ps)
