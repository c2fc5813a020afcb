-- ===== src/Process/Ending.antt =====
-- The exit of a process in cmd/run/engine/process: exit(2), exit_group(2) and the wait on the pidfd, in
-- any order, one after the other.
use subtrace_docker_wireshar.Base.{
  ℕ, ◌≡◌, arith, Bool, true, false, List, [], ◌∷◌, Option, ok, Failure, if◌then◌else◌,
}
use subtrace_docker_wireshar.Process.Machine.{Machine, Proc, Act, pure, ◌>>=◌, ask, set_proc}
use subtrace_docker_wireshar.Seccomp.Notif.{Notif}
use subtrace_docker_wireshar.Process.Memory.{Memory}
use subtrace_docker_wireshar.Process.Host.{Host}
use subtrace_docker_wireshar.Process.Table.{skips, mark_as_exited, starts_cleanup}
use subtrace_docker_wireshar.Process.Lifetime.{
  Poll, readable, interrupted, nothing, poll_failed, Waited, gone, wait_failed, waiting,
  holds_pidfd, drops_pidfd, wait_done, wait_polled, wait,
}
use subtrace_docker_wireshar.Process.Handlers.{exits, is_main, handle_exit, handle_exit_group}
use subtrace_docker_wireshar.Process.Rules.{bind-parts}

-- A cleanup was started if the process is marked as exited, and just one.
abbrev pub OneCleanup : Proc → Type 0
OneCleanup p = p.cleanups ≡ (if p.exited then 1 else 0)

-- What ends a process: the exit of a thread, of all, or the pidfd.
pub data Ending : Type 0 where
  by_thread : ℕ → Ending
  by_group : Ending
  by_wait : List Poll → Ending

module _ {W : Type 0} where
  record Keeps {A : Type 0} (act : Act W A) : Type 0 where
    one : (m m' : Machine W) (a : A) → act m ≡ ok (a, m') → OneCleanup m.proc → OneCleanup m'.proc

module _ {W A B : Type 0} where
  bind-Keeps :
      {act : Act W A} {f : A → Act W B} → Keeps act → ((a : A) → Keeps (f a)) → Keeps (act >>= f)
  bind-Keeps {act} {f} s t = record {
    one = λ m m'' b h inv.
        let (a, m', e, k) = bind-parts act f m m'' b h in (t a).one m' m'' b k (s.one m m' a e inv);
  }

module _ {W : Type 0} where
  pure-Keeps : {A : Type 0} (a : A) → Keeps {W = W} (pure a)
  pure-Keeps a = record { one = λ m m' b h inv. ground arith }

  if-Keeps :
      (c : Bool) {x y : Act W (Option Failure)} → Keeps x → Keeps y → Keeps (if c then x else y)
  if-Keeps true s t = s
  if-Keeps false s t = t

  skips-Keeps : (v : Memory W) → Keeps (skips v)
  unfolding skips ask
  skips-Keeps v =
      bind-Keeps (record { one = λ m m' b h inv. ground arith })
        (λ k. record { one = λ m m' b h inv. ground arith })

  mark-start :
      (m m1 m2 : Machine W) (marked : Bool) (u : Unit {0})
      → mark_as_exited m ≡ ok (marked, m1)
      → starts_cleanup marked m1 ≡ ok (u, m2)
      → OneCleanup m.proc
      → OneCleanup m2.proc
  unfolding mark_as_exited starts_cleanup set_proc
  mark-start m m1 m2 marked u h k inv = ground arith

  -- The mark and the start of the cleanup that goes with it.
  marked-Keeps :
      {A : Type 0} (f : Bool → Act W A)
      → ((b : Bool) → Keeps (f b))
      → Keeps (mark_as_exited >>= λ marked. starts_cleanup marked >>= λ _. f marked)
  marked-Keeps f s = record {
    one = λ m m' a h inv.
        let (marked, m1, e1, k1) = bind-parts mark_as_exited _ m m' a h in
        let (u, m2, e2, k2) = bind-parts (starts_cleanup marked) _ m1 m' a k1 in
        (s marked).one m2 m' a k2 (mark-start m m1 m2 marked u e1 e2 inv);
  }

  exits-Keeps : (h : Host W) → Keeps (exits h)
  unfolding exits
  exits-Keeps h = marked-Keeps _ (λ _. skips-Keeps h.memory)

  handle_exit-Keeps : (h : Host W) (pid : ℕ) → Keeps (handle_exit h pid)
  unfolding handle_exit is_main
  handle_exit-Keeps h pid =
      bind-Keeps (record { one = λ m m' b e inv. ground arith })
        (λ main. if-Keeps main (exits-Keeps h) (skips-Keeps h.memory))

  holds_pidfd-Keeps : Keeps {W = W} holds_pidfd
  unfolding holds_pidfd
  holds_pidfd-Keeps = record { one = λ m m' b e inv. ground arith }

  drops_pidfd-Keeps : Keeps {W = W} drops_pidfd
  unfolding drops_pidfd
  drops_pidfd-Keeps = record { one = λ m m' b e inv. ground arith }

  wait_done-Keeps : Keeps {W = W} wait_done
  unfolding wait_done
  wait_done-Keeps = marked-Keeps _ (λ b. pure-Keeps (gone b))

  wait_polled-Keeps :
      (again : Act W Waited) (answer : Poll) (live : Bool)
      → Keeps again
      → Keeps (wait_polled again answer live)
  unfolding wait_polled
  wait_polled-Keeps again readable false k = pure-Keeps wait_failed
  wait_polled-Keeps again interrupted false k = pure-Keeps wait_failed
  wait_polled-Keeps again nothing false k = pure-Keeps wait_failed
  wait_polled-Keeps again poll_failed false k = pure-Keeps wait_failed
  wait_polled-Keeps again readable true k = bind-Keeps drops_pidfd-Keeps (λ _. wait_done-Keeps)
  wait_polled-Keeps again interrupted true k = bind-Keeps drops_pidfd-Keeps (λ _. k)
  wait_polled-Keeps again nothing true k = bind-Keeps drops_pidfd-Keeps (λ _. k)
  wait_polled-Keeps again poll_failed true k =
      bind-Keeps drops_pidfd-Keeps (λ _. pure-Keeps wait_failed)

  wait-Keeps : (answers : List Poll) → Keeps {W = W} (wait answers)
  unfolding wait
  wait-Keeps [] = pure-Keeps waiting
  wait-Keeps (a ∷ rest) =
      bind-Keeps holds_pidfd-Keeps (λ live. wait_polled-Keeps (wait rest) a live (wait-Keeps rest))

  -- What ends a process, without its result; the notification is a new one each time.
  unfoldable pub ends : Host W → Notif → Ending → Act W (Unit {0})
  unfolding handle_exit handle_exit_group wait
  ends h n (by_thread pid) m = (handle_exit h pid >>= λ _. pure tt) (record m { notif = n })
  ends h n by_group m = (handle_exit_group h >>= λ _. pure tt) (record m { notif = n })
  ends h n (by_wait answers) m = (wait answers >>= λ _. pure tt) m

  unfoldable pub ends_all : Host W → List (Notif × Ending) → Act W (Unit {0})
  unfolding ends
  ends_all h [] = pure tt
  ends_all h ((n, e) ∷ rest) = ends h n e >>= λ _. ends_all h rest

  ends-Keeps : (h : Host W) (n : Notif) (e : Ending) → Keeps (ends h n e)
  unfolding ends handle_exit_group
  ends-Keeps h n (by_thread pid) = record {
    one = λ m m' a e inv.
        (bind-Keeps (handle_exit-Keeps h pid) (λ _. pure-Keeps tt)).one (record m { notif = n }) m'
          a e inv;
  }
  ends-Keeps h n by_group = record {
    one = λ m m' a e inv.
        (bind-Keeps (exits-Keeps h) (λ _. pure-Keeps tt)).one (record m { notif = n }) m' a e inv;
  }
  ends-Keeps h n (by_wait answers) = record {
    one = λ m m' a e inv. (bind-Keeps (wait-Keeps answers) (λ _. pure-Keeps tt)).one m m' a e inv;
  }

-- However often and in whatever order threads exit, the group exits and the wait on the pidfd returns,
-- one call after the other, the cleanup of a process is started once if the process is marked as
-- exited, and not at all before.
pub ends_all-OneCleanup :
    {W : Type 0} (h : Host W) (events : List (Notif × Ending)) (m m' : Machine W)
    → OneCleanup m.proc
    → ends_all h events m ≡ ok (tt, m')
    → OneCleanup m'.proc
unfolding ends_all
ends_all-OneCleanup h [] m m' inv e = ground arith
ends_all-OneCleanup h ((n, end) ∷ rest) m m' inv e =
    let (u, m1, e1, k1) = bind-parts (ends h n end) (λ _. ends_all h rest) m m' tt e in
    ends_all-OneCleanup h rest m1 m' ((ends-Keeps h n end).one m m1 u e1 inv) k1
