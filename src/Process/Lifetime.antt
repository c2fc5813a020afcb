-- ===== src/Process/Lifetime.antt =====
-- cmd/run/engine/process/process.go: the event template, descriptors copied out of the process,
-- inodes it was born with, the wait for its exit and the cleanup.
use subtrace_docker_wireshar.Base.{
  ℕ, Bool, true, false, List, [], ◌∷◌, ◌++◌, Option, none, some, Run, ok, panic, Outcome, done,
  errno, fail, Failure, refused, other, ebadf,
}
use Prim.Native.String.{String}
use subtrace_docker_wireshar.Event.{Event, set, copy}
use subtrace_docker_wireshar.Fd.Calls.{Fd, new_fd, inc_ref, dec_ref}
use subtrace_docker_wireshar.Socket.Inode.{get}
use subtrace_docker_wireshar.Socket.State.{Socket, close_fd}
use subtrace_docker_wireshar.Socket.Close.{Cleanup, close}
use subtrace_docker_wireshar.Process.Machine.{Proc, Machine, Act, pure, ◌>>=◌, ask, method}
use subtrace_docker_wireshar.Process.Host.{Host, Facts, Opened, opened, open_errno, open_error}
use subtrace_docker_wireshar.Process.Table.{
  after, new_socket, lets_go, mark_as_exited, starts_cleanup,
}

unfoldable pub set_known : String → Option String → Event → Event
unfolding set
set_known key (some val) ev = set ev key val
set_known key none ev = ev

-- The template of getEventTemplate when it is not cached.
unfoldable pub describe : Facts → Event
unfolding set set_known
describe f = set_known "process_user" f.user (
    set_known "process_command_line" f.command_line (
      set_known "process_executable_size" f.exe_size
        (set_known "process_executable_name" f.exe_name (set f.config "process_id" f.pid))))

-- New, where pidfd_open(2) gave this descriptor.
unfoldable pub new_proc : ℕ → ℕ → Run Proc
unfolding new_fd dec_ref
new_proc pid n = elim (dec_ref (new_fd n)) [
  | panic ↦ panic
  | ok f ↦
      ok (record {
        pid = pid;
        exited = false;
        cleanups = 0;
        pidfd = f;
        sockets = [];
        template = none;
      })
]

-- What poll(2) on the pidfd says each time it returns.
pub data Poll : Type 0 where
  readable interrupted nothing poll_failed : Poll

pub data Waited : Type 0 where
  gone : Bool → Waited
  wait_failed waiting : Waited

abbrev pub copied : Opened → Outcome Fd
copied (opened n) = done (new_fd n)
copied (open_errno e) = errno e
copied open_error = fail other

-- Close of a socket, without what it did to its proxy or listener.
abbrev pub without_cleanup : Run (ℕ × (Cleanup × Socket)) → Run (ℕ × Socket)
without_cleanup (ok (answer, (cleaned, s))) = ok (answer, s)
without_cleanup panic = panic

module _ {W : Type 0} where
  abbrev pub keeps_template : Event → Act W Event
  keeps_template t m = ok (t, record m { proc = record m.proc { template = some t } })

  abbrev pub template_of : Host W → Option Event → Act W Event
  template_of h (some t) = pure t
  template_of h none = ask h.facts >>= λ f. keeps_template (describe f)

  -- getEventTemplate.
  unfoldable pub event_template : Host W → Act W Event
  unfolding ask describe
  event_template h m = template_of h m.proc.template m

  -- p.getEventTemplate().Copy().
  unfoldable pub fresh_template : Host W → Act W Event
  unfolding event_template ask copy
  fresh_template h =
      event_template h >>= λ t. ask h.stamp >>= λ (time, event_id). pure (copy time event_id t)

  abbrev pub at_pidfd : {A : Type 0} → Machine W → Run (A × Fd) → Run (A × Machine W)
  at_pidfd m (ok (a, f)) = ok (a, record m { proc = record m.proc { pidfd = f } })
  at_pidfd m panic = panic

  abbrev pub lets_pidfd_go : Machine W → Run Fd → Run (Unit {0} × Machine W)
  lets_pidfd_go m (ok f) = ok (tt, record m { proc = record m.proc { pidfd = f } })
  lets_pidfd_go m panic = panic

  unfoldable pub holds_pidfd : Act W Bool
  unfolding inc_ref
  holds_pidfd m = at_pidfd m (inc_ref m.proc.pidfd)

  unfoldable pub drops_pidfd : Act W (Unit {0})
  unfolding dec_ref
  drops_pidfd m = lets_pidfd_go m (dec_ref m.proc.pidfd)

  -- getFD, once the pidfd is held or not. pidfd_getfd(2) has an errno for each failure.
  unfoldable pub get_fd_held : Host W → ℕ → Bool → Act W (Outcome Fd)
  unfolding ask drops_pidfd after new_fd
  get_fd_held h target false = pure (errno ebadf)
  get_fd_held h target true = ask (h.pidfd_getfd target) >>= λ got. after drops_pidfd (copied got)

  unfoldable pub get_fd : Host W → ℕ → Act W (Outcome Fd)
  unfolding holds_pidfd get_fd_held
  get_fd h target = holds_pidfd >>= get_fd_held h target

  unfoldable pub put_socket : ℕ → ℕ → Act W (Option Failure)
  put_socket fd s m =
      ok (none, record m { proc = record m.proc { sockets = (fd, s) ∷ m.proc.sockets } })

  -- ImportInode from the look at the table on.
  unfoldable pub import_at : Host W → ℕ → ℕ → Fd → Act W (Option Failure)
  unfolding get fresh_template new_socket put_socket lets_go after
  import_at h target inode f m = elim (get target m.proc.sockets) [
    | some old ↦ ok (some other, m)
    | none ↦
        (fresh_template h >>= λ t.
        new_socket t inode f >>= λ s. put_socket target s >>= after (lets_go s))
          m
  ]

  unfoldable pub import_copied : Host W → ℕ → ℕ → Outcome Fd → Act W (Option Failure)
  unfolding import_at
  import_copied h target inode (done f) = import_at h target inode f
  import_copied h target inode (errno e) = pure (some (refused e))
  import_copied h target inode (fail e) = pure (some e)

  unfoldable pub import_inode : Host W → ℕ → ℕ → Act W (Option Failure)
  unfolding get_fd import_copied
  import_inode h target inode = get_fd h target >>= import_copied h target inode

  -- The end of Wait: the process has exited.
  unfoldable pub wait_done : Act W Waited
  unfolding mark_as_exited starts_cleanup
  wait_done = mark_as_exited >>= λ marked. starts_cleanup marked >>= λ _. pure (gone marked)

  unfoldable pub wait_polled : Act W Waited → Poll → Bool → Act W Waited
  unfolding drops_pidfd wait_done
  wait_polled again answer false = pure wait_failed
  wait_polled again readable true = drops_pidfd >>= λ _. wait_done
  wait_polled again interrupted true = drops_pidfd >>= λ _. again
  wait_polled again nothing true = drops_pidfd >>= λ _. again
  wait_polled again poll_failed true = drops_pidfd >>= λ _. pure wait_failed

  -- Wait, where poll(2) has returned with these answers so far.
  unfoldable pub wait : List Poll → Act W Waited
  unfolding holds_pidfd wait_polled
  wait [] = pure waiting
  wait (answer ∷ rest) = holds_pidfd >>= wait_polled (wait rest) answer

  -- The loop of cleanup over the sockets; an errno of Close is only logged.
  unfoldable pub close_all : Host W → List (ℕ × ℕ) → Act W (Unit {0})
  unfolding ask method close
  close_all h [] = pure tt
  close_all h ((fd, s) ∷ rest) = ask h.close_errno >>= λ e.
      method s (λ sock. without_cleanup (close e [] sock)) >>= λ _. close_all h rest

  abbrev pub pidfd_closed : Machine W → Run (Option ℕ × Fd) → Run (Unit {0} × Machine W)
  pidfd_closed m (ok (none, f)) = ok (tt, record m { proc = record m.proc { pidfd = f } })
  pidfd_closed m (ok (some n, f)) = ok (
    tt,
    record m {
      proc = record m.proc { pidfd = f };
      store = record m.store { shut = m.store.shut ++ n ∷ [] };
    },
  )
  pidfd_closed m panic = panic

  -- cleanup, where `order` has the sockets of the process in the order that the map gives them.
  unfoldable pub cleanup : Host W → List (ℕ × ℕ) → Act W (Unit {0})
  unfolding close_all close_fd
  cleanup h order = close_all h order >>= λ _ m. pidfd_closed m (close_fd m.proc.pidfd)
