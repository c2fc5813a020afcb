-- ===== src/Process/Table.antt =====
-- cmd/run/engine/process/process.go: the sockets of a process, its exit and its cleanup, and the
-- three answers to a notification as calls of a handler. The mutex makes each call one step.
use subtrace_docker_wireshar.Base.{
  ℕ, ◌+◌, Bool, true, false, List, [], ◌∷◌, Option, none, some, Run, ok, panic, Failure, refused,
  other, ebadf, ◌==◌, if◌then◌else◌,
}
use subtrace_docker_wireshar.Event.{Event}
use subtrace_docker_wireshar.Fd.Calls.{Fd, inc_ref, dec_ref}
use subtrace_docker_wireshar.Seccomp.Notif.{Notif, skip, reply, add_fd}
use subtrace_docker_wireshar.Socket.Inode.{add, get, add_inode}
use subtrace_docker_wireshar.Process.Machine.{Machine, Act, pure, ◌>>=◌, ask, set_proc, update}
use subtrace_docker_wireshar.Process.Memory.{Memory}

abbrev pub unmapped : ℕ → List (ℕ × ℕ) → List (ℕ × ℕ)
unmapped fd [] = []
unmapped fd ((n, s) ∷ rest) =
    let later = unmapped fd rest in if n == fd then later else (n, s) ∷ later

module _ {W : Type 0} where
  abbrev pub notified : Machine W → Run (Option Failure × Notif) → Run (Option Failure × Machine W)
  notified m (ok (e, n)) = ok (e, record m { notif = n })
  notified m panic = panic

  -- n.Skip() and n.Return(ret, errno).
  unfoldable pub skips : Memory W → Act W (Option Failure)
  unfolding ask skip
  skips v = ask v.kernel >>= λ k m. notified m (skip k m.notif)

  unfoldable pub returns : Memory W → ℕ → ℕ → Act W (Option Failure)
  unfolding ask reply
  returns v ret e = ask v.kernel >>= λ k m. notified m (reply k ret e m.notif)

  abbrev pub installed :
      ℕ
      → ℕ
      → Machine W
      → Run ((Option Failure × Notif) × Fd)
      → Run ((Option Failure × ℕ) × Machine W)
  installed s target m (ok ((e, n), file)) = ok (
    (e, target),
    record m {
      notif = n;
      store = record m.store {
        sock = update m.store.sock s (record (m.store.sock s) { fd = file });
      };
    },
  )
  installed s target m panic = panic

  -- n.AddFD with the descriptor of the socket at a pointer; also the number that it gets.
  unfoldable pub adds : Memory W → ℕ → ℕ → Act W (Option Failure × ℕ)
  unfolding ask add_fd
  adds v s flags =
      ask v.kernel >>= λ k m. installed s k.target m (add_fd k (m.store.sock s).fd flags m.notif)

  abbrev pub with_fd : ℕ → Machine W → Fd → Machine W
  with_fd s m f = record m {
    store = record m.store { sock = update m.store.sock s (record (m.store.sock s) { fd = f }) };
  }

  abbrev pub referred : ℕ → Machine W → Run (Bool × Fd) → Run (Bool × Machine W)
  referred s m (ok (live, f)) = ok (live, with_fd s m f)
  referred s m panic = panic

  abbrev pub dropped : ℕ → Machine W → Run Fd → Run (Unit {0} × Machine W)
  dropped s m (ok f) = ok (tt, with_fd s m f)
  dropped s m panic = panic

  -- IncRef and DecRef of the descriptor of the socket at a pointer.
  unfoldable pub holds : ℕ → Act W Bool
  unfolding inc_ref
  holds s m = referred s m (inc_ref (m.store.sock s).fd)

  unfoldable pub lets_go : ℕ → Act W (Unit {0})
  unfolding dec_ref
  lets_go s m = dropped s m (dec_ref (m.store.sock s).fd)

  -- A result that waits for the deferred DecRef.
  unfoldable pub after : {A : Type 0} → Act W (Unit {0}) → A → Act W A
  after last a = last >>= λ _. pure a

  unfoldable pub get_socket : ℕ → Act W (Option ℕ)
  unfolding get
  get_socket fd m = ok (get fd m.proc.sockets, m)

  unfoldable pub get_delete_socket : ℕ → Act W (Option ℕ)
  unfolding get
  get_delete_socket fd m = ok (
    get fd m.proc.sockets,
    record m { proc = record m.proc { sockets = unmapped fd m.proc.sockets } },
  )

  -- NewSocket on the inode at a pointer: the new socket's pointer.
  unfoldable pub new_socket : Event → ℕ → Fd → Act W ℕ
  unfolding add
  new_socket tmpl inode f m =
      let h = m.store in
      let s = h.next in
      let n = h.inode inode in
      ok (
        s,
        record m {
          store = record h {
            sock = update h.sock s (record { fd = f; inode = inode; tmpl = tmpl });
            inode = update h.inode inode (record n { socks = add s n.socks });
            next = s + 1;
          };
        },
      )

  abbrev pub in_table : Machine W → Run (List (ℕ × ℕ)) → Run (Unit {0} × Machine W)
  in_table m (ok known) = ok (tt, record m { table = known })
  in_table m panic = panic

  -- p.itab.Add(sock.Inode), with nobody else at the table.
  unfoldable pub add_to_table : ℕ → Act W (Unit {0})
  unfolding add_inode
  add_to_table s m =
      let i = (m.store.sock s).inode in
      in_table m (add_inode (m.store.inode i).number i m.table m.table)

  unfoldable pub registers : ℕ → Option Failure × ℕ → Act W (Option Failure)
  unfolding get
  registers s (some e, target) m = ok (some e, m)
  registers s (none, target) m = elim (get target m.proc.sockets) [
    | some old ↦ ok (some other, m)
    | none ↦ ok (none, record m { proc = record m.proc { sockets = (target, s) ∷ m.proc.sockets } })
  ]

  unfoldable pub install_held : Memory W → ℕ → ℕ → Bool → Act W (Option Failure)
  unfolding add_to_table adds registers lets_go after
  install_held v s flags false = pure (some (refused ebadf))
  install_held v s flags true =
      add_to_table s >>= λ _. adds v s flags >>= registers s >>= after (lets_go s)

  unfoldable pub install_socket : Memory W → ℕ → ℕ → Act W (Option Failure)
  unfolding holds install_held
  install_socket v s flags = holds s >>= install_held v s flags

  -- markAsExited, and its caller's `go p.cleanup()`.
  unfoldable pub mark_as_exited : Act W Bool
  mark_as_exited m =
      if m.proc.exited
      then ok (false, m)
      else ok (true, record m { proc = record m.proc { exited = true } })

  unfoldable pub starts_cleanup : Bool → Act W (Unit {0})
  unfolding set_proc
  starts_cleanup marked m =
      set_proc (if marked then record m.proc { cleanups = m.proc.cleanups + 1 } else m.proc) m
