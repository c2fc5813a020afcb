-- ===== src/Process/Quiet.antt =====
-- The calls of cmd/run/engine/process/process.go and vm.go that leave the notification as it is.
use subtrace_docker_wireshar.Base.{
  Run, ok, panic, ℕ, arith, Bool, true, false, List, [], ◌∷◌, Option, none, some, Run, Outcome,
  done, errno, fail,
}
use subtrace_docker_wireshar.Event.{Event}
use subtrace_docker_wireshar.Fd.Calls.{Fd}
use subtrace_docker_wireshar.Socket.State.{Socket, AddrPort, invalid, ip4, ip6}
use subtrace_docker_wireshar.Process.Machine.{from_run, Act, ◌>>?◌, pass_on, method}
use subtrace_docker_wireshar.Process.Memory.{
  Memory, Wrote, wrote, write_errno, write_error, still_valid, read_bytes, read_uint32, read_string,
  read_sockaddr, settle_write, write_checked, write_bytes, write_uint32, write_address,
  write_sockaddr,
}
use subtrace_docker_wireshar.Seccomp.Wire.{le_bytes}
use subtrace_docker_wireshar.Process.Host.{Host}
use subtrace_docker_wireshar.Process.Table.{
  holds, lets_go, after, get_socket, get_delete_socket, new_socket, add_to_table, mark_as_exited,
  starts_cleanup,
}
use subtrace_docker_wireshar.Process.Lifetime.{
  template_of, event_template, fresh_template, holds_pidfd, drops_pidfd, get_fd_held, get_fd,
}
use subtrace_docker_wireshar.Process.Rules.{
  Silent, bind-Silent, pure-Silent, crash-Silent, ask-Silent, if-Silent,
}

pub ruleset quiet = (bind-Silent, pure-Silent, crash-Silent, ask-Silent, if-Silent)

module _ {W A B : Type 0} where
  pass_on-Silent :
      (f : A → Act W (Outcome B))
      → ((a : A) → Silent (f a))
      → (r : Outcome A) → Silent (pass_on f r)
  unfolding pass_on
  pass_on-Silent f t (done a) = t a
  pass_on-Silent f t (errno e) = pure-Silent _
  pass_on-Silent f t (fail e) = pure-Silent _

  pub pass-Silent :
      {act : Act W (Outcome A)} {f : A → Act W (Outcome B)}
      → Silent act
      → ((a : A) → Silent (f a))
      → Silent (act >>? f)
  unfolding ◌>>?◌
  pass-Silent {act} {f} s t = bind-Silent s (pass_on-Silent f t)

module _ {W A : Type 0} where
  pub method-Silent : (s : ℕ) (call : Socket → Run (A × Socket)) → Silent {W = W} (method s call)
  unfolding method
  method-Silent s call = record { keeps = λ m m' a h. ground arith }

  pub from_run-Silent : (r : Run A) → Silent {W = W} (from_run r)
  unfolding from_run
  from_run-Silent (ok a) = pure-Silent a
  from_run-Silent panic = crash-Silent

  pub after-Silent : {act : Act W (Unit {0})} (a : A) → Silent act → Silent (after act a)
  unfolding after
  after-Silent a s = search (quiet, s)

module _ {W : Type 0} where
  pub still_valid-Silent : (v : Memory W) → Silent (still_valid v)
  unfolding still_valid
  still_valid-Silent v =
      bind-Silent (ask-Silent v.kernel) (λ k. record { keeps = λ m m' a h. ground arith })

  pub read_bytes-Silent : (v : Memory W) (ptr size : ℕ) → Silent (read_bytes v ptr size)
  unfolding read_bytes
  read_bytes-Silent v ptr size = search (quiet, still_valid-Silent)

  pub read_uint32-Silent : (v : Memory W) (ptr : ℕ) → Silent (read_uint32 v ptr)
  unfolding read_uint32
  read_uint32-Silent v ptr = search (quiet, pass-Silent, read_bytes-Silent)

  pub read_string-Silent : (v : Memory W) (ptr size : ℕ) → Silent (read_string v ptr size)
  unfolding read_string
  read_string-Silent v ptr size = search (quiet, pass-Silent, read_bytes-Silent)

  pub read_sockaddr-Silent : (v : Memory W) (ptr size : ℕ) → Silent (read_sockaddr v ptr size)
  unfolding read_sockaddr
  read_sockaddr-Silent v ptr size = search (quiet, pass-Silent, read_bytes-Silent)

  settle_write-Silent : (v : Memory W) (size : ℕ) (w : Wrote) → Silent (settle_write v size w)
  unfolding settle_write
  settle_write-Silent v size (wrote n) = search (quiet, still_valid-Silent)
  settle_write-Silent v size (write_errno e) = search (quiet, still_valid-Silent)
  settle_write-Silent v size write_error = search (quiet, still_valid-Silent)

  write_checked-Silent :
      (v : Memory W) (ptr : ℕ) (b : List ℕ) (live : Bool) → Silent (write_checked v ptr b live)
  unfolding write_checked
  write_checked-Silent v ptr b false = pure-Silent _
  write_checked-Silent v ptr [] true = pure-Silent _
  write_checked-Silent v ptr (x ∷ b) true = search (quiet, settle_write-Silent)

  pub write_bytes-Silent : (v : Memory W) (ptr : ℕ) (b : List ℕ) → Silent (write_bytes v ptr b)
  unfolding write_bytes
  write_bytes-Silent v ptr b = search (quiet, still_valid-Silent, write_checked-Silent)

  pub write_uint32-Silent : (v : Memory W) (ptr val : ℕ) → Silent (write_uint32 v ptr val)
  unfolding write_uint32
  write_uint32-Silent v ptr val = write_bytes-Silent v ptr (le_bytes 4 val)

  write_address-Silent :
      (v : Memory W) (b : List ℕ) (ptr size_ptr : ℕ) → Silent (write_address v b ptr size_ptr)
  unfolding write_address
  write_address-Silent v b ptr size_ptr =
      search (quiet, pass-Silent, read_uint32-Silent, write_bytes-Silent)

  pub write_sockaddr-Silent :
      (v : Memory W) (addr : AddrPort) (ptr size_ptr : ℕ)
      → Silent (write_sockaddr v addr ptr size_ptr)
  unfolding write_sockaddr
  write_sockaddr-Silent v invalid ptr size_ptr = crash-Silent
  write_sockaddr-Silent v (ip4 a p) ptr size_ptr = search (quiet, write_address-Silent)
  write_sockaddr-Silent v (ip6 a p) ptr size_ptr = search (quiet, write_address-Silent)

  pub holds-Silent : (s : ℕ) → Silent {W = W} (holds s)
  unfolding holds
  holds-Silent s = record { keeps = λ m m' a h. ground arith }

  pub lets_go-Silent : (s : ℕ) → Silent {W = W} (lets_go s)
  unfolding lets_go
  lets_go-Silent s = record { keeps = λ m m' a h. ground arith }

  pub get_socket-Silent : (fd : ℕ) → Silent {W = W} (get_socket fd)
  unfolding get_socket
  get_socket-Silent fd = record { keeps = λ m m' a h. (cc, cc) }

  pub get_delete_socket-Silent : (fd : ℕ) → Silent {W = W} (get_delete_socket fd)
  unfolding get_delete_socket
  get_delete_socket-Silent fd = record { keeps = λ m m' a h. (cc, cc) }

  pub new_socket-Silent : (t : Event) (i : ℕ) (f : Fd) → Silent {W = W} (new_socket t i f)
  unfolding new_socket
  new_socket-Silent t i f = record { keeps = λ m m' a h. (cc, cc) }

  pub add_to_table-Silent : (s : ℕ) → Silent {W = W} (add_to_table s)
  unfolding add_to_table
  add_to_table-Silent s = record { keeps = λ m m' a h. ground arith }

  pub mark_as_exited-Silent : Silent {W = W} mark_as_exited
  unfolding mark_as_exited
  mark_as_exited-Silent = record { keeps = λ m m' a h. ground arith }

  pub starts_cleanup-Silent : (marked : Bool) → Silent {W = W} (starts_cleanup marked)
  unfolding starts_cleanup
  starts_cleanup-Silent marked = record { keeps = λ m m' a h. ground arith }

  template_of-Silent : (h : Host W) (t : Option Event) → Silent (template_of h t)
  template_of-Silent h (some t) = pure-Silent t
  template_of-Silent h none =
      bind-Silent (ask-Silent h.facts) (λ f. record { keeps = λ m m' a h. (cc, cc) })

  event_template-Silent : (h : Host W) → Silent (event_template h)
  unfolding event_template
  event_template-Silent h = record {
    keeps = λ m m' a e. (template_of-Silent h m.proc.template).keeps m m' a e;
  }

  pub fresh_template-Silent : (h : Host W) → Silent (fresh_template h)
  unfolding fresh_template
  fresh_template-Silent h = search (quiet, event_template-Silent)

  holds_pidfd-Silent : Silent {W = W} holds_pidfd
  unfolding holds_pidfd
  holds_pidfd-Silent = record { keeps = λ m m' a h. ground arith }

  drops_pidfd-Silent : Silent {W = W} drops_pidfd
  unfolding drops_pidfd
  drops_pidfd-Silent = record { keeps = λ m m' a h. ground arith }

  get_fd_held-Silent : (h : Host W) (target : ℕ) (live : Bool) → Silent (get_fd_held h target live)
  unfolding get_fd_held
  get_fd_held-Silent h target false = pure-Silent _
  get_fd_held-Silent h target true = search (quiet, after-Silent, drops_pidfd-Silent)

  pub get_fd-Silent : (h : Host W) (target : ℕ) → Silent (get_fd h target)
  unfolding get_fd
  get_fd-Silent h target = search (quiet, holds_pidfd-Silent, get_fd_held-Silent)
