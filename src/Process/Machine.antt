-- ===== src/Process/Machine.antt =====
-- The state that the handlers of cmd/run/engine/process work on, and what they ask of the world. An
-- `Act` is a Go call: it reads and writes the machine, and returns or panics. Two descriptors of a
-- process, or of two processes, may have sockets of one inode, so sockets and inodes stand in a store
-- and are named by their pointers.
use subtrace_docker_wireshar.Base.{
  ℕ, Bool, List, Option, Run, ok, panic, Outcome, ◌==◌, if◌then◌else◌,
}
use subtrace_docker_wireshar.Event.{Event}
use subtrace_docker_wireshar.Fd.Calls.{Fd}
use subtrace_docker_wireshar.Seccomp.Notif.{Notif}
use subtrace_docker_wireshar.Socket.State.{Domain, State, Socket}

-- A socket: its descriptor, the pointer of its inode and its event template.
pub record Cell : Type 0 where
  pub fd : Fd
  pub inode : ℕ
  pub tmpl : Event

-- An inode: `socks` has the pointers of its open sockets.
pub record Node : Type 0 where
  pub number : ℕ
  pub domain : Domain
  pub socks : List ℕ
  pub state : State

-- `next` is a pointer that is not in use yet, and `shut` the descriptors that were closed.
pub record Store : Type 0 where
  pub sock : ℕ → Cell
  pub inode : ℕ → Node
  pub next : ℕ
  pub shut : List ℕ

-- A Process. `sockets` maps the traced program's descriptors to sockets, and `cleanups` counts the
-- goroutines started to run its cleanup.
pub record Proc : Type 0 where
  pub pid : ℕ
  pub exited : Bool
  pub cleanups : ℕ
  pub pidfd : Fd
  pub sockets : List (ℕ × ℕ)
  pub template : Option Event

-- `table` is the table of inodes, numbers with pointers. `world` is all that the tracer does not own.
pub record Machine (W : Type 0) : Type 0 where
  pub world : W
  pub notif : Notif
  pub proc : Proc
  pub table : List (ℕ × ℕ)
  pub store : Store

abbrev pub Act : Type 0 → Type 0 → Type 0
Act W A = Machine W → Run (A × Machine W)

module _ {W A : Type 0} where
  abbrev pub pure : A → Act W A
  pure a m = ok (a, m)

  -- A call that touches nothing of the machine.
  unfoldable pub from_run : Run A → Act W A
  from_run (ok a) m = ok (a, m)
  from_run panic m = panic

  abbrev pub crash : Act W A
  crash m = panic

module _ {W A B : Type 0} where
  abbrev pub bind_run : Run (A × Machine W) → (A → Act W B) → Run (B × Machine W)
  bind_run (ok (a, m)) f = f a m
  bind_run panic f = panic

  infixl 5 ◌>>=◌
  unfoldable pub ◌>>=◌ : Act W A → (A → Act W B) → Act W B
  (act >>= f) m = bind_run (act m) f

module _ {W A B : Type 0} where
  unfoldable pub pass_on : (A → Act W (Outcome B)) → Outcome A → Act W (Outcome B)
  pass_on f (Outcome.done a) = f a
  pass_on f (Outcome.errno e) = pure (Outcome.errno e)
  pass_on f (Outcome.fail e) = pure (Outcome.fail e)

  -- `if errno != 0 || err != nil { return ..., errno, err }`.
  infixl 5 ◌>>?◌
  unfoldable pub ◌>>?◌ : Act W (Outcome A) → (A → Act W (Outcome B)) → Act W (Outcome B)
  unfolding ◌>>=◌ pass_on
  act >>? f = act >>= pass_on f

module _ {W : Type 0} where
  -- An answer of the world, which may change by it.
  unfoldable pub ask : {A : Type 0} → (W → A × W) → Act W A
  ask f m = let (a, w) = f m.world in ok (a, record m { world = w })

  unfoldable pub set_proc : Proc → Act W (Unit {0})
  set_proc p m = ok (tt, record m { proc = p })

-- The socket at a pointer with its inode, as Socket.State has it, and the store after a call on it.
unfoldable pub load : ℕ → Store → Socket
load s h =
    let c = h.sock s in
    let n = h.inode c.inode in
    record {
      domain = n.domain;
      name = s;
      socks = n.socks;
      fd = c.fd;
      state = n.state;
      shut = h.shut;
    }

abbrev pub update : {A : Type 0} → (ℕ → A) → ℕ → A → ℕ → A
update f at val x = if x == at then val else f x

unfoldable pub save : ℕ → Socket → Store → Store
save s v h =
    let c = h.sock s in
    let n = h.inode c.inode in
    record h {
      sock = update h.sock s (record c { fd = v.fd });
      inode = update h.inode c.inode (record n { socks = v.socks; state = v.state });
      shut = v.shut;
    }

module _ {W A : Type 0} where
  abbrev pub saved : ℕ → Machine W → Run (A × Socket) → Run (A × Machine W)
  saved s m (ok (a, v)) = ok (a, record m { store = save s v m.store })
  saved s m panic = panic

  -- A method of the socket at a pointer.
  unfoldable pub method : ℕ → (Socket → Run (A × Socket)) → Act W A
  method s call m = saved s m (call (load s m.store))
