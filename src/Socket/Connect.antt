-- ===== src/Socket/Connect.antt =====
-- cmd/run/socket/socket.go: Connect. `connect` is the method up to where it starts the goroutines,
-- `settle_dial` the goroutine that waits for the two connections, and `connect_answer` what the
-- method returns at last.
use subtrace_docker_wireshar.Base.{
  ℕ, Bool, true, false, not, Option, none, some, Run, ok, panic, ◌>>=◌, Outcome, done, errno, fail,
  other, ebadf, einval, enosys, erestart, eisconn, ealready, einprogress, if◌then◌else◌, ◌==◌, ◌&&◌,
}
use subtrace_docker_wireshar.Fd.Calls.{Fd}
use subtrace_docker_wireshar.Socket.State.{
  AddrPort, Proxy, State, passive, connected, connecting, listening, closed, Sockname,
  remote_bind_addr, Reply, Socket, shut_down, compare_and_swap, referenced, close_fd,
  new_temp_bind_socket, bind_ephemeral,
}

-- `flags` is whether F_GETFL says that the socket blocks, if it succeeds, `ephemeral` the address of
-- bindEphemeral on the new descriptor, and `dummy` whether the dummy listener starts.
pub record ConnectWorld : Type 0 where
  pub flags : Option Bool
  pub sockname : Sockname
  pub temp : Option ℕ
  pub ephemeral : Option AddrPort
  pub meddled : Option State
  pub dummy : Bool

-- `dialing` has the address of the local end and whether the socket blocks.
pub data Started : Type 0 where
  dialing : AddrPort → Bool → Started

-- Closes a descriptor that Connect made, if this is the closing call.
unfoldable pub drop_bind : Fd → Socket → Run (Fd × Socket)
unfolding close_fd
drop_bind b s =
    close_fd b >>= λ (n, b'). ok (b', elim n [ none ↦ s | some number ↦ shut_down number s ])

start_dial : Bool → Bool → AddrPort → Bool → Fd → Bool × Socket → Run (Outcome Started × Socket)
start_dial dummy fresh from blocking b (won, s) =
    if won
    then ok (if dummy then done (dialing from blocking) else fail other, s)
    else if fresh
    then (drop_bind b s >>= λ (b', s'). ok (errno erestart, s'))
    else ok (errno erestart, s)

made_bind :
    ConnectWorld → AddrPort → Bool → Socket → Option AddrPort × Fd → Run (Outcome Started × Socket)
unfolding drop_bind start_dial close_fd
made_bind w addr blocking s (none, b) = close_fd b >>= λ (n, b'). elim n [
  | none ↦ panic
  | some number ↦ ok (fail other, shut_down number s)
]
made_bind w addr blocking s (some from, b) =
    start_dial w.dummy true from blocking b (compare_and_swap w.meddled (connecting b addr) s)

make_bind : ConnectWorld → AddrPort → Bool → Socket → Option Fd → Run (Outcome Started × Socket)
unfolding made_bind
make_bind w addr blocking s none = ok (fail other, s)
make_bind w addr blocking s (some b) =
    bind_ephemeral w.ephemeral b >>= λ found. made_bind w addr blocking s found

-- From the answer of getRemoteBindAddr on, in state passive.
connect_passive :
    ConnectWorld
    → AddrPort
    → Bool
    → Socket
    → Option Fd
    → Outcome AddrPort
    → Run (Outcome Started × Socket)
unfolding make_bind start_dial
connect_passive w addr blocking s old (errno e) = ok (errno e, s)
connect_passive w addr blocking s old (fail e) = ok (fail e, s)
connect_passive w addr blocking s (some b) (done from) =
    start_dial w.dummy false from blocking b (compare_and_swap w.meddled (connecting b addr) s)
connect_passive w addr blocking s none (done from) =
    new_temp_bind_socket w.temp >>= λ b. make_bind w addr blocking s b

named_bind : State → Option Fd
named_bind (passive b e) = b
named_bind _ = none

connect_open : ConnectWorld → AddrPort → Socket → Option Bool → Run (Outcome Started × Socket)
unfolding named_bind connect_passive
connect_open w addr s none = ok (fail other, s)
connect_open w addr s (some blocking) = remote_bind_addr w.sockname s.state >>= λ (from, state).
    connect_passive w addr blocking (record s { state = state }) (named_bind state) from

busy_answer : Option Bool → Outcome Started
busy_answer none = fail other
busy_answer (some true) = errno ealready
busy_answer (some false) = errno einprogress

unfoldable pub connect_in :
    ConnectWorld → AddrPort → Socket → State → Run (Outcome Started × Socket)
unfolding connect_open busy_answer
connect_in w addr s (passive b e) = connect_open w addr s w.flags
connect_in w addr s (connected p) = ok (errno eisconn, s)
connect_in w addr s (connecting b peer) = ok (busy_answer w.flags, s)
connect_in w addr s (listening l) = ok (errno einval, s)
connect_in w addr s closed = ok (errno ebadf, s)

unfoldable pub connect : ConnectWorld → AddrPort → Socket → Run (Outcome Started × Socket)
unfolding connect_in
connect w addr s = referenced (λ s'. connect_in w addr s' s'.state) s

-- What becomes of the dummy listener's accept and of the dial; a failed dial has an errno or not.
pub data Dial : Type 0 where
  no_dummy : Dial
  refused_dial : Option ℕ → Dial
  dialed : Proxy → Dial

-- The state to store, if any, and the errno.
abbrev pub dial_result : Fd → Dial → Option State × ℕ
dial_result b no_dummy = (none, enosys)
dial_result b (refused_dial none) = (none, enosys)
dial_result b (refused_dial (some e)) = (some (passive (some b) e), e)
dial_result b (dialed p) = (some (connected p), 0)

keeps_bind : State → Bool
keeps_bind (passive b e) = true
keeps_bind _ = false

-- The closed descriptor in the state, where that is still the connecting one.
with_bind : Fd → State → State
with_bind b (connecting _ peer) = connecting b peer
with_bind b state = state

settle_kept : ℕ → Fd → Bool → Socket → Run (ℕ × Socket)
unfolding with_bind
settle_kept e b keep s =
    if keep
    then ok (e, s)
    else (drop_bind b s >>= λ (b', s'). ok (e, record s' { state = with_bind b' s'.state }))

settle_swapped : State → ℕ → Fd → Bool × Socket → Run (ℕ × Socket)
unfolding settle_kept keeps_bind
settle_swapped next e b (won, s) =
    settle_kept (if won then e else erestart) b (won && keeps_bind next) s

settle_next : Fd → Option State → Socket → Option State × ℕ → Run (ℕ × Socket)
unfolding settle_swapped
settle_next b meddled s (none, e) = settle_kept e b false s
settle_next b meddled s (some next, e) = settle_swapped next e b (compare_and_swap meddled next s)

-- `b` is the connecting state's descriptor. The two connections that an error closes are left out.
unfoldable pub settle_dial : Fd → Dial → Option State → Socket → Run (ℕ × Socket)
unfolding settle_next
settle_dial b dial meddled s = settle_next b meddled s (dial_result b dial)

-- A blocking Connect waits for the goroutine's errno; `dummy_errno` is what connect(2) to the dummy
-- listener says.
unfoldable pub connect_answer : Bool → ℕ → ℕ → Reply
connect_answer blocking settled dummy_errno =
    if blocking && not (settled == 0)
    then errno settled
    else if dummy_errno == 0
    then done tt
    else errno dummy_errno
