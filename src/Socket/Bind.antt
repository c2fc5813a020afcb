-- ===== src/Socket/Bind.antt =====
-- cmd/run/socket/socket.go: CreateSocket's result, Bind, BindAddr, PeerAddr and Errno.
use subtrace_docker_wireshar.Base.{
  ℕ, Bool, true, false, Option, none, some, Run, ok, ◌>>=◌, Outcome, done, errno, fail, other,
  ebadf, einval, erestart, if◌then◌else◌,
}
use subtrace_docker_wireshar.Fd.Calls.{Fd, inc_ref, dec_ref, number}
use subtrace_docker_wireshar.Socket.State.{
  Domain, inet, inet6, AddrPort, ip4, ip6, State, passive, closed, Reply, Sockname,
  remote_bind_addr, remote_peer_addr, Socket, shut_down, compare_and_swap, referenced,
  new_temp_bind_socket, fresh_bind,
}

-- What bind(2) says.
pub data BindAnswer : Type 0 where
  bound : BindAnswer
  bind_errno : ℕ → BindAnswer
  bind_error : BindAnswer

pub record BindWorld : Type 0 where
  pub temp : Option ℕ
  pub answer : BindAnswer
  pub meddled : Option State

abbrev pub is_of : Domain → AddrPort → Bool
is_of inet (ip4 a p) = true
is_of inet6 (ip6 a p) = true
is_of _ _ = false

stored : Reply → Bool × Socket → Reply × Socket
stored answer (won, s) = (if won then answer else errno erestart, s)

close_if : Bool → ℕ → Socket → Socket
close_if fresh n s = if fresh then shut_down n s else s

-- The last CompareAndSwap closes the new descriptor where it fails.
stored_bound : Bool → ℕ → Bool × Socket → Reply × Socket
unfolding close_if
stored_bound fresh n (won, s) = if won then (done tt, s) else (errno erestart, close_if fresh n s)

-- Bind from bind(2) on. `held` is the descriptor of the address after the deferred DecRef.
answered : BindWorld → Option Fd → Fd → ℕ → Socket → Reply × Socket
unfolding stored stored_bound
answered w old held n s = elim w.answer [
  | bound ↦ stored_bound (fresh_bind old) n (compare_and_swap w.meddled (passive (some held) 0) s)
  | bind_errno e ↦
      stored (errno e) (compare_and_swap w.meddled (passive old e) (close_if (fresh_bind old) n s))
  | bind_error ↦ (fail other, close_if (fresh_bind old) n s)
]

bind_held : BindWorld → Option Fd → Socket → Option Fd → Run (Reply × Socket)
unfolding answered
bind_held w old s none = ok (fail other, s)
bind_held w old s (some b) = inc_ref b >>= λ (live, b').
    if live
    then (number b' >>= λ n. dec_ref b' >>= λ b''. ok (answered w old b'' n s))
    else ok (errno ebadf, s)

pick_bind : Option ℕ → Option Fd → Run (Option Fd)
pick_bind temp (some b) = ok (some b)
pick_bind temp none = new_temp_bind_socket temp

bind_passive : BindWorld → AddrPort → Socket → Option Fd → Run (Reply × Socket)
unfolding pick_bind bind_held
bind_passive w addr s old =
    if is_of s.domain addr
    then (pick_bind w.temp old >>= λ next. bind_held w old s next)
    else ok (errno einval, s)

unfoldable pub bind_in : BindWorld → AddrPort → Socket → State → Run (Reply × Socket)
unfolding bind_passive
bind_in w addr s (passive old e) = bind_passive w addr s old
bind_in w addr s closed = ok (errno ebadf, s)
bind_in w addr s _ = ok (errno einval, s)

unfoldable pub bind : BindWorld → AddrPort → Socket → Run (Reply × Socket)
unfolding bind_in
bind w addr s = referenced (λ s'. bind_in w addr s' s'.state) s

unfoldable pub bind_addr : Sockname → Socket → Run (Outcome AddrPort × Socket)
bind_addr k s =
    referenced
      (λ s'. remote_bind_addr k s'.state >>= λ (a, state). ok (a, record s' { state = state })) s

unfoldable pub peer_addr : Socket → Run (Outcome AddrPort × Socket)
peer_addr s = referenced (λ s'. ok (remote_peer_addr s'.state, s')) s

abbrev pub state_errno : State → ℕ
state_errno (passive b e) = e
state_errno _ = 0

-- Errno, which SO_ERROR reports.
unfoldable pub socket_errno : Socket → Run (Outcome ℕ × Socket)
socket_errno s = referenced (λ s'. ok (done (state_errno s'.state), s')) s
