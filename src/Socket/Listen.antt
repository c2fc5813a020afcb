-- ===== src/Socket/Listen.antt =====
-- cmd/run/socket/socket.go: Listen and Accept, without the goroutines that carry connections between.
use subtrace_docker_wireshar.Base.{
  ℕ, ◌*◌, Bool, true, Option, none, some, Run, ok, panic, ◌>>=◌, [], Outcome, done, errno, fail,
  other, ebadf, einval, erestart, if◌then◌else◌, ltb,
}
use subtrace_docker_wireshar.Fd.Calls.{Fd, new_fd, dec_ref, number, closing_inc_ref}
use subtrace_docker_wireshar.Socket.Inode.{add}
use subtrace_docker_wireshar.Socket.State.{
  AddrPort, Proxy, Listener, State, passive, connected, listening, closed, Sockname,
  remote_bind_addr, Reply, Socket, shut_down, compare_and_swap, referenced, bind_ephemeral,
}

-- What package net says to a Listen.
pub data ListenAnswer : Type 0 where
  listens : Listener → ListenAnswer
  listen_errno : ℕ → ListenAnswer
  listen_error : ListenAnswer

-- `ephemeral` is the process side's address from bindEphemeral.
pub record ListenWorld : Type 0 where
  pub ephemeral : Option AddrPort
  pub sockname : Sockname
  pub answer : AddrPort → ListenAnswer
  pub meddled : Option State

-- The capacity of the buffer between the accept loop and the dispatch loop.
unfoldable pub buffer_size : ℕ → ℕ
buffer_size backlog = (if ltb backlog 8 then 8 else backlog) * 2

-- The bind's descriptor is closed without a Lock.
close_now : Option Fd → Socket → Run Socket
close_now none s = ok s
close_now (some b) s =
    let (first, b') = closing_inc_ref b in
    if first then (number b' >>= λ n. dec_ref b' >>= λ b''. ok (shut_down n s)) else ok s

listen_stored : ListenAnswer → Bool × Socket → Reply × Socket
listen_stored l (won, s) = (if won then done tt else errno erestart, s)

listen_answered : ListenWorld → Option Fd → Socket → ListenAnswer → Run (Reply × Socket)
unfolding close_now listen_stored
listen_answered w old s (listen_errno e) = ok (errno e, s)
listen_answered w old s listen_error = ok (fail other, s)
listen_answered w old s (listens l) = close_now old s >>= λ s'. ok (
    listen_stored (listens l)
      (compare_and_swap w.meddled (listening (record l { active = true })) s'))

listen_at : ListenWorld → Option Fd → Socket → Outcome AddrPort → Run (Reply × Socket)
unfolding listen_answered
listen_at w old s (errno e) = ok (errno e, s)
listen_at w old s (fail e) = ok (fail e, s)
listen_at w old s (done addr) = listen_answered w old s (w.answer addr)

bind_of : State → Option Fd
bind_of (passive b e) = b
bind_of _ = none

listen_bound : ListenWorld → Socket → Option AddrPort × Fd → Run (Reply × Socket)
unfolding bind_of listen_at
listen_bound w s (none, f) = ok (fail other, record s { fd = f })
listen_bound w s (some ephemeral, f) = remote_bind_addr w.sockname s.state >>= λ (addr, state).
    listen_at w (bind_of state) (record s { fd = f; state = state }) addr

listen_passive : ListenWorld → Socket → Run (Reply × Socket)
unfolding listen_bound
listen_passive w s = bind_ephemeral w.ephemeral s.fd >>= λ found. listen_bound w s found

unfoldable pub listen_in : ListenWorld → Socket → State → Run (Reply × Socket)
unfolding listen_passive
listen_in w s (passive b e) = listen_passive w s
listen_in w s (listening l) = ok (done tt, s)
listen_in w s closed = ok (errno ebadf, s)
listen_in w s _ = ok (errno einval, s)

unfoldable pub listen : ListenWorld → Socket → Run (Reply × Socket)
unfolding listen_in
listen w s = referenced (λ s'. listen_in w s' s'.state) s

-- What accept4(2) says: a descriptor and the peer's address as it is written there.
pub data AcceptAnswer : Type 0 where
  accepted : ℕ → AddrPort → AcceptAnswer
  accept_errno : ℕ → AcceptAnswer
  accept_error : AcceptAnswer

-- `unmap` is the IPv4 address that an IPv6 one maps, if it does; `proxy` is the proxy that the
-- backlog's channel of an address delivers, with the local address of its process side; `inode` is
-- the inode's number from fstat(2), or none.
pub record AcceptWorld : Type 0 where
  pub answer : AcceptAnswer
  pub unmap : AddrPort → AddrPort
  pub proxy : AddrPort → Proxy × AddrPort
  pub same_addr : AddrPort → AddrPort → Bool
  pub inode : Option ℕ

-- NewSocket on a new inode with this socket's pointer.
child_of : ℕ → Socket → ℕ → Proxy → Run Socket
unfolding add
child_of name s n p = dec_ref (new_fd n) >>= λ f. ok (record {
  domain = s.domain;
  name = name;
  socks = add name [];
  fd = f;
  state = connected p;
  shut = [];
})

accept_child : ℕ → Option ℕ → ℕ → Proxy → Socket → Run (Outcome Socket × Socket)
unfolding child_of
accept_child name none n p s = ok (fail other, shut_down n s)
accept_child name (some inode) n p s = child_of name s n p >>= λ child. ok (done child, s)

accept_answered : ℕ → AcceptWorld → Socket → AcceptAnswer → Run (Outcome Socket × Socket)
unfolding accept_child
accept_answered name w s (accept_errno e) = ok (errno e, s)
accept_answered name w s accept_error = ok (fail other, s)
accept_answered name w s (accepted n peer) =
    let addr = w.unmap peer in
    let (p, from) = w.proxy addr in
    if w.same_addr from addr then accept_child name w.inode n p s else panic

unfoldable pub accept_in : ℕ → AcceptWorld → Socket → State → Run (Outcome Socket × Socket)
unfolding accept_answered
accept_in name w s (listening l) =
    if l.active then accept_answered name w s w.answer else ok (errno einval, s)
accept_in name w s closed = ok (errno ebadf, s)
accept_in name w s _ = ok (errno einval, s)

unfoldable pub accept : ℕ → AcceptWorld → Socket → Run (Outcome Socket × Socket)
unfolding accept_in
accept name w s = referenced (λ s'. accept_in name w s' s'.state) s
