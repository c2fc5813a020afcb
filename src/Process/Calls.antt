-- ===== src/Process/Calls.antt =====
-- cmd/run/engine/process/handle.go: the handlers of the system calls on a socket that there is.
use subtrace_docker_wireshar.Base.{
  ℕ, ◌+◌, Bool, true, false, ◌&&◌, ◌||◌, Option, none, some, Run, ok, panic, Outcome, done, errno,
  fail, Failure, efault, einval, enotconn, ◌==◌, if◌then◌else◌,
}
use subtrace_docker_wireshar.Fd.Calls.{Fd}
use subtrace_docker_wireshar.Socket.State.{
  Domain, inet6, AddrPort, invalid, ip4, ip6, State, connecting, Reply, Socket,
}
use subtrace_docker_wireshar.Socket.Bind.{bind, bind_addr, peer_addr, socket_errno}
use subtrace_docker_wireshar.Socket.Connect.{Started, dialing, connect, settle_dial, connect_answer}
use subtrace_docker_wireshar.Socket.Listen.{listen, accept}
use subtrace_docker_wireshar.Process.Machine.{Machine, Act, ◌>>=◌, ask, update, method, load, save}
use subtrace_docker_wireshar.Process.Memory.{
  read_uint32, read_sockaddr, write_uint32, write_sockaddr,
}
use subtrace_docker_wireshar.Process.Host.{Host, DialWorld}
use subtrace_docker_wireshar.Process.Table.{skips, returns, get_socket, install_socket}
use subtrace_docker_wireshar.Process.Answer.{cloexec_of, answer_or, last_answer, tracked}

-- The mapped address that an IPv6 socket shows for an IPv4 one.
unfoldable pub shown_addr : Domain → AddrPort → AddrPort
shown_addr inet6 (ip4 a p) = ip6 (281470681743360 + a) p
shown_addr _ addr = addr

abbrev pub is_valid : AddrPort → Bool
is_valid invalid = false
is_valid _ = true

-- The descriptor that a socket's dial reserved.
abbrev pub reserved : State → Option Fd
reserved (connecting b peer) = some b
reserved _ = none

-- What a dial in the background left, for a Connect that waits for it.
abbrev pub settled_answer : Bool → ℕ → Run (ℕ × Socket) → Run (Reply × Socket)
settled_answer blocking e (ok (settled, s)) = ok (connect_answer blocking settled e, s)
settled_answer blocking e panic = panic

-- Connect after its start. One that does not block answers before its dial has settled.
unfoldable pub dial_on : DialWorld → Run (Outcome Started × Socket) → Run (Reply × Socket)
unfolding settle_dial connect_answer
dial_on d panic = panic
dial_on d (ok (errno e, s)) = ok (errno e, s)
dial_on d (ok (fail e, s)) = ok (fail e, s)
dial_on d (ok (done (dialing from false), s)) = ok (connect_answer false 0 d.dummy_errno, s)
dial_on d (ok (done (dialing from true), s)) = elim (reserved s.state) [
  | none ↦ panic
  | some b ↦ settled_answer true d.dummy_errno (settle_dial b d.dial d.meddled s)
]

-- A result's number: the new inode's, and the errno that Errno reports, also where the socket is gone.
abbrev pub number_or : Option ℕ → ℕ
number_or none = 0
number_or (some n) = n

abbrev pub errno_or : Outcome ℕ → ℕ
errno_or (done e) = e
errno_or (errno e) = e
errno_or (fail e) = 0

module _ {W : Type 0} where
  unfoldable pub handle_bind : Host W → ℕ → ℕ → ℕ → Act W (Option Failure)
  unfolding skips returns get_socket read_sockaddr ask method bind
  handle_bind h fd addr_ptr addr_size = tracked h fd (λ s.
      read_sockaddr h.memory addr_ptr addr_size
      >>= answer_or h (λ addr. ask h.bind_world >>= λ w. method s (bind w addr) >>= last_answer h))

  unfoldable pub handle_connect : Host W → ℕ → ℕ → ℕ → Act W (Option Failure)
  unfolding skips returns get_socket read_sockaddr ask method connect dial_on
  handle_connect h fd addr_ptr addr_size = tracked h fd (λ s.
      read_sockaddr h.memory addr_ptr addr_size
      >>= answer_or h (λ addr. ask h.connect_world >>= λ w. ask h.dial_world >>= λ d.
          method s (λ sock. dial_on d (connect w addr sock)) >>= last_answer h))

  unfoldable pub handle_listen : Host W → ℕ → Act W (Option Failure)
  unfolding skips returns get_socket ask method listen
  handle_listen h fd =
      tracked h fd
        (λ s. ask h.listen_world >>= λ w. method s (listen w) >>= answer_or h (λ _. skips h.memory))

  -- Accept, with its new socket in the store: the result is the socket's pointer.
  abbrev pub stored_child :
      ℕ → ℕ → Machine W → Run (Outcome Socket × Socket) → Run (Outcome ℕ × Machine W)
  stored_child s ino m panic = panic
  stored_child s ino m (ok (errno e, v)) = ok (errno e, record m { store = save s v m.store })
  stored_child s ino m (ok (fail e, v)) = ok (fail e, record m { store = save s v m.store })
  stored_child s ino m (ok (done c, v)) =
      let h = save s v m.store in
      let i = h.next in
      ok (
        done (i + 1),
        record m {
          store = record h {
            sock = update h.sock (i + 1) (record { fd = c.fd; inode = i; tmpl = (h.sock s).tmpl });
            inode =
                update h.inode i
                  (record { number = ino; domain = c.domain; socks = c.socks; state = c.state });
            next = i + 2;
          };
        },
      )

  unfoldable pub accepts : Host W → ℕ → Act W (Outcome ℕ)
  unfolding ask accept load save
  accepts h s = ask h.accept_world >>= λ w m.
      stored_child s (number_or w.inode) m (accept (m.store.next + 1) w (load s m.store))

  unfoldable pub domain_at : ℕ → Act W Domain
  domain_at s m = ok ((m.store.inode (m.store.sock s).inode).domain, m)

  unfoldable pub install_accepted : Host W → ℕ → ℕ → Act W (Option Failure)
  unfolding install_socket
  install_accepted h flags child = install_socket h.memory child (cloexec_of flags)

  -- The peer's address of an accepted socket, written where the caller has room for it.
  unfoldable pub tell_peer : Host W → ℕ → ℕ → ℕ → ℕ → ℕ → AddrPort → Act W (Option Failure)
  unfolding domain_at shown_addr write_sockaddr install_accepted returns
  tell_peer h s addr_ptr size_ptr flags child peer = domain_at s >>= λ d.
      write_sockaddr h.memory (shown_addr d peer) addr_ptr size_ptr
      >>= answer_or h (λ _. install_accepted h flags child)

  unfoldable pub handle_accept : Host W → ℕ → ℕ → ℕ → ℕ → Act W (Option Failure)
  unfolding skips returns get_socket accepts method peer_addr tell_peer install_accepted
  handle_accept h fd addr_ptr size_ptr flags = tracked h fd (λ s.
      accepts h s
      >>= answer_or h (λ child.
        if addr_ptr == 0 || size_ptr == 0
        then install_accepted h flags child
        else (method child peer_addr
            >>= answer_or h (tell_peer h s addr_ptr size_ptr flags child))))

  -- SOL_SOCKET is 1 and SO_ERROR 4.
  unfoldable pub tell_errno : Host W → ℕ → ℕ → ℕ → Act W (Option Failure)
  unfolding returns method socket_errno write_uint32
  tell_errno h s val_ptr size =
      if size == 4
      then (method s socket_errno >>= λ e.
          write_uint32 h.memory val_ptr (errno_or e) >>= last_answer h)
      else returns h.memory 0 einval

  unfoldable pub handle_getsockopt : Host W → ℕ → ℕ → ℕ → ℕ → ℕ → Act W (Option Failure)
  unfolding skips returns get_socket read_uint32 tell_errno
  handle_getsockopt h fd level name val_ptr size_ptr =
      if level == 1 && name == 4
      then tracked h fd
          (λ s. read_uint32 h.memory size_ptr >>= answer_or h (tell_errno h s val_ptr))
      else skips h.memory

  -- SOL_TCP is 6 and TCP_DEFER_ACCEPT 9.
  unfoldable pub handle_setsockopt : Host W → ℕ → ℕ → ℕ → Act W (Option Failure)
  unfolding skips returns get_socket
  handle_setsockopt h fd level name =
      tracked h fd (λ s. if level == 6 && name == 9 then returns h.memory 0 0 else skips h.memory)

  unfoldable pub tell_addr : Host W → ℕ → ℕ → ℕ → AddrPort → Act W (Option Failure)
  unfolding domain_at shown_addr write_sockaddr returns
  tell_addr h s addr_ptr size_ptr addr = domain_at s >>= λ d.
      if addr_ptr == 0 || size_ptr == 0
      then returns h.memory 0 efault
      else (write_sockaddr h.memory (shown_addr d addr) addr_ptr size_ptr >>= last_answer h)

  unfoldable pub handle_getsockname : Host W → ℕ → ℕ → ℕ → Act W (Option Failure)
  unfolding skips returns get_socket ask method bind_addr write_uint32 tell_addr
  handle_getsockname h fd addr_ptr size_ptr = tracked h fd (λ s. ask h.sockname >>= λ k.
      method s (bind_addr k)
      >>= answer_or h (λ addr.
        if is_valid addr
        then tell_addr h s addr_ptr size_ptr addr
        else (write_uint32 h.memory size_ptr 0 >>= last_answer h)))

  unfoldable pub handle_getpeername : Host W → ℕ → ℕ → ℕ → Act W (Option Failure)
  unfolding skips returns get_socket method peer_addr tell_addr
  handle_getpeername h fd addr_ptr size_ptr = tracked h fd (λ s.
      method s peer_addr
      >>= answer_or h (λ addr.
        if is_valid addr
        then tell_addr h s addr_ptr size_ptr addr
        else returns h.memory 0 enotconn))
