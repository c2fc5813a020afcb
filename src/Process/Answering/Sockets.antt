-- ===== src/Process/Answering/Sockets.antt =====
-- The handlers of cmd/run/engine/process/handle.go on a socket answer their notification.
use subtrace_docker_wireshar.Base.{ℕ, ◌≡◌, Run, ok, panic, Outcome, done, errno, fail}
use subtrace_docker_wireshar.Socket.State.{Socket, AddrPort}
use subtrace_docker_wireshar.Process.Machine.{Machine}
use subtrace_docker_wireshar.Process.Host.{Host}
use subtrace_docker_wireshar.Process.Calls.{
  handle_bind, handle_connect, handle_listen, accepts, stored_child, domain_at, install_accepted,
  tell_peer, handle_accept, tell_errno, handle_getsockopt, handle_setsockopt, tell_addr,
  handle_getsockname, handle_getpeername,
}
use subtrace_docker_wireshar.Process.Rules.{Silent, Answers, itself, bind-Silent, ask-Silent}
use subtrace_docker_wireshar.Process.Quiet.{
  read_uint32-Silent, read_sockaddr-Silent, write_uint32-Silent, write_sockaddr-Silent,
}
use subtrace_docker_wireshar.Process.Answering.{install_socket-Answers}
use subtrace_docker_wireshar.Process.Answering.Making.{answering}

module _ {W : Type 0} where
  pub handle_bind-Answers :
      (h : Host W) (fd ptr size : ℕ) → Answers itself (handle_bind h fd ptr size)
  unfolding handle_bind
  handle_bind-Answers h fd ptr size = search (answering, read_sockaddr-Silent) depth 12

  pub handle_connect-Answers :
      (h : Host W) (fd ptr size : ℕ) → Answers itself (handle_connect h fd ptr size)
  unfolding handle_connect
  handle_connect-Answers h fd ptr size = search (answering, read_sockaddr-Silent) depth 12

  pub handle_listen-Answers : (h : Host W) (fd : ℕ) → Answers itself (handle_listen h fd)
  unfolding handle_listen
  handle_listen-Answers h fd = search (answering) depth 12

  stored_child-kept :
      (s ino : ℕ) (m m' : Machine W) (r : Run (Outcome Socket × Socket)) (a : Outcome ℕ)
      → stored_child s ino m r ≡ ok (a, m')
      → m'.notif ≡ m.notif
  stored_child-kept s ino m m' (ok (done c, v)) a e = cc
  stored_child-kept s ino m m' (ok (errno n, v)) a e = cc
  stored_child-kept s ino m m' (ok (fail n, v)) a e = cc
  stored_child-kept s ino m m' panic a e = absurd (cc)

  accepts-Silent : (h : Host W) (s : ℕ) → Silent (accepts h s)
  unfolding accepts
  accepts-Silent h s = bind-Silent (ask-Silent h.accept_world) (λ w. record {
    keeps = λ m m' a e. let same = stored_child-kept s _ m m' _ a e in (cc (same), cc (same));
  })

  domain_at-Silent : (s : ℕ) → Silent {W = W} (domain_at s)
  unfolding domain_at
  domain_at-Silent s = record { keeps = λ m m' a e. (cc, cc) }

  install_accepted-Answers :
      (h : Host W) (flags child : ℕ) → Answers itself (install_accepted h flags child)
  unfolding install_accepted
  install_accepted-Answers h flags child = install_socket-Answers h.memory child _

  tell_peer-Answers :
      (h : Host W) (s ptr size flags child : ℕ) (peer : AddrPort)
      → Answers itself (tell_peer h s ptr size flags child peer)
  unfolding tell_peer
  tell_peer-Answers h s ptr size flags child peer =
      search (answering, domain_at-Silent, write_sockaddr-Silent) depth 12

  pub handle_accept-Answers :
      (h : Host W) (fd ptr size flags : ℕ) → Answers itself (handle_accept h fd ptr size flags)
  unfolding handle_accept
  handle_accept-Answers h fd ptr size flags =
      search (answering, accepts-Silent, tell_peer-Answers) depth 12

  tell_errno-Answers : (h : Host W) (s ptr size : ℕ) → Answers itself (tell_errno h s ptr size)
  unfolding tell_errno
  tell_errno-Answers h s ptr size = search (answering, write_uint32-Silent) depth 12

  pub handle_getsockopt-Answers :
      (h : Host W) (fd level name ptr size : ℕ)
      → Answers itself (handle_getsockopt h fd level name ptr size)
  unfolding handle_getsockopt
  handle_getsockopt-Answers h fd level name ptr size =
      search (answering, read_uint32-Silent, tell_errno-Answers) depth 12

  pub handle_setsockopt-Answers :
      (h : Host W) (fd level name : ℕ) → Answers itself (handle_setsockopt h fd level name)
  unfolding handle_setsockopt
  handle_setsockopt-Answers h fd level name = search (answering) depth 12

  tell_addr-Answers :
      (h : Host W) (s ptr size : ℕ) (addr : AddrPort) → Answers itself (tell_addr h s ptr size addr)
  unfolding tell_addr
  tell_addr-Answers h s ptr size addr =
      search (answering, domain_at-Silent, write_sockaddr-Silent) depth 12

  pub handle_getsockname-Answers :
      (h : Host W) (fd ptr size : ℕ) → Answers itself (handle_getsockname h fd ptr size)
  unfolding handle_getsockname
  handle_getsockname-Answers h fd ptr size =
      search (answering, tell_addr-Answers, write_uint32-Silent) depth 12

  pub handle_getpeername-Answers :
      (h : Host W) (fd ptr size : ℕ) → Answers itself (handle_getpeername h fd ptr size)
  unfolding handle_getpeername
  handle_getpeername-Answers h fd ptr size = search (answering, tell_addr-Answers) depth 12
