-- ===== src/Process/Handlers.antt =====
-- cmd/run/engine/process/handle.go: the handlers of the system calls that end or replace the program
-- and of those that make, copy and close sockets.
use subtrace_docker_wireshar.Base.{
  ℕ, ◌+◌, ◌%◌, Bool, true, false, not, ◌&&◌, ◌||◌, [], Option, none, some, ok, Failure, other,
  ebadf, eprotonosupport, ◌==◌, if◌then◌else◌,
}
use subtrace_docker_wireshar.Event.{Event}
use subtrace_docker_wireshar.Fd.Calls.{Fd, new_fd, number}
use subtrace_docker_wireshar.Socket.State.{Domain, State, passive}
use subtrace_docker_wireshar.Socket.Close.{close}
use subtrace_docker_wireshar.Process.Machine.{from_run, Act, pure, ◌>>=◌, ask, update, method}
use subtrace_docker_wireshar.Process.Memory.{af_inet, af_inet6}
use subtrace_docker_wireshar.Process.Host.{Host, Opened, opened, open_errno, open_error}
use subtrace_docker_wireshar.Process.Table.{
  skips, returns, after, holds, lets_go, get_socket, get_delete_socket, new_socket, install_socket,
  mark_as_exited, starts_cleanup,
}
use subtrace_docker_wireshar.Process.Answer.{
  f_dupfd, f_dupfd_cloexec, sock_cloexec, cloexec_of, domain_of, tracked,
}
use subtrace_docker_wireshar.Process.Lifetime.{fresh_template, without_cleanup}

module _ {W : Type 0} where
  unfoldable pub exits : Host W → Act W (Option Failure)
  unfolding mark_as_exited starts_cleanup skips
  exits h = mark_as_exited >>= λ marked. starts_cleanup marked >>= λ _. skips h.memory

  -- Whether the thread is the process's main one.
  unfoldable pub is_main : ℕ → Act W Bool
  is_main pid m = ok (pid == m.proc.pid, m)

  unfoldable pub handle_exit : Host W → ℕ → Act W (Option Failure)
  unfolding is_main exits skips
  handle_exit h pid = is_main pid >>= λ main. if main then exits h else skips h.memory

  unfoldable pub handle_exit_group : Host W → Act W (Option Failure)
  unfolding exits
  handle_exit_group h = exits h

  unfoldable pub forget_template : Act W (Unit {0})
  forget_template m = ok (tt, record m { proc = record m.proc { template = none } })

  -- handleExecve and handleExecveat.
  unfoldable pub handle_execve : Host W → Act W (Option Failure)
  unfolding forget_template skips
  handle_execve h = forget_template >>= λ _. skips h.memory

  unfoldable pub close_tracked : Host W → Option ℕ → Act W (Option Failure)
  unfolding skips ask method close
  close_tracked h none = skips h.memory
  close_tracked h (some s) = ask h.close_errno >>= λ e.
      method s (λ sock. without_cleanup (close e [] sock)) >>= λ _. skips h.memory

  unfoldable pub handle_close : Host W → ℕ → Act W (Option Failure)
  unfolding get_delete_socket close_tracked
  handle_close h fd = get_delete_socket fd >>= close_tracked h

  unfoldable pub inode_at : ℕ → Act W ℕ
  inode_at s m = ok ((m.store.sock s).inode, m)

  unfoldable pub dup_made : Host W → ℕ → ℕ → Opened → Act W (Option Failure)
  unfolding fresh_template inode_at new_socket install_socket returns after lets_go new_fd
  dup_made h src flags (opened n) = inode_at src >>= λ i. fresh_template h >>= λ t.
      new_socket t i (new_fd n) >>= λ dst. install_socket h.memory dst flags >>= after (lets_go dst)
  dup_made h src flags (open_errno e) = returns h.memory 0 e
  dup_made h src flags open_error = pure (some other)

  unfoldable pub fd_at : ℕ → Act W Fd
  fd_at s m = ok ((m.store.sock s).fd, m)

  unfoldable pub dup_held : Host W → ℕ → ℕ → Bool → Act W (Option Failure)
  unfolding returns fd_at from_run number ask dup_made after lets_go
  dup_held h src flags false = returns h.memory 0 ebadf
  dup_held h src flags true = fd_at src >>= λ f.
      from_run (number f) >>= λ n. ask (h.dup n) >>= dup_made h src flags >>= after (lets_go src)

  unfoldable pub handle_fcntl : Host W → ℕ → ℕ → Act W (Option Failure)
  unfolding skips get_socket holds dup_held
  handle_fcntl h fd cmd =
      if cmd == f_dupfd || cmd == f_dupfd_cloexec
      then tracked h fd
          (λ src. holds src >>= dup_held h src (if cmd == f_dupfd then 0 else sock_cloexec))
      else skips h.memory

  -- newInode, and NewSocket on it: the socket's pointer.
  unfoldable pub new_inode : ℕ → Domain → State → Act W ℕ
  new_inode n domain state m =
      let i = m.store.next in
      ok (
        i,
        record m {
          store = record m.store {
            inode =
                update m.store.inode i
                  (record { number = n; domain = domain; socks = []; state = state });
            next = i + 1;
          };
        },
      )

  unfoldable pub socket_made : Host W → ℕ → ℕ → Event → Option (ℕ × ℕ) → Act W (Option Failure)
  unfolding new_inode new_socket install_socket after lets_go new_fd
  socket_made h domain flags t none = pure (some other)
  socket_made h domain flags t (some (n, ino)) =
      new_inode ino (domain_of domain) (passive none 0) >>= λ i.
      new_socket t i (new_fd n) >>= λ s. lets_go s >>= λ _. install_socket h.memory s flags

  -- IPPROTO_IP is 0, IPPROTO_TCP 6 and IPPROTO_MPTCP 262. SOCK_STREAM is 1.
  unfoldable pub handle_socket : Host W → ℕ → ℕ → ℕ → Act W (Option Failure)
  unfolding skips returns ask fresh_template socket_made
  handle_socket h domain typ protocol =
      if not (domain == af_inet) && not (domain == af_inet6)
      then skips h.memory
      else if typ % 2 == 0
      then skips h.memory
      else if protocol == 0 || protocol == 6
      then (fresh_template h >>= λ t.
          ask (h.socket domain typ) >>= socket_made h domain (cloexec_of typ) t)
      else if protocol == 262
      then returns h.memory 0 eprotonosupport
      else skips h.memory
