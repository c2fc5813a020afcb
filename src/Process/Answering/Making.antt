-- ===== src/Process/Answering/Making.antt =====
-- The handlers of cmd/run/engine/process/handle.go that end or replace the program or make and close
-- sockets answer their notification.
use subtrace_docker_wireshar.Event.{Event}
use subtrace_docker_wireshar.Base.{ℕ, Bool, true, false, Option, none, some, other, ebadf}
use subtrace_docker_wireshar.Socket.State.{State, Domain}
use subtrace_docker_wireshar.Process.Host.{Host, Opened, opened, open_errno, open_error}
use subtrace_docker_wireshar.Process.Handlers.{
  is_main, inode_at, fd_at, exits, handle_exit, handle_execve, forget_template, close_tracked,
  handle_close, dup_made, dup_held, handle_fcntl, new_inode, socket_made, handle_socket,
}
use subtrace_docker_wireshar.Process.Rules.{
  Silent, Answers, itself, bind-parts, bind-Silent, bind-Answers, answered-Answers, if-Answers,
  failure-Answers, ask-Silent, pure-Silent, if-Silent, crash-Silent,
}
use subtrace_docker_wireshar.Process.Quiet.{
  quiet, from_run-Silent, pass-Silent, method-Silent, after-Silent, read_uint32-Silent,
  read_string-Silent, read_sockaddr-Silent, write_bytes-Silent, write_uint32-Silent,
  write_sockaddr-Silent, holds-Silent, lets_go-Silent, get_socket-Silent, get_delete_socket-Silent,
  new_socket-Silent, mark_as_exited-Silent, starts_cleanup-Silent, fresh_template-Silent,
  get_fd-Silent,
}
use subtrace_docker_wireshar.Process.Answering.{
  skips-Answers, returns-Answers, deferred-Answers, install_socket-Answers, answer_or-Answers,
  skip_or-Answers, add_fd-answers,
}

pub ruleset answering = (
  bind-Answers, if-Answers, failure-Answers, deferred-Answers, skips-Answers, returns-Answers,
  answer_or-Answers, skip_or-Answers, install_socket-Answers, bind-Silent, ask-Silent, pure-Silent,
  if-Silent, method-Silent, get_socket-Silent,
)

module _ {W : Type 0} where
  pub exits-Answers : (h : Host W) → Answers itself (exits h)
  unfolding exits
  exits-Answers h = search (answering, mark_as_exited-Silent, starts_cleanup-Silent) depth 12

  pub handle_exit-Answers : (h : Host W) (pid : ℕ) → Answers itself (handle_exit h pid)
  unfolding handle_exit is_main
  handle_exit-Answers h pid =
      bind-Answers (record { keeps = λ m m' a e. (cc, cc) })
        (λ main. if-Answers main (exits-Answers h) (skips-Answers h.memory))

  pub handle_execve-Answers : (h : Host W) → Answers itself (handle_execve h)
  unfolding handle_execve forget_template
  handle_execve-Answers h =
      bind-Answers (record { keeps = λ m m' a e. (cc, cc) }) (λ _. skips-Answers h.memory)

  close_tracked-Answers : (h : Host W) (found : Option ℕ) → Answers itself (close_tracked h found)
  unfolding close_tracked
  close_tracked-Answers h none = skips-Answers h.memory
  close_tracked-Answers h (some s) = search (answering) depth 12

  pub handle_close-Answers : (h : Host W) (fd : ℕ) → Answers itself (handle_close h fd)
  unfolding handle_close
  handle_close-Answers h fd =
      search (answering, get_delete_socket-Silent, close_tracked-Answers) depth 12

  inode_at-Silent : (s : ℕ) → Silent {W = W} (inode_at s)
  unfolding inode_at
  inode_at-Silent s = record { keeps = λ m m' a e. (cc, cc) }

  fd_at-Silent : (s : ℕ) → Silent {W = W} (fd_at s)
  unfolding fd_at
  fd_at-Silent s = record { keeps = λ m m' a e. (cc, cc) }

  dup_made-Answers :
      (h : Host W) (src flags : ℕ) (made : Opened) → Answers itself (dup_made h src flags made)
  unfolding dup_made
  dup_made-Answers h src flags (opened n) =
      search (answering, inode_at-Silent, fresh_template-Silent, new_socket-Silent, lets_go-Silent)
        depth 12
  dup_made-Answers h src flags (open_errno e) = returns-Answers h.memory 0 e
  dup_made-Answers h src flags open_error = failure-Answers other

  dup_held-Answers :
      (h : Host W) (src flags : ℕ) (live : Bool) → Answers itself (dup_held h src flags live)
  unfolding dup_held
  dup_held-Answers h src flags false = returns-Answers h.memory 0 ebadf
  dup_held-Answers h src flags true =
      search (answering, fd_at-Silent, from_run-Silent, dup_made-Answers, lets_go-Silent) depth 12

  pub handle_fcntl-Answers : (h : Host W) (fd cmd : ℕ) → Answers itself (handle_fcntl h fd cmd)
  unfolding handle_fcntl
  handle_fcntl-Answers h fd cmd = search (answering, holds-Silent, dup_held-Answers) depth 12

  new_inode-Silent : (n : ℕ) (d : Domain) (st : State) → Silent {W = W} (new_inode n d st)
  unfolding new_inode
  new_inode-Silent n d st = record { keeps = λ m m' a e. (cc, cc) }

  socket_made-Answers :
      (h : Host W) (d flags : ℕ) (t : Event) (made : Option (ℕ × ℕ))
      → Answers itself (socket_made h d flags t made)
  unfolding socket_made
  socket_made-Answers h d flags t none = failure-Answers other
  socket_made-Answers h d flags t (some (n, ino)) =
      search (answering, new_inode-Silent, new_socket-Silent, lets_go-Silent) depth 12

  pub handle_socket-Answers : (h : Host W) (d typ p : ℕ) → Answers itself (handle_socket h d typ p)
  unfolding handle_socket
  handle_socket-Answers h d typ p =
      search (answering, fresh_template-Silent, socket_made-Answers) depth 12
