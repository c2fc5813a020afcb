-- ===== src/Process/Tracked.antt =====
-- The handlers of cmd/run/engine/process/handle.go on a descriptor that is no socket of the process.
use subtrace_docker_wireshar.Base.{
  ℕ, ◌≡◌, refl, Bool, true, false, Option, none, Failure, if◌then◌else◌,
}
use subtrace_docker_wireshar.Socket.Inode.{get}
use subtrace_docker_wireshar.Process.Machine.{Machine, Act, ◌>>=◌}
use subtrace_docker_wireshar.Process.Host.{Host}
use subtrace_docker_wireshar.Process.Table.{skips, get_socket, get_delete_socket}
use subtrace_docker_wireshar.Process.Sharing.{unmapped_fresh}
use subtrace_docker_wireshar.Process.Answer.{skip_or, tracked}
use subtrace_docker_wireshar.Process.Handlers.{handle_close, close_tracked, handle_fcntl}
use subtrace_docker_wireshar.Process.Calls.{
  handle_bind, handle_connect, handle_listen, handle_accept, handle_getsockopt, handle_setsockopt,
  handle_getsockname, handle_getpeername,
}
use subtrace_docker_wireshar.Process.Dispatch.{
  low32, Syscall, Args, handler, exit, exit_group, execve, execveat, openat, newfstatat, statx,
  close, fcntl, socket, bind, connect, listen, accept, accept4, getsockopt, setsockopt, getsockname,
  getpeername,
}

-- The calls whose first argument is a descriptor that may be a socket.
abbrev pub on_socket : Syscall → Bool
on_socket exit = false
on_socket exit_group = false
on_socket execve = false
on_socket execveat = false
on_socket openat = false
on_socket newfstatat = false
on_socket statx = false
on_socket socket = false
on_socket _ = true

module _ {W : Type 0} where
  tracked-none :
      (h : Host W) (fd : ℕ) (go_on : ℕ → Act W (Option Failure)) (m : Machine W)
      → get fd m.proc.sockets ≡ none
      → tracked h fd go_on m ≡ skips h.memory m
  unfolding get_socket skip_or ◌>>=◌
  tracked-none h fd go_on m e = rw e refl

  if-tracked-none :
      (c : Bool) (h : Host W) (fd : ℕ) (go_on : ℕ → Act W (Option Failure)) (m : Machine W)
      → get fd m.proc.sockets ≡ none
      → (if c then tracked h fd go_on else skips h.memory) m ≡ skips h.memory m
  if-tracked-none true h fd go_on m e = tracked-none h fd go_on m e
  if-tracked-none false h fd go_on m e = refl

  close-none :
      (h : Host W) (fd : ℕ) (m : Machine W)
      → get fd m.proc.sockets ≡ none
      → handle_close h fd m ≡ skips h.memory m
  unfolding handle_close get_delete_socket close_tracked ◌>>=◌
  close-none h fd m e = rw (e, unmapped_fresh fd m.proc.sockets e) refl

-- A system call on a descriptor that is no socket of the process is left to the kernel, and nothing of
-- the tracer changes but the notification that the skip answers.
pub untracked-skips :
    {W : Type 0} (h : Host W) (call : Syscall) (a : Args) (m : Machine W)
    → on_socket call ≡ true
    → get (low32 a.arg0) m.proc.sockets ≡ none
    → handler h call a m ≡ skips h.memory m
unfolding handler handle_fcntl handle_bind handle_connect handle_listen handle_accept
    handle_getsockopt handle_setsockopt handle_getsockname handle_getpeername
untracked-skips h exit a m on e = absurd (cc)
untracked-skips h exit_group a m on e = absurd (cc)
untracked-skips h execve a m on e = absurd (cc)
untracked-skips h execveat a m on e = absurd (cc)
untracked-skips h openat a m on e = absurd (cc)
untracked-skips h newfstatat a m on e = absurd (cc)
untracked-skips h statx a m on e = absurd (cc)
untracked-skips h socket a m on e = absurd (cc)
untracked-skips h close a m on e = close-none h (low32 a.arg0) m e
untracked-skips h fcntl a m on e = if-tracked-none _ h (low32 a.arg0) _ m e
untracked-skips h bind a m on e = tracked-none h (low32 a.arg0) _ m e
untracked-skips h connect a m on e = tracked-none h (low32 a.arg0) _ m e
untracked-skips h listen a m on e = tracked-none h (low32 a.arg0) _ m e
untracked-skips h accept a m on e = tracked-none h (low32 a.arg0) _ m e
untracked-skips h accept4 a m on e = tracked-none h (low32 a.arg0) _ m e
untracked-skips h getsockopt a m on e = if-tracked-none _ h (low32 a.arg0) _ m e
untracked-skips h setsockopt a m on e = tracked-none h (low32 a.arg0) _ m e
untracked-skips h getsockname a m on e = tracked-none h (low32 a.arg0) _ m e
untracked-skips h getpeername a m on e = tracked-none h (low32 a.arg0) _ m e
