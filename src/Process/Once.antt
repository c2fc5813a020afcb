-- ===== src/Process/Once.antt =====
-- Each handler of cmd/run/engine/process/handle.go answers its notification, once.
use subtrace_docker_wireshar.Base.{◌≤◌, ◌≡◌, [], length, Option, none, ok, Failure}
use subtrace_docker_wireshar.Seccomp.Notif.{received, replied}
use subtrace_docker_wireshar.Process.Machine.{Machine}
use subtrace_docker_wireshar.Process.Host.{Host}
use subtrace_docker_wireshar.Process.Handlers.{handle_exit_group}
use subtrace_docker_wireshar.Process.Dispatch.{
  low32, Syscall, Args, handler, exit, exit_group, execve, execveat, openat, newfstatat, statx,
  close, fcntl, socket, bind, connect, listen, accept, accept4, getsockopt, setsockopt, getsockname,
  getpeername,
}
use subtrace_docker_wireshar.Process.Rules.{Answers, itself}
use subtrace_docker_wireshar.Process.Answering.Making.{
  exits-Answers, handle_exit-Answers, handle_execve-Answers, handle_close-Answers,
  handle_fcntl-Answers, handle_socket-Answers,
}
use subtrace_docker_wireshar.Process.Answering.Sockets.{
  handle_bind-Answers, handle_connect-Answers, handle_listen-Answers, handle_accept-Answers,
  handle_getsockopt-Answers, handle_setsockopt-Answers, handle_getsockname-Answers,
  handle_getpeername-Answers,
}
use subtrace_docker_wireshar.Process.Answering.Opening.{
  handle_open-Answers, handle_fstatat-Answers, handle_statx-Answers,
}

module _ {W : Type 0} where
  handler-Answers : (h : Host W) (call : Syscall) (a : Args) → Answers itself (handler h call a)
  unfolding handler handle_exit_group
  handler-Answers h exit a = handle_exit-Answers h a.pid
  handler-Answers h exit_group a = exits-Answers h
  handler-Answers h execve a = handle_execve-Answers h
  handler-Answers h execveat a = handle_execve-Answers h
  handler-Answers h openat a = handle_open-Answers h (low32 a.arg0) a.arg1 a.arg2
  handler-Answers h newfstatat a = handle_fstatat-Answers h (low32 a.arg0) a.arg1 a.arg2 a.arg3
  handler-Answers h statx a = handle_statx-Answers h (low32 a.arg0) a.arg1 a.arg2 a.arg3 a.arg4
  handler-Answers h close a = handle_close-Answers h (low32 a.arg0)
  handler-Answers h fcntl a = handle_fcntl-Answers h (low32 a.arg0) a.arg1
  handler-Answers h socket a = handle_socket-Answers h a.arg0 a.arg1 a.arg2
  handler-Answers h bind a = handle_bind-Answers h (low32 a.arg0) a.arg1 a.arg2
  handler-Answers h connect a = handle_connect-Answers h (low32 a.arg0) a.arg1 a.arg2
  handler-Answers h listen a = handle_listen-Answers h (low32 a.arg0)
  handler-Answers h accept a = handle_accept-Answers h (low32 a.arg0) a.arg1 a.arg2 0
  handler-Answers h accept4 a = handle_accept-Answers h (low32 a.arg0) a.arg1 a.arg2 a.arg3
  handler-Answers h getsockopt a =
      handle_getsockopt-Answers h (low32 a.arg0) a.arg1 a.arg2 a.arg3 a.arg4
  handler-Answers h setsockopt a = handle_setsockopt-Answers h (low32 a.arg0) a.arg1 a.arg2
  handler-Answers h getsockname a = handle_getsockname-Answers h (low32 a.arg0) a.arg1 a.arg2
  handler-Answers h getpeername a = handle_getpeername-Answers h (low32 a.arg0) a.arg1 a.arg2

-- Whatever the world says, the handler of a call returns with no error only if the notification is
-- answered, by exactly one request to the kernel, and no handler makes more than one. The notification
-- has come in and was not answered before.
pub handler-once :
    {W : Type 0} (h : Host W) (call : Syscall) (a : Args) (m m' : Machine W) (r : Option Failure)
    → m.notif.state ≡ received
    → m.notif.asked ≡ []
    → handler h call a m ≡ ok (r, m')
    → (r ≡ none → (m'.notif.state ≡ replied) × (length m'.notif.asked ≡ 1))
      × (length m'.notif.asked ≤ 1)
handler-once h call a m m' r fresh empty e = (handler-Answers h call a).answers m m' r fresh empty e
