-- ===== src/Process/Dispatch.antt =====
-- cmd/run/engine/process/handle.go: the table of handlers by system call number, on amd64, and how each
-- one takes its arguments. A descriptor is the low 32 bits of its argument.
use subtrace_docker_wireshar.Base.{
  ℕ, ◌%◌, List, [], ◌∷◌, Option, none, some, Failure, ◌==◌, if◌then◌else◌,
}
use subtrace_docker_wireshar.Process.Machine.{Act}
use subtrace_docker_wireshar.Process.Host.{Host}
use subtrace_docker_wireshar.Process.Handlers.{
  handle_exit, handle_exit_group, handle_execve, handle_close, handle_fcntl, handle_socket,
}
use subtrace_docker_wireshar.Process.Calls.{
  handle_bind, handle_connect, handle_listen, handle_accept, handle_getsockopt, handle_setsockopt,
  handle_getsockname, handle_getpeername,
}
use subtrace_docker_wireshar.Process.Opening.{handle_open, handle_fstatat, handle_statx}

pub data Syscall : Type 0 where
  exit exit_group execve execveat openat newfstatat statx close fcntl socket bind connect listen :
      Syscall
  accept accept4 getsockopt setsockopt getsockname getpeername : Syscall

-- The numbers with a handler, from golang.org/x/sys/unix.
unfoldable pub numbers : List (ℕ × Syscall)
numbers =
    (60, exit)
    ∷ (231, exit_group)
    ∷ (59, execve)
    ∷ (322, execveat)
    ∷ (257, openat)
    ∷ (262, newfstatat)
    ∷ (332, statx)
    ∷ (3, close)
    ∷ (72, fcntl)
    ∷ (41, socket)
    ∷ (49, bind)
    ∷ (42, connect)
    ∷ (50, listen)
    ∷ (43, accept)
    ∷ (288, accept4)
    ∷ (55, getsockopt)
    ∷ (54, setsockopt)
    ∷ (51, getsockname)
    ∷ (52, getpeername)
    ∷ []

unfoldable pub entry : ℕ → List (ℕ × Syscall) → Option Syscall
entry nr [] = none
entry nr ((n, call) ∷ rest) = let later = entry nr rest in if n == nr then some call else later

-- The six arguments of a notification, and its thread.
pub record Args : Type 0 where
  pub pid : ℕ
  pub arg0 : ℕ
  pub arg1 : ℕ
  pub arg2 : ℕ
  pub arg3 : ℕ
  pub arg4 : ℕ

abbrev pub low32 : ℕ → ℕ
low32 a = a % 4294967296

module _ {W : Type 0} where
  unfoldable pub handler : Host W → Syscall → Args → Act W (Option Failure)
  unfolding handle_exit handle_exit_group handle_execve handle_close handle_fcntl handle_socket
      handle_bind handle_connect handle_listen handle_accept handle_getsockopt handle_setsockopt
      handle_getsockname handle_getpeername handle_open handle_fstatat handle_statx
  handler h exit a = handle_exit h a.pid
  handler h exit_group a = handle_exit_group h
  handler h execve a = handle_execve h
  handler h execveat a = handle_execve h
  handler h openat a = handle_open h (low32 a.arg0) a.arg1 a.arg2
  handler h newfstatat a = handle_fstatat h (low32 a.arg0) a.arg1 a.arg2 a.arg3
  handler h statx a = handle_statx h (low32 a.arg0) a.arg1 a.arg2 a.arg3 a.arg4
  handler h close a = handle_close h (low32 a.arg0)
  handler h fcntl a = handle_fcntl h (low32 a.arg0) a.arg1
  handler h socket a = handle_socket h a.arg0 a.arg1 a.arg2
  handler h bind a = handle_bind h (low32 a.arg0) a.arg1 a.arg2
  handler h connect a = handle_connect h (low32 a.arg0) a.arg1 a.arg2
  handler h listen a = handle_listen h (low32 a.arg0)
  handler h accept a = handle_accept h (low32 a.arg0) a.arg1 a.arg2 0
  handler h accept4 a = handle_accept h (low32 a.arg0) a.arg1 a.arg2 a.arg3
  handler h getsockopt a = handle_getsockopt h (low32 a.arg0) a.arg1 a.arg2 a.arg3 a.arg4
  handler h setsockopt a = handle_setsockopt h (low32 a.arg0) a.arg1 a.arg2
  handler h getsockname a = handle_getsockname h (low32 a.arg0) a.arg1 a.arg2
  handler h getpeername a = handle_getpeername h (low32 a.arg0) a.arg1 a.arg2
