-- ===== src/Examples/Calls.antt =====
-- Processes and handlers of cmd/run/engine/process, and handle of cmd/run/engine.
use subtrace_docker_wireshar.Base.{
  ℕ, ◌≡◌, refl, arith, true, false, some, none, List, [], ◌∷◌, Run, ok, panic, length, errno, done,
  einval, take, ltb, if◌then◌else◌,
}
use subtrace_docker_wireshar.Event.{Event}
use subtrace_docker_wireshar.Fd.Calls.{new_fd, inc_ref, dec_ref, number, closing_inc_ref}
use subtrace_docker_wireshar.Seccomp.Notif.{Notif, Kernel, received, send, skip, add_fd}
use subtrace_docker_wireshar.Socket.Inode.{get, remove, add_inode, add}
use subtrace_docker_wireshar.Socket.State.{inet, ip4, passive, name_error}
use subtrace_docker_wireshar.Socket.Bind.{bound}
use subtrace_docker_wireshar.Socket.Connect.{no_dummy}
use subtrace_docker_wireshar.Socket.Listen.{listen_error, accept_error}
use subtrace_docker_wireshar.Socket.Close.{close as hang_up}
use subtrace_docker_wireshar.Process.Machine.{
  Proc, Machine, ◌>>=◌, ask, method, load, save, set_proc,
}
use subtrace_docker_wireshar.Process.Memory.{Memory, fetched, wrote, parse_sockaddr, sockaddr_bytes}
use subtrace_docker_wireshar.Process.Host.{Host, Files, opened}
use subtrace_docker_wireshar.Process.Table.{
  skips, adds, holds, lets_go, after, get_delete_socket, new_socket, add_to_table, registers,
  install_held, install_socket, mark_as_exited, starts_cleanup,
}
use subtrace_docker_wireshar.Process.Lifetime.{
  event_template, fresh_template, readable, interrupted, holds_pidfd, drops_pidfd, wait_done,
  wait_polled, wait,
}
use subtrace_docker_wireshar.Process.Handlers.{
  handle_close, close_tracked, dup_made, inode_at, exits, is_main, handle_exit, handle_exit_group,
}
use subtrace_docker_wireshar.Process.Dispatch.{Args, handler, close, connect}
use subtrace_docker_wireshar.Process.Dispatch.{numbers, entry}
use subtrace_docker_wireshar.Engine.{Engine, World, new, get_process, get_process_fast}
use subtrace_docker_wireshar.Engine.Dispatch.{handled, enter, handle_call, handle}
use subtrace_docker_wireshar.Engine.Answers.{AnswersOnce, handle-AnswersOnce}
use subtrace_docker_wireshar.Process.Tracked.{untracked-skips}
use subtrace_docker_wireshar.Process.Sharing.{dup_made-shares}
use subtrace_docker_wireshar.Process.Addresses.{parse-take-sockaddr_bytes, addr_size}
use subtrace_docker_wireshar.Process.Ending.{
  Ending, by_thread, by_group, by_wait, OneCleanup, ends, ends_all, ends_all-OneCleanup,
}

-- A world in which each request gets the answer that it is a count of.
abbrev accepting : ℕ → Kernel × ℕ
accepting w = (record { errno = 0; target = 7; id_valid = true }, w)

abbrev memory : Memory ℕ
memory = record {
  kernel = accepting;
  readv = λ ptr size w. (fetched [], w);
  writev = λ ptr b w. (wrote (length b), w);
  makes = λ size. true;
}

abbrev files : Files ℕ
files = record {
  enabled = false;
  known = [];
  pem = [];
  stat_size_at = 48;
  statx_size_at = 40;
  readlink_cwd = λ w. (none, w);
  readlink_fd = λ n w. (none, w);
  join = λ a b. b;
  read_file = λ path w. (none, w);
  memfd_create = λ path w. (none, w);
  write = λ b w. (false, w);
  lseek = λ w. (false, w);
  fstatat = λ path flags w. (none, w);
  statx = λ dirfd path flags mask w. (none, w);
}

abbrev blank_event : Event
blank_event = record { keys = []; vals = []; lazy = [] }

abbrev host : Host ℕ
host = record {
  memory = memory;
  files = files;
  pidfd_getfd = λ n w. (opened 20, w);
  facts = λ w. (
    record {
      config = blank_event;
      pid = "100";
      exe_name = none;
      exe_size = none;
      command_line = none;
      user = none;
    },
    w,
  );
  stamp = λ w. (("now", "id"), w);
  close_errno = λ w. (0, w);
  dup = λ n w. (opened 21, w);
  socket = λ d t w. (some (22, 900), w);
  bind_world = λ w. (record { temp = some 11; answer = bound; meddled = none }, w);
  connect_world = λ w. (
    record {
      flags = some true;
      sockname = name_error;
      temp = none;
      ephemeral = none;
      meddled = none;
      dummy = true;
    },
    w,
  );
  dial_world = λ w. (record { dial = no_dummy; meddled = none; dummy_errno = 0 }, w);
  listen_world = λ w. (
    record { ephemeral = none; sockname = name_error; answer = λ a. listen_error; meddled = none },
    w,
  );
  accept_world = λ w. (
    record {
      answer = accept_error;
      unmap = λ a. a;
      proxy = λ a. (record { local_addr = none; remote_addr = none; skip_close_tcp = false }, a);
      same_addr = λ a b. true;
      inode = none;
    },
    w,
  );
  sockname = λ w. (name_error, w);
}

-- A process with one socket, at descriptor 5.
abbrev one_socket : Machine ℕ
one_socket = record {
  world = 0;
  notif = record {
    id = 1;
    state = received;
    listener = record { fd = 3; refs = 2; sema = 0 };
    asked = [];
  };
  proc = record {
    pid = 100;
    exited = false;
    cleanups = 0;
    pidfd = record { fd = 4; refs = 0; sema = 0 };
    sockets = (5, 1) ∷ [];
    template = some blank_event;
  };
  table = (800, 2) ∷ [];
  store = record {
    sock =
        λ s. record { fd = record { fd = 10; refs = 0; sema = 0 }; inode = 2; tmpl = blank_event };
    inode = λ i. record { number = 800; domain = inet; socks = 1 ∷ []; state = passive none 0 };
    next = 50;
    shut = [];
  };
}

abbrev closing : Args
closing = record { pid = 100; arg0 = 5; arg1 = 0; arg2 = 0; arg3 = 0; arg4 = 0 }

-- The machine after a call, or the first one after a panic.
abbrev left_by : {A : Type 0} → Run (A × Machine ℕ) → Machine ℕ
left_by (ok (a, m)) = m
left_by panic = one_socket

abbrev closed_socket : Machine ℕ
closed_socket = left_by (handler host close closing one_socket)

abbrev engine : Engine
engine = new 100 1

abbrev only_process : ℕ → Proc
only_process p = one_socket.proc

abbrev one_thread : World
one_thread = record { thread_group = λ pid. some pid; creates = λ pid. true }

handle_run :
    handle one_thread host only_process 3 closing engine one_socket
    ≡ ok (handled, (engine, closed_socket))
unfolding handle entry numbers handle_call enter get_process get_process_fast get new handler
    handle_close get_delete_socket close_tracked ◌>>=◌ ask method load save hang_up closing_inc_ref
    number dec_ref remove skips skip send
handle_run = refl

handle-AnswersOnce_example : AnswersOnce handled closed_socket
handle-AnswersOnce_example =
    handle-AnswersOnce one_thread host only_process 3 closing engine engine one_socket closed_socket
      handled refl refl handle_run

untracked-skips_example :
    handler host connect (record closing { arg0 = 6 }) one_socket ≡ skips memory one_socket
unfolding get
untracked-skips_example =
    untracked-skips host connect (record closing { arg0 = 6 }) one_socket refl refl

abbrev copied : Machine ℕ
copied = left_by (dup_made host 1 0 (opened 21) one_socket)

dup_run : dup_made host 1 0 (opened 21) one_socket ≡ ok (none, copied)
unfolding dup_made inode_at fresh_template event_template new_socket install_socket holds
    install_held add_to_table adds registers after lets_go ◌>>=◌ ask get add add_inode inc_ref
    dec_ref number new_fd add_fd
dup_run = refl

dup_made-shares_example :
    (target : ℕ) × (dst : ℕ) × (get target one_socket.proc.sockets ≡ none)
    × (copied.proc.sockets ≡ (target, dst) ∷ one_socket.proc.sockets)
    × ((copied.store.sock dst).inode ≡ (copied.store.sock 1).inode)
dup_made-shares_example = dup_made-shares host 1 0 21 one_socket copied dup_run

parse-take-sockaddr_bytes_example :
    parse_sockaddr (take 20 (sockaddr_bytes (ip4 2130706433 8080))) ≡ (
      if ltb 20 (addr_size (ip4 2130706433 8080)) then errno einval else done (ip4 2130706433 8080))
parse-take-sockaddr_bytes_example =
    parse-take-sockaddr_bytes (ip4 2130706433 8080) 20 (omega arith, omega arith)

abbrev exits_twice : List (Notif × Ending)
exits_twice =
    (one_socket.notif, by_thread 100)
    ∷ (one_socket.notif, by_wait (interrupted ∷ readable ∷ []))
    ∷ (one_socket.notif, by_group)
    ∷ []

abbrev ended : Machine ℕ
ended = left_by (ends_all host exits_twice one_socket)

ending_run : ends_all host exits_twice one_socket ≡ ok (tt, ended)
unfolding ends_all ends handle_exit is_main exits handle_exit_group mark_as_exited starts_cleanup
    set_proc wait holds_pidfd drops_pidfd wait_polled wait_done ◌>>=◌ ask skips skip send inc_ref
    dec_ref number
ending_run = refl

ends_all-OneCleanup_example : OneCleanup ended.proc
ends_all-OneCleanup_example = ends_all-OneCleanup host exits_twice one_socket ended refl ending_run
