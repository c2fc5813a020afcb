-- ===== src/Examples/Descriptors.antt =====
-- Runs of goroutines on one descriptor of cmd/run/fd/fd.go.
use subtrace_docker_wireshar.Base.{
  ℕ, ◌+◌, ◌<◌, ◌≡◌, ◌≢◌, ◌⊎◌, refl, arith, some, List, [], ◌∷◌, false, get_elem?,
}
use subtrace_docker_wireshar.Fd.Word.{flag_closed, no_fd}
use subtrace_docker_wireshar.Fd.Calls.{Fd}
use subtrace_docker_wireshar.Fd.Threads
use subtrace_docker_wireshar.Fd.Threads.{
  Pc, idle, holding, closing, waiting, has_lock, retiring, crashed, Action, acquire, wake, retire,
  System, step, run, start,
}
use subtrace_docker_wireshar.Fd.Invariant.{is_holding, is_waking, is_backing_out, is_retiring}
use subtrace_docker_wireshar.Fd.Safety.{referenced-fd, lock_excludes, waiting-wakes}
use subtrace_docker_wireshar.Fd.Race.{late_inc_ref, late_inc_ref-crashes}

-- Goroutine 0 holds, 1 closes and waits in Lock.
abbrev waiting_moves : List (ℕ × Action)
waiting_moves = (1, Threads.closing_inc_ref) ∷ (1, Threads.lock) ∷ []

abbrev waiting_system : System
waiting_system = record {
  shared = record { fd = 7; refs = flag_closed + 2; sema = 0 };
  threads = holding ∷ waiting ∷ [];
}

waiting_run : run (start 7 1) waiting_moves ≡ some waiting_system
unfolding run start
waiting_run = refl

abbrev locked_system : System
locked_system = record {
  shared = record { fd = 7; refs = flag_closed + 1; sema = 0 };
  threads = idle ∷ has_lock ∷ [];
}

abbrev locked_moves : List (ℕ × Action)
locked_moves =
    (1, Threads.closing_inc_ref)
    ∷ (1, Threads.lock)
    ∷ (0, Threads.dec_ref)
    ∷ (0, wake)
    ∷ (1, acquire)
    ∷ []

locked_run : run (start 7 1) locked_moves ≡ some locked_system
unfolding run start
locked_run = refl

-- Both have dropped their references, and the closer has still to retire the descriptor.
abbrev retiring_moves : List (ℕ × Action)
retiring_moves =
    (1, Threads.closing_inc_ref) ∷ (0, Threads.dec_ref) ∷ (0, wake) ∷ (1, Threads.dec_ref) ∷ []

abbrev retiring_system : System
retiring_system = record {
  shared = record { fd = 7; refs = flag_closed; sema = 1 };
  threads = idle ∷ retiring false ∷ [];
}

retiring_run : run (start 7 1) retiring_moves ≡ some retiring_system
unfolding run start
retiring_run = refl

-- A late IncRef has retired it.
abbrev gone_moves : List (ℕ × Action)
gone_moves =
    (1, Threads.closing_inc_ref)
    ∷ (0, Threads.dec_ref)
    ∷ (0, wake)
    ∷ (1, Threads.dec_ref)
    ∷ (0, Threads.inc_ref)
    ∷ (0, Threads.dec_ref)
    ∷ (0, retire)
    ∷ []

abbrev gone_system : System
gone_system = record {
  shared = record { fd = no_fd; refs = flag_closed; sema = 1 };
  threads = idle ∷ retiring false ∷ [];
}

gone_run : run (start 7 1) gone_moves ≡ some gone_system
unfolding run start
gone_run = refl

crash_step :
    step gone_system 1 retire
    ≡ some (record {
      shared = record { fd = no_fd; refs = flag_closed; sema = 1 };
      threads = idle ∷ crashed ∷ [];
    })
unfolding step
crash_step = refl

referenced-fd_example : waiting_system.shared.fd ≡ 7
referenced-fd_example =
    referenced-fd 7 1 (omega arith) (omega arith) waiting_system (waiting_moves, waiting_run) 0
      holding refl (omega arith)

lock_excludes_example : (idle ≢ holding) × (is_retiring idle ≡ 0)
lock_excludes_example =
    lock_excludes 7 1 (omega arith) (omega arith) locked_system (locked_moves, locked_run) 1 0 idle
      refl refl

waiting-wakes_example :
    (0 < waiting_system.shared.sema)
    ⊎ ((j : ℕ) × (p : Pc) × (get_elem? waiting_system.threads j ≡ some p)
        × (0 < is_waking p + is_holding p + is_backing_out p))
waiting-wakes_example =
    waiting-wakes 7 1 (omega arith) (omega arith) waiting_system (waiting_moves, waiting_run) 1 refl

late_inc_ref-crashes_example :
    (t : System) × (run retiring_system (late_inc_ref 1 0) ≡ some t)
    × (get_elem? t.threads 1 ≡ some crashed)
late_inc_ref-crashes_example = late_inc_ref-crashes retiring_system 1 0 refl refl refl

abbrev idle_fd : Fd
idle_fd = record { fd = 7; refs = 0; sema = 0 }
