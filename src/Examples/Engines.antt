-- ===== src/Examples/Engines.antt =====
-- The engine of cmd/run/engine and the manager of tracer.
use subtrace_docker_wireshar.Base.{ℕ, ◌≡◌, ◌≢◌, refl, arith, Bool, true, false, some, List, [], ◌∷◌}
use subtrace_docker_wireshar.Engine.{Engine, new, World, out_of_fuel, ensure_process}
use subtrace_docker_wireshar.Engine.Processes.{
  IsGrouped, ensure_process-ends, ClosesLast, wait_all, wait_all-ClosesLast,
}
use subtrace_docker_wireshar.Tracer.Blocks.{Manager, new_manager, run, Op, inserts, flushes, always}
use subtrace_docker_wireshar.Tracer.Delivery.{view, meant, run-new_manager}

-- Every thread is of process 100.
abbrev of_100 : World
of_100 = record { thread_group = λ pid. some 100; creates = λ pid. true }

of_100-IsGrouped : IsGrouped of_100
of_100-IsGrouped pid tgid h = h

ensure_process-ends_example : ensure_process 2 of_100 (new 90 1) 101 ≢ out_of_fuel
ensure_process-ends_example = ensure_process-ends of_100 (new 90 1) 0 101 of_100-IsGrouped

abbrev with_thread : Engine
with_thread = record {
  processes = (100, 2) ∷ (90, 1) ∷ [];
  threads = (101, 2) ∷ [];
  next = 3;
  watched = 2 ∷ 1 ∷ [];
  closed = false;
  listener_closed = 0;
}

abbrev both_end : List (Bool × Bool × ℕ)
both_end = (true, true, 90) ∷ (false, true, 100) ∷ (true, true, 100) ∷ []

wait_all-ClosesLast_example : ClosesLast (wait_all both_end with_thread)
wait_all-ClosesLast_example = wait_all-ClosesLast both_end with_thread (refl, omega arith)

abbrev events : List Op
events = inserts (1 ∷ []) ∷ inserts (2 ∷ []) ∷ flushes true always ∷ inserts (3 ∷ []) ∷ []

run-new_manager_example :
    (m : Manager) × (run events new_manager ≡ some m) × (view m ≡ meant events ([], []))
run-new_manager_example = run-new_manager events
