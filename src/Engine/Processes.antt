-- ===== src/Engine/Processes.antt =====
-- cmd/run/engine/engine.go: getProcess ends, finds what it made, and waitProcess closes the engine with
-- its last process.
use subtrace_docker_wireshar.Base.{
  ℕ, suc, ◌≤◌, ◌≡◌, ◌≢◌, refl, sym, ◌∙◌, arith, Bool, true, false, Bool-cases, List, [], ◌∷◌, none,
  some, Option-cases, inl, inr, if◌then◌else◌,
}
use subtrace_docker_wireshar.Socket.Inode.{get}
use subtrace_docker_wireshar.Process.Table.{unmapped}
use subtrace_docker_wireshar.Process.Sharing.{get-unmapped}
use subtrace_docker_wireshar.Engine.{
  Engine, found, out_of_fuel, World, ensure_process, get_process_fast, get_process, close_locked,
  is_empty, wait_process,
}

-- The thread group of a thread group is itself, as Linux has it.
abbrev pub IsGrouped : World → Type 0
IsGrouped w = (pid tgid : ℕ) → w.thread_group pid ≡ some tgid → w.thread_group tgid ≡ some tgid

leader_found :
    (fuel : ℕ) (w : World) (e : Engine) (tgid : ℕ)
    → w.thread_group tgid ≡ some tgid
    → ensure_process (suc fuel) w e tgid ≢ out_of_fuel
unfolding ensure_process
leader_found fuel w e tgid h q = elim (Option-cases (get tgid e.processes)) [
  | inl n ↦ ground (arith, h, n, q)
  | inr (p, s) ↦ ground (arith, h, s, q)
]

-- The recursion of ensureProcessLocked, from a thread to its group and no further, ends: with any fuel
-- for two calls or more it does not run out of it, where thread groups are those of themselves.
pub ensure_process-ends :
    (w : World) (e : Engine) (fuel pid : ℕ)
    → IsGrouped w
    → ensure_process (suc (suc fuel)) w e pid ≢ out_of_fuel
unfolding ensure_process
ensure_process-ends w e fuel pid h q = elim (Option-cases (w.thread_group pid)) [
  | inl n ↦ ground (arith, n, q)
  | inr (tgid, s) ↦ ground (arith, s, q, leader_found fuel w e tgid (h pid tgid s))
]

-- A process that getProcess answers is the one that getProcessFast answers from then on, and no process
-- id that was known before has another process.
pub get_process-fast :
    (w : World) (e e' : Engine) (pid p : ℕ)
    → get_process w e pid ≡ found p e'
    → (get_process_fast e' pid ≡ some p)
      × ((other q : ℕ) → get other e.processes ≡ some q → get other e'.processes ≡ some q)
unfolding get_process get_process_fast ensure_process get
get_process-fast w e e' pid p h = (ground arith, λ other q k. ground arith)

-- Whether waiting and the close of the listener succeed, and the process id, for each process that ends.
unfoldable pub wait_all : List (Bool × Bool × ℕ) → Engine → Engine
unfolding wait_process
wait_all [] e = e
wait_all ((waited, succeeds, pid) ∷ rest) e = wait_all rest (wait_process waited succeeds pid e)

-- Open as long as there is a process, and closed after; the listener was closed once at most.
abbrev pub ClosesLast : Engine → Type 0
ClosesLast e = (e.closed ≡ is_empty e.processes) × (e.listener_closed ≤ (if e.closed then 1 else 0))

unmapped_empty : (pid : ℕ) (xs : List (ℕ × ℕ)) → is_empty xs ≡ true → unmapped pid xs ≡ xs
unmapped_empty pid [] h = refl
unmapped_empty pid (x ∷ xs) h = absurd (cc)

wait_process-ClosesLast :
    (waited succeeds : Bool) (pid : ℕ) (e : Engine)
    → ClosesLast e
    → ClosesLast (wait_process waited succeeds pid e)
unfolding wait_process close_locked
wait_process-ClosesLast false succeeds pid e inv = inv
wait_process-ClosesLast true succeeds pid e (c, l) = elim (Bool-cases e.closed) [
  | inl shut ↦
      let same = unmapped_empty pid e.processes (sym c ∙ shut) in
      (ground (arith, c, shut, same), ground (arith, l, shut, same))
  | inr live ↦ (ground (arith, live), ground (arith, l, live))
]

-- The engine closes with the last of its processes: as processes end, in any order and whether or not
-- their waits and the close of the listener succeed, it is closed if and only if none is left, and the
-- listener is closed at most once.
pub wait_all-ClosesLast :
    (ends : List (Bool × Bool × ℕ)) (e : Engine) → ClosesLast e → ClosesLast (wait_all ends e)
unfolding wait_all
wait_all-ClosesLast [] e inv = inv
wait_all-ClosesLast ((waited, succeeds, pid) ∷ rest) e inv =
    wait_all-ClosesLast rest (wait_process waited succeeds pid e)
      (wait_process-ClosesLast waited succeeds pid e inv)

-- A thread id is never forgotten: after the end of the process that a thread was of, an id that is no
-- process's is still answered with that process, whatever /proc says of the id by now.
pub get_process-stale :
    (w : World) (e : Engine) (succeeds : Bool) (pid tid p : ℕ)
    → get tid e.processes ≡ none
    → get tid e.threads ≡ some p
    → get_process w (wait_process true succeeds pid e) tid
      ≡ found p (wait_process true succeeds pid e)
unfolding get_process get_process_fast wait_process close_locked
get_process-stale w e succeeds pid tid p h k =
    ground (arith, h, k, get-unmapped pid tid e.processes)
