-- ===== src/Engine.antt =====
-- cmd/run/engine/engine.go: the processes and threads that the engine knows. The mutex makes each call
-- one step. A process stands for its pointer, a number.
pub mod Processes
pub mod Imports
pub mod Dispatch
pub mod Workers
pub mod Answers
pub mod Status
use subtrace_docker_wireshar.Base.{
  ℕ, zero, suc, ◌+◌, Bool, true, false, List, [], ◌∷◌, Option, none, some, length, ◌==◌,
  if◌then◌else◌,
}
use subtrace_docker_wireshar.Socket.Inode.{get}
use subtrace_docker_wireshar.Process.Table.{unmapped}

-- `processes` maps process ids and `threads` thread ids to processes. `next` is a pointer that is not
-- in use yet, and `watched` has the processes that a goroutine waits for, the last one first. `closed`
-- says that the channel `running` is closed, and `listener_closed` how often the listener was closed.
pub record Engine : Type 0 where
  pub processes : List (ℕ × ℕ)
  pub threads : List (ℕ × ℕ)
  pub next : ℕ
  pub watched : List ℕ
  pub closed : Bool
  pub listener_closed : ℕ

-- New, with the root process.
unfoldable pub new : ℕ → ℕ → Engine
new pid root = record {
  processes = (pid, root) ∷ [];
  threads = [];
  next = root + 1;
  watched = root ∷ [];
  closed = false;
  listener_closed = 0;
}

-- What ensureProcessLocked comes to; a Go panic is `crashed`.
pub data Ensured : Type 0 where
  found : ℕ → Engine → Ensured
  crashed out_of_fuel : Ensured

-- The thread group of a thread, as /proc says, and whether a Process is made and its inodes imported.
pub record World : Type 0 where
  pub thread_group : ℕ → Option ℕ
  pub creates : ℕ → Bool

abbrev pub created : Bool → ℕ → Engine → Ensured
created false pid e = crashed
created true pid e = found e.next (record e {
  processes = (pid, e.next) ∷ e.processes;
  next = e.next + 1;
  watched = e.next ∷ e.watched;
})

-- The leader's process is the thread's.
abbrev pub as_thread : ℕ → Ensured → Ensured
as_thread pid (found p e) = found p (record e { threads = (pid, p) ∷ e.threads })
as_thread pid crashed = crashed
as_thread pid out_of_fuel = out_of_fuel

abbrev pub ensure_new : World → ℕ → Engine → (ℕ → Ensured) → Option ℕ → Ensured
ensure_new w pid e leader none = crashed
ensure_new w pid e leader (some tgid) =
    if tgid == pid then created (w.creates pid) pid e else as_thread pid (leader tgid)

-- ensureProcessLocked; each call of itself takes one of fuel.
unfoldable pub ensure_process : ℕ → World → Engine → ℕ → Ensured
unfolding get
ensure_process zero w e pid = out_of_fuel
ensure_process (suc fuel) w e pid =
    let leader = ensure_process fuel w e in
    elim (get pid e.processes) [
      | some p ↦ found p e
      | none ↦ ensure_new w pid e leader (w.thread_group pid)
    ]

unfoldable pub get_process_fast : Engine → ℕ → Option ℕ
unfolding get
get_process_fast e pid = elim (get pid e.processes) [ some p ↦ some p | none ↦ get pid e.threads ]

-- getProcess, from the look without the write lock on. Two steps of fuel are a thread and its leader.
unfoldable pub get_process : World → Engine → ℕ → Ensured
unfolding get_process_fast ensure_process
get_process w e pid = elim (get_process_fast e pid) [
  | some p ↦ found p e
  | none ↦ ensure_process 2 w e pid
]

unfoldable pub count_running : Engine → ℕ
count_running e = length e.processes

-- closeLocked, where closing the listener succeeds or not.
unfoldable pub close_locked : Bool → Engine → Engine
close_locked succeeds e = if e.closed then e else record e {
  closed = true;
  listener_closed = if succeeds then e.listener_closed + 1 else e.listener_closed;
}

abbrev pub is_empty : {A : Type 0} → List A → Bool
is_empty [] = true
is_empty (x ∷ xs) = false

-- waitProcess, once p.Wait has returned: with an error, or not.
unfoldable pub wait_process : Bool → Bool → ℕ → Engine → Engine
unfolding close_locked
wait_process waited succeeds pid e =
    let left = record e { processes = unmapped pid e.processes } in
    if waited then (if is_empty left.processes then close_locked succeeds left else left) else e
