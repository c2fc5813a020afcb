-- ===== src/Engine/Dispatch.antt =====
-- cmd/run/engine/engine.go: handle, and the loop of Start that receives.
use subtrace_docker_wireshar.Base.{
  ℕ, Bool, true, false, List, [], ◌∷◌, Option, none, some, Run, ok, panic, Failure, cancelled,
  refused, other, enoent, leb, ◌==◌, if◌then◌else◌,
}
use subtrace_docker_wireshar.Process.Machine.{Machine, Proc}
use subtrace_docker_wireshar.Process.Host.{Host}
use subtrace_docker_wireshar.Process.Dispatch.{Syscall, numbers, entry, Args, handler}
use subtrace_docker_wireshar.Engine.{Engine, World, found, crashed, out_of_fuel, get_process}

-- How handle ends; an error is only logged, one that says the call was cancelled not even that.
pub data Handled : Type 0 where
  handled no_handler interrupted_call : Handled
  logged : Failure → Handled

abbrev pub handled_as : Option Failure → Handled
handled_as none = handled
handled_as (some cancelled) = interrupted_call
handled_as (some (refused e)) = logged (refused e)
handled_as (some other) = logged other

abbrev pub handlers_size : ℕ
handlers_size = 1024

module _ {W : Type 0} where
  -- The process of the thread becomes the machine's; `procs` has those that the engine knows.
  unfoldable pub enter : World → (ℕ → Proc) → ℕ → Engine → Machine W → Run (Engine × Machine W)
  unfolding get_process
  enter w procs tid e m = elim (get_process w e tid) [
    | found p e' ↦ ok (e', record m { proc = procs p })
    | crashed ↦ panic
    | out_of_fuel ↦ panic
  ]

  abbrev pub finish :
      Engine → Run (Option Failure × Machine W) → Run (Handled × (Engine × Machine W))
  finish e (ok (r, m)) = ok (handled_as r, (e, m))
  finish e panic = panic

  abbrev pub run_handler :
      Host W → Syscall → Args → Run (Engine × Machine W) → Run (Handled × (Engine × Machine W))
  run_handler h call a (ok (e, m)) = finish e (handler h call a m)
  run_handler h call a panic = panic

  unfoldable pub handle_call :
      World
      → Host W
      → (ℕ → Proc)
      → Args
      → Engine
      → Machine W
      → Option Syscall
      → Run (Handled × (Engine × Machine W))
  unfolding enter handler
  handle_call w h procs a e m none = ok (no_handler, (e, m))
  handle_call w h procs a e m (some call) = run_handler h call a (enter w procs a.pid e m)

  -- handle; a number past the end of the table is an index out of range.
  unfoldable pub handle :
      World
      → Host W
      → (ℕ → Proc)
      → ℕ
      → Args
      → Engine
      → Machine W
      → Run (Handled × (Engine × Machine W))
  unfolding entry numbers handle_call
  handle w h procs nr a e m =
      if leb handlers_size nr then panic else handle_call w h procs a e m (entry nr numbers)

-- What Start's loop comes to with each answer of Receive: a notification, or an errno.
pub data Answer : Type 0 where
  notification : ℕ → Answer
  refusal : ℕ → Answer

-- The notifications that go to the channel. `running` says before each Receive whether a process is left.
unfoldable pub receive_loop : List (Bool × Answer) → List ℕ
receive_loop [] = []
receive_loop ((false, a) ∷ rest) = []
receive_loop ((true, notification n) ∷ rest) = n ∷ receive_loop rest
receive_loop ((true, refusal e) ∷ rest) =
    let later = receive_loop rest in if e == enoent then later else []
