-- ===== src/Engine/Answers.antt =====
-- cmd/run/engine/engine.go: what handle leaves of a notification, whichever system call it is of.
use subtrace_docker_wireshar.Base.{
  ℕ, ◌≤◌, ◌≡◌, refl, sym, ap, ◌∙◌, arith, Bool-cases, [], length, Option, none, some, inl, inr, Run,
  ok, panic, Failure, cancelled, refused, other, leb,
}
use subtrace_docker_wireshar.Seccomp.Notif.{Notif, received, replied}
use subtrace_docker_wireshar.Process.Machine.{Machine, Proc}
use subtrace_docker_wireshar.Process.Host.{Host}
use subtrace_docker_wireshar.Process.Dispatch.{Syscall, Args, handler, numbers, entry}
use subtrace_docker_wireshar.Process.Once.{handler-once}
use subtrace_docker_wireshar.Engine.{Engine, World}
use subtrace_docker_wireshar.Engine.Dispatch.{
  Handled, handled, no_handler, handled_as, handlers_size, enter, finish, run_handler, handle_call,
  handle,
}

-- Answered once where handle is done, and not more than once otherwise; not at all with no handler.
abbrev pub AnswersOnce : {W : Type 0} → Handled → Machine W → Type 0
AnswersOnce out m =
    (out ≡ handled → (m.notif.state ≡ replied) × (length m.notif.asked ≡ 1))
    × (out ≡ no_handler → m.notif.asked ≡ [])
    × (length m.notif.asked ≤ 1)

handled_as-handled : (r : Option Failure) → handled_as r ≡ handled → r ≡ none
handled_as-handled none h = refl
handled_as-handled (some cancelled) h = absurd (cc)
handled_as-handled (some (refused e)) h = absurd (cc)
handled_as-handled (some other) h = absurd (cc)

handled_as-no_handler : (r : Option Failure) → handled_as r ≡ no_handler → ⊥
handled_as-no_handler none h = absurd (cc)
handled_as-no_handler (some cancelled) h = absurd (cc)
handled_as-no_handler (some (refused e)) h = absurd (cc)
handled_as-no_handler (some other) h = absurd (cc)

module _ {W : Type 0} where
  enter-notif :
      (w : World) (procs : ℕ → Proc) (tid : ℕ) (e e' : Engine) (m m' : Machine W)
      → enter w procs tid e m ≡ ok (e', m')
      → m'.notif ≡ m.notif
  unfolding enter
  enter-notif w procs tid e e' m m' h = ground arith

  finish-parts :
      (e e' : Engine) (run : Run (Option Failure × Machine W)) (out : Handled) (m : Machine W)
      → finish e run ≡ ok (out, (e', m))
      → (r : Option Failure) × (run ≡ ok (r, m)) × (out ≡ handled_as r)
  finish-parts e e' (ok (r, m')) out m h = (r, ground arith, ground arith)
  finish-parts e e' panic out m h = absurd (cc)

  run_handler-AnswersOnce :
      (h : Host W) (call : Syscall) (a : Args) (entered : Run (Engine × Machine W)) (out : Handled)
      (e' : Engine) (m' : Machine W)
      → ((e1 : Engine) (m1 : Machine W)
          → entered ≡ ok (e1, m1)
          → (m1.notif.state ≡ received) × (m1.notif.asked ≡ []))
      → run_handler h call a entered ≡ ok (out, (e', m'))
      → AnswersOnce out m'
  run_handler-AnswersOnce h call a (ok (e1, m1)) out e' m' fresh k =
      let (r, ran, as_r) = finish-parts e1 e' (handler h call a m1) out m' k in
      let (at, empty) = fresh e1 m1 refl in
      let (done_once, few) = handler-once h call a m1 m' r at empty ran in
      (
        λ q. done_once (handled_as-handled r (sym as_r ∙ q)),
        λ q. absurd (handled_as-no_handler r (sym as_r ∙ q)),
        few,
      )
  run_handler-AnswersOnce h call a panic out e' m' fresh k = absurd (cc)

  handle_call-AnswersOnce :
      (w : World) (h : Host W) (procs : ℕ → Proc) (a : Args) (e e' : Engine) (m m' : Machine W)
      (call : Option Syscall) (out : Handled)
      → m.notif.state ≡ received
      → m.notif.asked ≡ []
      → handle_call w h procs a e m call ≡ ok (out, (e', m'))
      → AnswersOnce out m'
  unfolding handle_call
  handle_call-AnswersOnce w h procs a e e' m m' none out fresh empty k =
      (λ q. absurd (cc), λ q. ground arith, ground arith)
  handle_call-AnswersOnce w h procs a e e' m m' (some call) out fresh empty k =
      run_handler-AnswersOnce h call a (enter w procs a.pid e m) out e' m'
        (λ e1 m1 entered.
          let same = enter-notif w procs a.pid e e1 m m1 entered in
          (ap (λ (n : Notif). n.state) same ∙ fresh, ap (λ (n : Notif). n.asked) same ∙ empty))
        k

-- Whichever system call a notification is of and whatever the world says, handle is done with it only
-- if it was answered by exactly one request to the kernel; no request was made where the table has no
-- handler, and never more than one. The notification has come in and was not answered before.
pub handle-AnswersOnce :
    {W : Type 0} (w : World) (h : Host W) (procs : ℕ → Proc) (nr : ℕ) (a : Args) (e e' : Engine)
    (m m' : Machine W) (out : Handled)
    → m.notif.state ≡ received
    → m.notif.asked ≡ []
    → handle w h procs nr a e m ≡ ok (out, (e', m'))
    → AnswersOnce out m'
unfolding handle
handle-AnswersOnce w h procs nr a e e' m m' out fresh empty k =
    elim (Bool-cases (leb handlers_size nr)) [
      | inl past ↦ absurd (ground (arith, k, past))
      | inr within ↦
          handle_call-AnswersOnce w h procs a e e' m m' (entry nr numbers) out fresh empty
            (rw within at k)
    ]
