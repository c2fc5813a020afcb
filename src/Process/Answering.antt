-- ===== src/Process/Answering.antt =====
-- The calls that the handlers of cmd/run/engine/process/handle.go answer with.
pub mod Making
pub mod Sockets
pub mod Opening
use subtrace_docker_wireshar.Base.{
  ℕ, ◌≤◌, ◌≡◌, refl, sym, ◌∙◌, arith, Bool, true, false, List, [], ◌∷◌, ◌++◌, length, Option, none,
  some, Run, ok, panic, Outcome, done, errno, fail, Failure, if◌then◌else◌, ◌==◌, ◌||◌, ◌&&◌, not,
}
use subtrace_docker_wireshar.Fd.Calls.{Fd, new_fd}
use subtrace_docker_wireshar.Seccomp.Notif.{
  Notif, State, received, replied, Kernel, send, skip, reply, add_fd,
}
use subtrace_docker_wireshar.Socket.State.{Socket, AddrPort, Domain}
use subtrace_docker_wireshar.Process.Machine.{Machine, Act, pure, crash, ◌>>=◌, ◌>>?◌, ask}
use subtrace_docker_wireshar.Process.Memory.{Memory}
use subtrace_docker_wireshar.Process.Host.{Host, Opened, opened, open_errno, open_error}
use subtrace_docker_wireshar.Process.Table.{
  notified, installed, skips, returns, adds, registers, install_held, install_socket, after,
  lets_go,
}
use subtrace_docker_wireshar.Process.Answer.{answer_or, skip_or}
use subtrace_docker_wireshar.Process.Rules.{
  Silent, Answers, itself, bind-parts, bind-Silent, bind-Answers, answered-Answers, if-Answers,
  failure-Answers, ask-Silent, pure-Silent, if-Silent, crash-Silent,
}
use subtrace_docker_wireshar.Process.Quiet.{
  quiet, after-Silent, holds-Silent, lets_go-Silent, add_to_table-Silent, get_socket-Silent,
}

send-answers :
    (k : Kernel) (handled : Bool) (ret e : ℕ) (n n' : Notif) (r : Option Failure)
    → n.state ≡ received
    → n.asked ≡ []
    → send k handled ret e n ≡ ok (r, n')
    → (r ≡ none → (n'.state ≡ replied) × (length n'.asked ≡ 1)) × (length n'.asked ≤ 1)
unfolding send
send-answers k handled ret e n n' r s a h = (λ q. ground arith, ground arith)

pub add_fd-answers :
    (k : Kernel) (file file' : Fd) (flags : ℕ) (n n' : Notif) (r : Option Failure)
    → n.state ≡ received
    → n.asked ≡ []
    → add_fd k file flags n ≡ ok ((r, n'), file')
    → (r ≡ none → (n'.state ≡ replied) × (length n'.asked ≡ 1)) × (length n'.asked ≤ 1)
unfolding add_fd
add_fd-answers k file file' flags n n' r s a h = (λ q. ground arith, ground arith)

-- The error of AddFD.
abbrev first_error : Option Failure × ℕ → Option Failure
first_error (e, target) = e

module _ {W : Type 0} where
  notified-parts :
      (m m' : Machine W) (run : Run (Option Failure × Notif)) (r : Option Failure)
      → notified m run ≡ ok (r, m')
      → run ≡ ok (r, m'.notif)
  notified-parts m m' (ok (e, n)) r h = ground arith
  notified-parts m m' panic r h = absurd (cc)

  installed-parts :
      (s target : ℕ) (m m' : Machine W) (run : Run ((Option Failure × Notif) × Fd))
      (r : Option Failure × ℕ)
      → installed s target m run ≡ ok (r, m')
      → (f : Fd) × (run ≡ ok ((r.0, m'.notif), f))
  installed-parts s target m m' (ok ((e, n), f)) r h = (f, ground arith)
  installed-parts s target m m' panic r h = absurd (cc)

  pub skips-Answers : (v : Memory W) → Answers itself (skips v)
  unfolding skips skip
  skips-Answers v = bind-Answers (ask-Silent v.kernel) (λ k. record {
    answers =
        λ m m' r s a h. send-answers k false 0 0 m.notif m'.notif r s a (notified-parts m m' _ r h);
  })

  pub returns-Answers : (v : Memory W) (ret e : ℕ) → Answers itself (returns v ret e)
  unfolding returns reply
  returns-Answers v ret e = bind-Answers (ask-Silent v.kernel) (λ k. record {
    answers = λ m m' r s a h.
        send-answers k true ret e m.notif m'.notif r s a (notified-parts m m' _ r h);
  })

  adds-Answers : (v : Memory W) (s flags : ℕ) → Answers first_error (adds v s flags)
  unfolding adds
  adds-Answers v s flags = bind-Answers (ask-Silent v.kernel) (λ k. record {
    answers = λ m m' r at a h.
        let (f, e) = installed-parts s k.target m m' _ r h in
        add_fd-answers k (m.store.sock s).fd f flags m.notif m'.notif r.0 at a e;
  })

  registers-Silent : (s : ℕ) (r : Option Failure × ℕ) → Silent {W = W} (registers s r)
  unfolding registers
  registers-Silent s (some e, target) = record { keeps = λ m m' a h. (cc, cc) }
  registers-Silent s (none, target) = record { keeps = λ m m' a h. ground arith }

  registers-back :
      (s : ℕ) (r : Option Failure × ℕ) (m m' : Machine W) (b : Option Failure)
      → registers s r m ≡ ok (b, m')
      → b ≡ none
      → first_error r ≡ none
  unfolding registers
  registers-back s (some e, target) m m' b h n = absurd (cc)
  registers-back s (none, target) m m' b h n = refl

  pub after-same :
      {A : Type 0} (act : Act W (Unit {0})) (a b : A) (m m' : Machine W)
      → after act a m ≡ ok (b, m')
      → b ≡ a
  unfolding after
  after-same act a b m m' h = let (u, m1, e, k) = bind-parts act _ m m' b h in cc

  -- An answer and the deferred calls after it.
  pub deferred-Answers :
      {act : Act W (Option Failure)} {last : Act W (Unit {0})}
      → Answers itself act
      → Silent last
      → Answers itself (act >>= after last)
  deferred-Answers {act} {last} s t =
      answered-Answers s (λ a. after-Silent a t)
        (λ a m m' b h n. sym (after-same last a b m m' h) ∙ n)

  install_held-Answers :
      (v : Memory W) (s flags : ℕ) (live : Bool) → Answers itself (install_held v s flags live)
  unfolding install_held
  install_held-Answers v s flags false = failure-Answers _
  install_held-Answers v s flags true = bind-Answers (add_to_table-Silent s) (λ _.
      deferred-Answers
        (answered-Answers (adds-Answers v s flags) (registers-Silent s) (registers-back s))
        (lets_go-Silent s))

  pub install_socket-Answers :
      (v : Memory W) (s flags : ℕ) → Answers itself (install_socket v s flags)
  unfolding install_socket
  install_socket-Answers v s flags = bind-Answers (holds-Silent s) (install_held-Answers v s flags)

  pub answer_or-Answers :
      {A : Type 0} (h : Host W) {go_on : A → Act W (Option Failure)}
      → ((a : A) → Answers itself (go_on a))
      → (r : Outcome A) → Answers itself (answer_or h go_on r)
  unfolding answer_or
  answer_or-Answers h t (done a) = t a
  answer_or-Answers h t (errno e) = returns-Answers h.memory 0 e
  answer_or-Answers h t (fail e) = failure-Answers e

  pub skip_or-Answers :
      (h : Host W) {go_on : ℕ → Act W (Option Failure)}
      → ((s : ℕ) → Answers itself (go_on s))
      → (found : Option ℕ) → Answers itself (skip_or h go_on found)
  unfolding skip_or
  skip_or-Answers h t none = skips-Answers h.memory
  skip_or-Answers h t (some s) = t s
