-- ===== src/Process/Answer.antt =====
-- cmd/run/engine/process/handle.go: constants, and the tests of results that its handlers repeat. A
-- result `none` is a nil error.
use subtrace_docker_wireshar.Base.{
  ℕ, ◌%◌, ◌/◌, Option, none, some, Outcome, done, errno, fail, Failure, ◌==◌, if◌then◌else◌,
}
use subtrace_docker_wireshar.Socket.State.{Domain, inet, inet6}
use subtrace_docker_wireshar.Process.Machine.{Act, pure, ◌>>=◌}
use subtrace_docker_wireshar.Process.Memory.{af_inet}
use subtrace_docker_wireshar.Process.Host.{Host}
use subtrace_docker_wireshar.Process.Table.{skips, returns, get_socket}

-- unix.F_DUPFD, unix.F_DUPFD_CLOEXEC and unix.SOCK_CLOEXEC.
abbrev pub f_dupfd : ℕ
f_dupfd = 0

abbrev pub f_dupfd_cloexec : ℕ
f_dupfd_cloexec = 1030

abbrev pub sock_cloexec : ℕ
sock_cloexec = 524288

-- flags & unix.SOCK_CLOEXEC.
abbrev pub cloexec_of : ℕ → ℕ
cloexec_of flags = if flags / sock_cloexec % 2 == 1 then sock_cloexec else 0

abbrev pub domain_of : ℕ → Domain
domain_of domain = if domain == af_inet then inet else inet6

module _ {W : Type 0} where
  -- `if err != nil { return err }; if errno != 0 { return n.Return(0, errno) }`.
  unfoldable pub answer_or :
      {A : Type 0} → Host W → (A → Act W (Option Failure)) → Outcome A → Act W (Option Failure)
  answer_or h go_on (done a) = go_on a
  answer_or h go_on (errno e) = returns h.memory 0 e
  answer_or h go_on (fail e) = pure (some e)

  -- `return n.Return(0, errno)` after the same test of the error.
  abbrev pub last_answer : Host W → Outcome (Unit {0}) → Act W (Option Failure)
  last_answer h r = answer_or h (λ _. returns h.memory 0 0) r

  -- The handlers of a descriptor that is no socket of the process skip.
  unfoldable pub skip_or : Host W → (ℕ → Act W (Option Failure)) → Option ℕ → Act W (Option Failure)
  skip_or h go_on none = skips h.memory
  skip_or h go_on (some s) = go_on s

  abbrev pub tracked : Host W → ℕ → (ℕ → Act W (Option Failure)) → Act W (Option Failure)
  tracked h fd go_on = get_socket fd >>= skip_or h go_on
