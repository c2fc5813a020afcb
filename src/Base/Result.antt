-- ===== src/Base/Result.antt =====
-- What a Go function hands back. `Run` is a call that returns or panics. `Outcome` is the triple
-- `(value, syscall.Errno, error)`: a value, an error number for the traced program, or an error of
-- the tracer itself.
use Prim.Native.Nat.{ℕ}

pub data Run {ℓ} (A : Type ℓ) : Type ℓ where
  ok : A → Run A
  panic : Run A

infixl 5 ◌>>=◌
abbrev pub ◌>>=◌ {ℓ κ} : {A : Type ℓ} {B : Type κ} → Run A → (A → Run B) → Run B
ok a >>= f = f a
panic >>= f = panic

-- Errors of the tracer; `cancelled` is seccomp.ErrCancelled, and `refused` one that wraps an errno.
pub data Failure : Type 0 where
  cancelled : Failure
  refused : ℕ → Failure
  other : Failure

pub data Outcome {ℓ} (A : Type ℓ) : Type ℓ where
  done : A → Outcome A
  errno : ℕ → Outcome A
  fail : Failure → Outcome A

-- Error numbers of Linux, from golang.org/x/sys/unix.
abbrev pub enoent : ℕ
enoent = 2

abbrev pub ebadf : ℕ
ebadf = 9

abbrev pub efault : ℕ
efault = 14

abbrev pub einval : ℕ
einval = 22

abbrev pub enosys : ℕ
enosys = 38

abbrev pub erestart : ℕ
erestart = 85

abbrev pub eprotonosupport : ℕ
eprotonosupport = 93

abbrev pub eisconn : ℕ
eisconn = 106

abbrev pub enotconn : ℕ
enotconn = 107

abbrev pub ealready : ℕ
ealready = 114

abbrev pub einprogress : ℕ
einprogress = 115
