-- ===== src/Seccomp/Notif.antt =====
-- cmd/run/engine/seccomp/seccomp.go: a notification and its answers Skip, Return and AddFD. What
-- the kernel says is an argument. The list `asked` has every request that reached the kernel.
use subtrace_docker_wireshar.Base.{
  ℕ, ◌-◌, ◌%◌, Bool, true, false, List, [], ◌∷◌, ◌++◌, Option, none, some, Run, ok, ◌>>=◌, Failure,
  cancelled, refused, ebadf, enoent, einprogress, ealready, ◌==◌, if◌then◌else◌,
}
use subtrace_docker_wireshar.Fd.Calls.{Fd, inc_ref, dec_ref, number}
use subtrace_docker_wireshar.Seccomp.Wire.{Resp, Addfd}

pub data State : Type 0 where
  received replying replied cancelled_state errored : State

pub data Request : Type 0 where
  notif_send : Resp → Request
  notif_addfd : Addfd → Request

pub record Notif : Type 0 where
  pub id : ℕ
  pub state : State
  -- the listener's descriptor, of which a notification holds a reference until it is answered
  pub listener : Fd
  pub asked : List Request

-- The kernel's answer to the request, with the descriptor that it installed, and its answer to
-- SECCOMP_IOCTL_NOTIF_ID_VALID.
pub record Kernel : Type 0 where
  pub errno : ℕ
  pub target : ℕ
  pub id_valid : Bool

abbrev pub is_received : State → Bool
is_received received = true
is_received _ = false

-- Valid.
unfoldable pub valid : Kernel → Fd → Run (Bool × Fd)
valid k l = inc_ref l >>= λ (live, l').
    if live
    then (number l' >>= λ fd. dec_ref l' >>= λ l''. ok (k.id_valid, l''))
    else ok (false, l')

-- Where the kernel says EINPROGRESS: cancelled, unless the notification is still valid.
settle_busy : Kernel → Notif → Run (Option Failure × Notif)
unfolding valid
settle_busy k n = valid k n.listener >>= λ (still, l).
    if still
    then ok (some (refused einprogress), record n { listener = l })
    else ok (some cancelled, record n { listener = l; state = cancelled_state })

-- The switch on the kernel's errno. `wrapped` is the errno that the last case wraps in its error.
settle : Kernel → ℕ → Notif → Run (Option Failure × Notif)
unfolding settle_busy
settle k wrapped n =
    if k.errno == 0
    then ok (none, record n { state = replied })
    else if k.errno == enoent
    then ok (some cancelled, record n { state = cancelled_state })
    else if k.errno == einprogress
    then settle_busy k n
    else ok (some (refused wrapped), record n { state = errored })

-- The deferred DecRef of the listener's descriptor.
release : Option Failure × Notif → Run (Option Failure × Notif)
release (e, n) = dec_ref n.listener >>= λ l. ok (e, record n { listener = l })

abbrev pub word64 : ℕ
word64 = 18446744073709551616

abbrev pub word32 : ℕ
word32 = 4294967296

-- SECCOMP_USER_NOTIF_FLAG_CONTINUE is 1.
abbrev pub response : ℕ → Bool → ℕ → ℕ → Resp
response id handled ret errno =
    if handled
    then record {
      id = id;
      val = ret % word64;
      errno = (word32 - errno % word32) % word32;
      flags = 0;
    }
    else record { id = id; val = 0; errno = 0; flags = 1 }

unfoldable pub send : Kernel → Bool → ℕ → ℕ → Notif → Run (Option Failure × Notif)
unfolding settle release
send k handled ret errno n =
    if is_received n.state
    then (number n.listener >>= λ fd.
        settle k errno (record n {
          state = replying;
          asked = n.asked ++ notif_send (response n.id handled ret errno) ∷ [];
        })
        >>= release)
    else ok (some (refused ealready), n)

-- Skip and Return.
unfoldable pub skip : Kernel → Notif → Run (Option Failure × Notif)
unfolding send
skip k n = send k false 0 0 n

unfoldable pub reply : Kernel → ℕ → ℕ → Notif → Run (Option Failure × Notif)
unfolding send
reply k ret errno n = send k true ret errno n

-- AddFD after the descriptor has its reference. SECCOMP_ADDFD_FLAG_SEND is 2.
add_held : Kernel → Fd → ℕ → Notif → Run (Option Failure × Notif)
unfolding settle
add_held k file flags n = number file >>= λ src. number n.listener >>= λ fd.
    settle k k.errno (record n {
      asked =
          n.asked
          ++ notif_addfd (record {
            id = n.id;
            flags = 2;
            src_fd = src;
            new_fd = 0;
            new_fd_flags = flags % word32;
          })
            ∷ [];
    })

add_referenced : Kernel → ℕ → Notif → Bool × Fd → Run ((Option Failure × Notif) × Fd)
unfolding add_held
add_referenced k flags n (live, file) =
    if live
    then (add_held k file flags n >>= λ answer. dec_ref file >>= λ file'. ok (answer, file'))
    else ok ((some (refused ebadf), n), file)

-- AddFD; the descriptor's number in the traced program is `k.target`.
unfoldable pub add_fd : Kernel → Fd → ℕ → Notif → Run ((Option Failure × Notif) × Fd)
unfolding add_referenced release
add_fd k file flags n =
    if is_received n.state
    then (inc_ref file >>= λ held.
        add_referenced k flags (record n { state = replying }) held >>= λ (answer, file').
        release answer >>= λ answer'. ok (answer', file'))
    else ok ((some (refused ealready), n), file)
