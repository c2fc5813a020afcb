-- ===== src/Seccomp/Once.antt =====
-- Each notification of cmd/run/engine/seccomp/seccomp.go is answered once.
use subtrace_docker_wireshar.Base.{
  ℕ, ◌+◌, ◌-◌, ◌%◌, ◌≤◌, ◌<◌, ◌≡◌, ◌≢◌, refl, sym, ◌∙◌, arith, Bool, List, [], ◌∷◌, ◌++◌, length,
  Option, none, some, Run, ok, ◌>>=◌, Failure, cancelled, refused, ebadf, enoent, einprogress, ◌==◌,
  if◌then◌else◌,
}
use subtrace_docker_wireshar.Fd.Word.{flag_closed, max_refs}
use subtrace_docker_wireshar.Fd.Calls.{Fd}
use subtrace_docker_wireshar.Fd.Balance.{
  IsLive, inc_ref-live, dec_ref_open, number-live, inc_ref_closed,
}
use subtrace_docker_wireshar.Seccomp.Notif.{
  State, received, replying, replied, cancelled_state, errored, notif_send, notif_addfd, Notif,
  Kernel, response, send, skip, reply, add_fd, valid, word32,
}

-- The state and the error that the kernel's answer leads to.
abbrev pub final_state : Kernel → State
final_state k =
    if k.errno == 0
    then replied
    else if k.errno == enoent
    then cancelled_state
    else if k.errno == einprogress
    then (if k.id_valid then replying else cancelled_state)
    else errored

abbrev pub final_error : Kernel → ℕ → Option Failure
final_error k wrapped =
    if k.errno == 0
    then none
    else if k.errno == enoent
    then some cancelled
    else if k.errno == einprogress
    then (if k.id_valid then some (refused einprogress) else some cancelled)
    else some (refused wrapped)

valid-live : (k : Kernel) (l : Fd) → IsLive l → valid k l ≡ ok (k.id_valid, l)
unfolding valid
valid-live k l h = ground (
  arith,
  inc_ref-live l h,
  number-live (record l { refs = l.refs + 1 }),
  dec_ref_open (record l { refs = l.refs + 1 }),
)

-- The answer to a notification that was not answered yet, with the listener open and referenced, whatever the kernel says: one request
-- reaches the kernel, the state and the error follow from the kernel's errno, and the listener's
-- descriptor has one reference less.
pub send_lem :
    (k : Kernel) (handled : Bool) (ret errno : ℕ) (n : Notif)
    → n.state ≡ received
    → IsLive n.listener
    → 0 < n.listener.refs
    → send k handled ret errno n
      ≡ ok (
        final_error k errno,
        record n {
          state = final_state k;
          listener = record n.listener { refs = n.listener.refs - 1 };
          asked = n.asked ++ notif_send (response n.id handled ret errno) ∷ [];
        },
      )
unfolding send
send_lem k handled ret errno n s h pos =
    ground (arith, number-live n.listener, valid-live k n.listener h, dec_ref_open n.listener)

-- AddFD on a descriptor that is open, for a notification that was not answered yet and whose
-- listener is open and referenced: one request reaches the kernel, with the descriptor's number
-- and SECCOMP_ADDFD_FLAG_SEND, and the descriptor has its references as before.
pub add_fd_lem :
    (k : Kernel) (file : Fd) (flags : ℕ) (n : Notif)
    → n.state ≡ received
    → IsLive n.listener
    → 0 < n.listener.refs
    → IsLive file
    → add_fd k file flags n
      ≡ ok (
        (
          final_error k k.errno,
          record n {
            state = final_state k;
            listener = record n.listener { refs = n.listener.refs - 1 };
            asked =
                n.asked
                ++ notif_addfd (record {
                  id = n.id;
                  flags = 2;
                  src_fd = file.fd;
                  new_fd = 0;
                  new_fd_flags = flags % word32;
                })
                  ∷ [];
          },
        ),
        file,
      )
unfolding add_fd
add_fd_lem k file flags n s h pos live = ground (
  arith,
  number-live n.listener,
  valid-live k n.listener h,
  dec_ref_open n.listener,
  inc_ref-live file live,
  number-live (record file { refs = file.refs + 1 }),
  dec_ref_open (record file { refs = file.refs + 1 }),
)

-- AddFD on a descriptor that someone has closed and someone has a reference to, for a notification
-- that was not answered yet and whose listener is open and referenced, reports EBADF and asks the kernel nothing, but
-- leaves the notification in the state Replying.
pub add_fd_closed :
    (k : Kernel) (file : Fd) (flags : ℕ) (n : Notif)
    → n.state ≡ received
    → IsLive n.listener
    → 0 < n.listener.refs
    → flag_closed < file.refs
    → file.refs + 1 < flag_closed + max_refs
    → add_fd k file flags n
      ≡ ok (
        (
          some (refused ebadf),
          record n {
            state = replying;
            listener = record n.listener { refs = n.listener.refs - 1 };
          },
        ),
        record file { sema = if file.refs == flag_closed + 1 then file.sema + 1 else file.sema },
      )
unfolding add_fd
add_fd_closed k file flags n s h pos closed room =
    ground (arith, dec_ref_open n.listener, inc_ref_closed file closed room)

-- The answers that a handler may try, in any order.
pub data Answer : Type 0 where
  skipping : Kernel → Answer
  returning : Kernel → ℕ → ℕ → Answer
  adding : Kernel → Fd → ℕ → Answer

unfoldable pub answer : Answer → Notif → Run Notif
answer (skipping k) n = skip k n >>= λ (e, m). ok m
answer (returning k ret errno) n = reply k ret errno n >>= λ (e, m). ok m
answer (adding k file flags) n = add_fd k file flags n >>= λ ((e, m), f). ok m

unfoldable pub answers : List Answer → Notif → Run Notif
unfolding answer
answers [] n = ok n
answers (a ∷ rest) n = answer a n >>= λ m. answers rest m

answer_again : (a : Answer) (n : Notif) → n.state ≢ received → answer a n ≡ ok n
unfolding answer skip reply send add_fd
answer_again (skipping k) n h = ground arith
answer_again (returning k ret errno) n h = ground arith
answer_again (adding k file flags) n h = ground arith

answer_first :
    (a : Answer) (n m : Notif)
    → n.state ≡ received
    → n.asked ≡ []
    → answer a n ≡ ok m
    → (m.state ≢ received) × (length m.asked ≤ 1)
unfolding answer skip reply send add_fd
answer_first (skipping k) n m s e h = ground arith
answer_first (returning k ret errno) n m s e h = ground arith
answer_first (adding k file flags) n m s e h = ground arith

answers_done : (rest : List Answer) (n : Notif) → n.state ≢ received → answers rest n ≡ ok n
unfolding answers
answers_done [] n h = refl
answers_done (a ∷ rest) n h = rw (answer_again a n h) (answers_done rest n h)

answers-cons :
    (a : Answer) (rest : List Answer) (n m : Notif)
    → answers (a ∷ rest) n ≡ ok m
    → (n' : Notif) × (answer a n ≡ ok n') × (answers rest n' ≡ ok m)
unfolding answers
answers-cons a rest n m h = ground arith

-- However many answers are tried on a notification that has come in, and whatever the kernel says
-- to each, at most one request reaches the kernel.
pub answered_once :
    (tried : List Answer) (n m : Notif)
    → n.state ≡ received
    → n.asked ≡ []
    → answers tried n ≡ ok m
    → length m.asked ≤ 1
unfolding answers
answered_once [] n m s e h = ground arith
answered_once (a ∷ rest) n m s e h =
    let (n', first, others) = answers-cons a rest n m h in
    let (used, one) = answer_first a n n' s e first in
    let same : ok n' ≡ ok m = sym (answers_done rest n' used) ∙ others in ground (arith, same, one)
