-- ===== src/Seccomp/Listener.antt =====
-- cmd/run/engine/seccomp/seccomp.go: a Listener's Receive and Close. What the kernel answers to the
-- receiving ioctl calls is a list, each an errno and the buffer that the call filled.
use subtrace_docker_wireshar.Base.{
  ℕ, zero, suc, ◌∙◌, ◌+◌, ◌<◌, ◌≡◌, refl, arith, List, [], ◌∷◌, ◌++◌, Option, none, some, Run, ok,
  ◌>>=◌, ebadf, ◌==◌, if◌then◌else◌, replicate,
}
use subtrace_docker_wireshar.Fd.Calls.{Fd, inc_ref, dec_ref, number, closing_inc_ref}
use subtrace_docker_wireshar.Fd.Word.{flag_closed, no_fd}
use subtrace_docker_wireshar.Fd.Balance.{IsLive, inc_ref-live}
use subtrace_docker_wireshar.Seccomp.Wire.{Received, unmarshal}
use subtrace_docker_wireshar.Seccomp.Layout.{raw_notif, IsRaw, unmarshal-raw_notif}
use subtrace_docker_wireshar.Seccomp.Notif.{Notif, received}

abbrev pub eintr : ℕ
eintr = 4

-- `blocked` is a call that the kernel has not answered; `refusal` carries an errno.
pub data Reception : Type 0 where
  notified : Received → Notif → Fd → Reception
  refusal : ℕ → Fd → Reception
  blocked : Fd → Reception

-- receiveSingle, where the kernel says `errno`.
receive_single : ℕ → Fd → Run (ℕ × Fd)
receive_single errno l = inc_ref l >>= λ (live, l').
    if live then (number l' >>= λ fd. dec_ref l' >>= λ l''. ok (errno, l'')) else ok (ebadf, l')

-- Receive after the loop.
accept_notif : List ℕ → Fd → Run Reception
accept_notif b l = unmarshal b >>= λ x. inc_ref l >>= λ (live, l'). ok (
    if live
    then notified x (record { id = x.id; state = received; listener = l'; asked = [] }) l'
    else refusal ebadf l')

-- The end of a round of the loop: `again` is the rest of it.
after_single : List ℕ → (Fd → Run Reception) → ℕ × Fd → Run Reception
unfolding accept_notif
after_single b again (errno, l) =
    if errno == 0
    then accept_notif b l
    else if errno == eintr
    then again l
    else ok (refusal errno l)

unfoldable pub receive : List (ℕ × List ℕ) → Fd → Run Reception
unfolding receive_single after_single
receive [] l = ok (blocked l)
receive ((errno, b) ∷ answers) l =
    receive_single errno l >>= λ single. after_single b (receive answers) single

-- Close, where the kernel's close(2) says `errno`: the answer, or none if it was closed before.
unfoldable pub close : ℕ → Fd → Run (Option ℕ × Fd)
close errno l =
    let (first, l') = closing_inc_ref l in
    if first
    then (number l' >>= λ fd. dec_ref l' >>= λ l''. ok (some errno, l''))
    else ok (none, l')

receive_single-live : (e : ℕ) (l : Fd) → IsLive l → receive_single e l ≡ ok (e, l)
unfolding receive_single inc_ref number dec_ref
receive_single-live e l h = ground arith

receive-retry :
    (b : List ℕ) (answers : List (ℕ × List ℕ)) (l : Fd)
    → IsLive l
    → receive ((eintr, b) ∷ answers) l ≡ receive answers l
unfolding receive
receive-retry b answers l h = rw (receive_single-live eintr l h) refl

receive-notified :
    (x : Received) (l : Fd) (answers : List (ℕ × List ℕ))
    → IsLive l
    → IsRaw x
    → let l' = record l { refs = l.refs + 1 } in
      receive ((0, raw_notif x) ∷ answers) l
      ≡ ok (notified x (record { id = x.id; state = received; listener = l'; asked = [] }) l')
unfolding receive
receive-notified x l answers h r =
    rw (receive_single-live 0 l h, unmarshal-raw_notif x r, inc_ref-live l h) refl

-- On an open listener Receive calls again as often as it is interrupted, and then hands over the
-- notification that the kernel laid out, in state Received and with one reference of its own to the
-- listener's descriptor.
pub receive-interrupted :
    (k : ℕ) (b : List ℕ) (x : Received) (l : Fd) (answers : List (ℕ × List ℕ))
    → IsLive l
    → IsRaw x
    → let l' = record l { refs = l.refs + 1 } in
      receive (replicate k (eintr, b) ++ (0, raw_notif x) ∷ answers) l
      ≡ ok (notified x (record { id = x.id; state = received; listener = l'; asked = [] }) l')
receive-interrupted zero b x l answers h r = receive-notified x l answers h r
receive-interrupted (suc k) b x l answers h r =
    receive-retry b (replicate k (eintr, b) ++ (0, raw_notif x) ∷ answers) l h
    ∙ receive-interrupted k b x l answers h r

-- Close of an open listener that nothing refers to closes the descriptor: its number is gone, a
-- second Close fails, and Receive says EBADF, whatever the kernel would answer.
pub close-receive :
    (e : ℕ) (l : Fd) (first : ℕ × List ℕ) (answers : List (ℕ × List ℕ))
    → l.fd < no_fd
    → l.refs ≡ 0
    → let gone = record l { fd = no_fd; refs = flag_closed } in
      (close e l ≡ ok (some e, gone))
      × (close e gone ≡ ok (none, gone))
      × (receive (first ∷ answers) gone ≡ ok (refusal ebadf gone))
unfolding close receive receive_single closing_inc_ref inc_ref dec_ref number
close-receive e l (e1, b) answers h z = (ground arith, ground arith, ground arith)
