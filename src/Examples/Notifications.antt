-- ===== src/Examples/Notifications.antt =====
-- Notifications of cmd/run/engine/seccomp/seccomp.go.
use subtrace_docker_wireshar.Base.{◌+◌, ◌≤◌, ◌≡◌, refl, [], ◌∷◌, true, false, ok, length}
use subtrace_docker_wireshar.Fd.Word.{flag_closed, no_fd}
use subtrace_docker_wireshar.Fd.Calls.{Fd, number, dec_ref}
use subtrace_docker_wireshar.Seccomp.Notif.{
  received, replied, Notif, Kernel, notif_send, response, reply, skip,
}
use subtrace_docker_wireshar.Seccomp.Once.{skipping, returning, answers, answered_once}

abbrev listener : Fd
listener = record { fd = 3; refs = 1; sema = 0 }

abbrev quiet : Fd
quiet = record { fd = 3; refs = 0; sema = 0 }

abbrev opened : Notif
opened = record { id = 42; state = received; listener = listener; asked = [] }

abbrev agrees : Kernel
agrees = record { errno = 0; target = 5; id_valid = true }

abbrev forgets : Kernel
forgets = record { errno = 2; target = 0; id_valid = false }

abbrev shut_file : Fd
shut_file = record { fd = 9; refs = flag_closed + 2; sema = 0 }

abbrev after_two : Notif
after_two = record {
  id = 42;
  state = replied;
  listener = quiet;
  asked = notif_send (response 42 true 7 0) ∷ [];
}

two_answers : answers (returning agrees 7 0 ∷ skipping forgets ∷ []) opened ≡ ok after_two
unfolding answers reply number dec_ref skip
two_answers = refl

answered_once_example : length after_two.asked ≤ 1
answered_once_example =
    answered_once (returning agrees 7 0 ∷ skipping forgets ∷ []) opened after_two refl refl
      two_answers

abbrev gone : Fd
gone = record { fd = no_fd; refs = flag_closed; sema = 0 }
