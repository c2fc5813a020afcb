-- ===== src/Process/Answering/Opening.antt =====
-- The handlers of cmd/run/engine/process/handle.go on files answer their notification.
use subtrace_docker_wireshar.Base.{
  ℕ, ◌≡◌, arith, List, Option, none, some, Run, ok, panic, Failure, other,
}
use subtrace_docker_wireshar.Fd.Calls.{Fd, new_fd, dec_ref}
use subtrace_docker_wireshar.Seccomp.Notif.{Notif}
use subtrace_docker_wireshar.Process.Machine.{Machine, ◌>>=◌, from_run}
use subtrace_docker_wireshar.Process.Host.{Host}
use subtrace_docker_wireshar.Process.Table.{after}
use subtrace_docker_wireshar.Process.Opening.{
  shuts, link_of, resolve_dirfd, absolute, resolve_path, give_up, send_memfd, fill_memfd,
  override_file, open_known, handle_open, write_stat, handle_fstatat, handle_statx, memfd_sent,
  close_memfd, shut_number,
}
use subtrace_docker_wireshar.Process.Rules.{
  Silent, Answers, itself, bind-parts, bind-Answers, answered-Answers, failure-Answers, ask-Silent,
}
use subtrace_docker_wireshar.Process.Quiet.{
  quiet, from_run-Silent, pass-Silent, after-Silent, read_string-Silent, write_bytes-Silent,
  get_fd-Silent,
}
use subtrace_docker_wireshar.Process.Answering.{skips-Answers, add_fd-answers}
use subtrace_docker_wireshar.Process.Answering.Making.{answering}

-- The error of a descriptor that was sent.
abbrev sent_error : Option Failure × Fd → Option Failure
sent_error (e, f) = e

module _ {W : Type 0} where
  shut_number-Silent : (r : Option ℕ × Fd) → Silent {W = W} (shut_number r)
  unfolding shut_number
  shut_number-Silent (none, f) = record { keeps = λ m m' a e. (cc, cc) }
  shut_number-Silent (some n, f) = record { keeps = λ m m' a e. (cc, cc) }

  shuts-Silent : (f : Fd) → Silent {W = W} (shuts f)
  unfolding shuts
  shuts-Silent f = search (quiet, from_run-Silent, shut_number-Silent)

  link_of-Silent : (h : Host W) (f : Fd) → Silent (link_of h f)
  unfolding link_of
  link_of-Silent h f = search (quiet, from_run-Silent, after-Silent, shuts-Silent)

  resolve_dirfd-Silent : (h : Host W) (dirfd : ℕ) → Silent (resolve_dirfd h dirfd)
  unfolding resolve_dirfd
  resolve_dirfd-Silent h dirfd = search (quiet, pass-Silent, get_fd-Silent, link_of-Silent)

  absolute-Silent : (h : Host W) (dirfd : ℕ) (path : List ℕ) → Silent (absolute h dirfd path)
  unfolding absolute
  absolute-Silent h dirfd path = search (quiet, pass-Silent, resolve_dirfd-Silent)

  resolve_path-Silent : (h : Host W) (dirfd ptr : ℕ) → Silent (resolve_path h dirfd ptr)
  unfolding resolve_path
  resolve_path-Silent h dirfd ptr = search (quiet, pass-Silent, read_string-Silent, absolute-Silent)

  memfd_sent-parts :
      (m m' : Machine W) (run : Run ((Option Failure × Notif) × Fd)) (r : Option Failure × Fd)
      → memfd_sent m run ≡ ok (r, m')
      → run ≡ ok ((r.0, m'.notif), r.1)
  memfd_sent-parts m m' (ok ((e, n), f)) r h = ground arith
  memfd_sent-parts m m' panic r h = absurd (cc)

  send_memfd-Answers : (h : Host W) (flags n : ℕ) → Answers sent_error (send_memfd h flags n)
  unfolding send_memfd
  send_memfd-Answers h flags n = bind-Answers (ask-Silent h.memory.kernel) (λ k. record {
    answers = λ m m' r at a e.
        add_fd-answers k (new_fd n) r.1 _ m.notif m'.notif r.0 at a (memfd_sent-parts m m' _ r e);
  })

  close_memfd-Silent : (n : ℕ) (r : Option Failure × Fd) → Silent {W = W} (close_memfd n r)
  unfolding close_memfd
  close_memfd-Silent n (e, f) = search (quiet, from_run-Silent, shut_number-Silent)

  close_memfd-back :
      (n : ℕ) (r : Option Failure × Fd) (m m' : Machine W) (b : Option Failure)
      → close_memfd n r m ≡ ok (b, m')
      → b ≡ none
      → sent_error r ≡ none
  unfolding close_memfd
  close_memfd-back n (e, f) m m' b k q =
      let (a, m1, k1, rest) = bind-parts (shut_number (some n, f)) _ m m' b k in
      let (a2, m2, k2, last) = bind-parts (from_run (dec_ref f)) _ m1 m' b rest in cc

  sent_memfd-Answers :
      (h : Host W) (flags n : ℕ) → Answers itself (send_memfd h flags n >>= close_memfd n)
  sent_memfd-Answers h flags n =
      answered-Answers (send_memfd-Answers h flags n) (close_memfd-Silent n) (close_memfd-back n)

  give_up-Answers : (n : ℕ) → Answers {W = W} itself (give_up n)
  unfolding give_up after
  give_up-Answers n = search (answering, shut_number-Silent) depth 12

  fill_memfd-Answers :
      (h : Host W) (flags : ℕ) (content : List ℕ) (made : Option ℕ)
      → Answers itself (fill_memfd h flags content made)
  unfolding fill_memfd
  fill_memfd-Answers h flags content none = failure-Answers other
  fill_memfd-Answers h flags content (some n) =
      search (answering, give_up-Answers, sent_memfd-Answers) depth 12

  override_file-Answers :
      (h : Host W) (flags : ℕ) (path : List ℕ) (orig : Option (List ℕ))
      → Answers itself (override_file h flags path orig)
  unfolding override_file
  override_file-Answers h flags path none = skips-Answers h.memory
  override_file-Answers h flags path (some orig) = search (answering, fill_memfd-Answers) depth 12

  open_known-Answers :
      (h : Host W) (flags : ℕ) (path : List ℕ) → Answers itself (open_known h flags path)
  unfolding open_known
  open_known-Answers h flags path = search (answering, override_file-Answers) depth 12

  pub handle_open-Answers :
      (h : Host W) (dirfd ptr flags : ℕ) → Answers itself (handle_open h dirfd ptr flags)
  unfolding handle_open
  handle_open-Answers h dirfd ptr flags =
      search (answering, resolve_path-Silent, open_known-Answers) depth 12

  write_stat-Answers :
      (h : Host W) (at_byte ptr : ℕ) (got : Option (List ℕ))
      → Answers itself (write_stat h at_byte ptr got)
  unfolding write_stat
  write_stat-Answers h at_byte ptr none = skips-Answers h.memory
  write_stat-Answers h at_byte ptr (some b) = search (answering, write_bytes-Silent) depth 12

  pub handle_fstatat-Answers :
      (h : Host W) (dirfd ptr buf flags : ℕ) → Answers itself (handle_fstatat h dirfd ptr buf flags)
  unfolding handle_fstatat
  handle_fstatat-Answers h dirfd ptr buf flags =
      search (answering, resolve_path-Silent, write_stat-Answers) depth 12

  pub handle_statx-Answers :
      (h : Host W) (dirfd ptr flags mask buf : ℕ)
      → Answers itself (handle_statx h dirfd ptr flags mask buf)
  unfolding handle_statx
  handle_statx-Answers h dirfd ptr flags mask buf =
      search (answering, resolve_path-Silent, write_stat-Answers) depth 12
