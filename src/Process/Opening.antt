-- ===== src/Process/Opening.antt =====
-- cmd/run/engine/process/handle.go: paths, and the handlers of openat, newfstatat and statx, which show
-- the file of the known certificates with the tracer's own certificate at its end.
use subtrace_docker_wireshar.Base.{
  ℕ, ◌+◌, ◌%◌, Bool, true, false, ◌&&◌, List, [], ◌∷◌, ◌++◌, Option, none, some, Run, ok, panic,
  Outcome, done, fail, Failure, other, length, take, drop, ◌==◌, if◌then◌else◌,
}
use subtrace_docker_wireshar.Fd.Calls.{Fd, new_fd, dec_ref, number}
use subtrace_docker_wireshar.Seccomp.Notif.{Notif, add_fd}
use subtrace_docker_wireshar.Seccomp.Wire.{le_bytes, le_value}
use subtrace_docker_wireshar.Socket.State.{close_fd}
use subtrace_docker_wireshar.Process.Machine.{from_run, Machine, Act, pure, ◌>>=◌, ◌>>?◌, ask}
use subtrace_docker_wireshar.Process.Memory.{read_string, write_bytes}
use subtrace_docker_wireshar.Process.Host.{Host}
use subtrace_docker_wireshar.Process.Table.{skips, returns, after}
use subtrace_docker_wireshar.Process.Lifetime.{get_fd}
use subtrace_docker_wireshar.Process.Answer.{answer_or, last_answer, cloexec_of}

-- unix.AT_FDCWD, as the low 32 bits of the argument.
abbrev pub at_fdcwd : ℕ
at_fdcwd = 4294967196

abbrev pub path_max : ℕ
path_max = 4096

-- filepath.IsAbs: the path starts with a slash.
abbrev pub is_abs : List ℕ → Bool
is_abs (c ∷ rest) = c == 47
is_abs [] = false

unfoldable pub same_bytes : List ℕ → List ℕ → Bool
same_bytes [] [] = true
same_bytes (x ∷ xs) (y ∷ ys) = let rest = same_bytes xs ys in x == y && rest
same_bytes _ _ = false

-- tls.IsKnownPath.
unfoldable pub is_known_path : List (List ℕ) → List ℕ → Bool
unfolding same_bytes
is_known_path [] path = false
is_known_path (known ∷ rest) path =
    let later = is_known_path rest path in if same_bytes path known then true else later

-- A stat structure whose size, of 64 bits at an offset, is larger by `extra`.
unfoldable pub grow_size : ℕ → ℕ → List ℕ → List ℕ
unfolding le_bytes le_value
grow_size at_byte extra b =
    take at_byte b
    ++ (le_bytes 8 ((le_value (take 8 (drop at_byte b)) + extra) % 18446744073709551616)
        ++ drop (at_byte + 8) b)

abbrev pub read_link : Option (List ℕ) → Outcome (List ℕ)
read_link (some path) = done path
read_link none = fail other

module _ {W : Type 0} where
  unfoldable pub shut_number : Option ℕ × Fd → Act W (Unit {0})
  shut_number (none, f) m = ok (tt, m)
  shut_number (some n, f) m =
      ok (tt, record m { store = record m.store { shut = m.store.shut ++ n ∷ [] } })

  -- The deferred DecRef and close of a copied descriptor.
  unfoldable pub shuts : Fd → Act W (Unit {0})
  unfolding from_run dec_ref close_fd shut_number
  shuts f = from_run (dec_ref f) >>= λ f'. from_run (close_fd f') >>= shut_number

  unfoldable pub link_of : Host W → Fd → Act W (Outcome (List ℕ))
  unfolding from_run number ask shuts after
  link_of h f = from_run (number f) >>= λ n.
      ask (h.files.readlink_fd n) >>= λ path. after (shuts f) (read_link path)

  unfoldable pub resolve_dirfd : Host W → ℕ → Act W (Outcome (List ℕ))
  unfolding ask get_fd link_of
  resolve_dirfd h dirfd =
      if dirfd == at_fdcwd
      then (ask h.files.readlink_cwd >>= λ path. pure (read_link path))
      else (get_fd h dirfd >>? link_of h)

  unfoldable pub absolute : Host W → ℕ → List ℕ → Act W (Outcome (List ℕ))
  unfolding resolve_dirfd
  absolute h dirfd path =
      if is_abs path
      then pure (done path)
      else (resolve_dirfd h dirfd >>? λ dir. pure (done (h.files.join dir path)))

  unfoldable pub resolve_path : Host W → ℕ → ℕ → Act W (Outcome (List ℕ))
  unfolding read_string absolute
  resolve_path h dirfd path_addr = read_string h.memory path_addr path_max >>? absolute h dirfd

  -- Where a path is to be changed, `go_on`, and a skip elsewhere.
  abbrev pub known_or_skip :
      Host W → (List ℕ → Act W (Option Failure)) → List ℕ → Act W (Option Failure)
  known_or_skip h go_on path =
      if h.files.enabled && is_known_path h.files.known path then go_on path else skips h.memory

  -- A failure after memfd_create(2): the deferred close runs.
  unfoldable pub give_up : ℕ → Act W (Option Failure)
  unfolding after shut_number
  give_up n = after (shut_number (some n, new_fd n)) (some other)

  abbrev pub memfd_sent :
      Machine W → Run ((Option Failure × Notif) × Fd) → Run ((Option Failure × Fd) × Machine W)
  memfd_sent m (ok ((e, notif), file)) = ok ((e, file), record m { notif = notif })
  memfd_sent m panic = panic

  -- The deferred close and DecRef.
  unfoldable pub close_memfd : ℕ → Option Failure × Fd → Act W (Option Failure)
  unfolding shut_number from_run dec_ref
  close_memfd n (e, file) =
      shut_number (some n, file) >>= λ _. from_run (dec_ref file) >>= λ _. pure e

  unfoldable pub send_memfd : Host W → ℕ → ℕ → Act W (Option Failure × Fd)
  unfolding ask add_fd new_fd
  send_memfd h flags n =
      ask h.memory.kernel >>= λ k m. memfd_sent m (add_fd k (new_fd n) (cloexec_of flags) m.notif)

  unfoldable pub fill_memfd : Host W → ℕ → List ℕ → Option ℕ → Act W (Option Failure)
  unfolding ask give_up send_memfd close_memfd
  fill_memfd h flags content none = pure (some other)
  fill_memfd h flags content (some n) = ask (h.files.write content) >>= λ written.
      if written
      then (ask h.files.lseek >>= λ sought.
          if sought then (send_memfd h flags n >>= close_memfd n) else give_up n)
      else give_up n

  unfoldable pub override_file : Host W → ℕ → List ℕ → Option (List ℕ) → Act W (Option Failure)
  unfolding ask fill_memfd skips
  override_file h flags path none = skips h.memory
  override_file h flags path (some orig) =
      ask (h.files.memfd_create path) >>= fill_memfd h flags (orig ++ h.files.pem)

  unfoldable pub open_known : Host W → ℕ → List ℕ → Act W (Option Failure)
  unfolding ask override_file
  open_known h flags path = ask (h.files.read_file path) >>= override_file h flags path

  -- O_WRONLY is 1, and O_CLOEXEC is SOCK_CLOEXEC.
  unfoldable pub handle_open : Host W → ℕ → ℕ → ℕ → Act W (Option Failure)
  unfolding skips returns resolve_path open_known is_known_path
  handle_open h dirfd path_addr flags =
      if flags % 2 == 1
      then skips h.memory
      else (resolve_path h dirfd path_addr >>= answer_or h (known_or_skip h (open_known h flags)))

  -- What fstatat(2) or statx(2) gave, written with a larger size.
  unfoldable pub write_stat : Host W → ℕ → ℕ → Option (List ℕ) → Act W (Option Failure)
  unfolding skips returns write_bytes grow_size
  write_stat h at_byte buf_addr none = skips h.memory
  write_stat h at_byte buf_addr (some b) =
      write_bytes h.memory buf_addr (grow_size at_byte (length h.files.pem) b) >>= last_answer h

  unfoldable pub handle_fstatat : Host W → ℕ → ℕ → ℕ → ℕ → Act W (Option Failure)
  unfolding skips returns resolve_path ask write_stat is_known_path
  handle_fstatat h dirfd path_addr buf_addr flags =
      resolve_path h dirfd path_addr
      >>= answer_or h (
          known_or_skip h (λ path.
            ask (h.files.fstatat path flags) >>= write_stat h h.files.stat_size_at buf_addr))

  unfoldable pub handle_statx : Host W → ℕ → ℕ → ℕ → ℕ → ℕ → Act W (Option Failure)
  unfolding skips returns resolve_path ask write_stat is_known_path
  handle_statx h dirfd path_addr flags mask buf_addr =
      resolve_path h dirfd path_addr
      >>= answer_or h (
          known_or_skip h (λ path.
            ask (h.files.statx dirfd path flags mask)
            >>= write_stat h h.files.statx_size_at buf_addr))
