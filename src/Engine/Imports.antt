-- ===== src/Engine/Imports.antt =====
-- cmd/run/engine/engine.go: importInodes, which registers the sockets that a new process was born with.
use subtrace_docker_wireshar.Base.{
  ℕ, zero, suc, ◌+◌, ◌-◌, ◌*◌, ◌/◌, ◌%◌, ◌≤◌, ◌<◌, ◌≡◌, refl, ◌∙◌, ap, arith, Bool, ◌&&◌,
  Bool-cases, inl, inr, List, [], ◌∷◌, Option, none, some, Failure, other, ok, ltb, leb, ◌==◌,
  if◌then◌else◌,
}
use subtrace_docker_wireshar.Socket.Inode.{get}
use subtrace_docker_wireshar.Process.Machine.{Act, pure, ◌>>=◌}
use subtrace_docker_wireshar.Process.Host.{Host}
use subtrace_docker_wireshar.Process.Lifetime.{import_inode}

-- What fstatat(2) says of an entry: an errno, or the inode's number and whether it is a socket.
pub data Stat : Type 0 where
  stat_errno : ℕ → Stat
  stat_of : ℕ → Bool → Stat

-- An entry of /proc/<pid>/fd: whether it is a link, and its name with what follows it in the record.
pub record Dirent : Type 0 where
  pub is_link : Bool
  pub name : List ℕ
  pub stat : Stat

-- The loop over the name, with the number read so far.
unfoldable pub target_fd : ℕ → List ℕ → Option ℕ
target_fd acc [] = some acc
target_fd acc (c ∷ rest) =
    let later = target_fd (acc * 10 + (c - 48)) rest in
    if c == 0 then some acc else if leb 48 c && leb c 57 then later else none

module _ {W : Type 0} where
  -- A nil error, so that the loop goes on.
  abbrev pub go_on : Act W (Option Failure)
  go_on = pure none

  unfoldable pub import_known : Host W → List ℕ → Option ℕ → Act W (Option Failure)
  unfolding target_fd import_inode
  import_known h name none = go_on
  import_known h name (some inode) = elim (target_fd 0 name) [
    | none ↦ go_on
    | some fd ↦ import_inode h fd inode
  ]

  -- itab.Get.
  unfoldable pub look_up : ℕ → Act W (Option ℕ)
  unfolding get
  look_up ino m = ok (get ino m.table, m)

  unfoldable pub import_stat : Host W → List ℕ → Stat → Act W (Option Failure)
  unfolding look_up import_known
  import_stat h name (stat_errno e) = pure (some other)
  import_stat h name (stat_of ino is_socket) =
      if is_socket then (look_up ino >>= import_known h name) else go_on

  unfoldable pub import_entry : Host W → Dirent → Act W (Option Failure)
  unfolding import_stat
  import_entry h d = if d.is_link then import_stat h d.name d.stat else go_on

  abbrev pub unless_failed : Act W (Option Failure) → Option Failure → Act W (Option Failure)
  unless_failed rest none = rest
  unless_failed rest (some e) = pure (some e)

  -- The entries of one getdents64(2).
  unfoldable pub import_entries : Host W → List Dirent → Act W (Option Failure)
  unfolding import_entry
  import_entries h [] = go_on
  import_entries h (d ∷ rest) = import_entry h d >>= unless_failed (import_entries h rest)

  -- importInodes, with the answers of getdents64(2); `none` is an errno, and no answer the end.
  unfoldable pub import_inodes : Host W → List (Option (List Dirent)) → Act W (Option Failure)
  unfolding import_entries
  import_inodes h [] = go_on
  import_inodes h (none ∷ rest) = pure (some other)
  import_inodes h (some entries ∷ rest) =
      import_entries h entries >>= unless_failed (import_inodes h rest)

-- The digits of a number, as the kernel writes the name of a descriptor.
unfoldable pub decimal : ℕ → ℕ → List ℕ → List ℕ
decimal zero n rest = (48 + n) ∷ rest
decimal (suc fuel) n rest =
    let more = decimal fuel (n / 10) ((48 + n % 10) ∷ rest) in
    if ltb n 10 then (48 + n) ∷ rest else more

target_fd-digit :
    (acc d : ℕ) (rest : List ℕ)
    → d < 10
    → target_fd acc ((48 + d) ∷ rest) ≡ target_fd (acc * 10 + d) rest
unfolding target_fd
target_fd-digit acc d rest h = ground arith

target_fd-decimal_rest :
    (fuel n : ℕ) (rest : List ℕ) → n ≤ fuel → target_fd 0 (decimal fuel n rest) ≡ target_fd n rest
unfolding decimal
target_fd-decimal_rest zero n rest h =
    target_fd-digit 0 n rest (omega arith) ∙ ap (λ k. target_fd k rest) (omega arith)
target_fd-decimal_rest (suc fuel) n rest h = elim (Bool-cases (ltb n 10)) [
  | inl e ↦
      rw e (target_fd-digit 0 n rest (ground arith) ∙ ap (λ k. target_fd k rest) (omega arith))
  | inr e ↦ rw e (
      target_fd-decimal_rest fuel (n / 10) ((48 + n % 10) ∷ rest) (ground arith)
      ∙ target_fd-digit (n / 10) (n % 10) rest (omega arith)
      ∙ ap (λ k. target_fd k rest) (omega arith))
]

-- The name of a descriptor in /proc, its decimal digits and a zero byte before whatever the buffer has
-- next, is read as the descriptor, however large.
pub target_fd-decimal :
    (fuel n : ℕ) (junk : List ℕ) → n ≤ fuel → target_fd 0 (decimal fuel n (0 ∷ junk)) ≡ some n
unfolding target_fd
target_fd-decimal fuel n junk h = target_fd-decimal_rest fuel n (0 ∷ junk) h ∙ refl
