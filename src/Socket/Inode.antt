-- ===== src/Socket/Inode.antt =====
-- cmd/run/socket/inode.go: the open sockets of an inode and the table of inodes. A socket or an
-- inode stands for its pointer, a number; the mutexes make each call one step.
pub mod Bag
pub mod Table
use subtrace_docker_wireshar.Base.{
  ℕ, suc, ◌+◌, ◌-◌, Bool, true, false, List, [], ◌∷◌, ◌++◌, Option, none, some, Run, ok, panic,
  length, get_elem?, set, take, ◌==◌, ltb, if◌then◌else◌,
}

-- (*Inode).add.
unfoldable pub add : ℕ → List ℕ → List ℕ
add sock socks = socks ++ sock ∷ []

-- The loop's first index with the socket.
unfoldable pub find : ℕ → List ℕ → Option ℕ
find sock [] = none
find sock (x ∷ xs) =
    let rest = find sock xs in
    if x == sock then some 0 else elim rest [ none ↦ none | some i ↦ some (suc i) ]

swap_values : ℕ → ℕ → List ℕ → Option ℕ → Option ℕ → List ℕ
swap_values i j xs (some a) (some b) = set (set xs i b) j a
swap_values i j xs _ _ = xs

unfoldable pub swap : ℕ → ℕ → List ℕ → List ℕ
unfolding swap_values
swap i j xs = swap_values i j xs (get_elem? xs i) (get_elem? xs j)

drop_at : List ℕ → Option ℕ → Run (Bool × List ℕ)
unfolding swap
drop_at socks none = panic
drop_at socks (some i) =
    let last = length socks - 1 in
    ok (false, take last (if ltb i last then swap i last socks else socks))

remove_only : ℕ → List ℕ → Run (Bool × List ℕ)
remove_only sock (x ∷ xs) = if x == sock then ok (true, []) else panic
remove_only sock [] = panic

-- (*Inode).remove: whether the socket was the last one, and the sockets that stay.
unfoldable pub remove : ℕ → List ℕ → Run (Bool × List ℕ)
unfolding find drop_at remove_only
remove sock socks =
    if length socks == 1 then remove_only sock socks else drop_at socks (find sock socks)

-- The map of an InodeTable: numbers with inodes.
unfoldable pub get : ℕ → List (ℕ × ℕ) → Option ℕ
get number [] = none
get number ((n, ino) ∷ known) = if n == number then some ino else get number known

add_known : ℕ → ℕ → List (ℕ × ℕ) → Option ℕ → Run (List (ℕ × ℕ))
add_known number ino known none = ok ((number, ino) ∷ known)
add_known number ino known (some old) = if old == ino then ok known else panic

-- (*InodeTable).Add. The fast path looks the number up at `seen`, a table that others may have
-- changed before the lock is taken at `known`.
unfoldable pub add_inode : ℕ → ℕ → List (ℕ × ℕ) → List (ℕ × ℕ) → Run (List (ℕ × ℕ))
unfolding get add_known
add_inode number ino seen known = elim (get number seen) [
  | some old ↦ ok known
  | none ↦ add_known number ino known (get number known)
]
