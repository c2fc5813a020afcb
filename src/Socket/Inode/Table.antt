-- ===== src/Socket/Inode/Table.antt =====
-- The table of inodes of cmd/run/socket/inode.go.
use subtrace_docker_wireshar.Base.{
  ℕ, ◌≡◌, refl, arith, List, ◌∷◌, none, some, ok, ◌==◌, if◌then◌else◌, Option-cases, inl, inr,
}
use subtrace_docker_wireshar.Socket.Inode.{get, add_inode}

get-cons :
    (m number ino : ℕ) (known : List (ℕ × ℕ))
    → get m ((number, ino) ∷ known) ≡ (if number == m then some ino else get m known)
unfolding get
get-cons m number ino known = refl

-- An Add that does not panic keeps every inode that the table has, whoever added inodes between its
-- look without the lock and its own turn, and puts the new one in where its number was free.
pub add_inode-keeps :
    (number ino : ℕ) (seen known after : List (ℕ × ℕ))
    → ((old : ℕ) → get number seen ≡ some old → get number known ≡ some old)
    → add_inode number ino seen known ≡ ok after
    → ((m x : ℕ) → get m known ≡ some x → get m after ≡ some x)
      × (get number known ≡ none → get number after ≡ some ino)
unfolding add_inode
add_inode-keeps number ino seen known after grows h = (
  λ m x e. ground (arith, h, e, get-cons m number ino known),
  λ e. elim (Option-cases (get number seen)) [
    | inl unseen ↦ ground (arith, h, e, unseen, get-cons number number ino known)
    | inr (old, at) ↦ absurd (ground (arith, e, grows old at))
  ],
)
