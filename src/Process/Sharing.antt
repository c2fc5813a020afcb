-- ===== src/Process/Sharing.antt =====
-- The table of sockets of cmd/run/engine/process: what close(2), a copy and a new socket do to it, and
-- that two descriptors of one inode share its state.
use subtrace_docker_wireshar.Base.{
  ℕ, ◌≡◌, ◌≢◌, refl, sym, ap, ◌∙◌, arith, Bool, true, false, List, [], ◌∷◌, Option, none, some, ok,
  Failure, ◌==◌, if◌then◌else◌, Option-cases, inl, inr,
}
use subtrace_docker_wireshar.Fd.Calls.{Fd, new_fd}
use subtrace_docker_wireshar.Socket.Inode.{get}
use subtrace_docker_wireshar.Socket.State.{Socket}
use subtrace_docker_wireshar.Process.Machine.{Machine, Store, ◌>>=◌, load, save}
use subtrace_docker_wireshar.Process.Memory.{Memory}
use subtrace_docker_wireshar.Process.Host.{Host, opened}
use subtrace_docker_wireshar.Process.Table.{
  unmapped, get_delete_socket, adds, registers, install_held, install_socket, after, lets_go, holds,
  add_to_table, new_socket,
}
use subtrace_docker_wireshar.Event.{Event}
use subtrace_docker_wireshar.Process.Lifetime.{fresh_template}
use subtrace_docker_wireshar.Process.Answering.{after-same}
use subtrace_docker_wireshar.Process.Rules.{bind-parts}
use subtrace_docker_wireshar.Process.Handlers.{handle_close, close_tracked, dup_made, inode_at}
use subtrace_docker_wireshar.Process.Steady.{
  close_tracked-Steady, holds-Steady, add_to_table-Steady, adds-Steady, after-Steady,
  lets_go-Steady, fresh_template-Steady,
}

pub get-unmapped :
    (fd other : ℕ) (known : List (ℕ × ℕ))
    → get other (unmapped fd known) ≡ (if fd == other then none else get other known)
unfolding get
get-unmapped fd other [] = ground arith
get-unmapped fd other ((n, s) ∷ rest) = ground (arith, get-unmapped fd other rest)

pub unmapped_fresh :
    (fd : ℕ) (known : List (ℕ × ℕ)) → get fd known ≡ none → unmapped fd known ≡ known
unfolding get
unmapped_fresh fd [] h = refl
unmapped_fresh fd ((n, s) ∷ rest) h = ground (arith, unmapped_fresh fd rest)

-- A call of a socket is seen through every socket of the same inode, and through no other.
pub save-shares :
    (a b : ℕ) (v : Socket) (h : Store)
    → let h' = save a v h in
      ((h.sock b).inode ≡ (h.sock a).inode
        → ((load b h').state ≡ v.state) × ((load b h').socks ≡ v.socks))
      × ((h.sock b).inode ≢ (h.sock a).inode
          → ((load b h').state ≡ (load b h).state) × ((load b h').socks ≡ (load b h).socks))
      × (b ≢ a → (load b h').fd ≡ (load b h).fd)
unfolding save load
save-shares a b v h =
    (λ e. (ground arith, ground arith), λ ne. (ground arith, ground arith), λ ne. ground arith)

get_delete_socket-sockets :
    {W : Type 0} (fd : ℕ) (m m' : Machine W) (found : Option ℕ)
    → get_delete_socket fd m ≡ ok (found, m')
    → m'.proc.sockets ≡ unmapped fd m.proc.sockets
unfolding get_delete_socket
get_delete_socket-sockets fd m m' found h = cc

-- After a close(2), whatever its result, the descriptor is no socket of the process, and the other
-- descriptors are the sockets that they were.
pub close-forgets :
    {W : Type 0} (h : Host W) (fd : ℕ) (m m' : Machine W) (r : Option Failure)
    → handle_close h fd m ≡ ok (r, m')
    → (get fd m'.proc.sockets ≡ none)
      × ((other : ℕ) → other ≢ fd → get other m'.proc.sockets ≡ get other m.proc.sockets)
unfolding handle_close
close-forgets h fd m m' r e =
    let (found, m1, e1, k) = bind-parts (get_delete_socket fd) (close_tracked h) m m' r e in
    let (same, inodes) = (close_tracked-Steady h found).keeps m1 m' r k in
    let gone = same ∙ get_delete_socket-sockets fd m m1 found e1 in
    (
      ground (arith, gone, get-unmapped fd fd m.proc.sockets),
      λ other ne. ground (arith, gone, get-unmapped fd other m.proc.sockets),
    )

-- What a registration that reports no error did.
abbrev pub Registered : {W : Type 0} → ℕ → Machine W → Machine W → Type 0
Registered s m m' =
    (target : ℕ) × (get target m.proc.sockets ≡ none)
    × (m'.proc.sockets ≡ (target, s) ∷ m.proc.sockets)
    × ((b : ℕ) → (m'.store.sock b).inode ≡ (m.store.sock b).inode)

registers-Registered :
    {W : Type 0} (s : ℕ) (r : Option Failure × ℕ) (m m' : Machine W)
    → registers s r m ≡ ok (none, m')
    → Registered s m m'
unfolding registers
registers-Registered s (some e, target) m m' h = absurd (cc)
registers-Registered s (none, target) m m' h = elim (Option-cases (get target m.proc.sockets)) [
  | inl free ↦ (target, free, ground (arith, h, free), λ b. ground (arith, h, free))
  | inr (old, at) ↦ absurd (ground (arith, h, at))
]

-- Registered between calls that are steady.
within-Registered :
    {W : Type 0} (s : ℕ) (m m1 m2 m' : Machine W)
    → m1.proc.sockets ≡ m.proc.sockets
    → ((b : ℕ) → (m1.store.sock b).inode ≡ (m.store.sock b).inode)
    → Registered s m1 m2
    → m'.proc.sockets ≡ m2.proc.sockets
    → ((b : ℕ) → (m'.store.sock b).inode ≡ (m2.store.sock b).inode)
    → Registered s m m'
within-Registered s m m1 m2 m' p i (target, free, put, same) q j = (
  target,
  ap (get target) (sym p) ∙ free,
  q ∙ put ∙ ap (λ known. (target, s) ∷ known) p,
  λ b. j b ∙ same b ∙ i b,
)

install_held-Registered :
    {W : Type 0} (v : Memory W) (s flags : ℕ) (live : Bool) (m m1 m' : Machine W)
    → holds s m ≡ ok (live, m1)
    → install_held v s flags live m1 ≡ ok (none, m')
    → Registered s m m'
unfolding install_held
install_held-Registered v s flags false m m1 m' e1 k1 = absurd (cc)
install_held-Registered v s flags true m m1 m' e1 k1 =
    let (u, m2, e2, k2) = bind-parts (add_to_table s) _ m1 m' none k1 in
    let (r, m3, e3, k3) =
      bind-parts (adds v s flags >>= registers s) (after (lets_go s)) m2 m' none k2 in
    let (got, m4, e4, k4) = bind-parts (adds v s flags) (registers s) m2 m3 r e3 in
    let same = after-same (lets_go s) r none m3 m' k3 in
    let (pa, ia) = (holds-Steady s).keeps m m1 true e1 in
    let (pb, ib) = (add_to_table-Steady s).keeps m1 m2 u e2 in
    let (pc, ic) = (adds-Steady v s flags).keeps m2 m4 got e4 in
    let (pd, id) = (after-Steady (lets_go s) r (lets_go-Steady s)).keeps m3 m' none k3 in
    within-Registered s m m4 m3 m' (pc ∙ pb ∙ pa) (λ b. ic b ∙ ib b ∙ ia b)
      (registers-Registered s got m4 m3 (k4 ∙ ap (λ x. ok (x, m3)) (sym same))) pd id

-- A new socket is installed with no error only at a descriptor that was no socket of the process. It
-- is that descriptor's socket from then on, and all else of the table stays, as do the inodes that
-- sockets name.
pub install_socket-Registered :
    {W : Type 0} (v : Memory W) (s flags : ℕ) (m m' : Machine W)
    → install_socket v s flags m ≡ ok (none, m')
    → Registered s m m'
unfolding install_socket
install_socket-Registered v s flags m m' h =
    let (live, m1, e1, k1) = bind-parts (holds s) (install_held v s flags) m m' none h in
    install_held-Registered v s flags live m m1 m' e1 k1

inode_at_lem :
    {W : Type 0} (s i : ℕ) (m m' : Machine W)
    → inode_at s m ≡ ok (i, m')
    → ((m.store.sock s).inode ≡ i) × (m' ≡ m)
unfolding inode_at
inode_at_lem s i m m' h = (cc, cc)

new_socket_lem :
    {W : Type 0} (t : Event) (i : ℕ) (f : Fd) (dst src : ℕ) (m m' : Machine W)
    → new_socket t i f m ≡ ok (dst, m')
    → ((m'.store.sock dst).inode ≡ i)
      × ((m.store.sock src).inode ≡ i → (m'.store.sock src).inode ≡ i)
      × (m'.proc.sockets ≡ m.proc.sockets)
unfolding new_socket
new_socket_lem t i f dst src m m' h = (ground arith, λ e. ground arith, cc)

-- Where a copy of a socket's descriptor is installed with no error, at a descriptor that was no socket
-- of the process, the new socket is of the same inode as the copied one.
pub dup_made-shares :
    {W : Type 0} (h : Host W) (src flags n : ℕ) (m m' : Machine W)
    → dup_made h src flags (opened n) m ≡ ok (none, m')
    → (target : ℕ) × (dst : ℕ) × (get target m.proc.sockets ≡ none)
      × (m'.proc.sockets ≡ (target, dst) ∷ m.proc.sockets)
      × ((m'.store.sock dst).inode ≡ (m'.store.sock src).inode)
unfolding dup_made
dup_made-shares h src flags n m m' e =
    let (i, m1, e1, k1) = bind-parts (inode_at src) _ m m' none e in
    let (t, m2, e2, k2) = bind-parts (fresh_template h) _ m1 m' none k1 in
    let (dst, m3, e3, k3) = bind-parts (new_socket t i (new_fd n)) _ m2 m' none k2 in
    let (r, m4, e4, k4) =
      bind-parts (install_socket h.memory dst flags) (after (lets_go dst)) m3 m' none k3 in
    let same = after-same (lets_go dst) r none m4 m' k4 in
    let (at, p1) = inode_at_lem src i m m1 e1 in
    let (pb, ib) = (fresh_template-Steady h).keeps m1 m2 t e2 in
    let (new_at, old_at, pc) = new_socket_lem t i (new_fd n) dst src m2 m3 e3 in
    let (target, free, put, kept) =
      install_socket-Registered h.memory dst flags m3 m4 (e4 ∙ ap (λ x. ok (x, m4)) (sym same)) in
    let (pd, id) = (after-Steady (lets_go dst) r (lets_go-Steady dst)).keeps m4 m' none k4 in
    let known : m3.proc.sockets ≡ m.proc.sockets =
      pc ∙ pb ∙ ap (λ (x : Machine _). x.proc.sockets) p1 in
    let src_then : (m2.store.sock src).inode ≡ i =
      ib src ∙ ap (λ (x : Machine _). (x.store.sock src).inode) p1 ∙ at in
    (
      target,
      dst,
      ap (get target) (sym known) ∙ free,
      pd ∙ put ∙ ap (λ xs. (target, dst) ∷ xs) known,
      id dst ∙ kept dst ∙ new_at ∙ sym (id src ∙ kept src ∙ old_at src_then),
    )
