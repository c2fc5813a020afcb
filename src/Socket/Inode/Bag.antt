-- ===== src/Socket/Inode/Bag.antt =====
-- The open sockets of an inode as a bag: cmd/run/socket/inode.go, add and remove.
use subtrace_docker_wireshar.Base.{
  ℕ, zero, suc, ◌+◌, ◌-◌, ◌<◌, ◌≡◌, ◌≢◌, refl, sym, ap, ◌∙◌, arith, false, List, [], ◌∷◌, ◌++◌,
  none, some, ok, panic, length, get_elem?, set, take, ◌==◌, ltb, if◌then◌else◌, sum_by, sum_by-set,
  get_elem?-set_ne, get_elem?-set_self, length-set, length-take, Option-cases, inl, inr, lt→ltb,
  le→not-ltb, length-append,
}
use native.Mathlib.Decide.{dec_lt}
use subtrace_docker_wireshar.Socket.Inode.{add, find, swap, remove}

find-some :
    (s : ℕ) (xs : List ℕ) (i : ℕ) → find s xs ≡ some i → (get_elem? xs i ≡ some s) × (i < length xs)
unfolding find
find-some s [] i h = absurd (cc)
find-some s (x ∷ xs) zero h = ground arith
find-some s (x ∷ xs) (suc i) h = ground (arith, find-some s xs i)

find-none : (s : ℕ) (xs : List ℕ) (i : ℕ) → get_elem? xs i ≡ some s → find s xs ≢ none
unfolding find
find-none s [] i h k = absurd (cc)
find-none s (x ∷ xs) zero h k = ground arith
find-none s (x ∷ xs) (suc i) h k = ground (arith, find-none s xs i h)

sum_by-append : (w : ℕ → ℕ) (xs ys : List ℕ) → sum_by w (xs ++ ys) ≡ sum_by w xs + sum_by w ys
sum_by-append w [] ys = omega arith
sum_by-append w (x ∷ xs) ys = omega (arith, sum_by-append w xs ys)

sum_by-take_last :
    (w : ℕ → ℕ) (n : ℕ) (xs : List ℕ) (v : ℕ)
    → length xs ≡ suc n
    → get_elem? xs n ≡ some v
    → sum_by w xs ≡ sum_by w (take n xs) + w v
sum_by-take_last w n [] v h k = absurd (omega arith)
sum_by-take_last w zero (x ∷ []) v h k = ground arith
sum_by-take_last w zero (x ∷ y ∷ xs) v h k = absurd (omega arith)
sum_by-take_last w (suc n) (x ∷ xs) v h k = omega (arith, sum_by-take_last w n xs v (omega arith) k)

get_elem?_within : (xs : List ℕ) (n : ℕ) → n < length xs → (v : ℕ) × (get_elem? xs n ≡ some v)
get_elem?_within [] n h = absurd (omega arith)
get_elem?_within (x ∷ xs) zero h = (x, refl)
get_elem?_within (x ∷ xs) (suc n) h = get_elem?_within xs n (omega arith)

swap-some :
    (i j : ℕ) (xs : List ℕ) (a b : ℕ)
    → get_elem? xs i ≡ some a
    → get_elem? xs j ≡ some b
    → swap i j xs ≡ set (set xs i b) j a
unfolding swap
swap-some i j xs a b h k = rw (h, k) refl

swapped_out :
    (w : ℕ → ℕ) (xs : List ℕ) (i n s b : ℕ)
    → get_elem? xs i ≡ some s
    → get_elem? xs n ≡ some b
    → i < n
    → length xs ≡ suc n
    → sum_by w xs ≡ w s + sum_by w (take n (set (set xs i b) n s))
swapped_out w xs i n s b hi hn lt len =
    let zs : List ℕ = set xs i b in
    let at : get_elem? zs n ≡ some b = get_elem?-set_ne xs i n b (λ e. omega (arith, e)) ∙ hn in
    let len2 : length (set zs n s) ≡ suc n = length-set zs n s ∙ length-set xs i b ∙ len in
    omega (
      arith,
      sum_by-set w xs i s b hi,
      sum_by-set w zs n b s at,
      sum_by-take_last w n (set zs n s) s len2 (get_elem?-set_self zs n b s at),
    )

-- What remove leaves of a list that has the socket, for a weight of the sockets.
abbrev pub Removes : ℕ → List ℕ → List ℕ → Type 0
Removes s xs ys =
    (remove s xs ≡ ok (length xs == 1, ys))
    × (suc (length ys) ≡ length xs)
    × ((w : ℕ → ℕ) → sum_by w xs ≡ w s + sum_by w ys)

remove-only : (s x : ℕ) (i : ℕ) → get_elem? (x ∷ []) i ≡ some s → Removes s (x ∷ []) []
unfolding remove
remove-only s x zero h = (ground arith, refl, λ w. ground arith)
remove-only s x (suc i) h = absurd (cc)

not_one : (n : ℕ) → (suc (suc n) == 1) ≡ false
not_one n = ground arith

pred_suc : (n : ℕ) → suc (suc n) - 1 ≡ suc n
pred_suc n = omega arith

remove-take :
    (s : ℕ) (xs : List ℕ) (i n : ℕ)
    → find s xs ≡ some i
    → length xs ≡ suc (suc n)
    → remove s xs ≡ ok (false, take (suc n) (if ltb i (suc n) then swap i (suc n) xs else xs))
unfolding remove
remove-take s xs i n h len = rw (h, len, not_one n, pred_suc n) refl

remove-swapped :
    (s : ℕ) (xs : List ℕ) (i n b : ℕ)
    → find s xs ≡ some i
    → length xs ≡ suc (suc n)
    → get_elem? xs i ≡ some s
    → get_elem? xs (suc n) ≡ some b
    → i < suc n
    → Removes s xs (take (suc n) (set (set xs i b) (suc n) s))
remove-swapped s xs i n b h len hi hb lt = (
  remove-take s xs i n h len
      ∙ rw (lt→ltb i (suc n) lt, swap-some i (suc n) xs s b hi hb, len, not_one n) refl,
  omega (
    arith,
    len,
    length-take (suc n) (set (set xs i b) (suc n) s),
    length-set (set xs i b) (suc n) s,
    length-set xs i b,
  ),
  λ w. swapped_out w xs i (suc n) s b hi hb lt len,
)

remove-end :
    (s : ℕ) (xs : List ℕ) (n : ℕ)
    → find s xs ≡ some (suc n)
    → length xs ≡ suc (suc n)
    → get_elem? xs (suc n) ≡ some s
    → Removes s xs (take (suc n) xs)
remove-end s xs n h len hi = (
  remove-take s xs (suc n) n h len
      ∙ rw (le→not-ltb (suc n) (suc n) (omega arith), len, not_one n) refl,
  omega (arith, len, length-take (suc n) xs),
  λ w. omega (arith, sum_by-take_last w (suc n) xs s len hi),
)

remove-found :
    (s : ℕ) (xs : List ℕ) (i n : ℕ)
    → find s xs ≡ some i
    → length xs ≡ suc (suc n)
    → (ys : List ℕ) × Removes s xs ys
remove-found s xs i n h len =
    let (hi, lt) = find-some s xs i h in
    elim (dec_lt i (suc n)) [
      | yes p ↦
          let (b, hn) = get_elem?_within xs (suc n) (omega arith) in
          (take (suc n) (set (set xs i b) (suc n) s), remove-swapped s xs i n b h len hi hn p)
      | no p ↦
          let at : i ≡ suc n = omega (arith, p, lt, len) in
          (
            take (suc n) xs,
            remove-end s xs n (h ∙ ap some at) len (ap (get_elem? xs) (sym at) ∙ hi),
          )
    ]

-- Removing a socket that is open takes that one socket away and no other, whatever its place: for
-- every weight of sockets, what stays and the socket together weigh as much as before. It says
-- `last` exactly where the list had one socket, and then none stays.
pub remove_lem :
    (s : ℕ) (xs : List ℕ) (i : ℕ) → get_elem? xs i ≡ some s → (ys : List ℕ) × Removes s xs ys
remove_lem s [] i h = absurd (cc)
remove_lem s (x ∷ []) i h = ([], remove-only s x i h)
remove_lem s (x ∷ y ∷ xs) i h = elim (Option-cases (find s (x ∷ y ∷ xs))) [
  | inl none_found ↦ absurd (find-none s (x ∷ y ∷ xs) i h none_found)
  | inr (j, e) ↦ remove-found s (x ∷ y ∷ xs) j (length xs) e refl
]

-- Removing a socket that is not open is a panic.
pub remove-missing :
    (s : ℕ) (xs : List ℕ) → ((i : ℕ) → get_elem? xs i ≢ some s) → remove s xs ≡ panic
unfolding remove
remove-missing s [] h = refl
remove-missing s (x ∷ []) h = ground (arith, h 0)
remove-missing s (x ∷ y ∷ xs) h = elim (Option-cases (find s (x ∷ y ∷ xs))) [
  | inl e ↦ rw (e, not_one (length xs)) refl
  | inr (j, e) ↦ absurd (h j (find-some s (x ∷ y ∷ xs) j e).0)
]

-- add puts the one socket in.
sum_by-add : (w : ℕ → ℕ) (s : ℕ) (xs : List ℕ) → sum_by w (add s xs) ≡ sum_by w xs + w s
unfolding add
sum_by-add w s xs = omega (arith, sum_by-append w xs (s ∷ []))

at_end : (xs : List ℕ) (s : ℕ) → get_elem? (xs ++ s ∷ []) (length xs) ≡ some s
at_end [] s = refl
at_end (x ∷ xs) s = at_end xs s

-- A socket that is added to an inode and removed again leaves the sockets that were open before, in
-- some order: every weight of sockets is as it was.
pub remove-add :
    (s : ℕ) (xs : List ℕ)
    → (ys : List ℕ) × (remove s (add s xs) ≡ ok (length xs == 0, ys))
      × ((w : ℕ → ℕ) → sum_by w ys ≡ sum_by w xs)
unfolding add
remove-add s xs =
    let (ys, (e, k, h)) = remove_lem s (xs ++ s ∷ []) (length xs) (at_end xs s) in
    (
      ys,
      e ∙ ap (λ b. ok (b, ys)) (ground (arith, length-append xs (s ∷ []))),
      λ w. omega (arith, h w, sum_by-append w xs (s ∷ [])),
    )
