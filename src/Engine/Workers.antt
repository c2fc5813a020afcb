-- ===== src/Engine/Workers.antt =====
-- cmd/run/engine/engine.go: the workers of Start and the safe mode that they enter after a panic, step
-- by step in any order.
use subtrace_docker_wireshar.Base.{
  ℕ, zero, suc, ◌+◌, ◌≡◌, refl, ◌∙◌, arith, Bool, true, List, [], ◌∷◌, ◌++◌, Option, none, some,
  if◌then◌else◌, sum_by, Option-cases, inl, inr, ◌⊎◌,
}

-- The workers of Start. `queue` and `failed` are the two channels, `pending` the notifications that
-- workers hold, and `done` and `skipped` those that were handled and those that safe mode skipped.
pub record Pool : Type 0 where
  pub queue : List ℕ
  pub failed : List ℕ
  pub pending : List ℕ
  pub done : List ℕ
  pub skipped : List ℕ
  pub in_panic : Bool

-- The steps of workers and of the two drains that the first worker to panic starts.
pub data Step : Type 0 where
  -- a worker takes the next notification; one that sees the panic quits with it
  takes : Step
  -- the worker with the i-th pending notification returns from handle, or panics in it
  returns panics : ℕ → Step
  drains_main drains_failed : Step

abbrev pub pick : ℕ → List ℕ → Option (ℕ × List ℕ)
pick i [] = none
pick zero (x ∷ xs) = some (x, xs)
pick (suc i) (x ∷ xs) = elim (pick i xs) [ none ↦ none | some (y, ys) ↦ some (y, x ∷ ys) ]

unfoldable pub step : Step → Pool → Option Pool
step takes p = elim p.queue [
  | [] ↦ none
  | n ∷ rest ↦ some (
      if p.in_panic
      then record p { queue = rest; failed = p.failed ++ n ∷ [] }
      else record p { queue = rest; pending = n ∷ p.pending })
]
step (returns i) p = elim (pick i p.pending) [
  | none ↦ none
  | some (n, others) ↦ some (record p { pending = others; done = n ∷ p.done })
]
step (panics i) p = elim (pick i p.pending) [
  | none ↦ none
  | some (n, others) ↦
      some (record p { pending = others; failed = p.failed ++ n ∷ []; in_panic = true })
]
step drains_main p = elim p.queue [
  | [] ↦ none
  | n ∷ rest ↦
      if p.in_panic then some (record p { queue = rest; skipped = n ∷ p.skipped }) else none
]
step drains_failed p = elim p.failed [
  | [] ↦ none
  | n ∷ rest ↦
      if p.in_panic then some (record p { failed = rest; skipped = n ∷ p.skipped }) else none
]

unfoldable pub steps : List Step → Pool → Option Pool
unfolding step
steps [] p = some p
steps (s ∷ rest) p = elim (step s p) [ none ↦ none | some p' ↦ steps rest p' ]

-- How much of a weight the pool has, wherever its notifications are.
abbrev pub weight : (ℕ → ℕ) → Pool → ℕ
weight f p =
    sum_by f p.queue + sum_by f p.failed + sum_by f p.pending + sum_by f p.done + sum_by f p.skipped

List-cases : (xs : List ℕ) → (xs ≡ []) ⊎ ((x : ℕ) × (rest : List ℕ) × (xs ≡ x ∷ rest))
List-cases [] = inl refl
List-cases (x ∷ xs) = inr (x, xs, refl)

sum_by-append : (f : ℕ → ℕ) (xs : List ℕ) (x : ℕ) → sum_by f (xs ++ x ∷ []) ≡ sum_by f xs + f x
sum_by-append f [] x = omega arith
sum_by-append f (y ∷ xs) x = omega (arith, sum_by-append f xs x)

sum_by-pick :
    (f : ℕ → ℕ) (i x : ℕ) (xs ys : List ℕ)
    → pick i xs ≡ some (x, ys)
    → sum_by f xs ≡ f x + sum_by f ys
sum_by-pick f i x [] ys h = absurd (cc)
sum_by-pick f zero x (a ∷ xs) ys h = ground arith
sum_by-pick f (suc i) x (a ∷ xs) ys h = elim (Option-cases (pick i xs)) [
  | inl n ↦ absurd (ground (arith, h, n))
  | inr ((y, zs), s) ↦ ground (arith, h, s, sum_by-pick f i y xs zs s)
]

step-weight : (f : ℕ → ℕ) (s : Step) (p q : Pool) → step s p ≡ some q → weight f q ≡ weight f p
unfolding step
step-weight f takes p q h = elim (List-cases p.queue) [
  | inl n ↦ absurd (ground (arith, h, n))
  | inr (x, rest, c) ↦ ground (arith, h, c, sum_by-append f p.failed x)
]
step-weight f (returns i) p q h = elim (Option-cases (pick i p.pending)) [
  | inl n ↦ absurd (ground (arith, h, n))
  | inr ((x, rest), c) ↦ ground (arith, h, c, sum_by-pick f i x p.pending rest c)
]
step-weight f (panics i) p q h = elim (Option-cases (pick i p.pending)) [
  | inl n ↦ absurd (ground (arith, h, n))
  | inr ((x, rest), c) ↦
      ground (arith, h, c, sum_by-pick f i x p.pending rest c, sum_by-append f p.failed x)
]
step-weight f drains_main p q h = ground arith
step-weight f drains_failed p q h = ground arith

-- No notification is lost or taken twice: whatever order workers take, handle and panic in, and the
-- drains of safe mode skip in, the notifications in the two channels, held, handled and skipped are
-- together the ones before, each as often, so weights of any kind have the same sum.
pub steps-weight :
    (f : ℕ → ℕ) (run : List Step) (p q : Pool) → steps run p ≡ some q → weight f q ≡ weight f p
unfolding steps
steps-weight f [] p q h = ground arith
steps-weight f (s ∷ rest) p q h = elim (Option-cases (step s p)) [
  | inl n ↦ absurd (ground (arith, h, n))
  | inr (p', c) ↦ steps-weight f rest p' q (ground (arith, h, c)) ∙ step-weight f s p p' c
]
