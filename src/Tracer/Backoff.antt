-- ===== src/Tracer/Backoff.antt =====
-- tracer/publisher.go: how long dial waits between its attempts, in seconds. An attempt fails or
-- not, as the network has it; the wait is not cancelled.
use subtrace_docker_wireshar.Base.{
  ℕ, ◌+◌, ◌≤◌, ◌<◌, ◌≡◌, refl, arith, List, [], ◌∷◌, ◌++◌, ap, ◌∙◌, Bool, true, false, some, ltb,
  zero, suc, if◌then◌else◌, replicate, get_elem?, min, length,
}

-- The wait after a failure.
unfoldable pub next_backoff : ℕ → ℕ
next_backoff backoff = let longer = backoff + 1 in if ltb 10 longer then 10 else longer

-- The waits of dial, from the outcomes of its attempts; the first success ends them.
unfoldable pub waits : ℕ → List Bool → List ℕ
unfolding next_backoff
waits backoff [] = []
waits backoff (true ∷ outcomes) = []
waits backoff (false ∷ outcomes) = next_backoff backoff ∷ waits (next_backoff backoff) outcomes

-- Dial starts with no wait behind it.
unfoldable pub dial_waits : List Bool → List ℕ
unfolding waits
dial_waits outcomes = waits 0 outcomes

waits-get :
    (b n i : ℕ) (rest : List Bool)
    → b ≤ 10
    → i < n
    → get_elem? (waits b (replicate n false ++ rest)) i ≡ some (min (b + i + 1) 10)
unfolding waits
waits-get b zero i rest h k = absurd (omega arith)
waits-get b (suc n) zero rest h k = ground arith
waits-get b (suc n) (suc i) rest h k =
    waits-get (next_backoff b) n i rest (ground arith) (omega arith) ∙ ground arith

-- The wait after the i-th failed attempt in a row, from zero, is i + 1 seconds, and never more than
-- ten.
pub dial_waits-get :
    (n i : ℕ) (rest : List Bool)
    → i < n
    → get_elem? (dial_waits (replicate n false ++ rest)) i ≡ some (min (i + 1) 10)
unfolding dial_waits
dial_waits-get n i rest h = waits-get 0 n i rest (omega arith) h ∙ ground arith

waited : (b n : ℕ) (rest : List Bool) → length (waits b (replicate n false ++ true ∷ rest)) ≡ n
unfolding waits
waited b zero rest = refl
waited b (suc n) rest = ap suc (waited (next_backoff b) n rest)

-- A success ends the waits: there is one for each failure before it.
pub dial_waits-success :
    (n : ℕ) (rest : List Bool) → length (dial_waits (replicate n false ++ true ∷ rest)) ≡ n
unfolding dial_waits
dial_waits-success n rest = waited 0 n rest
