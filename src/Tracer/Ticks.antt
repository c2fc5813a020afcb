-- ===== src/Tracer/Ticks.antt =====
-- tracer/manager.go: the ticks of StartBackgroundFlush and its back-off, in seconds. Whether a Flush
-- fails is an argument.
use subtrace_docker_wireshar.Base.{
  ℕ, ◌+◌, ◌-◌, ◌*◌, ◌≤◌, ◌≡◌, refl, arith, Bool, true, false, List, [], ◌∷◌, ltb, leb,
  if◌then◌else◌, map,
}

abbrev pub period : ℕ
period = 5

-- The back-off after a Flush failed.
unfoldable pub longer : ℕ → ℕ
longer backoff =
    let next = if ltb backoff period then backoff + 1 else backoff * 2 in
    if ltb 60 next then 60 else next

-- A tick: whether it flushes, and the back-off after it.
unfoldable pub tick : Bool → ℕ → Bool × ℕ
unfolding longer
tick fails backoff =
    if leb period backoff then (false, backoff - period) else (true, if fails then longer 0 else 0)

-- Whether each tick flushes.
unfoldable pub ticks : ℕ → List Bool → List Bool
unfolding tick
ticks backoff [] = []
ticks backoff (fails ∷ rest) = let (flushes, next) = tick fails backoff in flushes ∷ ticks next rest

ticks_short :
    (outcomes : List Bool) (backoff : ℕ)
    → backoff ≤ 1
    → ticks backoff outcomes ≡ map (λ _. true) outcomes
unfolding ticks tick longer
ticks_short [] backoff h = refl
ticks_short (true ∷ rest) backoff h = ground (arith, ticks_short rest 1)
ticks_short (false ∷ rest) backoff h = ground (arith, ticks_short rest 0)

-- However often the flushes fail, every tick of the background flush flushes: the back-off is set back
-- to zero before each Flush, so it stays below the period and no tick is ever skipped.
pub ticks-always : (outcomes : List Bool) → ticks 0 outcomes ≡ map (λ _. true) outcomes
ticks-always outcomes = ticks_short outcomes 0 (omega arith)
