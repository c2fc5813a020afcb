-- ===== src/Fd/Safety.antt =====
-- What holds of an FD of cmd/run/fd/fd.go however its goroutines interleave.
use subtrace_docker_wireshar.Base.{
  ℕ, suc, ◌+◌, ◌<◌, ◌≡◌, ◌≢◌, ◌⊎◌, inl, inr, refl, subst, some_inj, sum_by-two, ◌∙◌, false, some,
  List, [], ◌∷◌, arith, length, get_elem?, sum_by, length-replicate, sum_by-replicate, sum_by-get,
  sum_by_pos,
}
use native.Mathlib.Decide.{dec_lt, ℕ_discrete}
use subtrace_docker_wireshar.Fd.Word.{max_refs, no_fd}
use subtrace_docker_wireshar.Fd.Threads.{
  Pc, idle, holding, waiting, has_lock, retiring, crashed, Action, System, step, run, start,
}
use subtrace_docker_wireshar.Fd.Invariant.{
  is_holding, is_backing_out, is_closer, is_waiting, is_locking, is_waking, is_retiring, Inv,
}
use subtrace_docker_wireshar.Fd.Moves.{step-Inv, crash_lem}

start-Inv : (fd n : ℕ) → Inv fd (start fd n)
unfolding start
start-Inv fd n = inl (record {
  counts = omega (arith, sum_by-replicate is_holding n idle refl);
  nobody_backs_out = omega (arith, sum_by-replicate is_backing_out n idle refl);
  nobody_closes = omega (arith, sum_by-replicate is_closer n idle refl);
  nobody_waits = omega (arith, sum_by-replicate is_waiting n idle refl);
  nobody_locks = omega (arith, sum_by-replicate is_locking n idle refl);
  nobody_wakes = omega (arith, sum_by-replicate is_waking n idle refl);
  nobody_retires = omega (arith, sum_by-replicate is_retiring n idle refl);
  sema_zero = refl;
  present = refl;
})

run-cons :
    (s : System) (i : ℕ) (a : Action) (rest : List (ℕ × Action)) {t : System}
    → run s ((i, a) ∷ rest) ≡ some t
    → (u : System) × (step s i a ≡ some u) × (run u rest ≡ some t)
unfolding run
run-cons s i a rest h = ground arith

run-Inv :
    {fd : ℕ}
    → fd < no_fd
    → (s : System) (moves : List (ℕ × Action)) (t : System) → suc (length s.threads) < max_refs
    → Inv fd s
    → run s moves ≡ some t
    → Inv fd t × (length t.threads ≡ length s.threads)
unfolding run
run-Inv {fd} real s [] t small v h =
    subst (λ u. Inv fd u × (length u.threads ≡ length s.threads)) (some_inj h) (v, refl)
run-Inv real s ((i, a) ∷ rest) t small v h =
    let (u, stepped, went) = run-cons s i a rest h in
    let (v', same) = step-Inv real s i a u small v stepped in
    let (w, same') = run-Inv real u rest t (omega (arith, same)) v' went in (w, same' ∙ same)

-- The program counters that will raise the semaphore, or drop a reference.
abbrev active : Pc → ℕ
active p = is_waking p + is_holding p + is_backing_out p

active_parts :
    (ps : List Pc)
    → sum_by active ps ≡ sum_by is_waking ps + sum_by is_holding ps + sum_by is_backing_out ps
active_parts [] = omega arith
active_parts (p ∷ ps) = omega (arith, active_parts ps)

-- A schedule of the goroutines on a new descriptor leads to this system.
abbrev pub Reached : ℕ → ℕ → System → Type 0
Reached fd n s = (moves : List (ℕ × Action)) × (run (start fd n) moves ≡ some s)

module _ (fd n : ℕ) (real : fd < no_fd) (small : n + 2 < max_refs) (s : System)
    (r : Reached fd n s) where
  reached : Inv fd s × (length s.threads ≡ length (start fd n).threads)
  unfolding start
  reached =
      run-Inv real (start fd n) r.0 s (omega (arith, length-replicate n idle)) (start-Inv fd n) r.1

  reached-Inv : Inv fd s
  reached-Inv = reached.0

  reached_small : suc (length s.threads) < max_refs
  unfolding start
  reached_small = omega (arith, length-replicate n idle, reached.1)

  -- Whatever the goroutines do, fewer of them than maxRefs - 2, one that has a reference, from IncRef or from ClosingIncRef, finds
  -- the descriptor's own number in the word: FD() does not panic and is not answered by -1.
  pub referenced-fd :
      (i : ℕ) (p : Pc)
      → get_elem? s.threads i ≡ some p
      → 0 < is_holding p + is_closer p
      → s.shared.fd ≡ fd
  referenced-fd i p e h = elim reached-Inv [
    | inl o ↦ o.present
    | inr c ↦ ground (
      arith,
      c.descriptor,
      c.gone_last,
      sum_by-get is_holding s.threads i p e,
      sum_by-get is_closer s.threads i p e,
    )
  ]

  -- Among fewer goroutines than maxRefs - 2: when one's Lock has returned, no other holds a reference from IncRef, and none has
  -- started to retire the descriptor.
  pub lock_excludes :
      (i j : ℕ) (p : Pc)
      → get_elem? s.threads i ≡ some has_lock
      → get_elem? s.threads j ≡ some p
      → (p ≢ holding) × (is_retiring p ≡ 0)
  lock_excludes i j p ei ej = elim reached-Inv [
    | inl o ↦ absurd (omega (arith, o.nobody_locks, sum_by-get is_locking s.threads i has_lock ei))
    | inr c ↦ (
      ground (
        arith,
        c.lock_last,
        sum_by-get is_locking s.threads i has_lock ei,
        sum_by-get is_holding s.threads j p ej,
      ),
      ground (
        arith,
        c.retire_last,
        sum_by-get is_closer s.threads i has_lock ei,
        sum_by-get is_retiring s.threads j p ej,
      ),
    )
  ]

  -- Among fewer goroutines than maxRefs - 2: one that waits in Lock is never forgotten: the semaphore is up, or some goroutine is
  -- about to raise it, holds a reference that it has still to drop, or is backing out of IncRef.
  pub waiting-wakes :
      (i : ℕ)
      → get_elem? s.threads i ≡ some waiting
      → (0 < s.shared.sema)
        ⊎ ((j : ℕ) × (p : Pc) × (get_elem? s.threads j ≡ some p)
            × (0 < is_waking p + is_holding p + is_backing_out p))
  waiting-wakes i e = elim reached-Inv [
    | inl o ↦ absurd (omega (arith, o.nobody_waits, sum_by-get is_waiting s.threads i waiting e))
    | inr c ↦
        let some_left = c.wake_comes (omega (arith, sum_by-get is_waiting s.threads i waiting e)) in
        elim (dec_lt 0 s.shared.sema) [
          | yes up ↦ inl up
          | no down ↦
              let (j, p, at_j, w) =
                sum_by_pos active s.threads (omega (arith, active_parts s.threads)) in
              inr (j, p, at_j, w)
        ]
  ]

  -- Among fewer goroutines than maxRefs - 2, at most one is between its ClosingIncRef and its DecRef.
  pub one_closer :
      (i j : ℕ) (p q : Pc)
      → get_elem? s.threads i ≡ some p
      → get_elem? s.threads j ≡ some q
      → is_closer p ≡ 1
      → is_closer q ≡ 1
      → i ≡ j
  one_closer i j p q ei ej hp hq = elim (ℕ_discrete i j) [
    | yes e ↦ e
    | no ne ↦
        let two = sum_by-two is_closer s.threads i j p q ei ej ne in
        elim reached-Inv [
          | inl o ↦ absurd (omega (arith, o.nobody_closes))
          | inr c ↦ absurd (omega (arith, c.one_closer))
        ]
  ]

  -- Among fewer goroutines than maxRefs - 2, a call panics only in one way: the decRef that was last to drop a reference of a closed
  -- descriptor, and was not the one inside IncRef, finds the descriptor gone already.
  pub crash_is_late_retire :
      (i : ℕ) (a : Action) (t : System)
      → step s i a ≡ some t
      → get_elem? t.threads i ≡ some crashed
      → (get_elem? s.threads i ≡ some (retiring false)) × (s.shared.fd ≡ no_fd)
  crash_is_late_retire i a t st late = crash_lem real s i a t reached_small reached-Inv st late
