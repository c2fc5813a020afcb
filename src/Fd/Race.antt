-- ===== src/Fd/Race.antt =====
-- Where cmd/run/fd/fd.go panics: decRef drops the count and retires the descriptor in two atomic
-- operations, and an IncRef can come in between.
use subtrace_docker_wireshar.Base.{
  ℕ, ◌≡◌, ◌≢◌, refl, false, some, List, [], ◌∷◌, arith, get_elem?, set, ◌+◌, ap, ◌∙◌,
  get_elem?-set_self, get_elem?-set_ne, true,
}
use subtrace_docker_wireshar.Fd.Word.{flag_closed, no_fd}
use subtrace_docker_wireshar.Fd.Calls.{Fd}
use subtrace_docker_wireshar.Fd.Threads.{
  Pc, idle, backing_out, retiring, crashed, Action, inc_ref, dec_ref, retire, System, act, step,
  run,
}

-- Goroutine `j` runs a whole IncRef on a closed word, and goroutine `i` then retires the descriptor.
abbrev pub late_inc_ref : ℕ → ℕ → List (ℕ × Action)
late_inc_ref i j = (j, inc_ref) ∷ (j, dec_ref) ∷ (j, retire) ∷ (i, retire) ∷ []

step_lem :
    (s : System) (i : ℕ) (a : Action) (p q : Pc) (f : Fd)
    → get_elem? s.threads i ≡ some p
    → act p a s.shared ≡ some (f, q)
    → step s i a ≡ some (record { shared = f; threads = set s.threads i q })
unfolding step
step_lem s i a p q f e h = ground arith

run-cons_lem :
    (s t : System) (i : ℕ) (a : Action) (rest : List (ℕ × Action))
    → step s i a ≡ some t
    → run s ((i, a) ∷ rest) ≡ run t rest
unfolding run
run-cons_lem s t i a rest h = ground arith

-- Where goroutine `i` has dropped the last reference of a closed descriptor and has still to retire
-- it, and an idle goroutine `j` runs a whole IncRef first, the schedule `late_inc_ref` goes through
-- and `i` panics.
pub late_inc_ref-crashes :
    (s : System) (i j : ℕ)
    → s.shared.refs ≡ flag_closed
    → get_elem? s.threads i ≡ some (retiring false)
    → get_elem? s.threads j ≡ some idle
    → (t : System) × (run s (late_inc_ref i j) ≡ some t) × (get_elem? t.threads i ≡ some crashed)
unfolding act run
late_inc_ref-crashes s i j closed ei ej =
    let ps1 = set s.threads j backing_out in
    let ps2 = set ps1 j (retiring true) in
    let ps3 = set ps2 j idle in
    let apart : j ≢ i = λ e. ground (arith, ap (get_elem? s.threads) e) in
    let f1 = record s.shared { refs = flag_closed + 1 } in
    let f2 = record s.shared { refs = flag_closed } in
    let f3 = record f2 { fd = no_fd } in
    let e1 = get_elem?-set_self s.threads j idle backing_out ej in
    let e2 = get_elem?-set_self ps1 j backing_out (retiring true) e1 in
    let kept : get_elem? ps3 i ≡ some (retiring false) =
      get_elem?-set_ne ps2 j i idle apart
      ∙ get_elem?-set_ne ps1 j i (retiring true) apart
      ∙ get_elem?-set_ne s.threads j i backing_out apart
      ∙ ei in
    let s1 : System = record { shared = f1; threads = ps1 } in
    let s2 : System = record { shared = f2; threads = ps2 } in
    let s3 : System = record { shared = f3; threads = ps3 } in
    let s4 : System = record { shared = f3; threads = set ps3 i crashed } in
    (
      s4,
      run-cons_lem s s1 j inc_ref ((j, dec_ref) ∷ (j, retire) ∷ (i, retire) ∷ [])
            (step_lem s j inc_ref idle backing_out f1 ej (ground arith))
          ∙ run-cons_lem s1 s2 j dec_ref ((j, retire) ∷ (i, retire) ∷ [])
              (step_lem s1 j dec_ref backing_out (retiring true) f2 e1 refl)
          ∙ run-cons_lem s2 s3 j retire ((i, retire) ∷ [])
              (step_lem s2 j retire (retiring true) idle f3 e2 (ground arith))
          ∙ run-cons_lem s3 s4 i retire []
              (step_lem s3 i retire (retiring false) crashed f3 kept refl),
      get_elem?-set_self ps3 i (retiring false) crashed kept,
    )
