-- ===== src/Process/Rules.antt =====
-- Rules on what the calls of cmd/run/engine/process/handle.go do to their notification: `Silent` calls
-- ask the kernel nothing about it, and `Answers` ones answer it where they report no error.
use subtrace_docker_wireshar.Base.{
  ◌≤◌, ◌≡◌, refl, sym, subst, ◌∙◌, arith, Bool, true, false, [], length, Option, none, some, Run,
  ok, panic, Failure, if◌then◌else◌,
}
use subtrace_docker_wireshar.Seccomp.Notif.{received, replied}
use subtrace_docker_wireshar.Process.Machine.{Machine, Act, pure, crash, bind_run, ◌>>=◌, ask}

module _ {W A : Type 0} where
  pub record Silent (act : Act W A) : Type 0 where
    pub keeps :
        (m m' : Machine W) (a : A)
        → act m ≡ ok (a, m')
        → (m'.notif.state ≡ m.notif.state) × (m'.notif.asked ≡ m.notif.asked)

  -- `err` is the error in a result.
  pub record Answers (err : A → Option Failure) (act : Act W A) : Type 0 where
    pub answers :
        (m m' : Machine W) (a : A)
        → m.notif.state ≡ received
        → m.notif.asked ≡ []
        → act m ≡ ok (a, m')
        → (err a ≡ none → (m'.notif.state ≡ replied) × (length m'.notif.asked ≡ 1))
          × (length m'.notif.asked ≤ 1)

abbrev pub itself : Option Failure → Option Failure
itself e = e

module _ {W A B : Type 0} where
  bind_run-parts :
      (r : Run (A × Machine W)) (f : A → Act W B) (m'' : Machine W) (b : B)
      → bind_run r f ≡ ok (b, m'')
      → (a : A) × (m' : Machine W) × (r ≡ ok (a, m')) × (f a m' ≡ ok (b, m''))
  bind_run-parts (ok (a, m')) f m'' b h = (a, m', refl, h)
  bind_run-parts panic f m'' b h = absurd (cc)

  pub bind-parts :
      (act : Act W A) (f : A → Act W B) (m m'' : Machine W) (b : B)
      → (act >>= f) m ≡ ok (b, m'')
      → (a : A) × (m' : Machine W) × (act m ≡ ok (a, m')) × (f a m' ≡ ok (b, m''))
  unfolding ◌>>=◌
  bind-parts act f m m'' b h = bind_run-parts (act m) f m'' b h

  pub bind-Silent :
      {act : Act W A} {f : A → Act W B} → Silent act → ((a : A) → Silent (f a)) → Silent (act >>= f)
  bind-Silent {act} {f} s t = record {
    keeps = λ m m'' b h.
        let (a, m', e, k) = bind-parts act f m m'' b h in
        let (s1, a1) = s.keeps m m' a e in
        let (s2, a2) = (t a).keeps m' m'' b k in (s2 ∙ s1, a2 ∙ a1);
  }

  pub bind-Answers :
      {err : B → Option Failure} {act : Act W A} {f : A → Act W B}
      → Silent act
      → ((a : A) → Answers err (f a))
      → Answers err (act >>= f)
  bind-Answers {err} {act} {f} s t = record {
    answers = λ m m'' b fresh empty h.
        let (a, m', e, k) = bind-parts act f m m'' b h in
        let (s1, a1) = s.keeps m m' a e in (t a).answers m' m'' b (s1 ∙ fresh) (a1 ∙ empty) k;
  }

  -- What follows an answer leaves it alone and reports no error only where the answer did not.
  pub answered-Answers :
      {err : A → Option Failure} {err' : B → Option Failure} {act : Act W A} {f : A → Act W B}
      → Answers err act
      → ((a : A) → Silent (f a))
      → ((a : A) (m m' : Machine W) (b : B) → f a m ≡ ok (b, m') → err' b ≡ none → err a ≡ none)
      → Answers err' (act >>= f)
  answered-Answers {err} {err'} {act} {f} s t back = record {
    answers = λ m m'' b fresh empty h.
        let (a, m', e, k) = bind-parts act f m m'' b h in
        let (yes_none, few) = s.answers m m' a fresh empty e in
        let (s2, a2) = (t a).keeps m' m'' b k in
        (
          λ n.
              let (at, one) = yes_none (back a m' m'' b k n) in
              (s2 ∙ at, subst (λ xs. length xs ≡ 1) (sym a2) one),
          subst (λ xs. length xs ≤ 1) (sym a2) few,
        );
  }

module _ {W A : Type 0} where
  pub pure-Silent : (a : A) → Silent {W = W} (pure a)
  pure-Silent a = record { keeps = λ m m' b h. (cc, cc) }

  pub crash-Silent : Silent {W = W} {A = A} crash
  crash-Silent = record { keeps = λ m m' b h. absurd (cc) }

  pub ask-Silent : (f : W → A × W) → Silent (ask f)
  unfolding ask
  ask-Silent f = record { keeps = λ m m' b h. (cc, cc) }

  pub if-Silent : (c : Bool) {x y : Act W A} → Silent x → Silent y → Silent (if c then x else y)
  if-Silent true s t = s
  if-Silent false s t = t

  pub if-Answers :
      {err : A → Option Failure} (c : Bool) {x y : Act W A}
      → Answers err x
      → Answers err y
      → Answers err (if c then x else y)
  if-Answers true s t = s
  if-Answers false s t = t

module _ {W : Type 0} where
  -- A call that reports an error need not answer.
  pub failure-Answers : (e : Failure) → Answers {W = W} itself (pure (some e))
  failure-Answers e = record { answers = λ m m' b fresh empty h. (λ n. absurd (cc), ground arith) }
