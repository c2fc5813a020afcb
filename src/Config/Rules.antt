-- ===== src/Config/Rules.antt =====
-- What Load of config/config.go makes of the rules, and which of them GetMatchingFilter takes.
use mathlib.Core.List.{append_assoc, append-nil}
use subtrace_docker_wireshar.Base.{
  ℕ, ◌≡◌, refl, sym, ap, ◌∙◌, arith, Bool, true, false, Bool-cases, inl, inr, ◌↔◌, List, [], ◌∷◌,
  ◌++◌, map, some, Option-cases, All,
}
use subtrace_docker_wireshar.Config.{
  Filter, Language, action_of, new_filter, matches, get_matching_filter, valid_key, Parsed, decodes,
  Config, load_tags, load_rules, then_rules, load,
}

module _ {Entry : Type 0} where
  -- A filter with those before it, none of which matches.
  abbrev pub IsFirst : List (Filter Entry) → Filter Entry → Entry → Type 0
  IsFirst fs f entry =
      (before : List (Filter Entry)) × (after : List (Filter Entry)) × (fs ≡ before ++ f ∷ after)
      × All (λ g. g.eval entry ≡ some false) before
      × (f.eval entry ≡ some true)

  found-IsFirst :
      (fs : List (Filter Entry)) (f : Filter Entry) (entry : Entry)
      → get_matching_filter fs entry ≡ matches f
      → IsFirst fs f entry
  unfolding get_matching_filter
  found-IsFirst [] f entry h = cc
  found-IsFirst (g ∷ fs) f entry h = elim (Option-cases (g.eval entry)) [
    | inl e ↦ ground (arith, e, h)
    | inr (true, e) ↦
        let same : g ≡ f = ground (arith, e, h) in
        ([], fs, ap (λ x. x ∷ fs) same, tt, ap (λ x. x.eval entry) (sym same) ∙ e)
    | inr (false, e) ↦
        let (before, after, split, none_before, yes_here) =
          found-IsFirst fs f entry (ground (arith, e, h)) in
        (g ∷ before, after, ap (λ x. g ∷ x) split, (e, none_before), yes_here)
  ]

  first-found :
      (before after : List (Filter Entry)) (f : Filter Entry) (entry : Entry)
      → All (λ g. g.eval entry ≡ some false) before
      → f.eval entry ≡ some true
      → get_matching_filter (before ++ f ∷ after) entry ≡ matches f
  unfolding get_matching_filter
  first-found [] after f entry h e = rw e refl
  first-found (g ∷ before) after f entry h e = rw h.0 (first-found before after f entry h.1 e)

  -- GetMatchingFilter takes a filter exactly if it matches and every filter before it says no.
  pub get_matching_filter-IsFirst :
      (fs : List (Filter Entry)) (f : Filter Entry) (entry : Entry)
      → (get_matching_filter fs entry ≡ matches f) ↔ IsFirst fs f entry
  get_matching_filter-IsFirst fs f entry = (
    found-IsFirst fs f entry,
    λ (before, after, split, none_before, yes_here).
        rw split (first-found before after f entry none_before yes_here),
  )

  new_filter-action :
      (l : Language Entry) (expr then_text : List ℕ) (f : Filter Entry)
      → new_filter l expr then_text ≡ some f
      → action_of then_text ≡ some f.action
  unfolding new_filter
  new_filter-action l expr then_text f h = elim (Option-cases (action_of then_text)) [
    | inl e ↦ ground (arith, e, h)
    | inr (act, e) ↦ elim (Option-cases (l.compile expr)) [
      | inl c ↦ ground (arith, e, c, h)
      | inr (eval, c) ↦ ground (arith, e, c, h)
    ]
  ]

  -- The filters that a run of the rules adds.
  abbrev pub Added : List (List ℕ × List ℕ) → Config Entry → Config Entry → Type 0
  Added rules c c' =
      (fs : List (Filter Entry)) × (c'.filters ≡ c.filters ++ fs)
      × (map (λ f. some f.action) fs ≡ map (λ r. action_of r.1) rules)
      × (c'.template ≡ c.template)

  load_rules-Added :
      (l : Language Entry) (rules : List (List ℕ × List ℕ)) (c c' : Config Entry)
      → load_rules l rules c ≡ (true, c')
      → Added rules c c'
  unfolding load_rules
  load_rules-Added l [] c c' h =
      let same : c ≡ c' = ap (λ p. p.1) h in
      (
        [],
        rw (append-nil c.filters) (ap (λ x. x.filters) (sym same)),
        refl,
        ap (λ x. x.template) (sym same),
      )
  load_rules-Added l ((expr, then_text) ∷ rest) c c' h =
      elim (Option-cases (new_filter l expr then_text)) [
        | inl e ↦ ground (arith, e, h)
        | inr (f, e) ↦
            let c1 : Config Entry = record c { filters = c.filters ++ f ∷ [] } in
            let (fs, grown, actions, kept) = load_rules-Added l rest c1 c' (ground (arith, e, h)) in
            (
              f ∷ fs,
              grown ∙ append_assoc c.filters (f ∷ []) fs,
              cc (new_filter-action l expr then_text f e, actions),
              kept,
            )
      ]

  load_tags-valid :
      (tags : List (List ℕ × List ℕ)) (c c' : Config Entry)
      → load_tags tags c ≡ (true, c')
      → All (λ t. valid_key t.0 ≡ true) tags
        × (c'.template ≡ c.template ++ tags)
        × (c'.filters ≡ c.filters)
  unfolding load_tags
  load_tags-valid [] c c' h =
      let same : c ≡ c' = ap (λ p. p.1) h in
      (
        tt,
        rw (append-nil c.template) (ap (λ x. x.template) (sym same)),
        ap (λ x. x.filters) (sym same),
      )
  load_tags-valid ((key, val) ∷ rest) c c' h = elim (Bool-cases (valid_key key)) [
    | inr e ↦ ground (arith, e, h)
    | inl e ↦
        let c1 : Config Entry = record c { template = c.template ++ (key, val) ∷ [] } in
        let (valid, grown, kept) = load_tags-valid rest c1 c' (ground (arith, e, h)) in
        ((e, valid), grown ∙ append_assoc c.template ((key, val) ∷ []) rest, kept)
  ]

  -- Where Load of a file succeeds, every key of a tag is made of letters, digits and underscores and
  -- every tag has been set, in the order of the walk; there is one more filter for each rule, in order,
  -- with the action that the rule names, and each names one.
  pub load-succeeds :
      (l : Language Entry) (parsed : Parsed) (c c' : Config Entry)
      → load l (decodes true parsed) c ≡ (true, c')
      → All (λ t. valid_key t.0 ≡ true) parsed.tags
        × (c'.template ≡ c.template ++ parsed.tags)
        × ((fs : List (Filter Entry)) × (c'.filters ≡ c.filters ++ fs)
            × (map (λ f. some f.action) fs ≡ map (λ r. action_of r.1) parsed.rules))
  unfolding load
  load-succeeds l parsed c c' h =
      let c0 : Config Entry = record c { auth_credentials = parsed.auth_credentials } in
      after l parsed c0 c' (load_tags parsed.tags c0) refl h
    where
      after :
          (l : Language Entry) (parsed : Parsed) (c0 c' : Config Entry) (r : Bool × Config Entry)
          → load_tags parsed.tags c0 ≡ r
          → then_rules l parsed.rules r ≡ (true, c')
          → All (λ t. valid_key t.0 ≡ true) parsed.tags
            × (c'.template ≡ c0.template ++ parsed.tags)
            × ((fs : List (Filter Entry)) × (c'.filters ≡ c0.filters ++ fs)
                × (map (λ f. some f.action) fs ≡ map (λ r. action_of r.1) parsed.rules))
      after l parsed c0 c' (false, c1) e h = cc
      after l parsed c0 c' (true, c1) e h =
          let (valid, grown, kept) = load_tags-valid parsed.tags c0 c1 e in
          let (fs, more, actions, same) = load_rules-Added l parsed.rules c1 c' h in
          (valid, same ∙ grown, (fs, more ∙ ap (λ x. x ++ fs) kept, actions))
