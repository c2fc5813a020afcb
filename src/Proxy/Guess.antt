-- ===== src/Proxy/Guess.antt =====
-- cmd/run/socket/proxy.go: guessProtocol. The order of the markers is sort.Slice's, of which the theorem
-- asks only that it has the same markers.
use subtrace_docker_wireshar.Base.{
  ℕ, ◌≡◌, ◌↔◌, refl, sym, subst, ◌∙◌, arith, Bool, true, false, ◌&&◌, Bool-cases, inl, inr, ◌⊎◌,
  List, [], ◌∷◌, length, drop, leb, ◌==◌, if◌then◌else◌,
}

pub data Protocol : Type 0 where
  http1 http2 tls unknown : Protocol

pub record Marker : Type 0 where
  pub name : Protocol
  pub skip : ℕ
  pub bytes : List ℕ

abbrev pub marker : Protocol → List ℕ → Marker
marker name bytes = record { name = name; skip = 0; bytes = bytes }

-- "GET ", "POST ", "HEAD ", "PUT ", "DELETE ", "PRI ", and the starts of two TLS records.
abbrev pub markers : List Marker
markers =
    marker http1 (71 ∷ 69 ∷ 84 ∷ 32 ∷ [])
    ∷ marker http1 (80 ∷ 79 ∷ 83 ∷ 84 ∷ 32 ∷ [])
    ∷ marker http1 (72 ∷ 69 ∷ 65 ∷ 68 ∷ 32 ∷ [])
    ∷ marker http1 (80 ∷ 85 ∷ 84 ∷ 32 ∷ [])
    ∷ marker http1 (68 ∷ 69 ∷ 76 ∷ 69 ∷ 84 ∷ 69 ∷ 32 ∷ [])
    ∷ marker http2 (80 ∷ 82 ∷ 73 ∷ 32 ∷ [])
    ∷ marker tls (22 ∷ 3 ∷ 1 ∷ [])
    ∷ marker tls (22 ∷ 3 ∷ 3 ∷ [])
    ∷ []

-- bytes.HasPrefix.
unfoldable pub has_prefix : List ℕ → List ℕ → Bool
has_prefix b [] = true
has_prefix [] (p ∷ prefix) = false
has_prefix (x ∷ b) (p ∷ prefix) = let rest = has_prefix b prefix in x == p && rest

unfoldable pub fits : List ℕ → Marker → Bool
unfolding has_prefix
fits sample m =
    if leb (length sample) m.skip then false else has_prefix (drop m.skip sample) m.bytes

-- The loop over the sorted markers.
unfoldable pub first_fit : List Marker → List ℕ → Protocol
unfolding fits
first_fit [] sample = unknown
first_fit (m ∷ rest) sample =
    let later = first_fit rest sample in if fits sample m then m.name else later

-- guessProtocol, with what sort.Slice makes of the markers.
unfoldable pub guess_protocol : (List Marker → List Marker) → List ℕ → Protocol
unfolding first_fit
guess_protocol sort sample = first_fit (sort markers) sample

-- The protocol by the first two bytes, which tell the markers' protocols apart.
abbrev by_two : ℕ → ℕ → Protocol
by_two x y = if x == 22 then tls else if x == 80 && y == 82 then http2 else http1

abbrev by_start : List ℕ → Protocol
by_start (x ∷ y ∷ rest) = by_two x y
by_start _ = unknown

-- A marker that fits a sample has the protocol of the sample's start.
Tells : Marker → Type 0
Tells m = (sample : List ℕ) → fits sample m ≡ true → m.name ≡ by_start sample

two-Tells : (p q : ℕ) (rest : List ℕ) → Tells (marker (by_two p q) (p ∷ q ∷ rest))
unfolding Tells fits has_prefix
two-Tells p q rest [] h = absurd (cc)
two-Tells p q rest (x ∷ []) h = absurd (ground (arith, h))
two-Tells p q rest (x ∷ y ∷ s) h = ground (arith, h)

abbrev pub Among : Marker → List Marker → Type 0
Among m [] = ⊥
Among m (x ∷ xs) = (m ≡ x) ⊎ Among m xs

markers-Tells : (m : Marker) → Among m markers → Tells m
markers-Tells m (inl e) = subst Tells (sym e) (two-Tells 71 69 (84 ∷ 32 ∷ []))
markers-Tells m (inr (inl e)) = subst Tells (sym e) (two-Tells 80 79 (83 ∷ 84 ∷ 32 ∷ []))
markers-Tells m (inr (inr (inl e))) = subst Tells (sym e) (two-Tells 72 69 (65 ∷ 68 ∷ 32 ∷ []))
markers-Tells m (inr (inr (inr (inl e)))) = subst Tells (sym e) (two-Tells 80 85 (84 ∷ 32 ∷ []))
markers-Tells m (inr (inr (inr (inr (inl e))))) =
    subst Tells (sym e) (two-Tells 68 69 (76 ∷ 69 ∷ 84 ∷ 69 ∷ 32 ∷ []))
markers-Tells m (inr (inr (inr (inr (inr (inl e)))))) =
    subst Tells (sym e) (two-Tells 80 82 (73 ∷ 32 ∷ []))
markers-Tells m (inr (inr (inr (inr (inr (inr (inl e))))))) =
    subst Tells (sym e) (two-Tells 22 3 (1 ∷ []))
markers-Tells m (inr (inr (inr (inr (inr (inr (inr (inl e)))))))) =
    subst Tells (sym e) (two-Tells 22 3 (3 ∷ []))
markers-Tells m (inr (inr (inr (inr (inr (inr (inr (inr h)))))))) = absurd h

-- The loop finds the protocol of the sample's start if a marker fits, and nothing if none does.
Finds : List Marker → List ℕ → Type 0
Finds ms sample =
    ((first_fit ms sample ≡ by_start sample) × ((m : Marker) × Among m ms × (fits sample m ≡ true)))
    ⊎ ((first_fit ms sample ≡ unknown) × ((m : Marker) → Among m ms → fits sample m ≡ false))

first_fit-Finds :
    (ms : List Marker) (sample : List ℕ) → ((m : Marker) → Among m ms → Tells m) → Finds ms sample
unfolding Finds Tells first_fit
first_fit-Finds [] sample t = inr (refl, λ m h. absurd h)
first_fit-Finds (m ∷ rest) sample t = elim (Bool-cases (fits sample m)) [
  | inl e ↦ inl (rw e (t m (inl refl) sample e), (m, inl refl, e))
  | inr e ↦ elim (first_fit-Finds rest sample (λ x h. t x (inr h))) [
    | inl (found, (x, at, f)) ↦ inl (rw e found, (x, inr at, f))
    | inr (lost, nobody) ↦ inr (
      rw e lost,
      λ x h. elim h [
        | inl same ↦ subst (λ y. fits sample y ≡ false) (sym same) e
        | inr at ↦ nobody x at
      ],
    )
  ]
]

-- The guess does not depend on the order of the markers, so the test by which sort.Slice orders them,
-- which compares positions that the sort itself changes, does no harm: any order of the same markers
-- gives the protocol of the first marker of the table that the sample starts with.
pub guess_protocol-order :
    (sort : List Marker → List Marker) (sample : List ℕ)
    → ((m : Marker) → Among m (sort markers) ↔ Among m markers)
    → guess_protocol sort sample ≡ first_fit markers sample
unfolding guess_protocol Finds
guess_protocol-order sort sample same =
    let sorted = first_fit-Finds (sort markers) sample (λ m h. markers-Tells m ((same m).0 h)) in
    let table = first_fit-Finds markers sample markers-Tells in
    elim sorted [
      | inl (found, (m, at, f)) ↦ elim table [
        | inl (there, rest) ↦ found ∙ sym there
        | inr (lost, nobody) ↦ absurd (ground (arith, f, nobody m ((same m).0 at)))
      ]
      | inr (lost, nobody) ↦ elim table [
        | inl (there, (m, at, f)) ↦ absurd (ground (arith, f, nobody m ((same m).1 at)))
        | inr (none_there, rest) ↦ lost ∙ sym none_there
      ]
    ]
