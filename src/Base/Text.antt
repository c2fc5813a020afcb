-- ===== src/Base/Text.antt =====
-- Texts as lists of bytes: what the code uses of package strings.
use Prim.Native.Char.{code}
use Prim.Native.Nat.{ℕ, ◌+◌}
use Prim.Native.String.{String}
use mathlib.Core.Bool.{Bool, true, false, ◌&&◌, ◌||◌}
use mathlib.Core.List.{List, [], ◌∷◌}
use mathlib.Core.Option.{Option, none, some}
use subtrace_docker_wireshar.Base.Tests.{◌==◌, leb, if◌then◌else◌}

abbrev pub onto_first : ℕ → List (List ℕ) → List (List ℕ)
onto_first x [] = (x ∷ []) ∷ []
onto_first x (l ∷ ls) = (x ∷ l) ∷ ls

-- strings.Split at a byte.
unfoldable pub split : ℕ → List ℕ → List (List ℕ)
split c [] = [] ∷ []
split c (x ∷ xs) = let rest = split c xs in if x == c then [] ∷ rest else onto_first x rest

abbrev pub onto_key : ℕ → Option (List ℕ × List ℕ) → Option (List ℕ × List ℕ)
onto_key x none = none
onto_key x (some (k, v)) = some (x ∷ k, v)

-- strings.Cut at a byte.
unfoldable pub cut : ℕ → List ℕ → Option (List ℕ × List ℕ)
cut c [] = none
cut c (x ∷ xs) = let rest = cut c xs in if x == c then some ([], xs) else onto_key x rest

abbrev pub is_space : ℕ → Bool
is_space c = c == 32 || (leb 9 c && leb c 13)

unfoldable pub trim_left : List ℕ → List ℕ
trim_left [] = []
trim_left (x ∷ xs) = let rest = trim_left xs in if is_space x then rest else x ∷ xs

abbrev pub unless_blank : ℕ → List ℕ → List ℕ
unless_blank x [] = if is_space x then [] else x ∷ []
unless_blank x (y ∷ ys) = x ∷ y ∷ ys

unfoldable pub trim_right : List ℕ → List ℕ
trim_right [] = []
trim_right (x ∷ xs) = unless_blank x (trim_right xs)

-- strings.TrimSpace, on ASCII text.
unfoldable pub trim_space : List ℕ → List ℕ
trim_space xs = trim_right (trim_left xs)

-- The bytes of a literal.
abbrev pub codes : String → List ℕ
codes String.[] = []
codes (String.◌∷◌ c s) = code c ∷ codes s

-- == of strings.
unfoldable pub equal : List ℕ → List ℕ → Bool
equal [] [] = true
equal (x ∷ xs) (y ∷ ys) = let rest = equal xs ys in x == y && rest
equal _ _ = false

-- strings.ToLower, on ASCII text.
unfoldable pub to_lower : List ℕ → List ℕ
to_lower [] = []
to_lower (c ∷ cs) = (if leb 65 c && leb c 90 then c + 32 else c) ∷ to_lower cs

-- The switches of the environment that mean yes: 1, y, yes, t and true.
unfoldable pub says_yes : List ℕ → Bool
unfolding equal to_lower
says_yes val =
    let low = to_lower val in
    equal low (codes "1")
    || equal low (codes "y")
    || equal low (codes "yes")
    || equal low (codes "t")
    || equal low (codes "true")
