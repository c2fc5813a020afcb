-- ===== src/Worker/Columns.antt =====
-- cmd/worker/worker.go: handleInsert's search for the columns of the events, by the expression
-- [a-zA-Z0-9_]+= of package regexp.
use subtrace_docker_wireshar.Base.{
  ℕ, ◌≡◌, refl, sym, arith, Bool, true, false, ◌&&◌, ◌||◌, not, Bool-cases, inl, inr, List, [], ◌∷◌,
  ◌++◌, leb, ◌==◌, if◌then◌else◌,
}
use subtrace_docker_wireshar.Base.Text.{equal}

abbrev pub Bytes : Type 0
Bytes = List ℕ

abbrev pub is_word : ℕ → Bool
is_word c = (leb 97 c && leb c 122) || (leb 65 c && leb c 90) || (leb 48 c && leb c 57) || (c == 95)

abbrev pub is_empty : Bytes → Bool
is_empty [] = true
is_empty (c ∷ cs) = false

-- The matches of FindAllString, each without its last byte. A match is a longest run of word
-- characters, and a '=' behind it.
unfoldable pub find_all : Bytes → Bytes → List Bytes
find_all run [] = []
find_all run (c ∷ cs) =
    let rest = find_all (if is_word c then run ++ c ∷ [] else []) cs in
    if (c == 61) && not (is_empty run) then run ∷ rest else rest

-- seen[column] = true, on the keys in the order in which they came.
unfoldable pub contains : Bytes → List Bytes → Bool
unfolding equal
contains column [] = false
contains column (c ∷ cs) = equal c column || contains column cs

abbrev pub mark : Bytes → List Bytes → List Bytes
mark column seen = if contains column seen then seen else seen ++ column ∷ []

unfoldable pub mark_all : List Bytes → List Bytes → List Bytes
unfolding contains
mark_all [] seen = seen
mark_all (column ∷ rest) seen = mark_all rest (mark column seen)

unfoldable pub seen_columns : List Bytes → List Bytes → List Bytes
unfolding find_all mark_all
seen_columns [] seen = seen
seen_columns (event ∷ rest) seen = seen_columns rest (mark_all (find_all [] event) seen)

-- The columns of the events of an Insert, which the source has in an order of its own.
unfoldable pub insert_columns : List Bytes → List Bytes
unfolding seen_columns
insert_columns events = seen_columns events []

pub equal_refl : (xs : Bytes) → equal xs xs ≡ true
unfolding equal
equal_refl [] = refl
equal_refl (x ∷ xs) = ground (arith, equal_refl xs)

pub equal_eq : (xs ys : Bytes) → equal xs ys ≡ true → xs ≡ ys
unfolding equal
equal_eq [] [] h = refl
equal_eq [] (y ∷ ys) h = cc
equal_eq (x ∷ xs) [] h = cc
equal_eq (x ∷ xs) (y ∷ ys) h = ground (arith, h, equal_eq xs ys)

equal_append :
    (column : Bytes) (seen more : List Bytes)
    → contains column seen ≡ true
    → contains column (seen ++ more) ≡ true
unfolding contains
equal_append column [] more h = cc
equal_append column (c ∷ cs) more h = ground (arith, h, equal_append column cs more)

contains-last : (column : Bytes) (seen : List Bytes) → contains column (seen ++ column ∷ []) ≡ true
unfolding contains
contains-last column [] = ground (arith, equal_refl column)
contains-last column (c ∷ cs) = ground (arith, contains-last column cs)

mark_keeps :
    (column other : Bytes) (seen : List Bytes)
    → contains other seen ≡ true
    → contains other (mark column seen) ≡ true
mark_keeps column other seen h = elim (Bool-cases (contains column seen)) [
  | inl e ↦ rw e h
  | inr e ↦ rw e (equal_append other seen (column ∷ []) h)
]

mark_adds : (column : Bytes) (seen : List Bytes) → contains column (mark column seen) ≡ true
mark_adds column seen = elim (Bool-cases (contains column seen)) [
  | inl e ↦ rw e e
  | inr e ↦ rw e (contains-last column seen)
]

mark_all_keeps :
    (columns : List Bytes) (other : Bytes) (seen : List Bytes)
    → contains other seen ≡ true
    → contains other (mark_all columns seen) ≡ true
unfolding mark_all
mark_all_keeps [] other seen h = h
mark_all_keeps (c ∷ cs) other seen h =
    mark_all_keeps cs other (mark c seen) (mark_keeps c other seen h)

mark_all_adds :
    (columns : List Bytes) (other : Bytes) (seen : List Bytes)
    → contains other columns ≡ true
    → contains other (mark_all columns seen) ≡ true
unfolding mark_all contains
mark_all_adds [] other seen h = cc
mark_all_adds (c ∷ cs) other seen h = elim (Bool-cases (equal c other)) [
  | inl e ↦
      let same : c ≡ other = equal_eq c other e in
      mark_all_keeps cs other (mark c seen) (rw (sym same) (mark_adds c seen))
  | inr e ↦ mark_all_adds cs other (mark c seen) (ground (arith, e, h))
]

seen_keeps :
    (events : List Bytes) (other : Bytes) (seen : List Bytes)
    → contains other seen ≡ true
    → contains other (seen_columns events seen) ≡ true
unfolding seen_columns
seen_keeps [] other seen h = h
seen_keeps (e ∷ es) other seen h =
    seen_keeps es other (mark_all (find_all [] e) seen)
      (mark_all_keeps (find_all [] e) other seen h)

-- What one event names is a column of the Insert.
pub seen_adds :
    (before : List Bytes) (event : Bytes) (after seen : List Bytes) (other : Bytes)
    → contains other (find_all [] event) ≡ true
    → contains other (seen_columns (before ++ event ∷ after) seen) ≡ true
unfolding seen_columns
seen_adds [] event after seen other h =
    seen_keeps after other (mark_all (find_all [] event) seen) (mark_all_adds _ other seen h)
seen_adds (b ∷ before) event after seen other h =
    seen_adds before event after (mark_all (find_all [] b) seen) other h
