-- ===== src/Event/Tags.antt =====
-- What Set, Get and NewLazy of event/event.go do to the tags.
use subtrace_docker_wireshar.Base.{
  ℕ, ◌+◌, ◌≡◌, refl, arith, Option, none, some, List, [], ◌∷◌, ◌++◌, if◌then◌else◌, suc,
}
use Prim.Native.String.{String}
use text.Mathlib.Text.{◌==◌}
use text.Mathlib.TextEquality.{eq_iff}
use text.Mathlib.TextPositions.{eq_refl}
use subtrace_docker_wireshar.Event.{
  Event, lookup, insert, new, set, set_known, get, new_lazy, resolve,
}

pub lookup-insert {ℓ} :
    {V : Type ℓ} (changed asked : String) (val : V) (vals : List (String × V))
    → lookup asked (insert changed val vals)
      ≡ (if changed == asked then some val else lookup asked vals)
unfolding lookup insert
lookup-insert changed asked val ((name, old) ∷ rest) = ground (
  arith,
  lookup-insert changed asked val rest,
  eq_iff name asked,
  eq_iff name changed,
  eq_iff changed asked,
)
lookup-insert changed asked val [] = refl

-- How often a key stands in the order of keys.
unfoldable pub count : String → List String → ℕ
count key [] = 0
count key (k ∷ keys) = if k == key then suc (count key keys) else count key keys

pub count-append :
    (key : String) (xs ys : List String) → count key (xs ++ ys) ≡ count key xs + count key ys
unfolding count
count-append key [] ys = omega arith
count-append key (x ∷ xs) ys = ground (arith, count-append key xs ys)

set-vals : (ev : Event) (k v : String) → (set ev k v).vals ≡ insert k v ev.vals
unfolding set set_known
set-vals ev k v = ground arith

-- After Set, Get returns the value set at its key, and what it returned before at any other.
pub get-set : (ev : Event) (k j v : String) → get (set ev k v) j ≡ (if k == j then v else get ev j)
unfolding get
get-set ev k j v = rw (set-vals ev k v, lookup-insert k j v ev.vals) (ground arith)

abbrev pub presence : Option String → ℕ
presence none = 0
presence (some v) = 1

-- The keys are those of the map, each once.
pub record IsTagged (ev : Event) : Type 0 where
  pub once : (key : String) → count key ev.keys ≡ presence (lookup key ev.vals)

pub new-IsTagged : (time event_id : String) → IsTagged (new time event_id)
unfolding new lookup count
new-IsTagged time event_id = record {
  once = λ key. ground (arith, eq_iff "time" key, eq_iff "event_id" key, eq_iff "time" "event_id");
}

-- Set keeps the keys those of the map, each once.
pub set-IsTagged : (ev : Event) (k v : String) → IsTagged ev → IsTagged (set ev k v)
unfolding set set_known count
set-IsTagged ev k v h = record {
  once = λ key. ground (
    arith,
    eq_iff k key,
    h.once key,
    h.once k,
    lookup-insert k key v ev.vals,
    count-append key ev.keys (k ∷ []),
  );
}

-- A key that has no value yet, given to NewLazy and then its value: the key stands two times more
-- often in the order of keys than before.
pub resolve-new_lazy_twice :
    (ev : Event) (key val : String)
    → lookup key ev.vals ≡ none
    → count key (resolve (new_lazy ev key) key val).keys ≡ count key ev.keys + 2
unfolding resolve new_lazy set set_known count
resolve-new_lazy_twice ev key val fresh = ground (
  arith,
  eq_refl key,
  count-append key ev.keys (key ∷ []),
  count-append key (ev.keys ++ key ∷ []) (key ∷ []),
)
