-- ===== src/Event.antt =====
-- event/event.go: the tags of an event, keys in order of insertion and a map of values. The clock
-- and the random id of New are arguments. The locks make each call atomic.
pub mod Tags
pub mod Copy
use subtrace_docker_wireshar.Base.{
  ℕ, Bool, true, false, Option, none, some, List, [], ◌∷◌, ◌++◌, map, if◌then◌else◌,
}
use Prim.Native.String.{String}
use text.Mathlib.Text.{◌==◌}

-- map[string]string, as a list of pairs in which the first with a key counts.
module _ {ℓ} {V : Type ℓ} where
  unfoldable pub lookup : String → List (String × V) → Option V
  lookup key ((name, val) ∷ rest) =
      let later = lookup key rest in if name == key then some val else later
  lookup key [] = none

  unfoldable pub insert : String → V → List (String × V) → List (String × V)
  insert key new_val ((name, val) ∷ rest) =
      let later = insert key new_val rest in
      if name == key then (name, new_val) ∷ rest else (name, val) ∷ later
  insert key new_val [] = (key, new_val) ∷ []

pub record Event : Type 0 where
  pub keys : List String
  pub vals : List (String × String)
  -- the keys of NewLazy whose value has not come yet
  pub lazy : List String

unfoldable pub new : String → String → Event
new time event_id = record {
  keys = "time" ∷ "event_id" ∷ [];
  vals = ("time", time) ∷ ("event_id", event_id) ∷ [];
  lazy = [];
}

set_known : Option String → Event → String → String → Event
set_known (some old) ev key val = record ev { vals = insert key val ev.vals }
set_known none ev key val = record ev { keys = ev.keys ++ key ∷ []; vals = insert key val ev.vals }

-- setLocked, which Set calls under the lock.
unfoldable pub set : Event → String → String → Event
unfolding set_known
set ev key val = set_known (lookup key ev.vals) ev key val

value_or_empty : Option String → String
value_or_empty none = ""
value_or_empty (some v) = v

unfoldable pub get : Event → String → String
unfolding value_or_empty
get ev key = value_or_empty (lookup key ev.vals)

-- The loop of CopyFrom over the source's keys.
unfoldable pub copy_keys : List String → Event → Event → Event
copy_keys [] src dst = dst
copy_keys (key ∷ rest) src dst =
    copy_keys rest src
      (if key == "time" then dst else if key == "event_id" then dst else set dst key (get src key))

unfoldable pub copy_from : Event → Event → Event
unfolding copy_keys
copy_from dst src = copy_keys src.keys src dst

unfoldable pub copy : String → String → Event → Event
unfolding copy_from new
copy time event_id src = copy_from (new time event_id) src

-- NewLazy records the key at once; its goroutine calls Set when the value comes.
unfoldable pub new_lazy : Event → String → Event
new_lazy ev key = record ev { keys = ev.keys ++ key ∷ []; lazy = ev.lazy ++ key ∷ [] }

unfoldable pub resolve : Event → String → String → Event
resolve ev key val = set ev key val

-- The pairs that String prints, in order.
unfoldable pub shown : Event → List (String × String)
shown ev = map (λ key. (key, get ev key)) ev.keys
