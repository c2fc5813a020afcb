-- ===== src/Event/Copy.antt =====
-- What CopyFrom and Copy of event/event.go carry over.
use subtrace_docker_wireshar.Base.{
  ◌≡◌, arith, Bool, ◌||◌, Option, none, some, List, [], ◌∷◌, if◌then◌else◌, Bool-cases, inl, inr,
  ltb,
}
use Prim.Native.String.{String}
use text.Mathlib.Text.{◌==◌}
use text.Mathlib.TextEquality.{eq_iff}
use subtrace_docker_wireshar.Event.{Event, lookup, set, get, copy_keys, copy_from}
use subtrace_docker_wireshar.Event.Tags.{IsTagged, set-IsTagged, get-set, count}

abbrev pub is_own : String → Bool
is_own key = (key == "time") || (key == "event_id")

copy_keys-IsTagged :
    (keys : List String) (src dst : Event) → IsTagged dst → IsTagged (copy_keys keys src dst)
unfolding copy_keys
copy_keys-IsTagged [] src dst h = h
copy_keys-IsTagged (key ∷ rest) src dst h =
    copy_keys-IsTagged rest src
      (if key == "time" then dst else if key == "event_id" then dst else set dst key (get src key))
      (elim (Bool-cases (key == "time")) [
        | inl t ↦ rw t h
        | inr o ↦ rw o (elim (Bool-cases (key == "event_id")) [
          | inl t ↦ rw t h
          | inr o' ↦ rw o' (set-IsTagged dst key (get src key) h)
        ])
      ])

get-copy_keys :
    (keys : List String) (src dst : Event) (j : String)
    → get (copy_keys keys src dst) j
      ≡ (if is_own j then get dst j else if ltb 0 (count j keys) then get src j else get dst j)
unfolding copy_keys count
get-copy_keys [] src dst j = ground arith
get-copy_keys (key ∷ rest) src dst j = elim (Bool-cases (key == j)) [
  | inl same ↦ ground (
    arith,
    eq_iff key j,
    get-set dst key j (get src key),
    get-copy_keys rest src
        (if key == "time"
          then dst
          else if key == "event_id"
          then dst
          else set dst key (get src key))
        j,
  )
  | inr other ↦ ground (
    arith,
    get-set dst key j (get src key),
    get-copy_keys rest src
        (if key == "time"
          then dst
          else if key == "event_id"
          then dst
          else set dst key (get src key))
        j,
  )
]

abbrev pub over : Option String → String → String
over none old = old
over (some v) old = v

-- CopyFrom overwrites the destination's values by the source's, but for "time" and "event_id",
-- which stay the destination's; its keys stay those of its map, each once.
pub copy_from_lem :
    (dst src : Event)
    → IsTagged dst
    → IsTagged src
    → ((j : String)
        → get (copy_from dst src) j
          ≡ (if is_own j then get dst j else over (lookup j src.vals) (get dst j)))
      × IsTagged (copy_from dst src)
unfolding copy_from get
copy_from_lem dst src d s = (
  λ j. ground (arith, get-copy_keys src.keys src dst j, s.once j),
  copy_keys-IsTagged src.keys src dst d,
)
