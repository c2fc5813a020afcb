-- ===== src/Parser/Tags.antt =====
-- The tags that Finish of tracer/parser.go gives to the filters and the publisher, and to the tunnel.
use Prim.Native.String.{String}
use text.Mathlib.Text.{◌==◌}
use text.Mathlib.TextEquality.{eq_iff}
use subtrace_docker_wireshar.Base.{
  ℕ, ◌≡◌, refl, ap, ◌∙◌, arith, Bool, true, false, ◌||◌, ◌⊎◌, Bool-cases, inl, inr, List, [], ◌∷◌,
  Option, none, some, if◌then◌else◌,
}
use subtrace_docker_wireshar.Event.{Event, lookup, get, set, new, copy, copy_from}
use subtrace_docker_wireshar.Event.Tags.{IsTagged, new-IsTagged, set-IsTagged, get-set}
use subtrace_docker_wireshar.Event.Copy.{is_own, over, copy_from_lem}
use subtrace_docker_wireshar.Config.{Filter, exclude, get_matching_filter}
use subtrace_docker_wireshar.Parser.Proto.{Bytes}
use subtrace_docker_wireshar.Parser.Har.{Side}
use subtrace_docker_wireshar.Parser.Sending.{both, finish-dropped, finish_kept}
use subtrace_docker_wireshar.Parser.Finish.{
  Parser, HarEntry, Seen, seen_by, Sent, nothing_sent, Message, message, Finished, sends, finish,
  deliver, dropped, entry_of, Setting, set_all, set_count, event_tags, tunnel_event, har_tags,
}

get-new : (time event_id j : String) → is_own j ≡ false → get (new time event_id) j ≡ ""
unfolding new get lookup
get-new time event_id j h =
    ground (arith, h, eq_iff "time" j, eq_iff j "time", eq_iff "event_id" j, eq_iff j "event_id")

over-get : (ev : Event) (j : String) → over (lookup j ev.vals) "" ≡ get ev j
unfolding get
over-get ev j = ground arith

-- A copy has its own time and id, and all other tags of the source.
pub get-copy :
    (time event_id : String) (src : Event) (j : String)
    → IsTagged src
    → get (copy time event_id src) j ≡ (if is_own j then get (new time event_id) j else get src j)
unfolding copy
get-copy time event_id src j tagged =
    (copy_from_lem (new time event_id) src (new-IsTagged time event_id) tagged).0 j
    ∙ elim (Bool-cases (is_own j)) [
      | inl e ↦ rw e refl
      | inr e ↦ rw (e, get-new time event_id j e) (over-get src j)
    ]

copy-IsTagged :
    (time event_id : String) (src : Event) → IsTagged src → IsTagged (copy time event_id src)
unfolding copy
copy-IsTagged time event_id src tagged =
    (copy_from_lem (new time event_id) src (new-IsTagged time event_id) tagged).1

get-set_count :
    (decimal : ℕ → String) (key : String) (n : Option ℕ) (ev : Event) (j : String)
    → (key == j) ≡ false
    → get (set_count decimal key n ev) j ≡ get ev j
get-set_count decimal key none ev j h = refl
get-set_count decimal key (some n) ev j h = get-set ev key j (decimal n) ∙ rw h refl

-- The time and the id are set last.
get-named :
    (own ev : Event) (j : String)
    → get (set (set own "event_id" (get ev "event_id")) "time" (get ev "time")) j
      ≡ (if is_own j then get ev j else get own j)
get-named own ev j = ground (
  arith,
  get-set (set own "event_id" (get ev "event_id")) "time" j (get ev "time"),
  get-set own "event_id" j (get ev "event_id"),
  eq_iff "time" j,
  eq_iff "event_id" j,
  eq_iff j "time",
  eq_iff j "event_id",
)

-- The tags: the time and the id of the event itself, each other tag of the event, and below these the
-- template's, but for the counts of the trailers.
event_tags-get :
    (s : Setting) (p : Parser) (ev : Event) (j : String)
    → IsTagged s.template
    → IsTagged ev
    → ("request_trailer_count" == j) ≡ false
    → ("response_trailer_count" == j) ≡ false
    → get (event_tags s p ev) j
      ≡ (if is_own j then get ev j else over (lookup j ev.vals) (get s.template j))
unfolding event_tags
event_tags-get s p ev j tmpl tagged req resp =
    let base = copy s.now s.fresh_id s.template in
    get-set_count s.decimal "response_trailer_count" p.response_trailer _ j resp
    ∙ get-set_count s.decimal "request_trailer_count" p.request_trailer _ j req
    ∙ get-named (copy_from base ev) ev j
    ∙ elim (Bool-cases (is_own j)) [
      | inl e ↦ rw e refl
      | inr e ↦
          let own : get (copy_from base ev) j ≡ over (lookup j ev.vals) (get base j) =
            (copy_from_lem base ev (copy-IsTagged s.now s.fresh_id s.template tmpl) tagged).0 j
            ∙ rw e refl in
          let from : get base j ≡ get s.template j =
            get-copy s.now s.fresh_id s.template j tmpl ∙ rw e refl in
          rw e (own ∙ ap (over (lookup j ev.vals)) from)
    ]

set_all-IsTagged :
    (pairs : List (String × String)) (ev : Event) → IsTagged ev → IsTagged (set_all pairs ev)
unfolding set_all
set_all-IsTagged [] ev h = h
set_all-IsTagged ((k, v) ∷ rest) ev h = set_all-IsTagged rest (set ev k v) (set-IsTagged ev k v h)

-- The value of a tag, or the empty text.
abbrev pub tag_of : List (String × String) → String → String
tag_of vals j = over (lookup j vals) ""

-- A rule that excludes by one tag, as `g` says.
abbrev pub asks : String → (String → Bool) → Filter Seen
asks j g = record { action = exclude; eval = λ seen. some (g (tag_of seen.tags j)) }

-- A tag of the event, after the statistics, or else of the template. The id and the time are those of the
-- event.
abbrev pub meant_tag : Setting → Parser → String → String
meant_tag s p j =
    let ev = set_all s.stats p.event in
    if is_own j then get ev j else over (lookup j ev.vals) (get s.template j)

abbrev pub Carries : Setting → Parser → String → Finished → Type 0
Carries s p j r =
    (sent : Sent) × (m : Message) × (r ≡ sends sent)
    × (sent.reflected ≡ some m)
    × (tag_of m.tags j ≡ meant_tag s p j)

asked :
    (j : String) (g : String → Bool) (seen : Seen) (b : Bool)
    → g (tag_of seen.tags j) ≡ b
    → dropped (get_matching_filter (asks j g ∷ []) seen) ≡ b
unfolding dropped get_matching_filter
asked j g seen true e = rw e refl
asked j g seen false e = rw e refl

reflects :
    (s : Setting) (p : Parser) (ev : Event) (entry : HarEntry) (json : Bytes)
    → s.route.devtools ≡ false
    → s.route.reflector ≡ true
    → (deliver s p ev entry json).reflected ≡ some (message s p (event_tags s p ev) json)
unfolding deliver
reflects s p ev entry json d r = rw (d, r) refl

-- The filters see, and the reflector gets, the tag that is meant: with one rule, which excludes by a tag,
-- Finish sends nothing where the rule excludes the meant value, and else a message with this value. Meant
-- is the event's tag, after the statistics, or else the template's; the time and the id are the event's.
-- Where both sides were recorded, the entry can be encoded and goes to the reflector, for tags other than
-- the counts of the trailers.
pub finish-tags :
    (s : Setting) (p : Parser) (req resp : Side) (json : Bytes) (j : String) (g : String → Bool)
    → IsTagged s.template
    → IsTagged p.event
    → ("request_trailer_count" == j) ≡ false
    → ("response_trailer_count" == j) ≡ false
    → s.marshal (entry_of s p req resp) ≡ some json
    → s.route.devtools ≡ false
    → s.route.reflector ≡ true
    → let r = finish (record s { filters = asks j g ∷ [] }) (both p req resp) in
      ((g (meant_tag s p j) ≡ true) × (r ≡ sends nothing_sent))
      ⊎ ((g (meant_tag s p j) ≡ false) × Carries s p j r)
unfolding event_tags
finish-tags s p req resp json j g tmpl tagged rt st enc d r =
    let t = record s { filters = asks j g ∷ [] } in
    let ev = set_all s.stats p.event in
    let same : tag_of (event_tags t p ev).vals j ≡ meant_tag s p j =
      over-get (event_tags t p ev) j
      ∙ event_tags-get t p ev j tmpl (set_all-IsTagged s.stats p.event tagged) rt st in
    elim (Bool-cases (g (meant_tag s p j))) [
      | inl e ↦
          inl
            (e, finish-dropped t p req resp (asked j g (seen_by t p req resp) true (ap g same ∙ e)))
      | inr e ↦ inr (
        e,
        (
          deliver t (both p req resp) ev (entry_of s p req resp) json,
          message t (both p req resp) (event_tags t (both p req resp) ev) json,
          finish_kept t p req resp json (asked j g (seen_by t p req resp) false (ap g same ∙ e))
              enc,
          reflects t (both p req resp) ev (entry_of s p req resp) json d r,
          same,
        ),
      )
    ]

-- A loop of Set leaves a key alone that it does not name.
abbrev has_key : String → List (String × String) → Bool
has_key j [] = false
has_key j ((k, v) ∷ rest) = (k == j) || has_key j rest

get-set_all :
    (pairs : List (String × String)) (ev : Event) (j : String)
    → has_key j pairs ≡ false
    → get (set_all pairs ev) j ≡ get ev j
unfolding set_all
get-set_all [] ev j h = refl
get-set_all ((k, v) ∷ rest) ev j h =
    get-set_all rest (set ev k v) j (ground (arith, h)) ∙ get-set ev k j v ∙ ground (arith, h)

own_of_new : (time event_id : String) → get (new time event_id) "event_id" ≡ event_id
unfolding new get lookup
own_of_new time event_id = refl

time_of_new : (time event_id : String) → get (new time event_id) "time" ≡ time
unfolding new get lookup
time_of_new time event_id = refl

-- The event that goes into the tunnel has the time and the id of its copy, not those of the event that it is
-- a copy of and that the entry has.
pub tunnel_event-own :
    (s : Setting) (ev : Event) (entry : HarEntry) (json : Bytes)
    → IsTagged ev
    → (get (tunnel_event s ev entry json) "event_id" ≡ s.fresh_id)
      × (get (tunnel_event s ev entry json) "time" ≡ s.now)
unfolding tunnel_event
tunnel_event-own s ev entry json tagged =
    let pairs = har_tags (s.har_values entry json) in
    (
      get-set_all pairs (copy s.now s.fresh_id ev) "event_id" refl
          ∙ get-copy s.now s.fresh_id ev "event_id" tagged
          ∙ own_of_new s.now s.fresh_id,
      get-set_all pairs (copy s.now s.fresh_id ev) "time" refl
          ∙ get-copy s.now s.fresh_id ev "time" tagged
          ∙ time_of_new s.now s.fresh_id,
    )
