-- ===== src/Tail/Subscribing.antt =====
-- cmd/tail/tail.go: which events a subscriber prints.
use mathlib.Core.List.{append_assoc, append-nil}
use subtrace_docker_wireshar.Base.{
  ℕ, ◌≤◌, ◌≡◌, refl, sym, ap, ◌∙◌, arith, Bool, true, false, List, [], ◌∷◌, ◌++◌, if◌then◌else◌,
  none, some, ltb, All,
}
use subtrace_docker_wireshar.Tail.{
  Bytes, Reply, Message, unknown, announce_stats, event, config, Subscriber, handled, fails,
  and_then, new_subscriber, init_filters, set_subscriber_config, event_v1, handle, read_loop,
}

-- A message that neither ends the loop nor answers the call of the revision.
abbrev pub is_quiet : ℕ → Message → Bool
is_quiet revision unknown = false
is_quiet revision announce_stats = true
is_quiet revision (event json) = true
is_quiet revision (config none) = false
is_quiet revision (config (some r)) = ltb r.revision revision

abbrev pub IsQuiet : ℕ → List Message → Type 0
IsQuiet revision ms = All (λ m. is_quiet revision m ≡ true) ms

abbrev pub events_of : List Message → List Bytes
events_of [] = []
events_of (event json ∷ ms) = json ∷ events_of ms
events_of (unknown ∷ ms) = events_of ms
events_of (announce_stats ∷ ms) = events_of ms
events_of (config r ∷ ms) = events_of ms

module _ (is_har : Bytes → Bool) where
  event_dropped :
      (json : Bytes) (s : Subscriber) → s.ready ≡ false → event_v1 is_har json s ≡ handled s
  unfolding event_v1
  event_dropped json s r =
      ap
        (λ b.
          if b
          then if is_har json
            then handled (record s { printed = s.printed ++ json ∷ [] })
            else fails
          else handled s)
        r

  event_printed :
      (json : Bytes) (s : Subscriber)
      → s.ready ≡ true
      → is_har json ≡ true
      → event_v1 is_har json s ≡ handled (record s { printed = s.printed ++ json ∷ [] })
  unfolding event_v1
  event_printed json s r har =
      ap
        (λ b.
          if b
          then if is_har json
            then handled (record s { printed = s.printed ++ json ∷ [] })
            else fails
          else handled s)
        r
      ∙ ap (λ b. if b then handled (record s { printed = s.printed ++ json ∷ [] }) else fails) har

  quiet_before :
      (ms rest : List Message) (s : Subscriber)
      → s.ready ≡ false
      → IsQuiet s.revision ms
      → read_loop is_har (ms ++ rest) s ≡ read_loop is_har rest s
  unfolding read_loop handle event_v1 set_subscriber_config
  quiet_before [] rest s r h = refl
  quiet_before (unknown ∷ ms) rest s r h = absurd (ground (arith, h.0))
  quiet_before (announce_stats ∷ ms) rest s r h = quiet_before ms rest s r h.1
  quiet_before (event json ∷ ms) rest s r h =
      ap (and_then (λ s'. read_loop is_har (ms ++ rest) s')) (event_dropped json s r)
      ∙ quiet_before ms rest s r h.1
  quiet_before (config none ∷ ms) rest s r h = absurd (ground (arith, h.0))
  quiet_before (config (some x) ∷ ms) rest s r h = rw h.0 (quiet_before ms rest s r h.1)

  quiet_after :
      (ms : List Message) (s : Subscriber)
      → s.ready ≡ true
      → IsQuiet s.revision ms
      → All (λ json. is_har json ≡ true) (events_of ms)
      → read_loop is_har ms s ≡ handled (record s { printed = s.printed ++ events_of ms })
  unfolding read_loop handle event_v1 set_subscriber_config
  quiet_after [] s r h k = ap (λ p. handled (record s { printed = p })) (sym (append-nil s.printed))
  quiet_after (unknown ∷ ms) s r h k = absurd (ground (arith, h.0))
  quiet_after (announce_stats ∷ ms) s r h k = quiet_after ms s r h.1 k
  quiet_after (event json ∷ ms) s r h k =
      ap (and_then (λ s'. read_loop is_har ms s')) (event_printed json s r k.0)
      ∙ quiet_after ms (record s { printed = s.printed ++ json ∷ [] }) r h.1 k.1
      ∙ ap (λ p. handled (record s { printed = p }))
          (append_assoc s.printed (json ∷ []) (events_of ms))
  quiet_after (config none ∷ ms) s r h k = absurd (ground (arith, h.0))
  quiet_after (config (some x) ∷ ms) s r h k = rw h.0 (quiet_after ms s r h.1 k)

  answered :
      (r : Reply) (after : List Message)
      → 1 ≤ r.revision
      → r.error ≡ none
      → read_loop is_har (config (some r) ∷ after) (init_filters new_subscriber)
        ≡ read_loop is_har after (record { revision = 1; ready = true; errs = none; printed = [] })
  unfolding read_loop handle set_subscriber_config new_subscriber init_filters
  answered r after new good = ground (arith, new, good)

  -- Once the server has answered the call of initFilters without an error, the subscriber prints each
  -- event that comes, in order, and none of those before, where answers to earlier calls and statistics
  -- come at any time and each of the events after the answer is a HAR entry.
  pub read_loop-prints :
      (before after : List Message) (r : Reply)
      → IsQuiet 1 before
      → IsQuiet 1 after
      → All (λ json. is_har json ≡ true) (events_of after)
      → 1 ≤ r.revision
      → r.error ≡ none
      → read_loop is_har (before ++ config (some r) ∷ after) (init_filters new_subscriber)
        ≡ handled (record { revision = 1; ready = true; errs = none; printed = events_of after })
  unfolding new_subscriber init_filters
  read_loop-prints before after r h k hars new good =
      quiet_before before (config (some r) ∷ after) (init_filters new_subscriber) refl h
      ∙ answered r after new good
      ∙ quiet_after after (record { revision = 1; ready = true; errs = none; printed = [] }) refl k
          hars
