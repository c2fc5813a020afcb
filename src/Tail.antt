-- ===== src/Tail.antt =====
-- cmd/tail/tail.go: the subscriber, which prints the events that come once the server has its filters. A
-- message is what protobuf decodes, and whether an entry is JSON of a HAR is an argument.
pub mod Subscribing
use subtrace_docker_wireshar.Base.{
  ℕ, ◌+◌, Bool, true, false, List, [], ◌∷◌, ◌++◌, Option, none, some, ltb, if◌then◌else◌,
}

abbrev pub Bytes : Type 0
Bytes = List ℕ

-- The result of a SetSubscriberConfig.
pub record Reply : Type 0 where
  pub revision : ℕ
  pub error : Option Bytes

-- A message: one with a part that is nil or of an unknown type, an event, the answer to a call, with a
-- result or without, or statistics.
pub data Message : Type 0 where
  unknown announce_stats : Message
  event : Bytes → Message
  config : Option Reply → Message

-- `errs` is the channel for one error; `printed` is what was printed.
pub record Subscriber : Type 0 where
  pub revision : ℕ
  pub ready : Bool
  pub errs : Option Bytes
  pub printed : List Bytes

-- What handling a message leads to: an error, a panic as `ready` is closed twice, or a wait for the channel.
pub data Handled : Type 0 where
  handled : Subscriber → Handled
  fails panics waits : Handled

unfoldable pub new_subscriber : Subscriber
new_subscriber = record { revision = 0; ready = false; errs = none; printed = [] }

-- The call of initFilters.
unfoldable pub init_filters : Subscriber → Subscriber
init_filters s = record s { revision = s.revision + 1 }

-- SetSubscriberConfig_V1.
abbrev send_error : Subscriber → Bytes → Handled
send_error s e = elim s.errs [ none ↦ handled (record s { errs = some e }) | some e' ↦ waits ]

abbrev applied : Subscriber → Handled
applied s = if s.ready then panics else handled (record s { ready = true })

unfoldable pub set_subscriber_config : Option Reply → Subscriber → Handled
set_subscriber_config none s = fails
set_subscriber_config (some r) s =
    if ltb r.revision s.revision
    then handled s
    else elim r.error [ none ↦ applied s | some e ↦ send_error s e ]

-- Event_V1.
unfoldable pub event_v1 : (Bytes → Bool) → Bytes → Subscriber → Handled
event_v1 is_har json s =
    if s.ready
    then if is_har json then handled (record s { printed = s.printed ++ json ∷ [] }) else fails
    else handled s

unfoldable pub handle : (Bytes → Bool) → Message → Subscriber → Handled
unfolding set_subscriber_config event_v1
handle is_har unknown s = fails
handle is_har announce_stats s = handled s
handle is_har (event json) s = event_v1 is_har json s
handle is_har (config r) s = set_subscriber_config r s

abbrev pub and_then : (Subscriber → Handled) → Handled → Handled
and_then go_on (handled s) = go_on s
and_then go_on fails = fails
and_then go_on panics = panics
and_then go_on waits = waits

-- readLoop, on the messages that it reads.
unfoldable pub read_loop : (Bytes → Bool) → List Message → Subscriber → Handled
unfolding handle
read_loop is_har [] s = handled s
read_loop is_har (m ∷ ms) s = and_then (λ s'. read_loop is_har ms s') (handle is_har m s)
