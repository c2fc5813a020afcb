-- ===== src/Parser/Finish.antt =====
-- tracer/parser.go: NewParser's parts and Finish, which joins the two sides into an event and sends it.
-- The clock, the encoders of the entry, and the decimal notation are arguments.
use Prim.Native.String.{String}
use subtrace_docker_wireshar.Base.{
  ℕ, ◌+◌, Bool, true, false, List, [], ◌∷◌, Option, none, some, if◌then◌else◌,
}
use subtrace_docker_wireshar.Config.{
  Action, include, exclude, Filter, Match, eval_error, no_match, matches, get_matching_filter,
}
use subtrace_docker_wireshar.Event.{Event, get, set, copy, copy_from}
use subtrace_docker_wireshar.Journal
use subtrace_docker_wireshar.Parser.Proto.{Bytes}
use subtrace_docker_wireshar.Parser.Har.{Side, Recording, recorded, failed, panics}

-- Where the events go: SUBTRACE_REFLECTOR, and a path of the developer tools.
pub record Route : Type 0 where
  pub reflector : Bool
  pub tunneler : Bool
  pub devtools : Bool

-- A parser; a side is none until its call, a trailer is its number of keys.
pub record Parser : Type 0 where
  pub event : Event
  pub request : Option Recording
  pub response : Option Recording
  pub request_trailer : Option ℕ
  pub response_trailer : Option ℕ
  pub messages : List Bytes
  pub journal_idx : ℕ
  pub begin : String

-- NewParser; `log` is the journal if it is on, `now` the time.
abbrev new_parser : Option Journal.Journal → String → Event → Parser
new_parser log now ev = record {
  event = ev;
  request = none;
  response = none;
  request_trailer = none;
  response_trailer = none;
  messages = [];
  journal_idx = elim log [ none ↦ 0 | some j ↦ j.idx ];
  begin = now;
}

abbrev use_websocket_messages : List Bytes → Parser → Parser
use_websocket_messages msgs p = record p { messages = msgs }

abbrev set_request_trailer : ℕ → Parser → Parser
set_request_trailer n p = record p { request_trailer = some n }

abbrev set_response_trailer : ℕ → Parser → Parser
set_response_trailer n p = record p { response_trailer = some n }

-- The entry, which is encoded; `time` is its duration.
pub record HarEntry : Type 0 where
  pub id : String
  pub started : String
  pub time : ℕ
  pub timings : List ℕ
  pub request : Side
  pub response : Side
  pub messages : List Bytes

-- What the filters are given: the tags, and the entry.
pub record Seen : Type 0 where
  pub tags : List (String × String)
  pub entry : HarEntry

-- What sendReflector packs: the tags, the entry, and the lines of the log behind their index.
pub record Message : Type 0 where
  pub tags : List (String × String)
  pub entry : Bytes
  pub lines : List Journal.Line
  pub index : ℕ

-- What was sent: to the developer tools, into the channel of the publisher, and to the manager.
pub record Sent : Type 0 where
  pub devtools : Option Bytes
  pub reflected : Option Message
  pub tunneled : Option Event

abbrev pub nothing_sent : Sent
nothing_sent = record { devtools = none; reflected = none; tunneled = none }

-- Finish waits for ever, an error of it, or its end.
pub data Finished : Type 0 where
  waits fails : Finished
  panic : Finished
  sends : Sent → Finished

-- The values of the tags of a tunneled event: the entry in base64, the duration, and parts of the entry.
pub record HarValues : Type 0 where
  pub encoded_entry : String
  pub time : String
  pub method : String
  pub url : String
  pub status : String

-- The rest of the program at the call: the template, the time and id of its copy and of that of the
-- event, the statistics, the log if it is on, the duration and the timings, the filters, and the encoders.
pub record Setting : Type 0 where
  pub template : Event
  pub now : String
  pub fresh_id : String
  pub stats : List (String × String)
  pub log : Option Journal.Journal
  pub elapsed : ℕ
  pub timings : List ℕ
  pub filters : List (Filter Seen)
  pub marshal : HarEntry → Option Bytes
  pub decimal : ℕ → String
  pub har_values : HarEntry → Bytes → HarValues
  pub route : Route

-- A loop of Set.
unfoldable pub set_all : List (String × String) → Event → Event
set_all [] ev = ev
set_all ((k, v) ∷ rest) ev = set_all rest (set ev k v)

abbrev pub set_count : (ℕ → String) → String → Option ℕ → Event → Event
set_count decimal key none ev = ev
set_count decimal key (some n) ev = set ev key (decimal n)

-- The tags: the template's copy under those of the event.
unfoldable pub event_tags : Setting → Parser → Event → Event
unfolding copy copy_from set get
event_tags s p ev =
    let own = copy_from (copy s.now s.fresh_id s.template) ev in
    let named = set (set own "event_id" (get ev "event_id")) "time" (get ev "time") in
    set_count s.decimal "response_trailer_count" p.response_trailer
      (set_count s.decimal "request_trailer_count" p.request_trailer named)

abbrev pub is_exclude : Action → Bool
is_exclude include = false
is_exclude exclude = true

-- The switch on the filter: whether the event is dropped.
unfoldable pub dropped : Match Seen → Bool
dropped eval_error = false
dropped no_match = false
dropped (matches f) = is_exclude f.action

abbrev pub log_part : Option Journal.Journal → ℕ → ℕ × List Journal.Line
log_part none idx = (0, [])
log_part (some j) idx = Journal.copy_from j idx

-- sendReflector, before the channel.
abbrev pub message : Setting → Parser → Event → Bytes → Message
message s p tags json =
    let (idx, lines) = log_part s.log p.journal_idx in
    record { tags = tags.vals; entry = json; lines = lines; index = Journal.u64 (idx + 1) }

abbrev pub har_tags : HarValues → List (String × String)
har_tags v =
    ("http_har_entry", v.encoded_entry)
    ∷ ("har_time", v.time)
    ∷ ("har_request_method", v.method)
    ∷ ("har_request_url", v.url)
    ∷ ("har_response_status", v.status)
    ∷ []

-- The copy of the event for the tunnel.
unfoldable pub tunnel_event : Setting → Event → HarEntry → Bytes → Event
unfolding set_all copy
tunnel_event s ev entry json =
    set_all (har_tags (s.har_values entry json)) (copy s.now s.fresh_id ev)

unfoldable pub deliver : Setting → Parser → Event → HarEntry → Bytes → Sent
unfolding event_tags tunnel_event
deliver s p ev entry json =
    if s.route.devtools then record nothing_sent { devtools = some json } else record {
      devtools = none;
      reflected = if s.route.reflector then some (message s p (event_tags s p ev) json) else none;
      tunneled = if s.route.tunneler then some (tunnel_event s ev entry json) else none;
    }

abbrev pub encoded : Setting → Parser → Event → HarEntry → Option Bytes → Finished
encoded s p ev entry none = fails
encoded s p ev entry (some json) = sends (deliver s p ev entry json)

abbrev pub entry_of : Setting → Parser → Side → Side → HarEntry
entry_of s p req resp = record {
  id = get p.event "event_id";
  started = p.begin;
  time = s.elapsed;
  timings = s.timings;
  request = req;
  response = resp;
  messages = p.messages;
}

-- The tags are those of the event after the statistics.
abbrev pub seen_by : Setting → Parser → Side → Side → Seen
seen_by s p req resp = record {
  tags = (event_tags s p (set_all s.stats p.event)).vals;
  entry = entry_of s p req resp;
}

unfoldable pub join : Setting → Parser → Side → Side → Finished
unfolding set_all dropped get_matching_filter deliver get event_tags
join s p req resp =
    let ev = set_all s.stats p.event in
    let entry = entry_of s p req resp in
    if dropped (get_matching_filter s.filters (seen_by s p req resp))
    then sends nothing_sent
    else encoded s p ev entry (s.marshal entry)

-- errors.Join of the two results; a panic of either goroutine ends the program.
abbrev pub joined : Setting → Parser → Recording → Recording → Finished
joined s p panics resp = panic
joined s p failed panics = panic
joined s p (recorded req) panics = panic
joined s p failed failed = fails
joined s p failed (recorded resp) = fails
joined s p (recorded req) failed = fails
joined s p (recorded req) (recorded resp) = join s p req resp

unfoldable pub finish : Setting → Parser → Finished
unfolding join
finish s p = elim p.request [
  | none ↦ waits
  | some req ↦ elim p.response [ none ↦ waits | some resp ↦ joined s p req resp ]
]
