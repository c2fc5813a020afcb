-- ===== src/Examples/Events.antt =====
-- The theorems on tracer/parser.go's requests, responses and events, and on config/config.go.
use Prim.Native.Nat.{min}
use subtrace_docker_wireshar.Base.{
  ◌≡◌, refl, ◌⊎◌, inl, inr, List, [], ◌∷◌, none, some, take, length, true, false,
}
use subtrace_docker_wireshar.Base.Text.{codes, equal, to_lower, says_yes}
use subtrace_docker_wireshar.Config.{Config, include, exclude, Filter}
use subtrace_docker_wireshar.Event.{Event, new, set, get}
use subtrace_docker_wireshar.Event.Tags.{IsTagged, new-IsTagged, set-IsTagged}
use subtrace_docker_wireshar.Parser.Proto.{Bytes}
use subtrace_docker_wireshar.Parser.Har.{
  Cookie, Har, Incoming, Tools, Side, recorded, request_secret, response_secret, use_request,
  use_response, configured, scrub,
}
use subtrace_docker_wireshar.Parser.Secrets.{
  Alike, request_names, response_names, use_request-blind,
}
use subtrace_docker_wireshar.Parser.Body.{use_side-body}
use subtrace_docker_wireshar.Parser.Finish.{
  Parser, Seen, Setting, nothing_sent, sends, finish, entry_of, tunnel_event,
}
use subtrace_docker_wireshar.Parser.Sending.{both}
use subtrace_docker_wireshar.Parser.Tags.{asks, Carries, finish-tags, tunnel_event-own}
use subtrace_docker_wireshar.Tracer.Sampler.{new_sampler, read_all, whole_body}
use subtrace_docker_wireshar.Examples.Messages.{byte_wire}

abbrev tools : Tools
tools = record {
  gunzip = λ b. none;
  unbrotli = λ b. none;
  wire = byte_wire;
  marshal = λ es. none;
  grpc_setting = [];
  sanitize = λ v. v;
}

abbrev strict : Config Seen
strict = record { auth_credentials = codes "redact"; template = []; filters = [] }

abbrev cookie : Bytes → Cookie
cookie secret = record {
  name = codes "sid";
  value = secret;
  path = codes "/";
  domain = [];
  expires = ([], []);
  http_only = true;
  secure = false;
}

abbrev login : Bytes → Har
login secret = record {
  headers = (codes "Host", codes "a") ∷ (codes "AUTHORIZATION", secret) ∷ [];
  cookies = cookie secret ∷ [];
  others = codes "GET" ∷ [];
}

abbrev chunks : List Bytes
chunks = codes "abc" ∷ codes "de" ∷ []

abbrev arriving : Incoming
arriving = record {
  har = some (login (codes "x"));
  content_encoding = [];
  content_type = codes "text/plain";
  body_read = true;
  sampler = read_all 4 new_sampler chunks;
}

same_login : Alike request_names (login (codes "x")) (login (codes "yz"))
unfolding equal to_lower
same_login = ((refl, inr refl, (refl, inl (inl refl), tt)), (refl, tt), refl)

abbrev session : Bytes → Har
session secret = record {
  headers = (codes "Set-Cookie", secret) ∷ [];
  cookies = cookie secret ∷ [];
  others = [];
}

same_session : Alike response_names (session (codes "x")) (session (codes "yz"))
unfolding equal to_lower
same_session = ((refl, inl (inl refl), tt), (refl, tt), refl)

use_request-blind_example :
    (use_request
        (configured (λ v. v) strict tools)
        (record arriving { har = some (login (codes "x")) })
      ≡ use_request
          (configured (λ v. v) strict tools)
          (record arriving { har = some (login (codes "yz")) }))
    × (use_response
          (configured (λ v. v) strict tools)
          (record arriving { har = some (session (codes "x")) })
        ≡ use_response
            (configured (λ v. v) strict tools)
            (record arriving { har = some (session (codes "yz")) }))
unfolding equal
use_request-blind_example =
    use_request-blind (λ v. v) strict tools arriving (login (codes "x")) (login (codes "yz"))
      (session (codes "x")) (session (codes "yz")) (refl, refl) same_login same_session

use_side-body_example :
    (use_request tools arriving
      ≡ recorded (record {
        har = scrub tools.sanitize request_secret (login (codes "x"));
        mime = arriving.content_type;
        text = take 4 (whole_body chunks);
        size = none;
      }))
    × (use_response tools arriving
        ≡ recorded (record {
          har = scrub tools.sanitize response_secret (login (codes "x"));
          mime = arriving.content_type;
          text = take 4 (whole_body chunks);
          size = some (min 4 (length (whole_body chunks)));
        }))
unfolding equal says_yes
use_side-body_example =
    use_side-body tools 4 chunks arriving (login (codes "x")) refl refl (refl, refl) refl refl

abbrev side : Side
side = record { har = login []; mime = []; text = []; size = none }

-- One rule that cannot be evaluated, and one that excludes all.
abbrev broken : Filter Seen
broken = record { action = exclude; eval = λ e. none }

abbrev blocker : Filter Seen
blocker = record { action = exclude; eval = λ e. some true }

abbrev passer : Filter Seen
passer = record { action = include; eval = λ e. some false }

abbrev event : Event
event = set (new "t1" "id1") "service" "web"

abbrev parser : Parser
parser = record {
  event = event;
  request = none;
  response = none;
  request_trailer = none;
  response_trailer = none;
  messages = [];
  journal_idx = 0;
  begin = "t1";
}

abbrev setting : Setting
setting = record {
  template = set (new "t0" "id0") "hostname" "h";
  now = "t2";
  fresh_id = "id2";
  stats = [];
  log = none;
  elapsed = 5;
  timings = [];
  filters = passer ∷ blocker ∷ [];
  marshal = λ e. some [];
  decimal = λ n. "n";
  har_values = λ e b. record { encoded_entry = ""; time = ""; method = ""; url = ""; status = "" };
  route = record { reflector = true; tunneler = false; devtools = false };
}

event-IsTagged : IsTagged event
event-IsTagged = set-IsTagged (new "t1" "id1") "service" "web" (new-IsTagged "t1" "id1")

template-IsTagged : IsTagged setting.template
template-IsTagged = set-IsTagged (new "t0" "id0") "hostname" "h" (new-IsTagged "t0" "id0")

finish-tags_example :
    let r =
      finish
        (record setting { filters = asks "hostname" (λ v. false) ∷ [] })
        (both parser side side) in
    ((false ≡ true) × (r ≡ sends nothing_sent))
    ⊎ ((false ≡ false) × Carries setting parser "hostname" r)
finish-tags_example =
    finish-tags setting parser side side [] "hostname" (λ v. false) template-IsTagged event-IsTagged
      refl refl refl refl refl

tunnel_event-own_example :
    (get (tunnel_event setting event (entry_of setting parser side side) []) "event_id"
      ≡ setting.fresh_id)
    × (get (tunnel_event setting event (entry_of setting parser side side) []) "time" ≡ setting.now)
tunnel_event-own_example =
    tunnel_event-own setting event (entry_of setting parser side side) [] event-IsTagged
