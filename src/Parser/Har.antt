-- ===== src/Parser/Har.antt =====
-- tracer/parser.go: UseRequest and UseResponse, which record one side of an exchange. The packages har,
-- gzip and brotli answer through arguments; the sampler has what was read of the body.
use subtrace_docker_wireshar.Base.{
  ℕ, Bool, ◌||◌, List, [], ◌∷◌, map, Option, none, some, length, if◌then◌else◌,
}
use subtrace_docker_wireshar.Base.Text.{codes, equal, to_lower}
use subtrace_docker_wireshar.Config.{Config, sanitize_credential}
use subtrace_docker_wireshar.Parser.Proto.{Bytes, Wire}
use subtrace_docker_wireshar.Parser.Grpc.{
  Entry, jsonify, Jsonified, json, unchanged, crashes, out_of_fuel,
}
use subtrace_docker_wireshar.Tracer.Sampler.{Sampler}

-- A cookie of package har; `expires` has both texts of the time.
pub record Cookie : Type 0 where
  pub name : Bytes
  pub value : Bytes
  pub path : Bytes
  pub domain : Bytes
  pub expires : Bytes × Bytes
  pub http_only : Bool
  pub secure : Bool

-- What har.NewRequest and har.NewResponse make of the headers and the cookies. `others` is the rest of
-- it, such as the method and the URL, which the two calls only hand on.
pub record Har : Type 0 where
  pub headers : List (Bytes × Bytes)
  pub cookies : List Cookie
  pub others : List Bytes

-- One side as it comes: the result of package har, what Header.Get says of the encoding and the type,
-- whether the body ended without an error, and its sampler.
pub record Incoming : Type 0 where
  pub har : Option Har
  pub content_encoding : Bytes
  pub content_type : Bytes
  pub body_read : Bool
  pub sampler : Sampler

-- The other packages, and the settings.
pub record Tools : Type 0 where
  pub gunzip : Bytes → Option Bytes
  pub unbrotli : Bytes → Option Bytes
  pub wire : Wire
  pub marshal : List Entry → Option Bytes
  pub grpc_setting : Bytes
  pub sanitize : Bytes → Bytes

-- What is recorded; `size` is set for a response only.
pub record Side : Type 0 where
  pub har : Har
  pub mime : Bytes
  pub text : Bytes
  pub size : Option ℕ

-- A side, an error of it, or a panic of the goroutine.
pub data Recording : Type 0 where
  recorded : Side → Recording
  failed panics : Recording

-- The loops that sanitize; `secret` says which headers.
abbrev pub scrub_header : (Bytes → Bytes) → (Bytes → Bool) → Bytes × Bytes → Bytes × Bytes
scrub_header sanitize secret (name, value) =
    if secret (to_lower name) then (name, sanitize value) else (name, value)

abbrev pub scrub_cookie : (Bytes → Bytes) → Cookie → Cookie
scrub_cookie sanitize c = record c { value = sanitize c.value }

unfoldable pub scrub : (Bytes → Bytes) → (Bytes → Bool) → Har → Har
unfolding to_lower
scrub sanitize secret h = record h {
  headers = map (scrub_header sanitize secret) h.headers;
  cookies = map (scrub_cookie sanitize) h.cookies;
}

-- The body: what the sampler has, which is decoded only if it is whole.
unfoldable pub body_text : Tools → Bytes → Sampler → Option Bytes
unfolding equal
body_text t encoding s =
    if s.over
    then some s.kept
    else if equal encoding (codes "gzip")
    then t.gunzip s.kept
    else if equal encoding (codes "br")
    then t.unbrotli s.kept
    else some s.kept

abbrev pub json_side : Side → Jsonified → Recording
json_side side (json b) = recorded (record side { mime = codes "application/json"; text = b })
json_side side unchanged = recorded side
json_side side crashes = panics
json_side side out_of_fuel = panics

abbrev pub and_then : (Side → Recording) → Recording → Recording
and_then go_on (recorded side) = go_on side
and_then go_on failed = failed
and_then go_on panics = panics

-- The loop that looks for content types; each is tried with the text of the body.
unfoldable pub jsonify_headers : Tools → Bytes → List (Bytes × Bytes) → Side → Recording
unfolding equal to_lower jsonify
jsonify_headers t text [] side = recorded side
jsonify_headers t text ((name, value) ∷ rest) side =
    and_then (λ side'. jsonify_headers t text rest side')
      (if equal (to_lower name) (codes "content-type")
        then json_side side (jsonify t.wire t.marshal t.grpc_setting value text)
        else recorded side)

abbrev pub with_text : Tools → Incoming → Har → Option ℕ → Option Bytes → Recording
with_text t i h size none = failed
with_text t i h size (some text) =
    jsonify_headers t text h.headers
      (record { har = h; mime = i.content_type; text = text; size = size })

-- The goroutine of either call, with the headers that it sanitizes.
unfoldable pub use_side : Tools → (Bytes → Bool) → Option ℕ → Incoming → Recording
unfolding scrub body_text jsonify_headers
use_side t secret size i = elim i.har [
  | none ↦ failed
  | some h ↦
      if i.body_read
      then with_text t i (scrub t.sanitize secret h) size (body_text t i.content_encoding i.sampler)
      else failed
]

abbrev pub request_secret : Bytes → Bool
request_secret name = equal name (codes "authorization") || equal name (codes "cookie")

abbrev pub response_secret : Bytes → Bool
response_secret name = equal name (codes "set-cookie")

unfoldable pub use_request : Tools → Incoming → Recording
unfolding use_side equal
use_request t i = use_side t request_secret none i

unfoldable pub use_response : Tools → Incoming → Recording
unfolding use_side equal
use_response t i = use_side t response_secret (some (length i.sampler.kept)) i

-- The tools of a tracer with some configuration.
unfoldable pub configured : {E : Type 0} → (Bytes → Bytes) → Config E → Tools → Tools
unfolding sanitize_credential
configured hash c t = record t { sanitize = sanitize_credential hash c }
