-- ===== src/Parser/Body.antt =====
-- What UseRequest and UseResponse of tracer/parser.go record of a body that comes in chunks.
use Prim.Native.Nat.{min}
use subtrace_docker_wireshar.Base.{
  ℕ, ◌≡◌, refl, ap, ◌∙◌, arith, Bool, true, false, Bool-cases, inl, inr, List, [], ◌∷◌, Option,
  none, some, take, length, length-take,
}
use subtrace_docker_wireshar.Base.Text.{codes, equal, to_lower, says_yes}
use subtrace_docker_wireshar.Parser.Proto.{Bytes}
use subtrace_docker_wireshar.Parser.Grpc.{jsonify, unchanged}
use subtrace_docker_wireshar.Parser.Har.{
  Har, Incoming, Tools, Side, recorded, scrub, body_text, jsonify_headers, use_side, request_secret,
  response_secret, use_request, use_response,
}
use subtrace_docker_wireshar.Tracer.Sampler.{
  Sampler, new_sampler, read_all, whole_body, read_all-first,
}

jsonify_off :
    (t : Tools) (mime buf : Bytes)
    → says_yes t.grpc_setting ≡ false
    → jsonify t.wire t.marshal t.grpc_setting mime buf ≡ unchanged
unfolding jsonify
jsonify_off t mime buf off = elim (Bool-cases (equal mime (codes "application/grpc"))) [
  | inl e ↦ rw (e, off) refl
  | inr e ↦ rw e refl
]

jsonify_headers_off :
    (t : Tools) (text : Bytes) (hs : List (Bytes × Bytes)) (side : Side)
    → says_yes t.grpc_setting ≡ false
    → jsonify_headers t text hs side ≡ recorded side
unfolding jsonify_headers
jsonify_headers_off t text [] side off = refl
jsonify_headers_off t text ((name, value) ∷ rest) side off =
    elim (Bool-cases (equal (to_lower name) (codes "content-type"))) [
      | inl e ↦ rw (e, jsonify_off t value text off) (jsonify_headers_off t text rest side off)
      | inr e ↦ rw e (jsonify_headers_off t text rest side off)
    ]

-- A body with no encoding, or one that was cut, is recorded as the sampler has it.
abbrev pub IsPlain : Bytes → Type 0
IsPlain encoding = (equal encoding (codes "gzip") ≡ false) × (equal encoding (codes "br") ≡ false)

body_text_plain :
    (t : Tools) (encoding : Bytes) (s : Sampler)
    → IsPlain encoding
    → body_text t encoding s ≡ some s.kept
unfolding body_text
body_text_plain t encoding s h = rw (h.0, h.1) (ground arith)

use_side_plain :
    (t : Tools) (secret : Bytes → Bool) (size : Option ℕ) (i : Incoming) (h : Har)
    → i.har ≡ some h
    → i.body_read ≡ true
    → IsPlain i.content_encoding
    → says_yes t.grpc_setting ≡ false
    → use_side t secret size i
      ≡ recorded (record {
        har = scrub t.sanitize secret h;
        mime = i.content_type;
        text = i.sampler.kept;
        size = size;
      })
unfolding use_side
use_side_plain t secret size i h parsed read plain off =
    rw (parsed, use_side, read, body_text_plain t i.content_encoding i.sampler plain)
      (jsonify_headers_off t i.sampler.kept (scrub t.sanitize secret h).headers _ off)

-- A body that ends without an error and has neither of the two encodings is recorded, where JSON for
-- gRPC is off, as its first bytes up to the limit, however it comes in chunks; and the size of a
-- response's is how many these are, not how long the body is.
pub use_side-body :
    (t : Tools) (limit : ℕ) (chunks : List Bytes) (i : Incoming) (h : Har)
    → i.har ≡ some h
    → i.body_read ≡ true
    → IsPlain i.content_encoding
    → says_yes t.grpc_setting ≡ false
    → i.sampler ≡ read_all limit new_sampler chunks
    → (use_request t i
        ≡ recorded (record {
          har = scrub t.sanitize request_secret h;
          mime = i.content_type;
          text = take limit (whole_body chunks);
          size = none;
        }))
      × (use_response t i
          ≡ recorded (record {
            har = scrub t.sanitize response_secret h;
            mime = i.content_type;
            text = take limit (whole_body chunks);
            size = some (min limit (length (whole_body chunks)));
          }))
unfolding use_request use_response
use_side-body t limit chunks i h parsed read plain off sampled =
    let kept : i.sampler.kept ≡ take limit (whole_body chunks) =
      ap (λ s. s.kept) sampled ∙ (read_all-first limit chunks).0 in
    let long : length i.sampler.kept ≡ min limit (length (whole_body chunks)) =
      ap length kept ∙ length-take limit (whole_body chunks) in
    (
      use_side_plain t request_secret none i h parsed read plain off
          ∙ ap
              (λ x. recorded (record {
                har = scrub t.sanitize request_secret h;
                mime = i.content_type;
                text = x;
                size = none;
              }))
              kept,
      use_side_plain t response_secret (some (length i.sampler.kept)) i h parsed read plain off
          ∙ cc (kept, long),
    )
