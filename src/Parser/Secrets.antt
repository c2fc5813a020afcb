-- ===== src/Parser/Secrets.antt =====
-- What UseRequest and UseResponse of tracer/parser.go keep of credentials, and of a body.
use subtrace_docker_wireshar.Base.{
  ℕ, ◌≡◌, refl, ap, ◌∙◌, Bool, true, false, ◌⊎◌, inl, inr, List, [], ◌∷◌, map, Option, none, some,
  length, if◌then◌else◌,
}
use subtrace_docker_wireshar.Base.Text.{codes, equal, to_lower}
use subtrace_docker_wireshar.Config.{Config, sanitize_credential}
use subtrace_docker_wireshar.Parser.Proto.{Bytes}
use subtrace_docker_wireshar.Parser.Har.{
  Cookie, Har, Incoming, Tools, failed, scrub_header, scrub_cookie, scrub, body_text, with_text,
  use_side, request_secret, response_secret, use_request, use_response, configured,
}

-- A name, in any case of letters, is one of some names.
abbrev pub IsNamed : List Bytes → Bytes → Type 0
IsNamed [] n = ⊥
IsNamed (s ∷ names) n = (to_lower n ≡ s) ⊎ IsNamed names n

-- Two headers that differ in the values of the fields with one of the names only.
abbrev pub SameButSecret : List Bytes → List (Bytes × Bytes) → List (Bytes × Bytes) → Type 0
SameButSecret names [] [] = Unit
SameButSecret names ((n, v) ∷ hs) ((m, u) ∷ ks) =
    (n ≡ m) × (IsNamed names n ⊎ (v ≡ u)) × SameButSecret names hs ks
SameButSecret names _ _ = ⊥

-- Cookies that differ in their values only.
abbrev pub SameButValues : List Cookie → List Cookie → Type 0
SameButValues [] [] = Unit
SameButValues (c ∷ cs) (d ∷ ds) = (record c { value = d.value } ≡ d) × SameButValues cs ds
SameButValues _ _ = ⊥

-- Two requests, or responses, that differ in these values only.
abbrev pub Alike : List Bytes → Har → Har → Type 0
Alike names h k =
    SameButSecret names h.headers k.headers
    × SameButValues h.cookies k.cookies
    × (h.others ≡ k.others)

-- The fields with credentials.
abbrev pub request_names : List Bytes
request_names = codes "authorization" ∷ codes "cookie" ∷ []

abbrev pub response_names : List Bytes
response_names = codes "set-cookie" ∷ []

-- Neither of the settings that keep something of a credential.
abbrev pub Redacts : {E : Type 0} → Config E → Type 0
Redacts c =
    (equal c.auth_credentials (codes "keep") ≡ false)
    × (equal c.auth_credentials (codes "hash") ≡ false)

module _ (sanitize : Bytes → Bytes) (secret : Bytes → Bool) (names : List Bytes)
    (blind : (u v : Bytes) → sanitize u ≡ sanitize v)
    (all_secret : (n : Bytes) → IsNamed names n → secret (to_lower n) ≡ true) where
  header-alike :
      (n v u : Bytes)
      → IsNamed names n ⊎ (v ≡ u)
      → scrub_header sanitize secret (n, v) ≡ scrub_header sanitize secret (n, u)
  header-alike n v u (inl s) = rw (all_secret n s) (ap (λ x. (n, x)) (blind v u))
  header-alike n v u (inr e) = ap (λ x. scrub_header sanitize secret (n, x)) e

  headers-alike :
      (hs ks : List (Bytes × Bytes))
      → SameButSecret names hs ks
      → map (scrub_header sanitize secret) hs ≡ map (scrub_header sanitize secret) ks
  headers-alike [] [] h = refl
  headers-alike [] (k ∷ ks) h = absurd h
  headers-alike ((n, v) ∷ hs) [] h = absurd h
  headers-alike ((n, v) ∷ hs) ((m, u) ∷ ks) (e, s, rest) =
      ap (λ x. x ∷ map (scrub_header sanitize secret) hs)
        (header-alike n v u s ∙ ap (λ x. scrub_header sanitize secret (x, u)) e)
      ∙ ap (λ x. scrub_header sanitize secret (m, u) ∷ x) (headers-alike hs ks rest)

  cookie-alike :
      (c d : Cookie)
      → record c { value = d.value } ≡ d
      → scrub_cookie sanitize c ≡ scrub_cookie sanitize d
  cookie-alike c d e =
      ap (λ x. record c { value = x }) (blind c.value d.value) ∙ ap (scrub_cookie sanitize) e

  cookies-alike :
      (xs ys : List Cookie)
      → SameButValues xs ys
      → map (scrub_cookie sanitize) xs ≡ map (scrub_cookie sanitize) ys
  cookies-alike [] [] h = refl
  cookies-alike [] (y ∷ ys) h = absurd h
  cookies-alike (x ∷ xs) [] h = absurd h
  cookies-alike (x ∷ xs) (y ∷ ys) (e, rest) =
      ap (λ c. c ∷ map (scrub_cookie sanitize) xs) (cookie-alike x y e)
      ∙ ap (λ cs. scrub_cookie sanitize y ∷ cs) (cookies-alike xs ys rest)

  scrub-Alike : (h k : Har) → Alike names h k → scrub sanitize secret h ≡ scrub sanitize secret k
  unfolding scrub
  scrub-Alike h k (hs, cs, os) =
      cc (headers-alike h.headers k.headers hs, cookies-alike h.cookies k.cookies cs, os)

  use_side-Alike :
      (t : Tools) (size : Option ℕ) (i : Incoming) (h k : Har)
      → t.sanitize ≡ sanitize
      → Alike names h k
      → use_side t secret size (record i { har = some h })
        ≡ use_side t secret size (record i { har = some k })
  unfolding use_side
  use_side-Alike t size i h k e a =
      let same : scrub t.sanitize secret h ≡ scrub t.sanitize secret k = rw e (scrub-Alike h k a) in
      ap
        (λ x.
          if i.body_read
          then with_text t i x size (body_text t i.content_encoding i.sampler)
          else failed)
        same

redacted :
    {E : Type 0} (hash : Bytes → Bytes) (c : Config E) (u v : Bytes)
    → Redacts c
    → sanitize_credential hash c u ≡ sanitize_credential hash c v
unfolding sanitize_credential
redacted hash c u v r = rw (r.0, r.1) refl

request_all : (n : Bytes) → IsNamed request_names n → request_secret (to_lower n) ≡ true
unfolding equal
request_all n (inl e) = rw e refl
request_all n (inr (inl e)) = rw e refl
request_all n (inr (inr h)) = absurd h

response_all : (n : Bytes) → IsNamed response_names n → response_secret (to_lower n) ≡ true
unfolding equal
response_all n (inl e) = rw e refl
response_all n (inr h) = absurd h

-- Unless the setting says keep or hash, two requests of which package har makes the same but for the
-- values of Authorization and Cookie fields, in any case of letters, and of cookies, are recorded alike,
-- and two responses that it makes the same of but for the values of Set-Cookie fields and of cookies are
-- too. The names and the attributes of cookies are recorded, and are the same.
pub use_request-blind :
    {E : Type 0} (hash : Bytes → Bytes) (c : Config E) (t : Tools) (i : Incoming) (h k h' k' : Har)
    → Redacts c
    → Alike request_names h k
    → Alike response_names h' k'
    → (use_request (configured hash c t) (record i { har = some h })
        ≡ use_request (configured hash c t) (record i { har = some k }))
      × (use_response (configured hash c t) (record i { har = some h' })
          ≡ use_response (configured hash c t) (record i { har = some k' }))
unfolding use_request use_response configured
use_request-blind hash c t i h k h' k' r a a' =
    let blind = λ (u v : Bytes). redacted hash c u v r in
    (
      use_side-Alike (sanitize_credential hash c) request_secret request_names blind request_all
          (configured hash c t) none i h k refl a,
      use_side-Alike (sanitize_credential hash c) response_secret response_names blind response_all
          (configured hash c t) (some (length i.sampler.kept)) i h' k' refl a',
    )
