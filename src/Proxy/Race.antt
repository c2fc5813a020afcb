-- ===== src/Proxy/Race.antt =====
-- cmd/run/socket/proxy.go: the race of proxyOptimistic. One goroutine waits for the server's first bytes
-- and one for the client's; each step is one of theirs, in any order.
use subtrace_docker_wireshar.Base.{
  ℕ, ◌+◌, ◌≤◌, ◌<◌, ◌≡◌, refl, arith, Bool, true, false, List, [], ◌∷◌, Option, none, some,
  Option-cases, inl, inr, Bool-cases, length, if◌then◌else◌,
}
use subtrace_docker_wireshar.Proxy.Guess.{Protocol, http1, http2, tls, unknown}

pub data Handler : Type 0 where
  fallback proxy_tls proxy_http1 proxy_http2 : Handler

-- The switch on the guess; `enabled` is tls.Enabled.
unfoldable pub handler_of : Bool → Protocol → Handler
handler_of enabled tls = if enabled then proxy_tls else fallback
handler_of enabled http1 = proxy_http1
handler_of enabled http2 = proxy_http2
handler_of enabled unknown = fallback

-- A goroutine waits for its side's bytes, has them, or has ended.
pub data Side : Type 0 where
  peeking peeked over : Side

-- `race` is the flag that both swap, `failures` how many sides ended because their peek failed, and
-- `started` the handlers that were started.
pub record Race : Type 0 where
  pub race : Bool
  pub server : Side
  pub client : Side
  pub failures : ℕ
  pub started : List Handler

unfoldable pub start : Race
start = record { race = false; server = peeking; client = peeking; failures = 0; started = [] }

-- A peek succeeds or not; a swap of the flag wins if it is down. The client's guess is its argument.
pub data Event : Type 0 where
  server_peeks client_peeks : Bool → Event
  server_swaps : Event
  client_swaps : Bool → Protocol → Event

abbrev pub after_peek : Bool → Side
after_peek ok = if ok then peeked else over

abbrev pub failed : Bool → ℕ
failed ok = if ok then 0 else 1

abbrev pub swap_flag : Handler → Race → Race
swap_flag h r = if r.race then r else record r { race = true; started = h ∷ r.started }

unfoldable pub step : Event → Race → Option Race
unfolding handler_of
step (server_peeks ok) r = elim r.server [
  | peeking ↦ some (record r { server = after_peek ok; failures = failed ok + r.failures })
  | peeked ↦ none
  | over ↦ none
]
step (client_peeks ok) r = elim r.client [
  | peeking ↦ some (record r { client = after_peek ok; failures = failed ok + r.failures })
  | peeked ↦ none
  | over ↦ none
]
step server_swaps r = elim r.server [
  | peeking ↦ none
  | peeked ↦ some (record (swap_flag fallback r) { server = over })
  | over ↦ none
]
step (client_swaps enabled guess) r = elim r.client [
  | peeking ↦ none
  | peeked ↦ some (record (swap_flag (handler_of enabled guess) r) { client = over })
  | over ↦ none
]

unfoldable pub steps : List Event → Race → Option Race
unfolding step
steps [] r = some r
steps (e ∷ rest) r = elim (step e r) [ none ↦ none | some r' ↦ steps rest r' ]

abbrev pub ended : Side → ℕ
ended over = 1
ended _ = 0

-- One handler is started if the flag is up and none else; while it is down, only sides that failed have
-- ended.
record IsFair (r : Race) : Type 0 where
  one : length r.started ≡ (if r.race then 1 else 0)
  down : r.race ≡ false → ended r.server + ended r.client ≡ r.failures

step-IsFair : (e : Event) (r r' : Race) → IsFair r → step e r ≡ some r' → IsFair r'
unfolding step
step-IsFair (server_peeks ok) r r' f h = record {
  one = ground (arith, f.one);
  down = λ d. ground (arith, f.down);
}
step-IsFair (client_peeks ok) r r' f h = record {
  one = ground (arith, f.one);
  down = λ d. ground (arith, f.down);
}
step-IsFair server_swaps r r' f h = record {
  one = ground (arith, f.one);
  down = λ d. ground (arith, f.down);
}
step-IsFair (client_swaps enabled guess) r r' f h = record {
  one = ground (arith, f.one);
  down = λ d. ground (arith, f.down);
}

steps-IsFair : (run : List Event) (r r' : Race) → IsFair r → steps run r ≡ some r' → IsFair r'
unfolding steps
steps-IsFair [] r r' f h = record {
  one = ground (arith, f.one);
  down = λ d. ground (arith, f.down);
}
steps-IsFair (e ∷ rest) r r' f h = elim (Option-cases (step e r)) [
  | inl n ↦ absurd (ground (arith, h, n))
  | inr (r1, s) ↦ steps-IsFair rest r1 r' (step-IsFair e r r1 f s) (ground (arith, h, s))
]

-- Whatever order the two goroutines wait, fail and swap the flag in, at most one handler is ever
-- started; and once both have ended, just one has been, unless the peeks of both sides failed.
pub one_handler :
    (run : List Event) (r : Race)
    → steps run start ≡ some r
    → (length r.started ≤ 1)
      × (r.server ≡ over → r.client ≡ over → r.failures < 2 → length r.started ≡ 1)
unfolding start
one_handler run r h =
    let fair = steps-IsFair run start r (record { one = refl; down = λ d. refl }) h in
    (
      ground (arith, fair.one),
      λ s c few. elim (Bool-cases r.race) [
        | inl e ↦ ground (arith, e, fair.one)
        | inr e ↦ absurd (ground (arith, s, c, few, fair.down e))
      ],
    )
