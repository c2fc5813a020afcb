-- ===== src/Proxy/Http1.antt =====
-- cmd/run/socket/proxy.go: the goroutine of proxyHTTP1 that traces requests and responses from copies of the
-- two directions. What http.ReadRequest and http.ReadResponse read is an argument, call by call.
use subtrace_docker_wireshar.Base.{
  ℕ, ◌≡◌, ap, arith, Bool, false, ◌&&◌, List, [], ◌∷◌, ◌++◌, map, Option, none, some, All, ◌==◌,
  length, if◌then◌else◌,
}
use subtrace_docker_wireshar.Base.Text.{codes, equal, to_lower}

abbrev pub Bytes : Type 0
Bytes = List ℕ

-- A result of ReadRequest or ReadResponse: io.EOF and net.ErrClosed are ends.
pub data Read (A : Type 0) : Type 0 where
  got : A → Read A
  at_end failing : Read A

pub record Request : Type 0 where
  pub line : Bytes
  pub upgrade : Bytes

pub record Response : Type 0 where
  pub status : ℕ
  pub text : Bytes

-- What follows a 101: newWebsocket fails, its proxy ends well, at a limit or at the end of the connection,
-- or with an error; and whether the rest of the connection could be discarded.
pub data Upgraded : Type 0 where
  not_created proxy_fails : Upgraded
  proxied : List Bytes → Upgraded

pub record Switching : Type 0 where
  pub enabled : Bool
  pub websocket : Upgraded
  pub discarded : Bool

-- A parser that Finish was called for.
pub record Exchange : Type 0 where
  pub request : Request
  pub response : Response
  pub messages : Option (List Bytes)

-- The end of the goroutine: what it sends to the channel of errors, or that it waits.
pub data End : Type 0 where
  no_error error still : End

abbrev pub plain : Request → Response → Exchange
plain q r = record { request = q; response = r; messages = none }

abbrev pub after_upgrade : Request → Response → Upgraded → List Exchange × End
after_upgrade q r not_created = ([], error)
after_upgrade q r proxy_fails = ([], error)
after_upgrade q r (proxied msgs) =
    (record { request = q; response = r; messages = some msgs } ∷ [], no_error)

-- The branch of a 101.
unfoldable pub switch_protocols : Switching → Request → Response → List Exchange × End
unfolding equal to_lower
switch_protocols s q r =
    if s.enabled && equal (to_lower q.upgrade) (codes "websocket")
    then after_upgrade q r s.websocket
    else (plain q r ∷ [], if s.discarded then no_error else error)

abbrev pub onto : Exchange → List Exchange × End → List Exchange × End
onto e (es, end) = (e ∷ es, end)

-- The loop; it returns the exchanges that were finished.
unfoldable pub trace : Switching → List (Read Request) → List (Read Response) → List Exchange × End
unfolding switch_protocols
trace s [] responses = ([], still)
trace s (at_end ∷ requests) responses = ([], no_error)
trace s (failing ∷ requests) responses = ([], error)
trace s (got q ∷ requests) [] = ([], still)
trace s (got q ∷ requests) (at_end ∷ responses) = ([], no_error)
trace s (got q ∷ requests) (failing ∷ responses) = ([], error)
trace s (got q ∷ requests) (got r ∷ responses) =
    let rest = trace s requests responses in
    if r.status == 101 then switch_protocols s q r else onto (plain q r) rest

-- The n-th request with the n-th response.
abbrev pub pair_up : List Request → List Response → List Exchange
pair_up [] rs = []
pair_up (q ∷ qs) [] = []
pair_up (q ∷ qs) (r ∷ rs) = plain q r ∷ pair_up qs rs

abbrev pub NoSwitch : List Response → Type 0
NoSwitch rs = All (λ (r : Response). (r.status == 101) ≡ false) rs

-- After a 101 nothing more of the connection is traced, whatever is read of it.
pub trace-switch :
    (s : Switching) (qs : List Request) (rs : List Response) (q : Request) (r : Response)
    (requests : List (Read Request)) (responses : List (Read Response))
    → length qs ≡ length rs
    → NoSwitch rs
    → r.status ≡ 101
    → trace s (map got qs ++ got q ∷ requests) (map got rs ++ got r ∷ responses)
      ≡ (pair_up qs rs ++ (switch_protocols s q r).0, (switch_protocols s q r).1)
unfolding trace
trace-switch s [] [] q r requests responses l h e = ground (arith, e)
trace-switch s [] (x ∷ rs) q r requests responses l h e = absurd (omega (arith, l))
trace-switch s (x ∷ qs) [] q r requests responses l h e = absurd (omega (arith, l))
trace-switch s (x ∷ qs) (y ∷ rs) q r requests responses l h e =
    rw h.0
      (ap (onto (plain x y)) (trace-switch s qs rs q r requests responses (omega (arith, l)) h.1 e))
