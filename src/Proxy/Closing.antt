-- ===== src/Proxy/Closing.antt =====
-- cmd/run/socket/proxy.go: Close and start of a proxy, and the flag skipCloseTCP that start and the Close of
-- a socket (cmd/run/socket/socket.go) race for. Each step is one of theirs, in any order.
use subtrace_docker_wireshar.Base.{
  ◌≡◌, ◌≢◌, refl, arith, Bool, true, false, not, List, [], ◌∷◌, Option, none, some, Option-cases,
  inl, inr, if◌then◌else◌,
}

-- start copies, has swapped the flag and won or not, has still to run what it deferred, or has ended.
pub data Start : Type 0 where
  copying : Start
  swapped : Bool → Start
  deferring finished : Start

-- The socket's Close has not come to the proxy, has swapped the flag, or is done with it.
pub data Closer : Type 0 where
  idle : Closer
  lost : Closer
  over : Closer

pub record Proxy : Type 0 where
  pub process_open : Bool
  pub external_open : Bool
  pub skip_close : Bool
  pub start : Start
  pub closer : Closer

-- A proxy with its two connections, and start at its copy.
unfoldable pub begin : Proxy
begin = record {
  process_open = true;
  external_open = true;
  skip_close = false;
  start = copying;
  closer = idle;
}

-- (*proxy).Close, also of connections that are closed.
unfoldable pub close : Proxy → Proxy
close p = record p { process_open = false; external_open = false }

-- The steps of start: the copy ends and the flag is swapped; the connections are closed if the swap failed;
-- the deferred Close. Those of the socket: the swap, and the close if it failed.
pub data Event : Type 0 where
  copy_ends close_if_lost deferred_close : Event
  socket_swaps socket_closes : Event

unfoldable pub step : Event → Proxy → Option Proxy
unfolding close
step copy_ends p = elim p.start [
  | copying ↦ some (record p { skip_close = true; start = swapped (not p.skip_close) })
  | _ ↦ none
]
step close_if_lost p = elim p.start [
  | swapped won ↦
      some (if won then record p { start = deferring } else record (close p) { start = deferring })
  | _ ↦ none
]
step deferred_close p = elim p.start [
  | deferring ↦ some (record (close p) { start = finished })
  | _ ↦ none
]
step socket_swaps p = elim p.closer [
  | idle ↦ some (record p { skip_close = true; closer = if p.skip_close then lost else over })
  | _ ↦ none
]
step socket_closes p = elim p.closer [ lost ↦ some (record (close p) { closer = over }) | _ ↦ none ]

unfoldable pub steps : List Event → Proxy → Option Proxy
unfolding step
steps [] p = some p
steps (e ∷ rest) p = elim (step e p) [ none ↦ none | some p' ↦ steps rest p' ]

-- While start copies, the connections are open and the socket has not lost; after it has ended they are
-- closed.
record IsKept (p : Proxy) : Type 0 where
  fresh : p.start ≡ copying → p.closer ≡ idle → p.skip_close ≡ false
  unlost : p.start ≡ copying → p.closer ≢ lost
  copies : p.start ≡ copying → (p.process_open ≡ true) × (p.external_open ≡ true)
  ended : p.start ≡ finished → (p.process_open ≡ false) × (p.external_open ≡ false)

step-IsKept : (e : Event) (p p' : Proxy) → step e p ≡ some p' → IsKept p → IsKept p'
unfolding step close
step-IsKept copy_ends p p' h k = ground (arith, h)
step-IsKept close_if_lost p p' h k = ground (arith, h)
step-IsKept deferred_close p p' h k = ground (arith, h)
step-IsKept socket_swaps p p' h k = ground (arith, h, k.fresh, k.unlost, k.copies, k.ended)
step-IsKept socket_closes p p' h k = ground (arith, h, k.fresh, k.unlost, k.copies, k.ended)

steps-IsKept : (es : List Event) (p p' : Proxy) → steps es p ≡ some p' → IsKept p → IsKept p'
unfolding steps
steps-IsKept [] p p' h k = ground (arith, h, k)
steps-IsKept (e ∷ rest) p p' h k = elim (Option-cases (step e p)) [
  | inl none_left ↦ ground (arith, none_left, h)
  | inr (q, taken) ↦ steps-IsKept rest q p' (ground (arith, taken, h)) (step-IsKept e p q taken k)
]

-- The connections, by how far start is.
abbrev pub Connections : Start → Proxy → Type 0
Connections copying p = (p.process_open ≡ true) × (p.external_open ≡ true)
Connections finished p = (p.process_open ≡ false) × (p.external_open ≡ false)
Connections _ p = Unit

-- In whatever order start of a proxy and the Close of its socket take their steps, neither connection is
-- closed while start still copies, and both are closed once start has ended, whether or not the socket was
-- closed.
pub steps-closes : (es : List Event) (p : Proxy) → steps es begin ≡ some p → Connections p.start p
unfolding begin
steps-closes es p h =
    let k = steps-IsKept es begin p h (record {
      fresh = λ a b. refl;
      unlost = λ a b. cc;
      copies = λ a. (refl, refl);
      ended = λ a. cc;
    }) in
    by_start p.start (λ e. k.copies e) (λ e. k.ended e)
  where
    by_start :
        (s : Start)
        → (s ≡ copying → (p.process_open ≡ true) × (p.external_open ≡ true))
        → (s ≡ finished → (p.process_open ≡ false) × (p.external_open ≡ false))
        → Connections s p
    by_start copying c f = c refl
    by_start (swapped won) c f = tt
    by_start deferring c f = tt
    by_start finished c f = f refl
