-- ===== src/Socket/Graph.antt =====
-- cmd/run/socket/socket.go: which states of an inode follow which.
use subtrace_docker_wireshar.Base.{
  ℕ, ◌≡◌, refl, arith, Bool, true, false, none, some, Run, ok, [], Option, sym, Outcome, ap, ◌∙◌,
  inl, inr,
}
use subtrace_docker_wireshar.Fd.Calls.{Fd}
use subtrace_docker_wireshar.Socket.State.{
  AddrPort, State, passive, connected, connecting, listening, closed, Socket, Reply, referenced,
  remote_bind_addr,
}
use subtrace_docker_wireshar.Socket.Method.{referenced-run}
use subtrace_docker_wireshar.Socket.Bind.{BindWorld, bind_in, bind}
use subtrace_docker_wireshar.Socket.Connect.{
  ConnectWorld, Started, connect_in, connect, Dial, no_dummy, refused_dial, dialed, settle_dial,
  drop_bind,
}
use subtrace_docker_wireshar.Socket.Listen.{
  ListenWorld, listen_in, listen, AcceptWorld, accept_in, accept,
}
use subtrace_docker_wireshar.Socket.Close.{Cleanup, close}

-- The states that may follow a state: Bind, Connect and Listen start from passive only, a dial turns
-- connecting into connected or back into passive, and everything may be closed.
abbrev pub follows : State → State → Bool
follows (passive b e) (connected p) = false
follows (passive b e) _ = true
follows (connecting b peer) (listening l) = false
follows (connecting b peer) _ = true
follows (connected p) (connected q) = true
follows (listening l) (listening m) = true
follows closed closed = true
follows _ closed = true
follows _ _ = false

follows_self : (st : State) → follows st st ≡ true
follows_self (passive b e) = refl
follows_self (connected p) = refl
follows_self (connecting b peer) = refl
follows_self (listening l) = refl
follows_self closed = refl

stays : (st st' : State) → st' ≡ st → follows st st' ≡ true
stays st st' e = ap (follows st) e ∙ follows_self st

referenced-follows {ℓ} :
    {A : Type ℓ} (body : Socket → Run (Outcome A × Socket)) (s s' : Socket) (r : Outcome A)
    → ((f : Fd) (t : Socket)
        → body (record s { fd = f }) ≡ ok (r, t)
        → follows s.state t.state ≡ true)
    → referenced body s ≡ ok (r, s')
    → follows s.state s'.state ≡ true
referenced-follows body s s' r moves h = elim (referenced-run body s s' r h) [
  | inl (refusal, same, shut) ↦ ap (follows s.state) same ∙ follows_self s.state
  | inr (f, t, e, at, shut) ↦ ap (follows s.state) at ∙ moves f t e
]

bind_in-follows :
    (w : BindWorld) (a : AddrPort) (s s' : Socket) (r : Reply) (st : State)
    → w.meddled ≡ none
    → bind_in w a s st ≡ ok (r, s')
    → s.state ≡ st
    → follows st s'.state ≡ true
unfolding bind_in
bind_in-follows w a s s' r (passive none e) m h k = ground arith
bind_in-follows w a s s' r (passive (some b) e) m h k = ground arith
bind_in-follows w a s s' r (connected p) m h k = ground arith
bind_in-follows w a s s' r _ m h k = ground arith

connect_in-follows :
    (w : ConnectWorld) (a : AddrPort) (s s' : Socket) (r : Outcome Started) (st : State)
    → w.meddled ≡ none
    → connect_in w a s st ≡ ok (r, s')
    → s.state ≡ st
    → follows st s'.state ≡ true
unfolding connect_in remote_bind_addr
connect_in-follows w a s s' r (passive none e) m h k = ground arith
connect_in-follows w a s s' r (passive (some b) e) m h k = ground arith
connect_in-follows w a s s' r _ m h k = ground arith

listen_in-follows :
    (w : ListenWorld) (s s' : Socket) (r : Reply) (st : State)
    → w.meddled ≡ none
    → listen_in w s st ≡ ok (r, s')
    → s.state ≡ st
    → follows st s'.state ≡ true
unfolding listen_in remote_bind_addr
listen_in-follows w s s' r (passive none e) m h k = ground arith
listen_in-follows w s s' r (passive (some b) e) m h k = ground arith
listen_in-follows w s s' r _ m h k = ground arith

accept_in-state :
    (name : ℕ) (w : AcceptWorld) (s s' : Socket) (r : Outcome Socket) (st : State)
    → accept_in name w s st ≡ ok (r, s')
    → s'.state ≡ s.state
unfolding accept_in
accept_in-state name w s s' r (listening l) h = ground arith
accept_in-state name w s s' r _ h = ground arith

settle_dial-follows :
    (d : Dial) (b : Fd) (peer : AddrPort) (s s' : Socket) (n : ℕ)
    → s.state ≡ connecting b peer
    → settle_dial b d none s ≡ ok (n, s')
    → follows s.state s'.state ≡ true
unfolding settle_dial drop_bind
settle_dial-follows no_dummy b peer s s' n k h = ground arith
settle_dial-follows (refused_dial e) b peer s s' n k h = ground arith
settle_dial-follows (dialed p) b peer s s' n k h = ground arith

-- A call whose CompareAndSwap finds another state than the one it has loaded, `st`, leaves that state.
bind_in-late :
    (w : BindWorld) (a : AddrPort) (s s' : Socket) (r : Reply) (st : State)
    → w.meddled ≡ some s.state
    → bind_in w a s st ≡ ok (r, s')
    → s'.state ≡ s.state
unfolding bind_in
bind_in-late w a s s' r (passive none e) m h = ground arith
bind_in-late w a s s' r (passive (some b) e) m h = ground arith
bind_in-late w a s s' r _ m h = ground arith

-- The state after a late call of Connect or Listen that leaves its own socket in the second state. One
-- that is still passive has stored nothing, as these calls store connecting and listening states.
abbrev pub after_late : State → State → State
after_late now (passive b e) = now
after_late now st = st

connect_in-late :
    (w : ConnectWorld) (a : AddrPort) (s s' : Socket) (r : Outcome Started) (b : Option Fd) (e : ℕ)
    (now : State)
    → w.meddled ≡ some now
    → connect_in w a s (passive b e) ≡ ok (r, s')
    → s.state ≡ passive b e
    → after_late now s'.state ≡ now
unfolding connect_in remote_bind_addr
connect_in-late w a s s' r none e now m h k = ground arith
connect_in-late w a s s' r (some b) e now m h k = ground arith

listen_in-late :
    (w : ListenWorld) (s s' : Socket) (r : Reply) (b : Option Fd) (e : ℕ) (now : State)
    → w.meddled ≡ some now
    → listen_in w s (passive b e) ≡ ok (r, s')
    → s.state ≡ passive b e
    → after_late now s'.state ≡ now
unfolding listen_in remote_bind_addr
listen_in-late w s s' r none e now m h k = ground arith
listen_in-late w s s' r (some b) e now m h k = ground arith

referenced-late {ℓ} :
    {A : Type ℓ} (body : Socket → Run (Outcome A × Socket)) (s s' : Socket) (r : Outcome A)
    (b : Option Fd) (e : ℕ) (now : State)
    → s.state ≡ passive b e
    → ((f : Fd) (t : Socket)
        → body (record s { fd = f }) ≡ ok (r, t)
        → after_late now t.state ≡ now)
    → referenced body s ≡ ok (r, s')
    → after_late now s'.state ≡ now
referenced-late body s s' r b e now k moves h = elim (referenced-run body s s' r h) [
  | inl (refusal, same, shut) ↦ ap (after_late now) (same ∙ k)
  | inr (f, t, x, at, shut) ↦ ap (after_late now) at ∙ moves f t x
]

settle_dial-late :
    (d : Dial) (b : Fd) (s s' : Socket) (n : ℕ)
    → settle_dial b d (some s.state) s ≡ ok (n, s')
    → follows s.state s'.state ≡ true
unfolding settle_dial drop_bind
settle_dial-late no_dummy b s s' n h = ground arith
settle_dial-late (refused_dial e) b s s' n h = ground arith
settle_dial-late (dialed p) b s s' n h = ground arith

close-follows :
    (e : ℕ) (s s' : Socket) (n : ℕ) (c : Cleanup)
    → close e [] s ≡ ok (n, (c, s'))
    → follows s.state s'.state ≡ true
unfolding close
close-follows e s s' n c h = ground arith

-- A call that ends, on a socket in the state of `s`. Its CompareAndSwap finds the state that the call has
-- loaded; or it is late, has loaded a state before, and finds that of `s` in its place. A late Bind has
-- loaded `st`; a late Connect or Listen the passive state of `t`, which is the socket as it was; a late
-- dial some connecting state. A dial that is not late settles the connecting state that started it. Close
-- runs with no other call between its last load and its CompareAndSwap.
pub data Step (s s' : Socket) : Type 0 where
  binds :
      (w : BindWorld) (a : AddrPort) (r : Reply)
      → w.meddled ≡ none
      → bind w a s ≡ ok (r, s')
      → Step s s'
  connects :
      (w : ConnectWorld) (a : AddrPort) (r : Outcome Started)
      → w.meddled ≡ none
      → connect w a s ≡ ok (r, s')
      → Step s s'
  settles :
      (d : Dial) (b : Fd) (peer : AddrPort) (n : ℕ)
      → s.state ≡ connecting b peer
      → settle_dial b d none s ≡ ok (n, s')
      → Step s s'
  listens_to :
      (w : ListenWorld) (r : Reply) → w.meddled ≡ none → listen w s ≡ ok (r, s') → Step s s'
  accepts :
      (name : ℕ) (w : AcceptWorld) (r : Outcome Socket) → accept name w s ≡ ok (r, s') → Step s s'
  closes : (e n : ℕ) (c : Cleanup) → close e [] s ≡ ok (n, (c, s')) → Step s s'
  binds_late :
      (w : BindWorld) (a : AddrPort) (r : Reply) (st : State)
      → w.meddled ≡ some s.state
      → referenced (λ t. bind_in w a t st) s ≡ ok (r, s')
      → Step s s'
  connects_late :
      (w : ConnectWorld) (a : AddrPort) (r : Outcome Started) (t t' : Socket) (b : Option Fd)
      (e : ℕ)
      → w.meddled ≡ some s.state
      → t.state ≡ passive b e
      → connect w a t ≡ ok (r, t')
      → s'.state ≡ after_late s.state t'.state
      → Step s s'
  listens_late :
      (w : ListenWorld) (r : Reply) (t t' : Socket) (b : Option Fd) (e : ℕ)
      → w.meddled ≡ some s.state
      → t.state ≡ passive b e
      → listen w t ≡ ok (r, t')
      → s'.state ≡ after_late s.state t'.state
      → Step s s'
  settles_late :
      (d : Dial) (b : Fd) (n : ℕ) → settle_dial b d (some s.state) s ≡ ok (n, s') → Step s s'

-- Whatever the call and the answers of the kernel and the network, an inode's state is followed by
-- one that may follow it: passive by any but connected, connecting by any but listening, connected
-- and listening by themselves or closed, closed by itself.
pub Step-follows : (s s' : Socket) → Step s s' → follows s.state s'.state ≡ true
unfolding bind connect listen accept
Step-follows s s' (binds w a r m h) =
    referenced-follows (λ t. bind_in w a t t.state) s s' r
      (λ f t e. bind_in-follows w a (record s { fd = f }) t r s.state m e refl) h
Step-follows s s' (connects w a r m h) =
    referenced-follows (λ t. connect_in w a t t.state) s s' r
      (λ f t e. connect_in-follows w a (record s { fd = f }) t r s.state m e refl) h
Step-follows s s' (settles d b peer n k h) = settle_dial-follows d b peer s s' n k h
Step-follows s s' (listens_to w r m h) =
    referenced-follows (λ t. listen_in w t t.state) s s' r
      (λ f t e. listen_in-follows w (record s { fd = f }) t r s.state m e refl) h
Step-follows s s' (accepts name w r h) =
    referenced-follows (λ t. accept_in name w t t.state) s s' r
      (λ f t e.
        ap (follows s.state) (accept_in-state name w (record s { fd = f }) t r s.state e)
        ∙ follows_self s.state)
      h
Step-follows s s' (closes e n c h) = close-follows e s s' n c h
Step-follows s s' (binds_late w a r st m h) =
    referenced-follows (λ t. bind_in w a t st) s s' r
      (λ f t e. stays s.state t.state (bind_in-late w a (record s { fd = f }) t r st m e)) h
Step-follows s s' (connects_late w a r t t' b e m k h late) = stays s.state s'.state (
    late
    ∙ referenced-late (λ u. connect_in w a u u.state) t t' r b e s.state k
        (λ f u x.
          connect_in-late w a (record t { fd = f }) u r b e s.state m
            (ap (λ st. connect_in w a (record t { fd = f }) st) (sym k) ∙ x) k)
        h)
Step-follows s s' (listens_late w r t t' b e m k h late) = stays s.state s'.state (
    late
    ∙ referenced-late (λ u. listen_in w u u.state) t t' r b e s.state k
        (λ f u x.
          listen_in-late w (record t { fd = f }) u r b e s.state m
            (ap (λ st. listen_in w (record t { fd = f }) st) (sym k) ∙ x) k)
        h)
Step-follows s s' (settles_late d b n h) = settle_dial-late d b s s' n h

-- Any number of calls.
pub data Steps (s : Socket) : Socket → Type 0 where
  none_yet : Steps s s
  then_one : (t u : Socket) → Steps s t → Step t u → Steps s u

abbrev pub is_settled : State → Bool
is_settled (connected p) = true
is_settled (listening l) = true
is_settled closed = true
is_settled _ = false

abbrev pub same_or_closed : State → State → Bool
same_or_closed _ closed = true
same_or_closed (connected p) (connected q) = true
same_or_closed (listening l) (listening m) = true
same_or_closed _ _ = false

settled_step :
    (a b c : State)
    → is_settled a ≡ true
    → same_or_closed a b ≡ true
    → follows b c ≡ true
    → same_or_closed a c ≡ true
settled_step (connected p) b c h k f = ground arith
settled_step (listening l) b c h k f = ground arith
settled_step closed b c h k f = ground arith
settled_step (passive b e) _ c h k f = absurd (cc)
settled_step (connecting b p) _ c h k f = absurd (cc)

settled_self : (a : State) → is_settled a ≡ true → same_or_closed a a ≡ true
settled_self (connected p) h = refl
settled_self (listening l) h = refl
settled_self closed h = refl
settled_self (passive b e) h = absurd (cc)
settled_self (connecting b p) h = absurd (cc)

-- An inode that is connected, listening or closed stays that, or is closed, whatever calls end after it
-- is: calls that start then, and Binds, Connects, Listens and dials that have loaded an earlier state and
-- whose CompareAndSwap comes too late. A closed one stays closed. No other call comes between the load and
-- the CompareAndSwap with which a Close ends.
pub settled_stays :
    (s s' : Socket)
    → is_settled s.state ≡ true
    → Steps s s'
    → same_or_closed s.state s'.state ≡ true
settled_stays s s' h none_yet = settled_self s.state h
settled_stays s s' h (then_one t u before last) =
    settled_step s.state t.state u.state h (settled_stays s t h before) (Step-follows t u last)
