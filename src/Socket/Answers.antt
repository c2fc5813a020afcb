-- ===== src/Socket/Answers.antt =====
-- cmd/run/socket/socket.go: what the calls of a Socket answer, and what becomes of the descriptors
-- that they make.
use subtrace_docker_wireshar.Base.{
  ℕ, ◌≡◌, ◌<◌, ◌≢◌, refl, sym, arith, Bool, true, false, Option, none, some, ok, [], ◌∷◌, ◌++◌,
  Outcome, done, errno, fail, other, ebadf, einval, eisconn, ealready, einprogress, erestart,
  if◌then◌else◌, ap, ◌∙◌, ◌⊎◌, inl, inr, enosys,
}
use subtrace_docker_wireshar.Fd.Word.{flag_closed, no_fd}
use subtrace_docker_wireshar.Fd.Calls.{Fd, new_fd, inc_ref, dec_ref, number, closing_inc_ref}
use subtrace_docker_wireshar.Fd.Balance.{IsLive}
use subtrace_docker_wireshar.Socket.Inode.{remove}
use subtrace_docker_wireshar.Socket.State.{
  AddrPort, Proxy, State, passive, connected, connecting, listening, closed, Socket, Reply,
  close_fd, new_temp_bind_socket,
}
use subtrace_docker_wireshar.Socket.Method.{referenced-run, referenced-live, held}
use subtrace_docker_wireshar.Socket.Bind.{BindWorld, bound, bind_in, bind, is_of, socket_errno}
use subtrace_docker_wireshar.Socket.Connect.{
  ConnectWorld, Started, connect_in, connect, no_dummy, refused_dial, dialed, settle_dial,
  drop_bind,
}
use subtrace_docker_wireshar.Socket.Close.{no_cleanup, close}

-- What Connect answers by the state alone, with what F_GETFL says of a connecting socket.
abbrev pub connect_rejects : State → Option Bool → Option (Outcome Started)
connect_rejects (passive b e) flags = none
connect_rejects (connected p) flags = some (errno eisconn)
connect_rejects (connecting b peer) none = some (fail other)
connect_rejects (connecting b peer) (some true) = some (errno ealready)
connect_rejects (connecting b peer) (some false) = some (errno einprogress)
connect_rejects (listening l) flags = some (errno einval)
connect_rejects closed flags = some (errno ebadf)

connect_in-rejects :
    (w : ConnectWorld) (a : AddrPort) (s : Socket) (st : State) (r : Outcome Started)
    → connect_rejects st w.flags ≡ some r
    → connect_in w a s st ≡ ok (r, s)
unfolding connect_in
connect_in-rejects w a s (connecting b peer) r h = ground arith
connect_in-rejects w a s (passive b e) r h = absurd (cc)
connect_in-rejects w a s _ r h = ground arith

-- Connect of an open socket that is connected, connecting, listening or closed answers by the table
-- `connect_rejects` and changes nothing: no state, no descriptor, and no reference is kept.
pub connect-rejects :
    (w : ConnectWorld) (a : AddrPort) (s : Socket) (r : Outcome Started)
    → IsLive s.fd
    → connect_rejects s.state w.flags ≡ some r
    → connect w a s ≡ ok (r, s)
unfolding connect
connect-rejects w a s r h k =
    referenced-live (λ t. connect_in w a t t.state) s (held s) r h
      (connect_in-rejects w a (held s) s.state r k) refl

abbrev pub new_bind : ℕ → Fd
new_bind n = record { fd = n; refs = 0; sema = 0 }

bind_in-made :
    (w : BindWorld) (a : AddrPort) (s s' : Socket) (r : Reply) (n e : ℕ)
    → w.temp ≡ some n
    → n < no_fd
    → is_of s.domain a ≡ true
    → bind_in w a s (passive none e) ≡ ok (r, s')
    → ((r ≡ done tt)
        × (w.answer ≡ bound)
        × (w.meddled ≡ none)
        × (s'.shut ≡ s.shut)
        × (s'.state ≡ passive (some (new_bind n)) 0))
      ⊎ ((r ≢ done tt) × (s'.shut ≡ s.shut ++ n ∷ []))
unfolding bind_in new_temp_bind_socket new_fd dec_ref inc_ref number
bind_in-made w a s s' r n e t lt d h = ground arith

-- Bind of a socket without an address, to an address of its family and with a descriptor `n` from
-- socket(2). Either it says success: then bind(2) did, nobody else stored a state in the meantime, and
-- the descriptor, open and with nobody's reference, is the state's. Or it says something else and has
-- closed the descriptor. Or the socket's own descriptor is closed already, and nothing changes.
pub bind_keeps_or_closes :
    (w : BindWorld) (a : AddrPort) (s s' : Socket) (r : Reply) (n e : ℕ)
    → w.temp ≡ some n
    → n < no_fd
    → is_of s.domain a ≡ true
    → s.state ≡ passive none e
    → bind w a s ≡ ok (r, s')
    → ((r ≡ done tt)
        × (w.answer ≡ bound)
        × (w.meddled ≡ none)
        × (s'.shut ≡ s.shut)
        × (s'.state ≡ passive (some (new_bind n)) 0))
      ⊎ (((r ≢ done tt) × (s'.shut ≡ s.shut ++ n ∷ []))
          ⊎ ((r ≡ errno ebadf) × (s'.state ≡ s.state) × (s'.shut ≡ s.shut)))
unfolding bind
bind_keeps_or_closes w a s s' r n e t lt d st h =
    elim (referenced-run (λ u. bind_in w a u u.state) s s' r h) [
      | inl same ↦ inr (inr same)
      | inr (f, u, k, at, shut) ↦ ground (
        arith,
        bind_in-made w a (record s { fd = f }) u r n e t lt d
            (ap (λ x. bind_in w a (record s { fd = f }) x) (sym st) ∙ k),
      )
    ]

-- On an open socket that nobody else changes: a dial that the network refuses with an errno is reported by the socket's SO_ERROR, and the
-- socket is passive again with its address still reserved: no descriptor is closed.
pub refused_dial-errno :
    (b : Fd) (peer : AddrPort) (s : Socket) (e : ℕ)
    → IsLive s.fd
    → s.state ≡ connecting b peer
    → let s' = record s { state = passive (some b) e } in
      (settle_dial b (refused_dial (some e)) none s ≡ ok (e, s'))
      × (socket_errno s' ≡ ok (done e, s'))
unfolding settle_dial socket_errno
refused_dial-errno b peer s e h k =
    (refl, referenced-live _ (record s { state = passive (some b) e }) _ (done e) h refl refl)

-- A dial that succeeds makes the socket connected and closes the descriptor that reserved the
-- address, if nobody refers to it. One that finds the socket closed meanwhile, with its descriptor,
-- leaves it closed, says ERESTART and does not close the descriptor again.
pub dialed-settles :
    (b : Fd) (p : Proxy) (s : Socket)
    → b.fd < no_fd
    → b.refs ≡ 0
    → let gone = record b { fd = no_fd; refs = flag_closed } in
      (settle_dial b (dialed p) none s
        ≡ ok (0, record s { state = connected p; shut = s.shut ++ b.fd ∷ [] }))
      × (settle_dial gone (dialed p) (some closed) s ≡ ok (erestart, record s { state = closed }))
unfolding settle_dial drop_bind close_fd closing_inc_ref number dec_ref
dialed-settles b p s h k = (ground arith, ground arith)

-- On an open socket that nobody else changes, with the reserved address open and unreferenced:
-- where the dummy listener's accept fails, the goroutine answers ENOSYS and closes the reserved
-- address, but the socket stays connecting, with a closed descriptor: from then on Connect says
-- EINPROGRESS or EALREADY.
pub settle_dial-no_dummy :
    (b : Fd) (peer : AddrPort) (s : Socket) (w : ConnectWorld) (a : AddrPort) (blocking : Bool)
    → b.fd < no_fd
    → b.refs ≡ 0
    → IsLive s.fd
    → s.state ≡ connecting b peer
    → w.flags ≡ some blocking
    → let s' = record s {
      state = connecting (record b { fd = no_fd; refs = flag_closed }) peer;
      shut = s.shut ++ b.fd ∷ [];
    } in
      (settle_dial b no_dummy none s ≡ ok (enosys, s'))
      × (connect w a s' ≡ ok (if blocking then errno ealready else errno einprogress, s'))
unfolding settle_dial drop_bind close_fd closing_inc_ref number dec_ref
settle_dial-no_dummy b peer s w a blocking h k l e f =
    (ground arith, connect-rejects w a _ _ l (rw f (busy blocking)))
  where
    busy :
        (x : Bool)
        → connect_rejects (connecting b peer) (some x)
          ≡ some (if x then errno ealready else errno einprogress)
    busy true = refl
    busy false = refl

-- The last Close of a socket whose state reserves an address closes both descriptors, the socket's
-- and that of the address, and leaves no open socket and the state closed. A second Close says EBADF and changes nothing.
pub close-last :
    (s : Socket) (b : Fd) (e : ℕ) (st : State)
    → s.fd.fd < no_fd
    → s.fd.refs ≡ 0
    → b.fd < no_fd
    → b.refs ≡ 0
    → s.socks ≡ s.name ∷ []
    → (st ≡ passive (some b) e) ⊎ ((peer : AddrPort) × (st ≡ connecting b peer))
    → s.state ≡ st
    → let s' = record s {
      socks = [];
      fd = record s.fd { fd = no_fd; refs = flag_closed };
      state = closed;
      shut = (s.shut ++ s.fd.fd ∷ []) ++ b.fd ∷ [];
    } in
      (close 0 [] s ≡ ok (0, (no_cleanup, s'))) × (close 0 [] s' ≡ ok (ebadf, (no_cleanup, s')))
unfolding close closing_inc_ref number dec_ref remove close_fd
close-last s b e st h k hb kb so way at = (ground arith, ground arith)
