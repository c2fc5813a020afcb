-- ===== src/Examples/Sockets.antt =====
-- Sockets and inodes of cmd/run/socket.
use subtrace_docker_wireshar.Base.{
  ℕ, ◌≡◌, ◌≢◌, ◌⊎◌, refl, arith, true, false, some, none, [], ◌∷◌, ok, done, errno, ebadf,
}
use subtrace_docker_wireshar.Fd.Word.{flag_closed, no_fd}
use subtrace_docker_wireshar.Fd.Calls.{Fd, new_fd, number, inc_ref, dec_ref, closing_inc_ref}
use subtrace_docker_wireshar.Socket.Inode.{remove, get, add_inode}
use subtrace_docker_wireshar.Socket.State.{
  inet, AddrPort, ip4, Proxy, State, passive, connected, connecting, closed, Socket, Reply,
  new_temp_bind_socket, referenced, close_fd,
}
use subtrace_docker_wireshar.Socket.Bind.{BindWorld, bound, bind}
use subtrace_docker_wireshar.Socket.Connect.{dialed, settle_dial, drop_bind}
use subtrace_docker_wireshar.Socket.Close.{left_to_proxy, close}
use subtrace_docker_wireshar.Socket.Graph.{
  none_yet, then_one, closes, same_or_closed, settled_stays,
}
use subtrace_docker_wireshar.Socket.Answers.{new_bind, bind_keeps_or_closes}

abbrev own_fd : Fd
own_fd = record { fd = 10; refs = 0; sema = 0 }

abbrev gone : Fd
gone = record { fd = no_fd; refs = flag_closed; sema = 0 }

abbrev in_state : State → Socket
in_state st = record { domain = inet; name = 1; socks = 1 ∷ []; fd = own_fd; state = st; shut = [] }

abbrev peer : AddrPort
peer = ip4 2130706433 8080

abbrev some_proxy : Proxy
some_proxy = record { local_addr = none; remote_addr = some peer; skip_close_tcp = false }

abbrev binding : BindWorld
binding = record { temp = some 11; answer = bound; meddled = none }

bound_run :
    bind binding peer (in_state (passive none 0))
    ≡ ok (done tt, in_state (passive (some (new_bind 11)) 0))
unfolding bind referenced inc_ref new_temp_bind_socket dec_ref new_fd number
bound_run = refl

abbrev success : Reply
success = done tt

bind_keeps_or_closes_example :
    let s' = in_state (passive (some (new_bind 11)) 0) in
    ((success ≡ done tt)
      × (binding.answer ≡ bound)
      × (binding.meddled ≡ none)
      × (s'.shut ≡ [])
      × (s'.state ≡ passive (some (new_bind 11)) 0))
    ⊎ (((success ≢ done tt) × (s'.shut ≡ 11 ∷ []))
        ⊎ ((success ≡ errno ebadf) × (s'.state ≡ passive none 0) × (s'.shut ≡ [])))
bind_keeps_or_closes_example =
    bind_keeps_or_closes binding peer (in_state (passive none 0))
      (in_state (passive (some (new_bind 11)) 0)) (done tt) 11 0 refl (omega arith) refl refl
      bound_run

abbrev dialing_socket : Socket
dialing_socket = in_state (connecting (new_bind 11) peer)

abbrev ended : Socket
ended = record {
  domain = inet;
  name = 1;
  socks = [];
  fd = gone;
  state = closed;
  shut = 10 ∷ 11 ∷ [];
}

abbrev served : Socket
served = record (in_state (connected some_proxy)) { shut = 11 ∷ [] }

dial_run : settle_dial (new_bind 11) (dialed some_proxy) none dialing_socket ≡ ok (0, served)
unfolding settle_dial drop_bind close_fd closing_inc_ref number dec_ref
dial_run = refl

abbrev hung_up : Socket
hung_up = record {
  domain = inet;
  name = 1;
  socks = [];
  fd = gone;
  state = closed;
  shut = 11 ∷ 10 ∷ [];
}

close_run : close 0 [] served ≡ ok (0, (left_to_proxy, hung_up))
unfolding close closing_inc_ref number dec_ref remove
close_run = refl

settled_stays_example : same_or_closed (connected some_proxy) closed ≡ true
settled_stays_example =
    settled_stays served hung_up refl
      (then_one served hung_up none_yet (closes 0 0 left_to_proxy close_run))

nothing_seen : (old : ℕ) → get 5 [] ≡ some old → get 5 ((3, 60) ∷ []) ≡ some old
unfolding get
nothing_seen old h = absurd (cc)

known_inodes : add_inode 5 70 [] ((3, 60) ∷ []) ≡ ok ((5, 70) ∷ (3, 60) ∷ [])
unfolding add_inode
known_inodes = refl
