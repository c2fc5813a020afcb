-- ===== src/Socket/Close.antt =====
-- cmd/run/socket/socket.go: Close.
use subtrace_docker_wireshar.Base.{
  ℕ, ◌+◌, Bool, none, some, Run, ok, panic, ◌>>=◌, List, [], ◌∷◌, ebadf, if◌then◌else◌, ◌==◌,
}
use subtrace_docker_wireshar.Fd.Calls.{Fd, dec_ref, number, closing_inc_ref}
use subtrace_docker_wireshar.Fd.Word.{flag_closed}
use subtrace_docker_wireshar.Socket.Inode.{remove}
use subtrace_docker_wireshar.Socket.State.{
  State, passive, connected, connecting, listening, closed, Socket, shut_down, close_fd,
}

-- What Close did to things that are no descriptors of its own.
pub data Cleanup : Type 0 where
  no_cleanup left_to_proxy closed_proxy closed_listener : Cleanup

shut_bind : Fd → Socket → Run Socket
unfolding close_fd
shut_bind b s =
    close_fd b >>= λ (n, b'). ok (elim n [ none ↦ s | some number ↦ shut_down number s ])

-- The switch on the state that was replaced.
clean_up : State → Socket → Run (Cleanup × Socket)
unfolding shut_bind
clean_up (passive none e) s = ok (no_cleanup, s)
clean_up (passive (some b) e) s = shut_bind b s >>= λ s'. ok (no_cleanup, s')
clean_up (connected p) s = ok (if p.skip_close_tcp then closed_proxy else left_to_proxy, s)
clean_up (connecting b peer) s = shut_bind b s >>= λ s'. ok (no_cleanup, s')
clean_up (listening l) s = ok (if l.active then closed_listener else no_cleanup, s)
clean_up closed s = ok (no_cleanup, s)

-- The loop that swaps the state for a closed one. Each element of the list is a state that another
-- goroutine stores between a load and its swap, which then fails.
swap_closed : List State → State → Run State
swap_closed meddled closed = panic
swap_closed [] prev = ok prev
swap_closed (theirs ∷ meddled) prev = swap_closed meddled theirs

close_removed : List State → Socket → Bool × List ℕ → Run (ℕ × (Cleanup × Socket))
unfolding clean_up swap_closed
close_removed meddled s (last, socks) =
    if last
    then (swap_closed meddled s.state >>= λ prev.
        clean_up prev (record s { socks = socks; state = closed }) >>= λ cleaned. ok (0, cleaned))
    else ok (0, (no_cleanup, record s { socks = socks }))

close_held : ℕ → List State → Socket → Run (ℕ × (Cleanup × Socket))
unfolding close_removed
close_held errno meddled s = number s.fd >>= λ n.
    if errno == 0
    then (remove s.name s.socks >>= λ removed. close_removed meddled (shut_down n s) removed)
    else ok (errno, (no_cleanup, shut_down n s))

-- Close, where close(2) of the socket's own descriptor says `errno`. Lock returns when the closer's
-- reference is the only one left.
unfoldable pub close : ℕ → List State → Socket → Run (ℕ × (Cleanup × Socket))
unfolding close_held
close errno meddled s =
    let (first, f) = closing_inc_ref s.fd in
    let alone = record f { refs = flag_closed + 1 } in
    if first
    then (close_held errno meddled (record s { fd = alone }) >>= λ (answer, (cleanup, s')).
        dec_ref s'.fd >>= λ f'. ok (answer, (cleanup, record s' { fd = f' })))
    else ok (ebadf, (no_cleanup, record s { fd = f }))
