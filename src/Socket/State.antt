-- ===== src/Socket/State.antt =====
-- cmd/run/socket/inode.go and socket.go: the state of an inode, the addresses that it answers, and
-- what the calls of a Socket share. What the kernel and package net say is an argument.
use subtrace_docker_wireshar.Base.{
  ℕ, ◌+◌, Bool, true, false, List, [], ◌∷◌, ◌++◌, Option, none, some, Run, ok, panic, ◌>>=◌,
  Outcome, done, errno, fail, other, ebadf, einval, if◌then◌else◌,
}
use subtrace_docker_wireshar.Fd.Word.{flag_closed}
use subtrace_docker_wireshar.Fd.Calls.{Fd, new_fd, inc_ref, dec_ref, number, closing_inc_ref}

pub data Domain : Type 0 where
  inet inet6 : Domain

-- netip.AddrPort: the zero value, or an address of either kind with its port.
pub data AddrPort : Type 0 where
  invalid : AddrPort
  ip4 ip6 : ℕ → ℕ → AddrPort

-- A proxy's external connection: its addresses as netip parses them, and skipCloseTCP.
pub record Proxy : Type 0 where
  pub local_addr : Option AddrPort
  pub remote_addr : Option AddrPort
  pub skip_close_tcp : Bool

pub record Listener : Type 0 where
  pub active : Bool
  pub addr : Option AddrPort

-- ImmutableState, each state with the fields that it uses. The connecting state's bind is a pointer
-- in the source, which Connect, the only code that makes this state, never leaves nil.
pub data State : Type 0 where
  passive : Option Fd → ℕ → State
  connected : Proxy → State
  connecting : Fd → AddrPort → State
  listening : Listener → State
  closed : State

-- What getsockname(2) says.
pub data Sockname : Type 0 where
  named : AddrPort → Sockname
  name_errno : ℕ → Sockname
  name_error name_unknown : Sockname

abbrev pub sockname_answer : Sockname → Run (Outcome AddrPort)
sockname_answer (named a) = ok (done a)
sockname_answer (name_errno e) = ok (errno e)
sockname_answer name_error = ok (fail other)
sockname_answer name_unknown = panic

unfoldable pub getsockname : Sockname → Fd → Run (Outcome AddrPort × Fd)
getsockname k f = inc_ref f >>= λ (live, f').
    if live
    then (number f' >>= λ n. sockname_answer k >>= λ a. dec_ref f' >>= λ f''. ok (a, f''))
    else ok (errno ebadf, f')

abbrev pub parsed : Option AddrPort → Outcome AddrPort
parsed (some a) = done a
parsed none = fail other

-- getRemoteBindAddr, with the state as the descriptor's calls leave it.
unfoldable pub remote_bind_addr : Sockname → State → Run (Outcome AddrPort × State)
unfolding getsockname
remote_bind_addr k (passive none e) = ok (done invalid, passive none e)
remote_bind_addr k (passive (some b) e) = getsockname k b >>= λ (a, b'). ok (a, passive (some b') e)
remote_bind_addr k (connected p) = ok (parsed p.local_addr, connected p)
remote_bind_addr k (connecting b peer) = getsockname k b >>= λ (a, b'). ok (a, connecting b' peer)
remote_bind_addr k (listening l) = ok (parsed l.addr, listening l)
remote_bind_addr k closed = ok (errno ebadf, closed)

-- getRemotePeerAddr.
unfoldable pub remote_peer_addr : State → Outcome AddrPort
remote_peer_addr (passive b e) = done invalid
remote_peer_addr (connected p) = parsed p.remote_addr
remote_peer_addr (connecting b peer) = done peer
remote_peer_addr (listening l) = errno einval
remote_peer_addr closed = errno ebadf

-- A socket with its inode: `name` is the socket's pointer and `socks` the inode's open sockets.
-- `shut` has the descriptors that close(2) was called with, the first one first.
pub record Socket : Type 0 where
  pub domain : Domain
  pub name : ℕ
  pub socks : List ℕ
  pub fd : Fd
  pub state : State
  pub shut : List ℕ

-- `(syscall.Errno, error)`; `done` stands for errno 0.
abbrev pub Reply : Type 0
Reply = Outcome {0} Unit

-- unix.Close.
abbrev pub shut_down : ℕ → Socket → Socket
shut_down n s = record s { shut = s.shut ++ n ∷ [] }

-- CompareAndSwap on the inode's state. The first argument is the state that another goroutine has
-- stored since the load, if one has.
abbrev pub compare_and_swap : Option State → State → Socket → Bool × Socket
compare_and_swap none next s = (true, record s { state = next })
compare_and_swap (some theirs) next s = (false, record s { state = theirs })

-- A method's start and its deferred DecRef.
unfoldable pub referenced {ℓ} :
    {A : Type ℓ} → (Socket → Run (Outcome A × Socket)) → Socket → Run (Outcome A × Socket)
referenced body s = inc_ref s.fd >>= λ (live, f).
    if live
    then (body (record s { fd = f }) >>= λ (answer, s').
        dec_ref s'.fd >>= λ f'. ok (answer, record s' { fd = f' }))
    else ok (errno ebadf, record s { fd = f })

-- ClosingIncRef, Lock, close(2) and the deferred DecRef. Lock returns when the closer's reference is
-- the only one left. The number is the one that close(2) got, if this call was the closing one.
unfoldable pub close_fd : Fd → Run (Option ℕ × Fd)
close_fd f =
    let (first, f') = closing_inc_ref f in
    let alone = record f' { refs = flag_closed + 1 } in
    if first
    then (number alone >>= λ n. dec_ref alone >>= λ f''. ok (some n, f''))
    else ok (none, f')

-- newTempBindSocket, where socket(2) and setsockopt(2) gave this descriptor, or failed.
unfoldable pub new_temp_bind_socket : Option ℕ → Run (Option Fd)
new_temp_bind_socket none = ok none
new_temp_bind_socket (some n) = dec_ref (new_fd n) >>= λ f. ok (some f)

abbrev pub fresh_bind : Option Fd → Bool
fresh_bind none = true
fresh_bind (some b) = false

-- bindEphemeral, where bind(2) and getsockname(2) gave this address, or failed.
unfoldable pub bind_ephemeral : Option AddrPort → Fd → Run (Option AddrPort × Fd)
bind_ephemeral k f =
    inc_ref f >>= λ (live, f'). if live then (dec_ref f' >>= λ f''. ok (k, f'')) else ok (none, f')
