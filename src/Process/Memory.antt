-- ===== src/Process/Memory.antt =====
-- cmd/run/engine/process/vm.go: bytes, integers, strings and socket addresses in the memory of the
-- traced process. process_vm_readv(2), process_vm_writev(2) and the check of the notification are the
-- world's. An error number is never zero.
use subtrace_docker_wireshar.Base.{
  ℕ, ◌+◌, ◌*◌, ◌/◌, ◌%◌, Bool, true, false, ◌||◌, List, [], ◌∷◌, ◌++◌, Run, ok, panic, Outcome,
  done, errno, fail, cancelled, other, einval, length, take, drop, replicate, ltb, ◌==◌,
  if◌then◌else◌,
}
use subtrace_docker_wireshar.Seccomp.Notif.{Kernel, valid}
use subtrace_docker_wireshar.Seccomp.Wire.{le_bytes, le_value}
use subtrace_docker_wireshar.Socket.State.{AddrPort, invalid, ip4, ip6}
use subtrace_docker_wireshar.Process.Machine.{Machine, Act, pure, crash, ◌>>=◌, ◌>>?◌, ask}
use subtrace_docker_wireshar.Fd.Calls.{Fd}

-- What process_vm_readv(2) and process_vm_writev(2) say; a read has at most as many bytes as asked for.
pub data Fetch : Type 0 where
  fetched : List ℕ → Fetch
  fetch_errno : ℕ → Fetch
  fetch_error : Fetch

pub data Wrote : Type 0 where
  wrote : ℕ → Wrote
  write_errno : ℕ → Wrote
  write_error : Wrote

-- The kernel's answer to the next request on a notification, the two system calls, and whether the
-- runtime can make a slice of a length, which it cannot where int(length) is negative.
pub record Memory (W : Type 0) : Type 0 where
  pub kernel : W → Kernel × W
  pub readv : ℕ → ℕ → W → Fetch × W
  pub writev : ℕ → List ℕ → W → Wrote × W
  pub makes : ℕ → Bool

abbrev pub af_inet : ℕ
af_inet = 2

abbrev pub af_inet6 : ℕ
af_inet6 = 10

unfoldable pub htons : ℕ → ℕ
htons x = x % 256 * 256 + x / 256

-- The bytes of a number, the most significant one first.
unfoldable pub be_value : ℕ → List ℕ → ℕ
be_value acc [] = acc
be_value acc (b ∷ rest) = be_value (acc * 256 + b) rest

unfoldable pub be_bytes : ℕ → ℕ → List ℕ → List ℕ
be_bytes ℕ.zero x rest = rest
be_bytes (ℕ.suc n) x rest = be_bytes n (x / 256) (x % 256 ∷ rest)

-- bytes.IndexByte(b, 0) and the cut there.
unfoldable pub until_nul : List ℕ → List ℕ
until_nul [] = []
until_nul (b ∷ rest) = let later = until_nul rest in if b == 0 then [] else b ∷ later

-- The switch on the family in vmReadSockaddr.
unfoldable pub parse_sockaddr : List ℕ → Outcome AddrPort
unfolding htons le_value be_value
parse_sockaddr b =
    if ltb (length b) 2
    then errno einval
    else if le_value (take 2 b) == af_inet
    then (if ltb (length b) 16
        then errno einval
        else done (ip4 (be_value 0 (take 4 (drop 4 b))) (htons (le_value (take 2 (drop 2 b))))))
    else if le_value (take 2 b) == af_inet6
    then (if ltb (length b) 28
        then errno einval
        else done (ip6 (be_value 0 (take 16 (drop 8 b))) (htons (le_value (take 2 (drop 2 b))))))
    else errno einval

-- MarshalBytes of a sockaddr_in, and of a sockaddr_in6 with flow information and scope zero.
unfoldable pub sockaddr_bytes : AddrPort → List ℕ
unfolding htons le_bytes be_bytes
sockaddr_bytes invalid = []
sockaddr_bytes (ip4 a p) =
    le_bytes 2 af_inet ++ (le_bytes 2 (htons p) ++ (be_bytes 4 a [] ++ replicate 8 0))
sockaddr_bytes (ip6 a p) =
    le_bytes 2 af_inet6
    ++ (le_bytes 2 (htons p) ++ (replicate 4 0 ++ (be_bytes 16 a [] ++ replicate 4 0)))

abbrev pub after_fetch : Fetch → Bool → Outcome (List ℕ)
after_fetch got false = fail cancelled
after_fetch (fetched b) true = done b
after_fetch (fetch_errno e) true = errno e
after_fetch fetch_error true = fail other

abbrev pub after_write : Outcome (Unit {0}) → Bool → Outcome (Unit {0})
after_write answer live = if live then answer else fail cancelled

module _ {W : Type 0} where
  abbrev pub noted : Machine W → Run (Bool × Fd) → Run (Bool × Machine W)
  noted m (ok (live, l)) = ok (live, record m { notif = record m.notif { listener = l } })
  noted m panic = panic

  -- n.Valid().
  unfoldable pub still_valid : Memory W → Act W Bool
  unfolding valid ask
  still_valid v = ask v.kernel >>= λ k m. noted m (valid k m.notif.listener)

  unfoldable pub read_bytes : Memory W → ℕ → ℕ → Act W (Outcome (List ℕ))
  unfolding ask still_valid
  read_bytes v ptr max_size =
      if ptr == 0 || max_size == 0
      then pure (errno einval)
      else if v.makes max_size
      then (ask (v.readv ptr max_size) >>= λ got.
          still_valid v >>= λ live. pure (after_fetch got live))
      else crash

  unfoldable pub read_uint32 : Memory W → ℕ → Act W (Outcome ℕ)
  unfolding read_bytes le_value
  read_uint32 v ptr = read_bytes v ptr 4 >>? λ b.
      pure (if ltb (length b) 4 then errno einval else done (le_value (take 4 b)))

  unfoldable pub read_string : Memory W → ℕ → ℕ → Act W (Outcome (List ℕ))
  unfolding read_bytes until_nul
  read_string v ptr max_size =
      if ptr == 0
      then pure (errno einval)
      else (read_bytes v ptr max_size >>? λ b. pure (done (until_nul b)))

  unfoldable pub read_sockaddr : Memory W → ℕ → ℕ → Act W (Outcome AddrPort)
  unfolding read_bytes parse_sockaddr
  read_sockaddr v ptr size =
      if ptr == 0 || size == 0
      then pure (errno einval)
      else (read_bytes v ptr size >>? λ b. pure (parse_sockaddr b))

  -- What is made of the answer of process_vm_writev(2) to a write of `size` bytes.
  unfoldable pub settle_write : Memory W → ℕ → Wrote → Act W (Outcome (Unit {0}))
  unfolding still_valid
  settle_write v size (wrote n) =
      if ltb n size
      then (still_valid v >>= λ live. pure (after_write (fail other) live))
      else pure (done tt)
  settle_write v size (write_errno e) = still_valid v >>= λ live. pure (after_write (errno e) live)
  settle_write v size write_error = still_valid v >>= λ live. pure (after_write (fail other) live)

  unfoldable pub write_checked : Memory W → ℕ → List ℕ → Bool → Act W (Outcome (Unit {0}))
  unfolding settle_write ask
  write_checked v ptr b false = pure (fail cancelled)
  write_checked v ptr [] true = pure (done tt)
  write_checked v ptr (x ∷ b) true =
      if ptr == 0
      then pure (errno einval)
      else (ask (v.writev ptr (x ∷ b)) >>= settle_write v (length (x ∷ b)))

  unfoldable pub write_bytes : Memory W → ℕ → List ℕ → Act W (Outcome (Unit {0}))
  unfolding still_valid write_checked
  write_bytes v ptr b = still_valid v >>= write_checked v ptr b

  unfoldable pub write_uint32 : Memory W → ℕ → ℕ → Act W (Outcome (Unit {0}))
  unfolding write_bytes le_bytes
  write_uint32 v ptr val = write_bytes v ptr (le_bytes 4 val)

  -- From the read of the available size on: the address is cut there, the size is not.
  unfoldable pub write_address : Memory W → List ℕ → ℕ → ℕ → Act W (Outcome (Unit {0}))
  unfolding read_uint32 write_bytes write_uint32
  write_address v b ptr size_ptr = read_uint32 v size_ptr >>? λ avail.
      write_bytes v ptr (if ltb avail (length b) then take avail b else b) >>? λ _.
      write_uint32 v size_ptr (length b)

  unfoldable pub write_sockaddr : Memory W → AddrPort → ℕ → ℕ → Act W (Outcome (Unit {0}))
  unfolding write_address sockaddr_bytes
  write_sockaddr v invalid ptr size_ptr = crash
  write_sockaddr v addr ptr size_ptr =
      if ptr == 0 || size_ptr == 0
      then crash
      else write_address v (sockaddr_bytes addr) ptr size_ptr
