-- ===== src/Seccomp/Wire.antt =====
-- cmd/run/engine/seccomp/include.go: the structs of <linux/seccomp.h> as bytes. The integers of
-- gvisor's package primitive are little-endian; an Int32 and an Int64 are their bit patterns.
use subtrace_docker_wireshar.Base.{
  ℕ, zero, suc, ◌+◌, ◌*◌, ◌/◌, ◌%◌, List, [], ◌∷◌, ◌++◌, length, take, drop, ◌==◌, if◌then◌else◌,
  Run, ok, panic,
}

-- MarshalBytes of an integer of `n` bytes.
unfoldable pub le_bytes : ℕ → ℕ → List ℕ
le_bytes zero x = []
le_bytes (suc n) x = x % 256 ∷ le_bytes n (x / 256)

-- UnmarshalBytes: the value of the bytes.
unfoldable pub le_value : List ℕ → ℕ
le_value [] = 0
le_value (b ∷ bs) = b + 256 * le_value bs

pub record Resp : Type 0 where
  pub id : ℕ
  pub val : ℕ
  pub errno : ℕ
  pub flags : ℕ

unfoldable pub resp_size : ℕ
resp_size = 8 + 8 + 4 + 4

unfoldable pub resp_bytes : Resp → List ℕ
unfolding le_bytes
resp_bytes x = le_bytes 8 x.id ++ (le_bytes 8 x.val ++ (le_bytes 4 x.errno ++ le_bytes 4 x.flags))

pub record Addfd : Type 0 where
  pub id : ℕ
  pub flags : ℕ
  pub src_fd : ℕ
  pub new_fd : ℕ
  pub new_fd_flags : ℕ

-- SizeBytes counts `newFD` twice and `newFDFlags` never; both have four bytes.
unfoldable pub addfd_size : ℕ
addfd_size = 8 + 4 + 4 + 4 + 4

unfoldable pub addfd_bytes : Addfd → List ℕ
unfolding le_bytes
addfd_bytes x =
    le_bytes 8 x.id
    ++ (le_bytes 4 x.flags
        ++ (le_bytes 4 x.src_fd ++ (le_bytes 4 x.new_fd ++ le_bytes 4 x.new_fd_flags)))

pub record Received : Type 0 where
  pub id : ℕ
  pub pid : ℕ
  pub flags : ℕ
  pub nr : ℕ
  pub arch : ℕ
  pub ip : ℕ
  pub args : List ℕ

unfoldable pub notif_size : ℕ
notif_size = 8 + 4 + 4 + 4 + 4 + 8 + 6 * 8

-- The words of eight bytes of a buffer.
unfoldable pub words : ℕ → List ℕ → List ℕ
unfolding le_value
words zero b = []
words (suc n) b = le_value (take 8 b) ∷ words n (drop 8 b)

-- UnmarshalBytes of a notification, which panics on a buffer of another size.
unfoldable pub unmarshal : List ℕ → Run Received
unfolding le_value words notif_size
unmarshal b =
    if length b == notif_size
    then ok (record {
      id = le_value (take 8 b);
      pid = le_value (take 4 (drop 8 b));
      flags = le_value (take 4 (drop 12 b));
      nr = le_value (take 4 (drop 16 b));
      arch = le_value (take 4 (drop 20 b));
      ip = le_value (take 8 (drop 24 b));
      args = words 6 (drop 32 b);
    })
    else panic
