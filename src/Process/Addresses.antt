-- ===== src/Process/Addresses.antt =====
-- Socket addresses of cmd/run/engine/process/vm.go, written and read back.
use subtrace_docker_wireshar.Base.{
  ℕ, zero, suc, ◌≤◌, length-take, Bool-cases, inl, inr, ◌/◌, ◌%◌, ◌<◌, ◌≡◌, refl, ap, ◌∙◌, arith,
  List, [], ◌∷◌, ◌++◌, length, take, replicate, done, errno, einval, ltb, if◌then◌else◌,
}
use subtrace_docker_wireshar.Seccomp.Wire.{le_bytes, le_value}
use subtrace_docker_wireshar.Seccomp.Layout.{limit}
use subtrace_docker_wireshar.Socket.State.{AddrPort, invalid, ip4, ip6}
use subtrace_docker_wireshar.Process.Memory.{
  htons, be_value, be_bytes, parse_sockaddr, sockaddr_bytes,
}

be_value-be_bytes :
    (n x : ℕ) (rest : List ℕ) → x < limit n → be_value 0 (be_bytes n x rest) ≡ be_value x rest
unfolding be_value be_bytes
be_value-be_bytes zero x rest h = ap (λ k. be_value k rest) (omega arith)
be_value-be_bytes (suc n) x rest h =
    be_value-be_bytes n (x / 256) (x % 256 ∷ rest) (omega arith)
    ∙ ap (λ k. be_value k rest) (omega arith)

-- A port in the byte order of the network, written and read in the machine's.
port-same : (p : ℕ) → p < 65536 → htons (le_value (le_bytes 2 (htons p))) ≡ p
unfolding htons le_value le_bytes
port-same p h = omega arith

be_same : (n x : ℕ) → x < limit n → be_value 0 (be_bytes n x []) ≡ x
unfolding be_value
be_same n x h = be_value-be_bytes n x [] h

abbrev pub InRange : AddrPort → Type 0
InRange invalid = ⊥
InRange (ip4 a p) = (a < limit 4) × (p < 65536)
InRange (ip6 a p) = (a < limit 16) × (p < 65536)

whole4 :
    (a p : ℕ) → a < limit 4 → p < 65536 → parse_sockaddr (sockaddr_bytes (ip4 a p)) ≡ done (ip4 a p)
unfolding parse_sockaddr sockaddr_bytes le_bytes le_value be_bytes
whole4 a p ha hp = cc (be_same 4 a ha, port-same p hp)

whole6 :
    (a p : ℕ)
    → a < limit 16
    → p < 65536
    → parse_sockaddr (sockaddr_bytes (ip6 a p)) ≡ done (ip6 a p)
unfolding parse_sockaddr sockaddr_bytes le_bytes le_value be_bytes
whole6 a p ha hp = cc (be_same 16 a ha, port-same p hp)

take-all : (n : ℕ) (xs : List ℕ) → length xs ≤ n → take n xs ≡ xs
take-all zero [] h = refl
take-all zero (x ∷ xs) h = absurd (omega arith)
take-all (suc n) [] h = refl
take-all (suc n) (x ∷ xs) h = ap (λ ys. x ∷ ys) (take-all n xs (omega arith))

short4 :
    (a p avail : ℕ)
    → avail < 16
    → parse_sockaddr (take avail (sockaddr_bytes (ip4 a p))) ≡ errno einval
unfolding parse_sockaddr sockaddr_bytes le_bytes le_value
short4 a p zero h = refl
short4 a p (suc zero) h = refl
short4 a p (suc (suc n)) h =
    ground (arith, length-take n (le_bytes 2 (htons p) ++ (be_bytes 4 a [] ++ replicate 8 0)))

short6 :
    (a p avail : ℕ)
    → avail < 28
    → parse_sockaddr (take avail (sockaddr_bytes (ip6 a p))) ≡ errno einval
unfolding parse_sockaddr sockaddr_bytes le_bytes le_value
short6 a p zero h = refl
short6 a p (suc zero) h = refl
short6 a p (suc (suc n)) h = ground (
  arith,
  length-take n (le_bytes 2 (htons p) ++ (replicate 4 0 ++ (be_bytes 16 a [] ++ replicate 4 0))),
)

abbrev pub addr_size : AddrPort → ℕ
addr_size invalid = 0
addr_size (ip4 a p) = 16
addr_size (ip6 a p) = 28

length-sockaddr_bytes : (addr : AddrPort) → length (sockaddr_bytes addr) ≡ addr_size addr
unfolding sockaddr_bytes le_bytes be_bytes
length-sockaddr_bytes invalid = refl
length-sockaddr_bytes (ip4 a p) = refl
length-sockaddr_bytes (ip6 a p) = refl

-- An address whose numbers fit their fields, written into `avail` bytes of memory, is read back as it
-- is where they are as many as the address has, and as EINVAL where they are fewer.
pub parse-take-sockaddr_bytes :
    (addr : AddrPort) (avail : ℕ)
    → InRange addr
    → parse_sockaddr (take avail (sockaddr_bytes addr))
      ≡ (if ltb avail (addr_size addr) then errno einval else done addr)
parse-take-sockaddr_bytes invalid avail h = absurd h
parse-take-sockaddr_bytes (ip4 a p) avail (ha, hp) = elim (Bool-cases (ltb avail 16)) [
  | inl e ↦ rw e (short4 a p avail (ground arith))
  | inr e ↦
      rw
        (
          e,
          take-all avail (sockaddr_bytes (ip4 a p))
              (ground (arith, length-sockaddr_bytes (ip4 a p))),
        )
        (whole4 a p ha hp)
]
parse-take-sockaddr_bytes (ip6 a p) avail (ha, hp) = elim (Bool-cases (ltb avail 28)) [
  | inl e ↦ rw e (short6 a p avail (ground arith))
  | inr e ↦
      rw
        (
          e,
          take-all avail (sockaddr_bytes (ip6 a p))
              (ground (arith, length-sockaddr_bytes (ip6 a p))),
        )
        (whole6 a p ha hp)
]
