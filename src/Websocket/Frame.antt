-- ===== src/Websocket/Frame.antt =====
-- readFull and readFrame of cmd/run/socket/proxy.go, in the direction of one side. The budget `n`
-- is what is left of tracer.PayloadLimitBytes; the other side's reads between two of ours only make
-- it smaller, and are left out here.
use Prim.Native.Nat.{bit_xor}
use subtrace_docker_wireshar.Base.{
  ℕ, zero, suc, ◌+◌, ◌-◌, ◌*◌, ◌/◌, ◌%◌, Bool, ◌&&◌, ◌||◌, not, List, [], ◌∷◌, ltb, leb, ◌==◌,
  if◌then◌else◌, take, drop, length,
}

pub record Reader : Type 0 where
  pub budget : ℕ
  pub bytes : List ℕ

pub data Trouble : Type 0 where
  limit_exceeded short_read unsupported_extension unmasked_client invalid_opcode bad_rsv1 : Trouble

-- A call's result, and the reader after it.
pub data Got {ℓ} (A : Type ℓ) : Type ℓ where
  got : A → Reader → Got A
  bad : Trouble → Reader → Got A

infixl 5 ◌>>=◌
abbrev pub ◌>>=◌ {ℓ κ} : {A : Type ℓ} {B : Type κ} → Got A → (A → Reader → Got B) → Got B
got a r >>= f = f a r
bad t r >>= f = bad t r

-- A read that ends early gives back the budget of the bytes that did not come.
unfoldable pub read_full : ℕ → Reader → Got (List ℕ)
read_full l r =
    if ltb r.budget l
    then bad limit_exceeded r
    else if ltb (length r.bytes) l
    then bad short_read (record { budget = r.budget - length r.bytes; bytes = [] })
    else got (take l r.bytes) (record { budget = r.budget - l; bytes = drop l r.bytes })

pub record Frame : Type 0 where
  pub rsv1 : Bool
  pub fin : Bool
  pub op : ℕ
  pub payload : List ℕ

abbrev pub op_continuation : ℕ
op_continuation = 0

abbrev pub op_text : ℕ
op_text = 1

abbrev pub op_binary : ℕ
op_binary = 2

abbrev pub op_close : ℕ
op_close = 8

abbrev pub op_ping : ℕ
op_ping = 9

abbrev pub op_pong : ℕ
op_pong = 10

abbrev pub is_data_op : ℕ → Bool
is_data_op op = op == op_text || op == op_binary

abbrev pub is_control_op : ℕ → Bool
is_control_op op = op == op_ping || op == op_pong || op == op_close

abbrev pub is_known_op : ℕ → Bool
is_known_op op = op == op_continuation || is_data_op op || is_control_op op

-- binary.BigEndian.Uint16 and Uint64.
unfoldable pub big_endian : ℕ → List ℕ → ℕ
big_endian acc [] = acc
big_endian acc (b ∷ bs) = big_endian (acc * 256 + b) bs

unfoldable pub get_byte : List ℕ → ℕ → ℕ
get_byte [] i = 0
get_byte (b ∷ bs) zero = b
get_byte (b ∷ bs) (suc i) = get_byte bs i

-- payload[i] ^= mask[i%4], from index `i` on.
unfoldable pub unmask : List ℕ → ℕ → List ℕ → List ℕ
unfolding get_byte
unmask mask i [] = []
unmask mask i (b ∷ bs) = bit_xor b (get_byte mask (i % 4)) ∷ unmask mask (i + 1) bs

-- The payload's length: the seven bits, or the two or eight bytes that follow.
unfoldable pub read_length : ℕ → Reader → Got ℕ
unfolding big_endian
read_length short r =
    if short == 126
    then (read_full 2 r >>= λ ext r'. got (big_endian 0 ext) r')
    else if short == 127
    then (read_full 8 r >>= λ ext r'. got (big_endian 0 ext) r')
    else got short r

unfoldable pub read_mask : Bool → Reader → Got (List ℕ)
read_mask masked r = if masked then read_full 4 r else got (0 ∷ 0 ∷ 0 ∷ 0 ∷ []) r

-- The check before the payload is allocated, and the payload.
unfoldable pub read_payload : ℕ → Reader → Got (List ℕ)
read_payload size r = if ltb r.budget size then bad limit_exceeded r else read_full size r

-- The fields of the two header bytes.
abbrev pub header_fin : ℕ → Bool
header_fin b = leb 128 b

abbrev pub header_rsv1 : ℕ → Bool
header_rsv1 b = b / 64 % 2 == 1

abbrev pub header_rsv2 : ℕ → Bool
header_rsv2 b = b / 32 % 2 == 1

abbrev pub header_rsv3 : ℕ → Bool
header_rsv3 b = b / 16 % 2 == 1

-- What comes after the header bytes `b` and `c` have passed their checks.
unfoldable pub read_body : ℕ → ℕ → Reader → Got Frame
unfolding read_length read_mask read_payload unmask
read_body b c r = read_length (c % 128) r >>= λ size r1. read_mask (leb 128 c) r1 >>= λ mask r2.
    read_payload size r2 >>= λ raw r3.
    let payload = if leb 128 c then unmask mask 0 raw else raw in
    if header_rsv1 b && not (is_data_op (b % 16))
    then bad bad_rsv1 r3
    else got (record { rsv1 = header_rsv1 b; fin = header_fin b; op = b % 16; payload = payload })
        r3

unfoldable pub check_header : Bool → ℕ → ℕ → Reader → Got Frame
unfolding read_body
check_header is_client b c r =
    if header_rsv2 b || header_rsv3 b
    then bad unsupported_extension r
    else if is_client && not (leb 128 c)
    then bad unmasked_client r
    else if is_known_op (b % 16)
    then read_body b c r
    else bad invalid_opcode r

unfoldable pub read_frame : Bool → Reader → Got Frame
unfolding read_full check_header
read_frame is_client r =
    read_full 2 r >>= λ header r'. check_header is_client (get_byte header 0) (get_byte header 1) r'
