-- ===== src/Parser/Proto.antt =====
-- tracer/parser.go: decodeRawProto, which reads a protobuf message without its schema. Package
-- protowire, which takes one item off the front of a buffer, is the parameter `Wire`; where it has an
-- error it answers `none` for a negative length.
use subtrace_docker_wireshar.Base.{
  ℕ, zero, suc, ◌≤◌, ◌<◌, ◌≡◌, List, [], ◌∷◌, Option, none, some, length, drop, ltb, ◌==◌,
  if◌then◌else◌,
}
use subtrace_docker_wireshar.Parser.Encoding.{utf8_valid, raw_base64}

abbrev pub Bytes : Type 0
Bytes = List ℕ

-- The number, the type and the length of a tag; a value and its length.
pub record Wire : Type 0 where
  pub consume_tag : Bytes → Option (ℕ × ℕ × ℕ)
  pub consume_varint : Bytes → Option (ℕ × ℕ)
  pub consume_fixed32 : Bytes → Option (ℕ × ℕ)
  pub consume_fixed64 : Bytes → Option (ℕ × ℕ)
  pub consume_bytes : Bytes → Option (Bytes × ℕ)
  pub consume_group : ℕ → Bytes → Option (Bytes × ℕ)

-- map[string]any: keys are field numbers.
mutual
  pub data Value : Type 0 where
    number : ℕ → Value
    text : Bytes → Value
    raw : Bytes → Value
    object : Fields → Value

  pub data Fields : Type 0 where
    end : Fields
    field : ℕ → Value → Fields → Fields

-- enc[key] = value.
unfoldable pub insert : ℕ → Value → Fields → Fields
insert key val end = field key val end
insert key val (field k v rest) =
    let later = insert key val rest in if k == key then field k val rest else field k v later

-- The error of decodeRawProto, a slice out of range, and a model without fuel.
pub data Decoded : Type 0 where
  decoded : Fields → Decoded
  malformed panicked stuck : Decoded

-- One turn of the switch: the value, if one is set, and its length.
pub data Consumed : Type 0 where
  consumed : Option Value → ℕ → Consumed
  refused crashed exhausted : Consumed

abbrev pub number_of : Option (ℕ × ℕ) → Consumed
number_of none = refused
number_of (some (n, len)) = consumed (some (number n)) len

abbrev pub group_of : Option (Bytes × ℕ) → Consumed
group_of none = refused
group_of (some (bs, len)) = consumed (some (raw bs)) len

-- Bytes that are no message: a text where they are one, or else base64.
unfoldable pub plain_bytes : Bytes → Value
plain_bytes tmp = if utf8_valid tmp then text tmp else text (raw_base64 tmp)

abbrev pub message_or : Bytes → ℕ → Decoded → Consumed
message_or tmp len (decoded m) = consumed (some (object m)) len
message_or tmp len malformed = consumed (some (plain_bytes tmp)) len
message_or tmp len panicked = crashed
message_or tmp len stuck = exhausted

-- `nested` is the recursive call.
unfoldable pub bytes_of : Wire → (Bytes → Decoded) → Option (Bytes × ℕ) → Consumed
unfolding plain_bytes
bytes_of w nested none = refused
bytes_of w nested (some (tmp, len)) = elim (w.consume_tag tmp) [
  | none ↦ consumed (some (plain_bytes tmp)) len
  | some tag ↦ message_or tmp len (nested tmp)
]

-- The switch on the type of the wire.
unfoldable pub consume : Wire → (Bytes → Decoded) → ℕ → ℕ → Bytes → Consumed
unfolding bytes_of
consume w nested num typ buf =
    if typ == 0
    then number_of (w.consume_varint buf)
    else if typ == 5
    then number_of (w.consume_fixed32 buf)
    else if typ == 1
    then number_of (w.consume_fixed64 buf)
    else if typ == 2
    then bytes_of w nested (w.consume_bytes buf)
    else if typ == 3
    then group_of (w.consume_group num buf)
    else if typ == 4
    then consumed none 0
    else refused

abbrev pub store : ℕ → Option Value → Fields → Fields
store key none enc = enc
store key (some v) enc = insert key v enc

-- The end of a turn: buf = buf[vlen:].
unfoldable pub advance : (Fields → Bytes → Decoded) → ℕ → Fields → Bytes → Consumed → Decoded
unfolding insert
advance go_on num enc buf (consumed v len) =
    if ltb (length buf) len then panicked else go_on (store num v enc) (drop len buf)
advance go_on num enc buf refused = malformed
advance go_on num enc buf crashed = panicked
advance go_on num enc buf exhausted = stuck

-- A turn of the loop, after the test that the buffer is not empty.
unfoldable pub turn :
    Wire → (Bytes → Decoded) → (Fields → Bytes → Decoded) → Fields → Bytes → Decoded
unfolding consume advance
turn w nested go_on enc buf = elim (w.consume_tag buf) [
  | none ↦ malformed
  | some (num, typ, tlen) ↦
      if ltb (length buf) tlen
      then malformed
      else let rest = drop tlen buf in advance go_on num enc rest (consume w nested num typ rest)
]

abbrev pub max_depth : ℕ
max_depth = 100

abbrev pub guard_depth : ℕ → Decoded → Decoded
guard_depth depth result = if ltb max_depth depth then malformed else result

-- The loop at some depth. A nested message starts a loop of its own, one deeper.
unfoldable pub decode_loop : Wire → ℕ → ℕ → Fields → Bytes → Decoded
unfolding turn
decode_loop w zero depth enc buf = stuck
decode_loop w (suc fuel) depth enc [] = decoded enc
decode_loop w (suc fuel) depth enc (b ∷ bs) =
    turn w (λ tmp. guard_depth (suc depth) (decode_loop w fuel (suc depth) end tmp))
      (λ enc' rest. decode_loop w fuel depth enc' rest) enc (b ∷ bs)

unfoldable pub decode_raw_proto : Wire → ℕ → ℕ → Fields → Bytes → Decoded
unfolding decode_loop
decode_raw_proto w fuel depth enc buf = guard_depth depth (decode_loop w fuel depth enc buf)

-- What protowire documents: the length of an item is that of a part of the buffer, a tag is not
-- empty, and the bytes of a field come after their length.
pub record IsWire (w : Wire) : Type 0 where
  pub tag_length :
      (buf : Bytes) (num typ len : ℕ)
      → w.consume_tag buf ≡ some (num, typ, len)
      → (0 < len) × (len ≤ length buf)
  pub varint_length :
      (buf : Bytes) (n len : ℕ) → w.consume_varint buf ≡ some (n, len) → len ≤ length buf
  pub fixed32_length :
      (buf : Bytes) (n len : ℕ) → w.consume_fixed32 buf ≡ some (n, len) → len ≤ length buf
  pub fixed64_length :
      (buf : Bytes) (n len : ℕ) → w.consume_fixed64 buf ≡ some (n, len) → len ≤ length buf
  pub bytes_length :
      (buf bs : Bytes) (len : ℕ)
      → w.consume_bytes buf ≡ some (bs, len)
      → (length bs < len) × (len ≤ length buf)
  pub group_length :
      (num : ℕ) (buf bs : Bytes) (len : ℕ)
      → w.consume_group num buf ≡ some (bs, len)
      → len ≤ length buf
