-- ===== src/Examples/Messages.antt =====
-- The theorems on messages of tracer/parser.go at a wire of whole bytes.
use subtrace_docker_wireshar.Base.{
  ℕ, suc, ◌+◌, ◌≤◌, ◌<◌, ◌≡◌, refl, arith, List, [], ◌∷◌, ◌++◌, Option, none, some, length,
  length-take, length-append, take, take-append, leb, le→leb, true, Bool-cases, inl, inr,
  if◌then◌else◌,
}
use subtrace_docker_wireshar.Base.Text.{codes, says_yes}
use subtrace_docker_wireshar.Parser.Proto.{
  Bytes, Wire, IsWire, decoded, decode_raw_proto, end, Fields, field, number, object, max_depth,
}
use subtrace_docker_wireshar.Parser.Reading.{Returns, decode_raw_proto-Returns}
use subtrace_docker_wireshar.Parser.Nesting.{nesting, nesting-decode_raw_proto}
use subtrace_docker_wireshar.Parser.Messages.{
  Writer, IsWriter, Items, nothing, varint, fixed32, chunk, message, encode,
}
use subtrace_docker_wireshar.Parser.Roundtrip.{decode_raw_proto-encode}
use subtrace_docker_wireshar.Parser.Paths.{at, meaning}
use subtrace_docker_wireshar.Parser.Grpc.{Entry, jsonify, marshalled}
use subtrace_docker_wireshar.Parser.Stream.{Call, packed, plain, Describes, stream, jsonify-stream}

abbrev pub two : Bytes → Option (ℕ × ℕ × ℕ)
two (num ∷ typ ∷ rest) = some (num, typ, 2)
two _ = none

abbrev pub one : Bytes → Option (ℕ × ℕ)
one (n ∷ rest) = some (n, 1)
one [] = none

-- A length and as many bytes.
abbrev pub counted : Bytes → Option (Bytes × ℕ)
counted (len ∷ rest) = if leb len (length rest) then some (take len rest, suc len) else none
counted [] = none

-- Each number is one byte of any size.
abbrev pub byte_wire : Wire
byte_wire = record {
  consume_tag = two;
  consume_varint = one;
  consume_fixed32 = one;
  consume_fixed64 = one;
  consume_bytes = counted;
  consume_group = λ num buf. none;
}

length-two :
    (buf : Bytes) (num typ len : ℕ)
    → two buf ≡ some (num, typ, len)
    → (0 < len) × (len ≤ length buf)
length-two [] num typ len e = cc
length-two (a ∷ []) num typ len e = cc
length-two (a ∷ b ∷ rest) num typ len e = ground (arith, e)

one_length : (buf : Bytes) (n len : ℕ) → one buf ≡ some (n, len) → len ≤ length buf
one_length [] n len e = cc
one_length (a ∷ rest) n len e = ground (arith, e)

counted_length :
    (buf bs : Bytes) (len : ℕ)
    → counted buf ≡ some (bs, len)
    → (length bs < len) × (len ≤ length buf)
counted_length [] bs len e = cc
counted_length (n ∷ rest) bs len e = elim (Bool-cases (leb n (length rest))) [
  | inl fits ↦ ground (arith, fits, e, length-take n rest)
  | inr short ↦ ground (arith, short, e)
]

byte_wire-IsWire : IsWire byte_wire
byte_wire-IsWire = record {
  tag_length = length-two;
  varint_length = one_length;
  fixed32_length = one_length;
  fixed64_length = one_length;
  bytes_length = counted_length;
  group_length = λ num buf bs len e. cc;
}

abbrev byte_writer : Writer
byte_writer = record {
  append_tag = λ num typ. num ∷ typ ∷ [];
  append_varint = λ n. n ∷ [];
  append_fixed32 = λ n. n ∷ [];
  append_fixed64 = λ n. n ∷ [];
  append_bytes = λ bs. length bs ∷ bs;
}

counted_back : (bs rest : Bytes) → counted (length bs ∷ (bs ++ rest)) ≡ some (bs, suc (length bs))
counted_back bs rest =
    rw
      (
        le→leb (length bs) (length (bs ++ rest)) (omega (arith, length-append bs rest)),
        take-append bs rest,
      )
      refl

byte_writer-IsWriter : IsWriter byte_wire byte_writer
byte_writer-IsWriter = record {
  tag_back = λ num typ rest h k. refl;
  varint_back = λ n rest h. refl;
  fixed32_back = λ n rest h. refl;
  fixed64_back = λ n rest h. refl;
  bytes_back = counted_back;
}

-- { 1: 150, 2: { 1: 7 } }.
abbrev small : Items
small = varint 1 150 (message 2 (fixed32 1 7 nothing) nothing)

-- { 3: "A", 1: 8 }, where 1 was 9 before.
abbrev repeated : Items
repeated = varint 1 9 (chunk 3 (65 ∷ []) (varint 1 8 nothing))

abbrev small_bytes : Bytes
small_bytes = 1 ∷ 0 ∷ 150 ∷ 2 ∷ 2 ∷ 3 ∷ 1 ∷ 5 ∷ 7 ∷ []

encoded_bytes : encode byte_writer small ≡ small_bytes
unfolding encode
encoded_bytes = refl

abbrev small_fields : Fields
small_fields = field 1 (number 150) (field 2 (object (field 1 (number 7) end)) end)

small_run : decode_raw_proto byte_wire 20 1 end small_bytes ≡ decoded small_fields
unfolding decode_raw_proto
small_run = refl

decode_raw_proto-encode_example :
    (fs : Fields) × (decode_raw_proto byte_wire 20 1 end (encode byte_writer repeated) ≡ decoded fs)
    × ((path : List ℕ) → at path fs ≡ meaning path repeated)
decode_raw_proto-encode_example =
    decode_raw_proto-encode byte_wire byte_wire-IsWire byte_writer byte_writer-IsWriter 20 1 3
      repeated (unfold encode in omega arith) (omega arith)
      (
        (omega arith, omega arith),
        omega arith,
        ((omega arith, omega arith), refl, ((omega arith, omega arith), omega arith, tt)),
      )

decode_raw_proto-Returns_example : Returns (decode_raw_proto byte_wire 20 1 end small_bytes)
decode_raw_proto-Returns_example =
    decode_raw_proto-Returns byte_wire byte_wire-IsWire 20 1 end small_bytes (omega arith)

nesting-decode_raw_proto_example : nesting small_fields + 1 ≤ max_depth
nesting-decode_raw_proto_example =
    nesting-decode_raw_proto byte_wire 20 1 small_bytes small_fields small_run

abbrev calls : List Call
calls = packed 0 (7 ∷ 8 ∷ []) ∷ plain small ∷ []

-- An encoder that tells how many objects there are.
abbrev count_entries : List Entry → Option Bytes
count_entries es = some (length es ∷ [])

switched_on : says_yes (codes "TRUE") ≡ true
unfolding says_yes
switched_on = refl

jsonify-stream_example :
    (es : List Entry) × (jsonify byte_wire count_entries
        (codes "TRUE")
        (codes "application/grpc")
        (stream byte_writer calls)
      ≡ marshalled (count_entries es))
    × Describes calls es
jsonify-stream_example =
    jsonify-stream byte_wire byte_wire-IsWire byte_writer byte_writer-IsWriter count_entries
      (codes "TRUE") calls switched_on (unfold encode in omega arith)
