-- ===== src/Parser/Grpc.antt =====
-- tracer/parser.go: jsonify, which cuts a gRPC body into its messages and decodes each of them.
-- json.Marshal is a parameter, which answers `none` for an error.
use subtrace_docker_wireshar.Base.{
  ℕ, zero, suc, ◌+◌, ◌*◌, List, [], ◌∷◌, ◌++◌, Option, none, some, length, take, drop, ltb, ◌==◌,
  if◌then◌else◌,
}
use subtrace_docker_wireshar.Base.Text.{codes, equal, says_yes}
use subtrace_docker_wireshar.Parser.Encoding.{raw_base64}
use subtrace_docker_wireshar.Parser.Proto.{
  Bytes, Wire, Fields, Decoded, decoded, malformed, panicked, stuck, decode_raw_proto, end,
}

-- An object of the list: the text at the key _comp of a compressed message, or the decoded fields.
pub data Entry : Type 0 where
  compressed : Bytes → Entry
  fields : Fields → Entry

-- A list, nil with false, a slice out of range, and a model without fuel.
pub data Cut : Type 0 where
  cut : List Entry → Cut
  no_json crash no_fuel : Cut

-- buf[0] and binary.BigEndian.Uint32(buf[1:5]); fewer bytes are no header.
abbrev pub header : Bytes → Option (ℕ × ℕ)
header (comp ∷ a ∷ b ∷ c ∷ d ∷ rest) = some (comp, ((a * 256 + b) * 256 + c) * 256 + d)
header _ = none

abbrev pub with_fields : (Entry → Cut) → Decoded → Cut
with_fields add (decoded m) = add (fields m)
with_fields add malformed = no_json
with_fields add panicked = crash
with_fields add stuck = no_fuel

-- A message: `add` appends its entry and goes on.
unfoldable pub message_of : Wire → ℕ → Bytes → (Entry → Cut) → Cut
unfolding decode_raw_proto
message_of w comp slice add =
    if comp == 0
    then with_fields add (decode_raw_proto w (suc (length slice)) 1 end slice)
    else add (compressed (raw_base64 slice))

-- A round of the loop, after the test that the buffer is not empty.
unfoldable pub round : Wire → (List Entry → Bytes → Cut) → List Entry → Bytes → Cut
unfolding message_of
round w go_on arr buf = elim (header buf) [
  | none ↦ no_json
  | some (comp, size) ↦
      if ltb (length buf) size
      then no_json
      else let rest = drop 5 buf in
        if ltb (length rest) size
        then no_json
        else message_of w comp (take size rest)
            (λ entry. go_on (arr ++ entry ∷ []) (drop size rest))
]

unfoldable pub cut_loop : Wire → ℕ → List Entry → Bytes → Cut
unfolding round
cut_loop w zero arr buf = no_fuel
cut_loop w (suc fuel) arr [] = cut arr
cut_loop w (suc fuel) arr (b ∷ bs) = round w (λ arr' rest. cut_loop w fuel arr' rest) arr (b ∷ bs)

-- The results of jsonify, with those of a model that fails.
pub data Jsonified : Type 0 where
  json : Bytes → Jsonified
  unchanged crashes out_of_fuel : Jsonified

abbrev pub marshalled : Option Bytes → Jsonified
marshalled none = unchanged
marshalled (some b) = json b

abbrev pub finished : (List Entry → Option Bytes) → Cut → Jsonified
finished marshal (cut arr) = marshalled (marshal arr)
finished marshal no_json = unchanged
finished marshal crash = crashes
finished marshal no_fuel = out_of_fuel

-- `setting` is the variable SUBTRACE_GRPC.
unfoldable pub jsonify : Wire → (List Entry → Option Bytes) → Bytes → Bytes → Bytes → Jsonified
unfolding equal says_yes cut_loop
jsonify w marshal setting mime buf =
    if equal mime (codes "application/grpc")
    then if says_yes setting
      then finished marshal (cut_loop w (suc (length buf)) [] buf)
      else unchanged
    else unchanged
