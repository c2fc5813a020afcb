-- ===== src/Parser/Frames.antt =====
-- jsonify of tracer/parser.go: it returns on every body, and reads the messages of a gRPC stream.
use subtrace_docker_wireshar.Base.{
  ℕ, zero, suc, ◌≤◌, ◌<◌, ◌≡◌, arith, Bool-cases, inl, inr, List, [], ◌∷◌, ◌++◌, Option, some,
  Option-cases, length, length-drop, take, drop, ltb, ◌==◌,
}
use subtrace_docker_wireshar.Base.Text.{codes, equal, says_yes}
use subtrace_docker_wireshar.Parser.Encoding.{raw_base64}
use subtrace_docker_wireshar.Parser.Proto.{
  Bytes, Wire, Decoded, decoded, malformed, panicked, stuck, end, IsWire,
}
use subtrace_docker_wireshar.Parser.Grpc.{
  Entry, compressed, fields, Cut, cut, no_json, crash, no_fuel, header, with_fields, message_of,
  round, cut_loop, Jsonified, json, unchanged, crashes, out_of_fuel, finished, jsonify,
}
use subtrace_docker_wireshar.Parser.Reading.{Returns, decode_raw_proto-Returns}

abbrev pub Ends : Cut → Type 0
Ends (cut arr) = Unit
Ends no_json = Unit
Ends crash = ⊥
Ends no_fuel = ⊥

-- A text or no change.
abbrev pub Answers : Jsonified → Type 0
Answers (json b) = Unit
Answers unchanged = Unit
Answers crashes = ⊥
Answers out_of_fuel = ⊥

with_fields-Ends :
    (add : Entry → Cut) (d : Decoded)
    → Returns d
    → ((e : Entry) → Ends (add e))
    → Ends (with_fields add d)
with_fields-Ends add (decoded m) r h = h (fields m)
with_fields-Ends add malformed r h = tt
with_fields-Ends add panicked r h = absurd r
with_fields-Ends add stuck r h = absurd r

header_long : (buf : Bytes) (h : ℕ × ℕ) → header buf ≡ some h → 5 ≤ length buf
header_long [] h e = cc
header_long (a ∷ []) h e = cc
header_long (a ∷ b ∷ []) h e = cc
header_long (a ∷ b ∷ c ∷ []) h e = cc
header_long (a ∷ b ∷ c ∷ d ∷ []) h e = cc
header_long (a ∷ b ∷ c ∷ d ∷ f ∷ rest) h e = omega arith

finished-Answers :
    (marshal : List Entry → Option Bytes) (c : Cut) → Ends c → Answers (finished marshal c)
finished-Answers marshal (cut arr) h = elim (Option-cases (marshal arr)) [
  | inl e ↦ rw (e, Answers) tt
  | inr (b, e) ↦ rw (e, Answers) tt
]
finished-Answers marshal no_json h = tt
finished-Answers marshal crash h = absurd h
finished-Answers marshal no_fuel h = absurd h

module _ (w : Wire) (laws : IsWire w) where
  message_of-Ends :
      (comp : ℕ) (slice : Bytes) (add : Entry → Cut)
      → ((e : Entry) → Ends (add e))
      → Ends (message_of w comp slice add)
  unfolding message_of
  message_of-Ends comp slice add h = elim (Bool-cases (comp == 0)) [
    | inl e ↦ rw e (
        with_fields-Ends add _
          (decode_raw_proto-Returns w laws (suc (length slice)) 1 end slice (omega arith)) h)
    | inr e ↦ rw e (h (compressed (raw_base64 slice)))
  ]

  round-Ends :
      (go_on : List Entry → Bytes → Cut) (arr : List Entry) (buf : Bytes)
      → ((arr' : List Entry) (rest : Bytes) → length rest < length buf → Ends (go_on arr' rest))
      → Ends (round w go_on arr buf)
  unfolding round
  round-Ends go_on arr buf h = elim (Option-cases (header buf)) [
    | inl e ↦ rw (e, round, Ends) tt
    | inr ((comp, size), e) ↦ elim (Bool-cases (ltb (length buf) size)) [
      | inl short ↦ rw (e, round, Ends, short) tt
      | inr long ↦ elim (Bool-cases (ltb (length (drop 5 buf)) size)) [
        | inl short ↦ rw (e, round, Ends, long, short) tt
        | inr fits ↦
            rw (e, round, Ends, long, fits)
              (message_of-Ends comp (take size (drop 5 buf)) _ (λ entry.
                h (arr ++ entry ∷ []) (drop size (drop 5 buf)) (
                  omega (
                    arith,
                    header_long buf _ e,
                    length-drop 5 buf,
                    length-drop size (drop 5 buf),
                  ))))
      ]
    ]
  ]

  cut_loop-Ends :
      (fuel : ℕ) (arr : List Entry) (buf : Bytes)
      → length buf < fuel
      → Ends (cut_loop w fuel arr buf)
  unfolding cut_loop
  cut_loop-Ends zero arr buf h = absurd (omega arith)
  cut_loop-Ends (suc fuel) arr [] h = tt
  cut_loop-Ends (suc fuel) arr (b ∷ bs) h =
      round-Ends _ arr (b ∷ bs) (λ arr' rest k. cut_loop-Ends fuel arr' rest (omega arith))

  -- Whatever the type and the bytes of a body, jsonify returns a text or leaves the body as it is,
  -- without a slice out of range. Where protowire keeps to its lengths.
  pub jsonify-Answers :
      (marshal : List Entry → Option Bytes) (setting mime buf : Bytes)
      → Answers (jsonify w marshal setting mime buf)
  unfolding jsonify
  jsonify-Answers marshal setting mime buf =
      elim (Bool-cases (equal mime (codes "application/grpc"))) [
        | inr e ↦ rw (e, Answers) tt
        | inl e ↦ elim (Bool-cases (says_yes setting)) [
          | inr off ↦ rw (e, Answers, off) tt
          | inl on ↦
              rw (e, on)
                (finished-Answers marshal _ (cut_loop-Ends (suc (length buf)) [] buf (omega arith)))
        ]
      ]
