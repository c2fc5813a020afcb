-- ===== src/Parser/Reading.antt =====
-- decodeRawProto of tracer/parser.go ends on every buffer, and slices no buffer out of range.
use subtrace_docker_wireshar.Base.{
  ℕ, zero, suc, ◌≤◌, ◌<◌, ◌≡◌, refl, arith, Bool, true, false, Bool-cases, inl, inr, [], ◌∷◌,
  Option, none, some, Option-cases, length, drop, length-drop, ltb, le→not-ltb, ◌==◌, if◌then◌else◌,
}
use subtrace_docker_wireshar.Parser.Proto.{
  Bytes, Wire, Fields, Decoded, decoded, malformed, panicked, stuck, Consumed, consumed, refused,
  crashed, exhausted, bytes_of, consume, number_of, group_of, message_or, store, max_depth, advance,
  turn, guard_depth, decode_loop, decode_raw_proto, end, IsWire,
}

-- The call returns: an object or an error, no panic.
abbrev pub Returns : Decoded → Type 0
Returns (decoded m) = Unit
Returns malformed = Unit
Returns panicked = ⊥
Returns stuck = ⊥

-- A turn of the switch takes no more than the buffer has.
abbrev pub Fits : ℕ → Consumed → Type 0
Fits n (consumed v len) = len ≤ n
Fits n refused = Unit
Fits n crashed = ⊥
Fits n exhausted = ⊥

Fits-if : (n : ℕ) (b : Bool) (x y : Consumed) → Fits n x → Fits n y → Fits n (if b then x else y)
Fits-if n true x y h k = h
Fits-if n false x y h k = k

number_of-Fits :
    (n : ℕ) (o : Option (ℕ × ℕ))
    → ((v len : ℕ) → o ≡ some (v, len) → len ≤ n)
    → Fits n (number_of o)
number_of-Fits n none h = tt
number_of-Fits n (some (v, len)) h = h v len refl

group_of-Fits :
    (n : ℕ) (o : Option (Bytes × ℕ))
    → ((bs : Bytes) (len : ℕ) → o ≡ some (bs, len) → len ≤ n)
    → Fits n (group_of o)
group_of-Fits n none h = tt
group_of-Fits n (some (bs, len)) h = h bs len refl

message_or-Fits :
    (n : ℕ) (tmp : Bytes) (len : ℕ) (d : Decoded)
    → len ≤ n
    → Returns d
    → Fits n (message_or tmp len d)
message_or-Fits n tmp len (decoded m) h r = h
message_or-Fits n tmp len malformed h r = h
message_or-Fits n tmp len panicked h r = absurd r
message_or-Fits n tmp len stuck h r = absurd r

advance-Returns :
    (go_on : Fields → Bytes → Decoded) (num : ℕ) (enc : Fields) (buf : Bytes) (c : Consumed)
    → Fits (length buf) c
    → ((enc' : Fields) (rest : Bytes) → length rest ≤ length buf → Returns (go_on enc' rest))
    → Returns (advance go_on num enc buf c)
unfolding advance
advance-Returns go_on num enc buf (consumed v len) f h =
    rw (le→not-ltb (length buf) len f)
      (h (store num v enc) (drop len buf) (omega (arith, length-drop len buf)))
advance-Returns go_on num enc buf refused f h = tt
advance-Returns go_on num enc buf crashed f h = absurd f
advance-Returns go_on num enc buf exhausted f h = absurd f

guard_depth-Returns : (depth : ℕ) (d : Decoded) → Returns d → Returns (guard_depth depth d)
guard_depth-Returns depth d h = elim (Bool-cases (ltb max_depth depth)) [
  | inl e ↦ rw e tt
  | inr e ↦ rw e h
]

module _ (w : Wire) (laws : IsWire w) where
  bytes_of-Fits :
      (nested : Bytes → Decoded) (buf : Bytes) (o : Option (Bytes × ℕ))
      → w.consume_bytes buf ≡ o
      → ((tmp : Bytes) → length tmp < length buf → Returns (nested tmp))
      → Fits (length buf) (bytes_of w nested o)
  unfolding bytes_of
  bytes_of-Fits nested buf none e h = tt
  bytes_of-Fits nested buf (some (tmp, len)) e h =
      let (shorter, fits) = laws.bytes_length buf tmp len e in
      elim (Option-cases (w.consume_tag tmp)) [
        | inl none_left ↦ rw (none_left, bytes_of, Fits) fits
        | inr (tag, found) ↦
            rw (found, bytes_of, Fits)
              (message_or-Fits (length buf) tmp len (nested tmp) fits (h tmp (omega arith)))
      ]

  consume-Fits :
      (nested : Bytes → Decoded) (num typ : ℕ) (buf : Bytes)
      → ((tmp : Bytes) → length tmp < length buf → Returns (nested tmp))
      → Fits (length buf) (consume w nested num typ buf)
  unfolding consume
  consume-Fits nested num typ buf h =
      Fits-if _ (typ == 0) _ _ (number_of-Fits _ _ (laws.varint_length buf)) (
        Fits-if _ (typ == 5) _ _ (number_of-Fits _ _ (laws.fixed32_length buf)) (
          Fits-if _ (typ == 1) _ _ (number_of-Fits _ _ (laws.fixed64_length buf)) (
            Fits-if _ (typ == 2) _ _ (bytes_of-Fits nested buf _ refl h) (
              Fits-if _ (typ == 3) _ _ (group_of-Fits _ _ (laws.group_length num buf))
                (Fits-if _ (typ == 4) _ _ (omega arith) tt)))))

  turn-Returns :
      (nested : Bytes → Decoded) (go_on : Fields → Bytes → Decoded) (enc : Fields) (buf : Bytes)
      → ((tmp : Bytes) → length tmp < length buf → Returns (nested tmp))
      → ((enc' : Fields) (rest : Bytes) → length rest < length buf → Returns (go_on enc' rest))
      → Returns (turn w nested go_on enc buf)
  unfolding turn
  turn-Returns nested go_on enc buf hn hg = elim (Option-cases (w.consume_tag buf)) [
    | inl e ↦ rw (e, turn, Returns) tt
    | inr ((num, typ, tlen), e) ↦
        let (some_tag, fits) = laws.tag_length buf num typ tlen e in
        rw (e, turn, Returns, le→not-ltb (length buf) tlen fits)
          (advance-Returns go_on num enc (drop tlen buf) (consume w nested num typ (drop tlen buf))
            (consume-Fits nested num typ (drop tlen buf)
              (λ tmp h. hn tmp (omega (arith, length-drop tlen buf))))
            (λ enc' rest h. hg enc' rest (omega (arith, length-drop tlen buf))))
  ]

  decode_loop-Returns :
      (fuel depth : ℕ) (enc : Fields) (buf : Bytes)
      → length buf < fuel
      → Returns (decode_loop w fuel depth enc buf)
  unfolding decode_loop
  decode_loop-Returns zero depth enc buf h = absurd (omega arith)
  decode_loop-Returns (suc fuel) depth enc [] h = tt
  decode_loop-Returns (suc fuel) depth enc (b ∷ bs) h =
      turn-Returns _ _ enc (b ∷ bs)
        (λ tmp k.
          guard_depth-Returns (suc depth) _
            (decode_loop-Returns fuel (suc depth) end tmp (omega arith)))
        (λ enc' rest k. decode_loop-Returns fuel depth enc' rest (omega arith))

  -- With more fuel than the buffer has bytes decodeRawProto returns an object or an error, at every
  -- depth and for every buffer: it ends, and slices no buffer out of range. Where protowire keeps to
  -- its lengths.
  pub decode_raw_proto-Returns :
      (fuel depth : ℕ) (enc : Fields) (buf : Bytes)
      → length buf < fuel
      → Returns (decode_raw_proto w fuel depth enc buf)
  unfolding decode_raw_proto
  decode_raw_proto-Returns fuel depth enc buf h =
      guard_depth-Returns depth _ (decode_loop-Returns fuel depth enc buf h)
