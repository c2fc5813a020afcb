-- ===== src/Parser/Roundtrip.antt =====
-- decodeRawProto of tracer/parser.go on messages that were written field by field.
use subtrace_docker_wireshar.Base.{
  ℕ, zero, suc, ◌+◌, ◌≤◌, ◌<◌, ◌≡◌, refl, ◌∙◌, arith, ◌++◌, List, some, length, length-append,
  le→not-ltb,
}
use subtrace_docker_wireshar.Parser.Proto.{
  Bytes, Wire, Value, number, object, Fields, plain_bytes, insert, decoded, consumed, consume,
  max_depth, guard_depth, decode_loop, decode_raw_proto, end, IsWire,
}
use subtrace_docker_wireshar.Parser.Messages.{
  Writer, IsWriter, IsNumber, Items, nothing, varint, fixed32, fixed64, chunk, message, encode,
  meant, IsMessage, tag_filled, turn_item, loop_turn, varint_turn, chunk_turn, fixed32_turn,
  fixed64_turn, message_turn, bytes_longer,
}
use subtrace_docker_wireshar.Parser.Paths.{at, meaning, at-meant}

module _ (w : Wire) (laws : IsWire w) (p : Writer) (back : IsWriter w p) where
  -- The loop takes one field off the front.
  loop_item :
      (fuel depth : ℕ) (enc : Fields) (num typ : ℕ) (item rest : Bytes) (v : Value)
      → IsNumber num
      → typ < 6
      → consume w
          (λ tmp. guard_depth (suc depth) (decode_loop w fuel (suc depth) end tmp))
          num
          typ
          (item ++ rest)
        ≡ consumed (some v) (length item)
      → decode_loop w (suc fuel) depth enc (p.append_tag num typ ++ (item ++ rest))
        ≡ decode_loop w fuel depth (insert num v enc) rest
  loop_item fuel depth enc num typ item rest v h k e =
      loop_turn w laws p back fuel depth enc (p.append_tag num typ ++ (item ++ rest)) (
        omega (
          arith,
          tag_filled w laws p back num typ h k,
          length-append (p.append_tag num typ) (item ++ rest),
        ))
      ∙ turn_item w laws p back _ _ enc num typ item rest v h k e

  -- One field takes fuel from the buffer.
  shorter :
      (fuel num typ : ℕ) (item rest : Bytes)
      → IsNumber num
      → typ < 6
      → length (p.append_tag num typ ++ (item ++ rest)) < suc fuel
      → length item + length rest < fuel
  shorter fuel num typ item rest h k l = omega (
    arith,
    tag_filled w laws p back num typ h k,
    length-append (p.append_tag num typ) (item ++ rest),
    length-append item rest,
  )

  loop-encode :
      (fuel depth levels : ℕ) (enc : Fields) (m : Items)
      → length (encode p m) < fuel
      → depth + levels ≤ max_depth
      → IsMessage w levels m
      → decode_loop w fuel depth enc (encode p m) ≡ decoded (meant enc m)
  unfolding encode meant
  loop-encode zero depth levels enc m l d h = absurd (omega arith)
  loop-encode (suc fuel) depth levels enc nothing l d h = unfold decode_loop in refl
  loop-encode (suc fuel) depth levels enc (varint num n rest) l d h =
      loop_item fuel depth enc num 0 _ _ (number n) h.0 (omega arith)
        (varint_turn w laws p back _ num n _ h.1)
      ∙ loop-encode fuel depth levels (insert num (number n) enc) rest
          (omega
            (arith, shorter fuel num 0 (p.append_varint n) (encode p rest) h.0 (omega arith) l))
          d h.2
  loop-encode (suc fuel) depth levels enc (fixed32 num n rest) l d h =
      loop_item fuel depth enc num 5 _ _ (number n) h.0 (omega arith)
        (fixed32_turn w laws p back _ num n _ h.1)
      ∙ loop-encode fuel depth levels (insert num (number n) enc) rest
          (omega
            (arith, shorter fuel num 5 (p.append_fixed32 n) (encode p rest) h.0 (omega arith) l))
          d h.2
  loop-encode (suc fuel) depth levels enc (fixed64 num n rest) l d h =
      loop_item fuel depth enc num 1 _ _ (number n) h.0 (omega arith)
        (fixed64_turn w laws p back _ num n _ h.1)
      ∙ loop-encode fuel depth levels (insert num (number n) enc) rest
          (omega
            (arith, shorter fuel num 1 (p.append_fixed64 n) (encode p rest) h.0 (omega arith) l))
          d h.2
  loop-encode (suc fuel) depth levels enc (chunk num bs rest) l d h =
      loop_item fuel depth enc num 2 _ _ (plain_bytes bs) h.0 (omega arith)
        (chunk_turn w laws p back _ num bs _ h.1)
      ∙ loop-encode fuel depth levels (insert num (plain_bytes bs) enc) rest
          (omega
            (arith, shorter fuel num 2 (p.append_bytes bs) (encode p rest) h.0 (omega arith) l))
          d h.2
  loop-encode (suc fuel) depth zero enc (message num sub rest) l d h = absurd h
  loop-encode (suc fuel) depth (suc levels) enc (message num sub rest) l d h =
      let left =
        shorter fuel num 2 (p.append_bytes (encode p sub)) (encode p rest) h.0 (omega arith) l in
      let inner =
        loop-encode fuel (suc depth) levels end sub
          (omega (arith, left, bytes_longer w laws p back (encode p sub))) (omega arith) h.2 in
      loop_item fuel depth enc num 2 _ _ (object (meant end sub)) h.0 (omega arith) (
        message_turn w laws p back _ num levels sub _ (meant end sub) h.1 h.2
          (rw (le→not-ltb max_depth (suc depth) (omega arith)) inner))
      ∙ loop-encode fuel depth (suc levels) (insert num (object (meant end sub)) enc) rest
          (omega (arith, left)) d h.3

  pub decode_raw_proto-meant :
      (fuel depth levels : ℕ) (m : Items)
      → length (encode p m) < fuel
      → depth + levels ≤ max_depth
      → IsMessage w levels m
      → decode_raw_proto w fuel depth end (encode p m) ≡ decoded (meant end m)
  unfolding decode_raw_proto
  decode_raw_proto-meant fuel depth levels m l d h =
      rw (le→not-ltb max_depth depth (omega arith)) (loop-encode fuel depth levels end m l d h)

  -- A message of numbers, of bytes that do not start with a tag, and of messages that are not empty,
  -- nested no deeper than `levels`, is read back from its encoding, at any depth that leaves as many
  -- levels up to 100 and with more fuel than the encoding has bytes: as an object that has at every path
  -- of field numbers what the message has there, where the last field with a number counts, and bytes are
  -- a text or in base64. Where protowire reads back what it writes.
  pub decode_raw_proto-encode :
      (fuel depth levels : ℕ) (m : Items)
      → length (encode p m) < fuel
      → depth + levels ≤ max_depth
      → IsMessage w levels m
      → (fs : Fields) × (decode_raw_proto w fuel depth end (encode p m) ≡ decoded fs)
        × ((path : List ℕ) → at path fs ≡ meaning path m)
  decode_raw_proto-encode fuel depth levels m l d h =
      (meant end m, decode_raw_proto-meant fuel depth levels m l d h, λ path. at-meant path m)
