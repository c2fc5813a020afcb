-- ===== src/Parser/Messages.antt =====
-- Messages written field by field, as protowire's Append functions write them, and what decodeRawProto
-- of tracer/parser.go makes of them.
use subtrace_docker_wireshar.Base.{
  ℕ, zero, suc, ◌<◌, ◌≡◌, refl, arith, [], ◌∷◌, ◌++◌, none, some, length, length-append,
  drop-append, le→not-ltb,
}
use subtrace_docker_wireshar.Parser.Proto.{
  Bytes, Wire, Value, number, object, Fields, insert, Decoded, decoded, consumed, bytes_of,
  plain_bytes, consume, advance, turn, guard_depth, decode_loop, end, IsWire,
}

-- protowire.AppendTag and the others, which write one item.
pub record Writer : Type 0 where
  pub append_tag : ℕ → ℕ → Bytes
  pub append_varint : ℕ → Bytes
  pub append_fixed32 : ℕ → Bytes
  pub append_fixed64 : ℕ → Bytes
  pub append_bytes : Bytes → Bytes

abbrev pub IsNumber : ℕ → Type 0
IsNumber num = (0 < num) × (num < 536870912)

-- What is written is read back, whatever follows it.
pub record IsWriter (w : Wire) (p : Writer) : Type 0 where
  pub tag_back :
      (num typ : ℕ) (rest : Bytes)
      → IsNumber num
      → typ < 6
      → w.consume_tag (p.append_tag num typ ++ rest)
        ≡ some (num, typ, length (p.append_tag num typ))
  pub varint_back :
      (n : ℕ) (rest : Bytes)
      → n < 18446744073709551616
      → w.consume_varint (p.append_varint n ++ rest) ≡ some (n, length (p.append_varint n))
  pub fixed32_back :
      (n : ℕ) (rest : Bytes)
      → n < 4294967296
      → w.consume_fixed32 (p.append_fixed32 n ++ rest) ≡ some (n, length (p.append_fixed32 n))
  pub fixed64_back :
      (n : ℕ) (rest : Bytes)
      → n < 18446744073709551616
      → w.consume_fixed64 (p.append_fixed64 n ++ rest) ≡ some (n, length (p.append_fixed64 n))
  pub bytes_back :
      (bs rest : Bytes)
      → w.consume_bytes (p.append_bytes bs ++ rest) ≡ some (bs, length (p.append_bytes bs))

-- A message of numbers, bytes and messages. A string is its bytes.
pub data Items : Type 0 where
  nothing : Items
  varint fixed32 fixed64 : ℕ → ℕ → Items → Items
  chunk : ℕ → Bytes → Items → Items
  message : ℕ → Items → Items → Items

unfoldable pub encode : Writer → Items → Bytes
encode p nothing = []
encode p (varint num n rest) = p.append_tag num 0 ++ (p.append_varint n ++ encode p rest)
encode p (fixed32 num n rest) = p.append_tag num 5 ++ (p.append_fixed32 n ++ encode p rest)
encode p (fixed64 num n rest) = p.append_tag num 1 ++ (p.append_fixed64 n ++ encode p rest)
encode p (chunk num bs rest) = p.append_tag num 2 ++ (p.append_bytes bs ++ encode p rest)
encode p (message num sub rest) =
    p.append_tag num 2 ++ (p.append_bytes (encode p sub) ++ encode p rest)

-- The object that the fields fill, one after the other.
unfoldable pub meant : Fields → Items → Fields
unfolding plain_bytes
meant enc nothing = enc
meant enc (varint num n rest) = meant (insert num (number n) enc) rest
meant enc (fixed32 num n rest) = meant (insert num (number n) enc) rest
meant enc (fixed64 num n rest) = meant (insert num (number n) enc) rest
meant enc (chunk num bs rest) = meant (insert num (plain_bytes bs) enc) rest
meant enc (message num sub rest) = meant (insert num (object (meant end sub)) enc) rest

abbrev pub IsFilled : Items → Type 0
IsFilled nothing = ⊥
IsFilled _ = Unit

-- Numbers fit, bytes do not start with a tag, and messages nest at most so deep and are not empty.
abbrev pub IsMessage : Wire → ℕ → Items → Type 0
IsMessage w levels nothing = Unit
IsMessage w levels (varint num n rest) =
    IsNumber num × (n < 18446744073709551616) × IsMessage w levels rest
IsMessage w levels (fixed32 num n rest) = IsNumber num × (n < 4294967296) × IsMessage w levels rest
IsMessage w levels (fixed64 num n rest) =
    IsNumber num × (n < 18446744073709551616) × IsMessage w levels rest
IsMessage w levels (chunk num bs rest) =
    IsNumber num × (w.consume_tag bs ≡ none) × IsMessage w levels rest
IsMessage w zero (message num sub rest) = ⊥
IsMessage w (suc levels) (message num sub rest) =
    IsNumber num × IsFilled sub × IsMessage w levels sub × IsMessage w (suc levels) rest

advance_item :
    (go_on : Fields → Bytes → Decoded) (num : ℕ) (enc : Fields) (item rest : Bytes) (v : Value)
    → advance go_on num enc (item ++ rest) (consumed (some v) (length item))
      ≡ go_on (insert num v enc) rest
unfolding advance
advance_item go_on num enc item rest v =
    let fits =
      le→not-ltb (length (item ++ rest)) (length item) (omega (arith, length-append item rest)) in
    rw (fits, drop-append item rest) refl

module _ (w : Wire) (laws : IsWire w) (p : Writer) (back : IsWriter w p) where
  pub tag_filled : (num typ : ℕ) → IsNumber num → typ < 6 → 0 < length (p.append_tag num typ)
  tag_filled num typ h k =
      (laws.tag_length (p.append_tag num typ ++ []) num typ _ (back.tag_back num typ [] h k)).0

  -- A turn over a tag and an item goes on behind both.
  pub turn_item :
      (nested : Bytes → Decoded) (go_on : Fields → Bytes → Decoded) (enc : Fields) (num typ : ℕ)
      (item rest : Bytes) (v : Value)
      → IsNumber num
      → typ < 6
      → consume w nested num typ (item ++ rest) ≡ consumed (some v) (length item)
      → turn w nested go_on enc (p.append_tag num typ ++ (item ++ rest))
        ≡ go_on (insert num v enc) rest
  unfolding turn
  turn_item nested go_on enc num typ item rest v h k e =
      let tag = p.append_tag num typ in
      let fits =
        le→not-ltb (length (tag ++ (item ++ rest))) (length tag)
          (omega (arith, length-append tag (item ++ rest))) in
      rw (back.tag_back num typ (item ++ rest) h k, turn, fits, drop-append tag (item ++ rest), e)
        (advance_item go_on num enc item rest v)

  -- A round of the loop on a buffer that is not empty.
  pub loop_turn :
      (fuel depth : ℕ) (enc : Fields) (buf : Bytes)
      → 0 < length buf
      → decode_loop w (suc fuel) depth enc buf
        ≡ turn w
            (λ tmp. guard_depth (suc depth) (decode_loop w fuel (suc depth) end tmp))
            (λ enc' rest. decode_loop w fuel depth enc' rest)
            enc
            buf
  unfolding decode_loop
  loop_turn fuel depth enc [] h = absurd (omega arith)
  loop_turn fuel depth enc (b ∷ bs) h = refl

  pub varint_turn :
      (nested : Bytes → Decoded) (num n : ℕ) (rest : Bytes)
      → n < 18446744073709551616
      → consume w nested num 0 (p.append_varint n ++ rest)
        ≡ consumed (some (number n)) (length (p.append_varint n))
  unfolding consume
  varint_turn nested num n rest h = rw (back.varint_back n rest h) refl

  pub fixed32_turn :
      (nested : Bytes → Decoded) (num n : ℕ) (rest : Bytes)
      → n < 4294967296
      → consume w nested num 5 (p.append_fixed32 n ++ rest)
        ≡ consumed (some (number n)) (length (p.append_fixed32 n))
  unfolding consume
  fixed32_turn nested num n rest h = rw (back.fixed32_back n rest h) refl

  pub fixed64_turn :
      (nested : Bytes → Decoded) (num n : ℕ) (rest : Bytes)
      → n < 18446744073709551616
      → consume w nested num 1 (p.append_fixed64 n ++ rest)
        ≡ consumed (some (number n)) (length (p.append_fixed64 n))
  unfolding consume
  fixed64_turn nested num n rest h = rw (back.fixed64_back n rest h) refl

  -- The encoding of a message that is not empty starts with a tag.
  starts_with_tag :
      (levels : ℕ) (m : Items)
      → IsFilled m
      → IsMessage w levels m
      → (t : ℕ × ℕ × ℕ) × (w.consume_tag (encode p m) ≡ some t)
  unfolding encode
  starts_with_tag levels nothing f h = absurd f
  starts_with_tag levels (varint num n rest) f h = (_, back.tag_back num 0 _ h.0 (omega arith))
  starts_with_tag levels (fixed32 num n rest) f h = (_, back.tag_back num 5 _ h.0 (omega arith))
  starts_with_tag levels (fixed64 num n rest) f h = (_, back.tag_back num 1 _ h.0 (omega arith))
  starts_with_tag levels (chunk num bs rest) f h = (_, back.tag_back num 2 _ h.0 (omega arith))
  starts_with_tag zero (message num sub rest) f h = absurd h
  starts_with_tag (suc levels) (message num sub rest) f h =
      (_, back.tag_back num 2 _ h.0 (omega arith))

  pub chunk_turn :
      (nested : Bytes → Decoded) (num : ℕ) (bs rest : Bytes)
      → w.consume_tag bs ≡ none
      → consume w nested num 2 (p.append_bytes bs ++ rest)
        ≡ consumed (some (plain_bytes bs)) (length (p.append_bytes bs))
  unfolding consume bytes_of
  chunk_turn nested num bs rest e = rw (back.bytes_back bs rest, bytes_of, e) refl

  pub message_turn :
      (nested : Bytes → Decoded) (num levels : ℕ) (sub : Items) (rest : Bytes) (fs : Fields)
      → IsFilled sub
      → IsMessage w levels sub
      → nested (encode p sub) ≡ decoded fs
      → consume w nested num 2 (p.append_bytes (encode p sub) ++ rest)
        ≡ consumed (some (object fs)) (length (p.append_bytes (encode p sub)))
  unfolding consume bytes_of
  message_turn nested num levels sub rest fs f h e =
      let (t, found) = starts_with_tag levels sub f h in
      rw (back.bytes_back (encode p sub) rest, bytes_of, found, e) refl

  -- The bytes of a field are fewer than what is written of them.
  pub bytes_longer : (bs : Bytes) → length bs < length (p.append_bytes bs)
  bytes_longer bs = (laws.bytes_length (p.append_bytes bs ++ []) bs _ (back.bytes_back bs [])).0
