-- ===== src/Parser/Nesting.antt =====
-- How deep the objects nest that decodeRawProto of tracer/parser.go builds.
use Prim.Native.Nat.{max}
use subtrace_docker_wireshar.Base.{
  ℕ, zero, suc, ◌+◌, ◌-◌, ◌≤◌, ◌≡◌, refl, arith, Bool, true, false, Bool-cases, inl, inr, [], ◌∷◌,
  Option, none, some, Option-cases, length, drop, ltb, ◌==◌, if◌then◌else◌,
}
use subtrace_docker_wireshar.Parser.Proto.{
  Bytes, Wire, Value, number, text, raw, object, Fields, field, insert, Decoded, decoded, malformed,
  panicked, stuck, Consumed, consumed, refused, crashed, exhausted, plain_bytes, bytes_of, consume,
  number_of, group_of, message_or, store, max_depth, advance, turn, guard_depth, decode_loop,
  decode_raw_proto, end,
}

-- How many objects stand one in another.
unfoldable mutual
  pub nesting_value : Value → ℕ
  nesting_value (number n) = 0
  nesting_value (text bs) = 0
  nesting_value (raw bs) = 0
  nesting_value (object fs) = suc (nesting fs)

  pub nesting : Fields → ℕ
  nesting end = 0
  nesting (field k v rest) = max (nesting_value v) (nesting rest)

nesting-insert :
    (n key : ℕ) (val : Value) (fs : Fields)
    → nesting fs ≤ n
    → nesting_value val ≤ n
    → nesting (insert key val fs) ≤ n
unfolding insert nesting
nesting-insert n key val end h k = omega arith
nesting-insert n key val (field j v rest) h k = elim (Bool-cases (j == key)) [
  | inl e ↦ rw e (omega arith)
  | inr e ↦ rw e (omega (arith, nesting-insert n key val rest))
]

-- What is built nests no deeper than `n`; an error builds nothing.
abbrev pub Shallow : ℕ → Decoded → Type 0
Shallow n (decoded m) = nesting m ≤ n
Shallow n _ = Unit

abbrev ShallowValue : ℕ → Option Value → Type 0
ShallowValue n none = Unit
ShallowValue n (some v) = nesting_value v ≤ n

abbrev Holds : ℕ → Consumed → Type 0
Holds n (consumed v len) = ShallowValue n v
Holds n _ = Unit

Holds-if :
    (n : ℕ) (b : Bool) (x y : Consumed) → Holds n x → Holds n y → Holds n (if b then x else y)
Holds-if n true x y h k = h
Holds-if n false x y h k = k

number_of-Holds : (n : ℕ) (o : Option (ℕ × ℕ)) → Holds n (number_of o)
unfolding nesting_value
number_of-Holds n none = tt
number_of-Holds n (some (v, len)) = omega arith

group_of-Holds : (n : ℕ) (o : Option (Bytes × ℕ)) → Holds n (group_of o)
unfolding nesting_value
group_of-Holds n none = tt
group_of-Holds n (some (bs, len)) = omega arith

plain_bytes-flat : (tmp : Bytes) → nesting_value (plain_bytes tmp) ≡ 0
unfolding plain_bytes nesting_value
plain_bytes-flat tmp = ground arith

-- A nested message is one level more.
message_or-Holds :
    (n : ℕ) (tmp : Bytes) (len : ℕ) (d : Decoded)
    → ((m : Fields) → d ≡ decoded m → suc (nesting m) ≤ n)
    → Holds n (message_or tmp len d)
unfolding nesting_value
message_or-Holds n tmp len (decoded m) h = h m refl
message_or-Holds n tmp len malformed h = omega (arith, plain_bytes-flat tmp)
message_or-Holds n tmp len panicked h = tt
message_or-Holds n tmp len stuck h = tt

module _ (w : Wire) (n : ℕ) where
  bytes_of-Holds :
      (nested : Bytes → Decoded) (o : Option (Bytes × ℕ))
      → ((tmp : Bytes) (m : Fields) → nested tmp ≡ decoded m → suc (nesting m) ≤ n)
      → Holds n (bytes_of w nested o)
  unfolding bytes_of
  bytes_of-Holds nested none h = tt
  bytes_of-Holds nested (some (tmp, len)) h = elim (Option-cases (w.consume_tag tmp)) [
    | inl e ↦ rw (e, bytes_of, Holds) (omega (arith, plain_bytes-flat tmp))
    | inr (tag, e) ↦ rw (e, bytes_of, Holds) (message_or-Holds n tmp len (nested tmp) (h tmp))
  ]

  consume-Holds :
      (nested : Bytes → Decoded) (num typ : ℕ) (buf : Bytes)
      → ((tmp : Bytes) (m : Fields) → nested tmp ≡ decoded m → suc (nesting m) ≤ n)
      → Holds n (consume w nested num typ buf)
  unfolding consume
  consume-Holds nested num typ buf h = Holds-if n (typ == 0) _ _ (number_of-Holds n _) (
      Holds-if n (typ == 5) _ _ (number_of-Holds n _) (
        Holds-if n (typ == 1) _ _ (number_of-Holds n _) (
          Holds-if n (typ == 2) _ _ (bytes_of-Holds nested _ h)
            (Holds-if n (typ == 3) _ _ (group_of-Holds n _) (Holds-if n (typ == 4) _ _ tt tt)))))

  store-shallow :
      (num : ℕ) (v : Option Value) (enc : Fields)
      → nesting enc ≤ n
      → ShallowValue n v
      → nesting (store num v enc) ≤ n
  store-shallow num none enc h k = h
  store-shallow num (some v) enc h k = nesting-insert n num v enc h k

  advance-Shallow :
      (go_on : Fields → Bytes → Decoded) (num : ℕ) (enc : Fields) (buf : Bytes) (c : Consumed)
      → nesting enc ≤ n
      → Holds n c
      → ((enc' : Fields) (rest : Bytes) → nesting enc' ≤ n → Shallow n (go_on enc' rest))
      → Shallow n (advance go_on num enc buf c)
  unfolding advance
  advance-Shallow go_on num enc buf (consumed v len) he hc hg =
      elim (Bool-cases (ltb (length buf) len)) [
        | inl e ↦ rw (e, Shallow) tt
        | inr e ↦ rw e (hg (store num v enc) (drop len buf) (store-shallow num v enc he hc))
      ]
  advance-Shallow go_on num enc buf refused he hc hg = tt
  advance-Shallow go_on num enc buf crashed he hc hg = tt
  advance-Shallow go_on num enc buf exhausted he hc hg = tt

  turn-Shallow :
      (nested : Bytes → Decoded) (go_on : Fields → Bytes → Decoded) (enc : Fields) (buf : Bytes)
      → nesting enc ≤ n
      → ((tmp : Bytes) (m : Fields) → nested tmp ≡ decoded m → suc (nesting m) ≤ n)
      → ((enc' : Fields) (rest : Bytes) → nesting enc' ≤ n → Shallow n (go_on enc' rest))
      → Shallow n (turn w nested go_on enc buf)
  unfolding turn
  turn-Shallow nested go_on enc buf he hn hg = elim (Option-cases (w.consume_tag buf)) [
    | inl e ↦ rw (e, turn, Shallow) tt
    | inr ((num, typ, tlen), e) ↦ elim (Bool-cases (ltb (length buf) tlen)) [
      | inl cut ↦ rw (e, turn, Shallow, cut) tt
      | inr fits ↦
          rw (e, turn, Shallow, fits)
            (advance-Shallow go_on num enc (drop tlen buf)
              (consume w nested num typ (drop tlen buf)) he
              (consume-Holds nested num typ (drop tlen buf) hn) hg)
    ]
  ]

Shallow-decoded : (n : ℕ) (d : Decoded) (m : Fields) → Shallow n d → d ≡ decoded m → nesting m ≤ n
Shallow-decoded n (decoded k) m h e = ground (arith, h)
Shallow-decoded n malformed m h e = cc
Shallow-decoded n panicked m h e = cc
Shallow-decoded n stuck m h e = cc

-- Past the depth limit there is an error, and up to it what the loop says.
guarded :
    (depth : ℕ) (d : Decoded) (m : Fields)
    → Shallow (max_depth - depth) d
    → guard_depth depth d ≡ decoded m
    → (depth ≤ max_depth) × (nesting m + depth ≤ max_depth)
guarded depth d m h e = elim (Bool-cases (ltb max_depth depth)) [
  | inl deep ↦ absurd (ground (arith, deep))
  | inr ok ↦ ground (arith, ok, Shallow-decoded (max_depth - depth) d m h)
]

module _ (w : Wire) where
  decode_loop-Shallow :
      (fuel depth : ℕ) (enc : Fields) (buf : Bytes)
      → nesting enc ≤ max_depth - depth
      → Shallow (max_depth - depth) (decode_loop w fuel depth enc buf)
  unfolding decode_loop nesting
  decode_loop-Shallow zero depth enc buf h = tt
  decode_loop-Shallow (suc fuel) depth enc [] h = h
  decode_loop-Shallow (suc fuel) depth enc (b ∷ bs) h =
      turn-Shallow w (max_depth - depth) _ _ enc (b ∷ bs) h
        (λ tmp m e. omega (
          arith,
          guarded (suc depth) _ m (decode_loop-Shallow fuel (suc depth) end tmp (omega arith)) e,
        ))
        (λ enc' rest k. decode_loop-Shallow fuel depth enc' rest k)

  -- Whatever the buffer, the objects that decodeRawProto builds at depth `depth` nest at most
  -- 100 - depth deep.
  pub nesting-decode_raw_proto :
      (fuel depth : ℕ) (buf : Bytes) (m : Fields)
      → decode_raw_proto w fuel depth end buf ≡ decoded m
      → nesting m + depth ≤ max_depth
  unfolding decode_raw_proto nesting
  nesting-decode_raw_proto fuel depth buf m e =
      (guarded depth _ m (decode_loop-Shallow fuel depth end buf (omega arith)) e).1
