-- ===== src/Parser/Paths.antt =====
-- What is at a path of field numbers, in an object that decodeRawProto of tracer/parser.go makes and in a
-- message that was written: an account of the two that does not know how objects are filled.
use subtrace_docker_wireshar.Base.{
  ℕ, ◌≡◌, refl, ap, ◌∙◌, arith, Bool, true, false, Bool-cases, inl, inr, List, [], ◌∷◌, Option,
  none, some, ◌==◌, if◌then◌else◌,
}
use subtrace_docker_wireshar.Parser.Encoding.{utf8_valid, raw_base64}
use subtrace_docker_wireshar.Parser.Proto.{
  Bytes, Value, number, text, raw, object, Fields, field, end, insert, plain_bytes,
}
use subtrace_docker_wireshar.Parser.Messages.{
  Items, nothing, varint, fixed32, fixed64, chunk, message, meant,
}

pub data Leaf : Type 0 where
  a_number : ℕ → Leaf
  a_text a_group : Bytes → Leaf
  an_object : Leaf

unfoldable pub find : ℕ → Fields → Option Value
find k end = none
find k (field num v rest) = let later = find k rest in if num == k then some v else later

abbrev is_last : List ℕ → Bool
is_last [] = true
is_last (k ∷ ks) = false

abbrev leaf : Bool → Leaf → Option Leaf
leaf last l = if last then some l else none

abbrev in_value : (Fields → Option Leaf) → Bool → Option Value → Option Leaf
in_value go_on last none = none
in_value go_on last (some (number n)) = leaf last (a_number n)
in_value go_on last (some (text bs)) = leaf last (a_text bs)
in_value go_on last (some (raw bs)) = leaf last (a_group bs)
in_value go_on last (some (object fs)) = go_on fs

-- What an object has at a path.
unfoldable pub at : List ℕ → Fields → Option Leaf
unfolding find
at [] fs = some an_object
at (k ∷ ks) fs = in_value (at ks) (is_last ks) (find k fs)

-- What was written last with a field number.
pub data Written : Type 0 where
  of_number : ℕ → Written
  of_bytes : Bytes → Written
  of_message : Items → Written

abbrev after : Option Written → Bool → Written → Option Written
after (some v) b w = some v
after none b w = if b then some w else none

unfoldable pub last_written : ℕ → Items → Option Written
last_written k nothing = none
last_written k (varint num n rest) = after (last_written k rest) (num == k) (of_number n)
last_written k (fixed32 num n rest) = after (last_written k rest) (num == k) (of_number n)
last_written k (fixed64 num n rest) = after (last_written k rest) (num == k) (of_number n)
last_written k (chunk num bs rest) = after (last_written k rest) (num == k) (of_bytes bs)
last_written k (message num sub rest) = after (last_written k rest) (num == k) (of_message sub)

abbrev in_written : (Items → Option Leaf) → Bool → Option Written → Option Leaf
in_written go_on last none = none
in_written go_on last (some (of_number n)) = leaf last (a_number n)
in_written go_on last (some (of_bytes bs)) =
    leaf last (a_text (if utf8_valid bs then bs else raw_base64 bs))
in_written go_on last (some (of_message m)) = go_on m

-- What a message has at a path, where the last field with a number counts. Bytes that are no text are in
-- base64.
unfoldable pub meaning : List ℕ → Items → Option Leaf
unfolding last_written
meaning [] m = some an_object
meaning (k ∷ ks) m = in_written (meaning ks) (is_last ks) (last_written k m)

find-insert :
    (k num : ℕ) (v : Value) (fs : Fields)
    → find k (insert num v fs) ≡ (if num == k then some v else find k fs)
unfolding find insert
find-insert k num v end = refl
find-insert k num v (field n u rest) = ground (arith, find-insert k num v rest)

abbrev value_of : Written → Value
value_of (of_number n) = number n
value_of (of_bytes bs) = plain_bytes bs
value_of (of_message m) = object (meant end m)

abbrev value_or : Option Written → Option Value → Option Value
value_or none old = old
value_or (some w) old = some (value_of w)

value_or-after :
    (o : Option Written) (b : Bool) (w : Written) (old : Option Value)
    → value_or o (if b then some (value_of w) else old) ≡ value_or (after o b w) old
value_or-after (some v) b w old = refl
value_or-after none true w old = refl
value_or-after none false w old = refl

-- A field in front of the others.
in_front :
    (k num : ℕ) (w : Written) (enc : Fields) (rest : Items)
    → find k (meant (insert num (value_of w) enc) rest)
      ≡ value_or (last_written k rest) (find k (insert num (value_of w) enc))
    → find k (meant (insert num (value_of w) enc) rest)
      ≡ value_or (after (last_written k rest) (num == k) w) (find k enc)
in_front k num w enc rest h =
    h
    ∙ ap (value_or (last_written k rest)) (find-insert k num (value_of w) enc)
    ∙ value_or-after (last_written k rest) (num == k) w (find k enc)

find-meant :
    (k : ℕ) (enc : Fields) (m : Items)
    → find k (meant enc m) ≡ value_or (last_written k m) (find k enc)
unfolding meant last_written
find-meant k enc nothing = refl
find-meant k enc (varint num n rest) =
    in_front k num (of_number n) enc rest (find-meant k (insert num (number n) enc) rest)
find-meant k enc (fixed32 num n rest) =
    in_front k num (of_number n) enc rest (find-meant k (insert num (number n) enc) rest)
find-meant k enc (fixed64 num n rest) =
    in_front k num (of_number n) enc rest (find-meant k (insert num (number n) enc) rest)
find-meant k enc (chunk num bs rest) =
    in_front k num (of_bytes bs) enc rest (find-meant k (insert num (plain_bytes bs) enc) rest)
find-meant k enc (message num sub rest) =
    in_front k num (of_message sub) enc rest
      (find-meant k (insert num (object (meant end sub)) enc) rest)

text_leaf :
    (go_on : Fields → Option Leaf) (last : Bool) (bs : Bytes)
    → in_value go_on last (some (plain_bytes bs))
      ≡ leaf last (a_text (if utf8_valid bs then bs else raw_base64 bs))
unfolding plain_bytes
text_leaf go_on last bs = elim (Bool-cases (utf8_valid bs)) [
  | inl e ↦ rw e refl
  | inr e ↦ rw e refl
]

same_leaf :
    (ks : List ℕ) (o : Option Written)
    → ((m : Items) → at ks (meant end m) ≡ meaning ks m)
    → in_value (at ks) (is_last ks) (value_or o none) ≡ in_written (meaning ks) (is_last ks) o
same_leaf ks none h = refl
same_leaf ks (some (of_number n)) h = refl
same_leaf ks (some (of_bytes bs)) h = text_leaf (at ks) (is_last ks) bs
same_leaf ks (some (of_message m)) h = h m

-- The object that a message is meant to become has the same at every path.
pub at-meant : (path : List ℕ) (m : Items) → at path (meant end m) ≡ meaning path m
unfolding at meaning find
at-meant [] m = refl
at-meant (k ∷ ks) m =
    ap (in_value (at ks) (is_last ks)) (find-meant k end m)
    ∙ same_leaf ks (last_written k m) (at-meant ks)
