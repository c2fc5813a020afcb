-- ===== src/Parser/Encoding.antt =====
-- What tracer/parser.go uses of packages unicode/utf8 and encoding/base64, on bytes.
use subtrace_docker_wireshar.Base.{
  ℕ, zero, suc, ◌+◌, ◌-◌, ◌*◌, ◌/◌, ◌%◌, Bool, false, ◌&&◌, List, [], ◌∷◌, Option, none, some, ltb,
  leb, ◌==◌, if◌then◌else◌,
}

-- What follows a first byte: how many bytes, and the range of the first of them.
pub record Tail : Type 0 where
  pub due : ℕ
  pub low : ℕ
  pub high : ℕ

abbrev tail : ℕ → ℕ → ℕ → Option Tail
tail due low high = some (record { due = due; low = low; high = high })

-- The table of first bytes of unicode/utf8.
unfoldable pub first_byte : ℕ → Option Tail
first_byte b =
    if ltb b 128
    then tail 0 128 191
    else if ltb b 194
    then none
    else if ltb b 224
    then tail 1 128 191
    else if b == 224
    then tail 2 160 191
    else if b == 237
    then tail 2 128 159
    else if ltb b 240
    then tail 2 128 191
    else if b == 240
    then tail 3 144 191
    else if ltb b 244
    then tail 3 128 191
    else if b == 244
    then tail 3 128 143
    else none

-- utf8.Valid, with the bytes that are still due of a character.
unfoldable pub valid_from : Tail → List ℕ → Bool
unfolding first_byte
valid_from t [] = t.due == 0
valid_from t (b ∷ bs) = elim t.due [
  | zero ↦ elim (first_byte b) [ none ↦ false | some t' ↦ valid_from t' bs ]
  | suc n ↦ leb t.low b && leb b t.high && valid_from (record { due = n; low = 128; high = 191 }) bs
]

unfoldable pub utf8_valid : List ℕ → Bool
unfolding valid_from
utf8_valid bs = valid_from (record { due = 0; low = 128; high = 191 }) bs

-- A digit of the standard alphabet of base64.
abbrev digit : ℕ → ℕ
digit n =
    if ltb n 26
    then n + 65
    else if ltb n 52
    then n + 71
    else if ltb n 62
    then n - 4
    else if n == 62
    then 43
    else 47

-- base64.RawStdEncoding.EncodeToString.
unfoldable pub raw_base64 : List ℕ → List ℕ
raw_base64 [] = []
raw_base64 (a ∷ []) = digit (a / 4) ∷ digit (a % 4 * 16) ∷ []
raw_base64 (a ∷ b ∷ []) = digit (a / 4) ∷ digit (a % 4 * 16 + b / 16) ∷ digit (b % 16 * 4) ∷ []
raw_base64 (a ∷ b ∷ c ∷ rest) =
    digit (a / 4)
    ∷ digit (a % 4 * 16 + b / 16)
    ∷ digit (b % 16 * 4 + c / 64)
    ∷ digit (c % 64)
    ∷ raw_base64 rest
