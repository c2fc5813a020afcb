-- ===== src/Websocket/Sliding.antt =====
-- The sliding window of decompress in cmd/run/socket/proxy.go. The inflater of compress/flate is a
-- parameter: from a dictionary and a stream it makes data, data with io.ErrUnexpectedEOF, or
-- another error.
use subtrace_docker_wireshar.Base.{
  ℕ, zero, suc, ◌+◌, ◌-◌, ◌^◌, ◌≤◌, ◌≡◌, refl, sym, ap, ◌∙◌, arith, Bool, List, [], ◌∷◌, ◌++◌,
  Option, some, none, length, length-append, length-drop, length-take, take-append-drop, take, drop,
  leb, if◌then◌else◌,
}
use mathlib.Core.List.{append_assoc, append-nil}
use native.Mathlib.Decide.{dec_le}

pub data Inflated : Type 0 where
  all : List ℕ → Inflated
  cut_short : List ℕ → Inflated
  broken : Inflated

-- What the websocket keeps of one direction. The inflater itself is made anew from the window for
-- every message, or reset to it, which is the same.
pub record Direction : Type 0 where
  pub no_context : Bool
  pub bits : ℕ
  pub window : List ℕ

unfoldable pub slide : ℕ → List ℕ → List ℕ → List ℕ
slide bits window new_data =
    let max_size = 2 ^ bits in
    if leb max_size (length new_data)
    then drop (length new_data - max_size) new_data
    else let total = length window + length new_data in
      if leb total max_size then window ++ new_data else drop (total - max_size) window ++ new_data

keep : Direction → List ℕ → Direction
unfolding slide
keep d new_data = if d.no_context then d else record d { window = slide d.bits d.window new_data }

module _ (inflate : List ℕ → List ℕ → Inflated) where
  -- The four bytes that RFC 7692 leaves out of the stream are put back.
  unfoldable pub decompress : Direction → List ℕ → Option (List ℕ × Direction)
  unfolding keep
  decompress d b =
      elim (inflate (if d.no_context then [] else d.window) (b ++ 0 ∷ 0 ∷ 255 ∷ 255 ∷ [])) [
        | all new_data ↦ some (new_data, keep d new_data)
        | cut_short new_data ↦ some (new_data, keep d new_data)
        | broken ↦ none
      ]

-- The last `n` elements of a list.
abbrev pub last_of : ℕ → List ℕ → List ℕ
last_of n xs = drop (length xs - n) xs

drop-append_left : (n : ℕ) (xs ys : List ℕ) → n ≤ length xs → drop n (xs ++ ys) ≡ drop n xs ++ ys
drop-append_left zero xs ys h = refl
drop-append_left (suc n) [] ys h = absurd (omega arith)
drop-append_left (suc n) (x ∷ xs) ys h = drop-append_left n xs ys (omega arith)

drop-append_right :
    (n : ℕ) (xs ys : List ℕ) → length xs ≤ n → drop n (xs ++ ys) ≡ drop (n - length xs) ys
drop-append_right n [] ys h = ap (λ k. drop k ys) (omega arith)
drop-append_right zero (x ∷ xs) ys h = absurd (omega arith)
drop-append_right (suc n) (x ∷ xs) ys h =
    drop-append_right n xs ys (omega arith) ∙ ap (λ k. drop k ys) (omega arith)

-- A window no longer than its bound becomes the end of itself and the new data.
pub slide-last :
    (bits : ℕ) (window new_data : List ℕ)
    → length window ≤ 2 ^ bits
    → slide bits window new_data ≡ last_of (2 ^ bits) (window ++ new_data)
unfolding slide
slide-last bits window new_data h = elim (dec_le (2 ^ bits) (length new_data)) [
  | yes long ↦ ground (
    arith,
    length-append window new_data,
    drop-append_right (length window + length new_data - 2 ^ bits) window new_data,
  )
  | no short ↦ ground (
    arith,
    length-append window new_data,
    drop-append_left (length window + length new_data - 2 ^ bits) window new_data,
  )
]

length-last_of : (n : ℕ) (xs : List ℕ) → length (last_of n xs) ≤ n
length-last_of n xs = omega (arith, length-drop (length xs - n) xs)

-- The windows after a sequence of messages' data.
unfoldable pub slides : ℕ → List ℕ → List (List ℕ) → List ℕ
slides bits window [] = window
slides bits window (d ∷ ds) = slides bits (slide bits window d) ds

abbrev pub joined : List (List ℕ) → List ℕ
joined [] = []
joined (d ∷ ds) = d ++ joined ds

last_of-append : (n : ℕ) (xs ys : List ℕ) → last_of n (last_of n xs ++ ys) ≡ last_of n (xs ++ ys)
last_of-append n xs ys =
    let cut = length xs - n in
    let whole : xs ++ ys ≡ take cut xs ++ (drop cut xs ++ ys) =
      ap (λ z. z ++ ys) (sym (take-append-drop cut xs))
      ∙ append_assoc (take cut xs) (drop cut xs) ys in
    sym (
      ap (drop (length (xs ++ ys) - n)) whole
      ∙ drop-append_right (length (xs ++ ys) - n) (take cut xs) (drop cut xs ++ ys)
          (omega (arith, length-take cut xs, length-append xs ys))
      ∙ ap (λ k. drop k (drop cut xs ++ ys))
          (omega (
            arith,
            length-take cut xs,
            length-drop cut xs,
            length-append xs ys,
            length-append (drop cut xs) ys,
          )))

slide_fits :
    (bits : ℕ) (window d : List ℕ)
    → length window ≤ 2 ^ bits
    → length (slide bits window d) ≤ 2 ^ bits
slide_fits bits window d h =
    rw (slide-last bits window d h) (length-last_of (2 ^ bits) (window ++ d))

slides-last :
    (bits : ℕ) (window : List ℕ) (ds : List (List ℕ))
    → length window ≤ 2 ^ bits
    → slides bits window ds ≡ last_of (2 ^ bits) (window ++ joined ds)
unfolding slides
slides-last bits window [] h =
    sym (ap (last_of (2 ^ bits)) (append-nil window) ∙ ap (λ k. drop k window) {y = 0} none_left)
  where
    none_left : length window - 2 ^ bits ≡ 0
    none_left = omega arith
slides-last bits window (d ∷ ds) h =
    slides-last bits (slide bits window d) ds (slide_fits bits window d h)
    ∙ ap (λ z. last_of (2 ^ bits) (z ++ joined ds)) (slide-last bits window d h)
    ∙ last_of-append (2 ^ bits) (window ++ d) (joined ds)
    ∙ ap (last_of (2 ^ bits)) (append_assoc window d (joined ds))

-- From an empty window, after any sequence of inflated messages, the window is the last 2 ^ bits
-- bytes of all their data together, or all of it where there is less.
pub window_is_history :
    (bits : ℕ) (ds : List (List ℕ)) → slides bits [] ds ≡ last_of (2 ^ bits) (joined ds)
window_is_history bits ds = slides-last bits [] ds (omega arith)
