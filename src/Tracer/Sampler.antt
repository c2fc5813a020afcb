-- ===== src/Tracer/Sampler.antt =====
-- tracer/parser.go: the sampler, which keeps the first bytes of a body while the body is read. The
-- limit is tracer.PayloadLimitBytes; a chunk has the bytes that one Read of the body returned.
use mathlib.Core.List.{append_assoc, append-nil}
use subtrace_docker_wireshar.Base.{
  ℕ, ◌+◌, ◌-◌, ◌≤◌, ◌<◌, ◌≡◌, refl, sym, ap, ◌∙◌, arith, Bool, true, false, ◌&&◌, List, [], ◌∷◌,
  ◌++◌, length, length-append, take, ltb, if◌then◌else◌, zero, suc, length-take, min,
}

-- `data` has the `used` bytes at the start of the source's buffer.
pub record Sampler : Type 0 where
  pub kept : List ℕ
  pub over : Bool

unfoldable pub new_sampler : Sampler
new_sampler = record { kept = []; over = false }

-- Read.
unfoldable pub read : ℕ → Sampler → List ℕ → Sampler
read limit s chunk =
    let used = length s.kept in
    if ltb 0 (length chunk) && ltb used limit
    then if ltb limit (used + length chunk)
      then record { kept = s.kept ++ take (limit - used) chunk; over = true }
      else record s { kept = s.kept ++ chunk }
    else s

-- A body that is read to the end.
unfoldable pub read_all : ℕ → Sampler → List (List ℕ) → Sampler
unfolding read
read_all limit s [] = s
read_all limit s (chunk ∷ chunks) = read_all limit (read limit s chunk) chunks

abbrev pub whole_body : List (List ℕ) → List ℕ
whole_body [] = []
whole_body (chunk ∷ chunks) = chunk ++ whole_body chunks

take-append_short : (n : ℕ) (xs ys : List ℕ) → n ≤ length xs → take n (xs ++ ys) ≡ take n xs
take-append_short zero xs ys h = refl
take-append_short (suc n) [] ys h = absurd (omega arith)
take-append_short (suc n) (x ∷ xs) ys h = ap (λ t. x ∷ t) (take-append_short n xs ys (omega arith))

take-append_long :
    (n : ℕ) (xs ys : List ℕ) → length xs ≤ n → take n (xs ++ ys) ≡ xs ++ take (n - length xs) ys
take-append_long n [] ys h = ap (λ k. take k ys) (omega arith)
take-append_long zero (x ∷ xs) ys h = absurd (omega arith)
take-append_long (suc n) (x ∷ xs) ys h =
    ap (λ t. x ∷ t) (take-append_long n xs ys (omega arith))
    ∙ ap (λ k. x ∷ (xs ++ take k ys)) (omega arith)

take_whole : (n : ℕ) (xs : List ℕ) → length xs ≤ n → take n xs ≡ xs
take_whole zero [] h = refl
take_whole zero (x ∷ xs) h = absurd (omega arith)
take_whole (suc n) [] h = refl
take_whole (suc n) (x ∷ xs) h = ap (λ t. x ∷ t) (take_whole n xs (omega arith))

-- What the sampler has after the bytes of `seen`.
record IsSample (limit : ℕ) (seen : List ℕ) (s : Sampler) : Type 0 where
  first : s.kept ≡ take limit seen
  cut : s.over ≡ true → limit < length seen

new-IsSample : (limit : ℕ) → IsSample limit [] new_sampler
unfolding new_sampler
new-IsSample limit = record {
  first = sym (take_whole limit [] (omega arith));
  cut = λ h. ground arith;
}

kept_length :
    (limit : ℕ) (seen : List ℕ) (s : Sampler)
    → IsSample limit seen s
    → length s.kept ≡ min limit (length seen)
kept_length limit seen s v = ap length v.first ∙ length-take limit seen

read-IsSample :
    (limit : ℕ) (seen chunk : List ℕ) (s : Sampler)
    → IsSample limit seen s
    → IsSample limit (seen ++ chunk) (read limit s chunk)
unfolding read
read-IsSample limit seen [] s v = rw (append-nil seen) v
read-IsSample limit seen (c ∷ cs) s v = record {
  first = ground (
    arith,
    v.first,
    kept_length limit seen s v,
    take-append_short limit seen (c ∷ cs),
    take-append_long limit seen (c ∷ cs),
    take_whole limit seen,
    take_whole (limit - length seen) (c ∷ cs),
    length-append seen (c ∷ cs),
  );
  cut = λ h. ground (arith, h, v.cut, kept_length limit seen s v, length-append seen (c ∷ cs));
}

read_all-IsSample :
    (limit : ℕ) (seen : List ℕ) (chunks : List (List ℕ)) (s : Sampler)
    → IsSample limit seen s
    → IsSample limit (seen ++ whole_body chunks) (read_all limit s chunks)
unfolding read_all
read_all-IsSample limit seen [] s v = rw (append-nil seen) v
read_all-IsSample limit seen (chunk ∷ chunks) s v =
    rw (sym (append_assoc seen chunk (whole_body chunks))) (
      read_all-IsSample limit (seen ++ chunk) chunks (read limit s chunk)
        (read-IsSample limit seen chunk s v))

-- However a body comes in chunks, the sampler keeps its first `limit` bytes, or all of a shorter
-- one, and where it says that the body was cut, the body is longer than that.
pub read_all-first :
    (limit : ℕ) (chunks : List (List ℕ))
    → let s = read_all limit new_sampler chunks in
      (s.kept ≡ take limit (whole_body chunks))
      × (s.over ≡ true → limit < length (whole_body chunks))
read_all-first limit chunks =
    let v = read_all-IsSample limit [] chunks new_sampler (new-IsSample limit) in (v.first, v.cut)

read_full :
    (limit : ℕ) (s : Sampler) (chunk : List ℕ) → length s.kept ≡ limit → read limit s chunk ≡ s
unfolding read
read_full limit s chunk h = ground arith

read_all_full :
    (limit : ℕ) (s : Sampler) (chunks : List (List ℕ))
    → length s.kept ≡ limit
    → read_all limit s chunks ≡ s
unfolding read_all
read_all_full limit s [] h = refl
read_all_full limit s (chunk ∷ chunks) h =
    rw (read_full limit s chunk h) (read_all_full limit s chunks h)

first_read :
    (limit : ℕ) (chunk : List ℕ)
    → length chunk ≡ limit
    → read limit new_sampler chunk ≡ record { kept = chunk; over = false }
unfolding read new_sampler
first_read limit [] h = ground arith
first_read limit (c ∷ cs) h = ground arith

-- Where a chunk fills the sampler to the last byte, nothing that follows is kept, and nothing that
-- follows makes it say that the body was cut.
pub read_all_exact :
    (limit : ℕ) (chunk : List ℕ) (chunks : List (List ℕ))
    → length chunk ≡ limit
    → read_all limit new_sampler (chunk ∷ chunks) ≡ record { kept = chunk; over = false }
unfolding read_all new_sampler
read_all_exact limit chunk chunks h =
    ap (λ s. read_all limit s chunks) (first_read limit chunk h)
    ∙ read_all_full limit (record { kept = chunk; over = false }) chunks h
