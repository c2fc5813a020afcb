-- ===== src/Journal/Window.antt =====
-- The ring buffer of cmd/run/journal/journal.go against the whole history of the log.
use subtrace_docker_wireshar.Base.{
  ℕ, zero, suc, ◌+◌, ◌-◌, ◌%◌, ◌^◌, ◌≤◌, ◌<◌, ◌≡◌, refl, sym, ◌∙◌, arith, List, [], ◌∷◌, ◌++◌,
  get_elem?, set, take, drop, min, length, length-append, length-set, length-take, length-drop,
  length-replicate, get_elem?-set_ne, get_elem?-append_left, get_elem?-append_right, get_elem?-take,
  get_elem?-drop, get_elem?_beyond, list_ext, some,
}
use native.Mathlib.Decide.{dec_lt, ℕ_discrete}
use subtrace_docker_wireshar.Journal.{Journal, Line, max_log_lines, new, add_line, copy_from}

-- The buffer holds the last 4096 lines of the history, each at its index modulo 4096.
pub record Holds (history : List Line) (j : Journal) : Type 0 where
  pub counted : j.idx ≡ length history
  pub sized : length j.buf ≡ max_log_lines
  pub recent :
      (k : ℕ)
      → k < length history
      → length history ≤ k + max_log_lines
      → get_elem? j.buf (k % max_log_lines) ≡ get_elem? history k

pub new-Holds : Holds [] new
unfolding new
new-Holds = record {
  counted = refl;
  sized = length-replicate {A = Line} max_log_lines [];
  recent = λ k h near. absurd (omega arith);
}

get_elem?-set_at :
    (xs : List Line) (i : ℕ) (v : Line) → i < length xs → get_elem? (set xs i v) i ≡ some v
get_elem?-set_at [] i v h = absurd (omega arith)
get_elem?-set_at (x ∷ xs) zero v h = refl
get_elem?-set_at (x ∷ xs) (suc i) v h = get_elem?-set_at xs i v (omega arith)

get_elem?-append_last : (xs : List Line) (v : Line) → get_elem? (xs ++ v ∷ []) (length xs) ≡ some v
get_elem?-append_last [] v = refl
get_elem?-append_last (x ∷ xs) v = get_elem?-append_last xs v

pub add_line-Holds :
    (history : List Line) (j : Journal) (line : Line)
    → Holds history j
    → length history + 1 < 2 ^ 64
    → Holds (history ++ line ∷ []) (add_line j line)
unfolding add_line
add_line-Holds history j line v room = record {
  counted = omega (arith, v.counted, length-append history (line ∷ []));
  sized = length-set j.buf (j.idx % max_log_lines) line ∙ v.sized;
  recent = λ k lt near. elim (ℕ_discrete k (length history)) [
    | yes e ↦
        rw (e, v.counted)
          (get_elem?-set_at j.buf (length history % max_log_lines) line (omega (arith, v.sized))
            ∙ sym (get_elem?-append_last history line))
    | no ne ↦
        let older : k < length history = omega (arith, length-append history (line ∷ [])) in
        get_elem?-set_ne j.buf (j.idx % max_log_lines) (k % max_log_lines) line
          (omega (arith, v.counted, length-append history (line ∷ [])))
        ∙ v.recent k older (omega (arith, length-append history (line ∷ [])))
        ∙ sym (get_elem?-append_left history (line ∷ []) k older)
  ];
}

drop_beyond : (n : ℕ) (xs : List Line) → length xs ≤ n → drop n xs ≡ []
drop_beyond zero [] h = refl
drop_beyond zero (x ∷ xs) h = absurd (omega arith)
drop_beyond (suc n) [] h = refl
drop_beyond (suc n) (x ∷ xs) h = drop_beyond n xs (omega arith)

module _ (history : List Line) (j : Journal) (v : Holds history j) (pos : ℕ)
    (behind : pos ≤ length history) (room : length history < 2 ^ 64) where
  -- How many lines CopyFrom returns, and the index of the first.
  abbrev wide : ℕ
  wide = min (length history - pos) max_log_lines

  abbrev first : ℕ
  first = length history - wide

  at_slot :
      (i c : ℕ)
      → i < wide
      → c ≡ (first + i) % max_log_lines
      → get_elem? j.buf c ≡ get_elem? history (first + i)
  at_slot i c h e = rw e (v.recent (first + i) (omega arith) (omega arith))

  straight :
      first % max_log_lines < length history % max_log_lines
      → take
          (length history % max_log_lines - first % max_log_lines)
          (drop (first % max_log_lines) j.buf)
        ≡ drop first history
  straight h = list_ext _ _ λ i. elim (dec_lt i wide) [
    | yes inside ↦
        get_elem?-take _ (drop (first % max_log_lines) j.buf) i (omega arith)
        ∙ get_elem?-drop (first % max_log_lines) j.buf i
        ∙ at_slot i (first % max_log_lines + i) inside (omega arith)
        ∙ sym (get_elem?-drop first history i)
    | no outside ↦
        get_elem?_beyond _ i (
          omega (
            arith,
            length-take (length history % max_log_lines - first % max_log_lines)
                (drop (first % max_log_lines) j.buf),
          ))
        ∙ sym (get_elem?_beyond _ i (omega (arith, length-drop first history)))
  ]

  wrapped :
      length history % max_log_lines ≤ first % max_log_lines
      → 0 < wide
      → drop (first % max_log_lines) j.buf ++ take (length history % max_log_lines) j.buf
        ≡ drop first history
  wrapped h some_lines = list_ext _ _ λ i. elim (dec_lt i (length tail)) [
    | yes old ↦
        get_elem?-append_left tail front i old
        ∙ get_elem?-drop (first % max_log_lines) j.buf i
        ∙ at_slot i (first % max_log_lines + i) (omega (arith, v.sized, tail_size))
            (omega (arith, v.sized, tail_size))
        ∙ sym (get_elem?-drop first history i)
    | no young ↦ get_elem?-append_right tail front i (omega arith) ∙ elim (dec_lt i wide) [
      | yes inside ↦
          get_elem?-take (length history % max_log_lines) j.buf (i - length tail)
            (omega (arith, v.sized, tail_size))
          ∙ at_slot i (i - length tail) inside (omega (arith, v.sized, tail_size))
          ∙ sym (get_elem?-drop first history i)
      | no outside ↦
          get_elem?_beyond front (i - length tail)
            (omega (arith, v.sized, tail_size, length-take (length history % max_log_lines) j.buf))
          ∙ sym (get_elem?_beyond _ i (omega (arith, length-drop first history)))
    ]
  ]
    where
      tail : List Line
      tail = drop (first % max_log_lines) j.buf

      front : List Line
      front = take (length history % max_log_lines) j.buf

      tail_size : length tail ≡ length j.buf - first % max_log_lines
      tail_size = length-drop (first % max_log_lines) j.buf

  -- CopyFrom returns the lines of the history from `pos` on, or the last 4096 where they are more,
  -- and the index of the first line that it returns.
  pub copy_from-recent : copy_from j pos ≡ (first, drop first history)
  unfolding copy_from
  copy_from-recent = elim (ℕ_discrete pos (length history)) [
    | yes e ↦ ground (arith, v.counted, drop_beyond first history)
    | no ne ↦ elim (dec_lt (first % max_log_lines) (length history % max_log_lines)) [
      | yes s ↦ ground (arith, v.counted, straight s)
      | no w ↦ ground (arith, v.counted, wrapped (omega arith) (omega arith))
    ]
  ]
