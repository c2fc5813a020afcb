-- ===== src/Engine/Status.antt =====
-- cmd/run/engine/engine.go: getThreadGroupID, and findUsername of cmd/run/engine/process/process.go,
-- which reads a file of /etc in the same way. strconv.Atoi is an argument.
use subtrace_docker_wireshar.Base.{
  ℕ, ◌≡◌, ◌≢◌, refl, ◌∙◌, ap, arith, List, [], ◌∷◌, ◌++◌, Option, none, some, All, ◌==◌,
  if◌then◌else◌,
}
use subtrace_docker_wireshar.Base.Text.{split, cut, trim_space}
use subtrace_docker_wireshar.Process.Opening.{same_bytes}

abbrev pub newline : ℕ
newline = 10

abbrev pub colon : ℕ
colon = 58

-- The bytes of "Tgid".
abbrev pub tgid_key : List ℕ
tgid_key = 84 ∷ 103 ∷ 105 ∷ 100 ∷ []

-- The value of a line with the key, if it is one.
unfoldable pub tgid_value : List ℕ → Option (List ℕ)
unfolding cut trim_space same_bytes
tgid_value line = elim (cut colon line) [
  | none ↦ none
  | some (k, v) ↦ if same_bytes (trim_space k) tgid_key then some v else none
]

-- The loop over the lines; `none` is an error.
unfoldable pub tgid_of_lines : (List ℕ → Option ℕ) → List (List ℕ) → Option ℕ
unfolding tgid_value trim_space
tgid_of_lines atoi [] = none
tgid_of_lines atoi (line ∷ rest) =
    let later = tgid_of_lines atoi rest in
    elim (tgid_value line) [ none ↦ later | some v ↦ atoi (trim_space v) ]

unfoldable pub thread_group_id : (List ℕ → Option ℕ) → Option (List ℕ) → Option ℕ
unfolding tgid_of_lines split
thread_group_id atoi none = none
thread_group_id atoi (some file) = tgid_of_lines atoi (split newline file)

abbrev pub seven : List (List ℕ) → Option (List ℕ × List ℕ)
seven (name ∷ p1 ∷ uid ∷ p3 ∷ p4 ∷ p5 ∷ p6 ∷ []) = some (name, uid)
seven _ = none

abbrev pub name_of : (List ℕ → Option ℕ) → ℕ → Option (List ℕ × List ℕ) → Option (List ℕ)
name_of atoi uid none = none
name_of atoi uid (some (name, text)) = elim (atoi text) [
  | none ↦ none
  | some n ↦ if n == uid then some name else none
]

-- The loop of findUsername over the lines.
unfoldable pub user_of_lines : (List ℕ → Option ℕ) → ℕ → List (List ℕ) → Option (List ℕ)
unfolding split
user_of_lines atoi uid [] = none
user_of_lines atoi uid (line ∷ rest) =
    let later = user_of_lines atoi uid rest in
    elim (name_of atoi uid (seven (split colon line))) [ none ↦ later | some name ↦ some name ]

unfoldable pub find_username : (List ℕ → Option ℕ) → ℕ → Option (List ℕ) → Option (List ℕ)
unfolding user_of_lines split
find_username atoi uid none = none
find_username atoi uid (some file) = user_of_lines atoi uid (split newline file)

split-line :
    (line rest : List ℕ)
    → All (λ c. c ≢ newline) line
    → split newline (line ++ newline ∷ rest) ≡ line ∷ split newline rest
unfolding split
split-line [] rest h = refl
split-line (x ∷ xs) rest (ne, h) = ground (arith, split-line xs rest h, ne)

-- Lines, each with a newline at its end.
abbrev pub lines_text : List (List ℕ) → List ℕ → List ℕ
lines_text [] rest = rest
lines_text (line ∷ lines) rest = line ++ newline ∷ lines_text lines rest

tgid-hit :
    (atoi : List ℕ → Option ℕ) (line v : List ℕ) (rest : List (List ℕ))
    → tgid_value line ≡ some v
    → tgid_of_lines atoi (line ∷ rest) ≡ atoi (trim_space v)
unfolding tgid_of_lines
tgid-hit atoi line v rest e = ground (arith, e)

tgid-miss :
    (atoi : List ℕ → Option ℕ) (line : List ℕ) (rest : List (List ℕ))
    → tgid_value line ≡ none
    → tgid_of_lines atoi (line ∷ rest) ≡ tgid_of_lines atoi rest
unfolding tgid_of_lines
tgid-miss atoi line rest e = ground (arith, e)

-- In a status file whose lines before the first one with the key Tgid are any others, that line's value
-- is the thread group, whatever comes after it.
pub thread_group_id-lines :
    (atoi : List ℕ → Option ℕ) (before : List (List ℕ)) (line v rest : List ℕ)
    → All (λ l. All (λ c. c ≢ newline) l × (tgid_value l ≡ none)) before
    → All (λ c. c ≢ newline) line
    → tgid_value line ≡ some v
    → thread_group_id atoi (some (lines_text before (line ++ newline ∷ rest))) ≡ atoi (trim_space v)
unfolding thread_group_id
thread_group_id-lines atoi [] line v rest h ok_line e =
    ap (tgid_of_lines atoi) (split-line line rest ok_line)
    ∙ tgid-hit atoi line v (split newline rest) e
thread_group_id-lines atoi (l ∷ before) line v rest ((ok_l, no_key), h) ok_line e =
    let later = lines_text before (line ++ newline ∷ rest) in
    ap (tgid_of_lines atoi) (split-line l later ok_l)
    ∙ tgid-miss atoi l (split newline later) no_key
    ∙ thread_group_id-lines atoi before line v rest h ok_line e
