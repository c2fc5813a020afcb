-- ===== src/Worker/Lines.antt =====
-- The lines that String of event/event.go prints, and the columns that handleInsert of
-- cmd/worker/worker.go finds in them.
use subtrace_docker_wireshar.Base.{ℕ, ◌≡◌, refl, true, false, List, [], ◌∷◌, ◌++◌}
use subtrace_docker_wireshar.Config.{valid_key}
use subtrace_docker_wireshar.Worker.Columns.{Bytes, is_empty}

-- String: key=value with the value quoted, and spaces between. `quote` is the verb %q of package fmt.
unfoldable pub print_line : (Bytes → Bytes) → List (Bytes × Bytes) → Bytes
print_line quote [] = []
print_line quote ((key, val) ∷ []) = key ++ 61 ∷ quote val
print_line quote ((key, val) ∷ next ∷ rest) =
    key ++ 61 ∷ (quote val ++ 32 ∷ print_line quote (next ∷ rest))

filled : (run : Bytes) (c : ℕ) (cs : Bytes) → is_empty (run ++ c ∷ cs) ≡ false
filled [] c cs = refl
filled (x ∷ xs) c cs = refl

-- A key of a tag: not empty, and of letters, digits and underscores.
abbrev pub IsKey : Bytes → Type 0
IsKey key = (valid_key key ≡ true) × (is_empty key ≡ false)
