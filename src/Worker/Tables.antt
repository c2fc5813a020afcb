-- ===== src/Worker/Tables.antt =====
-- cmd/worker/worker.go: the columns of the table of events and the view that fills it. ClickHouse answers
-- through the parameter Database; a statement is its parts in place of its text. The world W is all that
-- the database keeps.
use subtrace_docker_wireshar.Base.{
  ℕ, ◌≡◌, Bool, true, false, ◌||◌, List, [], ◌∷◌, ◌++◌, Option, none, some, ltb, if◌then◌else◌,
}
use subtrace_docker_wireshar.Base.Text.{codes, equal}
use subtrace_docker_wireshar.Worker.Columns.{Bytes, contains}

-- ADD COLUMN IF NOT EXISTS, of numbers or of texts, and ADD INDEX IF NOT EXISTS.
pub data Change : Type 0 where
  add_number add_text add_index : Bytes → Change

-- A column of the view's SELECT: the time, the id, a tag as it is, or a tag or NULL.
pub data Selected : Type 0 where
  time_or_now id_or_new : Selected
  tag tag_or_null : Bytes → Selected

-- The rows of a query as Next and Scan have them: each name, or none where Scan fails. `broken` is whether
-- Next then says no because of an error, which only Err would tell, and not at the end.
pub record Rows : Type 0 where
  pub names : List (Option Bytes)
  pub broken : Bool

-- A statement has no error, or one; a query has rows, or an error.
pub record Database (W : Type 0) : Type 0 where
  pub count_columns : Bytes → W → Option ℕ × W
  pub alter_table : List Change → W → Bool × W
  pub column_names : W → Option Rows × W
  pub modify_view : List Selected → W → Bool × W

unfoldable pub selected : Bytes → Selected
unfolding equal
selected column =
    if equal column (codes "time")
    then time_or_now
    else if equal column (codes "event_id")
    then id_or_new
    else if equal column (codes "service")
    then tag column
    else tag_or_null column

abbrev pub changes_of : Bytes → List Change
changes_of column =
    if equal column (codes "http_duration")
    then add_number column ∷ []
    else add_text column ∷ add_index column ∷ []

unfoldable pub changes : List Bytes → List Change
unfolding equal
changes [] = []
changes (column ∷ rest) = changes_of column ++ changes rest

-- The loop over the rows.
unfoldable pub scan : List Selected → List (Option Bytes) → Option (List Selected)
unfolding selected
scan cols [] = some cols
scan cols (none ∷ rest) = none
scan cols (some column ∷ rest) = scan (cols ++ selected column ∷ []) rest

module _ {W : Type 0} (db : Database W) where
  -- hasColumn.
  unfoldable pub has_column : Bytes → W → Option Bool × W
  has_column column w =
      let (count, w') = db.count_columns column w in
      (elim count [ none ↦ none | some n ↦ some (ltb 0 n) ], w')

  -- The statement, once the loop has the columns or has failed.
  abbrev pub modify : Option (List Selected) → W → Bool × W
  modify none w = (false, w)
  modify (some cols) w = db.modify_view cols w

  -- The source never asks Err, so `broken` is not read.
  abbrev pub after_names : Option Rows × W → Bool × W
  after_names (none, w) = (false, w)
  after_names (some rows, w) = modify (scan [] rows.names) w

  unfoldable pub rebuild_view : W → Bool × W
  unfolding scan
  rebuild_view w = after_names (db.column_names w)

  abbrev pub is_nil : List Bytes → Bool
  is_nil [] = true
  is_nil (c ∷ cs) = false

  abbrev pub after_alter : Bool × W → Bool × W
  after_alter (true, w) = rebuild_view w
  after_alter (false, w) = (false, w)

  -- addClickhouseColumns.
  unfoldable pub add_columns : List Bytes → W → Bool × W
  unfolding changes rebuild_view
  add_columns columns w =
      if is_nil columns then (true, w) else after_alter (db.alter_table (changes columns) w)

  -- A round of the loop of ensureClickhouseColumns, after its question.
  abbrev pub after_found :
      (List Bytes → W → Option (List Bytes) × W)
      → Bytes
      → List Bytes
      → Option Bool × W
      → Option (List Bytes) × W
  after_found go_on column missing (none, w) = (none, w)
  after_found go_on column missing (some true, w) = go_on missing w
  after_found go_on column missing (some false, w) = go_on (missing ++ column ∷ []) w

  unfoldable pub find_missing : List Bytes → List Bytes → W → Option (List Bytes) × W
  unfolding has_column
  find_missing [] missing w = (some missing, w)
  find_missing (column ∷ rest) missing w =
      after_found (λ m w'. find_missing rest m w') column missing (has_column column w)

  abbrev pub after_missing : Option (List Bytes) × W → Bool × W
  after_missing (none, w) = (false, w)
  after_missing (some cols, w) = add_columns cols w

  unfoldable pub ensure_columns : List Bytes → W → Bool × W
  unfolding find_missing add_columns
  ensure_columns columns w = after_missing (find_missing columns [] w)

-- A change adds a column.
abbrev pub adds : Bytes → Change → Bool
adds column (add_number c) = equal c column
adds column (add_text c) = equal c column
adds column (add_index c) = false

unfoldable pub adds_any : Bytes → List Change → Bool
unfolding equal
adds_any column [] = false
adds_any column (c ∷ cs) = adds column c || adds_any column cs

-- The names of rows, where each was scanned.
abbrev pub scanned : List (Option Bytes) → List Bytes
scanned [] = []
scanned (none ∷ rest) = scanned rest
scanned (some column ∷ rest) = column ∷ scanned rest

-- What the worker relies on where no other client changes the table: questions change nothing, a
-- statement without an error does what it says. Rows that are not broken are all there are.
pub record Contents {W : Type 0} (db : Database W) : Type 0 where
  pub columns : W → Bytes → Bool
  pub view : W → List Selected
  pub counts :
      (column : Bytes) (w : W) (n : ℕ)
      → (db.count_columns column w).0 ≡ some n
      → columns w column ≡ ltb 0 n
  pub counts_only :
      (column : Bytes) (w : W) (c : Bytes) → columns (db.count_columns column w).1 c ≡ columns w c
  pub alters :
      (cs : List Change) (w : W) (c : Bytes)
      → (db.alter_table cs w).0 ≡ true
      → columns (db.alter_table cs w).1 c ≡ (adds_any c cs || columns w c)
  pub lists :
      (w : W) (rows : Rows) (c : Bytes)
      → (db.column_names w).0 ≡ some rows
      → rows.broken ≡ false
      → contains c (scanned rows.names) ≡ columns w c
  pub lists_only : (w : W) (c : Bytes) → columns (db.column_names w).1 c ≡ columns w c
  pub views :
      (s : List Selected) (w : W) → (db.modify_view s w).0 ≡ true → view (db.modify_view s w).1 ≡ s
  pub views_only :
      (s : List Selected) (w : W) (c : Bytes) → columns (db.modify_view s w).1 c ≡ columns w c
