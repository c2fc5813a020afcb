-- ===== src/Worker/Ensuring.antt =====
-- ensureClickhouseColumns of cmd/worker/worker.go makes every column exist, and the view take them all.
use subtrace_docker_wireshar.Base.{◌≡◌, true, false, ◌⊎◌, List, map, some, All}
use subtrace_docker_wireshar.Worker.Columns.{Bytes, contains}
use subtrace_docker_wireshar.Worker.Tables.{Database, Rows, selected, Contents}

module _ {W : Type 0} (db : Database W) (k : Contents db)
    (whole : (w : W) (rows : Rows) → (db.column_names w).0 ≡ some rows → rows.broken ≡ false) where
  open k use {columns, view}

  -- The columns that are left out are there, and those taken in are not.
  abbrev Found : W → List Bytes → List Bytes → Type 0
  Found w l cols = All (λ c. (columns w c ≡ true) ⊎ (contains c l ≡ true)) cols

  record Searched (w w' : W) (before l cols : List Bytes) : Type 0 where
    same : (c : Bytes) → columns w' c ≡ columns w c
    kept : (c : Bytes) → contains c before ≡ true → contains c l ≡ true
    found : Found w l cols

  -- The view takes exactly the columns of the table.
  abbrev pub TakesAll : W → Type 0
  TakesAll w =
      (l : List Bytes) × (view w ≡ map selected l) × ((c : Bytes) → contains c l ≡ columns w c)

  -- What is left after a success.
  abbrev pub Ensured : W → W → List Bytes → Type 0
  Ensured w w' cols =
      All (λ c. columns w' c ≡ true) cols
      × ((c : Bytes) → columns w c ≡ true → columns w' c ≡ true)
      × (All (λ c. columns w c ≡ true) cols ⊎ TakesAll w')
