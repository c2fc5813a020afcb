-- ===== src/Examples/Records.antt =====
-- The journal of cmd/run/journal/journal.go.
use subtrace_docker_wireshar.Base.{◌≡◌, arith, List, [], ◌∷◌}
use subtrace_docker_wireshar.Journal.{Line, new, copy_from}
use subtrace_docker_wireshar.Journal.Log.{
  add_lines, copy_from-log, scanned, listened, feed, IsBounded, feed-new-IsBounded,
}

abbrev three_lines : List Line
three_lines = (1 ∷ []) ∷ (2 ∷ []) ∷ (3 ∷ []) ∷ []

copy_from-log_example : copy_from (add_lines new three_lines) 1 ≡ (1, (2 ∷ []) ∷ (3 ∷ []) ∷ [])
copy_from-log_example = copy_from-log three_lines 1 (omega arith) (omega arith)

feed-new-IsBounded_example : IsBounded (feed new (scanned (1 ∷ []) ∷ listened ∷ []))
feed-new-IsBounded_example = feed-new-IsBounded (scanned (1 ∷ []) ∷ listened ∷ [])
