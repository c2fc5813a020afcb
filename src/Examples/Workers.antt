-- ===== src/Examples/Workers.antt =====
-- The theorems on cmd/worker at a database that is a list of columns and a view.
use subtrace_docker_wireshar.Base.{
  ℕ, ◌≡◌, refl, map, Option, false, ◌⊎◌, inr, inl, List, [], ◌∷◌, ◌++◌, none, some, true, take,
  if◌then◌else◌,
}
use subtrace_docker_wireshar.Base.Text.{codes}
use subtrace_docker_wireshar.Worker.Columns.{Bytes, contains}
use subtrace_docker_wireshar.Worker.Tables.{
  Change, add_number, add_text, add_index, Selected, Database, Rows,
}
use subtrace_docker_wireshar.Worker.Queries.{max_result_bytes, Http, answers, zipped, run_query}
use subtrace_docker_wireshar.Worker.Answers.{Carries, Fails, IsBody, run_query-Carries}
use subtrace_docker_wireshar.Worker.Tunnels.{Item, Round, run_rounds, start}
use subtrace_docker_wireshar.Worker.Listing.{count, run_rounds-starts}

record World : Type 0 where
  cols : List Bytes
  shown : List Selected

abbrev added : Change → List Bytes → List Bytes
added (add_number c) cols = c ∷ cols
added (add_text c) cols = c ∷ cols
added (add_index c) cols = cols

abbrev added_all : List Change → List Bytes → List Bytes
added_all [] cols = cols
added_all (c ∷ cs) cols = added c (added_all cs cols)

abbrev database : Database World
database = record {
  count_columns = λ c w. (some (if contains c w.cols then 1 else 0), w);
  alter_table = λ cs w. (true, record w { cols = added_all cs w.cols });
  column_names = λ w. (some (record { names = map some w.cols; broken = false }), w);
  modify_view = λ s w. (true, record w { shown = s });
}

abbrev names_of : Option Rows → List (Option Bytes)
names_of none = []
names_of (some rows) = rows.names

abbrev before : World
before = record { cols = codes "time" ∷ []; shown = [] }

abbrev wanted : List Bytes
wanted = codes "time" ∷ codes "http_duration" ∷ codes "a" ∷ []

abbrev tags : List (Bytes × Bytes)
tags = (codes "time", codes "b=1 c=2") ∷ (codes "x_1", []) ∷ []

abbrev quote : Bytes → Bytes
quote v = 34 ∷ (v ++ 34 ∷ [])

abbrev reply : Http
reply = answers (record {
  status = 200;
  clickhouse_query_id = codes "q";
  exception_code = [];
  details = none;
  body = some (codes "[1]");
})

run_query-Carries_example :
    ((body : Bytes) × IsBody reply body
      × Carries some (run_query zipped (codes "id") reply) (take max_result_bytes body))
    ⊎ (((body : Bytes) → ¬ IsBody reply body) × Fails (run_query zipped (codes "id") reply))
run_query-Carries_example = run_query-Carries zipped some (codes "id") reply (λ b. (b, refl, refl))

abbrev item : ℕ → Item
item n = record { tunnel_id = some n; namespace_id = some 0 }

abbrev rounds : List Round
rounds =
    record { now = 1; outcomes = none ∷ some (item 7 ∷ item 8 ∷ []) ∷ [] }
    ∷ record { now = 2; outcomes = some (item 7 ∷ []) ∷ [] }
    ∷ []

run_rounds-starts_example : count 8 (run_rounds rounds start).1.started ≡ 1
unfolding run_rounds start
run_rounds-starts_example =
    run_rounds-starts rounds 8 refl (inl (item 7 ∷ item 8 ∷ [], refl, inr (inl refl)))
