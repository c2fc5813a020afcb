-- ===== src/Worker/Queries.antt =====
-- cmd/worker/worker.go: queries of a tunnel, which go to ClickHouse over HTTP and back as a result. The
-- request, its answer and package gzip are arguments.
use subtrace_docker_wireshar.Base.{
  ℕ, Bool, true, false, List, [], Option, none, some, length, take, ltb, ◌==◌, if◌then◌else◌,
}
use subtrace_docker_wireshar.Worker.Columns.{Bytes, insert_columns}
use subtrace_docker_wireshar.Worker.Tables.{Database, ensure_columns}

-- 128 << 20.
abbrev pub max_result_bytes : ℕ
max_result_bytes = 134217728

-- An answer over HTTP; `details` is the exception of an error's body, `body` none if it cannot be read.
pub record Reply : Type 0 where
  pub status : ℕ
  pub clickhouse_query_id : Bytes
  pub exception_code : Bytes
  pub details : Option Bytes
  pub body : Option Bytes

pub data Http : Type 0 where
  bad_endpoint bad_request no_answer : Http
  answers : Reply → Http

-- The errors, by the place that makes them.
pub data Fault : Type 0 where
  parse_endpoint create_request do_request read_body : Fault
  ensure_fault marshal_fault write_fault close_fault : Fault
  status_fault : ℕ → Bytes → Option Bytes → Fault

-- The results of proxyClickhouse.
pub record Proxied : Type 0 where
  pub result : Bytes
  pub clickhouse_query_id : Bytes
  pub clickhouse_error : Option Fault
  pub tunnel_error : Option Fault

abbrev pub unsent : Fault → Proxied
unsent f = record {
  result = [];
  clickhouse_query_id = [];
  clickhouse_error = none;
  tunnel_error = some f;
}

abbrev pub answered : Bytes → Option Bytes → Proxied
answered query_id none = record {
  result = [];
  clickhouse_query_id = query_id;
  clickhouse_error = none;
  tunnel_error = some read_body;
}
answered query_id (some body) = record {
  result = take max_result_bytes body;
  clickhouse_query_id = query_id;
  clickhouse_error = none;
  tunnel_error = none;
}

unfoldable pub proxy_clickhouse : Http → Proxied
proxy_clickhouse bad_endpoint = unsent parse_endpoint
proxy_clickhouse bad_request = unsent create_request
proxy_clickhouse no_answer = unsent do_request
proxy_clickhouse (answers r) =
    if r.status == 200 then answered r.clickhouse_query_id r.body else record {
      result = [];
      clickhouse_query_id = r.clickhouse_query_id;
      clickhouse_error = some (status_fault r.status r.exception_code r.details);
      tunnel_error = none;
    }

pub data Mode : Type 0 where
  plain gzip : Mode

-- tunnel.Result.
pub record Result : Type 0 where
  pub tunnel_query_id : Bytes
  pub clickhouse_query_id : Bytes
  pub clickhouse_error : Option Fault
  pub tunnel_error : Option Fault
  pub mode : Mode
  pub compressed : Bytes

-- The writer of package gzip.
pub data Zipped : Type 0 where
  zipped : Bytes → Zipped
  write_fails close_fails : Zipped

abbrev pub with_error : Bytes → Bytes → Option Fault → Option Fault → Result
with_error id query_id clickhouse tunnel = record {
  tunnel_query_id = id;
  clickhouse_query_id = query_id;
  clickhouse_error = clickhouse;
  tunnel_error = tunnel;
  mode = plain;
  compressed = [];
}

abbrev pub with_data : Bytes → Bytes → Mode → Bytes → Result
with_data id query_id mode bytes = record {
  tunnel_query_id = id;
  clickhouse_query_id = query_id;
  clickhouse_error = none;
  tunnel_error = none;
  mode = mode;
  compressed = bytes;
}

abbrev pub with_zipped : Bytes → Bytes → Zipped → Result
with_zipped id query_id (zipped b) = with_data id query_id gzip b
with_zipped id query_id write_fails = with_error id query_id none (some write_fault)
with_zipped id query_id close_fails = with_error id query_id none (some close_fault)

abbrev pub packed : (Bytes → Zipped) → Bytes → Proxied → Result
packed compress id p =
    if ltb (length p.result) 4096
    then with_data id p.clickhouse_query_id plain p.result
    else with_zipped id p.clickhouse_query_id (compress p.result)

-- runQuery, after the call of proxyClickhouse.
unfoldable pub result_of : (Bytes → Zipped) → Bytes → Proxied → Result
result_of compress id p = elim p.tunnel_error [
  | some f ↦ with_error id p.clickhouse_query_id none (some f)
  | none ↦ elim p.clickhouse_error [
    | some f ↦ with_error id p.clickhouse_query_id (some f) none
    | none ↦ packed compress id p
  ]
]

unfoldable pub run_query : (Bytes → Zipped) → Bytes → Http → Result
unfolding proxy_clickhouse result_of
run_query compress id http = result_of compress id (proxy_clickhouse http)

-- A statement of ours, with its data, or one of the tunnel's.
pub data Query : Type 0 where
  insert_lines : Bytes → Query
  statement : Bytes → Query

-- What a tunnel's query meets: the database, the encoder of lines, and HTTP.
pub record Server (W : Type 0) : Type 0 where
  pub database : Database W
  pub marshal : List Bytes → Option Bytes
  pub http : Query → W → Http × W
  pub compress : Bytes → Zipped

module _ {W : Type 0} (s : Server W) where
  unfoldable pub ask : Bytes → Query → W → Result × W
  unfolding run_query
  ask id q w = let (http, w') = s.http q w in (run_query s.compress id http, w')

  abbrev pub send_lines : Bytes → Option Bytes → W → Result × W
  send_lines id none w = (with_error id [] none (some marshal_fault), w)
  send_lines id (some lines) w = ask id (insert_lines lines) w

  abbrev pub after_ensure : Bytes → List Bytes → Bool × W → Result × W
  after_ensure id events (false, w) = (with_error id [] none (some ensure_fault), w)
  after_ensure id events (true, w) = send_lines id (s.marshal events) w

  unfoldable pub handle_insert : Bytes → List Bytes → W → Result × W
  unfolding insert_columns ensure_columns ask
  handle_insert id events w =
      after_ensure id events (ensure_columns s.database (insert_columns events) w)

  unfoldable pub handle_select : Bytes → Bytes → W → Result × W
  unfolding ask
  handle_select id sql w = ask id (statement sql) w

-- tunnel.Role, and any other number.
pub data Role : Type 0 where
  insert_role select_role : Role
  other_role : ℕ → Role

-- A message decoded for a role, or not: the query's id, with events or a statement.
pub record Decoder : Type 0 where
  pub as_insert : Bytes → Option (Bytes × List Bytes)
  pub as_select : Bytes → Option (Bytes × Bytes)

-- handleQuery has an error before it answers, or writes a result; nil for a role that it does not know.
pub data Handled : Type 0 where
  undecoded : Handled
  writes : Option Result → Handled

module _ {W : Type 0} (s : Server W) (d : Decoder) where
  abbrev pub written : Result × W → Handled × W
  written (r, w) = (writes (some r), w)

  abbrev pub on_insert : Option (Bytes × List Bytes) → W → Handled × W
  on_insert none w = (undecoded, w)
  on_insert (some (id, events)) w = written (handle_insert s id events w)

  abbrev pub on_select : Option (Bytes × Bytes) → W → Handled × W
  on_select none w = (undecoded, w)
  on_select (some (id, sql)) w = written (handle_select s id sql w)

  unfoldable pub handle_query : Role → Bytes → W → Handled × W
  unfolding handle_insert handle_select
  handle_query insert_role msg w = on_insert (d.as_insert msg) w
  handle_query select_role msg w = on_select (d.as_select msg) w
  handle_query (other_role n) msg w = (writes none, w)
