-- ===== src/Examples/Exchanges.antt =====
-- The theorems on the HTTP proxies of cmd/run/socket/proxy.go, on their ends, and a run on the header of
-- a websocket.
use subtrace_docker_wireshar.Base.{
  ℕ, ◌-◌, ◌≡◌, refl, List, [], ◌∷◌, Option, none, some, Bool, true, false,
}
use subtrace_docker_wireshar.Base.Text.{codes, equal, split, trim_space, trim_left, trim_right}
use subtrace_docker_wireshar.Proxy.Http2.{
  Block, headers, body, ping, unknown, Step, reads, wakes, run, copy_frame, get_stream, reap,
}
use subtrace_docker_wireshar.Proxy.Streams.{Forwards, run-Forwards}
use subtrace_docker_wireshar.Proxy.Endings.{IsOrderly, new_conn, Finishes, run-Finishes}
use subtrace_docker_wireshar.Proxy.Closing.{
  Event, copy_ends, close_if_lost, deferred_close, socket_swaps, socket_closes, Proxy, finished,
  over, begin, steps, Connections, steps-closes,
}
use subtrace_docker_wireshar.Proxy.Http1.{Request, Response, Switching, not_created}
use subtrace_docker_wireshar.Websocket.Extension.{ℤ, pos, Settings, new_websocket}

abbrev block : Bool → Block
block ended = record {
  stream = 1;
  fragment = [];
  fields = some ((codes ":status", codes "200") ∷ (codes "x", codes "y") ∷ []);
  headers_ended = true;
  stream_ended = ended;
  priority = record { stream_dep = 0; exclusive = false; weight = 0 };
  padding = 0;
}

abbrev exchange : List Step
exchange =
    reads true (headers (block true))
    ∷ reads false (headers (block false))
    ∷ reads false (unknown (1 ∷ []))
    ∷ reads true (ping false [])
    ∷ reads false (body (record { stream = 1; stream_ended = true; bytes = 7 ∷ []; padding = 3 }))
    ∷ wakes 1
    ∷ []

run-Forwards_example : Forwards exchange new_conn (run exchange new_conn)
run-Forwards_example = run-Forwards exchange new_conn

in_order : IsOrderly exchange new_conn
unfolding copy_frame get_stream reap
in_order = (λ e. refl, (λ e. cc, (tt, (tt, (tt, tt)))))

run-Finishes_example : Finishes (run exchange new_conn)
run-Finishes_example = run-Finishes exchange in_order

abbrev ends_then_closes : List Event
ends_then_closes = copy_ends ∷ socket_swaps ∷ close_if_lost ∷ socket_closes ∷ deferred_close ∷ []

abbrev after_both : Proxy
after_both = record {
  process_open = false;
  external_open = false;
  skip_close = true;
  start = finished;
  closer = over;
}

both_ran : steps ends_then_closes begin ≡ some after_both
unfolding steps begin
both_ran = refl

steps-closes_example : Connections finished after_both
steps-closes_example = steps-closes ends_then_closes after_both both_ran

abbrev request : Request
request = record { line = codes "GET /"; upgrade = [] }

abbrev response : Response
response = record { status = 200; text = codes "ok" }

abbrev no_switch : Switching
no_switch = record { enabled = false; websocket = not_created; discarded = true }

-- strconv.Atoi, of one digit.
abbrev digit_of : List ℕ → Option ℤ
digit_of (c ∷ []) = some (pos (c - 48))
digit_of _ = none

abbrev agreed : Settings
agreed = record {
  client_no_context = true;
  server_no_context = false;
  client_bits = pos 9;
  server_bits = pos 15;
}

agreed_run :
    new_websocket digit_of
      (codes "permessage-deflate; client_max_window_bits=9; client_no_context_takeover")
    ≡ some agreed
unfolding new_websocket split trim_space trim_left trim_right equal
agreed_run = refl
