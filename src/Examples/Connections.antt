-- ===== src/Examples/Connections.antt =====
-- The proxy of a connection, cmd/run/socket/proxy.go.
use subtrace_docker_wireshar.Base.{◌≡◌, ◌≤◌, ◌<◌, refl, true, false, some, List, [], ◌∷◌, length}
use subtrace_docker_wireshar.Proxy.Guess.{http2}
use subtrace_docker_wireshar.Proxy.Race.{
  Event, server_peeks, client_peeks, server_swaps, client_swaps, Race, Side, over, start, step,
  steps, handler_of, proxy_http2, one_handler,
}

abbrev client_wins : List Event
client_wins = client_peeks true ∷ server_peeks true ∷ client_swaps false http2 ∷ server_swaps ∷ []

abbrev settled : Race
settled = record {
  race = true;
  server = over;
  client = over;
  failures = 0;
  started = proxy_http2 ∷ [];
}

race_run : steps client_wins start ≡ some settled
unfolding steps step start handler_of
race_run = refl

one_handler_example :
    (length settled.started ≤ 1)
    × (◌≡◌ {A = Side} over over
        → ◌≡◌ {A = Side} over over
        → settled.failures < 2
        → length settled.started ≡ 1)
one_handler_example = one_handler client_wins settled race_run
