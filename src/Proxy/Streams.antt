-- ===== src/Proxy/Streams.antt =====
-- The streams of proxyHTTP2 in cmd/run/socket/proxy.go: what is forwarded, and when a stream is finished.
use mathlib.Core.List.{append_assoc, append-nil}
use subtrace_docker_wireshar.Base.{
  ℕ, ◌≡◌, refl, sym, ap, ◌∙◌, Bool, true, false, Bool-cases, inl, inr, List, [], ◌∷◌, ◌++◌,
  Option-cases, ◌==◌, if◌then◌else◌,
}
use subtrace_docker_wireshar.Proxy.Http2.{
  Block, Data, Frame, Write, write_headers, write_data, write_settings_ack, write_settings,
  write_ping, write_window_update, write_rst_stream, write_go_away, write_priority,
  write_push_promise, headers_param, gathered, headers, body, settings_ack, settings, ping,
  window_update, rst_stream, priority, go_away, push_promise, unknown, Recorded, recorded, errs,
  blocks, panics, on_body, on_decoded, Conn, find_stream, get_stream, write_to, Copied, copied,
  ends, waits, crashes, keep, forward, copy_frame, reap, Step, reads, wakes, after_copy, run,
}

-- A frame of a type that the switch names.
abbrev pub named : Frame → List Frame
named (unknown bytes) = []
named f = f ∷ []

-- The named frames that one direction reads, in order.
unfoldable pub named_frames : Bool → List Step → List Frame
named_frames dir [] = []
named_frames dir (wakes id ∷ rest) = named_frames dir rest
named_frames true (reads true f ∷ rest) = named f ++ named_frames true rest
named_frames true (reads false f ∷ rest) = named_frames true rest
named_frames false (reads true f ∷ rest) = named_frames false rest
named_frames false (reads false f ∷ rest) = named f ++ named_frames false rest

-- What is written has all that the frame has, but for padding.
abbrev pub Has : Frame → Write → Type 0
Has (headers b) (write_headers p) =
    (p.stream_id ≡ b.stream)
    × (p.block_fragment ≡ b.fragment)
    × (p.end_stream ≡ b.stream_ended)
    × (p.end_headers ≡ b.headers_ended)
    × (p.priority ≡ b.priority)
    × (p.pad_length ≡ 0)
Has (body d) (write_data id e bs) = (id ≡ d.stream) × (e ≡ d.stream_ended) × (bs ≡ d.bytes)
Has settings_ack write_settings_ack = Unit
Has (settings l) (write_settings m) = m ≡ l
Has (ping a bs) (write_ping x ys) = (x ≡ a) × (ys ≡ bs)
Has (window_update id n) (write_window_update x m) = (x ≡ id) × (m ≡ n)
Has (rst_stream id n) (write_rst_stream x m) = (x ≡ id) × (m ≡ n)
Has (go_away id n bs) (write_go_away x m ys) = (x ≡ id) × (m ≡ n) × (ys ≡ bs)
Has (priority id p) (write_priority x q) = (x ≡ id) × (q ≡ p)
Has (push_promise p) (write_push_promise q) =
    (q.stream_id ≡ p.stream)
    × (q.promise_id ≡ p.promise_id)
    × (q.block_fragment ≡ p.fragment)
    × (q.end_headers ≡ p.headers_ended)
    × (q.pad_length ≡ 0)
Has _ _ = ⊥

abbrev pub HasAll : List Frame → List Write → Type 0
HasAll [] [] = Unit
HasAll (f ∷ fs) (w ∷ ws) = Has f w × HasAll fs ws
HasAll _ _ = ⊥

HasAll-append :
    (fs gs : List Frame) (ws us : List Write)
    → HasAll fs ws
    → HasAll gs us
    → HasAll (fs ++ gs) (ws ++ us)
HasAll-append [] gs [] us h k = k
HasAll-append [] gs (w ∷ ws) us h k = absurd h
HasAll-append (f ∷ fs) gs [] us h k = absurd h
HasAll-append (f ∷ fs) gs (w ∷ ws) us h k = (h.0, HasAll-append fs gs ws us h.1 k)

gathered_all : (arr l : List (ℕ × ℕ)) → gathered arr l ≡ arr ++ l
unfolding gathered
gathered_all arr [] = sym (append-nil arr)
gathered_all arr (x ∷ l) = gathered_all (arr ++ x ∷ []) l ∙ append_assoc arr (x ∷ []) l

-- What was written after a round.
abbrev Wrote : Bool → Frame → Conn → Copied → Type 0
Wrote dir f c (copied c') =
    (ws : List Write) × HasAll (named f) ws
    × (c'.to_server ≡ c.to_server ++ (if dir then ws else []))
    × (c'.to_client ≡ c.to_client ++ (if dir then [] else ws))
Wrote dir f c _ = Unit

write_to-Wrote :
    (dir : Bool) (f : Frame) (w : Write) (c : Conn)
    → HasAll (named f) (w ∷ [])
    → Wrote dir f c (copied (write_to dir w c))
write_to-Wrote true f w c h = (w ∷ [], h, refl, sym (append-nil c.to_client))
write_to-Wrote false f w c h = (w ∷ [], h, sym (append-nil c.to_server), refl)

keep_block :
    (dir : Bool) (b : Block) (r : Recorded) (c : Conn)
    → Wrote dir
        (headers b)
        c
        (keep b.stream r (λ c'. forward dir true (write_headers (headers_param b)) c') c)
keep_block true b (recorded s) c =
    (_, ((refl, refl, refl, refl, refl, refl), tt), refl, sym (append-nil c.to_client))
keep_block false b (recorded s) c =
    (_, ((refl, refl, refl, refl, refl, refl), tt), sym (append-nil c.to_server), refl)
keep_block dir b errs c = tt
keep_block dir b blocks c = tt
keep_block dir b panics c = tt

keep_body :
    (dir : Bool) (d : Data) (r : Recorded) (c : Conn)
    → Wrote dir (body d) c (
        keep d.stream r
          (λ c'. copied c')
          (write_to dir (write_data d.stream d.stream_ended d.bytes) c))
keep_body true d (recorded s) c = (_, ((refl, refl, refl), tt), refl, sym (append-nil c.to_client))
keep_body false d (recorded s) c = (_, ((refl, refl, refl), tt), sym (append-nil c.to_server), refl)
keep_body dir d errs c = tt
keep_body dir d blocks c = tt
keep_body dir d panics c = tt

copy_frame-Wrote : (dir : Bool) (f : Frame) (c : Conn) → Wrote dir f c (copy_frame dir true f c)
unfolding copy_frame
copy_frame-Wrote dir (headers b) c =
    keep_block dir b (on_decoded dir b b.fields (get_stream b.stream c)) c
copy_frame-Wrote dir (body d) c =
    keep_body dir d (on_body dir d.stream_ended d.bytes (get_stream d.stream c)) c
copy_frame-Wrote true (unknown bs) c =
    ([], tt, sym (append-nil c.to_server), sym (append-nil c.to_client))
copy_frame-Wrote false (unknown bs) c =
    ([], tt, sym (append-nil c.to_server), sym (append-nil c.to_client))
copy_frame-Wrote dir settings_ack c = write_to-Wrote dir settings_ack _ c (tt, tt)
copy_frame-Wrote dir (settings l) c = write_to-Wrote dir (settings l) _ c (gathered_all [] l, tt)
copy_frame-Wrote dir (ping a bs) c = write_to-Wrote dir (ping a bs) _ c ((refl, refl), tt)
copy_frame-Wrote dir (window_update i n) c =
    write_to-Wrote dir (window_update i n) _ c ((refl, refl), tt)
copy_frame-Wrote dir (rst_stream i n) c = write_to-Wrote dir (rst_stream i n) _ c ((refl, refl), tt)
copy_frame-Wrote dir (priority i p) c = write_to-Wrote dir (priority i p) _ c ((refl, refl), tt)
copy_frame-Wrote dir (go_away i n bs) c =
    write_to-Wrote dir (go_away i n bs) _ c ((refl, refl, refl), tt)
copy_frame-Wrote dir (push_promise p) c =
    write_to-Wrote dir (push_promise p) _ c ((refl, refl, refl, refl, refl), tt)

reap_writes :
    (id : ℕ) (c : Conn)
    → ((reap id c).to_server ≡ c.to_server) × ((reap id c).to_client ≡ c.to_client)
unfolding reap
reap_writes id c = elim (Option-cases (find_stream id c.streams)) [
  | inl e ↦ rw (e, reap) (refl, refl)
  | inr (s, e) ↦ elim (Bool-cases (s.active == 0)) [
    | inl z ↦ rw (e, reap, z) (refl, refl)
    | inr z ↦ rw (e, reap, z) (refl, refl)
  ]
]

-- What was written after some steps.
abbrev pub Forwards : List Step → Conn → Copied → Type 0
Forwards steps c (copied c') =
    ((us : List Write) × HasAll (named_frames true steps) us × (c'.to_server ≡ c.to_server ++ us))
    × ((vs : List Write) × HasAll (named_frames false steps) vs
        × (c'.to_client ≡ c.to_client ++ vs))
Forwards steps c _ = Unit

-- A side gets what it was written first, and then the rest.
joined : (x z before ws us : List Write) → x ≡ before ++ ws → z ≡ x ++ us → z ≡ before ++ (ws ++ us)
joined x z before ws us e h = h ∙ ap (λ y. y ++ us) e ∙ append_assoc before ws us

moved :
    (dir : Bool) (f : Frame) (rest : List Step) (c c' : Conn) (r : Copied)
    → Wrote dir f c (copied c')
    → Forwards rest c' r
    → Forwards (reads dir f ∷ rest) c r
unfolding named_frames
moved true f rest c c' (copied c'') (ws, h, e, e') ((us, k, g), (vs, k', g')) = (
  (ws ++ us, HasAll-append (named f) _ ws us h k, joined _ _ c.to_server ws us e g),
  (vs, k', joined _ _ c.to_client [] vs e' g'),
)
moved false f rest c c' (copied c'') (ws, h, e, e') ((us, k, g), (vs, k', g')) = (
  (us, k, joined _ _ c.to_server [] us e g),
  (ws ++ vs, HasAll-append (named f) _ ws vs h k', joined _ _ c.to_client ws vs e' g'),
)
moved dir f rest c c' ends w h = tt
moved dir f rest c c' waits w h = tt
moved dir f rest c c' crashes w h = tt

after_copy-Forwards :
    (dir : Bool) (f : Frame) (rest : List Step) (c : Conn) (r : Copied)
    → Wrote dir f c r
    → ((c' : Conn) → Forwards rest c' (run rest c'))
    → Forwards (reads dir f ∷ rest) c (after_copy (λ c'. run rest c') r)
after_copy-Forwards dir f rest c (copied c') w ih = moved dir f rest c c' (run rest c') w (ih c')
after_copy-Forwards dir f rest c ends w ih = tt
after_copy-Forwards dir f rest c waits w ih = tt
after_copy-Forwards dir f rest c crashes w ih = tt

woken :
    (id : ℕ) (rest : List Step) (c : Conn) (r : Copied)
    → Forwards rest (reap id c) r
    → Forwards (wakes id ∷ rest) c r
unfolding named_frames
woken id rest c (copied c') ((us, k, g), (vs, k', g')) = (
  (us, k, g ∙ ap (λ x. x ++ us) (reap_writes id c).0),
  (vs, k', g' ∙ ap (λ x. x ++ vs) (reap_writes id c).1),
)
woken id rest c ends h = tt
woken id rest c waits h = tt
woken id rest c crashes h = tt

-- As long as both directions of an HTTP/2 connection go on, each has made one write to the other side for
-- each frame that it read, in order, but for those of a type that the switch does not name, and each write
-- has all fields of its frame but the padding.
pub run-Forwards : (steps : List Step) (c : Conn) → Forwards steps c (run steps c)
unfolding run
run-Forwards [] c =
    unfold named_frames in
    (([], tt, sym (append-nil c.to_server)), ([], tt, sym (append-nil c.to_client)))
run-Forwards (wakes id ∷ rest) c =
    woken id rest c (run rest (reap id c)) (run-Forwards rest (reap id c))
run-Forwards (reads dir f ∷ rest) c =
    after_copy-Forwards dir f rest c (copy_frame dir true f c) (copy_frame-Wrote dir f c)
      (λ c'. run-Forwards rest c')
