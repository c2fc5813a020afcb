-- ===== src/Proxy/Http2.antt =====
-- cmd/run/socket/proxy.go: proxyHTTP2, which copies the frames of both directions and records each stream. A
-- frame is what http2.Framer reads, a block of headers with what the HPACK decoder makes of it. Whether a
-- frame can be written is an argument.
use subtrace_docker_wireshar.Base.{
  ℕ, zero, suc, ◌+◌, ◌-◌, ◌*◌, Bool, true, false, ◌&&◌, List, [], ◌∷◌, ◌++◌, Option, none, some,
  leb, ◌==◌, if◌then◌else◌,
}
use subtrace_docker_wireshar.Base.Text.{codes, equal}

abbrev pub Bytes : Type 0
Bytes = List ℕ

abbrev pub Field : Type 0
Field = Bytes × Bytes

pub record Priority : Type 0 where
  pub stream_dep : ℕ
  pub exclusive : Bool
  pub weight : ℕ

-- A HEADERS frame; `fields` is none where the block does not decode. `padding` is the number of bytes of
-- padding, here and below, which the framer takes off.
pub record Block : Type 0 where
  pub stream : ℕ
  pub fragment : Bytes
  pub fields : Option (List Field)
  pub headers_ended : Bool
  pub stream_ended : Bool
  pub priority : Priority
  pub padding : ℕ

-- A DATA frame, and a PUSH_PROMISE frame.
pub record Data : Type 0 where
  pub stream : ℕ
  pub stream_ended : Bool
  pub bytes : Bytes
  pub padding : ℕ

pub record Promise : Type 0 where
  pub stream : ℕ
  pub promise_id : ℕ
  pub fragment : Bytes
  pub headers_ended : Bool
  pub padding : ℕ

-- `unknown` is any frame that the switch does not name, CONTINUATION among them.
pub data Frame : Type 0 where
  headers : Block → Frame
  body : Data → Frame
  settings_ack : Frame
  settings : List (ℕ × ℕ) → Frame
  ping : Bool → Bytes → Frame
  window_update rst_stream : ℕ → ℕ → Frame
  priority : ℕ → Priority → Frame
  go_away : ℕ → ℕ → Bytes → Frame
  push_promise : Promise → Frame
  unknown : Bytes → Frame

-- http2.HeadersFrameParam and http2.PushPromiseParam.
pub record HeadersParam : Type 0 where
  pub stream_id : ℕ
  pub block_fragment : Bytes
  pub end_stream : Bool
  pub end_headers : Bool
  pub pad_length : ℕ
  pub priority : Priority

pub record PromiseParam : Type 0 where
  pub stream_id : ℕ
  pub promise_id : ℕ
  pub block_fragment : Bytes
  pub end_headers : Bool
  pub pad_length : ℕ

-- A call of the other side's framer that writes a frame.
pub data Write : Type 0 where
  write_headers : HeadersParam → Write
  write_data : ℕ → Bool → Bytes → Write
  write_settings_ack : Write
  write_settings : List (ℕ × ℕ) → Write
  write_ping : Bool → Bytes → Write
  write_window_update write_rst_stream : ℕ → ℕ → Write
  write_go_away : ℕ → ℕ → Bytes → Write
  write_priority : ℕ → Priority → Write
  write_push_promise : PromiseParam → Write

-- One direction of a stream; `used` is whether UseRequest or UseResponse was called, `trailer_set` whether
-- the parser has the trailer, `ended` whether the pipe was closed.
pub record Half : Type 0 where
  pub header : List Field
  pub trailer : List Field
  pub headers_ended : Bool
  pub used : Bool
  pub trailer_set : Bool
  pub bytes : Bytes
  pub ended : Bool

-- `active` counts the directions that have not ended.
pub record Stream : Type 0 where
  pub method : Bytes
  pub path : Bytes
  pub status : ℕ
  pub request : Half
  pub response : Half
  pub active : ℕ

abbrev pub new_half : Half
new_half = record {
  header = [];
  trailer = [];
  headers_ended = false;
  used = false;
  trailer_set = false;
  bytes = [];
  ended = false;
}

unfoldable pub new_stream : Stream
new_stream = record {
  method = [];
  path = [];
  status = 0;
  request = new_half;
  response = new_half;
  active = 2;
}

abbrev pub half : Bool → Stream → Half
half true s = s.request
half false s = s.response

abbrev pub with_half : Bool → Half → Stream → Stream
with_half true h s = record s { request = h }
with_half false h s = record s { response = h }

-- The digits at the front of :status.
unfoldable pub status_code : ℕ → Bytes → ℕ
status_code code [] = code
status_code code (c ∷ cs) =
    let later = status_code (code * 10 + (c - 48)) cs in
    if leb 48 c && leb c 57 then later else code

abbrev pub add_field : Bool → Field → Half → Half
add_field is_trailer f h =
    if is_trailer
    then record h { trailer = h.trailer ++ f ∷ [] }
    else record h { header = h.header ++ f ∷ [] }

-- The switch on the name of a header.
unfoldable pub on_field : Bool → Bool → Field → Stream → Stream
unfolding equal status_code
on_field is_client is_trailer (name, value) s =
    if equal name (codes ":method")
    then record s { method = value }
    else if equal name (codes ":path")
    then record s { path = value }
    else if equal name (codes ":scheme")
    then s
    else if equal name (codes ":authority")
    then s
    else if equal name (codes ":status")
    then record s { status = status_code 0 value }
    else with_half is_client (add_field is_trailer (name, value) (half is_client s)) s

unfoldable pub on_fields : Bool → Bool → List Field → Stream → Stream
unfolding on_field
on_fields is_client is_trailer [] s = s
on_fields is_client is_trailer (f ∷ fs) s =
    on_fields is_client is_trailer fs (on_field is_client is_trailer f s)

-- The two tests of HeadersEnded: the header goes to the parser, or the trailer.
abbrev pub headers_done : Bool → Half → Half
headers_done is_trailer h =
    if is_trailer
    then record h { trailer_set = true }
    else record h { headers_ended = true; used = true }

-- The end of a direction closes its pipe; Done of a counter at zero panics.
unfoldable pub end_half : Bool → Stream → Option Stream
end_half is_client s = elim s.active [
  | zero ↦ none
  | suc n ↦
      some
        (record (with_half is_client (record (half is_client s) { ended = true }) s) { active = n })
]

abbrev pub if_ended : Bool → Bool → Stream → Option Stream
if_ended stream_ended is_client s = if stream_ended then end_half is_client s else some s

-- A block whose fields decode.
unfoldable pub on_block : Bool → Block → List Field → Stream → Option Stream
unfolding on_fields end_half
on_block is_client b fs s =
    let is_trailer = (half is_client s).headers_ended in
    let t = on_fields is_client is_trailer fs s in
    let u =
      if b.headers_ended
      then with_half is_client (headers_done is_trailer (half is_client t)) t
      else t in
    if_ended b.stream_ended is_client u

-- What a frame does to its stream: an error, a wait that nothing ends, a panic, or the stream after it.
pub data Recorded : Type 0 where
  recorded : Stream → Recorded
  errs blocks panics : Recorded

abbrev pub or_panic : Option Stream → Recorded
or_panic none = panics
or_panic (some s) = recorded s

-- A write into the pipe waits until the parser reads, and fails after the end of the direction.
unfoldable pub on_body : Bool → Bool → Bytes → Stream → Recorded
unfolding end_half
on_body is_client stream_ended bytes s =
    let h = half is_client s in
    if h.ended
    then errs
    else if h.used
    then or_panic (
        if_ended stream_ended is_client
          (with_half is_client (record h { bytes = h.bytes ++ bytes }) s))
    else blocks

abbrev pub on_decoded : Bool → Block → Option (List Field) → Stream → Recorded
on_decoded is_client b none s = errs
on_decoded is_client b (some fs) s = or_panic (on_block is_client b fs s)

-- The streams that are known, the calls that wrote to either side, and the streams that Finish was
-- called for.
pub record Conn : Type 0 where
  pub streams : List (ℕ × Stream)
  pub to_server : List Write
  pub to_client : List Write
  pub finished : List (ℕ × Stream)

unfoldable pub find_stream : ℕ → List (ℕ × Stream) → Option Stream
find_stream id [] = none
find_stream id ((k, s) ∷ rest) = if k == id then some s else find_stream id rest

unfoldable pub put_stream : ℕ → Stream → List (ℕ × Stream) → List (ℕ × Stream)
put_stream id s [] = (id, s) ∷ []
put_stream id s ((k, t) ∷ rest) =
    let later = put_stream id s rest in if k == id then (id, s) ∷ rest else (k, t) ∷ later

unfoldable pub delete_stream : ℕ → List (ℕ × Stream) → List (ℕ × Stream)
delete_stream id [] = []
delete_stream id ((k, t) ∷ rest) =
    let later = delete_stream id rest in if k == id then rest else (k, t) ∷ later

-- getStream, without the goroutine that it starts.
unfoldable pub get_stream : ℕ → Conn → Stream
unfolding find_stream new_stream
get_stream id c = elim (find_stream id c.streams) [ none ↦ new_stream | some s ↦ s ]

abbrev pub write_to : Bool → Write → Conn → Conn
write_to true w c = record c { to_server = c.to_server ++ w ∷ [] }
write_to false w c = record c { to_client = c.to_client ++ w ∷ [] }

-- A round of copySingle: it goes on, or it ends with an error, waits or panics.
pub data Copied : Type 0 where
  copied : Conn → Copied
  ends waits crashes : Copied

abbrev pub keep : ℕ → Recorded → (Conn → Copied) → Conn → Copied
keep id (recorded s) go_on c = go_on (record c { streams = put_stream id s c.streams })
keep id errs go_on c = ends
keep id blocks go_on c = waits
keep id panics go_on c = crashes

abbrev pub forward : Bool → Bool → Write → Conn → Copied
forward is_client writable w c = if writable then copied (write_to is_client w c) else ends

-- The params of HEADERS and PUSH_PROMISE, and the loop over the settings.
abbrev pub headers_param : Block → HeadersParam
headers_param b = record {
  stream_id = b.stream;
  block_fragment = b.fragment;
  end_stream = b.stream_ended;
  end_headers = b.headers_ended;
  pad_length = 0;
  priority = b.priority;
}

abbrev pub promise_param : Promise → PromiseParam
promise_param p = record {
  stream_id = p.stream;
  promise_id = p.promise_id;
  block_fragment = p.fragment;
  end_headers = p.headers_ended;
  pad_length = 0;
}

unfoldable pub gathered : List (ℕ × ℕ) → List (ℕ × ℕ) → List (ℕ × ℕ)
gathered arr [] = arr
gathered arr (s ∷ rest) = gathered (arr ++ s ∷ []) rest

-- The switch on the type of the frame. A block is written after its stream is changed, DATA before.
unfoldable pub copy_frame : Bool → Bool → Frame → Conn → Copied
unfolding on_block on_body get_stream put_stream gathered
copy_frame is_client writable (headers b) c =
    keep b.stream (on_decoded is_client b b.fields (get_stream b.stream c))
      (λ c'. forward is_client writable (write_headers (headers_param b)) c') c
copy_frame is_client writable (body d) c =
    if writable
    then keep d.stream (on_body is_client d.stream_ended d.bytes (get_stream d.stream c))
        (λ c'. copied c') (write_to is_client (write_data d.stream d.stream_ended d.bytes) c)
    else ends
copy_frame is_client writable settings_ack c = forward is_client writable write_settings_ack c
copy_frame is_client writable (settings l) c =
    forward is_client writable (write_settings (gathered [] l)) c
copy_frame is_client writable (ping ack data_bytes) c =
    forward is_client writable (write_ping ack data_bytes) c
copy_frame is_client writable (window_update id n) c =
    forward is_client writable (write_window_update id n) c
copy_frame is_client writable (rst_stream id code) c =
    forward is_client writable (write_rst_stream id code) c
copy_frame is_client writable (go_away id code debug) c =
    forward is_client writable (write_go_away id code debug) c
copy_frame is_client writable (priority id p) c = forward is_client writable (write_priority id p) c
copy_frame is_client writable (push_promise p) c =
    forward is_client writable (write_push_promise (promise_param p)) c
copy_frame is_client writable (unknown bytes) c = copied c

-- A stream whose directions have ended is handed to Finish, and then deleted by the goroutine of
-- getStream.
unfoldable pub reap : ℕ → Conn → Conn
unfolding find_stream delete_stream
reap id c = elim (find_stream id c.streams) [
  | none ↦ c
  | some s ↦
      if s.active == 0
      then record c { streams = delete_stream id c.streams; finished = c.finished ++ (id, s) ∷ [] }
      else c
]

-- One direction reads a frame, or a goroutine of a stream wakes.
pub data Step : Type 0 where
  reads : Bool → Frame → Step
  wakes : ℕ → Step

abbrev pub after_copy : (Conn → Copied) → Copied → Copied
after_copy go_on (copied c) = go_on c
after_copy go_on ends = ends
after_copy go_on waits = waits
after_copy go_on crashes = crashes

unfoldable pub run : List Step → Conn → Copied
unfolding copy_frame reap
run [] c = copied c
run (wakes id ∷ rest) c = run rest (reap id c)
run (reads is_client f ∷ rest) c = after_copy (λ c'. run rest c') (copy_frame is_client true f c)
