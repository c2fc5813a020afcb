-- ===== src/Websocket/Message.antt =====
-- The read loop of one direction of the websocket proxy in cmd/run/socket/proxy.go, on the frames
-- that it reads. The time stamps of the messages are left out. `decompress` runs the inflater of
-- Websocket/Sliding.antt.
use subtrace_docker_wireshar.Base.{
  ℕ, Bool, true, not, List, [], ◌∷◌, ◌++◌, Option, some, none, if◌then◌else◌, ◌==◌,
}
use subtrace_docker_wireshar.Websocket.Frame.{
  Frame, op_continuation, op_close, is_data_op, is_control_op,
}
use subtrace_docker_wireshar.Websocket.Sliding.{Direction, Inflated, decompress}

-- addMessage: the opcode and the bytes of the message; text is kept as it is, and all else in
-- base64, which is left to the reader of the list.
pub record Message : Type 0 where
  pub opcode : ℕ
  pub content : List ℕ

-- The variables of the loop. `first` says that no message is under way.
pub record Assembly : Type 0 where
  pub payload : List ℕ
  pub op : ℕ
  pub compressed : Bool
  pub first : Bool
  pub direction : Direction
  pub messages : List Message

pub data Fault : Type 0 where
  stray_continuation unfinished_message fragmented_control bad_stream unknown_opcode : Fault

-- One round: go on, stop at a close frame, or stop with an error.
pub data Round : Type 0 where
  next : Assembly → Round
  closed : Assembly → Round
  failed : Fault → List Message → Round

module _ (inflate : List ℕ → List ℕ → Inflated) where
  unfoldable pub finish_with : Option (List ℕ × Direction) → Assembly → Round
  finish_with none s = failed bad_stream s.messages
  finish_with (some (content, d)) s = next (record s {
    payload = [];
    first = true;
    direction = d;
    messages = s.messages ++ record { opcode = s.op; content = content } ∷ [];
  })

  -- The end of a message: inflate it if its first frame said so, and add it.
  unfoldable pub finish : Assembly → Round
  unfolding finish_with
  finish s =
      finish_with
        (if s.compressed
          then decompress inflate s.direction s.payload
          else some (s.payload, s.direction))
        s

  on_continuation : Frame → Assembly → Round
  unfolding finish
  on_continuation f s =
      let t = record s { payload = s.payload ++ f.payload } in
      if s.first then failed stray_continuation s.messages else if f.fin then finish t else next t

  on_data : Frame → Assembly → Round
  unfolding finish
  on_data f s =
      let t = record s {
        op = f.op;
        compressed = f.rsv1;
        payload = s.payload ++ f.payload;
        first = f.fin;
      } in
      if not s.first
      then failed unfinished_message s.messages
      else if f.fin
      then finish t
      else next t

  on_control : Frame → Assembly → Round
  on_control f s =
      if not f.fin
      then failed fragmented_control s.messages
      else if f.op == op_close
      then closed s
      else next s

  unfoldable pub read_round : Frame → Assembly → Round
  unfolding on_continuation on_data on_control
  read_round f s =
      if f.op == op_continuation
      then on_continuation f s
      else if is_data_op f.op
      then on_data f s
      else if is_control_op f.op
      then on_control f s
      else failed unknown_opcode s.messages

  unfoldable pub read_loop : List Frame → Assembly → Round
  read_loop [] s = next s
  read_loop (f ∷ fs) s = elim (read_round f s) [
    | next t ↦ read_loop fs t
    | closed t ↦ closed t
    | failed e ms ↦ failed e ms
  ]
