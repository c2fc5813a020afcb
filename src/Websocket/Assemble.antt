-- ===== src/Websocket/Assemble.antt =====
-- What the read loop of cmd/run/socket/proxy.go makes of a fragmented message.
use subtrace_docker_wireshar.Base.{
  ℕ, ◌≡◌, refl, sym, ap, ◌∙◌, arith, true, false, List, [], ◌∷◌, ◌++◌, ◌⊎◌,
}
use mathlib.Core.List.{append_assoc}
use subtrace_docker_wireshar.Websocket.Frame.{Frame, op_continuation, is_data_op}
use subtrace_docker_wireshar.Websocket.Sliding.{Inflated}
use subtrace_docker_wireshar.Websocket.Message.{
  Assembly, Round, next, closed, failed, finish, read_round, read_loop,
}

-- How a sender may cut a message's bytes: a first data frame, then continuation frames, the last
-- frame with `fin`, and pings and pongs anywhere between them.
pub data IsTail : List Frame → List ℕ → Type 0 where
  control :
      (f : Frame) {fs : List Frame} {bytes : List ℕ}
      → (f.op ≡ 9) ⊎ (f.op ≡ 10)
      → f.fin ≡ true
      → IsTail fs bytes
      → IsTail (f ∷ fs) bytes
  more :
      (f : Frame) {fs : List Frame} {bytes whole : List ℕ}
      → f.op ≡ op_continuation
      → f.fin ≡ false
      → whole ≡ f.payload ++ bytes
      → IsTail fs bytes
      → IsTail (f ∷ fs) whole
  last :
      (f : Frame) {whole : List ℕ}
      → f.op ≡ op_continuation
      → f.fin ≡ true
      → whole ≡ f.payload
      → IsTail (f ∷ []) whole

module _ (inflate : List ℕ → List ℕ → Inflated) where
  -- The loop goes on after a round.
  abbrev read_after : List Frame → Round → Round
  read_after rest (next s) = read_loop inflate rest s
  read_after rest (closed s) = closed s
  read_after rest (failed e ms) = failed e ms

  control_round :
      (f : Frame) (s : Assembly)
      → (f.op ≡ 9) ⊎ (f.op ≡ 10)
      → f.fin ≡ true
      → read_round inflate f s ≡ next s
  unfolding read_round
  control_round f s o e = ground arith

  more_round :
      (f : Frame) (s : Assembly)
      → f.op ≡ op_continuation
      → f.fin ≡ false
      → s.first ≡ false
      → read_round inflate f s ≡ next (record s { payload = s.payload ++ f.payload })
  unfolding read_round
  more_round f s o e u = ground arith

  last_round :
      (f : Frame) (s : Assembly)
      → f.op ≡ op_continuation
      → f.fin ≡ true
      → s.first ≡ false
      → read_round inflate f s ≡ finish inflate (record s { payload = s.payload ++ f.payload })
  unfolding read_round
  last_round f s o e u = ground arith

  loop_step :
      (f : Frame) (fs : List Frame) (s : Assembly)
      → read_loop inflate (f ∷ fs) s ≡ read_after fs (read_round inflate f s)
  unfolding read_loop
  loop_step f fs s = ground arith

  tail_loop :
      {fs : List Frame} {bytes : List ℕ}
      → IsTail fs bytes
      → (rest : List Frame) (s : Assembly) → s.first ≡ false
      → read_loop inflate (fs ++ rest) s
        ≡ read_after rest (finish inflate (record s { payload = s.payload ++ bytes }))
  tail_loop (control f {fs = fs} o e t) rest s u =
      loop_step f (fs ++ rest) s
      ∙ ap (read_after (fs ++ rest)) (control_round f s o e)
      ∙ tail_loop t rest s u
  tail_loop (more f {fs = fs} {bytes = bytes} o e w t) rest s u =
      loop_step f (fs ++ rest) s
      ∙ ap (read_after (fs ++ rest)) (more_round f s o e u)
      ∙ tail_loop t rest (record s { payload = s.payload ++ f.payload }) u
      ∙ ap (λ p. read_after rest (finish inflate (record s { payload = p })))
          (append_assoc s.payload f.payload bytes ∙ ap (λ b. s.payload ++ b) (sym w))
  tail_loop (last f o e w) rest s u =
      loop_step f rest s
      ∙ ap (read_after rest) (last_round f s o e u)
      ∙ ap (λ p. read_after rest (finish inflate (record s { payload = s.payload ++ p }))) (sym w)

  opening_round :
      (f : Frame) (s : Assembly)
      → is_data_op f.op ≡ true
      → f.fin ≡ false
      → s.first ≡ true
      → read_round inflate f s
        ≡ next (record s {
          op = f.op;
          compressed = f.rsv1;
          payload = s.payload ++ f.payload;
          first = false;
        })
  unfolding read_round
  opening_round f s o e u = ground arith

  whole_round :
      (f : Frame) (s : Assembly) (bytes : List ℕ)
      → is_data_op f.op ≡ true
      → s.first ≡ true
      → read_round inflate (record f { fin = true; payload = bytes }) s
        ≡ finish inflate (record s {
          op = f.op;
          compressed = f.rsv1;
          payload = s.payload ++ bytes;
          first = false;
        })
  unfolding read_round
  whole_round f s bytes o u = ground arith

  -- Cutting a message does not matter: a data frame without `fin` and a tail of continuation
  -- frames, with pings and pongs between them, leave the loop exactly where one frame with all the
  -- bytes would, whether the message is compressed or not and whether it inflates or not.
  pub fragments-whole :
      (f : Frame) {fs : List Frame} {bytes : List ℕ}
      → IsTail fs bytes
      → (rest : List Frame) (s : Assembly) → is_data_op f.op ≡ true
      → f.fin ≡ false
      → s.first ≡ true
      → read_loop inflate (f ∷ (fs ++ rest)) s
        ≡ read_loop inflate (record f { fin = true; payload = f.payload ++ bytes } ∷ rest) s
  fragments-whole f {fs} {bytes} t rest s o e u =
      loop_step f (fs ++ rest) s
      ∙ ap (read_after (fs ++ rest)) (opening_round f s o e u)
      ∙ tail_loop t rest
          (record s {
            op = f.op;
            compressed = f.rsv1;
            payload = s.payload ++ f.payload;
            first = false;
          })
          refl
      ∙ ap
          (λ p. read_after rest (
            finish inflate
              (record s { op = f.op; compressed = f.rsv1; payload = p; first = false })))
          (append_assoc s.payload f.payload bytes)
      ∙ ap (read_after rest) (sym (whole_round f s (f.payload ++ bytes) o u))
      ∙ sym (loop_step (record f { fin = true; payload = f.payload ++ bytes }) rest s)

  added : Frame → Assembly → Assembly
  added f s = record s {
    op = f.op;
    compressed = false;
    messages = s.messages ++ record { opcode = f.op; content = f.payload } ∷ [];
  }

  message_round :
      (f : Frame) (s : Assembly)
      → is_data_op f.op ≡ true
      → f.fin ≡ true
      → f.rsv1 ≡ false
      → s.first ≡ true
      → s.payload ≡ []
      → read_round inflate f s ≡ next (added f s)
  unfolding read_round added finish
  message_round f s o e c u p = ground arith

  -- A frame of a whole uncompressed message, on a loop between messages, adds the message with the
  -- frame's opcode and bytes, and the loop is between messages again.
  pub whole_message :
      (f : Frame) (rest : List Frame) (s : Assembly)
      → is_data_op f.op ≡ true
      → f.fin ≡ true
      → f.rsv1 ≡ false
      → s.first ≡ true
      → s.payload ≡ []
      → read_loop inflate (f ∷ rest) s
        ≡ read_loop inflate rest (record s {
          op = f.op;
          compressed = false;
          messages = s.messages ++ record { opcode = f.op; content = f.payload } ∷ [];
        })
  unfolding added
  whole_message f rest s o e c u p =
      loop_step f rest s ∙ ap (read_after rest) (message_round f s o e c u p)
