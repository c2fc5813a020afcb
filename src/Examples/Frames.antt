-- ===== src/Examples/Frames.antt =====
-- Websocket frames and messages of cmd/run/socket/proxy.go.
use subtrace_docker_wireshar.Base.{
  ℕ, ◌+◌, ◌≡◌, ◌^◌, refl, arith, true, false, List, [], ◌∷◌, ◌++◌, length, inl,
}
use subtrace_docker_wireshar.Websocket.Frame.{Frame, read_frame, got}
use subtrace_docker_wireshar.Websocket.Sliding.{
  Inflated, all, slides, last_of, joined, window_is_history,
}
use subtrace_docker_wireshar.Websocket.Message.{Assembly, read_loop}
use subtrace_docker_wireshar.Websocket.Assemble.{IsTail, control, more, last, fragments-whole}
use subtrace_docker_wireshar.Websocket.Roundtrip.{IsSendable, encode, read_frame-encode}

abbrev mask : List ℕ
mask = 55 ∷ 250 ∷ 33 ∷ 61 ∷ []

abbrev hello : List ℕ
hello = 72 ∷ 101 ∷ 108 ∷ 108 ∷ 111 ∷ []

abbrev greeting : Frame
greeting = record { rsv1 = false; fin = true; op = 1; payload = hello }

greeting-IsSendable : IsSendable mask greeting
greeting-IsSendable = record {
  four = refl;
  mask_bytes = (omega arith, (omega arith, (omega arith, (omega arith, tt))));
  bytes = (omega arith, (omega arith, (omega arith, (omega arith, (omega arith, tt)))));
  size = omega arith;
  known = refl;
  rsv = λ h. refl;
}

read_frame-encode_example :
    read_frame true (record {
      budget = length (encode true mask greeting) + 9;
      bytes = encode true mask greeting ++ 137 ∷ 0 ∷ [];
    })
    ≡ got greeting (record { budget = 9; bytes = 137 ∷ 0 ∷ [] })
read_frame-encode_example =
    read_frame-encode true true mask greeting (137 ∷ 0 ∷ []) 9 greeting-IsSendable refl

-- An inflater that gives its input back.
abbrev plain : List ℕ → List ℕ → Inflated
plain dictionary stream = all stream

abbrev start_assembly : Assembly
start_assembly = record {
  payload = [];
  op = 0;
  compressed = false;
  first = true;
  direction = record { no_context = true; bits = 15; window = [] };
  messages = [];
}

abbrev first_part : Frame
first_part = record { rsv1 = false; fin = false; op = 1; payload = 72 ∷ [] }

abbrev ping : Frame
ping = record { rsv1 = false; fin = true; op = 9; payload = [] }

abbrev middle_part : Frame
middle_part = record { rsv1 = false; fin = false; op = 0; payload = 101 ∷ [] }

abbrev last_part : Frame
last_part = record { rsv1 = false; fin = true; op = 0; payload = 108 ∷ 108 ∷ 111 ∷ [] }

cut_greeting : IsTail (middle_part ∷ ping ∷ last_part ∷ []) (101 ∷ 108 ∷ 108 ∷ 111 ∷ [])
cut_greeting =
    more middle_part refl refl refl (control ping (inl refl) refl (last last_part refl refl refl))

fragments-whole_example :
    read_loop plain (first_part ∷ (middle_part ∷ ping ∷ last_part ∷ []) ++ []) start_assembly
    ≡ read_loop plain (greeting ∷ []) start_assembly
fragments-whole_example =
    fragments-whole plain first_part cut_greeting [] start_assembly refl refl refl

window_is_history_example :
    slides 2 [] ((1 ∷ 2 ∷ 3 ∷ []) ∷ (4 ∷ 5 ∷ []) ∷ [])
    ≡ last_of (2 ^ 2) (joined ((1 ∷ 2 ∷ 3 ∷ []) ∷ (4 ∷ 5 ∷ []) ∷ []))
window_is_history_example = window_is_history 2 ((1 ∷ 2 ∷ 3 ∷ []) ∷ (4 ∷ 5 ∷ []) ∷ [])
