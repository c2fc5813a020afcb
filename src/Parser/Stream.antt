-- ===== src/Parser/Stream.antt =====
-- jsonify of tracer/parser.go on the body of a gRPC call: messages, each behind a flag and its length.
use mathlib.Core.List.{append_assoc, append-nil}
use subtrace_docker_wireshar.Base.{
  ℕ, zero, suc, ◌+◌, ◌*◌, ◌/◌, ◌%◌, ◌<◌, ◌≡◌, refl, ap, ◌∙◌, arith, true, List, [], ◌∷◌, ◌++◌, map,
  Option, length, length-append, take-append, drop-append, le→not-ltb, All,
}
use subtrace_docker_wireshar.Base.Text.{codes, equal, says_yes}
use subtrace_docker_wireshar.Parser.Encoding.{raw_base64}
use subtrace_docker_wireshar.Parser.Proto.{Bytes, Wire, end, IsWire}
use subtrace_docker_wireshar.Parser.Grpc.{
  Entry, compressed, fields, Cut, cut, message_of, round, cut_loop, marshalled, jsonify,
}
use subtrace_docker_wireshar.Parser.Messages.{Writer, IsWriter, Items, encode, meant, IsMessage}
use subtrace_docker_wireshar.Parser.Roundtrip.{decode_raw_proto-meant}
use subtrace_docker_wireshar.Parser.Paths.{at, meaning, at-meant}

-- A message of a stream: with the flag of a compressed one and its bytes, or plain.
pub data Call : Type 0 where
  packed : ℕ → Bytes → Call
  plain : Items → Call

abbrev pub flag : Call → ℕ
flag (packed n bs) = suc n
flag (plain m) = 0

abbrev pub payload : Writer → Call → Bytes
payload p (packed n bs) = bs
payload p (plain m) = encode p m

-- The objects of a list of messages.
abbrev pub Describes : List Call → List Entry → Type 0
Describes [] [] = Unit
Describes (packed n bs ∷ cs) (compressed t ∷ es) = (t ≡ raw_base64 bs) × Describes cs es
Describes (plain m ∷ cs) (fields fs ∷ es) =
    ((path : List ℕ) → at path fs ≡ meaning path m) × Describes cs es
Describes _ _ = ⊥

abbrev entry : Call → Entry
entry (packed n bs) = compressed (raw_base64 bs)
entry (plain m) = fields (meant end m)

-- A length of 32 bits, its high byte first.
abbrev pub big_endian : ℕ → Bytes
big_endian n = (n / 16777216) ∷ (n / 65536 % 256) ∷ (n / 256 % 256) ∷ (n % 256) ∷ []

abbrev pub stream : Writer → List Call → Bytes
stream p [] = []
stream p (c ∷ cs) =
    let body = payload p c in flag c ∷ (big_endian (length body) ++ (body ++ stream p cs))

-- The length fits, and a plain message nests at most 99 levels.
abbrev pub IsCall : Wire → Writer → Call → Type 0
IsCall w p (packed n bs) = length bs < 4294967296
IsCall w p (plain m) = (length (encode p m) < 4294967296) × IsMessage w 99 m

IsCall-length :
    (w : Wire) (p : Writer) (c : Call) → IsCall w p c → length (payload p c) < 4294967296
IsCall-length w p (packed n bs) h = h
IsCall-length w p (plain m) h = h.0

big_endian-value :
    (n : ℕ)
    → n < 4294967296
    → ((n / 16777216 * 256 + n / 65536 % 256) * 256 + n / 256 % 256) * 256 + n % 256 ≡ n
big_endian-value n h = omega arith

module _ (w : Wire) (laws : IsWire w) (p : Writer) (back : IsWriter w p) where
  message_of-entry :
      (c : Call) (add : Entry → Cut)
      → IsCall w p c
      → message_of w (flag c) (payload p c) add ≡ add (entry c)
  unfolding message_of
  message_of-entry (packed n bs) add h = ground arith
  message_of-entry (plain m) add h =
      rw
        (decode_raw_proto-meant w laws p back (suc (length (encode p m))) 1 99 m (omega arith)
          (omega arith) h.1)
        refl

  -- A round takes one message off the stream.
  round-call :
      (go_on : List Entry → Bytes → Cut) (arr : List Entry) (c : Call) (cs : List Call)
      → IsCall w p c
      → round w go_on arr (stream p (c ∷ cs)) ≡ go_on (arr ++ entry c ∷ []) (stream p cs)
  unfolding round
  round-call go_on arr c cs h =
      let body = payload p c in
      let size = big_endian-value (length body) (IsCall-length w p c h) in
      let room = length-append body (stream p cs) in
      rw
        (
          size,
          le→not-ltb (length (stream p (c ∷ cs))) (length body) (omega (arith, room)),
          le→not-ltb (length (body ++ stream p cs)) (length body) (omega (arith, room)),
          take-append body (stream p cs),
          drop-append body (stream p cs),
        )
        (message_of-entry c (λ x. go_on (arr ++ x ∷ []) (stream p cs)) h)

  cut_loop-stream :
      (fuel : ℕ) (arr : List Entry) (cs : List Call)
      → length (stream p cs) < fuel
      → All (IsCall w p) cs
      → cut_loop w fuel arr (stream p cs) ≡ cut (arr ++ map entry cs)
  unfolding cut_loop
  cut_loop-stream zero arr cs l h = absurd (omega arith)
  cut_loop-stream (suc fuel) arr [] l h = rw (append-nil arr) refl
  cut_loop-stream (suc fuel) arr (c ∷ cs) l h =
      round-call (λ arr' rest. cut_loop w fuel arr' rest) arr c cs h.0
      ∙ cut_loop-stream fuel (arr ++ entry c ∷ []) cs
          (omega (arith, length-append (payload p c) (stream p cs))) h.1
      ∙ ap cut (append_assoc arr (entry c ∷ []) (map entry cs))

  entries-Describes : (cs : List Call) → Describes cs (map entry cs)
  entries-Describes [] = tt
  entries-Describes (packed n bs ∷ cs) = (refl, entries-Describes cs)
  entries-Describes (plain m ∷ cs) = (λ path. at-meant path m, entries-Describes cs)

  -- With gRPC switched on, a body of gRPC messages whose lengths fit becomes the list of one object for
  -- each message, in order: its bytes in base64 where it is compressed, and else one that has at every path
  -- of field numbers what the message has there. Where protowire reads back what it writes, and for plain
  -- messages of numbers, of bytes that do not start with a tag, and of messages that are not empty, of at
  -- most 99 levels.
  pub jsonify-stream :
      (marshal : List Entry → Option Bytes) (setting : Bytes) (cs : List Call)
      → says_yes setting ≡ true
      → All (IsCall w p) cs
      → (es : List Entry) × (jsonify w marshal setting (codes "application/grpc") (stream p cs)
          ≡ marshalled (marshal es))
        × Describes cs es
  unfolding jsonify equal
  jsonify-stream marshal setting cs on h = (
    map entry cs,
    rw (on, cut_loop-stream (suc (length (stream p cs))) [] cs (omega arith) h) refl,
    entries-Describes cs,
  )
