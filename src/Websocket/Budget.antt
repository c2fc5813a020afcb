-- ===== src/Websocket/Budget.antt =====
-- The byte budget of readFull in cmd/run/socket/proxy.go.
use subtrace_docker_wireshar.Base.{
  ℕ, ◌+◌, ◌≤◌, ◌≡◌, refl, arith, Bool, true, false, ◌&&◌, not, length, length-drop, ltb, leb, ◌==◌,
  if◌then◌else◌, ◌%◌,
}
use subtrace_docker_wireshar.Websocket.Frame.{
  Reader, Trouble, Got, got, bad, ◌>>=◌, read_full, read_length, read_mask, read_payload, read_body,
  check_header, read_frame, get_byte, header_rsv1, header_fin, unmask, bad_rsv1, is_data_op,
}

-- The reader after a call.
abbrev pub after {ℓ} : {A : Type ℓ} → Got A → Reader
after (got a r) = r
after (bad t r) = r

-- Between two readers the budget fell by the number of bytes that were taken.
pub record Spent (r r' : Reader) : Type 0 where
  pub exact : r.budget + length r'.bytes ≡ r'.budget + length r.bytes
  pub fewer : length r'.bytes ≤ length r.bytes

Spent-refl : (r : Reader) → Spent r r
Spent-refl r = record { exact = refl; fewer = omega arith }

Spent-bind {ℓ κ} :
    {A : Type ℓ} {B : Type κ} (r : Reader) (m : Got A) (f : A → Reader → Got B)
    → Spent r (after m)
    → ((a : A) (r' : Reader) → Spent r' (after (f a r')))
    → Spent r (after (m >>= f))
Spent-bind r (got a r') f h k =
    let s = k a r' in
    record { exact = omega (arith, h.exact, s.exact); fewer = omega (arith, h.fewer, s.fewer) }
Spent-bind r (bad t r') f h k = h

Spent-if {ℓ} :
    {A : Type ℓ} (r : Reader) (b : Bool) (m n : Got A)
    → Spent r (after m)
    → Spent r (after n)
    → Spent r (after (if b then m else n))
Spent-if r true m n h k = h
Spent-if r false m n h k = k

Spent-refl_if {ℓ} :
    {A : Type ℓ} (r : Reader) (b : Bool) (t : Trouble) (a : A)
    → Spent r (after (if b then bad t r else got a r))
Spent-refl_if r true t a = Spent-refl r
Spent-refl_if r false t a = Spent-refl r

pub read_full-Spent : (l : ℕ) (r : Reader) → Spent r (after (read_full l r))
unfolding read_full
read_full-Spent l r = ground (arith, length-drop l r.bytes)

read_length-Spent : (short : ℕ) (r : Reader) → Spent r (after (read_length short r))
unfolding read_length
read_length-Spent short r =
    Spent-if r (short == 126) _ _
      (Spent-bind r (read_full 2 r) _ (read_full-Spent 2 r) (λ ext r'. Spent-refl r'))
      (Spent-if r (short == 127) _ _
        (Spent-bind r (read_full 8 r) _ (read_full-Spent 8 r) (λ ext r'. Spent-refl r'))
        (Spent-refl r))

read_mask-Spent : (masked : Bool) (r : Reader) → Spent r (after (read_mask masked r))
unfolding read_mask
read_mask-Spent masked r = Spent-if r masked _ _ (read_full-Spent 4 r) (Spent-refl r)

read_payload-Spent : (size : ℕ) (r : Reader) → Spent r (after (read_payload size r))
unfolding read_payload
read_payload-Spent size r =
    Spent-if r (ltb r.budget size) _ _ (Spent-refl r) (read_full-Spent size r)

read_body-Spent : (b c : ℕ) (r : Reader) → Spent r (after (read_body b c r))
unfolding read_body
read_body-Spent b c r =
    Spent-bind r (read_length (c % 128) r) _ (read_length-Spent (c % 128) r) λ size r1.
      Spent-bind r1 (read_mask (leb 128 c) r1) _ (read_mask-Spent (leb 128 c) r1) λ mask r2.
        Spent-bind r2 (read_payload size r2) _ (read_payload-Spent size r2) λ raw r3.
          Spent-refl_if r3 (header_rsv1 b && not (is_data_op (b % 16))) bad_rsv1 (record {
            rsv1 = header_rsv1 b;
            fin = header_fin b;
            op = b % 16;
            payload = if leb 128 c then unmask mask 0 raw else raw;
          })

check_header-Spent : (c : Bool) (x y : ℕ) (r : Reader) → Spent r (after (check_header c x y r))
unfolding check_header
check_header-Spent c x y r = ground (arith, read_body-Spent x y r, Spent-refl r)

-- Reading a frame, whether it succeeds or fails at any of its checks, takes from the budget exactly
-- the bytes that it takes from the connection.
pub read_frame-Spent : (is_client : Bool) (r : Reader) → Spent r (after (read_frame is_client r))
unfolding read_frame
read_frame-Spent is_client r =
    Spent-bind r (read_full 2 r) _ (read_full-Spent 2 r)
      λ header r'. check_header-Spent is_client (get_byte header 0) (get_byte header 1) r'
