-- ===== src/Websocket/Roundtrip.antt =====
-- readFrame of cmd/run/socket/proxy.go against the frame layout of RFC 6455.
use subtrace_docker_wireshar.Base.{
  ℕ, zero, suc, ◌+◌, ◌*◌, ◌/◌, ◌%◌, ◌<◌, ◌≡◌, refl, sym, ap, ◌∙◌, arith, Bool, true, false, ◌&&◌,
  not, List, [], ◌∷◌, ◌++◌, length, length-append, take, drop, All, ltb, leb, if◌then◌else◌,
  le→not-ltb,
}
use mathlib.Core.List.{append_assoc}
use subtrace_docker_wireshar.Websocket.Frame.{
  Reader, got, read_full, read_length, read_mask, read_payload, read_body, check_header, read_frame,
  Frame, get_byte, big_endian, header_rsv1, header_rsv2, header_rsv3, header_fin, unmask,
  is_data_op, is_known_op,
}
use subtrace_docker_wireshar.Websocket.Masking.{
  IsByte, unmask-unmask, length-unmask, masked_by, unmask-masked_by,
}

take-append : (xs ys : List ℕ) (n : ℕ) → n ≡ length xs → take n (xs ++ ys) ≡ xs
take-append [] ys n h = rw h refl
take-append (x ∷ xs) ys zero h = absurd (omega arith)
take-append (x ∷ xs) ys (suc n) h = ap (λ t. x ∷ t) (take-append xs ys n (omega arith))

drop-append : (xs ys : List ℕ) (n : ℕ) → n ≡ length xs → drop n (xs ++ ys) ≡ ys
drop-append [] ys n h = rw h refl
drop-append (x ∷ xs) ys zero h = absurd (omega arith)
drop-append (x ∷ xs) ys (suc n) h = drop-append xs ys n (omega arith)

read_full-append :
    (xs ys : List ℕ) (b n k : ℕ)
    → n ≡ length xs
    → b ≡ n + k
    → read_full n (record { budget = b; bytes = xs ++ ys })
      ≡ got xs (record { budget = k; bytes = ys })
unfolding read_full
read_full-append xs ys b n k h e =
    ground (arith, length-append xs ys, take-append xs ys n h, drop-append xs ys n h)

-- RFC 6455, section 5.2: the seven length bits, and the bytes of the extended length.
unfoldable pub short_length : ℕ → ℕ
short_length size = if ltb size 126 then size else if ltb size 65536 then 126 else 127

unfoldable pub extended_length : ℕ → List ℕ
extended_length size =
    if ltb size 126
    then []
    else if ltb size 65536
    then size / 256 ∷ size % 256 ∷ []
    else size / 72057594037927936
      ∷ size / 281474976710656 % 256
      ∷ size / 1099511627776 % 256
      ∷ size / 4294967296 % 256
      ∷ size / 16777216 % 256
      ∷ size / 65536 % 256
      ∷ size / 256 % 256
      ∷ size % 256
      ∷ []

read_length-encode :
    (size b k : ℕ) (ys : List ℕ)
    → size < 18446744073709551616
    → b ≡ length (extended_length size) + k
    → read_length (short_length size) (record { budget = b; bytes = extended_length size ++ ys })
      ≡ got size (record { budget = k; bytes = ys })
unfolding read_length short_length extended_length read_full big_endian
read_length-encode size b k ys h e = ground arith

bit : Bool → ℕ
bit true = 1
bit false = 0

-- A frame as a sender writes it: header, length, the mask if there is one, and the payload, which is
-- masked by the bytes of the mask in turn.
pub encode : Bool → List ℕ → Frame → List ℕ
encode masked mask f =
    (bit f.fin * 128 + bit f.rsv1 * 64 + f.op)
    ∷ (bit masked * 128 + short_length (length f.payload))
    ∷ (extended_length (length f.payload)
        ++ ((if masked then mask else [])
            ++ (if masked then masked_by mask f.payload else f.payload)))

-- The same, as the source would mask it.
written : Bool → List ℕ → Frame → List ℕ
written masked mask f =
    (bit f.fin * 128 + bit f.rsv1 * 64 + f.op)
    ∷ (bit masked * 128 + short_length (length f.payload))
    ∷ (extended_length (length f.payload)
        ++ ((if masked then mask else [])
            ++ (if masked then unmask mask 0 f.payload else f.payload)))

read_mask-append :
    (masked : Bool) (mask ys : List ℕ) (b k : ℕ)
    → length mask ≡ 4
    → b ≡ (if masked then 4 else 0) + k
    → read_mask masked (record { budget = b; bytes = (if masked then mask else []) ++ ys })
      ≡ got (if masked then mask else 0 ∷ 0 ∷ 0 ∷ 0 ∷ []) (record { budget = k; bytes = ys })
unfolding read_mask
read_mask-append true mask ys b k h e = read_full-append mask ys b 4 k (sym h) e
read_mask-append false mask ys b k h e = ground arith

read_payload-append :
    (xs ys : List ℕ) (b k size : ℕ)
    → size ≡ length xs
    → b ≡ size + k
    → read_payload size (record { budget = b; bytes = xs ++ ys })
      ≡ got xs (record { budget = k; bytes = ys })
unfolding read_payload
read_payload-append xs ys b k size h e =
    rw (le→not-ltb b size (omega arith)) (read_full-append xs ys b size k h e)

-- A frame that a sender may write: bytes below 256, a length that fits 64 bits, an opcode that is
-- known, and rsv1 only on data frames.
pub record IsSendable (mask : List ℕ) (f : Frame) : Type 0 where
  pub four : length mask ≡ 4
  pub mask_bytes : All IsByte mask
  pub bytes : All IsByte f.payload
  pub size : length f.payload < 18446744073709551616
  pub known : is_known_op f.op ≡ true
  pub rsv : f.rsv1 ≡ true → is_data_op f.op ≡ true

-- What the sender's payload becomes on the wire, and the mask bytes there.
abbrev wire : Bool → List ℕ → List ℕ → List ℕ
wire masked mask payload = if masked then unmask mask 0 payload else payload

length-wire : (masked : Bool) (mask bytes : List ℕ) → length (wire masked mask bytes) ≡ length bytes
length-wire true mask bytes = length-unmask mask 0 bytes
length-wire false mask bytes = refl

unwire :
    (masked : Bool) (mask : List ℕ) (f : Frame)
    → IsSendable mask f
    → (if masked
        then unmask (if masked then mask else 0 ∷ 0 ∷ 0 ∷ 0 ∷ []) 0 (wire masked mask f.payload)
        else wire masked mask f.payload)
      ≡ f.payload
unwire true mask f v = unmask-unmask mask 0 f.payload v.mask_bytes v.bytes
unwire false mask f v = refl

second_byte :
    (masked : Bool) (size y : ℕ)
    → y ≡ bit masked * 128 + short_length size
    → (leb 128 y ≡ masked) × (y % 128 ≡ short_length size)
unfolding bit short_length
second_byte masked size y e = ground arith

first_byte :
    (f : Frame) (x : ℕ)
    → is_known_op f.op ≡ true
    → x ≡ bit f.fin * 128 + bit f.rsv1 * 64 + f.op
    → (header_fin x ≡ f.fin)
      × (header_rsv1 x ≡ f.rsv1)
      × (header_rsv2 x ≡ false)
      × (header_rsv3 x ≡ false)
      × (x % 16 ≡ f.op)
unfolding bit
first_byte f x known e = ground arith

key_size :
    (masked : Bool) (mask : List ℕ)
    → length mask ≡ 4
    → length (if masked then mask else []) ≡ (if masked then 4 else 0)
key_size true mask h = h
key_size false mask h = refl

read_body-encode :
    (masked : Bool) (mask : List ℕ) (f : Frame) (ys : List ℕ) (x y b k : ℕ)
    → IsSendable mask f
    → x ≡ bit f.fin * 128 + bit f.rsv1 * 64 + f.op
    → y ≡ bit masked * 128 + short_length (length f.payload)
    → b
      ≡ length (extended_length (length f.payload))
        + ((if masked then 4 else 0) + (length f.payload + k))
    → read_body x y (record {
      budget = b;
      bytes =
          extended_length (length f.payload)
          ++ ((if masked then mask else []) ++ (wire masked mask f.payload ++ ys));
    })
      ≡ got f (record { budget = k; bytes = ys })
unfolding read_body
read_body-encode masked mask f ys x y b k v ex ey eb =
    let size = length f.payload in
    let k2 = length f.payload + k in
    let k1 = (if masked then 4 else 0) + k2 in
    let raw = wire masked mask f.payload in
    let tail2 = raw ++ ys in
    let tail1 = (if masked then mask else []) ++ tail2 in
    let e1 = read_length-encode size b k1 tail1 v.size eb in
    let e2 = read_mask-append masked mask tail2 k1 k2 v.four refl in
    let e3 = read_payload-append raw ys k2 k size (sym (length-wire masked mask f.payload)) refl in
    let h = second_byte masked (length f.payload) y ey in
    let g = first_byte f x v.known ex in
    ground (arith, e1, e2, e3, h, g, v.rsv, unwire masked mask f v)

header_step :
    (is_client : Bool) (x y b : ℕ) (zs : List ℕ)
    → read_frame is_client (record { budget = suc (suc b); bytes = x ∷ y ∷ zs })
      ≡ check_header is_client x y (record { budget = b; bytes = zs })
unfolding read_frame get_byte
header_step is_client x y b zs =
    rw (read_full-append (x ∷ y ∷ []) zs (suc (suc b)) 2 b refl (omega arith))

header_checked :
    (is_client masked : Bool) (f : Frame) (x y : ℕ) (r : Reader)
    → is_known_op f.op ≡ true
    → (is_client && not masked) ≡ false
    → x ≡ bit f.fin * 128 + bit f.rsv1 * 64 + f.op
    → y ≡ bit masked * 128 + short_length (length f.payload)
    → check_header is_client x y r ≡ read_body x y r
unfolding check_header
header_checked is_client masked f x y r known c ex ey =
    ground (arith, first_byte f x known ex, second_byte masked (length f.payload) y ey)

read_frame-written :
    (is_client masked : Bool) (mask : List ℕ) (f : Frame) (ys : List ℕ) (k : ℕ)
    → IsSendable mask f
    → (is_client && not masked) ≡ false
    → read_frame is_client (record {
      budget = length (written masked mask f) + k;
      bytes = written masked mask f ++ ys;
    })
      ≡ got f (record { budget = k; bytes = ys })
unfolding written
read_frame-written is_client masked mask f ys k v c =
    let x = bit f.fin * 128 + bit f.rsv1 * 64 + f.op in
    let y = bit masked * 128 + short_length (length f.payload) in
    let ext = extended_length (length f.payload) in
    let key : List ℕ = if masked then mask else [] in
    let raw = wire masked mask f.payload in
    let body = ext ++ (key ++ raw) in
    let grouped : body ++ ys ≡ ext ++ (key ++ (raw ++ ys)) =
      append_assoc ext (key ++ raw) ys ∙ ap (λ z. ext ++ z) (append_assoc key raw ys) in
    let sizes : length body ≡ length ext + ((if masked then 4 else 0) + length f.payload) = omega (
      arith,
      length-append ext (key ++ raw),
      length-append key raw,
      key_size masked mask v.four,
      length-wire masked mask f.payload,
    ) in
    ap (λ b. read_frame is_client (record { budget = b; bytes = x ∷ y ∷ (body ++ ys) }))
      (omega arith)
    ∙ header_step is_client x y (length body + k) (body ++ ys)
    ∙ header_checked is_client masked f x y _ v.known c refl refl
    ∙ ap (λ z. read_body x y (record { budget = length body + k; bytes = z })) grouped
    ∙ read_body-encode masked mask f ys x y (length body + k) k v refl refl (omega (arith, sizes))

written-encode :
    (masked : Bool) (mask : List ℕ) (f : Frame)
    → length mask ≡ 4
    → written masked mask f ≡ encode masked mask f
unfolding written encode
written-encode false mask f h = refl
written-encode true mask f h = rw (unmask-masked_by mask f.payload h) refl

-- What readFrame reads from the bytes of a frame, masked or not, followed by anything and under a
-- budget for at least those bytes, is that frame; it takes exactly its bytes, and the client's side
-- needs the mask.
pub read_frame-encode :
    (is_client masked : Bool) (mask : List ℕ) (f : Frame) (ys : List ℕ) (k : ℕ)
    → IsSendable mask f
    → (is_client && not masked) ≡ false
    → read_frame is_client
        (record { budget = length (encode masked mask f) + k; bytes = encode masked mask f ++ ys })
      ≡ got f (record { budget = k; bytes = ys })
read_frame-encode is_client masked mask f ys k v c =
    rw⁻¹ (written-encode masked mask f v.four) (read_frame-written is_client masked mask f ys k v c)
