-- ===== src/Websocket/Masking.antt =====
-- The masking of payloads in cmd/run/socket/proxy.go: a mask, put on twice, goes away.
use Prim.Native.Nat.{bit_xor}
use subtrace_docker_wireshar.Base.{
  ℕ, zero, suc, ◌+◌, ◌%◌, ◌<◌, ◌≡◌, refl, ap, arith, Bool, true, ◌&&◌, List, [], ◌∷◌, length, All,
  ◌==◌, ==_iff,
}
use subtrace_docker_wireshar.Websocket.Frame.{get_byte, unmask}

abbrev pub IsByte : ℕ → Type 0
IsByte b = b < 256

-- Two exclusive ors with the same byte cancel, as an evaluation over all pairs of bytes shows.
cancels : ℕ → ℕ → Bool
cancels y x = bit_xor (bit_xor x y) y == x

holds_until : (ℕ → Bool) → ℕ → Bool
holds_until test zero = true
holds_until test (suc bound) = holds_until test bound && test bound

holds_until_at :
    (test : ℕ → Bool) (bound k : ℕ) → k < bound → holds_until test bound ≡ true → test k ≡ true
unfolding holds_until
holds_until_at test zero k small all_of_them = absurd (omega arith)
holds_until_at test (suc bound) k small all_of_them = ground (arith, holds_until_at test bound k)

pairs_cancel : holds_until (λ y. holds_until (cancels y) 256) 256 ≡ true
unfolding holds_until cancels
pairs_cancel = refl

xor_twice : (a b : ℕ) → a < 256 → b < 256 → bit_xor (bit_xor a b) b ≡ a
unfolding cancels
xor_twice a b ha hb =
    let row = holds_until_at (λ y. holds_until (cancels y) 256) 256 b hb pairs_cancel in
    (==_iff _ a).0 (holds_until_at (cancels b) 256 a ha row)

get_byte-IsByte : (mask : List ℕ) (i : ℕ) → All IsByte mask → get_byte mask i < 256
unfolding get_byte
get_byte-IsByte [] i h = omega arith
get_byte-IsByte (b ∷ bs) zero h = h.0
get_byte-IsByte (b ∷ bs) (suc i) h = get_byte-IsByte bs i h.1

-- Masking twice with one mask gives the bytes back.
pub unmask-unmask :
    (mask : List ℕ) (i : ℕ) (bytes : List ℕ)
    → All IsByte mask
    → All IsByte bytes
    → unmask mask i (unmask mask i bytes) ≡ bytes
unfolding unmask
unmask-unmask mask i [] hm hb = refl
unmask-unmask mask i (b ∷ bs) hm hb = ground (
  arith,
  xor_twice b (get_byte mask (i % 4)) hb.0 (get_byte-IsByte mask (i % 4) hm),
  unmask-unmask mask (i + 1) bs hm hb.1,
)

-- RFC 6455, section 5.3: the bytes of the mask in turn, from `a` on.
abbrev pub in_turn : ℕ → ℕ → ℕ → ℕ → List ℕ → List ℕ
in_turn a b c d [] = []
in_turn a b c d (x ∷ xs) = bit_xor x a ∷ in_turn b c d a xs

abbrev pub masked_by : List ℕ → List ℕ → List ℕ
masked_by (a ∷ b ∷ c ∷ d ∷ []) bytes = in_turn a b c d bytes
masked_by _ bytes = bytes

unmask-in_turn :
    (a b c d i : ℕ) (bytes : List ℕ)
    → let mask = a ∷ b ∷ c ∷ d ∷ [] in
      (i % 4 ≡ 0 → unmask mask i bytes ≡ in_turn a b c d bytes)
      × (i % 4 ≡ 1 → unmask mask i bytes ≡ in_turn b c d a bytes)
      × (i % 4 ≡ 2 → unmask mask i bytes ≡ in_turn c d a b bytes)
      × (i % 4 ≡ 3 → unmask mask i bytes ≡ in_turn d a b c bytes)
unfolding unmask get_byte
unmask-in_turn a b c d i [] = (λ h. refl, λ h. refl, λ h. refl, λ h. refl)
unmask-in_turn a b c d i (x ∷ xs) =
    let (from_a, from_b, from_c, from_d) = unmask-in_turn a b c d (i + 1) xs in
    (
      λ h. rw (h, from_b (omega (arith, h))) refl,
      λ h. rw (h, from_c (omega (arith, h))) refl,
      λ h. rw (h, from_d (omega (arith, h))) refl,
      λ h. rw (h, from_a (omega (arith, h))) refl,
    )

-- The mask of the source is that of RFC 6455.
pub unmask-masked_by :
    (mask bytes : List ℕ) → length mask ≡ 4 → unmask mask 0 bytes ≡ masked_by mask bytes
unmask-masked_by [] bytes h = absurd (omega arith)
unmask-masked_by (a ∷ []) bytes h = absurd (omega arith)
unmask-masked_by (a ∷ b ∷ []) bytes h = absurd (omega arith)
unmask-masked_by (a ∷ b ∷ c ∷ []) bytes h = absurd (omega arith)
unmask-masked_by (a ∷ b ∷ c ∷ d ∷ []) bytes h = (unmask-in_turn a b c d 0 bytes).0 refl
unmask-masked_by (a ∷ b ∷ c ∷ d ∷ e ∷ rest) bytes h = absurd (omega arith)

pub length-unmask :
    (mask : List ℕ) (i : ℕ) (bytes : List ℕ) → length (unmask mask i bytes) ≡ length bytes
unfolding unmask
length-unmask mask i [] = refl
length-unmask mask i (b ∷ bs) = ap suc (length-unmask mask (i + 1) bs)
