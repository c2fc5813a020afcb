-- ===== src/Seccomp/Layout.antt =====
-- The bytes of cmd/run/engine/seccomp/include.go: sizes, and integers that are read back.
use subtrace_docker_wireshar.Base.{
  ℕ, zero, suc, ◌*◌, ◌/◌, ◌<◌, ◌≡◌, refl, ap, ◌∙◌, arith, List, [], ◌∷◌, ◌++◌, length, ok, All,
}
use subtrace_docker_wireshar.Seccomp.Wire.{
  le_bytes, le_value, Resp, resp_size, resp_bytes, Addfd, addfd_size, addfd_bytes, Received, words,
  unmarshal,
}

length-le_bytes : (n x : ℕ) → length (le_bytes n x) ≡ n
unfolding le_bytes
length-le_bytes zero x = refl
length-le_bytes (suc n) x = ap suc (length-le_bytes n (x / 256))

-- 256 ^ n.
abbrev pub limit : ℕ → ℕ
limit zero = 1
limit (suc n) = 256 * limit n

le_value-le_bytes : (n x : ℕ) → x < limit n → le_value (le_bytes n x) ≡ x
unfolding le_bytes le_value
le_value-le_bytes zero x h = omega arith
le_value-le_bytes (suc n) x h = omega (arith, le_value-le_bytes n (x / 256) (omega arith))

-- The kernel's layout of struct seccomp_notif, as bytes.
abbrev pub raw_words : List ℕ → List ℕ
raw_words [] = []
raw_words (a ∷ rest) = le_bytes 8 a ++ raw_words rest

abbrev pub raw_notif : Received → List ℕ
raw_notif x =
    le_bytes 8 x.id
    ++ (le_bytes 4 x.pid
        ++ (le_bytes 4 x.flags
            ++ (le_bytes 4 x.nr ++ (le_bytes 4 x.arch ++ (le_bytes 8 x.ip ++ raw_words x.args)))))

length-raw_words : (xs : List ℕ) → length (raw_words xs) ≡ 8 * length xs
unfolding le_bytes
length-raw_words [] = refl
length-raw_words (x ∷ xs) = omega (arith, length-raw_words xs)

words-step :
    (n x : ℕ) (b : List ℕ) → words (suc n) (le_bytes 8 x ++ b) ≡ le_value (le_bytes 8 x) ∷ words n b
unfolding words le_bytes
words-step n x b = refl

words-raw_words : (xs : List ℕ) → All (λ a. a < limit 8) xs → words (length xs) (raw_words xs) ≡ xs
unfolding words
words-raw_words [] h = refl
words-raw_words (x ∷ xs) h =
    words-step (length xs) x (raw_words xs) ∙ cc (le_value-le_bytes 8 x h.0, words-raw_words xs h.1)

-- The fields' values fit their sizes, and there are six arguments.
pub record IsRaw (x : Received) : Type 0 where
  pub id_fits : x.id < limit 8
  pub pid_fits : x.pid < limit 4
  pub flags_fits : x.flags < limit 4
  pub nr_fits : x.nr < limit 4
  pub arch_fits : x.arch < limit 4
  pub ip_fits : x.ip < limit 8
  pub six : length x.args ≡ 6
  pub args_fit : All (λ a. a < limit 8) x.args

unmarshal_parts :
    (x : Received)
    → length (raw_words x.args) ≡ 48
    → unmarshal (raw_notif x)
      ≡ ok (record {
        id = le_value (le_bytes 8 x.id);
        pid = le_value (le_bytes 4 x.pid);
        flags = le_value (le_bytes 4 x.flags);
        nr = le_value (le_bytes 4 x.nr);
        arch = le_value (le_bytes 4 x.arch);
        ip = le_value (le_bytes 8 x.ip);
        args = words 6 (raw_words x.args);
      })
unfolding unmarshal le_bytes
unmarshal_parts x h = rw h refl

-- A notification that the kernel lays out as struct seccomp_notif is read back as it is, by a read
-- that does not panic: the fields are at the offsets where the kernel puts them.
pub unmarshal-raw_notif : (x : Received) → IsRaw x → unmarshal (raw_notif x) ≡ ok x
unmarshal-raw_notif x h =
    unmarshal_parts x (omega (arith, length-raw_words x.args, h.six))
    ∙ cc (
      le_value-le_bytes 8 x.id h.id_fits,
      le_value-le_bytes 4 x.pid h.pid_fits,
      le_value-le_bytes 4 x.flags h.flags_fits,
      le_value-le_bytes 4 x.nr h.nr_fits,
      le_value-le_bytes 4 x.arch h.arch_fits,
      le_value-le_bytes 8 x.ip h.ip_fits,
      words-raw_words x.args h.args_fit,
      h.six,
    )

-- The requests are as long as SizeBytes says, whatever the values.
pub sizes :
    ((x : Resp) → length (resp_bytes x) ≡ resp_size)
    × ((x : Addfd) → length (addfd_bytes x) ≡ addfd_size)
unfolding resp_bytes addfd_bytes le_bytes resp_size addfd_size
sizes = (λ x. refl, λ x. refl)
