-- ===== src/Fd/Word.antt =====
-- The words of cmd/run/fd/fd.go. `flagClosed` is the top bit of a 32-bit word, so
-- `refs &^ flagClosed` is the remainder by 2 ^ 31, and `refs & flagClosed != 0` says 2 ^ 31 ≤ refs.
use subtrace_docker_wireshar.Base.{ℕ, ◌+◌, ◌%◌, Bool, leb}

-- The modulus of a 32-bit word.
abbrev pub word : ℕ
word = 4294967296

abbrev pub flag_closed : ℕ
flag_closed = 2147483648

abbrev pub max_refs : ℕ
max_refs = 16777216

-- ^uint32(0), which stands in the place of a descriptor that is gone.
abbrev pub no_fd : ℕ
no_fd = 4294967295

abbrev pub left : ℕ → ℕ
left refs = refs % flag_closed

abbrev pub is_closed : ℕ → Bool
is_closed refs = leb flag_closed refs

-- atomic.AddUint32(&refs, 1) and atomic.AddUint32(&refs, ^uint32(0)).
abbrev pub add_one : ℕ → ℕ
add_one refs = (refs + 1) % word

abbrev pub sub_one : ℕ → ℕ
sub_one refs = (refs + no_fd) % word

-- flagClosed|(refs+1), for a word whose top bit is clear before and after the sum.
abbrev pub mark_closed : ℕ → ℕ
mark_closed refs = flag_closed + (refs + 1) % flag_closed
