-- ===== src/Journal.antt =====
-- cmd/run/journal/journal.go: the ring buffer of the last 4096 log lines of the traced program.
-- A line is a list of bytes. The locks make each call atomic, so a call is a function of the state.
pub mod Window
pub mod Log
use subtrace_docker_wireshar.Base.{
  ℕ, suc, ◌+◌, ◌-◌, ◌%◌, Bool, List, [], ◌∷◌, ◌++◌, ltb, ◌==◌, if◌then◌else◌, set, take, drop,
  replicate, length, min,
}

abbrev pub max_log_lines : ℕ
max_log_lines = 4096

-- uint64 arithmetic.
abbrev pub u64 : ℕ → ℕ
u64 n = n % 18446744073709551616

abbrev pub Line : Type 0
Line = List ℕ

pub record Journal : Type 0 where
  pub buf : List Line
  pub idx : ℕ
  -- the lines that wait in the channel `ch`
  pub queue : List Line

unfoldable pub new : Journal
new = record { buf = replicate max_log_lines []; idx = 0; queue = [] }

abbrev pub channel_size : ℕ
channel_size = 65536

-- The body of `loop` for one scanned line: cut to 1024 bytes, and dropped if the channel is full.
unfoldable pub push : Journal → Line → Journal
push j line =
    let cut = if ltb 1024 (length line) then take 1024 line else line in
    if ltb (length j.queue) channel_size then record j { queue = j.queue ++ cut ∷ [] } else j

unfoldable pub add_line : Journal → Line → Journal
add_line j line = record j { buf = set j.buf (j.idx % max_log_lines) line; idx = u64 (j.idx + 1) }

listen_on : List Line → Journal → Journal
unfolding add_line
listen_on [] j = j
listen_on (line ∷ rest) j = add_line (record j { queue = rest }) line

-- One round of `listen`; on an empty channel it waits.
unfoldable pub listen : Journal → Journal
unfolding listen_on
listen j = listen_on j.queue j

unfoldable pub copy_from : Journal → ℕ → ℕ × List Line
copy_from j pos =
    if pos == j.idx
    then (j.idx, [])
    else let num_lines = min (u64 (j.idx + 18446744073709551616 - pos)) max_log_lines in
      let buf_end = j.idx % max_log_lines in
      let buf_start = u64 (j.idx + 18446744073709551616 - num_lines) % max_log_lines in
      let from = u64 (j.idx + 18446744073709551616 - num_lines) in
      if ltb buf_start buf_end
      then (from, take (buf_end - buf_start) (drop buf_start j.buf))
      else (from, drop buf_start j.buf ++ take buf_end j.buf)
