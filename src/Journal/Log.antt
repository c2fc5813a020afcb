-- ===== src/Journal/Log.antt =====
-- A whole log through cmd/run/journal/journal.go: the lines that the scanners push, that `listen`
-- moves to the ring buffer, and that CopyFrom reads.
use subtrace_docker_wireshar.Base.{
  ℕ, ◌+◌, ◌-◌, ◌^◌, ◌≤◌, ◌<◌, ◌≡◌, refl, arith, List, [], ◌∷◌, ◌++◌, drop, take, min, length,
  length-append, length-take, length-set, length-replicate, All, All-append, All-set, All-replicate,
  lt→ltb, le→not-ltb, subst, sym, ap, ◌%◌, ◌∙◌, ltb, if◌then◌else◌,
}
use native.Mathlib.Decide.{dec_lt}
use mathlib.Core.List.{append_assoc, append-nil}
use subtrace_docker_wireshar.Journal.{
  Journal, Line, max_log_lines, channel_size, new, add_line, push, listen, listen_on, copy_from,
}
use subtrace_docker_wireshar.Journal.Window.{Holds, new-Holds, add_line-Holds, copy_from-recent}

-- The lines of a log, added in order.
unfoldable pub add_lines : Journal → List Line → Journal
add_lines j [] = j
add_lines j (line ∷ rest) = add_lines (add_line j line) rest

add_lines-Holds :
    (history : List Line) (j : Journal) (lines : List Line)
    → Holds history j
    → length history + length lines < 2 ^ 64
    → Holds (history ++ lines) (add_lines j lines)
unfolding add_lines
add_lines-Holds history j [] v room = rw (append-nil history) v
add_lines-Holds history j (line ∷ rest) v room = rw (append_assoc history (line ∷ []) rest) at (
    add_lines-Holds (history ++ line ∷ []) (add_line j line) rest
      (add_line-Holds history j line v (omega arith))
      (omega (arith, length-append history (line ∷ []))))

-- After any log of fewer than 2 ^ 64 lines, CopyFrom at a position up to the end of the log returns
-- the log's lines from that position on, or its last 4096 lines where there are more, with the
-- index in the log of the first line returned.
pub copy_from-log :
    (lines : List Line) (pos : ℕ)
    → length lines < 2 ^ 64
    → pos ≤ length lines
    → let first = length lines - min (length lines - pos) max_log_lines in
      copy_from (add_lines new lines) pos ≡ (first, drop first lines)
copy_from-log lines pos room behind =
    copy_from-recent lines (add_lines new lines)
      (add_lines-Holds [] new lines new-Holds (omega arith)) pos behind room

-- What happens to a journal: a scanner reads a line, or `listen` makes a round.
pub data Input : Type 0 where
  scanned : Line → Input
  listened : Input

unfoldable pub feed : Journal → List Input → Journal
feed j [] = j
feed j (scanned line ∷ rest) = feed (push j line) rest
feed j (listened ∷ rest) = feed (listen j) rest

abbrev pub IsShort : Line → Type 0
IsShort line = length line ≤ 1024

pub record IsBounded (j : Journal) : Type 0 where
  pub queued : length j.queue ≤ channel_size
  pub short_queue : All IsShort j.queue
  pub short_buf : All IsShort j.buf
  pub size : length j.buf ≡ max_log_lines

push-IsBounded : (j : Journal) (line : Line) → IsBounded j → IsBounded (push j line)
unfolding push
push-IsBounded j line v = elim (dec_lt (length j.queue) channel_size) [
  | no full ↦ rw (le→not-ltb (length j.queue) channel_size (omega arith)) v
  | yes room ↦ rw (lt→ltb _ _ room) (record {
    queued = omega (arith, length-append j.queue (cut ∷ []));
    short_queue = All-append IsShort j.queue (cut ∷ []) v.short_queue (short, tt);
    short_buf = v.short_buf;
    size = v.size;
  })
]
  where
    cut : Line
    cut = if ltb 1024 (length line) then take 1024 line else line

    short : length cut ≤ 1024
    short = elim (dec_lt 1024 (length line)) [
      | yes p ↦ rw (lt→ltb 1024 (length line) p) (omega (arith, length-take 1024 line))
      | no p ↦ rw (le→not-ltb 1024 (length line) (omega arith)) (omega arith)
    ]

listen_on-IsBounded :
    (queue : List Line) (j : Journal)
    → queue ≡ j.queue
    → IsBounded j
    → IsBounded (listen_on queue j)
unfolding listen_on add_line
listen_on-IsBounded [] j e v = v
listen_on-IsBounded (line ∷ rest) j e v =
    let short = subst (All IsShort) (sym e) v.short_queue in
    record {
      queued = ground (arith, ap length e, v.queued);
      short_queue = short.1;
      short_buf = All-set IsShort j.buf _ line v.short_buf short.0;
      size = length-set j.buf (j.idx % max_log_lines) line ∙ v.size;
    }

feed-IsBounded : (j : Journal) (inputs : List Input) → IsBounded j → IsBounded (feed j inputs)
unfolding feed listen
feed-IsBounded j [] v = v
feed-IsBounded j (scanned line ∷ rest) v =
    feed-IsBounded (push j line) rest (push-IsBounded j line v)
feed-IsBounded j (listened ∷ rest) v =
    feed-IsBounded (listen_on j.queue j) rest (listen_on-IsBounded j.queue j refl v)

-- Whatever the program logs and however `listen` keeps up, the journal's memory is bounded: at most
-- 65536 lines wait, the ring buffer has 4096 lines, and no line is longer than 1024 bytes.
pub feed-new-IsBounded : (inputs : List Input) → IsBounded (feed new inputs)
unfolding new
feed-new-IsBounded inputs = feed-IsBounded new inputs (record {
  queued = omega arith;
  short_queue = tt;
  short_buf = All-replicate IsShort max_log_lines [] (omega arith);
  size = length-replicate {A = Line} max_log_lines [];
})
