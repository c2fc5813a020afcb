-- ===== src/Tracer/Blocks.antt =====
-- tracer/manager.go: blocks of events, and the Manager that collects events in a block and delivers the
-- blocks. Calls run one after the other, so a compare-and-swap of the current block succeeds.
use subtrace_docker_wireshar.Base.{
  ℕ, zero, suc, ◌+◌, ◌%◌, Bool, true, false, List, [], ◌∷◌, ◌++◌, Option, none, some, length,
  if◌then◌else◌,
}

abbrev pub word64 : ℕ
word64 = 18446744073709551616

-- An event is its bytes.
pub record Block : Type 0 where
  pub events : List (List ℕ)
  pub frozen : Bool
  pub flushed : Bool
  pub count : ℕ
  pub bytes : ℕ

-- new(block), and the block after reset.
abbrev pub blank : Block
blank = record { events = []; frozen = false; flushed = false; count = 0; bytes = 0 }

unfoldable pub reset : Block → Block
reset b = blank

unfoldable pub insert : List ℕ → Block → Bool × Block
insert event b = if b.frozen then (false, b) else (
  true,
  record b {
    events = b.events ++ event ∷ [];
    count = (b.count + 1) % word64;
    bytes = (b.bytes + length event) % word64;
  },
)

-- flushOnce: whether it returns nil, the events that it delivered, and the block. `delivers` is whether
-- the tunnel is made, dialed and takes the events.
pub record Flushing : Type 0 where
  pub succeeds : Bool
  pub sent : List (List ℕ)
  pub block : Block

unfoldable pub flush_once : Bool → Block → Flushing
flush_once delivers b = elim b.flushed [
  | true ↦ record { succeeds = false; sent = []; block = b }
  | false ↦ elim b.events [
    | [] ↦ record { succeeds = true; sent = []; block = record b { frozen = true; flushed = true } }
    | e ∷ es ↦ elim delivers [
      | true ↦ record {
        succeeds = true;
        sent = b.events;
        block = record b { frozen = true; flushed = true };
      }
      | false ↦ record { succeeds = false; sent = []; block = record b { frozen = true } }
    ]
  ]
]

-- How a flush goes: whether there is a token, and the deliveries of its two attempts.
pub record Outcome : Type 0 where
  pub token : Bool
  pub first : Bool
  pub second : Bool

unfoldable pub flush : Outcome → Block → Flushing
unfolding flush_once
flush o b =
    let once = flush_once o.first b in
    if o.token
    then (if once.succeeds then once else flush_once o.second once.block)
    else record { succeeds = true; sent = []; block = b }

-- What became of a block that was taken out: its events were delivered, or dropped.
pub data Fate : Type 0 where
  delivered dropped : List (List ℕ) → Fate

-- The Manager: its current block, the pool of blocks, and what became of the blocks before.
pub record Manager : Type 0 where
  pub cur : Block
  pub pool : List Block
  pub fates : List Fate

unfoldable pub new_manager : Manager
new_manager = record { cur = blank; pool = []; fates = [] }

-- pool.Get: the last block that was put in, or a new one.
abbrev pub next_block : Bool → List Block → Block × List Block
next_block reuse [] = (blank, [])
next_block true (b ∷ rest) = (b, rest)
next_block false (b ∷ rest) = (blank, b ∷ rest)

-- put.
unfoldable pub put : Block → Manager → Manager
unfolding reset
put b m = record m { pool = reset b ∷ m.pool }

abbrev pub is_nil : List (List ℕ) → Bool
is_nil [] = true
is_nil (x ∷ xs) = false

abbrev pub fate_of : Block → Flushing → Fate
fate_of b f = if is_nil f.sent then dropped b.events else delivered f.sent

-- finalize.
unfoldable pub finalize : Outcome → Block → Manager → Manager
unfolding flush put
finalize o b m = let f = flush o b in put f.block (record m { fates = m.fates ++ fate_of b f ∷ [] })

-- A compare-and-swap that makes another block of the pool the current one, and finalize.
unfoldable pub swap_out : Bool → Outcome → Manager → Manager
unfolding finalize
swap_out reuse o m =
    let (next, rest) = next_block reuse m.pool in
    finalize o m.cur (record m { cur = next; pool = rest })

-- Insert, round by round; none is out of fuel.
unfoldable pub insert_event : ℕ → Bool → Outcome → List ℕ → Manager → Option Manager
unfolding insert swap_out
insert_event zero reuse o event m = none
insert_event (suc fuel) reuse o event m =
    let again = insert_event fuel reuse o event (swap_out reuse o m) in
    let (taken, b) = insert event m.cur in
    elim taken [ true ↦ some (record m { cur = b }) | false ↦ again ]

-- Flush.
unfoldable pub flush_all : Bool → Outcome → Manager → Manager
unfolding swap_out
flush_all reuse o m = swap_out reuse o m

-- The outcome of the Flush that an Insert into a frozen block would start.
abbrev pub always : Outcome
always = record { token = true; first = true; second = true }

pub data Op : Type 0 where
  inserts : List ℕ → Op
  flushes : Bool → Outcome → Op

unfoldable pub run : List Op → Manager → Option Manager
unfolding insert_event flush_all
run [] m = some m
run (inserts event ∷ rest) m = elim (insert_event 1 true always event m) [
  | none ↦ none
  | some m' ↦ run rest m'
]
run (flushes reuse o ∷ rest) m = run rest (flush_all reuse o m)
