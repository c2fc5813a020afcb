-- ===== src/Tracer/Delivery.antt =====
-- tracer/manager.go: the Manager delivers what was inserted, in order. The abstract view of a manager is
-- the events that wait and what became of the ones before; blocks, the pool and their flags are gone.
use subtrace_docker_wireshar.Base.{
  ℕ, suc, ◌≡◌, refl, ap, ◌∙◌, arith, Bool, true, false, not, ◌||◌, ◌&&◌, List, [], ◌∷◌, ◌++◌, some,
  All, if◌then◌else◌,
}
use subtrace_docker_wireshar.Tracer.Blocks.{
  always, Block, blank, reset, insert, flush_once, Outcome, flush, Fate, delivered, dropped,
  Manager, new_manager, next_block, put, is_nil, fate_of, finalize, swap_out, insert_event,
  flush_all, Op, inserts, flushes, run,
}

abbrev pub View : Type 0
View = List Fate × List (List ℕ)

-- A Flush that has a token and a delivery that succeeds at one of two attempts delivers what waits, and
-- any other drops it.
abbrev pub fate : Outcome → List (List ℕ) → Fate
fate o waiting =
    if o.token && (o.first || o.second) && not (is_nil waiting)
    then delivered waiting
    else dropped waiting

unfoldable pub meant : List Op → View → View
meant [] v = v
meant (inserts event ∷ rest) (fates, waiting) = meant rest (fates, waiting ++ event ∷ [])
meant (flushes reuse o ∷ rest) (fates, waiting) = meant rest (fates ++ fate o waiting ∷ [], [])

record IsTidy (m : Manager) : Type 0 where
  thawed : m.cur.frozen ≡ false
  unflushed : m.cur.flushed ≡ false
  pool_blank : All (λ b. b ≡ blank) m.pool

fate_of-flush :
    (o : Outcome) (b : Block) → b.flushed ≡ false → fate_of b (flush o b) ≡ fate o b.events
unfolding flush flush_once
fate_of-flush o b h = ground (arith, h)

next_block-blank :
    (reuse : Bool) (pool : List Block)
    → All (λ b. b ≡ blank) pool
    → ((next_block reuse pool).0 ≡ blank) × All (λ b. b ≡ blank) (next_block reuse pool).1
next_block-blank reuse [] h = (refl, h)
next_block-blank true (b ∷ rest) (e, h) = (e, h)
next_block-blank false (b ∷ rest) h = (refl, h)

swap_out-IsTidy :
    (reuse : Bool) (o : Outcome) (m : Manager) → IsTidy m → IsTidy (swap_out reuse o m)
unfolding swap_out finalize put reset
swap_out-IsTidy reuse o m t =
    let (fresh, rest) = next_block-blank reuse m.pool t.pool_blank in
    record {
      thawed = ap (λ (b : Block). b.frozen) fresh;
      unflushed = ap (λ (b : Block). b.flushed) fresh;
      pool_blank = (refl, rest);
    }

abbrev pub view : Manager → View
view m = (m.fates, m.cur.events)

swap_out-view :
    (reuse : Bool) (o : Outcome) (m : Manager)
    → IsTidy m
    → view (swap_out reuse o m) ≡ (m.fates ++ fate o m.cur.events ∷ [], [])
unfolding swap_out finalize put
swap_out-view reuse o m t =
    let (fresh, rest) = next_block-blank reuse m.pool t.pool_blank in
    cc (fate_of-flush o m.cur t.unflushed, fresh)

inserted : List ℕ → Manager → Manager
inserted event m = record m { cur = (insert event m.cur).1 }

insert_event-first :
    (fuel : ℕ) (reuse : Bool) (o : Outcome) (event : List ℕ) (m : Manager)
    → IsTidy m
    → insert_event (suc fuel) reuse o event m ≡ some (inserted event m)
unfolding insert_event inserted insert
insert_event-first fuel reuse o event m t = ground (arith, t.thawed)

inserted-IsTidy : (event : List ℕ) (m : Manager) → IsTidy m → IsTidy (inserted event m)
unfolding inserted insert
inserted-IsTidy event m t = record {
  thawed = ground (arith, t.thawed);
  unflushed = ground (arith, t.thawed, t.unflushed);
  pool_blank = t.pool_blank;
}

inserted-view :
    (event : List ℕ) (m : Manager)
    → IsTidy m
    → view (inserted event m) ≡ (m.fates, m.cur.events ++ event ∷ [])
unfolding inserted insert
inserted-view event m t = ground (arith, t.thawed)

run-meant :
    (ops : List Op) (m : Manager)
    → IsTidy m
    → (m' : Manager) × (run ops m ≡ some m') × (view m' ≡ meant ops (view m))
unfolding run meant flush_all
run-meant [] m t = (m, refl, refl)
run-meant (inserts event ∷ rest) m t =
    let (m', e, v) = run-meant rest (inserted event m) (inserted-IsTidy event m t) in
    (
      m',
      ground (arith, insert_event-first 0 true always event m t, e),
      v ∙ ap (meant rest) (inserted-view event m t),
    )
run-meant (flushes reuse o ∷ rest) m t =
    let (m', e, v) = run-meant rest (swap_out reuse o m) (swap_out-IsTidy reuse o m t) in
    (m', e, v ∙ ap (meant rest) (swap_out-view reuse o m t))

-- Any calls of Insert and Flush on a new Manager, one after the other, come to an end, and what is
-- delivered, dropped and waiting then is what was meant: each Flush takes the events inserted since the
-- one before, in order, and delivers them if there are any, it has a token and one of its two attempts
-- succeeds, and drops them if not.
pub run-new_manager :
    (ops : List Op) → (m : Manager) × (run ops new_manager ≡ some m) × (view m ≡ meant ops ([], []))
unfolding new_manager
run-new_manager ops =
    run-meant ops new_manager (record { thawed = refl; unflushed = refl; pool_blank = tt })
