-- ===== src/Fd/Moves.antt =====
-- Every step of every goroutine on an FD keeps the invariant of `Fd.Invariant`.
use subtrace_docker_wireshar.Base.{
  false, ℕ, suc, ◌+◌, ◌<◌, ◌≤◌, ◌≡◌, ◌⊎◌, inl, inr, some, List, arith, length, get_elem?, set,
  sum_by, sum_by-set, sum_by-get, length-set, some_inj, sym, ap, ◌∙◌, get_elem?-set_self,
}
use subtrace_docker_wireshar.Fd.Word.{max_refs, no_fd}
use subtrace_docker_wireshar.Fd.Calls.{Fd}
use subtrace_docker_wireshar.Fd.Threads.{
  Pc, idle, retiring, crashed, Action, act, inc_ref, closing_inc_ref, System, step,
}
use subtrace_docker_wireshar.Fd.Invariant.{
  is_holding, is_backing_out, is_closer, is_closing, is_waiting, is_locking, is_waking, is_retiring,
  IsOpen, IsClosed, Inv, refs-le-length, closer_parts,
}

-- How the counts change when goroutine `i` goes from `p` to `q`.
record Moved (ps : List Pc) (i : ℕ) (p q : Pc) : Type 0 where
  bounded : sum_by is_holding ps + sum_by is_backing_out ps + sum_by is_closer ps ≤ length ps
  parts : sum_by is_closing ps + sum_by is_waiting ps + sum_by is_locking ps ≡ sum_by is_closer ps
  there : is_closer p ≤ sum_by is_closer ps
  closings : sum_by is_closing (set ps i q) + is_closing p ≡ sum_by is_closing ps + is_closing q
  holdings : sum_by is_holding (set ps i q) + is_holding p ≡ sum_by is_holding ps + is_holding q
  backing_outs :
      sum_by is_backing_out (set ps i q) + is_backing_out p
      ≡ sum_by is_backing_out ps + is_backing_out q
  closers : sum_by is_closer (set ps i q) + is_closer p ≡ sum_by is_closer ps + is_closer q
  waitings : sum_by is_waiting (set ps i q) + is_waiting p ≡ sum_by is_waiting ps + is_waiting q
  lockings : sum_by is_locking (set ps i q) + is_locking p ≡ sum_by is_locking ps + is_locking q
  wakings : sum_by is_waking (set ps i q) + is_waking p ≡ sum_by is_waking ps + is_waking q
  retirings :
      sum_by is_retiring (set ps i q) + is_retiring p ≡ sum_by is_retiring ps + is_retiring q

moved : (ps : List Pc) (i : ℕ) (p q : Pc) → get_elem? ps i ≡ some p → Moved ps i p q
moved ps i p q e = record {
  bounded = refs-le-length ps;
  parts = closer_parts ps;
  there = sum_by-get is_closer ps i p e;
  closings = sum_by-set is_closing ps i p q e;
  holdings = sum_by-set is_holding ps i p q e;
  backing_outs = sum_by-set is_backing_out ps i p q e;
  closers = sum_by-set is_closer ps i p q e;
  waitings = sum_by-set is_waiting ps i p q e;
  lockings = sum_by-set is_locking ps i p q e;
  wakings = sum_by-set is_waking ps i p q e;
  retirings = sum_by-set is_retiring ps i p q e;
}

module _ {fd : ℕ} (real : fd < no_fd) (f f' : Fd) (ps : List Pc) (i : ℕ) (q : Pc)
    (small : suc (length ps) < max_refs) where
  IsOpen-step :
      (p : Pc) (a : Action)
      → IsOpen fd f ps
      → Moved ps i p q
      → act p a f ≡ some (f', q)
      → IsOpen fd f' (set ps i q) ⊎ IsClosed fd f' (set ps i q)
  unfolding act
  IsOpen-step idle closing_inc_ref v e h = inr (ground arith)
  IsOpen-step idle inc_ref v e h = inl (ground arith)
  IsOpen-step _ _ v e h = inl (ground arith)

  IsClosed-step :
      (p : Pc) (a : Action)
      → IsClosed fd f ps
      → Moved ps i p q
      → act p a f ≡ some (f', q)
      → IsClosed fd f' (set ps i q)
  unfolding act
  IsClosed-step idle inc_ref v e h = ground arith
  IsClosed-step _ _ v e h = ground arith

  -- A step crashes only where a retiring decRef finds that the descriptor is gone.
  open_crash :
      (p : Pc) (a : Action)
      → IsOpen fd f ps
      → Moved ps i p q
      → act p a f ≡ some (f', q)
      → q ≡ crashed
      → (p ≡ retiring false) × (f.fd ≡ no_fd)
  unfolding act
  open_crash idle inc_ref v m h c = absurd (ground arith)
  open_crash _ _ v m h c = ground arith

  closed_crash :
      (p : Pc) (a : Action)
      → IsClosed fd f ps
      → Moved ps i p q
      → act p a f ≡ some (f', q)
      → q ≡ crashed
      → (p ≡ retiring false) × (f.fd ≡ no_fd)
  unfolding act
  closed_crash idle inc_ref v m h c = absurd (ground arith)
  closed_crash _ _ v m h c = ground arith

-- What a step is made of: the goroutine's program counter, and what `act` makes of it.
pub step_parts :
    (s : System) (i : ℕ) (a : Action) {t : System}
    → step s i a ≡ some t
    → (p q : Pc) × (f : Fd) × (get_elem? s.threads i ≡ some p)
      × (act p a s.shared ≡ some (f, q))
      × (t ≡ record { shared = f; threads = set s.threads i q })
unfolding step
step_parts s i a h = ground arith

pub step-Inv :
    {fd : ℕ}
    → fd < no_fd
    → (s : System) (i : ℕ) (a : Action) (t : System) → suc (length s.threads) < max_refs
    → Inv fd s
    → step s i a ≡ some t
    → Inv fd t × (length t.threads ≡ length s.threads)
step-Inv {fd} real s i a t small v h =
    let (p, q, f, there, did, e) = step_parts s i a h in
    let m = moved s.threads i p q there in
    let kept : Inv fd (record { shared = f; threads = set s.threads i q }) = elim v [
      | inl o ↦ IsOpen-step real s.shared f s.threads i q small p a o m did
      | inr c ↦ inr (IsClosed-step real s.shared f s.threads i q small p a c m did)
    ] in
    rw e (kept, length-set s.threads i q)

pub crash_lem :
    {fd : ℕ}
    → fd < no_fd
    → (s : System) (i : ℕ) (a : Action) (t : System) → suc (length s.threads) < max_refs
    → Inv fd s
    → step s i a ≡ some t
    → get_elem? t.threads i ≡ some crashed
    → (get_elem? s.threads i ≡ some (retiring false)) × (s.shared.fd ≡ no_fd)
crash_lem {fd} real s i a t small v h late =
    let (p, q, f, there, did, e) = step_parts s i a h in
    let m = moved s.threads i p q there in
    let c : q ≡ crashed =
      some_inj (sym (get_elem?-set_self s.threads i p q there) ∙ (rw e at late)) in
    let (is_retire, gone) : (p ≡ retiring false) × (s.shared.fd ≡ no_fd) = elim v [
      | inl o ↦ open_crash real s.shared f s.threads i q small p a o m did c
      | inr o ↦ closed_crash real s.shared f s.threads i q small p a o m did c
    ] in
    (there ∙ ap some is_retire, gone)
