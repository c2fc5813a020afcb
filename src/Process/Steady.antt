-- ===== src/Process/Steady.antt =====
-- The calls of cmd/run/engine/process that leave the sockets of the process and their inodes as they
-- are.
use subtrace_docker_wireshar.Base.{ℕ, ◌≡◌, ◌∙◌, arith, Option, none, some, Run, ok}
use subtrace_docker_wireshar.Socket.State.{Socket}
use subtrace_docker_wireshar.Process.Machine.{Machine, Act, pure, ◌>>=◌, ask, save, method}
use subtrace_docker_wireshar.Process.Memory.{Memory}
use subtrace_docker_wireshar.Process.Host.{Host}
use subtrace_docker_wireshar.Process.Table.{skips, adds, after, lets_go, holds, add_to_table}
use subtrace_docker_wireshar.Event.{Event}
use subtrace_docker_wireshar.Process.Lifetime.{template_of, event_template, fresh_template}
use subtrace_docker_wireshar.Process.Rules.{bind-parts}
use subtrace_docker_wireshar.Process.Handlers.{close_tracked}

module _ {W : Type 0} where
  -- A call that leaves the table of sockets and the inode of each socket as they are.
  pub record Steady {A : Type 0} (act : Act W A) : Type 0 where
    pub keeps :
        (m m' : Machine W) (a : A)
        → act m ≡ ok (a, m')
        → (m'.proc.sockets ≡ m.proc.sockets)
          × ((b : ℕ) → (m'.store.sock b).inode ≡ (m.store.sock b).inode)

module _ {W A B : Type 0} where
  pub bind-Steady :
      {act : Act W A} {f : A → Act W B} → Steady act → ((a : A) → Steady (f a)) → Steady (act >>= f)
  bind-Steady {act} {f} s t = record {
    keeps = λ m m'' b h.
        let (a, m', e, k) = bind-parts act f m m'' b h in
        let (s1, i1) = s.keeps m m' a e in
        let (s2, i2) = (t a).keeps m' m'' b k in (s2 ∙ s1, λ c. i2 c ∙ i1 c);
  }

module _ {W : Type 0} where
  pub pure-Steady : {A : Type 0} (a : A) → Steady {W = W} (pure a)
  pure-Steady a = record { keeps = λ m m' b h. (cc, λ c. cc) }

  pub ask-Steady : {A : Type 0} (f : W → A × W) → Steady (ask f)
  unfolding ask
  ask-Steady f = record { keeps = λ m m' b h. (cc, λ c. cc) }

  pub skips-Steady : (v : Memory W) → Steady (skips v)
  unfolding skips
  skips-Steady v =
      bind-Steady (ask-Steady v.kernel)
        (λ k. record { keeps = λ m m' b h. (ground arith, λ c. ground arith) })

  pub method-Steady :
      {A : Type 0} (s : ℕ) (call : Socket → Run (A × Socket)) → Steady {W = W} (method s call)
  unfolding method save
  method-Steady s call = record { keeps = λ m m' b h. (ground arith, λ c. ground arith) }

  pub holds-Steady : (s : ℕ) → Steady {W = W} (holds s)
  unfolding holds
  holds-Steady s = record { keeps = λ m m' b h. (ground arith, λ c. ground arith) }

  pub lets_go-Steady : (s : ℕ) → Steady {W = W} (lets_go s)
  unfolding lets_go
  lets_go-Steady s = record { keeps = λ m m' b h. (ground arith, λ c. ground arith) }

  pub add_to_table-Steady : (s : ℕ) → Steady {W = W} (add_to_table s)
  unfolding add_to_table
  add_to_table-Steady s = record { keeps = λ m m' b h. (ground arith, λ c. ground arith) }

  pub adds-Steady : (v : Memory W) (s flags : ℕ) → Steady (adds v s flags)
  unfolding adds
  adds-Steady v s flags =
      bind-Steady (ask-Steady v.kernel)
        (λ k. record { keeps = λ m m' b h. (ground arith, λ c. ground arith) })

  pub after-Steady :
      {A : Type 0} (act : Act W (Unit {0})) (a : A) → Steady act → Steady (after act a)
  unfolding after
  after-Steady act a s = bind-Steady s (λ _. pure-Steady a)

  pub template_of-Steady : (h : Host W) (t : Option Event) → Steady (template_of h t)
  template_of-Steady h (some t) = pure-Steady t
  template_of-Steady h none =
      bind-Steady (ask-Steady h.facts) (λ f. record { keeps = λ m m' a h. (cc, λ c. cc) })

  pub event_template-Steady : (h : Host W) → Steady (event_template h)
  unfolding event_template
  event_template-Steady h = record {
    keeps = λ m m' a e. (template_of-Steady h m.proc.template).keeps m m' a e;
  }

  pub fresh_template-Steady : (h : Host W) → Steady (fresh_template h)
  unfolding fresh_template
  fresh_template-Steady h = search (bind-Steady, pure-Steady, ask-Steady, event_template-Steady)

  pub close_tracked-Steady : (h : Host W) (found : Option ℕ) → Steady (close_tracked h found)
  unfolding close_tracked
  close_tracked-Steady h none = skips-Steady h.memory
  close_tracked-Steady h (some s) = search (bind-Steady, ask-Steady, method-Steady, skips-Steady)
