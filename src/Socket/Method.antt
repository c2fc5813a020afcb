-- ===== src/Socket/Method.antt =====
-- cmd/run/socket/socket.go: the reference that every method of a Socket starts with.
use subtrace_docker_wireshar.Base.{
  ◌+◌, ◌≡◌, refl, ap, ◌∙◌, arith, Bool, true, false, Run, ok, panic, ◌>>=◌, Outcome, errno, ebadf,
  if◌then◌else◌, ◌⊎◌, inl, inr,
}
use subtrace_docker_wireshar.Fd.Calls.{Fd, inc_ref, dec_ref}
use subtrace_docker_wireshar.Fd.Balance.{IsLive, inc_ref-live, dec_ref_open}
use subtrace_docker_wireshar.Socket.State.{Socket, referenced}

pub run-parts {ℓ κ} :
    {A : Type ℓ} {B : Type κ} (m : Run A) (f : A → Run B) (b : B)
    → (m >>= f) ≡ ok b
    → (a : A) × (m ≡ ok a) × (f a ≡ ok b)
run-parts (ok a) f b h = (a, refl, h)
run-parts panic f b h = absurd (cc)

release {ℓ} : {A : Type ℓ} → Outcome A × Socket → Run (Outcome A × Socket)
release (answer, t) = dec_ref t.fd >>= λ f'. ok (answer, record t { fd = f' })

-- What a method's body did, where the method got its reference.
abbrev pub Ran {ℓ} :
    {A : Type ℓ} → (Socket → Run (Outcome A × Socket)) → Socket → Socket → Outcome A → Type ℓ
Ran body s s' r =
    (f : Fd) × (t : Socket) × (body (record s { fd = f }) ≡ ok (r, t))
    × (s'.state ≡ t.state)
    × (s'.shut ≡ t.shut)

released-state {ℓ} :
    {A : Type ℓ} (x : Outcome A × Socket) (s' : Socket) (r : Outcome A)
    → release x ≡ ok (r, s')
    → (x.0 ≡ r) × (s'.state ≡ x.1.state) × (s'.shut ≡ x.1.shut)
unfolding release
released-state (answer, t) s' r h =
    let (f', e, k) = run-parts (dec_ref t.fd) _ (r, s') h in (cc, cc, cc)

referenced-Ran {ℓ} :
    {A : Type ℓ} (body : Socket → Run (Outcome A × Socket)) (s s' : Socket) (r : Outcome A)
    (live : Bool) (f : Fd)
    → (if live
        then (body (record s { fd = f }) >>= release)
        else ok (errno ebadf, record s { fd = f }))
      ≡ ok (r, s')
    → ((r ≡ errno ebadf) × (s'.state ≡ s.state) × (s'.shut ≡ s.shut)) ⊎ Ran body s s' r
referenced-Ran body s s' r false f h = inl (ground arith, ground arith, ground arith)
referenced-Ran body s s' r true f h =
    let ((answer, t), e, k) = run-parts (body (record s { fd = f })) release (r, s') h in
    let (same, at, shut) = released-state (answer, t) s' r k in
    inr (f, t, e ∙ ap (λ a. ok (a, t)) same, at, shut)

-- A method that gets a reference runs its body, and another one leaves the state as it was
-- and answers EBADF.
pub referenced-run {ℓ} :
    {A : Type ℓ} (body : Socket → Run (Outcome A × Socket)) (s s' : Socket) (r : Outcome A)
    → referenced body s ≡ ok (r, s')
    → ((r ≡ errno ebadf) × (s'.state ≡ s.state) × (s'.shut ≡ s.shut)) ⊎ Ran body s s' r
unfolding referenced release
referenced-run body s s' r h =
    let ((live, f), e, k) = run-parts (inc_ref s.fd) _ (r, s') h in
    referenced-Ran body s s' r live f k

abbrev pub held : Socket → Socket
held s = record s { fd = record s.fd { refs = s.fd.refs + 1 } }

-- A method that leaves its descriptor alone gives its reference back.
pub referenced-live {ℓ} :
    {A : Type ℓ} (body : Socket → Run (Outcome A × Socket)) (s t : Socket) (r : Outcome A)
    → IsLive s.fd
    → body (held s) ≡ ok (r, t)
    → t.fd ≡ (held s).fd
    → referenced body s ≡ ok (r, record t { fd = s.fd })
unfolding referenced
referenced-live body s t r h k same =
    rw (inc_ref-live s.fd h, k, same, dec_ref_open (held s).fd (omega arith) h.room)
      (ap (λ n. ok (r, record t { fd = record s.fd { refs = n } })) (omega arith))
