-- ===== src/Devices/Quiet.antt =====
-- A device among others on the interrupt controller, and the invariant that its requests are
-- pending only while it is enabled to make them.
use mathlib.Core.List.{not-mem-nil}
use ll.Prelude.{
  ℕ, ◌≤◌, ◌≡◌, ◌≢◌, refl, inl, inr, arith, ◌==◌, ==_iff, if◌then◌else◌, Bool-cases, Bool, true,
  false, not, ◌&&◌, some,
}
use ll.Kd11ea.Int.{IntController, IntRequest, int_init, int_ack}
use ll.Kd11ea.Int.Queue.{
  IsValid, int_init-IsValid, int_request-IsValid, int_cancel-IsValid, int_ack-IsValid,
}
use ll.Kd11ea.Int.Pending.{Pending, int_request-Pending, int_cancel-Pending, int_ack-Pending}
use ll.Devices.{cpu_irq_set, cpu_irq_clr}

-- `mine` tells the device's vectors, `on` whether it may ask for an interrupt at one, and `Own`
-- what it does itself.
module _ {D : Type 0} (mine : ℕ → Bool) (on : ℕ → D → Bool)
    (Own : D → IntController → D → IntController → Type 0) where
  -- The requests are valid, and one of the device's is there only if it may be.
  pub record IsQuiet (d : D) (ic : IntController) : Type 0 where
    pub valid : IsValid ic
    pub only_on : (v : ℕ) → mine v ≡ true → Pending ic v → on v d ≡ true

  -- One thing that happens: to the device, or to the controller by the others.
  pub data Step : D → IntController → D → IntController → Type 0 where
    own : {d d' : D} {ic ic' : IntController} → Own d ic d' ic' → Step d ic d' ic'
    other_request :
        (d : D) (ic : IntController) (vector priority : ℕ)
        → mine vector ≡ false
        → 4 ≤ priority
        → priority ≤ 7
        → Step d ic d (cpu_irq_set vector priority ic)
    other_cancel : (d : D) (ic : IntController) (vector : ℕ) → Step d ic d (cpu_irq_clr vector ic)
    grant :
        (d : D) (ic ic' : IntController) (cpu : ℕ) (r : IntRequest)
        → int_ack ic cpu ≡ some (r, ic')
        → Step d ic d ic'

  -- What the machine can come to from the device as `start`.
  pub data Reachable (start : D) : D → IntController → Type 0 where
    here : Reachable start start int_init
    next :
        {d d' : D} {ic ic' : IntController}
        → Reachable start d ic
        → Step d ic d' ic'
        → Reachable start d' ic'

  differ : (v w : ℕ) → mine v ≡ true → mine w ≡ false → v ≢ w
  differ v w p q same = absurd (ground (arith, p, q, same))

  Step-IsQuiet :
      ((d : D) (ic : IntController) (d' : D) (ic' : IntController)
        → Own d ic d' ic'
        → IsQuiet d ic
        → IsQuiet d' ic')
      → {d d' : D} {ic ic' : IntController} → Step d ic d' ic'
      → IsQuiet d ic
      → IsQuiet d' ic'
  unfolding cpu_irq_set cpu_irq_clr
  Step-IsQuiet keeps (own o) q = keeps _ _ _ _ o q
  Step-IsQuiet keeps (other_request d ic vector priority other lo hi) q = record {
    valid = int_request-IsValid ic vector priority q.valid lo hi;
    only_on = λ v m p.
        q.only_on v m (int_request-Pending ic vector priority v (differ v vector m other) p);
  }
  Step-IsQuiet keeps (other_cancel d ic vector) q = record {
    valid = int_cancel-IsValid ic vector q.valid;
    only_on = λ v m p. q.only_on v m (int_cancel-Pending ic vector v q.valid p).0;
  }
  Step-IsQuiet keeps (grant d ic ic' cpu r e) q = record {
    valid = int_ack-IsValid ic ic' cpu r q.valid e;
    only_on = λ v m p. q.only_on v m (int_ack-Pending ic ic' cpu v r e p);
  }

  -- What each operation of the device keeps holds wherever the machine comes to.
  pub Reachable-IsQuiet :
      ((d : D) (ic : IntController) (d' : D) (ic' : IntController)
        → Own d ic d' ic'
        → IsQuiet d ic
        → IsQuiet d' ic')
      → {start d : D} {ic : IntController} → Reachable start d ic
      → IsQuiet d ic
  unfolding int_init
  Reachable-IsQuiet keeps here = record {
    valid = int_init-IsValid;
    only_on = λ v m p. absurd (not-mem-nil p);
  }
  Reachable-IsQuiet keeps (next r s) = Step-IsQuiet keeps s (Reachable-IsQuiet keeps r)

  -- Either branch of a test.
  pub if-IsQuiet :
      (b : Bool) (x y : D × IntController)
      → (b ≡ true → IsQuiet x.0 x.1)
      → (b ≡ false → IsQuiet y.0 y.1)
      → IsQuiet (if b then x else y).0 (if b then x else y).1
  if-IsQuiet true x y p q = p refl
  if-IsQuiet false x y p q = q refl

  -- The device changes, and stays enabled where it was.
  pub change-IsQuiet :
      (d d' : D) (ic : IntController)
      → IsQuiet d ic
      → ((v : ℕ) → mine v ≡ true → on v d ≡ true → on v d' ≡ true)
      → IsQuiet d' ic
  change-IsQuiet d d' ic q keeps = record {
    valid = q.valid;
    only_on = λ v m p. keeps v m (q.only_on v m p);
  }

  -- It asks for an interrupt at `v`, if the test holds, and then only if it is enabled.
  pub request-IsQuiet :
      (b : Bool) (v priority : ℕ) (d : D) (ic : IntController)
      → IsQuiet d ic
      → (b ≡ true → on v d ≡ true)
      → 4 ≤ priority
      → priority ≤ 7
      → IsQuiet d (if b then cpu_irq_set v priority ic else ic)
  unfolding cpu_irq_set
  request-IsQuiet false v priority d ic q enabled lo hi = q
  request-IsQuiet true v priority d ic q enabled lo hi = record {
    valid = int_request-IsValid ic v priority q.valid lo hi;
    only_on = λ w m p. elim (Bool-cases (w == v)) [
      | inl same ↦ rw ((==_iff w v).0 same) (enabled refl)
      | inr other ↦
          q.only_on w m
            (int_request-Pending ic v priority w (λ e. absurd (ground (arith, e, other))) p)
    ];
  }

  -- It withdraws the request at `v`, if the test holds: then it need not be enabled there.
  pub cancel-IsQuiet :
      (b : Bool) (v : ℕ) (d d' : D) (ic : IntController)
      → IsQuiet d ic
      → ((w : ℕ) → mine w ≡ true → w ≢ v → on w d ≡ true → on w d' ≡ true)
      → (b ≡ false → on v d ≡ true → on v d' ≡ true)
      → IsQuiet d' (if b then cpu_irq_clr v ic else ic)
  unfolding cpu_irq_clr
  cancel-IsQuiet true v d d' ic q others same = record {
    valid = int_cancel-IsValid ic v q.valid;
    only_on = λ w m p.
        let (old, ne) = int_cancel-Pending ic v w q.valid p in others w m ne (q.only_on w m old);
  }
  cancel-IsQuiet false v d d' ic q others same = record {
    valid = q.valid;
    only_on = λ w m p. elim (Bool-cases (w == v)) [
      | inl e ↦
          let own : w ≡ v = (==_iff w v).0 e in rw own (same refl (rw own at (q.only_on w m p)))
      | inr other ↦ others w m (λ e. absurd (ground (arith, e, other))) (q.only_on w m p)
    ];
  }

  -- A write to an enable bit: a rising edge asks if the device is ready, a falling one withdraws.
  pub enable-IsQuiet :
      (old new ready : Bool) (v priority : ℕ) (d d' : D) (ic : IntController)
      → IsQuiet d ic
      → on v d ≡ old
      → on v d' ≡ new
      → ((w : ℕ) → mine w ≡ true → w ≢ v → on w d ≡ true → on w d' ≡ true)
      → 4 ≤ priority
      → priority ≤ 7
      → let asked = if not old && new && ready then cpu_irq_set v priority ic else ic in
        IsQuiet d' (if old && not new then cpu_irq_clr v asked else asked)
  enable-IsQuiet old true ready v priority d d' ic q e e' others lo hi =
      let up : IsQuiet d' ic = cancel-IsQuiet false v d d' ic q others (λ _ _. e') in
      let asked : IsQuiet d' (if not old && true && ready then cpu_irq_set v priority ic else ic) =
        request-IsQuiet (not old && true && ready) v priority d' ic up (λ _. e') lo hi in
      cancel-IsQuiet (old && not true) v d' d' _ asked (λ w m ne h. h) (λ _ h. h)
  enable-IsQuiet true false ready v priority d d' ic q e e' others lo hi =
      cancel-IsQuiet true v d d' ic q others (λ off. absurd (ground (arith, off)))
  enable-IsQuiet false false ready v priority d d' ic q e e' others lo hi =
      cancel-IsQuiet false v d d' ic q others (λ _ on_d. absurd (ground (arith, on_d, e)))
