-- ===== src/Kd11ea/Int/Pending.antt =====
-- Which vectors are pending after a device has asked for an interrupt or withdrawn it.
use mathlib.Core.List.{Mem, Nodup-cons, mem-cons, mem-cons_of_mem, Mem-prop, perm_append_singleton}
use mathlib.Core.List.Perm
use mathlib.Core.Logic.Or
use ll.Prelude.{ℕ, ◌≡◌, ◌≢◌, sym, ◌∙◌, inl, inr, some, [], ◌∷◌, ◌++◌}
use ll.Prelude.Seq.{Perm}
use ll.Kd11ea.Int.{IntRequest, IntController, int_request, int_cancel, int_ack}
use ll.Kd11ea.Int.Queue.{IsValid, vectors, absent, int_ack-perm, int_cancel-perm, int_request_lem}

abbrev pub Pending : IntController → ℕ → Type 0
Pending ic vector = Mem vector (vectors ic.queue)

-- A withdrawn request is no longer pending, and no other one becomes so.
pub int_cancel-Pending :
    (ic : IntController) (v w : ℕ)
    → IsValid ic
    → Pending (int_cancel ic v) w
    → Pending ic w × (w ≢ v)
int_cancel-Pending ic v w valid m = elim (int_cancel-perm ic v) [
  | inl (e, same) ↦
      let old : Pending ic w = rw same at m in (old, λ its. absent v ic.queue e (rw its at old))
  | inr (r, its, p, _) ↦
      let p' : Perm (vectors (r ∷ (int_cancel ic v).queue)) (vectors ic.queue) = Perm.map _ p in
      let gone : ¬ Mem r.vector (vectors (int_cancel ic v).queue) =
        (Nodup-cons.0 (Perm.nodup (Perm.symm p') valid.distinct)).0 in
      ((Perm.mem_iff p').0 (mem-cons_of_mem r.vector m), λ same. gone (rw (same ∙ sym its) at m))
]

-- A request makes no vector pending but its own.
pub int_request-Pending :
    (ic : IntController) (v priority w : ℕ)
    → w ≢ v
    → Pending (int_request ic v priority).1 w
    → Pending ic w
int_request-Pending ic v priority w ne m = elim (int_request_lem ic v priority) [
  | inl (_, same) ↦ rw same at m
  | inr (inl (_, _, same)) ↦ rw same at m
  | inr (inr (_, _, put_last)) ↦
      let r : IntRequest = record { vector = v; priority = priority } in
      let p : Perm (vectors (ic.queue ++ r ∷ [])) (vectors (r ∷ ic.queue)) =
        Perm.map _ (perm_append_singleton r ic.queue) in
      let m' : Mem w (vectors (ic.queue ++ r ∷ [])) = rw put_last at m in
      Or.elim Mem-prop (mem-cons.0 ((Perm.mem_iff p).0 m')) (λ same. absurd (ne same)) (λ old. old)
]

-- A grant makes no vector pending.
pub int_ack-Pending :
    (ic ic' : IntController) (cpu w : ℕ) (r : IntRequest)
    → int_ack ic cpu ≡ some (r, ic')
    → Pending ic' w
    → Pending ic w
int_ack-Pending ic ic' cpu w r e m =
    let p : Perm (vectors (r ∷ ic'.queue)) (vectors ic.queue) =
      Perm.map _ (int_ack-perm ic ic' cpu r e).0 in
    (Perm.mem_iff p).0 (mem-cons_of_mem r.vector m)
