-- ===== src/Kd11ea/Int/Queue.antt =====
-- What the three operations do to the set of requests, and the invariant that they keep.
use mathlib.Core.HLevel.{⊥_prop, ×_prop}
use native.Mathlib.Bridge.{le_prop}
use mathlib.Core.List.{
  Mem, Nodup, Nodup-cons, Nodup-nil, mem-cons, not-mem-nil, perm_append_singleton,
}
use mathlib.Core.List.{mem-cons_of_mem}
use mathlib.Core.List.Perm
use mathlib.Core.Logic.Or
use ll.Prelude.{
  ℕ, ◌-◌, ◌≤◌, ◌<◌, ◌≡◌, ◌≢◌, ◌⊎◌, inl, inr, true, false, none, some, List, [], ◌∷◌, ◌++◌, map,
  arith, leb, leb→le, ==_iff, length, length-append, get_elem?, Bool-cases, Option-cases,
}
use ll.Prelude.Seq.{
  Perm, find_index, swap_out, Found, find_index-Found, swap_out-perm, length-swap_out,
}
use ll.Kd11ea.Int.{
  IntRequest, IntController, has_vector, int_max_pending, int_init, int_request, int_cancel,
  int_pending, int_ack, no_request,
}

abbrev pub vectors : List IntRequest → List ℕ
vectors = map λ r. r.vector

-- At most eight requests, no vector twice, every level between BR4 and BR7.
pub record IsValid (ic : IntController) : Type 0 where
  pub small : length ic.queue ≤ 8
  pub distinct : Nodup (vectors ic.queue)
  pub levels : (r : IntRequest) → Mem r ic.queue → (4 ≤ r.priority) × (r.priority ≤ 7)

pub int_init-IsValid : IsValid int_init
unfolding int_init
int_init-IsValid = record {
  small = omega arith;
  distinct = Nodup-nil;
  levels = λ r m. absurd (not-mem-nil m);
}

pub absent :
    (v : ℕ) (q : List IntRequest) → find_index (has_vector v) q ≡ none → ¬ Mem v (vectors q)
unfolding find_index
absent v [] e m = not-mem-nil m
absent v (r ∷ rs) e m =
    Or.elim ⊥_prop (mem-cons.0 m) (λ same. ground arith) (absent v rs (ground arith))

-- What is left after one request is gone is valid.
without-IsValid :
    (ic : IntController) (r : IntRequest) (rest : List IntRequest)
    → IsValid ic
    → Perm (r ∷ rest) ic.queue
    → length rest ≡ length ic.queue - 1
    → IsValid (record { queue = rest })
without-IsValid ic r rest v p e = record {
  small = omega (arith, v.small);
  distinct = (Nodup-cons.0 (Perm.nodup (Perm.symm (Perm.map _ p)) v.distinct)).1;
  levels = λ s m. v.levels s ((Perm.mem_iff p).0 (mem-cons_of_mem r m));
}

-- A cancelled request leaves the queue, and nothing else does; with no such request nothing
-- changes.
pub int_cancel-perm :
    (ic : IntController) (vector : ℕ)
    → ((find_index (has_vector vector) ic.queue ≡ none) × (int_cancel ic vector ≡ ic))
      ⊎ ((r : IntRequest) × (r.vector ≡ vector)
          × Perm (r ∷ (int_cancel ic vector).queue) ic.queue
          × (length (int_cancel ic vector).queue ≡ length ic.queue - 1))
unfolding int_cancel
int_cancel-perm ic vector = elim (Option-cases (find_index (has_vector vector) ic.queue)) [
  | inl e ↦ inl (e, rw (e, int_cancel))
  | inr (i, e) ↦
      let f : Found (has_vector vector) ic.queue i =
        find_index-Found (has_vector vector) ic.queue i e in
      inr (
        f.item,
        (==_iff _ _).0 f.passes,
        rw (e, int_cancel) (swap_out-perm ic.queue i f.item no_request f.at),
        rw (e, int_cancel) (length-swap_out ic.queue i no_request),
      )
]

-- A cancellation keeps the queue valid.
pub int_cancel-IsValid :
    (ic : IntController) (vector : ℕ) → IsValid ic → IsValid (int_cancel ic vector)
int_cancel-IsValid ic vector v = elim (int_cancel-perm ic vector) [
  | inl (_, same) ↦ rw same v
  | inr (r, _, p, e) ↦ without-IsValid ic r (int_cancel ic vector).queue v p e
]

int_ack-inversion :
    (ic ic' : IntController) (cpu : ℕ) (r : IntRequest)
    → int_ack ic cpu ≡ some (r, ic')
    → (i : ℕ) × (int_pending ic cpu ≡ some i)
      × (get_elem? ic.queue i ≡ some r)
      × (ic' ≡ record { queue = swap_out ic.queue i no_request })
unfolding int_ack
int_ack-inversion ic ic' cpu r e = elim (Option-cases (int_pending ic cpu)) [
  | inl p ↦ absurd (ground arith)
  | inr (i, p) ↦ elim (Option-cases (get_elem? ic.queue i)) [
    | inl out ↦ absurd (ground arith)
    | inr (s, there) ↦ (i, p, ground arith, ground arith)
  ]
]

-- A granted request leaves the queue, and nothing else does.
pub int_ack-perm :
    (ic ic' : IntController) (cpu : ℕ) (r : IntRequest)
    → int_ack ic cpu ≡ some (r, ic')
    → Perm (r ∷ ic'.queue) ic.queue × (length ic'.queue ≡ length ic.queue - 1)
int_ack-perm ic ic' cpu r e =
    let (i, _, there, same) = int_ack-inversion ic ic' cpu r e in
    rw same (swap_out-perm ic.queue i r no_request there, length-swap_out ic.queue i no_request)

pub int_ack-IsValid :
    (ic ic' : IntController) (cpu : ℕ) (r : IntRequest)
    → IsValid ic
    → int_ack ic cpu ≡ some (r, ic')
    → IsValid ic'
int_ack-IsValid ic ic' cpu r v e =
    let (p, n) = int_ack-perm ic ic' cpu r e in without-IsValid ic r ic'.queue v p n

append-IsValid :
    (ic : IntController) (r : IntRequest)
    → IsValid ic
    → find_index (has_vector r.vector) ic.queue ≡ none
    → length ic.queue < 8
    → 4 ≤ r.priority
    → r.priority ≤ 7
    → IsValid (record { queue = ic.queue ++ r ∷ [] })
append-IsValid ic r v fresh room lo hi =
    let p : Perm (ic.queue ++ r ∷ []) (r ∷ ic.queue) = perm_append_singleton r ic.queue in
    record {
      small = omega (arith, length-append ic.queue (r ∷ []));
      distinct =
          Perm.nodup (Perm.symm (Perm.map (λ s. s.vector) p))
            (Nodup-cons.1 (absent r.vector ic.queue fresh, v.distinct));
      levels = λ s m.
          Or.elim (×_prop le_prop le_prop) (mem-cons.0 ((Perm.mem_iff p).0 m))
            (λ same. rw same (lo, hi)) (v.levels s);
    }

-- A request at a BR level keeps the queue valid.
pub int_request-IsValid :
    (ic : IntController) (vector priority : ℕ)
    → IsValid ic
    → 4 ≤ priority
    → priority ≤ 7
    → IsValid (int_request ic vector priority).1
unfolding int_request
int_request-IsValid ic vector priority v lo hi =
    elim (Option-cases (find_index (has_vector vector) ic.queue)) [
      | inr (i, e) ↦ rw (e, int_request) v
      | inl e ↦ elim (Bool-cases (leb int_max_pending (length ic.queue))) [
        | inl full ↦ rw (e, full, int_request) v
        | inr room ↦
            let new : IntRequest = record { vector = vector; priority = priority } in
            rw (e, room, int_request) (append-IsValid ic new v e (ground arith) lo hi)
      ]
    ]

-- The return value is -1 exactly when the vector is new and eight requests are pending; then, and
-- when the vector is pending already, the queue stays as it was. Otherwise the request is put last.
pub int_request_lem :
    (ic : IntController) (vector priority : ℕ)
    → let pending = find_index (has_vector vector) ic.queue in
      ((pending ≢ none) × (int_request ic vector priority ≡ (true, ic)))
      ⊎ (((pending ≡ none) × (8 ≤ length ic.queue) × (int_request ic vector priority ≡ (false, ic)))
          ⊎ ((pending ≡ none)
              × (length ic.queue < 8)
              × (int_request ic vector priority ≡ (
                true,
                record { queue = ic.queue ++ record { vector = vector; priority = priority } ∷ [] },
              ))))
unfolding int_request
int_request_lem ic vector priority = elim (Option-cases (find_index (has_vector vector) ic.queue)) [
  | inr (i, e) ↦ inl (λ n. ground (arith, n), rw (e, int_request))
  | inl e ↦ elim (Bool-cases (leb int_max_pending (length ic.queue))) [
    | inl full ↦ inr (inl (e, leb→le _ _ full, rw (e, full, int_request)))
    | inr room ↦ inr (inr (e, ground arith, rw (e, room, int_request)))
  ]
]

-- On a valid queue, in which vectors differ, levels are BR4 to BR7 and at most eight requests are
-- pending, a request at one of those levels, a cancellation and a grant all leave a valid queue.
pub interrupt-IsValid :
    (ic ic' : IntController) (vector priority cpu : ℕ) (r : IntRequest)
    → IsValid ic
    → 4 ≤ priority
    → priority ≤ 7
    → int_ack ic cpu ≡ some (r, ic')
    → IsValid (int_request ic vector priority).1 × IsValid (int_cancel ic vector) × IsValid ic'
interrupt-IsValid ic ic' vector priority cpu r v lo hi e = (
  int_request-IsValid ic vector priority v lo hi,
  int_cancel-IsValid ic vector v,
  int_ack-IsValid ic ic' cpu r v e,
)
