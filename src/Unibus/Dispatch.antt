-- ===== src/Unibus/Dispatch.antt =====
-- Which device answers a bus cycle, and what the master sees of it.
use ll.Prelude.{
  ℕ, zero, suc, ◌%◌, ◌^◌, ◌≤◌, ◌<◌, ◌≡◌, refl, ap, ◌⊎◌, inl, inr, Bool, true, false, none, some,
  List, [], ◌∷◌, arith, ◌==◌, if◌then◌else◌, get_elem?, Option-cases,
}
use mathlib.Core.Path.{subst}
use ll.Prelude.Seq.{find_index, Found, find_index-Found}
use ll.Unibus.{
  Bus, BusDevice, BusState, BusReply, bus_lookup, bus_read, bus_write, claims, even_addr, untimed,
  bus_datob, no_answer, respond, bus_dati, with_latency,
}

-- The address of a cycle as the decoders see it: words are even, a byte write is not.
abbrev pub read_addr : ℕ → ℕ
read_addr address = even_addr (address % 2 ^ 18)

abbrev pub write_addr : ℕ → ℕ → ℕ
write_addr address type =
    if type == bus_datob then address % 2 ^ 18 else even_addr (address % 2 ^ 18)

module _ {W : Type 0} where
  -- The device lies at that place of the list, claims the address, and none before it does.
  pub record Answers (ds : List (BusDevice W)) (addr : ℕ) (d : BusDevice W) : Type 0 where
    pub slot : ℕ
    pub at : get_elem? ds slot ≡ some d
    pub from : d.base ≤ addr
    pub to : addr ≤ d.end
    pub first :
        (j : ℕ) (e : BusDevice W)
        → j < slot
        → get_elem? ds j ≡ some e
        → (addr < e.base) ⊎ (e.end < addr)

  -- No device of the list claims the address.
  abbrev pub IsSilent : List (BusDevice W) → ℕ → Type 0
  IsSilent ds addr =
      (j : ℕ) (e : BusDevice W) → get_elem? ds j ≡ some e → (addr < e.base) ⊎ (e.end < addr)

  abbrev claims_addr : ℕ → BusDevice W → Bool
  claims_addr addr d = claims d addr

  not_claims :
      (d : BusDevice W) (addr : ℕ) → claims d addr ≡ false → (addr < d.base) ⊎ (d.end < addr)
  not_claims d addr e = grind arith

  bus_lookup-find_index :
      (ds : List (BusDevice W)) (addr : ℕ)
      → bus_lookup ds addr
        ≡ (elim (find_index (claims_addr addr) ds) [ none ↦ none | some i ↦ get_elem? ds i ])
  unfolding bus_lookup find_index
  bus_lookup-find_index [] addr = refl
  bus_lookup-find_index (d ∷ ds) addr = ground (arith, bus_lookup-find_index ds addr)

  pub bus_lookup-some :
      (ds : List (BusDevice W)) (addr : ℕ) (d : BusDevice W)
      → bus_lookup ds addr ≡ some d
      → Answers ds addr d
  bus_lookup-some ds addr d e = elim (Option-cases (find_index (claims_addr addr) ds)) [
    | inl out ↦ absurd (ground (arith, bus_lookup-find_index ds addr))
    | inr (i, found) ↦
        let f : Found (claims_addr addr) ds i = find_index-Found (claims_addr addr) ds i found in
        let same : f.item ≡ d = ground (arith, bus_lookup-find_index ds addr, f.at) in
        subst (Answers ds addr) same (record {
          slot = i;
          at = f.at;
          from = ground (arith, f.passes);
          to = ground (arith, f.passes);
          first = λ j y lt there. not_claims y addr (f.first j y lt there);
        })
  ]

  pub bus_lookup-none :
      (ds : List (BusDevice W)) (addr : ℕ) → bus_lookup ds addr ≡ none → IsSilent ds addr
  unfolding bus_lookup
  bus_lookup-none [] addr e j d there = absurd (cc)
  bus_lookup-none (x ∷ xs) addr e zero d there = not_claims d addr (ground arith)
  bus_lookup-none (x ∷ xs) addr e (suc j) d there = bus_lookup-none xs addr (ground arith) j d there

  pub bus_lookup-IsSilent :
      (ds : List (BusDevice W)) (addr : ℕ) → IsSilent ds addr → bus_lookup ds addr ≡ none
  bus_lookup-IsSilent ds addr silent = elim (Option-cases (bus_lookup ds addr)) [
    | inl e ↦ e
    | inr (d, e) ↦
        let a : Answers ds addr d = bus_lookup-some ds addr d e in
        let excluded : (addr < d.base) ⊎ (d.end < addr) = silent a.slot d a.at in
        absurd (omega (arith, excluded, a.from, a.to))
  ]

  -- What a master sees of a cycle that no device answers.
  pub record IsTimeout (s : BusState W) (r : BusReply W) : Type 0 where
    pub failed : r.ok ≡ false
    pub zero_word : r.word ≡ 0
    pub flagged : r.after.lines.nxm ≡ true
    pub waited : r.after.lines.last_latency_ns ≡ 22000
    pub untouched : r.after.world ≡ s.world

  -- What it sees of a cycle that `d` answers with `answer`: the result of `d`, and the latency
  -- of `d` whatever cycles `d` has run meanwhile.
  pub record IsAnswer (d : BusDevice W) (s : BusState W) (addr type : ℕ)
      (answer : BusState W → BusReply W) (r : BusReply W) : Type 0 where
    pub result : r.ok ≡ (answer (respond d s.lines.timed_access addr type (untimed s)).1).ok
    pub word : r.word ≡ (answer (respond d s.lines.timed_access addr type (untimed s)).1).word
    pub world :
        r.after.world
        ≡ (answer (respond d s.lines.timed_access addr type (untimed s)).1).after.world
    pub waited :
        r.after.lines.last_latency_ns ≡ (respond d s.lines.timed_access addr type (untimed s)).0

  IsTimeout-no_answer :
      (s : BusState W) (r : BusReply W) → r ≡ no_answer (untimed s) → IsTimeout s r
  IsTimeout-no_answer s r e = record {
    failed = ap (λ t. t.ok) e;
    zero_word = ap (λ t. t.word) e;
    flagged = ap (λ t. t.after.lines.nxm) e;
    waited = ap (λ t. t.after.lines.last_latency_ns) e;
    untouched = ap (λ t. t.after.world) e;
  }

  IsAnswer-with_latency :
      (d : BusDevice W) (s : BusState W) (addr type : ℕ) (answer : BusState W → BusReply W)
      (r : BusReply W)
      → let (latency, s') = respond d s.lines.timed_access addr type (untimed s) in
        r ≡ with_latency latency (answer s') → IsAnswer d s addr type answer r
  IsAnswer-with_latency d s addr type answer r e = record {
    result = ap (λ t. t.ok) e;
    word = ap (λ t. t.word) e;
    world = ap (λ t. t.after.world) e;
    waited = ap (λ t. t.after.lines.last_latency_ns) e;
  }

  -- A read times out exactly when no device claims its word; otherwise the first one registered
  -- that claims it answers.
  pub bus_read_lem :
      (bus : Bus W) (address : ℕ) (s : BusState W)
      → (IsSilent bus.devices (read_addr address) × IsTimeout s (bus_read bus address s))
        ⊎ ((d : BusDevice W) × Answers bus.devices (read_addr address) d
            × IsAnswer d s
                (address % 2 ^ 18)
                bus_dati
                (d.read (address % 2 ^ 18))
                (bus_read bus address s))
  bus_read_lem bus address s = elim (Option-cases (bus_lookup bus.devices (read_addr address))) [
    | inl e ↦ inl (
      bus_lookup-none bus.devices (read_addr address) e,
      IsTimeout-no_answer s _ (unfold bus_read in rw (e, bus_read) refl),
    )
    | inr (d, e) ↦ inr (
      d,
      bus_lookup-some bus.devices (read_addr address) d e,
      IsAnswer-with_latency d s _ _ _ _ (unfold bus_read in rw (e, bus_read) refl),
    )
  ]

  -- The same of a write; a byte write is decoded at its own address, not at that of its word.
  pub bus_write_lem :
      (bus : Bus W) (address word type : ℕ) (s : BusState W)
      → (IsSilent bus.devices (write_addr address type)
          × IsTimeout s (bus_write bus address word type s))
        ⊎ ((d : BusDevice W) × Answers bus.devices (write_addr address type) d
            × IsAnswer d s
                (address % 2 ^ 18)
                type
                (d.write (address % 2 ^ 18) word (type == bus_datob))
                (bus_write bus address word type s))
  bus_write_lem bus address word type s =
      elim (Option-cases (bus_lookup bus.devices (write_addr address type))) [
        | inl e ↦ inl (
          bus_lookup-none bus.devices (write_addr address type) e,
          IsTimeout-no_answer s _ (unfold bus_write in rw (e, bus_write) refl),
        )
        | inr (d, e) ↦ inr (
          d,
          bus_lookup-some bus.devices (write_addr address type) d e,
          IsAnswer-with_latency d s _ _ _ _ (unfold bus_write in rw (e, bus_write) refl),
        )
      ]
