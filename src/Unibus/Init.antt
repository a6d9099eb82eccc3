-- ===== src/Unibus/Init.antt =====
-- BUS INIT (`bus_register_init`, `bus_set_init`): what the receivers know of the line.
use ll.Prelude.{
  ℕ, zero, suc, ◌<◌, ◌≡◌, ◌≢◌, refl, sym, ap, ◌∙◌, ◌⊎◌, inl, inr, Bool, true, false, not, ◌&&◌,
  List, [], ◌∷◌, ◌++◌, some, arith, leb, length, get_elem?, if◌then◌else◌,
}
use ll.Unibus.{Bus, BusState, bus_register_init, bus_max_devices, same_level}

-- A receiver that keeps the level it is told, as the devices do in `init_l`.
pub record Receiver (W : Type 0) : Type 0 where
  pub changed : Bool → W → W
  pub heard : W → Bool
  pub told : (level : Bool) (w : W) → heard (changed level w) ≡ level

module _ {W : Type 0} where
  -- Telling one receiver says nothing to another.
  abbrev pub IsApart : List (Receiver W) → Type 0
  IsApart rs =
      (i j : ℕ) (a b : Receiver W)
      → get_elem? rs i ≡ some a
      → get_elem? rs j ≡ some b
      → i ≢ j
      → (level : Bool) (w : W) → b.heard (a.changed level w) ≡ b.heard w

  -- Every receiver of the list knows that level.
  abbrev pub AllHeard : List (Receiver W) → Bool → W → Type 0
  AllHeard rs level w = (i : ℕ) (r : Receiver W) → get_elem? rs i ≡ some r → r.heard w ≡ level

  -- The functions that the bus has of them.
  abbrev pub callbacks : List (Receiver W) → List (Bool → W → W)
  callbacks [] = []
  callbacks (r ∷ rs) = r.changed ∷ callbacks rs

  -- What driving the line to a level has done.
  pub record IsDriven (rs : List (Receiver W)) (level : Bool) (now : ℕ) (s s' : BusState W)
      : Type 0 where
    pub line : s'.lines.init_l ≡ level
    pub heard : AllHeard rs level s'.world
    pub nxm :
        s'.lines.nxm
        ≡ (if same_level s.lines.init_l level then s.lines.nxm else level && s.lines.nxm)
    pub released :
        s'.lines.init_released_ns
        ≡ (if not s.lines.init_l && level then now else s.lines.init_released_ns)
    pub asserted :
        s'.lines.init_asserted_ns
        ≡ (if s.lines.init_l && not level then now else s.lines.init_asserted_ns)

  get_elem?-append :
      (rs : List (Receiver W)) (a b : Receiver W) (i : ℕ)
      → get_elem? (rs ++ a ∷ []) i ≡ some b
      → (get_elem? rs i ≡ some b) ⊎ ((i ≡ length rs) × (a ≡ b))
  get_elem?-append [] a b zero at = inr (refl, ground arith)
  get_elem?-append [] a b (suc i) at = absurd (cc)
  get_elem?-append (r ∷ rs) a b zero at = inl at
  get_elem?-append (r ∷ rs) a b (suc i) at = elim (get_elem?-append rs a b i at) [
    | inl old ↦ inl old
    | inr (end, new) ↦ inr (ap suc end, new)
  ]

  get_elem?-old :
      (rs : List (Receiver W)) (a b : Receiver W) (i : ℕ)
      → get_elem? rs i ≡ some b
      → (get_elem? (rs ++ a ∷ []) i ≡ some b) × (i < length rs)
  get_elem?-old [] a b i at = absurd (cc)
  get_elem?-old (r ∷ rs) a b zero at = (at, omega arith)
  get_elem?-old (r ∷ rs) a b (suc i) at =
      let (there, small) = get_elem?-old rs a b i at in (there, omega (arith, small))

  get_elem?-new :
      (rs : List (Receiver W)) (a : Receiver W) → get_elem? (rs ++ a ∷ []) (length rs) ≡ some a
  get_elem?-new [] a = refl
  get_elem?-new (r ∷ rs) a = get_elem?-new rs a

  -- A receiver that is registered is told the present level, and the others still know it.
  pub bus_register_init-AllHeard :
      (bus : Bus W) (rs : List (Receiver W)) (r : Receiver W) (s : BusState W)
      → length bus.init_receivers < bus_max_devices
      → IsApart (rs ++ r ∷ [])
      → AllHeard rs s.lines.init_l s.world
      → let (ok, bus', s') = bus_register_init bus r.changed s in
        (ok ≡ true)
        × (bus'.init_receivers ≡ bus.init_receivers ++ r.changed ∷ [])
        × (s'.lines ≡ s.lines)
        × AllHeard (rs ++ r ∷ []) s'.lines.init_l s'.world
  bus_register_init-AllHeard bus rs r s room apart known =
      let free : leb bus_max_devices (length bus.init_receivers) ≡ false = ground arith in
      unfold bus_register_init in
      rw (free) (
        refl,
        refl,
        refl,
        λ i b at. elim (get_elem?-append rs r b i at) [
          | inl old ↦
              let (there, small) = get_elem?-old rs r b i old in
              apart (length rs) i r b (get_elem?-new rs r) there
                (λ e. absurd (omega (arith, e, small))) _ _
              ∙ known i b old
          | inr (end, new) ↦
              ap (λ t. t.heard (r.changed s.lines.init_l s.world)) (sym new)
              ∙ r.told s.lines.init_l s.world
        ],
      )
