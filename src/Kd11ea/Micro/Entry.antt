-- ===== src/Kd11ea/Micro/Entry.antt =====
-- What the sequencer relies on in the control store: the comments of `kd11ea_ustep` and of
-- `compute_next_mpc` (pdp11/kd11ea/kd11ea.c), against the words of the ROM images.
use ll.Prelude.{
  ℕ, ◌<◌, ◌%◌, ◌≡◌, ◌≢◌, refl, arith, Bool, true, false, ◌&&◌, ◌||◌, not, ◌==◌, ==_iff, and_true,
  all_below, all_below_sound,
}
use ll.Kd11ea.Ucode.{
  ucode_read, ufr, uw_next_mpc, uw_misc, uw_but_service, misc_load_ir, misc_but_dest,
}
use ll.Kd11ea.Micro.Next.{e102_data}

abbrev next : ℕ → ℕ
next m = uw_next_mpc (ucode_read m)

-- The word after LOAD IR decodes the instruction and nothing else.
abbrev decodes : ℕ → Bool
decodes m =
    next m == 0
    && e102_data (ucode_read m) == 0
    && uw_but_service (ucode_read m) == 0
    && not (uw_misc (ucode_read m) == misc_but_dest)

abbrev entry_check : ℕ → Bool
entry_check m = not (uw_misc (ucode_read m) == misc_load_ir) || decodes (next m)

abbrev service_check : ℕ → Bool
service_check m = uw_but_service (ucode_read m) == 0 || next m % 2 == 0

entry_table : all_below 512 entry_check ≡ true
unfolding ucode_read ufr uw_next_mpc e102_data
entry_table = refl

service_table : all_below 512 service_check ≡ true
unfolding ucode_read ufr uw_next_mpc
service_table = refl

implied : (b d : Bool) → not b || d ≡ true → b ≡ true → d ≡ true
implied true d h e = h
implied false d h e = absurd (ground arith)

or_left : (b d : Bool) → b || d ≡ true → b ≡ false → d ≡ true
or_left false d h e = h
or_left true d h e = absurd (ground arith)

unequal : (a b : ℕ) → not (a == b) ≡ true → a ≢ b
unequal a b h e = ground arith

==_false : (a b : ℕ) → a ≢ b → (a == b) ≡ false
==_false a b h = ground arith

-- After a word that loads the IR, the next word has NEXT 000, tests no branch condition, and does
-- neither BUT SERVICE nor BUT DEST, so that the entry of the instruction alone chooses the
-- address that follows.
pub microcode-entry :
    (m : ℕ)
    → m < 512
    → uw_misc (ucode_read m) ≡ misc_load_ir
    → (next (next m) ≡ 0)
      × (e102_data (ucode_read (next m)) ≡ 0)
      × (uw_but_service (ucode_read (next m)) ≡ 0)
      × (uw_misc (ucode_read (next m)) ≢ misc_but_dest)
microcode-entry m h e =
    let w = ucode_read (next m) in
    let d =
      implied (uw_misc (ucode_read m) == misc_load_ir) (decodes (next m))
        (all_below_sound 512 entry_check m entry_table h) ((==_iff _ _).1 e) in
    let no_dest = not (uw_misc w == misc_but_dest) in
    let (abc, s) = and_true _ no_dest d in
    let (ab, r) = and_true _ (uw_but_service w == 0) abc in
    let (p, q) = and_true (next (next m) == 0) (e102_data w == 0) ab in
    ((==_iff _ _).0 p, (==_iff _ _).0 q, (==_iff _ _).0 r, unequal _ _ s)

-- A word that does BUT SERVICE has an even NEXT, so that a trap or an interrupt, which puts a one on
-- MPC 00, takes the microprogram to the word after it.
pub microcode-service : (m : ℕ) → m < 512 → uw_but_service (ucode_read m) ≢ 0 → next m % 2 ≡ 0
microcode-service m h ne =
    (==_iff _ _).0
      (or_left _ _ (all_below_sound 512 service_check m service_table h) (==_false _ _ ne))
