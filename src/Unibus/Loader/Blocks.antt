-- ===== src/Unibus/Loader/Blocks.antt =====
-- The loop over the blocks of a tape (`loader_lda` of pdp11/unibus/loader.c).
use ll.Prelude.{ℕ, zero, suc, ◌<◌, ◌≡◌, Option, none, some, length}
use ll.Unibus.Ram.{Ram}
use ll.Unibus.Loader.{Load, Block}

-- What is left of the file, if anything is, is shorter than `n`.
IsShorter : ℕ → Block → Type 0
IsShorter n (Block.stop l) = zero ≡ zero
IsShorter n (Block.more rest total ram) = length rest < n

Ends : Option Load → Type 0
Ends none = zero ≡ suc zero
Ends (some l) = zero ≡ zero
