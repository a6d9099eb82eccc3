-- ===== src/Kd11ea/Int/Order.antt =====
-- The order among requests of one level after a removal.
use ll.Prelude.{ℕ, ◌<◌, ◌≡◌, some, [], ◌∷◌, arith}
use ll.Prelude.Seq.{find_index, swap_out}
use ll.Kd11ea.Int.{IntRequest, int_cancel, int_pending, int_ack}
use ll.Kd11ea.Int.Grant.{granted_lem, IsLevel, level_cases}

-- Of three requests of one level, cancelling the first makes the last one registered win.
pub int_ack-int_cancel :
    (a b c : IntRequest) (level cpu : ℕ)
    → a.priority ≡ level
    → b.priority ≡ level
    → c.priority ≡ level
    → IsLevel level
    → cpu < level
    → int_ack (int_cancel (record { queue = a ∷ b ∷ c ∷ [] }) a.vector) cpu
      ≡ some (c, record { queue = b ∷ [] })
unfolding int_ack int_pending int_cancel find_index swap_out
int_ack-int_cancel a b c level cpu ea eb ec h lt =
    ground (arith, granted_lem cpu (c ∷ b ∷ []), level_cases level h)
