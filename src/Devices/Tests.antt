-- ===== src/Devices/Tests.antt =====
-- The devices at concrete inputs. The terminal is the list of what is typed, and forgets what is
-- printed.
use ll.Prelude.{ℕ, ◌≡◌, refl, Bool, true, false, Option, none, some, List, [], ◌∷◌}
use ll.Kd11ea.Int.{int_init}
use ll.Kd11ea.Int.Pending.{Pending}
use ll.Devices.{cpu_irq_set}
use ll.Devices.Quiet.{here}
use ll.Devices.Dl11.{
  Dl11, dl11_init, dl11_read, rx_poll, rx_vec, tx_vec, csr_ie, csr_done, is_set, dl11_rcsr,
}
use ll.Devices.Dl11.Interrupts.{dl11-Pending-enabled}
use ll.Devices.Dl11.Lines.{HasArrived, dl11_read-loses_interrupt}

abbrev typed : List ℕ → Bool
typed [] = false
typed (c ∷ cs) = true

abbrev take_key : List ℕ → Option ℕ × List ℕ
take_key [] = (none, [])
take_key (c ∷ cs) = (some c, cs)

abbrev print : ℕ → List ℕ → List ℕ
print c keys = keys

abbrev line : Dl11 (List ℕ)
line = dl11_init 9600 (65 ∷ [])

abbrev listening : Dl11 (List ℕ)
listening = record line { rcsr = csr_ie }

dl11-Pending-enabled_example :
    (Pending int_init rx_vec → is_set line.rcsr csr_ie ≡ true)
    × (Pending int_init tx_vec → is_set line.xcsr csr_ie ≡ true)
dl11-Pending-enabled_example =
    dl11-Pending-enabled typed take_key print 9600 (65 ∷ []) line int_init here

line_up : line.init_l ≡ true
unfolding dl11_init
line_up = refl

arrived : HasArrived typed take_key print listening 65
unfolding dl11_init
arrived = record { up = refl; room = refl; ready = refl; sent = refl }

dl11_read-loses_interrupt_example :
    let r = dl11_read typed take_key print 0 dl11_rcsr listening int_init in
    let t = rx_poll typed take_key print listening int_init in
    (r.device ≡ t.0)
    × (is_set r.word csr_done ≡ true)
    × (r.intc ≡ int_init)
    × (t.1 ≡ cpu_irq_set rx_vec 4 int_init)
dl11_read-loses_interrupt_example =
    dl11_read-loses_interrupt typed take_key print 0 listening int_init 65 arrived refl
