-- ===== src/Input/Serial.antt =====
-- The serial protocol of a controller: strobe on, strobe off, eight reads (lib/inc/nes_input.h).
use neschan.Base.{
  ℕ, zero, suc, ◌<◌, ◌≡◌, refl, arith, bit_and, bit_or, ◌>>>◌, true, Option, none, some, List, [],
  ◌∷◌,
}
use neschan.Input.{
  Input, write_controller, read_controller, reload, reload_player, shift_out, poll_flags,
}

-- Reads in a row, and what they return.
unfoldable pub read_times : ℕ → ℕ → Input → Option (List ℕ × Input)
read_times zero id n = some ([], n)
read_times (suc k) id n = elim (read_controller id n) [
  | none ↦ none
  | some (v, n') ↦ elim (read_times k id n') [ none ↦ none | some (vs, m) ↦ some (v ∷ vs, m) ]
]

-- The byte a read gives for bit `i` of the buttons, bit 6 set as on the bus.
abbrev pub button_bit : ℕ → ℕ → ℕ
button_bit flags i = bit_or 0x40 (bit_and (flags >>> i) 0x1)

-- The eight bytes in the order A, B, Select, Start, Up, Down, Left, Right.
abbrev pub buttons : ℕ → List ℕ
buttons flags =
    button_bit flags 7
    ∷ button_bit flags 6
    ∷ button_bit flags 5
    ∷ button_bit flags 4
    ∷ button_bit flags 3
    ∷ button_bit flags 2
    ∷ button_bit flags 1
    ∷ button_bit flags 0
    ∷ []

-- The state once the strobe falls.
abbrev pub strobed : Input → Input
strobed n = write_controller 0 (write_controller 1 n)

abbrev pub results : Option (List ℕ × Input) → Option (List ℕ)
results none = none
results (some (vs, n)) = some vs

strobe_on : (n : Input) → write_controller 1 n ≡ record n { strobe_on = true }
unfolding write_controller
strobe_on n = ground arith

-- After the strobe has been set and cleared, eight reads of the first or of the second port give the
-- buttons that its device reports, from the high bit down, whatever the state was before; a ninth
-- read is undefined in the source.
pub read_times-strobed :
    (n : Input) (id : ℕ)
    → id < 2
    → (results (read_times 8 id (strobed n)) ≡ some (buttons (poll_flags (n.user_inputs id))))
      × (read_times 9 id (strobed n) ≡ none)
unfolding read_times write_controller read_controller reload reload_player shift_out
read_times-strobed n zero h = rw (strobe_on n) (refl, refl)
read_times-strobed n (suc zero) h = rw (strobe_on n) (refl, refl)
read_times-strobed n (suc (suc id)) h = absurd (omega arith)
