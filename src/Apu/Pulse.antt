-- ===== src/Apu/Pulse.antt =====
-- `nes_apu_pulse_channel` (lib/inc/nes_apu.h) and its table of duty cycles (lib/src/nes_apu.cpp).
pub mod Fields
use neschan.Base.{
  ℕ, zero, suc, bit_and, bit_or, ◌<<<◌, ◌>>>◌, u8, u16, test_bits, Bool, List, [], ◌∷◌,
}

pub record Pulse : Type 0 where
  pub duty_cycle : ℕ  -- uint8_t
  pub length_counter_halt : Bool
  pub constant_volume : Bool
  pub volume : ℕ  -- uint8_t
  pub cur_timer : ℕ  -- uint16_t
  pub timer : ℕ  -- uint16_t
  pub length_counter : ℕ  -- uint8_t
  pub divider : ℕ  -- uint8_t
  pub sweep_enabled : Bool
  pub period : ℕ  -- uint8_t
  pub negate : Bool
  pub shift_count : ℕ  -- uint8_t

unfoldable pub init : Pulse → Pulse
init p = record p { cur_timer = 0; timer = 0 }

unfoldable pub write_duty : ℕ → Pulse → Pulse
write_duty val p = record p {
  duty_cycle = bit_and val 0xc0 >>> 6;
  length_counter_halt = test_bits val 0x20;
  constant_volume = test_bits val 0x10;
  volume = bit_and val 0x7;
}

unfoldable pub write_sweep : ℕ → Pulse → Pulse
write_sweep val p = record p {
  sweep_enabled = test_bits val 0x80;
  period = bit_and val 0x70 >>> 4;
  negate = test_bits val 0x8;
  shift_count = bit_and val 0x7;
}

unfoldable pub write_timer : ℕ → Pulse → Pulse
write_timer val p = record p { timer = bit_or p.timer val }

unfoldable pub write_length_counter : ℕ → Pulse → Pulse
write_length_counter val p =
    let timer = u16 (bit_or (bit_and p.timer 0xff) (bit_and val 0x7 <<< 8)) in
    record p { timer = timer; length_counter = val >>> 3; cur_timer = timer }

-- `s_duty_cycle`, a row for each duty cycle.
unfoldable pub s_duty_cycle : List (List ℕ)
s_duty_cycle =
    (0 ∷ 0 ∷ 0 ∷ 0 ∷ 0 ∷ 0 ∷ 0 ∷ 1 ∷ [])
    ∷ (0 ∷ 0 ∷ 0 ∷ 0 ∷ 0 ∷ 0 ∷ 1 ∷ 1 ∷ [])
    ∷ (0 ∷ 0 ∷ 0 ∷ 0 ∷ 1 ∷ 1 ∷ 1 ∷ 1 ∷ [])
    ∷ (1 ∷ 1 ∷ 1 ∷ 1 ∷ 1 ∷ 1 ∷ 0 ∷ 0 ∷ [])
    ∷ []
