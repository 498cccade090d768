-- ===== src/Apu/Status.antt =====
-- The registers of `nes_apu` (lib/inc/nes_apu.h): its status and its frame counter.
use neschan.Base.{ℕ, ◌>>>◌, test_bits, Bool, true, false}

pub record Apu : Type 0 where
  pub dmc_enabled : Bool
  pub noise_enabled : Bool
  pub triangle_enabled : Bool
  pub pulse_2_enabled : Bool
  pub pulse_1_enabled : Bool
  pub frame_counter_mode : ℕ  -- uint8_t
  pub irq_inhibit : Bool

unfoldable init : Apu → Apu
init a = record a {
  dmc_enabled = false;
  noise_enabled = false;
  triangle_enabled = false;
  pulse_1_enabled = false;
  pulse_2_enabled = false;
  frame_counter_mode = 0;
  irq_inhibit = true;
}

-- The link to the system is left out: nothing of the class uses it.
unfoldable pub power_on : Apu → Apu
unfolding init
power_on a = init a

unfoldable pub reset : Apu → Apu
unfolding init
reset a = init a

unfoldable pub step_to : ℕ → Apu → Apu
step_to count a = a

unfoldable pub write_status : ℕ → Apu → Apu
write_status val a = record a {
  dmc_enabled = test_bits val 0x10;
  noise_enabled = test_bits val 0x8;
  triangle_enabled = test_bits val 0x4;
  pulse_2_enabled = test_bits val 0x2;
  pulse_1_enabled = test_bits val 0x1;
}

unfoldable pub read_status : Apu → ℕ
read_status a = 0

unfoldable pub write_frame_counter : ℕ → Apu → Apu
write_frame_counter val a = record a {
  frame_counter_mode = val >>> 7;
  irq_inhibit = test_bits val 0x40;
}

unfoldable pub write_pulse_1_duty : ℕ → Apu → Apu
write_pulse_1_duty val a = a

unfoldable pub write_pulse_1_sweep : ℕ → Apu → Apu
write_pulse_1_sweep val a = a

unfoldable pub write_pulse_1_timer_low : ℕ → Apu → Apu
write_pulse_1_timer_low val a = a

unfoldable pub write_pulse_1_length_counter : ℕ → Apu → Apu
write_pulse_1_length_counter val a = a
