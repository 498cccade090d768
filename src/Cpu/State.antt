-- ===== src/Cpu/State.antt =====
-- The state of `nes_cpu` (lib/inc/nes_cpu.h), the registers of `nes_cpu_context` among its fields.
-- `_cycle` counts PPU cycles, three to a cycle of the CPU (lib/inc/nes_cycle.h).
use neschan.Base.{ℕ, ◌+◌, ◌*◌, bit_and, bit_or, ◌==◌, if◌then◌else◌, not8, test_bits, Bool, false}

pub record Cpu : Type 0 where
  pub a : ℕ  -- unsigned char
  pub x : ℕ  -- unsigned char
  pub y : ℕ  -- unsigned char
  pub pc : ℕ  -- unsigned short
  pub s : ℕ  -- unsigned char
  pub p : ℕ  -- unsigned char
  pub cycle : ℕ
  pub nmi_pending : Bool
  pub dma_pending : Bool
  pub dma_addr : ℕ  -- uint16_t
  pub stop_at_infinite_loop : Bool
  pub is_stop_at_addr : Bool
  pub stop_at_addr : ℕ  -- uint16_t

unfoldable pub power_on : Cpu → Cpu
power_on c = record c {
  cycle = 0;
  nmi_pending = false;
  dma_pending = false;
  is_stop_at_addr = false;
  stop_at_infinite_loop = false;
  p = 0x24;
  a = 0;
  x = 0;
  y = 0;
  s = 0xfd;
  pc = 0;
}

abbrev pub carry_mask : ℕ
carry_mask = 0x1

abbrev pub zero_mask : ℕ
zero_mask = 0x2

abbrev pub interrupt_mask : ℕ
interrupt_mask = 0x4

abbrev pub decimal_mask : ℕ
decimal_mask = 0x8

abbrev pub overflow_mask : ℕ
overflow_mask = 0x40

abbrev pub negative_mask : ℕ
negative_mask = 0x80

abbrev pub nmi_handler : ℕ
nmi_handler = 0xfffa

abbrev pub reset_handler : ℕ
reset_handler = 0xfffc

-- `P |= mask` or `P &= ~mask`.
unfoldable pub with_flag : ℕ → Bool → ℕ → ℕ
with_flag mask set p = if set then bit_or p mask else bit_and p (not8 mask)

unfoldable pub set_flag : ℕ → Bool → Cpu → Cpu
unfolding with_flag
set_flag mask set c = record c { p = with_flag mask set c.p }

unfoldable pub set_carry_flag : Bool → Cpu → Cpu
unfolding set_flag
set_carry_flag = set_flag carry_mask

unfoldable pub set_zero_flag : Bool → Cpu → Cpu
unfolding set_flag
set_zero_flag = set_flag zero_mask

unfoldable pub set_interrupt_flag : Bool → Cpu → Cpu
unfolding set_flag
set_interrupt_flag = set_flag interrupt_mask

unfoldable pub set_decimal_flag : Bool → Cpu → Cpu
unfolding set_flag
set_decimal_flag = set_flag decimal_mask

unfoldable pub set_overflow_flag : Bool → Cpu → Cpu
unfolding set_flag
set_overflow_flag = set_flag overflow_mask

unfoldable pub set_negative_flag : Bool → Cpu → Cpu
unfolding set_flag
set_negative_flag = set_flag negative_mask

unfoldable pub get_carry : Cpu → ℕ
get_carry c = bit_and c.p carry_mask

unfoldable pub is_zero : Cpu → Bool
is_zero c = test_bits c.p zero_mask

unfoldable pub is_overflow : Cpu → Bool
is_overflow c = test_bits c.p overflow_mask

unfoldable pub is_negative : Cpu → Bool
is_negative c = test_bits c.p negative_mask

unfoldable pub calc_alu_flag : ℕ → Cpu → Cpu
unfolding set_zero_flag set_negative_flag
calc_alu_flag value c = set_negative_flag (test_bits value 0x80) (set_zero_flag (value == 0) c)

-- `step_cpu`: a number of CPU cycles.
unfoldable pub step_cpu : ℕ → Cpu → Cpu
step_cpu cpu_cycle c = record c { cycle = c.cycle + 3 * cpu_cycle }
