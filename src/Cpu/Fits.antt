-- ===== src/Cpu/Fits.antt =====
-- The registers of the CPU stay within their C types (lib/inc/nes_cpu.h).
use neschan.Base.{ℕ, ◌<◌, arith, Bool, true, false, ◌==◌, not8}
use neschan.Base.Widths.{or_byte, bit_and-le, bit_and-le_left}
use neschan.Cpu.State.{
  Cpu, with_flag, set_flag, set_carry_flag, set_zero_flag, set_overflow_flag, set_negative_flag,
  set_interrupt_flag, set_decimal_flag, calc_alu_flag, step_cpu,
}
use neschan.Cpu.Alu.{
  adc_val, sbc_val, set_a, set_x, set_y, compare_flags, shift_flags, bit_flags, plp_status,
}
use neschan.Cpu.Operand.{add_pc, step_s}
use neschan.Cpu.Flow.{set_pc}

-- The ranges of `unsigned char` and of `unsigned short`.
pub record CpuFits (c : Cpu) : Type 0 where
  pub a : c.a < 256
  pub x : c.x < 256
  pub y : c.y < 256
  pub s : c.s < 256
  pub p : c.p < 256
  pub pc : c.pc < 0x10000
  pub dma_addr : c.dma_addr < 0x10000
  pub stop_at_addr : c.stop_at_addr < 0x10000

with_flag-lt : (mask : ℕ) (b : Bool) (p : ℕ) → mask < 256 → p < 256 → with_flag mask b p < 256
unfolding with_flag
with_flag-lt mask true p hm hp = or_byte p mask hp hm
with_flag-lt mask false p hm hp = omega (arith, bit_and-le_left p (not8 mask))

set_flag-CpuFits :
    (mask : ℕ) (b : Bool) (c : Cpu) → mask < 256 → CpuFits c → CpuFits (set_flag mask b c)
unfolding set_flag
set_flag-CpuFits mask b c h f = omega (arith, with_flag-lt mask b c.p h f.p)

pub set_carry_flag-CpuFits : (b : Bool) (c : Cpu) → CpuFits c → CpuFits (set_carry_flag b c)
unfolding set_carry_flag
set_carry_flag-CpuFits b c f = set_flag-CpuFits 0x1 b c (omega arith) f

set_zero_flag-CpuFits : (b : Bool) (c : Cpu) → CpuFits c → CpuFits (set_zero_flag b c)
unfolding set_zero_flag
set_zero_flag-CpuFits b c f = set_flag-CpuFits 0x2 b c (omega arith) f

pub set_interrupt_flag-CpuFits : (b : Bool) (c : Cpu) → CpuFits c → CpuFits (set_interrupt_flag b c)
unfolding set_interrupt_flag
set_interrupt_flag-CpuFits b c f = set_flag-CpuFits 0x4 b c (omega arith) f

pub set_decimal_flag-CpuFits : (b : Bool) (c : Cpu) → CpuFits c → CpuFits (set_decimal_flag b c)
unfolding set_decimal_flag
set_decimal_flag-CpuFits b c f = set_flag-CpuFits 0x8 b c (omega arith) f

pub set_overflow_flag-CpuFits : (b : Bool) (c : Cpu) → CpuFits c → CpuFits (set_overflow_flag b c)
unfolding set_overflow_flag
set_overflow_flag-CpuFits b c f = set_flag-CpuFits 0x40 b c (omega arith) f

set_negative_flag-CpuFits : (b : Bool) (c : Cpu) → CpuFits c → CpuFits (set_negative_flag b c)
unfolding set_negative_flag
set_negative_flag-CpuFits b c f = set_flag-CpuFits 0x80 b c (omega arith) f

pub calc_alu_flag-CpuFits : (v : ℕ) (c : Cpu) → CpuFits c → CpuFits (calc_alu_flag v c)
unfolding calc_alu_flag
calc_alu_flag-CpuFits v c f = set_negative_flag-CpuFits _ _ (set_zero_flag-CpuFits (v == 0) c f)

-- The functions of `_ALU`, of the loads and of the flags.
pub set_a-CpuFits : (v : ℕ) (c : Cpu) → v < 256 → CpuFits c → CpuFits (set_a v c)
unfolding set_a
set_a-CpuFits v c h f = calc_alu_flag-CpuFits v (record c { a = v }) (omega arith)

pub set_x-CpuFits : (v : ℕ) (c : Cpu) → v < 256 → CpuFits c → CpuFits (set_x v c)
unfolding set_x
set_x-CpuFits v c h f = calc_alu_flag-CpuFits v (record c { x = v }) (omega arith)

pub set_y-CpuFits : (v : ℕ) (c : Cpu) → v < 256 → CpuFits c → CpuFits (set_y v c)
unfolding set_y
set_y-CpuFits v c h f = calc_alu_flag-CpuFits v (record c { y = v }) (omega arith)

pub adc_val-CpuFits : (v : ℕ) (c : Cpu) → CpuFits c → CpuFits (adc_val v c)
unfolding adc_val
adc_val-CpuFits v c f =
    calc_alu_flag-CpuFits _ _
      (set_carry_flag-CpuFits _ _ (set_overflow_flag-CpuFits _ _ (omega arith)))

pub sbc_val-CpuFits : (v : ℕ) (c : Cpu) → CpuFits c → CpuFits (sbc_val v c)
unfolding sbc_val
sbc_val-CpuFits v c f = adc_val-CpuFits (not8 v) c f

pub compare_flags-CpuFits : (reg v : ℕ) (c : Cpu) → CpuFits c → CpuFits (compare_flags reg v c)
unfolding compare_flags
compare_flags-CpuFits reg v c f =
    set_negative_flag-CpuFits _ _ (set_zero_flag-CpuFits _ _ (set_carry_flag-CpuFits _ c f))

pub shift_flags-CpuFits : (b : Bool) (v : ℕ) (c : Cpu) → CpuFits c → CpuFits (shift_flags b v c)
unfolding shift_flags
shift_flags-CpuFits b v c f = calc_alu_flag-CpuFits v _ (set_carry_flag-CpuFits b c f)

pub bit_flags-CpuFits : (v : ℕ) (c : Cpu) → CpuFits c → CpuFits (bit_flags v c)
unfolding bit_flags
bit_flags-CpuFits v c f =
    set_negative_flag-CpuFits _ _ (set_overflow_flag-CpuFits _ _ (set_zero_flag-CpuFits _ c f))

pub plp_status-lt : (v p : ℕ) → v < 256 → p < 256 → plp_status v p < 256
unfolding plp_status
plp_status-lt v p hv hp =
    or_byte _ 0x20
      (or_byte _ _ (omega (arith, bit_and-le v 0xef)) (omega (arith, bit_and-le p 0x10)))
      (omega arith)

pub add_pc-CpuFits : (n : ℕ) (c : Cpu) → CpuFits c → CpuFits (add_pc n c)
unfolding add_pc
add_pc-CpuFits n c f = omega arith

pub step_s-CpuFits : (n : ℕ) (c : Cpu) → CpuFits c → CpuFits (step_s n c)
unfolding step_s
step_s-CpuFits n c f = omega arith

pub set_pc-CpuFits : (addr : ℕ) (c : Cpu) → addr < 0x10000 → CpuFits c → CpuFits (set_pc addr c)
unfolding set_pc
set_pc-CpuFits addr c h f = omega arith

pub step_cpu-CpuFits : (n : ℕ) (c : Cpu) → CpuFits c → CpuFits (step_cpu n c)
unfolding step_cpu
step_cpu-CpuFits n c f = omega arith
