-- ===== src/Cpu/Alu.antt =====
-- The arithmetic of the CPU, on its registers alone: `_ADC`, `_SBC`, the comparisons, the shifts and
-- the transfers of lib/src/nes_cpu.cpp.
pub mod Flags
pub mod Sum
pub mod Compare
use neschan.Base.{
  ℕ, ◌+◌, bit_and, bit_or, ◌<<<◌, ◌>>>◌, ◌==◌, ltb, leb, u8, not8, sub8, test_bits, Bool, not, ◌&&◌,
  ◌||◌,
}
use neschan.Cpu.State.{
  Cpu, set_carry_flag, set_zero_flag, set_overflow_flag, set_negative_flag, get_carry,
  calc_alu_flag,
}

unfoldable pub is_sign_overflow : ℕ → ℕ → ℕ → Bool
is_sign_overflow val1 val2 new_value =
    (bit_and val1 0x80 == bit_and val2 0x80) && not (bit_and val1 0x80 == bit_and new_value 0x80)

-- `_ADC`: the sum in two steps, with the overflow of each.
unfoldable pub adc_val : ℕ → Cpu → Cpu
unfolding is_sign_overflow set_overflow_flag set_carry_flag calc_alu_flag get_carry
adc_val val c =
    let sum = u8 (c.a + val) in
    let new_val = u8 (sum + get_carry c) in
    let bit7_overflow = ltb sum c.a || ltb new_val sum in
    calc_alu_flag new_val (
      set_carry_flag bit7_overflow
        (set_overflow_flag (is_sign_overflow c.a val new_val) (record c { a = new_val })))

unfoldable pub sbc_val : ℕ → Cpu → Cpu
unfolding adc_val
sbc_val val = adc_val (not8 val)

unfoldable pub set_a : ℕ → Cpu → Cpu
unfolding calc_alu_flag
set_a val c = calc_alu_flag val (record c { a = val })

unfoldable pub set_x : ℕ → Cpu → Cpu
unfolding calc_alu_flag
set_x val c = calc_alu_flag val (record c { x = val })

unfoldable pub set_y : ℕ → Cpu → Cpu
unfolding calc_alu_flag
set_y val c = calc_alu_flag val (record c { y = val })

-- The flags of `CMP`, `CPX`, `CPY` and `DCP`: register against value.
unfoldable pub compare_flags : ℕ → ℕ → Cpu → Cpu
unfolding set_carry_flag set_zero_flag set_negative_flag
compare_flags reg val c =
    let diff = sub8 reg val in
    set_negative_flag (test_bits diff 0x80)
      (set_zero_flag (diff == 0) (set_carry_flag (leb val reg) c))

-- The flags of the shifts: what was shifted out, and the result.
unfoldable pub shift_flags : Bool → ℕ → Cpu → Cpu
unfolding set_carry_flag calc_alu_flag
shift_flags out new_val c = calc_alu_flag new_val (set_carry_flag out c)

unfoldable pub asl_val : ℕ → ℕ
asl_val val = u8 (val <<< 1)

unfoldable pub lsr_val : ℕ → ℕ
lsr_val val = val >>> 1

unfoldable pub rol_val : ℕ → ℕ → ℕ
rol_val carry val = u8 (bit_or (val <<< 1) carry)

unfoldable pub ror_val : ℕ → ℕ → ℕ
ror_val carry val = bit_or (val >>> 1) (carry <<< 7)

unfoldable pub bit_flags : ℕ → Cpu → Cpu
unfolding set_zero_flag set_overflow_flag set_negative_flag
bit_flags val c =
    set_negative_flag (test_bits val 0x80)
      (set_overflow_flag (test_bits val 0x40) (set_zero_flag (bit_and val c.a == 0) c))

-- The status that `_PLP` makes of a pulled byte.
unfoldable pub plp_status : ℕ → ℕ → ℕ
plp_status pulled p = bit_or (bit_or (bit_and pulled 0xef) (bit_and p 0x10)) 0x20
