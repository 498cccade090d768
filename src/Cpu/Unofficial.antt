-- ===== src/Cpu/Unofficial.antt =====
-- The unofficial instructions of lib/src/nes_cpu.cpp. Eight of them are `assert(false)`.
use neschan.Base.{ℕ, ◌+◌, bit_and, bit_or, bit_xor, u8, test_bits, true}
use neschan.Cpu.State.{Cpu, get_carry, set_carry_flag}
use neschan.Cpu.Alu.{
  adc_val, sbc_val, set_a, set_x, compare_flags, asl_val, lsr_val, rol_val, ror_val,
}
use neschan.Cpu.Operand.{AddrMode, decode_operand, read_operand, write_operand, step_operand}
use neschan.Cpu.Instr.{read_instr}
use neschan.System.State.{M, ◌>>=◌, ◌>>◌, fault, get, on_cpu}

unfoldable pub lax : AddrMode → M (Unit {0})
unfolding read_instr
lax = read_instr (λ val c. set_x val (record c { a = val }))

unfoldable pub sax : AddrMode → M (Unit {0})
sax mode = do
  op ← decode_operand mode
  val ← get (λ c. bit_and c.a c.x)
  write_operand op val
  step_operand op.is_page_crossing mode 0

-- Read, write `f carry val` back, then change the registers with the old and the new value. The
-- cycles are those of a page crossing, and two more.
unfoldable pub rmw_instr : (ℕ → ℕ → ℕ) → (ℕ → ℕ → Cpu → Cpu) → AddrMode → M (Unit {0})
rmw_instr f g mode = do
  op ← decode_operand mode
  val ← read_operand op
  carry ← get get_carry
  write_operand op (f carry val)
  on_cpu (g val (f carry val))
  step_operand true mode 2

unfoldable pub dcp : AddrMode → M (Unit {0})
unfolding rmw_instr
dcp = rmw_instr (λ _ val. u8 (val + 255)) (λ _ val c. compare_flags c.a val c)

unfoldable pub isc : AddrMode → M (Unit {0})
unfolding rmw_instr
isc = rmw_instr (λ _ val. u8 (val + 1)) (λ _ val. sbc_val val)

-- The carry of the shift, then the operation on `A` with the shifted value.
unfoldable pub carry_then : ℕ → (ℕ → Cpu → Cpu) → ℕ → ℕ → Cpu → Cpu
carry_then out_mask g val new_val c = g new_val (set_carry_flag (test_bits val out_mask) c)

unfoldable pub rla : AddrMode → M (Unit {0})
unfolding rmw_instr carry_then
rla = rmw_instr rol_val (carry_then 0x80 (λ val c. set_a (bit_and c.a val) c))

unfoldable pub rra : AddrMode → M (Unit {0})
unfolding rmw_instr carry_then
rra = rmw_instr ror_val (carry_then 0x1 adc_val)

unfoldable pub slo : AddrMode → M (Unit {0})
unfolding rmw_instr carry_then
slo = rmw_instr (λ _. asl_val) (carry_then 0x80 (λ val c. set_a (bit_or c.a val) c))

unfoldable pub sre : AddrMode → M (Unit {0})
unfolding rmw_instr carry_then
sre = rmw_instr (λ _. lsr_val) (carry_then 0x1 (λ val c. set_a (bit_xor c.a val) c))

-- `ALR`, `ANC`, `ARR`, `AXS`, `XAA`, `AHX`, `TAS`, `LAS`.
unfoldable pub not_implemented : M (Unit {0})
not_implemented = fault
