-- ===== src/Cpu/Instr.antt =====
-- The official instructions, one function for each member function of lib/src/nes_cpu.cpp.
use neschan.Base.{ℕ, ◌+◌, bit_and, bit_or, bit_xor, u8, test_bits, true, false}
use neschan.Cpu.State.{
  Cpu, step_cpu, set_carry_flag, set_interrupt_flag, set_decimal_flag, set_overflow_flag, get_carry,
  calc_alu_flag,
}
use neschan.Cpu.Alu.{
  adc_val, sbc_val, set_a, set_x, set_y, compare_flags, shift_flags, asl_val, lsr_val, rol_val,
  ror_val, bit_flags,
}
use neschan.Cpu.Operand.{
  AddrMode, peek, poke, decode_operand, decode_operand_addr, read_operand, write_operand,
  step_operand, get_shift_cycle, get_inc_cycle,
}
use neschan.System.State.{M, pure, ◌>>=◌, ◌>>◌, get, on_cpu}

-- `_system->stop()`.
unfoldable pub stop : M (Unit {0})
stop s = pure tt (record s { stop_requested = true })

-- The instructions that read an operand and then only change registers.
unfoldable pub read_instr : (ℕ → Cpu → Cpu) → AddrMode → M (Unit {0})
read_instr f mode = do
  op ← decode_operand mode
  val ← read_operand op
  on_cpu (f val)
  step_operand op.is_page_crossing mode 0

unfoldable pub adc : AddrMode → M (Unit {0})
unfolding read_instr
adc = read_instr adc_val

unfoldable pub and_a : AddrMode → M (Unit {0})
unfolding read_instr
and_a = read_instr (λ val c. set_a (bit_and c.a val) c)

unfoldable pub cmp : AddrMode → M (Unit {0})
unfolding read_instr
cmp = read_instr (λ val c. compare_flags c.a val c)

unfoldable pub eor : AddrMode → M (Unit {0})
unfolding read_instr
eor = read_instr (λ val c. set_a (bit_xor c.a val) c)

unfoldable pub ora : AddrMode → M (Unit {0})
unfolding read_instr
ora = read_instr (λ val c. set_a (bit_or c.a val) c)

unfoldable pub sbc : AddrMode → M (Unit {0})
unfolding read_instr
sbc = read_instr sbc_val

unfoldable pub lda : AddrMode → M (Unit {0})
unfolding read_instr
lda = read_instr set_a

unfoldable pub ldx : AddrMode → M (Unit {0})
unfolding read_instr
ldx = read_instr set_x

unfoldable pub ldy : AddrMode → M (Unit {0})
unfolding read_instr
ldy = read_instr set_y

unfoldable pub cpx : AddrMode → M (Unit {0})
unfolding read_instr
cpx = read_instr (λ val c. compare_flags c.x val c)

unfoldable pub cpy : AddrMode → M (Unit {0})
unfolding read_instr
cpy = read_instr (λ val c. compare_flags c.y val c)

unfoldable pub bit : AddrMode → M (Unit {0})
unfolding read_instr
bit = read_instr bit_flags

-- `ASL`, `LSR`, `ROL`, `ROR`: read, write back, set the flags. The carry is read before it is set.
unfoldable pub shift_instr : (ℕ → ℕ → ℕ) → ℕ → AddrMode → M (Unit {0})
shift_instr f out_mask mode = do
  op ← decode_operand mode
  val ← read_operand op
  carry ← get get_carry
  write_operand op (f carry val)
  on_cpu (shift_flags (test_bits val out_mask) (f carry val))
  on_cpu (step_cpu (get_shift_cycle mode))

unfoldable pub asl : AddrMode → M (Unit {0})
unfolding shift_instr
asl = shift_instr (λ _. asl_val) 0x80

unfoldable pub lsr : AddrMode → M (Unit {0})
unfolding shift_instr
lsr = shift_instr (λ _. lsr_val) 0x1

unfoldable pub rol : AddrMode → M (Unit {0})
unfolding shift_instr
rol = shift_instr rol_val 0x80

unfoldable pub ror : AddrMode → M (Unit {0})
unfolding shift_instr
ror = shift_instr ror_val 0x1

-- `DEC` and `INC`, which add 255 or 1.
unfoldable pub inc_instr : ℕ → AddrMode → M (Unit {0})
inc_instr by mode = do
  r ← decode_operand_addr mode
  val ← peek r.0
  poke r.0 (u8 (val + by))
  on_cpu (calc_alu_flag (u8 (val + by)))
  on_cpu (step_cpu (get_inc_cycle mode))

unfoldable pub dec : AddrMode → M (Unit {0})
unfolding inc_instr
dec = inc_instr 255

unfoldable pub inc : AddrMode → M (Unit {0})
unfolding inc_instr
inc = inc_instr 1

-- The instructions on registers alone.
unfoldable pub reg_instr : (Cpu → Cpu) → ℕ → M (Unit {0})
reg_instr f cycle = do on_cpu f; on_cpu (step_cpu cycle)

unfoldable pub dex : M (Unit {0})
unfolding reg_instr
dex = reg_instr (λ c. set_x (u8 (c.x + 255)) c) 2

unfoldable pub dey : M (Unit {0})
unfolding reg_instr
dey = reg_instr (λ c. set_y (u8 (c.y + 255)) c) 2

unfoldable pub inx : M (Unit {0})
unfolding reg_instr
inx = reg_instr (λ c. set_x (u8 (c.x + 1)) c) 2

unfoldable pub iny : M (Unit {0})
unfolding reg_instr
iny = reg_instr (λ c. set_y (u8 (c.y + 1)) c) 2

unfoldable pub tax : M (Unit {0})
unfolding reg_instr
tax = reg_instr (λ c. set_x c.a c) 2

unfoldable pub tay : M (Unit {0})
unfolding reg_instr
tay = reg_instr (λ c. set_y c.a c) 2

unfoldable pub tsx : M (Unit {0})
unfolding reg_instr
tsx = reg_instr (λ c. set_x c.s c) 2

unfoldable pub txa : M (Unit {0})
unfolding reg_instr
txa = reg_instr (λ c. set_a c.x c) 2

unfoldable pub txs : M (Unit {0})
unfolding reg_instr
txs = reg_instr (λ c. record c { s = c.x }) 2

unfoldable pub tya : M (Unit {0})
unfolding reg_instr
tya = reg_instr (λ c. set_a c.y c) 2

unfoldable pub clc : M (Unit {0})
unfolding reg_instr
clc = reg_instr (set_carry_flag false) 2

unfoldable pub cld : M (Unit {0})
unfolding reg_instr
cld = reg_instr (set_decimal_flag false) 2

unfoldable pub cli : M (Unit {0})
unfolding reg_instr
cli = reg_instr (set_interrupt_flag false) 2

unfoldable pub clv : M (Unit {0})
unfolding reg_instr
clv = reg_instr (set_overflow_flag false) 2

unfoldable pub sec : M (Unit {0})
unfolding reg_instr
sec = reg_instr (set_carry_flag true) 2

unfoldable pub sed : M (Unit {0})
unfolding reg_instr
sed = reg_instr (set_decimal_flag true) 2

unfoldable pub sei : M (Unit {0})
unfolding reg_instr
sei = reg_instr (set_interrupt_flag true) 2
