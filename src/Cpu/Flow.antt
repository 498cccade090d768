-- ===== src/Cpu/Flow.antt =====
-- Stores, the stack, branches and jumps of lib/src/nes_cpu.cpp.
use neschan.Base.{
  ℕ, ◌+◌, bit_or, ◌==◌, if◌then◌else◌, u16, sign_extend, to_bool, Bool, true, false, not, ◌&&◌,
}
use neschan.Cpu.State.{Cpu, step_cpu, get_carry, is_zero, is_overflow, is_negative}
use neschan.Cpu.Alu.{set_a, plp_status}
use neschan.Cpu.Operand.{
  AddrMode, abs_jmp, ind_jmp, imp, kind_addr, kind_acc, kind_imm, OperandKind, poke, add_pc,
  decode_byte, push_byte, push_word, pop_byte, pop_word, decode_operand, decode_operand_addr,
  step_operand, get_branch_cycle,
}
use neschan.System.State.{M, pure, ◌>>=◌, ◌>>◌, fault, get, on_cpu}
use neschan.Cpu.Instr.{stop}

-- A store asserts that its operand is an address.
unfoldable pub poke_kind : OperandKind → ℕ → ℕ → M (Unit {0})
poke_kind kind_addr addr value = poke addr value
poke_kind kind_acc addr value = fault
poke_kind kind_imm addr value = fault

-- `STA`, which forces the timing of a page crossing.
unfoldable pub sta : AddrMode → M (Unit {0})
unfolding poke_kind
sta mode = do
  op ← decode_operand mode
  a ← get (λ c. c.a)
  poke_kind op.kind op.addr_or_value a
  step_operand true mode 0

-- `STX` and `STY`.
unfoldable pub store_instr : (Cpu → ℕ) → AddrMode → M (Unit {0})
unfolding poke_kind
store_instr reg mode = do
  op ← decode_operand mode
  val ← get reg
  poke_kind op.kind op.addr_or_value val
  step_operand op.is_page_crossing mode 0

unfoldable pub stx : AddrMode → M (Unit {0})
unfolding store_instr
stx = store_instr (λ c. c.x)

unfoldable pub sty : AddrMode → M (Unit {0})
unfolding store_instr
sty = store_instr (λ c. c.y)

unfoldable pub pha : M (Unit {0})
pha = do a ← get (λ c. c.a); push_byte a; on_cpu (step_cpu 3)

unfoldable pub php : M (Unit {0})
php = do p ← get (λ c. c.p); push_byte (bit_or p 0x30); on_cpu (step_cpu 3)

unfoldable pub pla : M (Unit {0})
pla = do val ← pop_byte; on_cpu (set_a val); on_cpu (step_cpu 4)

-- `_PLP`.
unfoldable pub pull_status : M (Unit {0})
pull_status = do val ← pop_byte; on_cpu (λ c. record c { p = plp_status val c.p })

unfoldable pub plp : M (Unit {0})
unfolding pull_status
plp = do pull_status; on_cpu (step_cpu 4)

unfoldable pub set_pc : ℕ → Cpu → Cpu
set_pc addr c = record c { pc = addr }

unfoldable pub rti : M (Unit {0})
unfolding pull_status set_pc
rti = do pull_status; addr ← pop_word; on_cpu (set_pc addr); on_cpu (step_cpu 6)

unfoldable pub rts : M (Unit {0})
unfolding set_pc
rts = do addr ← pop_word; on_cpu (set_pc (u16 (addr + 1))); on_cpu (step_cpu 6)

unfoldable pub jsr : AddrMode → M (Unit {0})
unfolding set_pc
jsr mode = do
  pc ← get (λ c. c.pc)
  push_word (u16 (pc + 1))
  r ← decode_operand_addr mode
  on_cpu (set_pc r.0)
  on_cpu (step_cpu 6)

-- `JMP` asserts its two modes. The `int` comparison `addr == PC() - 1` fails at `PC() == 0`.
unfoldable pub jmp_from : AddrMode → ℕ → M (Unit {0})
unfolding set_pc
jmp_from mode cycle = do
  r ← decode_operand_addr mode
  pc ← get (λ c. c.pc)
  looping ← get (λ c. c.stop_at_infinite_loop)
  if (r.0 + 1 == pc) && looping then stop else pure tt
  on_cpu (set_pc r.0)
  on_cpu (step_cpu cycle)

unfoldable pub jmp : AddrMode → M (Unit {0})
unfolding jmp_from
jmp abs_jmp = jmp_from abs_jmp 3
jmp ind_jmp = jmp_from ind_jmp 5
jmp _ = fault

-- `PC() += rel`, and the stop at a branch to itself (`rel == -2`).
unfoldable pub take_branch : ℕ → M (Unit {0})
unfolding add_pc
take_branch rel_byte = do
  on_cpu (add_pc (sign_extend rel_byte))
  looping ← get (λ c. c.stop_at_infinite_loop)
  if (rel_byte == 0xfe) && looping
      then stop >> on_cpu (λ c. record c { stop_at_infinite_loop = false })
      else pure tt

-- The condition is read before the operand.
unfoldable pub branch : (Cpu → Bool) → M (Unit {0})
unfolding take_branch
branch test = do
  cond ← get test
  rel_byte ← decode_byte
  if cond then take_branch rel_byte else pure tt
  pc ← get (λ c. c.pc)
  on_cpu (step_cpu (get_branch_cycle cond pc rel_byte))

unfoldable pub bcc : M (Unit {0})
unfolding branch
bcc = branch (λ c. not (to_bool (get_carry c)))

unfoldable pub bcs : M (Unit {0})
unfolding branch
bcs = branch (λ c. to_bool (get_carry c))

unfoldable pub beq : M (Unit {0})
unfolding branch
beq = branch is_zero

unfoldable pub bmi : M (Unit {0})
unfolding branch
bmi = branch is_negative

unfoldable pub bne : M (Unit {0})
unfolding branch
bne = branch (λ c. not (is_zero c))

unfoldable pub bpl : M (Unit {0})
unfolding branch
bpl = branch (λ c. not (is_negative c))

unfoldable pub bvc : M (Unit {0})
unfolding branch
bvc = branch (λ c. not (is_overflow c))

unfoldable pub bvs : M (Unit {0})
unfolding branch
bvs = branch is_overflow

unfoldable pub brk : M (Unit {0})
unfolding stop
brk = do on_cpu (step_cpu 7); stop

unfoldable pub kil : M (Unit {0})
unfolding stop
kil = stop

-- The unofficial forms decode their operand, and read nothing at it.
unfoldable pub nop_operand : AddrMode → M (Unit {0})
nop_operand mode = do op ← decode_operand mode; step_operand op.is_page_crossing mode 0

unfoldable pub nop : AddrMode → M (Unit {0})
unfolding nop_operand
nop imp = on_cpu (step_cpu 2)
nop mode = nop_operand mode
