-- ===== src/Cpu/Keeps/Execute.antt =====
-- The instructions, by the rules.
use neschan.Base.{ℕ, Bool, true}
use neschan.Cpu.State.{Cpu}
use neschan.Cpu.Operand.{
  AddrMode, OperandKind, kind_acc, kind_imm, kind_addr, imp, abs_jmp, ind_jmp,
}
use neschan.Cpu.Instr.{stop, read_instr, shift_instr, inc_instr, reg_instr}
use neschan.Cpu.Flow.{
  poke_kind, sta, store_instr, pha, php, pla, pull_status, plp, rti, rts, jsr, jmp, jmp_from,
  take_branch, branch, brk, nop, nop_operand,
}
use neschan.Cpu.Unofficial.{sax, rmw_instr}
use neschan.System.State.{System, pure}
use neschan.Cpu.Keeps.{Keeps, IsOutside, Keeps-fault, keeps_rules}
use neschan.Cpu.Keeps.Operands.{
  peek-Keeps, poke-Keeps, decode_byte-Keeps, push_byte-Keeps, push_word-Keeps, pop_byte-Keeps,
  pop_word-Keeps, decode_operand_addr-Keeps, decode_operand-Keeps, read_operand-Keeps,
  write_operand-Keeps, step_operand-Keeps,
}

ruleset instr_rules = (
  keeps_rules, peek-Keeps, poke-Keeps, decode_byte-Keeps, push_byte-Keeps, push_word-Keeps,
  pop_byte-Keeps, pop_word-Keeps, decode_operand_addr-Keeps, decode_operand-Keeps,
  read_operand-Keeps, write_operand-Keeps, step_operand-Keeps,
)

module _ {I : System → Type 0} (o : IsOutside I) where
  pub stop-Keeps : Keeps I stop
  unfolding stop pure
  stop-Keeps = record { at = λ s i. o.stop true s i }

  pub read_instr-Keeps : (f : ℕ → Cpu → Cpu) (mode : AddrMode) → Keeps I (read_instr f mode)
  unfolding read_instr
  read_instr-Keeps f mode = search instr_rules depth 8

  pub rmw_instr-Keeps :
      (f : ℕ → ℕ → ℕ) (g : ℕ → ℕ → Cpu → Cpu) (mode : AddrMode) → Keeps I (rmw_instr f g mode)
  unfolding rmw_instr
  rmw_instr-Keeps f g mode = search instr_rules depth 8

  pub shift_instr-Keeps :
      (f : ℕ → ℕ → ℕ) (mask : ℕ) (mode : AddrMode) → Keeps I (shift_instr f mask mode)
  unfolding shift_instr
  shift_instr-Keeps f mask mode = search instr_rules depth 8

  pub inc_instr-Keeps : (by : ℕ) (mode : AddrMode) → Keeps I (inc_instr by mode)
  unfolding inc_instr
  inc_instr-Keeps by mode = search instr_rules depth 8

  pub reg_instr-Keeps : (f : Cpu → Cpu) (n : ℕ) → Keeps I (reg_instr f n)
  unfolding reg_instr
  reg_instr-Keeps f n = search instr_rules

  poke_kind-Keeps : (k : OperandKind) (a v : ℕ) → Keeps I (poke_kind k a v)
  unfolding poke_kind
  poke_kind-Keeps kind_acc a v = Keeps-fault
  poke_kind-Keeps kind_imm a v = Keeps-fault
  poke_kind-Keeps kind_addr a v = search instr_rules

  pub sta-Keeps : (mode : AddrMode) → Keeps I (sta mode)
  unfolding sta
  sta-Keeps mode = search (instr_rules, poke_kind-Keeps)

  pub store_instr-Keeps : (reg : Cpu → ℕ) (mode : AddrMode) → Keeps I (store_instr reg mode)
  unfolding store_instr
  store_instr-Keeps reg mode = search (instr_rules, poke_kind-Keeps)

  pub sax-Keeps : (mode : AddrMode) → Keeps I (sax mode)
  unfolding sax
  sax-Keeps mode = search instr_rules

  pub pha-Keeps : Keeps I pha
  unfolding pha
  pha-Keeps = search instr_rules

  pub php-Keeps : Keeps I php
  unfolding php
  php-Keeps = search instr_rules

  pub pla-Keeps : Keeps I pla
  unfolding pla
  pla-Keeps = search instr_rules

  pull_status-Keeps : Keeps I pull_status
  unfolding pull_status
  pull_status-Keeps = search instr_rules

  pub plp-Keeps : Keeps I plp
  unfolding plp
  plp-Keeps = search (instr_rules, pull_status-Keeps)

  pub rti-Keeps : Keeps I rti
  unfolding rti
  rti-Keeps = search (instr_rules, pull_status-Keeps)

  pub rts-Keeps : Keeps I rts
  unfolding rts
  rts-Keeps = search instr_rules

  pub jsr-Keeps : (mode : AddrMode) → Keeps I (jsr mode)
  unfolding jsr
  jsr-Keeps mode = search instr_rules

  jmp_from-Keeps : (mode : AddrMode) (n : ℕ) → Keeps I (jmp_from mode n)
  unfolding jmp_from
  jmp_from-Keeps mode n = search (instr_rules, stop-Keeps) depth 8

  pub jmp-Keeps : (mode : AddrMode) → Keeps I (jmp mode)
  unfolding jmp
  jmp-Keeps abs_jmp = jmp_from-Keeps abs_jmp 3
  jmp-Keeps ind_jmp = jmp_from-Keeps ind_jmp 5
  jmp-Keeps _ = Keeps-fault

  take_branch-Keeps : (v : ℕ) → Keeps I (take_branch v)
  unfolding take_branch
  take_branch-Keeps v = search (instr_rules, stop-Keeps)

  pub branch-Keeps : (test : Cpu → Bool) → Keeps I (branch test)
  unfolding branch
  branch-Keeps test = search (instr_rules, take_branch-Keeps)

  pub brk-Keeps : Keeps I brk
  unfolding brk
  brk-Keeps = search (instr_rules, stop-Keeps)

  nop_operand-Keeps : (mode : AddrMode) → Keeps I (nop_operand mode)
  unfolding nop_operand
  nop_operand-Keeps mode = search instr_rules

  pub nop-Keeps : (mode : AddrMode) → Keeps I (nop mode)
  unfolding nop
  nop-Keeps imp = search instr_rules
  nop-Keeps mode = nop_operand-Keeps mode
