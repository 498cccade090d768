-- ===== src/Cpu/Progress/Instr.antt =====
-- How long the instructions take: two cycles at least, but for `KIL`, which stops the system.
use neschan.Base.{ℕ, ◌+◌, ◌*◌, ◌≤◌, ◌≡◌, refl, arith, Bool, false, if◌then◌else◌, ◌==◌, ◌&&◌}
use neschan.Cpu.State.{Cpu, step_cpu, calc_alu_flag}
use neschan.Cpu.Alu.{set_a, shift_flags}
use neschan.Cpu.Operand.{
  AddrMode, OperandKind, kind_acc, kind_imm, kind_addr, imp, abs_jmp, ind_jmp, get_shift_cycle,
  get_inc_cycle, get_branch_cycle, pop_byte, decode_operand_addr,
}
use neschan.Cpu.Instr.{stop, read_instr, shift_instr, inc_instr, reg_instr}
use neschan.Cpu.Flow.{
  poke_kind, sta, store_instr, pha, php, pla, pull_status, plp, set_pc, rti, rts, jsr, jmp,
  jmp_from, take_branch, branch, brk, nop, nop_operand,
}
use neschan.Cpu.Unofficial.{sax, rmw_instr}
use neschan.System.State.{pure, get, on_cpu}
use neschan.Cpu.Progress.Takes.{
  Takes, Takes-then, Takes-get, Takes-if, Takes-fault, Takes-pure, Takes-first, Takes-registers,
  takes_rules, decode_byte-Takes, push_byte-Takes, push_word-Takes, pop_byte-Takes, pop_word-Takes,
}
use neschan.Cpu.Progress.Operands.{
  peek-Takes, poke-Takes, decode_operand-Takes, decode_operand_addr-Takes, read_operand-Takes,
  write_operand-Takes, step_operand-Takes, step_cpu-Takes,
}

-- A change of registers that leaves the clock alone.
abbrev pub IsQuiet : (Cpu → Cpu) → Type 0
IsQuiet f = (c : Cpu) → (f c).cycle ≡ c.cycle

ruleset instr_rules = (
  takes_rules, decode_byte-Takes, push_byte-Takes, push_word-Takes, pop_byte-Takes, pop_word-Takes,
  peek-Takes, poke-Takes, decode_operand-Takes, decode_operand_addr-Takes, read_operand-Takes,
  write_operand-Takes, step_operand-Takes,
)

pub stop-Takes : Takes 0 stop
unfolding stop pure
stop-Takes = record { at = λ s. omega arith }

pub read_instr-Takes :
    (f : ℕ → Cpu → Cpu) (mode : AddrMode) → ((v : ℕ) → IsQuiet (f v)) → Takes 6 (read_instr f mode)
unfolding read_instr
read_instr-Takes f mode h = search (instr_rules, λ (v : ℕ). Takes-registers (f v) (h v))

pub rmw_instr-Takes :
    (f : ℕ → ℕ → ℕ) (g : ℕ → ℕ → Cpu → Cpu) (mode : AddrMode)
    → ((v w : ℕ) → IsQuiet (g v w))
    → Takes 6 (rmw_instr f g mode)
unfolding rmw_instr
rmw_instr-Takes f g mode h =
    search (instr_rules, λ (v w : ℕ). Takes-registers (g v w) (h v w)) depth 8

shift_flags-IsQuiet : (b : Bool) (v : ℕ) → IsQuiet (shift_flags b v)
unfolding shift_flags
shift_flags-IsQuiet b v c = refl

pub shift_instr-Takes :
    (f : ℕ → ℕ → ℕ) (mask : ℕ) (mode : AddrMode)
    → 2 ≤ get_shift_cycle mode
    → Takes 6 (shift_instr f mask mode)
unfolding shift_instr
shift_instr-Takes f mask mode h =
    search
      (
        instr_rules,
        λ (b : Bool) (v : ℕ). Takes-registers (shift_flags b v) (shift_flags-IsQuiet b v),
        step_cpu-Takes (get_shift_cycle mode) 6 (omega arith),
      )
      depth 8

calc_alu_flag-IsQuiet : (v : ℕ) → IsQuiet (calc_alu_flag v)
unfolding calc_alu_flag
calc_alu_flag-IsQuiet v c = refl

pub inc_instr-Takes :
    (by : ℕ) (mode : AddrMode) → 2 ≤ get_inc_cycle mode → Takes 6 (inc_instr by mode)
unfolding inc_instr
inc_instr-Takes by mode h = search (
  instr_rules,
  λ (v : ℕ). Takes-registers (calc_alu_flag v) (calc_alu_flag-IsQuiet v),
  step_cpu-Takes (get_inc_cycle mode) 6 (omega arith),
)

pub reg_instr-Takes : (f : Cpu → Cpu) (n : ℕ) → 2 ≤ n → IsQuiet f → Takes 6 (reg_instr f n)
unfolding reg_instr
reg_instr-Takes f n h q =
    search (instr_rules, Takes-registers f q, step_cpu-Takes n 6 (omega arith))

poke_kind-Takes : (k : OperandKind) (a v : ℕ) → Takes 0 (poke_kind k a v)
unfolding poke_kind
poke_kind-Takes kind_acc a v = Takes-fault 0
poke_kind-Takes kind_imm a v = Takes-fault 0
poke_kind-Takes kind_addr a v = poke-Takes a v

pub sta-Takes : (mode : AddrMode) → Takes 6 (sta mode)
unfolding sta
sta-Takes mode = search (instr_rules, poke_kind-Takes)

pub store_instr-Takes : (reg : Cpu → ℕ) (mode : AddrMode) → Takes 6 (store_instr reg mode)
unfolding store_instr
store_instr-Takes reg mode = search (instr_rules, poke_kind-Takes)

pub sax-Takes : (mode : AddrMode) → Takes 6 (sax mode)
unfolding sax
sax-Takes mode = search instr_rules

pub pha-Takes : Takes 6 pha
unfolding pha
pha-Takes = search (instr_rules, step_cpu-Takes 3 6 (omega arith))

pub php-Takes : Takes 6 php
unfolding php
php-Takes = search (instr_rules, step_cpu-Takes 3 6 (omega arith))

set_a-IsQuiet : (v : ℕ) → IsQuiet (set_a v)
unfolding set_a
set_a-IsQuiet v c = refl

pub pla-Takes : Takes 6 pla
unfolding pla
pla-Takes = search (
  instr_rules,
  λ (v : ℕ). Takes-registers (set_a v) (set_a-IsQuiet v),
  step_cpu-Takes 4 6 (omega arith),
)

pull_status-Takes : Takes 0 pull_status
unfolding pull_status
pull_status-Takes = Takes-then 0 pop_byte _ pop_byte-Takes λ v. Takes-registers _ λ c. refl

pub plp-Takes : Takes 6 plp
unfolding plp
plp-Takes = search (instr_rules, pull_status-Takes, step_cpu-Takes 4 6 (omega arith))

pub set_pc-Takes : (a : ℕ) → Takes 0 (on_cpu (set_pc a))
unfolding set_pc
set_pc-Takes a = Takes-registers (set_pc a) λ c. refl

pub rti-Takes : Takes 6 rti
unfolding rti
rti-Takes = search (instr_rules, pull_status-Takes, set_pc-Takes, step_cpu-Takes 6 6 (omega arith))

pub rts-Takes : Takes 6 rts
unfolding rts
rts-Takes = search (instr_rules, set_pc-Takes, step_cpu-Takes 6 6 (omega arith))

pub jsr-Takes : (mode : AddrMode) → Takes 6 (jsr mode)
unfolding jsr
jsr-Takes mode = search (instr_rules, set_pc-Takes, step_cpu-Takes 6 6 (omega arith))

jmp_from-Takes : (mode : AddrMode) (n : ℕ) → 2 ≤ n → Takes 6 (jmp_from mode n)
unfolding jmp_from
jmp_from-Takes mode n h =
    Takes-then 6 (decode_operand_addr mode) _ (decode_operand_addr-Takes mode) λ r.
      Takes-then 6 (get (λ c. c.pc)) _ (Takes-get _) λ pc.
        Takes-then 6 (get (λ c. c.stop_at_infinite_loop)) _ (Takes-get _) λ looping.
          Takes-then 6 (if (r.0 + 1 == pc) && looping then stop else pure tt) _
            (Takes-if 0 _ stop (pure tt) stop-Takes (Takes-pure tt))
            λ _. search (instr_rules, set_pc-Takes, step_cpu-Takes n 6 (omega arith))

pub jmp-Takes : (mode : AddrMode) → Takes 6 (jmp mode)
unfolding jmp
jmp-Takes abs_jmp = jmp_from-Takes abs_jmp 3 (omega arith)
jmp-Takes ind_jmp = jmp_from-Takes ind_jmp 5 (omega arith)
jmp-Takes _ = Takes-fault 6

abbrev stop_looping : Cpu → Cpu
stop_looping c = record c { stop_at_infinite_loop = false }

stop_looping-Takes : Takes 0 (on_cpu stop_looping)
stop_looping-Takes = Takes-registers stop_looping λ c. refl

take_branch-Takes : (v : ℕ) → Takes 0 (take_branch v)
unfolding take_branch
take_branch-Takes v = search (instr_rules, stop-Takes, stop_looping-Takes)

branch_cycle-two : (b : Bool) (a v : ℕ) → 6 ≤ 3 * get_branch_cycle b a v
unfolding get_branch_cycle
branch_cycle-two b a v = ground arith

pub branch-Takes : (test : Cpu → Bool) → Takes 6 (branch test)
unfolding branch
branch-Takes test = search (
  instr_rules,
  take_branch-Takes,
  λ (b : Bool) (a v : ℕ). step_cpu-Takes (get_branch_cycle b a v) 6 (branch_cycle-two b a v),
)

pub brk-Takes : Takes 6 brk
unfolding brk
brk-Takes = Takes-first 6 (on_cpu (step_cpu 7)) _ (step_cpu-Takes 7 6 (omega arith)) λ _. stop-Takes

nop_operand-Takes : (mode : AddrMode) → Takes 6 (nop_operand mode)
unfolding nop_operand
nop_operand-Takes mode = search instr_rules

pub nop-Takes : (mode : AddrMode) → Takes 6 (nop mode)
unfolding nop
nop-Takes imp = step_cpu-Takes 2 6 (omega arith)
nop-Takes mode = nop_operand-Takes mode
