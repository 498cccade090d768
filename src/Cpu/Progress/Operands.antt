-- ===== src/Cpu/Progress/Operands.antt =====
-- Operands take no time, and `step_operand` takes two CPU cycles at least.
use neschan.Base.{ℕ, ◌*◌, ◌≤◌, refl, arith, Bool}
use neschan.Cpu.State.{step_cpu}
use neschan.System.State.{on_cpu}
use neschan.Cpu.Operand.{
  AddrMode, acc, imm, zp, zp_ind_x, zp_ind_y, abs, abs_x, abs_y, ind_x, ind_y, abs_jmp, ind_jmp,
  OperandKind, kind_acc, kind_imm, kind_addr, Operand, peek, poke, peek_split, peek_jmp,
  decode_operand_addr, addr_operand, decode_operand, read_operand, read_kind, write_operand,
  write_kind, get_cpu_cycle, step_operand,
}
use neschan.Cpu.Progress.Takes.{
  Takes, Takes-fault, Takes-pure, Takes-registers, Takes-on_cpu, takes_rules, peek_word-Takes,
  decode_byte-Takes, decode_word-Takes, get_byte-Takes, set_byte-Takes,
}

pub peek-Takes : (a : ℕ) → Takes 0 (peek a)
unfolding peek
peek-Takes a = get_byte-Takes a

pub poke-Takes : (a v : ℕ) → Takes 0 (poke a v)
unfolding poke
poke-Takes a v = set_byte-Takes a v

ruleset operand_rules =
    (takes_rules, decode_byte-Takes, decode_word-Takes, peek_word-Takes, peek-Takes)

peek_split-Takes : (a b : ℕ) → Takes 0 (peek_split a b)
unfolding peek_split
peek_split-Takes a b = search operand_rules

peek_jmp-Takes : (a : ℕ) → Takes 0 (peek_jmp a)
unfolding peek_jmp
peek_jmp-Takes a = search (operand_rules, peek_split-Takes)

pub decode_operand_addr-Takes : (mode : AddrMode) → Takes 0 (decode_operand_addr mode)
unfolding decode_operand_addr
decode_operand_addr-Takes zp = search operand_rules
decode_operand_addr-Takes zp_ind_x = search operand_rules
decode_operand_addr-Takes zp_ind_y = search operand_rules
decode_operand_addr-Takes ind_jmp = search (operand_rules, peek_jmp-Takes)
decode_operand_addr-Takes abs = search operand_rules
decode_operand_addr-Takes abs_jmp = search operand_rules
decode_operand_addr-Takes abs_x = search operand_rules
decode_operand_addr-Takes abs_y = search operand_rules
decode_operand_addr-Takes ind_x = search (operand_rules, peek_split-Takes)
decode_operand_addr-Takes ind_y = search (operand_rules, peek_split-Takes)
decode_operand_addr-Takes _ = Takes-fault 0

addr_operand-Takes : (mode : AddrMode) → Takes 0 (addr_operand mode)
unfolding addr_operand
addr_operand-Takes mode = search (operand_rules, decode_operand_addr-Takes)

pub decode_operand-Takes : (mode : AddrMode) → Takes 0 (decode_operand mode)
unfolding decode_operand
decode_operand-Takes acc = Takes-pure _
decode_operand-Takes imm = search operand_rules
decode_operand-Takes mode = addr_operand-Takes mode

read_kind-Takes : (k : OperandKind) (a : ℕ) → Takes 0 (read_kind k a)
unfolding read_kind
read_kind-Takes kind_acc a = search operand_rules
read_kind-Takes kind_imm a = search operand_rules
read_kind-Takes kind_addr a = peek-Takes a

pub read_operand-Takes : (op : Operand) → Takes 0 (read_operand op)
unfolding read_operand
read_operand-Takes op = read_kind-Takes op.kind op.addr_or_value

write_kind-Takes : (k : OperandKind) (a v : ℕ) → Takes 0 (write_kind k a v)
unfolding write_kind
write_kind-Takes kind_acc a v = Takes-registers _ λ c. refl
write_kind-Takes kind_imm a v = Takes-fault 0
write_kind-Takes kind_addr a v = poke-Takes a v

pub write_operand-Takes : (op : Operand) (v : ℕ) → Takes 0 (write_operand op v)
unfolding write_operand
write_operand-Takes op v = write_kind-Takes op.kind op.addr_or_value v

pub step_cpu-Takes : (n k : ℕ) → k ≤ 3 * n → Takes k (on_cpu (step_cpu n))
unfolding step_cpu
step_cpu-Takes n k h = Takes-on_cpu k (step_cpu n) λ c. omega arith

-- Two CPU cycles are six of the PPU.
pub step_operand-Takes :
    (crossing : Bool) (mode : AddrMode) (extra : ℕ) → Takes 6 (step_operand crossing mode extra)
unfolding step_operand get_cpu_cycle
step_operand-Takes crossing acc extra = step_cpu-Takes _ 6 (omega arith)
step_operand-Takes crossing imm extra = step_cpu-Takes _ 6 (omega arith)
step_operand-Takes crossing zp extra = step_cpu-Takes _ 6 (omega arith)
step_operand-Takes crossing zp_ind_x extra = step_cpu-Takes _ 6 (omega arith)
step_operand-Takes crossing zp_ind_y extra = step_cpu-Takes _ 6 (omega arith)
step_operand-Takes crossing abs extra = step_cpu-Takes _ 6 (omega arith)
step_operand-Takes crossing abs_x extra = step_cpu-Takes _ 6 (ground arith)
step_operand-Takes crossing abs_y extra = step_cpu-Takes _ 6 (ground arith)
step_operand-Takes crossing ind_x extra = step_cpu-Takes _ 6 (omega arith)
step_operand-Takes crossing ind_y extra = step_cpu-Takes _ 6 (ground arith)
step_operand-Takes crossing _ extra = Takes-fault 6
