-- ===== src/Cpu/Keeps/Operands.antt =====
-- The stack, the operands and the addressing modes, by the rules.
use neschan.Base.{ℕ, ◌+◌, Bool, Option, none, some}
use neschan.System.State.{System, fault, on_cpu}
use neschan.System.Bus.{get_word}
use neschan.Cpu.State.{step_cpu}
use neschan.Cpu.Operand.{
  AddrMode, acc, imm, zp, zp_ind_x, zp_ind_y, abs, abs_x, abs_y, ind_x, ind_y, abs_jmp, ind_jmp,
  OperandKind, kind_acc, kind_imm, kind_addr, Operand, peek, peek_word, poke, peek_split, peek_jmp,
  decode_byte, decode_word, push_byte, push_word, pop_byte, pop_word, decode_operand_addr,
  addr_operand, decode_operand, read_operand, read_kind, write_operand, write_kind, get_cpu_cycle,
  step_operand,
}
use neschan.Cpu.Keeps.{Keeps, IsOutside, Keeps-pure, Keeps-fault, Keeps-on_cpu, keeps_rules}

module _ {I : System → Type 0} (o : IsOutside I) where
  pub get_word-Keeps : (addr : ℕ) → Keeps I (get_word addr)
  unfolding get_word
  get_word-Keeps addr = search keeps_rules

  pub peek_word-Keeps : (addr : ℕ) → Keeps I (peek_word addr)
  unfolding peek_word
  peek_word-Keeps addr = get_word-Keeps addr

  pub peek-Keeps : (addr : ℕ) → Keeps I (peek addr)
  unfolding peek
  peek-Keeps addr = search keeps_rules

  pub poke-Keeps : (addr val : ℕ) → Keeps I (poke addr val)
  unfolding poke
  poke-Keeps addr val = search keeps_rules

  pub decode_byte-Keeps : Keeps I decode_byte
  unfolding decode_byte
  decode_byte-Keeps = search keeps_rules

  decode_word-Keeps : Keeps I decode_word
  unfolding decode_word
  decode_word-Keeps = search (keeps_rules, get_word-Keeps)

  pub push_byte-Keeps : (val : ℕ) → Keeps I (push_byte val)
  unfolding push_byte
  push_byte-Keeps val = search keeps_rules

  pub push_word-Keeps : (val : ℕ) → Keeps I (push_word val)
  unfolding push_word
  push_word-Keeps val = search (keeps_rules, push_byte-Keeps)

  pub pop_byte-Keeps : Keeps I pop_byte
  unfolding pop_byte
  pop_byte-Keeps = search keeps_rules

  pub pop_word-Keeps : Keeps I pop_word
  unfolding pop_word
  pop_word-Keeps = search (keeps_rules, pop_byte-Keeps)

  peek_split-Keeps : (a b : ℕ) → Keeps I (peek_split a b)
  unfolding peek_split
  peek_split-Keeps a b = search (keeps_rules, peek-Keeps)

  peek_jmp-Keeps : (a : ℕ) → Keeps I (peek_jmp a)
  unfolding peek_jmp
  peek_jmp-Keeps a = search (keeps_rules, peek_split-Keeps, peek_word-Keeps)

  pub decode_operand_addr-Keeps : (mode : AddrMode) → Keeps I (decode_operand_addr mode)
  unfolding decode_operand_addr
  decode_operand_addr-Keeps zp = search (keeps_rules, decode_byte-Keeps)
  decode_operand_addr-Keeps zp_ind_x = search (keeps_rules, decode_byte-Keeps)
  decode_operand_addr-Keeps zp_ind_y = search (keeps_rules, decode_byte-Keeps)
  decode_operand_addr-Keeps ind_jmp = search (keeps_rules, decode_word-Keeps, peek_jmp-Keeps)
  decode_operand_addr-Keeps abs = search (keeps_rules, decode_word-Keeps)
  decode_operand_addr-Keeps abs_jmp = search (keeps_rules, decode_word-Keeps)
  decode_operand_addr-Keeps abs_x = search (keeps_rules, decode_word-Keeps)
  decode_operand_addr-Keeps abs_y = search (keeps_rules, decode_word-Keeps)
  decode_operand_addr-Keeps ind_x = search (keeps_rules, decode_byte-Keeps, peek_split-Keeps)
  decode_operand_addr-Keeps ind_y = search (keeps_rules, decode_byte-Keeps, peek_split-Keeps)
  decode_operand_addr-Keeps _ = Keeps-fault

  addr_operand-Keeps : (mode : AddrMode) → Keeps I (addr_operand mode)
  unfolding addr_operand
  addr_operand-Keeps mode = search (keeps_rules, decode_operand_addr-Keeps)

  pub decode_operand-Keeps : (mode : AddrMode) → Keeps I (decode_operand mode)
  unfolding decode_operand
  decode_operand-Keeps acc = Keeps-pure _
  decode_operand-Keeps imm = search (keeps_rules, decode_byte-Keeps)
  decode_operand-Keeps mode = addr_operand-Keeps mode

  read_kind-Keeps : (k : OperandKind) (a : ℕ) → Keeps I (read_kind k a)
  unfolding read_kind
  read_kind-Keeps kind_acc a = search keeps_rules
  read_kind-Keeps kind_imm a = search keeps_rules
  read_kind-Keeps kind_addr a = peek-Keeps a

  pub read_operand-Keeps : (op : Operand) → Keeps I (read_operand op)
  unfolding read_operand
  read_operand-Keeps op = read_kind-Keeps op.kind op.addr_or_value

  write_kind-Keeps : (k : OperandKind) (a v : ℕ) → Keeps I (write_kind k a v)
  unfolding write_kind
  write_kind-Keeps kind_acc a v = search keeps_rules
  write_kind-Keeps kind_imm a v = Keeps-fault
  write_kind-Keeps kind_addr a v = poke-Keeps a v

  pub write_operand-Keeps : (op : Operand) (v : ℕ) → Keeps I (write_operand op v)
  unfolding write_operand
  write_operand-Keeps op v = write_kind-Keeps op.kind op.addr_or_value v

  timed :
      (r : Option ℕ) (extra : ℕ)
      → Keeps {A = Unit {0}} I (elim r [ none ↦ fault | some n ↦ on_cpu (step_cpu (n + extra)) ])
  timed none extra = Keeps-fault
  timed (some n) extra = Keeps-on_cpu (step_cpu (n + extra)) o

  pub step_operand-Keeps :
      (crossing : Bool) (mode : AddrMode) (extra : ℕ) → Keeps I (step_operand crossing mode extra)
  unfolding step_operand
  step_operand-Keeps crossing mode extra = timed (get_cpu_cycle crossing mode) extra
