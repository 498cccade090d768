-- ===== src/Cpu/Trace/Returns/Line.antt =====
-- A trace is always written: it reads so few bytes that no controller runs out of buttons.
use mathlib.Core.Path.{subst}
use neschan.Base.{ℕ, zero, suc, ◌+◌, ◌≤◌, ◌≡◌, arith, Bool, some}
use neschan.Base.Text.{Text, length}
use neschan.Cpu.State.{Cpu}
use neschan.Cpu.Operand.{
  AddrMode, imp, acc, imm, ind_jmp, rel, abs, abs_jmp, zp, zp_ind_x, zp_ind_y, abs_x, abs_y, ind_x,
  ind_y, peek, peek_word, peek_split, peek_jmp,
}
use neschan.Cpu.Trace.{
  append_value, append_zp, append_abs, append_zp_indexed, append_abs_indexed, append_ind_x,
  append_ind_y, append_operand, append_operand_str, append_bytes, append_registers, operand_size,
  op_str, get_op_str,
}
use neschan.Cpu.Trace.Columns.{get_op_str-Writes}
use neschan.System.State.{System, M}
use neschan.System.Hoare.{Holds}
use neschan.System.Bus.{get_word}
use neschan.Cpu.Trace.Returns.{
  IsFresh, Reads, Reads-pure, Reads-if, Reads-more, after, got, ended, get_byte-Reads, Reads-on_ppu,
}

peek-Reads : (addr : ℕ) → Reads 1 (peek addr)
unfolding peek
peek-Reads addr = get_byte-Reads addr

peek_word-Reads : (addr : ℕ) → Reads 2 (peek_word addr)
unfolding peek_word get_word
peek_word-Reads addr =
    after 1 1 2 _ _ (omega arith) (get_byte-Reads addr)
      λ lo. after 1 0 1 _ _ (omega arith) (get_byte-Reads _) λ hi. Reads-pure _

peek_split-Reads : (a b : ℕ) → Reads 2 (peek_split a b)
unfolding peek_split
peek_split-Reads a b =
    after 1 1 2 _ _ (omega arith) (peek-Reads a)
      λ lo. after 1 0 1 _ _ (omega arith) (peek-Reads b) λ hi. Reads-pure _

peek_jmp-Reads : (a : ℕ) → Reads 2 (peek_jmp a)
unfolding peek_jmp
peek_jmp-Reads a = Reads-if 2 _ _ _ (peek_split-Reads a _) (peek_word-Reads a)

append_value-Reads : (addr : ℕ) (str : Text) → Reads 1 (append_value addr str)
unfolding append_value
append_value-Reads addr str = after 1 0 1 _ _ (omega arith) (peek-Reads addr) λ val. Reads-pure _

append_zp-Reads :
    (f : ℕ → Text → M Text) (str : Text)
    → ((addr : ℕ) (text : Text) → Reads 1 (f addr text))
    → Reads 4 (append_zp f str)
unfolding append_zp
append_zp-Reads f str h =
    got 4 _ _ λ pc. after 1 1 4 _ _ (omega arith) (peek-Reads pc) λ addr. h addr _

append_abs-Reads :
    (f : ℕ → Text → M Text) (str : Text)
    → ((addr : ℕ) (text : Text) → Reads 1 (f addr text))
    → Reads 4 (append_abs f str)
unfolding append_abs
append_abs-Reads f str h =
    got 4 _ _ λ pc. after 2 1 4 _ _ (omega arith) (peek_word-Reads pc) λ addr. h addr _

append_zp_indexed-Reads :
    (index : Cpu → ℕ) (label : Text) (addr : ℕ) (str : Text)
    → Reads 1 (append_zp_indexed index label addr str)
unfolding append_zp_indexed
append_zp_indexed-Reads index label addr str = got 1 index _ λ i. append_value-Reads _ _

append_abs_indexed-Reads :
    (index : Cpu → ℕ) (label : Text) (addr : ℕ) (str : Text)
    → Reads 1 (append_abs_indexed index label addr str)
unfolding append_abs_indexed
append_abs_indexed-Reads index label addr str = got 1 index _ λ i. append_value-Reads _ _

-- At most four reads for an operand.
append_operand-Reads : (mode : AddrMode) (str : Text) → Reads 4 (append_operand mode str)
unfolding append_operand append_ind_x append_ind_y
append_operand-Reads imp str = ended 4 str
append_operand-Reads acc str = ended 4 _
append_operand-Reads imm str =
    got 4 _ _ λ pc. after 1 0 4 _ _ (omega arith) (peek-Reads pc) λ val. Reads-pure _
append_operand-Reads rel str =
    got 4 _ _ λ pc. after 1 0 4 _ _ (omega arith) (peek-Reads pc) λ val. Reads-pure _
append_operand-Reads zp str = append_zp-Reads _ str append_value-Reads
append_operand-Reads zp_ind_x str = append_zp-Reads _ str (append_zp_indexed-Reads (λ c. c.x) _)
append_operand-Reads zp_ind_y str = append_zp-Reads _ str (append_zp_indexed-Reads (λ c. c.y) _)
append_operand-Reads abs_jmp str = append_abs-Reads _ str λ addr text. ended 1 text
append_operand-Reads abs str = append_abs-Reads _ str append_value-Reads
append_operand-Reads abs_x str = append_abs-Reads _ str (append_abs_indexed-Reads (λ c. c.x) _)
append_operand-Reads abs_y str = append_abs-Reads _ str (append_abs_indexed-Reads (λ c. c.y) _)
append_operand-Reads ind_jmp str = got 4 _ _ λ pc.
    after 2 2 4 _ _ (omega arith) (peek_word-Reads pc)
      λ addr. after 2 0 2 _ _ (omega arith) (peek_jmp-Reads addr) λ target. Reads-pure _
append_operand-Reads ind_x str = got 4 _ _ λ pc.
    after 1 3 4 _ _ (omega arith) (peek-Reads pc) λ addr.
      got 3 _ _ λ x.
        after 2 1 3 _ _ (omega arith) (peek_split-Reads _ _) λ final_addr. append_value-Reads _ _
append_operand-Reads ind_y str = got 4 _ _ λ pc.
    after 1 3 4 _ _ (omega arith) (peek-Reads pc) λ addr.
      after 2 1 3 _ _ (omega arith) (peek_split-Reads addr _)
        λ base. got 1 _ _ λ y. append_value-Reads _ _

append_bytes-Reads : (left addr : ℕ) (str : Text) → Reads left (append_bytes left addr str)
unfolding append_bytes
append_bytes-Reads zero addr str = Reads-pure str
append_bytes-Reads (suc left) addr str =
    after 1 left (suc left) _ _ (omega arith) (peek-Reads _)
      λ val. append_bytes-Reads left (addr + 1) _

append_registers-Reads : (str : Text) → Reads 0 (append_registers str)
unfolding append_registers
append_registers-Reads str =
    got 0 _ _ λ a.
      got 0 _ _ λ x. got 0 _ _ λ y. got 0 _ _ λ p. got 0 _ _ λ s. got 0 _ _ λ cycle. Reads-pure _

operand_size-few : (mode : AddrMode) → operand_size mode + 1 ≤ 3
unfolding operand_size
operand_size-few imp = omega arith
operand_size-few acc = omega arith
operand_size-few imm = omega arith
operand_size-few rel = omega arith
operand_size-few zp = omega arith
operand_size-few zp_ind_x = omega arith
operand_size-few zp_ind_y = omega arith
operand_size-few abs_jmp = omega arith
operand_size-few abs = omega arith
operand_size-few abs_x = omega arith
operand_size-few abs_y = omega arith
operand_size-few ind_jmp = omega arith
operand_size-few ind_x = omega arith
operand_size-few ind_y = omega arith

op_str-Reads :
    (op : Text) (mode : AddrMode) (is_official : Bool) → Reads 7 (op_str op mode is_official)
unfolding op_str append_operand_str
op_str-Reads op mode is_official = got 7 _ _ λ pc.
    after 3 4 7 _ _ (omega arith)
      (Reads-more _ 3 _ (operand_size-few mode) (append_bytes-Reads (operand_size mode + 1) _ _))
      λ str.
        after 4 0 4 _ _ (omega arith) (append_operand-Reads mode _) λ text. append_registers-Reads _

get_op_str-Reads :
    (op : Text) (mode : AddrMode) (is_official : Bool) → Reads 7 (get_op_str op mode is_official)
unfolding get_op_str
get_op_str-Reads op mode is_official = after 0 7 7 _ _ (omega arith) (Reads-on_ppu _) λ u.
    after 7 0 7 _ _ (omega arith) (op_str-Reads op mode is_official)
      λ str. after 0 0 0 _ _ (omega arith) (Reads-on_ppu _) λ v. Reads-pure str

-- The trace of an instruction with a mnemonic of three letters is written in every addressing mode, as
-- one line of 81 columns, whatever the operand and the registers are, when each of the two controllers
-- has seven bits left to read.
pub get_op_str-line :
    (op : Text) (mode : AddrMode) (is_official : Bool) (s : System)
    → length op ≡ 3
    → IsFresh 7 s.input
    → (text : Text) × (t : System) × (get_op_str op mode is_official s ≡ some (text, t))
      × (length text ≡ 81)
get_op_str-line op mode is_official s h f =
    let q = (get_op_str-Reads op mode is_official).at s 0 f in
    (
      q.0,
      q.1,
      q.2,
      subst (λ r. Holds r (λ text _. length text ≡ 81)) q.2
          ((get_op_str-Writes op mode is_official h).at s),
    )
