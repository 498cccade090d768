-- ===== src/System/Fits/Operands.antt =====
-- Addresses have 16 bits and operands 8, in every addressing mode.
use neschan.Base.{ℕ, ◌+◌, ◌<◌, arith, bit_and, ◌>>>◌, ◌==◌, Bool, Option, none, some}
use neschan.Base.Widths.{widths, bit_and-le}
use neschan.Cpu.State.{step_cpu}
use neschan.Cpu.Fits.{add_pc-CpuFits, step_s-CpuFits, step_cpu-CpuFits}
use neschan.Cpu.Operand.{
  AddrMode, acc, imm, zp, zp_ind_x, zp_ind_y, abs, abs_x, abs_y, ind_x, ind_y, abs_jmp, ind_jmp,
  OperandKind, kind_acc, kind_imm, kind_addr, Operand, peek, peek_word, poke, peek_split, peek_jmp,
  indexed, add_pc, step_s, decode_byte, decode_word, push_byte, push_word, pop_byte, pop_word,
  decode_operand_addr, addr_operand, decode_operand, read_operand, read_kind, write_operand,
  write_kind, get_cpu_cycle, step_operand,
}
use neschan.System.State.{M, ◌>>=◌, fault, get, on_cpu}
use neschan.System.Fits.{
  Fitting, Byte, Word, Quietly, Fitting-then, Fitting-if, Fitting-pure, Fitting-fault, Fitting-get,
  Fitting-on_cpu,
}
use neschan.System.Fits.Ports.{get_byte-Fitting, get_word-Fitting, set_byte-Fitting}

pub peek-Fitting : (addr : ℕ) → Fitting Byte (peek addr)
unfolding peek
peek-Fitting addr = get_byte-Fitting addr

pub peek_word-Fitting : (addr : ℕ) → Fitting Word (peek_word addr)
unfolding peek_word
peek_word-Fitting addr = get_word-Fitting addr

pub poke-Fitting : (addr v : ℕ) → v < 256 → Quietly (poke addr v)
unfolding poke
poke-Fitting addr v lt = set_byte-Fitting addr v lt

-- What the registers hold.
pub get_a : Fitting Byte (get (λ c. c.a))
get_a = Fitting-get (λ c. c.a) λ c f. f.a

get_x : Fitting Byte (get (λ c. c.x))
get_x = Fitting-get (λ c. c.x) λ c f. f.x

get_y : Fitting Byte (get (λ c. c.y))
get_y = Fitting-get (λ c. c.y) λ c f. f.y

get_s : Fitting Byte (get (λ c. c.s))
get_s = Fitting-get (λ c. c.s) λ c f. f.s

pub get_pc : Fitting Word (get (λ c. c.pc))
get_pc = Fitting-get (λ c. c.pc) λ c f. f.pc

pub get_p : Fitting Byte (get (λ c. c.p))
get_p = Fitting-get (λ c. c.p) λ c f. f.p

pub decode_byte-Fitting : Fitting Byte decode_byte
unfolding decode_byte
decode_byte-Fitting = Fitting-then _ _ get_pc λ pc _.
    Fitting-then _ _ (Fitting-on_cpu (add_pc 1) (add_pc-CpuFits 1)) λ _ _. get_byte-Fitting pc

decode_word-Fitting : Fitting Word decode_word
unfolding decode_word
decode_word-Fitting = Fitting-then _ _ get_pc λ pc _.
    Fitting-then _ _ (get_word-Fitting pc) λ word h.
      Fitting-then _ _ (Fitting-on_cpu (add_pc 2) (add_pc-CpuFits 2)) λ _ _. Fitting-pure word h

pub push_byte-Fitting : (v : ℕ) → v < 256 → Quietly (push_byte v)
unfolding push_byte
push_byte-Fitting v lt = Fitting-then _ _ get_s λ s _.
    Fitting-then _ _ (set_byte-Fitting (s + 0x100) v lt)
      λ _ _. Fitting-on_cpu (step_s 255) (step_s-CpuFits 255)

pub push_word-Fitting : (v : ℕ) → v < 0x10000 → Quietly (push_word v)
unfolding push_word
push_word-Fitting v lt =
    Fitting-then _ _ (push_byte-Fitting (v >>> 8) (omega arith))
      λ _ _. push_byte-Fitting (bit_and v 0xff) (omega widths)

pub pop_byte-Fitting : Fitting Byte pop_byte
unfolding pop_byte
pop_byte-Fitting =
    Fitting-then _ _ (Fitting-on_cpu (step_s 1) (step_s-CpuFits 1))
      λ _ _. Fitting-then _ _ get_s λ s _. get_byte-Fitting (s + 0x100)

pub pop_word-Fitting : Fitting Word pop_word
unfolding pop_word
pop_word-Fitting =
    Fitting-then _ _ pop_byte-Fitting
      λ lo hl. Fitting-then _ _ pop_byte-Fitting λ hi hh. Fitting-pure _ (omega arith)

peek_split-Fitting : (a b : ℕ) → Fitting Word (peek_split a b)
unfolding peek_split
peek_split-Fitting a b =
    Fitting-then _ _ (peek-Fitting a)
      λ lo hl. Fitting-then _ _ (peek-Fitting b) λ hi hh. Fitting-pure _ (omega arith)

peek_jmp-Fitting : (a : ℕ) → Fitting Word (peek_jmp a)
unfolding peek_jmp
peek_jmp-Fitting a =
    Fitting-if (bit_and a 0xff == 0xff) _ _ (peek_split-Fitting a _) (peek_word-Fitting a)

abbrev pub WordFirst : ℕ × Bool → Type 0
WordFirst r = r.0 < 0x10000

indexed-lt : (a i : ℕ) → (indexed a i).0 < 0x10000
unfolding indexed
indexed-lt a i = omega arith

-- An address from the operand's word or byte, and from an index register.
by_word :
    {A : Type 0} {Q : A → Type 0} (k : ℕ → M A)
    → ((w : ℕ) → w < 0x10000 → Fitting Q (k w))
    → Fitting Q (decode_word >>= k)
by_word k h = Fitting-then decode_word k decode_word-Fitting h

by_byte :
    {A : Type 0} {Q : A → Type 0} (k : ℕ → M A)
    → ((b : ℕ) → b < 256 → Fitting Q (k b))
    → Fitting Q (decode_byte >>= k)
by_byte k h = Fitting-then decode_byte k decode_byte-Fitting h

pub decode_operand_addr-Fitting : (mode : AddrMode) → Fitting WordFirst (decode_operand_addr mode)
unfolding decode_operand_addr
decode_operand_addr-Fitting zp = by_byte _ λ b h. Fitting-pure _ (omega arith)
decode_operand_addr-Fitting zp_ind_x =
    by_byte _
      λ b h. Fitting-then _ _ get_x λ x _. Fitting-pure _ (omega (arith, bit_and-le (b + x) 0xff))
decode_operand_addr-Fitting zp_ind_y =
    by_byte _
      λ b h. Fitting-then _ _ get_y λ y _. Fitting-pure _ (omega (arith, bit_and-le (b + y) 0xff))
decode_operand_addr-Fitting ind_jmp =
    by_word _ λ w h. Fitting-then _ _ (peek_jmp-Fitting w) λ t k. Fitting-pure _ k
decode_operand_addr-Fitting abs = by_word _ λ w h. Fitting-pure _ h
decode_operand_addr-Fitting abs_jmp = by_word _ λ w h. Fitting-pure _ h
decode_operand_addr-Fitting abs_x =
    by_word _ λ w h. Fitting-then _ _ get_x λ x _. Fitting-pure _ (indexed-lt w x)
decode_operand_addr-Fitting abs_y =
    by_word _ λ w h. Fitting-then _ _ get_y λ y _. Fitting-pure _ (indexed-lt w y)
decode_operand_addr-Fitting ind_x = by_byte _ λ b h.
    Fitting-then _ _ get_x λ x _. Fitting-then _ _ (peek_split-Fitting _ _) λ a k. Fitting-pure _ k
decode_operand_addr-Fitting ind_y = by_byte _ λ b h.
    Fitting-then _ _ (peek_split-Fitting _ _)
      λ a k. Fitting-then _ _ get_y λ y _. Fitting-pure _ (indexed-lt a y)
decode_operand_addr-Fitting _ = Fitting-fault

abbrev pub OperandFits : Operand → Type 0
OperandFits op = op.addr_or_value < 0x10000

addr_operand-Fitting : (mode : AddrMode) → Fitting OperandFits (addr_operand mode)
unfolding addr_operand
addr_operand-Fitting mode =
    Fitting-then _ _ (decode_operand_addr-Fitting mode) λ r h. Fitting-pure _ h

pub decode_operand-Fitting : (mode : AddrMode) → Fitting OperandFits (decode_operand mode)
unfolding decode_operand
decode_operand-Fitting acc = Fitting-pure _ (omega arith)
decode_operand-Fitting imm = by_byte _ λ b h. Fitting-pure _ (omega arith)
decode_operand-Fitting mode = addr_operand-Fitting mode

read_kind-Fitting : (k : OperandKind) (a : ℕ) → Fitting Byte (read_kind k a)
unfolding read_kind
read_kind-Fitting kind_acc a = get_a
read_kind-Fitting kind_imm a = Fitting-pure _ (omega arith)
read_kind-Fitting kind_addr a = peek-Fitting a

pub read_operand-Fitting : (op : Operand) → Fitting Byte (read_operand op)
unfolding read_operand
read_operand-Fitting op = read_kind-Fitting op.kind op.addr_or_value

write_kind-Fitting : (k : OperandKind) (a v : ℕ) → v < 256 → Quietly (write_kind k a v)
unfolding write_kind
write_kind-Fitting kind_acc a v lt = Fitting-on_cpu (λ c. record c { a = v }) λ c f. omega arith
write_kind-Fitting kind_imm a v lt = Fitting-fault
write_kind-Fitting kind_addr a v lt = poke-Fitting a v lt

pub write_operand-Fitting : (op : Operand) (v : ℕ) → v < 256 → Quietly (write_operand op v)
unfolding write_operand
write_operand-Fitting op v lt = write_kind-Fitting op.kind op.addr_or_value v lt

pub step_cpu-Fitting : (n : ℕ) → Quietly (on_cpu (step_cpu n))
step_cpu-Fitting n = Fitting-on_cpu (step_cpu n) (step_cpu-CpuFits n)

pub step_operand-Fitting :
    (crossing : Bool) (mode : AddrMode) (extra : ℕ) → Quietly (step_operand crossing mode extra)
unfolding step_operand
step_operand-Fitting crossing mode extra = timed (get_cpu_cycle crossing mode)
  where
    timed :
        (r : Option ℕ) → Quietly (elim r [ none ↦ fault | some n ↦ on_cpu (step_cpu (n + extra)) ])
    timed none = Fitting-fault
    timed (some n) = step_cpu-Fitting (n + extra)
