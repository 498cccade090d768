-- ===== src/System/Fits/Instr.antt =====
-- The instructions, in the groups that share their code.
use neschan.Base.{ℕ, ◌+◌, ◌≤◌, ◌<◌, arith, bit_and, u8, test_bits, true}
use neschan.Base.Widths.{bit_and-le}
use neschan.Cpu.State.{Cpu, get_carry}
use neschan.Cpu.Alu.{shift_flags}
use neschan.Cpu.Fits.{CpuFits, shift_flags-CpuFits, calc_alu_flag-CpuFits}
use neschan.Cpu.Operand.{AddrMode, OperandKind, kind_acc, kind_imm, kind_addr}
use neschan.Cpu.Instr.{stop, read_instr, shift_instr, inc_instr, reg_instr}
use neschan.Cpu.Flow.{poke_kind, sta, store_instr}
use neschan.Cpu.Unofficial.{sax, rmw_instr}
use neschan.System.State.{pure, get}
use neschan.System.Fits.{
  Fitting, Byte, Quietly, Fitting-then, Fitting-fault, Fitting-get, Fitting-on_cpu,
}
use neschan.System.Fits.Operands.{
  peek-Fitting, poke-Fitting, get_a, decode_operand_addr-Fitting, decode_operand-Fitting,
  read_operand-Fitting, write_operand-Fitting, step_cpu-Fitting, step_operand-Fitting,
}

pub stop-Fitting : Quietly stop
unfolding stop pure
stop-Fitting = record {
  at = λ s i.
      (tt, record { cpu = i.cpu; ram = i.ram; mapper = i.mapper; info = i.info; ppu = i.ppu });
}

-- A function of the registers that takes a byte.
abbrev pub TakesByte : (ℕ → Cpu → Cpu) → Type 0
TakesByte f = (v : ℕ) (c : Cpu) → v < 256 → CpuFits c → CpuFits (f v c)

pub read_instr-Fitting :
    (f : ℕ → Cpu → Cpu) (mode : AddrMode) → TakesByte f → Quietly (read_instr f mode)
unfolding read_instr
read_instr-Fitting f mode h = Fitting-then _ _ (decode_operand-Fitting mode) λ op _.
    Fitting-then _ _ (read_operand-Fitting op) λ v lt.
      Fitting-then _ _ (Fitting-on_cpu (f v) λ c i. h v c lt i)
        λ _ _. step_operand-Fitting op.is_page_crossing mode 0

get_carry_bit : Fitting (λ n. n ≤ 1) (get get_carry)
unfolding get_carry
get_carry_bit = Fitting-get get_carry λ c f. bit_and-le c.p 1

-- What a shift makes of a carry and a byte.
abbrev pub MakesByte : (ℕ → ℕ → ℕ) → Type 0
MakesByte f = (carry v : ℕ) → carry ≤ 1 → v < 256 → f carry v < 256

pub shift_instr-Fitting :
    (f : ℕ → ℕ → ℕ) (mask : ℕ) (mode : AddrMode) → MakesByte f → Quietly (shift_instr f mask mode)
unfolding shift_instr
shift_instr-Fitting f mask mode h = Fitting-then _ _ (decode_operand-Fitting mode) λ op _.
    Fitting-then _ _ (read_operand-Fitting op) λ v lt. Fitting-then _ _ get_carry_bit λ carry le.
      Fitting-then _ _ (write_operand-Fitting op (f carry v) (h carry v le lt)) λ _ _.
        Fitting-then _ _
          (Fitting-on_cpu (shift_flags (test_bits v mask) (f carry v)) (shift_flags-CpuFits _ _))
          λ _ _. step_cpu-Fitting _

pub rmw_instr-Fitting :
    (f : ℕ → ℕ → ℕ) (g : ℕ → ℕ → Cpu → Cpu) (mode : AddrMode)
    → MakesByte f
    → ((v : ℕ) → TakesByte (g v))
    → Quietly (rmw_instr f g mode)
unfolding rmw_instr
rmw_instr-Fitting f g mode h k = Fitting-then _ _ (decode_operand-Fitting mode) λ op _.
    Fitting-then _ _ (read_operand-Fitting op) λ v lt. Fitting-then _ _ get_carry_bit λ carry le.
      Fitting-then _ _ (write_operand-Fitting op (f carry v) (h carry v le lt)) λ _ _.
        Fitting-then _ _
          (Fitting-on_cpu (g v (f carry v)) λ c i. k v (f carry v) c (h carry v le lt) i)
          λ _ _. step_operand-Fitting true mode 2

pub inc_instr-Fitting : (by : ℕ) (mode : AddrMode) → Quietly (inc_instr by mode)
unfolding inc_instr
inc_instr-Fitting by mode = Fitting-then _ _ (decode_operand_addr-Fitting mode) λ r _.
    Fitting-then _ _ (peek-Fitting r.0) λ v lt.
      Fitting-then _ _ (poke-Fitting r.0 (u8 (v + by)) (omega arith)) λ _ _.
        Fitting-then _ _ (Fitting-on_cpu _ (calc_alu_flag-CpuFits (u8 (v + by))))
          λ _ _. step_cpu-Fitting _

pub reg_instr-Fitting :
    (f : Cpu → Cpu) (n : ℕ) → ((c : Cpu) → CpuFits c → CpuFits (f c)) → Quietly (reg_instr f n)
unfolding reg_instr
reg_instr-Fitting f n h = Fitting-then _ _ (Fitting-on_cpu f h) λ _ _. step_cpu-Fitting n

poke_kind-Fitting : (k : OperandKind) (a v : ℕ) → v < 256 → Quietly (poke_kind k a v)
unfolding poke_kind
poke_kind-Fitting kind_acc a v lt = Fitting-fault
poke_kind-Fitting kind_imm a v lt = Fitting-fault
poke_kind-Fitting kind_addr a v lt = poke-Fitting a v lt

pub sta-Fitting : (mode : AddrMode) → Quietly (sta mode)
unfolding sta
sta-Fitting mode = Fitting-then _ _ (decode_operand-Fitting mode) λ op _.
    Fitting-then _ _ get_a λ a lt.
      Fitting-then _ _ (poke_kind-Fitting op.kind op.addr_or_value a lt)
        λ _ _. step_operand-Fitting true mode 0

pub store_instr-Fitting :
    (reg : Cpu → ℕ) (mode : AddrMode)
    → ((c : Cpu) → CpuFits c → reg c < 256)
    → Quietly (store_instr reg mode)
unfolding store_instr
store_instr-Fitting reg mode h = Fitting-then _ _ (decode_operand-Fitting mode) λ op _.
    Fitting-then {Q = Byte} _ _ (Fitting-get reg h) λ v lt.
      Fitting-then _ _ (poke_kind-Fitting op.kind op.addr_or_value v lt)
        λ _ _. step_operand-Fitting op.is_page_crossing mode 0

pub sax-Fitting : (mode : AddrMode) → Quietly (sax mode)
unfolding sax
sax-Fitting mode = Fitting-then _ _ (decode_operand-Fitting mode) λ op _.
    Fitting-then {Q = Byte} _ _
      (Fitting-get (λ c. bit_and c.a c.x) λ c f. omega (arith, f.x, bit_and-le c.a c.x))
      λ v lt.
        Fitting-then _ _ (write_operand-Fitting op v lt)
          λ _ _. step_operand-Fitting op.is_page_crossing mode 0
