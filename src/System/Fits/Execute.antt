-- ===== src/System/Fits/Execute.antt =====
-- One instruction, whichever it is.
use neschan.Base.{ℕ, arith, bit_and, bit_or, bit_xor, true, false, Option, none, some}
use neschan.Base.Widths.{or_byte, xor_byte, bit_and-le}
use neschan.Cpu.State.{Cpu}
use neschan.Cpu.Alu.{
  adc_val, sbc_val, set_a, set_x, compare_flags, bit_flags, asl_val, lsr_val, rol_val, ror_val,
}
use neschan.Cpu.Fits.{
  adc_val-CpuFits, sbc_val-CpuFits, set_a-CpuFits, set_x-CpuFits, set_y-CpuFits,
  compare_flags-CpuFits, bit_flags-CpuFits, set_carry_flag-CpuFits, set_interrupt_flag-CpuFits,
  set_decimal_flag-CpuFits, set_overflow_flag-CpuFits,
}
use neschan.Cpu.Operand.{AddrMode}
use neschan.Cpu.Table.{Op, Case}
use neschan.Cpu.Instr
use neschan.Cpu.Flow
use neschan.Cpu.Unofficial
use neschan.Cpu.Unofficial.{carry_then}
use neschan.Cpu.Exec.{execute, run_case}
use neschan.System.Fits.{Quietly, Fitting-fault}
use neschan.System.Fits.Instr.{
  TakesByte, MakesByte, stop-Fitting, read_instr-Fitting, shift_instr-Fitting, rmw_instr-Fitting,
  inc_instr-Fitting, reg_instr-Fitting, sta-Fitting, store_instr-Fitting, sax-Fitting,
}
use neschan.System.Fits.Flow.{
  pha-Fitting, php-Fitting, pla-Fitting, plp-Fitting, rti-Fitting, rts-Fitting, jsr-Fitting,
  jmp-Fitting, branch-Fitting, brk-Fitting, nop-Fitting,
}

-- The shifts and the steps by one make bytes.
asl_byte : MakesByte (λ _. asl_val)
unfolding asl_val
asl_byte carry v le lt = omega arith

lsr_byte : MakesByte (λ _. lsr_val)
unfolding lsr_val
lsr_byte carry v le lt = omega arith

rol_byte : MakesByte rol_val
unfolding rol_val
rol_byte carry v le lt = omega arith

ror_byte : MakesByte ror_val
unfolding ror_val
ror_byte carry v le lt = or_byte _ _ (omega arith) (omega arith)

-- What the instructions make of a byte and the registers.
adc_fits : TakesByte adc_val
adc_fits v c lt f = adc_val-CpuFits v c f

sbc_fits : TakesByte sbc_val
sbc_fits v c lt f = sbc_val-CpuFits v c f

and_fits : TakesByte (λ v c. set_a (bit_and c.a v) c)
and_fits v c lt f = set_a-CpuFits _ c (omega (arith, bit_and-le c.a v)) f

or_fits : TakesByte (λ v c. set_a (bit_or c.a v) c)
or_fits v c lt f = set_a-CpuFits _ c (or_byte c.a v f.a lt) f

xor_fits : TakesByte (λ v c. set_a (bit_xor c.a v) c)
xor_fits v c lt f = set_a-CpuFits _ c (xor_byte c.a v f.a lt) f

compare_fits : (reg : Cpu → ℕ) → TakesByte (λ v c. compare_flags (reg c) v c)
compare_fits reg v c lt f = compare_flags-CpuFits (reg c) v c f

bit_fits : TakesByte bit_flags
bit_fits v c lt f = bit_flags-CpuFits v c f

lax_fits : TakesByte (λ v c. set_x v (record c { a = v }))
lax_fits v c lt f = set_x-CpuFits v (record c { a = v }) lt (omega arith)

carry_fits :
    (mask : ℕ) (g : ℕ → Cpu → Cpu) → TakesByte g → (old : ℕ) → TakesByte (carry_then mask g old)
unfolding carry_then
carry_fits mask g h old v c lt f = h v _ lt (set_carry_flag-CpuFits _ c f)

execute-Fitting : (op : Op) (mode : AddrMode) → Quietly (execute op mode)
unfolding execute Flow.kil Instr.adc Instr.and_a Instr.cmp Instr.eor Instr.ora Instr.sbc Instr.lda
    Instr.asl Instr.rol Instr.lsr Instr.ror Instr.ldx Instr.ldy Flow.stx Flow.sty Instr.cpx
    Instr.cpy Instr.tax Instr.tay Instr.tsx Instr.txa Instr.txs Instr.tya Instr.inc Instr.inx
    Instr.iny Instr.dec Instr.dex Instr.dey Instr.sec Instr.sed Instr.sei Instr.clc Instr.cld
    Instr.cli Instr.clv Flow.bcc Flow.bcs Flow.beq Flow.bmi Flow.bne Flow.bpl Flow.bvc Flow.bvs
    Instr.bit Unofficial.slo Unofficial.rla Unofficial.sre Unofficial.rra Unofficial.lax
    Unofficial.dcp Unofficial.isc Unofficial.not_implemented
execute-Fitting Op.adc mode = read_instr-Fitting _ mode adc_fits
execute-Fitting Op.and_a mode = read_instr-Fitting _ mode and_fits
execute-Fitting Op.cmp mode = read_instr-Fitting _ mode (compare_fits (λ c. c.a))
execute-Fitting Op.eor mode = read_instr-Fitting _ mode xor_fits
execute-Fitting Op.ora mode = read_instr-Fitting _ mode or_fits
execute-Fitting Op.sbc mode = read_instr-Fitting _ mode sbc_fits
execute-Fitting Op.sta mode = sta-Fitting mode
execute-Fitting Op.lda mode = read_instr-Fitting _ mode set_a-CpuFits
execute-Fitting Op.asl mode = shift_instr-Fitting _ _ mode asl_byte
execute-Fitting Op.rol mode = shift_instr-Fitting _ _ mode rol_byte
execute-Fitting Op.lsr mode = shift_instr-Fitting _ _ mode lsr_byte
execute-Fitting Op.ror mode = shift_instr-Fitting _ _ mode ror_byte
execute-Fitting Op.ldx mode = read_instr-Fitting _ mode set_x-CpuFits
execute-Fitting Op.ldy mode = read_instr-Fitting _ mode set_y-CpuFits
execute-Fitting Op.stx mode = store_instr-Fitting _ mode λ c f. f.x
execute-Fitting Op.sty mode = store_instr-Fitting _ mode λ c f. f.y
execute-Fitting Op.cpx mode = read_instr-Fitting _ mode (compare_fits (λ c. c.x))
execute-Fitting Op.cpy mode = read_instr-Fitting _ mode (compare_fits (λ c. c.y))
execute-Fitting Op.tax mode = reg_instr-Fitting _ 2 λ c f. set_x-CpuFits c.a c f.a f
execute-Fitting Op.tay mode = reg_instr-Fitting _ 2 λ c f. set_y-CpuFits c.a c f.a f
execute-Fitting Op.tsx mode = reg_instr-Fitting _ 2 λ c f. set_x-CpuFits c.s c f.s f
execute-Fitting Op.txa mode = reg_instr-Fitting _ 2 λ c f. set_a-CpuFits c.x c f.x f
execute-Fitting Op.txs mode = reg_instr-Fitting _ 2 λ c f. omega arith
execute-Fitting Op.tya mode = reg_instr-Fitting _ 2 λ c f. set_a-CpuFits c.y c f.y f
execute-Fitting Op.inc mode = inc_instr-Fitting _ mode
execute-Fitting Op.inx mode = reg_instr-Fitting _ 2 λ c f. set_x-CpuFits _ c (omega arith) f
execute-Fitting Op.iny mode = reg_instr-Fitting _ 2 λ c f. set_y-CpuFits _ c (omega arith) f
execute-Fitting Op.dec mode = inc_instr-Fitting _ mode
execute-Fitting Op.dex mode = reg_instr-Fitting _ 2 λ c f. set_x-CpuFits _ c (omega arith) f
execute-Fitting Op.dey mode = reg_instr-Fitting _ 2 λ c f. set_y-CpuFits _ c (omega arith) f
execute-Fitting Op.sec mode = reg_instr-Fitting _ 2 (set_carry_flag-CpuFits true)
execute-Fitting Op.sed mode = reg_instr-Fitting _ 2 (set_decimal_flag-CpuFits true)
execute-Fitting Op.sei mode = reg_instr-Fitting _ 2 (set_interrupt_flag-CpuFits true)
execute-Fitting Op.clc mode = reg_instr-Fitting _ 2 (set_carry_flag-CpuFits false)
execute-Fitting Op.cld mode = reg_instr-Fitting _ 2 (set_decimal_flag-CpuFits false)
execute-Fitting Op.cli mode = reg_instr-Fitting _ 2 (set_interrupt_flag-CpuFits false)
execute-Fitting Op.clv mode = reg_instr-Fitting _ 2 (set_overflow_flag-CpuFits false)
execute-Fitting Op.jmp mode = jmp-Fitting mode
execute-Fitting Op.bcc mode = branch-Fitting _
execute-Fitting Op.bcs mode = branch-Fitting _
execute-Fitting Op.beq mode = branch-Fitting _
execute-Fitting Op.bmi mode = branch-Fitting _
execute-Fitting Op.bne mode = branch-Fitting _
execute-Fitting Op.bpl mode = branch-Fitting _
execute-Fitting Op.bvc mode = branch-Fitting _
execute-Fitting Op.bvs mode = branch-Fitting _
execute-Fitting Op.bit mode = read_instr-Fitting _ mode bit_fits
execute-Fitting Op.pha mode = pha-Fitting
execute-Fitting Op.php mode = php-Fitting
execute-Fitting Op.pla mode = pla-Fitting
execute-Fitting Op.plp mode = plp-Fitting
execute-Fitting Op.rti mode = rti-Fitting
execute-Fitting Op.jsr mode = jsr-Fitting mode
execute-Fitting Op.rts mode = rts-Fitting
execute-Fitting Op.kil mode = stop-Fitting
execute-Fitting Op.brk mode = brk-Fitting
execute-Fitting Op.nop mode = nop-Fitting mode
execute-Fitting Op.slo mode = rmw_instr-Fitting _ _ mode asl_byte (carry_fits 0x80 _ or_fits)
execute-Fitting Op.rla mode = rmw_instr-Fitting _ _ mode rol_byte (carry_fits 0x80 _ and_fits)
execute-Fitting Op.sre mode = rmw_instr-Fitting _ _ mode lsr_byte (carry_fits 0x1 _ xor_fits)
execute-Fitting Op.rra mode = rmw_instr-Fitting _ _ mode ror_byte (carry_fits 0x1 adc_val adc_fits)
execute-Fitting Op.sax mode = sax-Fitting mode
execute-Fitting Op.lax mode = read_instr-Fitting _ mode lax_fits
execute-Fitting Op.dcp mode =
    rmw_instr-Fitting _ _ mode (λ _ v _ _. omega arith) λ _. compare_fits (λ c. c.a)
execute-Fitting Op.isc mode = rmw_instr-Fitting _ _ mode (λ _ v _ _. omega arith) λ _. sbc_fits
execute-Fitting Op.anc mode = Fitting-fault
execute-Fitting Op.alr mode = Fitting-fault
execute-Fitting Op.arr mode = Fitting-fault
execute-Fitting Op.xaa mode = Fitting-fault
execute-Fitting Op.ahx mode = Fitting-fault
execute-Fitting Op.tas mode = Fitting-fault
execute-Fitting Op.las mode = Fitting-fault
execute-Fitting Op.axs mode = Fitting-fault

pub run_case-Fitting : (r : Option Case) → Quietly (run_case r)
unfolding run_case
run_case-Fitting none = Fitting-fault
run_case-Fitting (some c) = execute-Fitting c.op c.mode
