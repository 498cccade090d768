-- ===== src/System/Fits/Loops.antt =====
-- One instruction, interrupt or transfer, and the loop of the CPU.
use neschan.Base.{
  ℕ, zero, suc, arith, ◌==◌, if◌then◌else◌, Bool, true, false, Bool-cases, inl, inr, ◌&&◌, Option,
  none, some,
}
use neschan.Cpu.State.{nmi_handler}
use neschan.Cpu.Table.{decode}
use neschan.Cpu.Exec
use neschan.Cpu.Exec.{
  nmi, oamdma, check_stop, exec_op, exec_nmi, exec_dma, exec_pending, exec_one_instruction, Outcome,
  done, faulted, out_of_fuel, running,
}
use neschan.Cpu.Keeps.Loop.{Leaves}
use neschan.System.State.{System}
use neschan.System.Hoare.{Holds}
use neschan.System.Fits.{Fits, Anything, Quietly, Fitting-then, Fitting-get, Fitting-on_cpu}
use neschan.System.Fits.Transfer.{oam_dma-Fitting}
use neschan.System.Fits.Operands.{
  get_pc, get_p, decode_byte-Fitting, push_word-Fitting, peek_word-Fitting, step_cpu-Fitting,
}
use neschan.System.Fits.Flow.{jump, push_status}
use neschan.System.Fits.Execute.{run_case-Fitting}

nmi-Fitting : Quietly nmi
unfolding nmi
nmi-Fitting = Fitting-then _ _ get_pc λ pc lt. Fitting-then _ _ (push_word-Fitting pc lt) λ _ _.
    Fitting-then _ _ get_p λ p lp. Fitting-then _ _ (push_status 0x20 (omega arith) p lp) λ _ _.
      Fitting-then _ _ (step_cpu-Fitting 7)
        λ _ _. Fitting-then _ _ (peek_word-Fitting nmi_handler) λ addr la. jump addr la

exec_nmi-Fitting : Quietly exec_nmi
unfolding exec_nmi
exec_nmi-Fitting = Fitting-then _ _ nmi-Fitting λ _ _. Fitting-on_cpu _ λ c f. omega arith

oamdma-Fitting : Quietly oamdma
unfolding oamdma
oamdma-Fitting = Fitting-then {Q = Anything} _ _ (Fitting-get (λ c. c.dma_addr) λ c f. tt) λ addr _.
    Fitting-then _ _ (oam_dma-Fitting addr) λ _ _.
      Fitting-then {Q = Anything} _ _ (Fitting-get (λ c. c.cycle) λ c f. tt)
        λ n _. step_cpu-Fitting _

exec_dma-Fitting : Quietly exec_dma
unfolding exec_dma
exec_dma-Fitting = Fitting-then _ _ oamdma-Fitting λ _ _. Fitting-on_cpu _ λ c f. omega arith

exec_op-Fitting : Quietly exec_op
unfolding exec_op
exec_op-Fitting = Fitting-then _ _ decode_byte-Fitting λ op _. run_case-Fitting (decode op)

exec_pending-Fitting : Quietly exec_pending
unfolding exec_pending
exec_pending-Fitting = record { at = λ s i. pick s.cpu.nmi_pending s.cpu.dma_pending s i }
  where
    pick :
        (nmi_pending dma_pending : Bool) (s : System)
        → Fits s
        → Holds
            (if nmi_pending then exec_nmi s else if dma_pending then exec_dma s else exec_op s)
            (λ _ t. Unit {0} × Fits t)
    pick true b s i = exec_nmi-Fitting.at s i
    pick false true s i = exec_dma-Fitting.at s i
    pick false false s i = exec_op-Fitting.at s i

check_stop-Fits : (s : System) → Fits s → Fits (check_stop s)
unfolding check_stop
check_stop-Fits s i = go (s.cpu.is_stop_at_addr && (s.cpu.stop_at_addr == s.cpu.pc))
  where
    go :
        (b : Bool)
        → Fits (
            if b
            then record s {
              stop_requested = true;
              cpu = record (s.cpu) { is_stop_at_addr = false };
            }
            else s)
    go true = record {
      cpu = omega (arith, i.cpu);
      ram = i.ram;
      mapper = i.mapper;
      info = i.info;
      ppu = i.ppu;
    }
    go false = i

-- Every instruction, interrupt and transfer leaves every value of the machine within its C type.
exec_one_instruction-Fitting : Quietly exec_one_instruction
unfolding exec_one_instruction
exec_one_instruction-Fitting = record {
  at = λ s i. exec_pending-Fitting.at (check_stop s) (check_stop-Fits s i);
}

next :
    (fuel new_count : ℕ) (r : Option (Unit {0} × System))
    → ((t : System) → Fits t → Leaves Fits (Exec.step_to fuel new_count t))
    → Holds r (λ _ t. Unit {0} × Fits t)
    → Leaves Fits (elim r [ none ↦ faulted | some (_, s') ↦ Exec.step_to fuel new_count s' ])
next fuel new_count none k h = tt
next fuel new_count (some (u, t)) k h = k t h.1

ended : (b : Bool) (s : System) → Fits s → Leaves Fits (if b then out_of_fuel else done s)
ended true s i = tt
ended false s i = i

pub cpu-Leaves :
    (fuel new_count : ℕ) (s : System) → Fits s → Leaves Fits (Exec.step_to fuel new_count s)
unfolding Exec.step_to
cpu-Leaves zero new_count s i = ended (running new_count s) s i
cpu-Leaves (suc fuel) new_count s i = elim (Bool-cases (running new_count s)) [
  | inl e ↦
      rw (e, Exec.step_to)
        (next fuel new_count (exec_one_instruction s) (λ t j. cpu-Leaves fuel new_count t j)
          (exec_one_instruction-Fitting.at s i))
  | inr e ↦ rw (e, Exec.step_to) i
]
