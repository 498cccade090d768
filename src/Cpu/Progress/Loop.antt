-- ===== src/Cpu/Progress/Loop.antt =====
-- The loop of `nes_cpu::step_to` ends.
use neschan.Base.{
  ℕ, zero, suc, ◌+◌, ◌*◌, ◌≤◌, ◌≡◌, ◌⊎◌, inl, inr, refl, sym, arith, Bool, true, false, ◌&&◌, ◌==◌,
  if◌then◌else◌, Bool-cases, Option, none, some, List, [], ◌∷◌,
}
use mathlib.Core.Path.{subst}
use neschan.Cpu.State.{step_cpu}
use neschan.Cpu.Operand.{get_shift_cycle, get_inc_cycle, decode_byte}
use neschan.Cpu.Table.{Case, cases, switch, decode}
use neschan.Cpu.Exec.{
  nmi, oamdma, check_stop, run_case, exec_op, exec_nmi, exec_dma, exec_pending,
  exec_one_instruction, Outcome, done, faulted, out_of_fuel, running, step_to,
}
use neschan.System.State.{System, M, on_cpu}
use neschan.System.Hoare.{Holds}
use neschan.Cpu.Progress.Takes.{
  Takes, Takes-first, Takes-fault, Takes-registers, takes_rules, decode_byte-Takes, push_byte-Takes,
  push_word-Takes, peek_word-Takes, oam_dma-Takes,
}
use neschan.Cpu.Progress.Operands.{step_cpu-Takes}
use neschan.Cpu.Progress.Instr.{set_pc-Takes}
use neschan.Cpu.Progress.Execute.{
  Advances, Advances-le, Advances-then, Takes-Advances, is_timed, execute-Advances,
}

all_cases : (Case → Bool) → List Case → Bool
all_cases p [] = true
all_cases p (c ∷ cs) = p c && all_cases p cs

taken :
    (p : Case → Bool) (b : Bool) (d c : Case) (r : Option Case) (rest : Bool)
    → (p d && rest) ≡ true
    → (rest ≡ true → r ≡ some c → p c ≡ true)
    → (if b then some d else r) ≡ some c
    → p c ≡ true
taken p true d c r rest h k e = grind (arith, h, e)
taken p false d c r rest h k e = k (ground (arith, h)) e

-- What holds of every case holds of the one that is taken.
switch-all :
    (p : Case → Bool) (cs : List Case) (op_code : ℕ) (c : Case)
    → all_cases p cs ≡ true
    → switch cs op_code ≡ some c
    → p c ≡ true
unfolding all_cases switch
switch-all p [] op_code c h e = grind (arith, e)
switch-all p (d ∷ cs) op_code c h e =
    taken p (d.op_code == op_code) d c (switch cs op_code) (all_cases p cs) h
      (switch-all p cs op_code c) e

case_is_timed : Case → Bool
case_is_timed c = is_timed c.op c.mode

decode-timed : (op_code : ℕ) (c : Case) → decode op_code ≡ some c → case_is_timed c ≡ true
unfolding decode get_shift_cycle get_inc_cycle
decode-timed op_code c =
    switch-all case_is_timed cases op_code c (unfold all_cases cases case_is_timed is_timed in refl)

run_case-Advances :
    (r : Option Case) → ((c : Case) → r ≡ some c → case_is_timed c ≡ true) → Advances (run_case r)
unfolding run_case case_is_timed
run_case-Advances none h = Takes-Advances _ (Takes-fault 6)
run_case-Advances (some c) h = execute-Advances c.op c.mode (h c refl)

nmi-Takes : Takes 6 nmi
unfolding nmi
nmi-Takes =
    search
      (
        takes_rules,
        push_word-Takes,
        push_byte-Takes,
        λ (k : M (Unit {0})).
            Takes-first 6 (on_cpu (step_cpu 7)) (λ _. k) (step_cpu-Takes 7 6 (omega arith)),
        peek_word-Takes,
        set_pc-Takes,
      )
      depth 8

exec_nmi-Takes : Takes 6 exec_nmi
unfolding exec_nmi
exec_nmi-Takes = Takes-first 6 nmi _ nmi-Takes λ _. Takes-registers _ λ c. refl

oamdma-Takes : Takes 6 oamdma
unfolding oamdma
oamdma-Takes = search (
  takes_rules,
  oam_dma-Takes,
  λ (b : Bool). step_cpu-Takes (if b then 514 else 513) 6 (ground arith),
)

exec_dma-Takes : Takes 6 exec_dma
unfolding exec_dma
exec_dma-Takes = Takes-first 6 oamdma _ oamdma-Takes λ _. Takes-registers _ λ c. refl

exec_op-Advances : Advances exec_op
unfolding exec_op
exec_op-Advances =
    Advances-then decode_byte _ decode_byte-Takes
      λ op_code. run_case-Advances (decode op_code) (decode-timed op_code)

pick :
    (nmi_pending dma_pending : Bool) (s : System)
    → Holds
        (if nmi_pending then exec_nmi s else if dma_pending then exec_dma s else exec_op s)
        (λ _ t. (s.cpu.cycle + 6 ≤ t.cpu.cycle) ⊎ (t.stop_requested ≡ true))
pick true b s = (Takes-Advances exec_nmi exec_nmi-Takes).at s
pick false true s = (Takes-Advances exec_dma exec_dma-Takes).at s
pick false false s = exec_op-Advances.at s

exec_pending-Advances : Advances exec_pending
unfolding exec_pending
exec_pending-Advances = record { at = λ s. pick s.cpu.nmi_pending s.cpu.dma_pending s }

check_stop-cycle : (s : System) → (check_stop s).cpu.cycle ≡ s.cpu.cycle
unfolding check_stop
check_stop-cycle s = ground arith

-- An instruction, a non-maskable interrupt or an OAM transfer that returns has moved the clock on by
-- two CPU cycles at least, or has stopped the system.
pub exec_one_instruction-Advances : Advances exec_one_instruction
unfolding exec_one_instruction
exec_one_instruction-Advances = record {
  at = λ s.
      Advances-le (exec_pending (check_stop s)) s.cpu.cycle (check_stop s).cpu.cycle
        (omega (arith, check_stop-cycle s)) (exec_pending-Advances.at (check_stop s));
}

-- Not out of fuel, and done only when the test of the loop fails.
abbrev pub IsEnded : ℕ → Outcome → Type 0
IsEnded new_count (done s) = running new_count s ≡ false
IsEnded new_count faulted = Unit
IsEnded new_count out_of_fuel = true ≡ false

step_to-still :
    (fuel new_count : ℕ) (s : System)
    → running new_count s ≡ false
    → step_to fuel new_count s ≡ done s
unfolding step_to
step_to-still zero new_count s e = rw (e, step_to)
step_to-still (suc fuel) new_count s e = rw (e, step_to)

still-IsEnded :
    (fuel new_count : ℕ) (s : System)
    → running new_count s ≡ false
    → IsEnded new_count (step_to fuel new_count s)
still-IsEnded fuel new_count s e =
    subst (IsEnded new_count) (sym (step_to-still fuel new_count s e)) e

-- The rest of the loop, after an instruction.
next-IsEnded :
    (fuel new_count n : ℕ) (r : Option (Unit {0} × System))
    → new_count ≤ n + 6 * suc fuel
    → ((t : System)
        → new_count ≤ t.cpu.cycle + 6 * fuel
        → IsEnded new_count (step_to fuel new_count t))
    → Holds r (λ _ t. (n + 6 ≤ t.cpu.cycle) ⊎ (t.stop_requested ≡ true))
    → IsEnded new_count (elim r [ none ↦ faulted | some (_, s') ↦ step_to fuel new_count s' ])
next-IsEnded fuel new_count n none le k h = tt
next-IsEnded fuel new_count n (some (u, t)) le k (inl x) = k t (omega arith)
next-IsEnded fuel new_count n (some (u, t)) le k (inr x) =
    still-IsEnded fuel new_count t (ground (arith, x))

-- One round.
step_to-round :
    (fuel new_count : ℕ) (s : System)
    → running new_count s ≡ true
    → step_to (suc fuel) new_count s ≡ (elim (exec_one_instruction s) [
      | none ↦ faulted
      | some (_, s') ↦ step_to fuel new_count s'
    ])
unfolding step_to
step_to-round fuel new_count s e = rw (e, step_to)

-- With one unit of fuel for six cycles of the PPU that are left, `step_to` ends: with a fault, or with
-- the clock caught up or the system stopped.
pub step_to-IsEnded :
    (fuel new_count : ℕ) (s : System)
    → new_count ≤ s.cpu.cycle + 6 * fuel
    → IsEnded new_count (step_to fuel new_count s)
step_to-IsEnded zero new_count s h = still-IsEnded zero new_count s (ground arith)
step_to-IsEnded (suc fuel) new_count s h = elim (Bool-cases (running new_count s)) [
  | inl e ↦ subst (IsEnded new_count) (sym (step_to-round fuel new_count s e)) (
      next-IsEnded fuel new_count s.cpu.cycle (exec_one_instruction s) h
        (λ t. step_to-IsEnded fuel new_count t) (exec_one_instruction-Advances.at s))
  | inr e ↦ still-IsEnded (suc fuel) new_count s e
]
