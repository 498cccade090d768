-- ===== src/App/Frame/Rounds.antt =====
-- The steps of a round.
use neschan.Base.{ℕ, zero, suc, ◌+◌, ◌≤◌, ◌≡◌, arith}
use mathlib.Core.Path.{subst}
use neschan.Cpu.Exec.{Outcome, done, faulted, out_of_fuel}
use neschan.Ppu.Position.{IsOnScreen}
use neschan.System.State.{System}
use neschan.System.Run.{step}
use neschan.System.Clocks.Step.{IsStepped, step-IsStepped}
use neschan.App.Frame.{clock_hz, frame_cycles, run_cycles}

-- No round asks for more than a second of the machine.
frame_cycles-bound : (to_cycles : ℕ → ℕ) (prev cur : ℕ) → frame_cycles to_cycles prev cur ≤ clock_hz
unfolding frame_cycles
frame_cycles-bound to_cycles prev cur = ground arith

last-IsStepped :
    (now : ℕ) (r : Outcome)
    → IsStepped now r
    → IsStepped now (elim r [ done t ↦ done t | faulted ↦ faulted | out_of_fuel ↦ out_of_fuel ])
last-IsStepped now (done t) h = h
last-IsStepped now faulted h = tt
last-IsStepped now out_of_fuel h = h

more-IsStepped :
    (left now : ℕ) (r : Outcome)
    → ((t : System) → IsOnScreen t.ppu → IsStepped (t.master_cycle + left) (run_cycles left t))
    → IsStepped now r
    → IsStepped
        (now + left)
        (elim r [ done t ↦ run_cycles left t | faulted ↦ faulted | out_of_fuel ↦ out_of_fuel ])
more-IsStepped left now (done t) k h =
    subst (λ n. IsStepped (n + left) (run_cycles left t)) h.system (k t h.on_screen)
more-IsStepped left now faulted k h = tt
more-IsStepped left now out_of_fuel k h = h

-- A round of the main loop of one cycle or more steps the machine cycle by cycle, and always ends: with a
-- fault, or with the clock of the machine moved on by just those cycles and the beam on the screen, and
-- the clocks of the CPU and of the PPU caught up with it unless something stopped the system.
pub run_cycles-IsStepped :
    (left : ℕ) (s : System)
    → IsOnScreen s.ppu
    → IsStepped (s.master_cycle + suc left) (run_cycles (suc left) s)
unfolding run_cycles
run_cycles-IsStepped zero s on =
    last-IsStepped (s.master_cycle + 1) (step 1 s) (step-IsStepped 1 s on)
run_cycles-IsStepped (suc left) s on =
    subst (λ n. IsStepped n (run_cycles (suc (suc left)) s)) sum
      (more-IsStepped (suc left) (s.master_cycle + 1) (step 1 s)
        (λ t h. run_cycles-IsStepped left t h) (step-IsStepped 1 s on))
  where
    sum : s.master_cycle + 1 + suc left ≡ s.master_cycle + suc (suc left)
    sum = omega arith
