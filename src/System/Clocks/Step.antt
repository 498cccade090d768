-- ===== src/System/Clocks/Step.antt =====
-- `nes_system::step` catches up: neither loop runs out of fuel, and both clocks end where they should.
use neschan.Base.{ℕ, ◌+◌, ◌-◌, ◌≤◌, ◌≡◌, refl, sym, ◌∙◌, arith, true, false}
use mathlib.Core.Path.{subst}
use neschan.Cpu.Exec
use neschan.Cpu.Exec.{Outcome, done, faulted, out_of_fuel, running}
use neschan.Cpu.Progress.Loop.{IsEnded, step_to-IsEnded}
use neschan.Cpu.Keeps.Loop.{Leaves, step_to-Leaves}
use neschan.Ppu.Position.{IsOnScreen}
use neschan.System.State.{System}
use neschan.System.Beam
use neschan.System.Beam.{behind}
use neschan.System.Beam.Catches.{step_to-IsCaughtUp}
use neschan.System.Beam.Cpu.{step_to-IsApart}
use neschan.System.Run.{step, finish_step}
use neschan.System.Clocks.{AreClocks, AreClocks-IsOutside}

-- After a step to `now`: both clocks have caught up with the system's, unless something stopped it.
pub record IsCurrent (now : ℕ) (t : System) : Type 0 where
  pub on_screen : IsOnScreen t.ppu
  pub system : t.master_cycle ≡ now
  pub cpu : running now t ≡ false
  pub beam : behind now t ≡ false

abbrev pub IsStepped : ℕ → Outcome → Type 0
IsStepped now (done t) = IsCurrent now t
IsStepped now faulted = Unit
IsStepped now out_of_fuel = true ≡ false

caught_up :
    (now drawn fuel : ℕ) (t : System)
    → running now t ≡ false
    → AreClocks now drawn t
    → now ≤ t.ppu.master_cycle + fuel
    → IsCurrent now (Beam.step_to fuel now t)
caught_up now drawn fuel t e c le =
    let b = step_to-IsCaughtUp fuel now t c.on_screen le in
    let a = step_to-IsApart fuel now t in
    record {
      on_screen = b.on_screen;
      system = a.system ∙ c.system;
      cpu = ground (arith, e, a.cpu, a.stopped);
      beam = b.ended;
    }

finish_step-IsStepped :
    (now drawn : ℕ) (r : Outcome)
    → IsEnded now r
    → Leaves (AreClocks now drawn) r
    → IsStepped now (finish_step r)
unfolding finish_step
finish_step-IsStepped now drawn faulted e c = tt
finish_step-IsStepped now drawn out_of_fuel e c = e
finish_step-IsStepped now drawn (done t) e c =
    subst (λ n. IsCurrent now (Beam.step_to (n - t.ppu.master_cycle) n t)) (sym c.system)
      (caught_up now drawn (now - t.ppu.master_cycle) t e c (omega arith))

-- A step of the machine by any number of cycles ends, with the beam on the screen: either it faults, or
-- the clocks of the CPU and of the PPU have both reached that of the system, which has moved on by just
-- that number, unless something stopped the system. Its two loops never run out of fuel.
pub step-IsStepped :
    (count : ℕ) (s : System) → IsOnScreen s.ppu → IsStepped (s.master_cycle + count) (step count s)
unfolding step
step-IsStepped count s on =
    let now = s.master_cycle + count in
    let t : System = record s { master_cycle = now } in
    finish_step-IsStepped now s.ppu.master_cycle (Exec.step_to (now - s.cpu.cycle) now t)
      (step_to-IsEnded (now - s.cpu.cycle) now t (omega arith))
      (step_to-Leaves (now - s.cpu.cycle) now t AreClocks-IsOutside
        (record { on_screen = on; system = refl; ppu = refl }))
