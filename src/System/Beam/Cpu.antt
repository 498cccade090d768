-- ===== src/System/Beam/Cpu.antt =====
-- What a round of the PPU leaves to the CPU: its clock, and a request to stop.
use neschan.Base.{ℕ, zero, suc, ◌≡◌, refl, ◌∙◌, arith, inl, inr, Bool-cases, true}
use neschan.System.State.{System}
use neschan.System.Bus.{request_nmi}
use neschan.System.Beam.{
  advance, visible_line, vblank_begin, vblank_line, pre_render_line, line_work, ppu_cycle, behind,
  step_to,
}

pub record IsApart (s t : System) : Type 0 where
  pub cpu : t.cpu.cycle ≡ s.cpu.cycle
  pub system : t.master_cycle ≡ s.master_cycle
  pub stopped : s.stop_requested ≡ true → t.stop_requested ≡ true

IsApart-then : (s t u : System) → IsApart s t → IsApart t u → IsApart s u
IsApart-then s t u a b = record {
  cpu = b.cpu ∙ a.cpu;
  system = b.system ∙ a.system;
  stopped = λ e. b.stopped (a.stopped e);
}

advance-IsApart : (s : System) → IsApart s (advance s)
unfolding advance
advance-IsApart s = record { cpu = refl; system = refl; stopped = λ e. ground (arith, e) }

line_work-IsApart : (s : System) → IsApart s (line_work s)
unfolding line_work visible_line vblank_line vblank_begin request_nmi pre_render_line advance
line_work-IsApart s = record {
  cpu = ground arith;
  system = ground arith;
  stopped = λ e. ground (arith, e);
}

ppu_cycle-IsApart : (s : System) → IsApart s (ppu_cycle s)
unfolding ppu_cycle
ppu_cycle-IsApart s =
    IsApart-then s (advance s) (line_work (advance s)) (advance-IsApart s)
      (line_work-IsApart (advance s))

-- The loop of the PPU does not touch the clock of the CPU or that of the system, and a request to stop
-- stays.
pub step_to-IsApart : (fuel count : ℕ) (s : System) → IsApart s (step_to fuel count s)
unfolding step_to
step_to-IsApart zero count s = record { cpu = refl; system = refl; stopped = λ e. e }
step_to-IsApart (suc fuel) count s = elim (Bool-cases (behind count s)) [
  | inl e ↦
      rw (e, step_to)
        (IsApart-then s (ppu_cycle s) (step_to fuel count (ppu_cycle s)) (ppu_cycle-IsApart s)
          (step_to-IsApart fuel count (ppu_cycle s)))
  | inr e ↦ rw (e, step_to) (record { cpu = refl; system = refl; stopped = λ q. q })
]
