-- ===== src/System/Beam/Catches.antt =====
-- The loop of `nes_ppu::step_to` (lib/src/nes_ppu.cpp) catches up.
use neschan.Base.{
  ℕ, zero, suc, ◌+◌, ◌≤◌, ◌≡◌, arith, inl, inr, Bool-cases, if◌then◌else◌, Bool, true, false, ◌==◌,
}
use neschan.Ppu.Position.{IsOnScreen, move_beam-IsStep}
use neschan.Ppu.Drawing.Lines.{pipelines-IsDrawing}
use neschan.System.State.{System}
use neschan.System.Beam.{
  advance, visible_line, vblank_begin, vblank_line, pre_render_start, pre_render_line, line_work,
  ppu_cycle, behind, step_to,
}

-- The clock of the PPU is further on, by `n` to `m` cycles, and the beam is on the screen.
pub record IsFurther (n m : ℕ) (s t : System) : Type 0 where
  pub on_screen : IsOnScreen t.ppu
  pub least : s.ppu.master_cycle + n ≤ t.ppu.master_cycle
  pub most : t.ppu.master_cycle ≤ s.ppu.master_cycle + m

advance-IsFurther : (s : System) → IsOnScreen s.ppu → IsFurther 1 1 s (advance s)
unfolding advance
advance-IsFurther s on = record {
  on_screen = (move_beam-IsStep 1 s.ppu on (omega arith)).on_screen;
  least = omega (arith, (move_beam-IsStep 1 s.ppu on (omega arith)).clock);
  most = omega (arith, (move_beam-IsStep 1 s.ppu on (omega arith)).clock);
}

visible_line-IsFurther : (s : System) → IsOnScreen s.ppu → IsFurther 0 0 s (visible_line s)
unfolding visible_line
visible_line-IsFurther s on = record {
  on_screen = record {
    cycle = omega (arith, on.cycle, (pipelines-IsDrawing s.ppu).cycle);
    scanline = omega (arith, on.scanline, (pipelines-IsDrawing s.ppu).scanline);
  };
  least = omega (arith, (pipelines-IsDrawing s.ppu).clock);
  most = omega (arith, (pipelines-IsDrawing s.ppu).clock);
}

vblank_line-IsFurther : (s : System) → IsOnScreen s.ppu → IsFurther 0 0 s (vblank_line s)
unfolding vblank_line vblank_begin
vblank_line-IsFurther s on = record {
  on_screen = record { cycle = ground (arith, on.cycle); scanline = ground (arith, on.scanline) };
  least = ground arith;
  most = ground arith;
}

IsFurther-wider : (n k m : ℕ) (s t : System) → k ≤ m → IsFurther n k s t → IsFurther n m s t
IsFurther-wider n k m s t le f = record {
  on_screen = f.on_screen;
  least = f.least;
  most = omega (arith, f.most);
}

IsFurther-if :
    (b : Bool) (n m : ℕ) (s t u : System)
    → IsFurther n m s t
    → IsFurther n m s u
    → IsFurther n m s (if b then t else u)
IsFurther-if true n m s t u f g = f
IsFurther-if false n m s t u f g = g

started : System → System
unfolding pre_render_start
started s = if s.ppu.cur_scanline == 261 then record s { ppu = pre_render_start s.ppu } else s

started-IsFurther : (s : System) → IsOnScreen s.ppu → IsFurther 0 0 s (started s)
unfolding started pre_render_start
started-IsFurther s on = record {
  on_screen = record { cycle = ground (arith, on.cycle); scanline = ground (arith, on.scanline) };
  least = ground arith;
  most = ground arith;
}

then-advance :
    (n m : ℕ) (s t : System) → IsFurther n m s t → IsFurther (n + 1) (m + 1) s (advance t)
then-advance n m s t f = record {
  on_screen = (advance-IsFurther t f.on_screen).on_screen;
  least = omega (arith, f.least, (advance-IsFurther t f.on_screen).least);
  most = omega (arith, f.most, (advance-IsFurther t f.on_screen).most);
}

pre_render_line-IsFurther : (s : System) → IsOnScreen s.ppu → IsFurther 0 1 s (pre_render_line s)
unfolding pre_render_line started
pre_render_line-IsFurther s on =
    IsFurther-if _ 0 1 s (advance (started s)) (started s)
      (fewer (then-advance 0 0 s (started s) (started-IsFurther s on)))
      (IsFurther-wider 0 0 1 s (started s) (omega arith) (started-IsFurther s on))
  where
    fewer : {t : System} → IsFurther 1 1 s t → IsFurther 0 1 s t
    fewer f = record { on_screen = f.on_screen; least = omega (arith, f.least); most = f.most }

line_work-IsFurther : (s : System) → IsOnScreen s.ppu → IsFurther 0 1 s (line_work s)
unfolding line_work
line_work-IsFurther s on = IsFurther-if _ 0 1 s _ _ (wider (visible_line-IsFurther s on)) (
    IsFurther-if _ 0 1 s s _ (wider still) (
      IsFurther-if _ 0 1 s _ _ (wider (vblank_line-IsFurther s on))
        (pre_render_line-IsFurther s on)))
  where
    still : IsFurther 0 0 s s
    still = record { on_screen = on; least = omega arith; most = omega arith }

    wider : {t : System} → IsFurther 0 0 s t → IsFurther 0 1 s t
    wider {t} f = IsFurther-wider 0 0 1 s t (omega arith) f

-- One round of the loop moves the clock of the PPU on by one cycle, or by two at the end of the
-- pre-render line of an odd frame, and keeps the beam on the screen.
pub ppu_cycle-IsFurther : (s : System) → IsOnScreen s.ppu → IsFurther 1 2 s (ppu_cycle s)
unfolding ppu_cycle
ppu_cycle-IsFurther s on =
    let a = advance-IsFurther s on in
    let w = line_work-IsFurther (advance s) a.on_screen in
    record {
      on_screen = w.on_screen;
      least = omega (arith, a.least, w.least);
      most = omega (arith, a.most, w.most);
    }

-- Where the loop stops.
pub record IsCaughtUp (count : ℕ) (s t : System) : Type 0 where
  pub on_screen : IsOnScreen t.ppu
  pub ended : behind count t ≡ false
  -- It stops one cycle late at most, when it was not later before.
  pub most : s.ppu.master_cycle ≤ count + 1 → t.ppu.master_cycle ≤ count + 1

-- With a round for each cycle that is left, the loop of the PPU ends with its clock caught up, by one
-- cycle too far at most, or with the system stopped, and the beam stays on the screen.
pub step_to-IsCaughtUp :
    (fuel count : ℕ) (s : System)
    → IsOnScreen s.ppu
    → count ≤ s.ppu.master_cycle + fuel
    → IsCaughtUp count s (step_to fuel count s)
unfolding step_to
step_to-IsCaughtUp zero count s on le = record {
  on_screen = on;
  ended = ground arith;
  most = λ h. h;
}
step_to-IsCaughtUp (suc fuel) count s on le = elim (Bool-cases (behind count s)) [
  | inl e ↦
      rw (e, step_to)
        (let f = ppu_cycle-IsFurther s on in
          let r =
            step_to-IsCaughtUp fuel count (ppu_cycle s) f.on_screen (omega (arith, f.least)) in
          record {
            on_screen = r.on_screen;
            ended = r.ended;
            most = λ h. r.most (ground (arith, e, f.most));
          })
  | inr e ↦ rw (e, step_to) (record { on_screen = on; ended = e; most = λ h. h })
]
