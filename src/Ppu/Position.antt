-- ===== src/Ppu/Position.antt =====
-- The beam's position after `step_ppu` (lib/src/nes_ppu.cpp).
use neschan.Base.{
  ℕ, ◌+◌, ◌*◌, ◌%◌, ◌<◌, ◌≡◌, refl, arith, leb, ltb, ◌&&◌, Bool, some, if◌then◌else◌, u32,
}
use neschan.Ppu.State.{Ppu}
use neschan.Ppu.Timing.{step_ppu, move_beam, next_scanline, next_frame}

-- The dots since the start of the frame.
abbrev pub dot : Ppu → ℕ
dot p = p.cur_scanline * 341 + p.scanline_cycle

pub record IsOnScreen (p : Ppu) : Type 0 where
  pub cycle : p.scanline_cycle < 341
  pub scanline : p.cur_scanline < 262

-- The beam from `p` to `r.0`, where `r.1` tells whether the system is stopped.
pub record IsStep (count : ℕ) (p : Ppu) (r : Ppu × Bool) : Type 0 where
  pub on_screen : IsOnScreen r.0
  pub position : dot r.0 ≡ (dot p + count) % 89342
  pub clock : r.0.master_cycle ≡ p.master_cycle + count
  -- A frame is counted, in 32 bits, exactly when the beam starts over.
  pub frames :
      r.0.frame_count
      ≡ (if leb 89342 (dot p + count) then u32 (p.frame_count + 1) else p.frame_count)
  pub stops : r.1 ≡ (
      leb 89342 (dot p + count)
      && (p.auto_stop && ltb p.stop_after_frame (u32 (p.frame_count + 1))))

pub move_beam-IsStep :
    (count : ℕ) (p : Ppu) → IsOnScreen p → count < 341 → IsStep count p (move_beam count p)
unfolding move_beam next_scanline next_frame
move_beam-IsStep count p on lt = record {
  on_screen = record {
    cycle = ground (arith, on.cycle, on.scanline);
    scanline = ground (arith, on.cycle, on.scanline);
  };
  position = ground (arith, on.cycle, on.scanline);
  clock = ground arith;
  frames = ground (arith, on.cycle, on.scanline);
  stops = ground (arith, on.cycle, on.scanline);
}

-- The only step that the code makes.
step_ppu-one : (p : Ppu) → step_ppu 1 p ≡ some (move_beam 1 p)
unfolding step_ppu
step_ppu-one p = refl

-- A step of less than a scanline, from a place on the screen, passes the assertion, moves the beam on by
-- as many dots, around a frame of 262 times 341, and keeps it on the screen. It counts a frame, in 32
-- bits, exactly when it starts over, and then stops the system exactly when it is to stop by itself and
-- the number of frames is exceeded.
pub step_ppu-IsStep :
    (count : ℕ) (p : Ppu)
    → IsOnScreen p
    → count < 341
    → (r : Ppu × Bool) × (step_ppu count p ≡ some r) × IsStep count p r
unfolding step_ppu
step_ppu-IsStep count p on lt = (move_beam count p, ground arith, move_beam-IsStep count p on lt)
