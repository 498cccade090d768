-- ===== src/Ppu/Timing.antt =====
-- `nes_ppu::step_ppu` (lib/src/nes_ppu.cpp): the position of the beam.
use neschan.Base.{ℕ, ◌+◌, ◌%◌, ltb, leb, Option, none, some, if◌then◌else◌, u32, Bool, false, ◌&&◌}
use neschan.Ppu.State.{Ppu, ppu_scanline_cycle, ppu_scanline_count, swap_buffer}

-- The end of a frame.
unfoldable pub next_frame : Ppu → Ppu
unfolding swap_buffer
next_frame p = record (swap_buffer p) {
  cur_scanline = p.cur_scanline % ppu_scanline_count;
  frame_count = u32 (p.frame_count + 1);
}

-- The end of a scanline; the second part says whether `_system->stop()` is called.
unfoldable pub next_scanline : Ppu → Ppu × Bool
unfolding next_frame
next_scanline p =
    let q = record p {
      scanline_cycle = p.scanline_cycle % ppu_scanline_cycle;
      cur_scanline = p.cur_scanline + 1;
    } in
    if leb ppu_scanline_count q.cur_scanline
    then (next_frame q, q.auto_stop && ltb q.stop_after_frame (next_frame q).frame_count)
    else (q, false)

-- `step_ppu` behind its assertion.
unfoldable pub move_beam : ℕ → Ppu → Ppu × Bool
unfolding next_scanline
move_beam count p =
    let q = record p {
      master_cycle = p.master_cycle + count;
      scanline_cycle = p.scanline_cycle + count;
    } in
    if leb ppu_scanline_cycle q.scanline_cycle then next_scanline q else (q, false)

-- `none` is the failed assertion.
unfoldable pub step_ppu : ℕ → Ppu → Option (Ppu × Bool)
unfolding move_beam
step_ppu count p = if ltb count ppu_scanline_cycle then some (move_beam count p) else none
