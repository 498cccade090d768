-- ===== src/System/Fits/Frames.antt =====
-- The cycles of the PPU, and its loop.
use neschan.Base.{
  ℕ, zero, suc, ◌-◌, ◌%◌, arith, ◌==◌, ltb, leb, if◌then◌else◌, Bool, true, false, Bool-cases, inl,
  inr, ◌&&◌, ◌||◌,
}
use neschan.Ppu.State.{Ppu}
use neschan.Ppu.Fits.{PpuFits, PpuFits-if}
use neschan.Ppu.Fits.Background.{fetch_tile_pipeline-PpuFits}
use neschan.Ppu.Fits.Sprites.{fetch_sprite_pipeline-PpuFits, move_beam-PpuFits}
use neschan.System.State.{System}
use neschan.System.Bus.{request_nmi}
use neschan.System.Beam.{
  advance, visible_line, vblank_begin, vblank_line, pre_render_start, pre_render_line, line_work,
  ppu_cycle, behind, step_to,
}
use neschan.System.Fits.{Fits, with_cpu, with_ppu}

Fits-if : (b : Bool) (s t : System) → Fits s → Fits t → Fits (if b then s else t)
Fits-if true s t i j = i
Fits-if false s t i j = j

advance-Fits : (s : System) → Fits s → Fits (advance s)
unfolding advance
advance-Fits s i = record {
  cpu = i.cpu;
  ram = i.ram;
  mapper = i.mapper;
  info = i.info;
  ppu = move_beam-PpuFits 1 s.ppu i.ppu;
}

visible_line-Fits : (s : System) → Fits s → Fits (visible_line s)
unfolding visible_line
visible_line-Fits s i =
    with_ppu s _ (fetch_sprite_pipeline-PpuFits _ (fetch_tile_pipeline-PpuFits s.ppu i.ppu)) i

-- The flag of the vertical blank.
blank : (b : Bool) (p : Ppu) → PpuFits p → PpuFits (record p { vblank_started = b })
blank b p f = record {
  ports = omega (arith, f.ports);
  pipes = omega (arith, f.pipes);
  bytes = f.bytes;
}

vblank_begin-Fits : (s : System) → Fits s → Fits (vblank_begin s)
unfolding vblank_begin request_nmi
vblank_begin-Fits s i =
    let j = with_ppu s _ (blank true s.ppu i.ppu) i in
    Fits-if s.ppu.vblank_nmi _ _ (with_cpu _ _ (omega (arith, i.cpu)) j) j

vblank_line-Fits : (s : System) → Fits s → Fits (vblank_line s)
unfolding vblank_line
vblank_line-Fits s i =
    let t : System =
      if (s.ppu.cur_scanline == 241) && (s.ppu.scanline_cycle == 1) then vblank_begin s else s in
    let j : Fits t =
      Fits-if ((s.ppu.cur_scanline == 241) && (s.ppu.scanline_cycle == 1)) (vblank_begin s) s
        (vblank_begin-Fits s i) i in
    Fits-if ((s.ppu.cur_scanline == 260) && ltb (341 - 12) s.ppu.scanline_cycle) _ t
      (with_ppu t _ (blank false t.ppu j.ppu) j) j

pre_render_start-PpuFits : (p : Ppu) → PpuFits p → PpuFits (pre_render_start p)
unfolding pre_render_start
pre_render_start-PpuFits p f =
    PpuFits-if (p.scanline_cycle == 0) _ _ started (PpuFits-if (p.scanline_cycle == 1) _ p missed f)
  where
    missed : PpuFits (record p { sprite_0_hit = false })
    missed = record {
      ports = omega (arith, f.ports);
      pipes = omega (arith, f.pipes);
      bytes = f.bytes;
    }

    started : PpuFits (record p {
      vblank_started = false;
      ppu_addr = if p.show_bg || p.show_sprites then p.temp_ppu_addr else p.ppu_addr;
    })
    started = record {
      ports = ground (arith, f.ports);
      pipes = omega (arith, f.pipes);
      bytes = f.bytes;
    }

pre_render_line-Fits : (s : System) → Fits s → Fits (pre_render_line s)
unfolding pre_render_line
pre_render_line-Fits s i =
    let t : System =
      if s.ppu.cur_scanline == 261 then record s { ppu = pre_render_start s.ppu } else s in
    let j : Fits t =
      Fits-if (s.ppu.cur_scanline == 261) _ s
        (with_ppu s _ (pre_render_start-PpuFits s.ppu i.ppu) i) i in
    Fits-if ((s.ppu.scanline_cycle == 340) && (s.ppu.frame_count % 2 == 1)) (advance t) t
      (advance-Fits t j) j

line_work-Fits : (s : System) → Fits s → Fits (line_work s)
unfolding line_work
line_work-Fits s i = Fits-if (leb s.ppu.cur_scanline 239) _ _ (visible_line-Fits s i) (
    Fits-if (s.ppu.cur_scanline == 240) s _ i
      (Fits-if (ltb s.ppu.cur_scanline 261) _ _ (vblank_line-Fits s i) (pre_render_line-Fits s i)))

-- Every cycle of the PPU leaves every value of the machine within its C type.
ppu_cycle-Fits : (s : System) → Fits s → Fits (ppu_cycle s)
unfolding ppu_cycle
ppu_cycle-Fits s i = line_work-Fits (advance s) (advance-Fits s i)

pub beam-Fits : (fuel count : ℕ) (s : System) → Fits s → Fits (step_to fuel count s)
unfolding step_to
beam-Fits zero count s i = i
beam-Fits (suc fuel) count s i = elim (Bool-cases (behind count s)) [
  | inl e ↦ rw (e, step_to) (beam-Fits fuel count (ppu_cycle s) (ppu_cycle-Fits s i))
  | inr e ↦ rw (e, step_to) i
]
