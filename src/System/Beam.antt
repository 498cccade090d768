-- ===== src/System/Beam.antt =====
-- `nes_ppu::step_to` (lib/src/nes_ppu.cpp): one PPU cycle of the machine, and the loop.
pub mod Catches
pub mod Cpu
pub mod Nmi
use neschan.Base.{
  ℕ, zero, suc, ◌-◌, ◌%◌, ◌==◌, ltb, leb, if◌then◌else◌, Bool, true, false, not, ◌&&◌, ◌||◌,
}
use neschan.Ppu.State.{Ppu}
use neschan.Ppu.Timing.{move_beam}
use neschan.Ppu.Tile.{fetch_tile_pipeline}
use neschan.Ppu.Sprites.{fetch_sprite_pipeline}
use neschan.System.State.{System}
use neschan.System.Bus.{request_nmi}

-- `step_ppu(1)`, whose assertion holds of one cycle (`step_ppu-one` of Ppu/Position), and which may stop the system.
unfoldable pub advance : System → System
advance s =
    let r = move_beam 1 s.ppu in record s { ppu = r.0; stop_requested = r.1 || s.stop_requested }

-- Lines 0 to 239.
unfoldable pub visible_line : System → System
visible_line s = record s { ppu = fetch_sprite_pipeline (fetch_tile_pipeline s.ppu) }

-- Dot 1 of line 241.
unfoldable pub vblank_begin : System → System
unfolding request_nmi
vblank_begin s =
    let t = record s { ppu = record (s.ppu) { vblank_started = true } } in
    if s.ppu.vblank_nmi then record t { cpu = request_nmi s.cpu } else t

-- Lines 241 to 260.
unfoldable pub vblank_line : System → System
unfolding vblank_begin
vblank_line s =
    let t =
      if (s.ppu.cur_scanline == 241) && (s.ppu.scanline_cycle == 1) then vblank_begin s else s in
    if (s.ppu.cur_scanline == 260) && ltb (341 - 12) s.ppu.scanline_cycle
    then record t { ppu = record (t.ppu) { vblank_started = false } }
    else t

-- The first two dots of line 261.
unfoldable pub pre_render_start : Ppu → Ppu
pre_render_start p =
    if p.scanline_cycle == 0
    then record p {
      vblank_started = false;
      ppu_addr = if p.show_bg || p.show_sprites then p.temp_ppu_addr else p.ppu_addr;
    }
    else if p.scanline_cycle == 1
    then record p { sprite_0_hit = false }
    else p

-- Line 261, and the cycle that an odd frame skips.
unfoldable pub pre_render_line : System → System
unfolding advance pre_render_start
pre_render_line s =
    let t = if s.ppu.cur_scanline == 261 then record s { ppu = pre_render_start s.ppu } else s in
    if (s.ppu.scanline_cycle == 340) && (s.ppu.frame_count % 2 == 1) then advance t else t

-- What follows `step_ppu` in the loop.
unfoldable pub line_work : System → System
unfolding visible_line vblank_line pre_render_line
line_work s =
    if leb s.ppu.cur_scanline 239
    then visible_line s
    else if s.ppu.cur_scanline == 240
    then s
    else if ltb s.ppu.cur_scanline 261
    then vblank_line s
    else pre_render_line s

unfoldable pub ppu_cycle : System → System
unfolding advance line_work
ppu_cycle s = line_work (advance s)

abbrev pub behind : ℕ → System → Bool
behind count s = ltb s.ppu.master_cycle count && not s.stop_requested

-- Each round moves `_master_cycle` on, so `count` rounds are enough.
unfoldable pub step_to : ℕ → ℕ → System → System
step_to zero count s = s
step_to (suc fuel) count s = elim (behind count s) [
  | false ↦ s
  | true ↦ step_to fuel count (ppu_cycle s)
]
