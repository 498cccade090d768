-- ===== src/System/Beam/Nmi.antt =====
-- When the PPU asks the CPU for an interrupt.
use neschan.Base.{◌*◌, ◌≡◌, ap, ◌∙◌, arith, Bool, ◌&&◌, ◌||◌, ◌==◌}
use neschan.Ppu.State.{Ppu}
use neschan.Ppu.Timing.{move_beam, next_scanline, next_frame}
use neschan.Ppu.Position.{IsOnScreen, dot}
use neschan.System.State.{System}
use neschan.System.Bus.{request_nmi}
use neschan.System.Beam.{
  advance, visible_line, vblank_begin, vblank_line, pre_render_line, line_work, ppu_cycle,
}

-- The beam at dot 1 of line 241.
abbrev at_vblank : Ppu → Bool
at_vblank p = (p.cur_scanline == 241) && (p.scanline_cycle == 1)

line_work-nmi :
    (s : System)
    → (line_work s).cpu.nmi_pending ≡ (s.cpu.nmi_pending || (at_vblank s.ppu && s.ppu.vblank_nmi))
unfolding line_work visible_line vblank_line vblank_begin request_nmi pre_render_line advance
line_work-nmi s = ground arith

advance-at_vblank :
    (s : System) → IsOnScreen s.ppu → at_vblank (advance s).ppu ≡ (dot s.ppu == 241 * 341)
unfolding advance move_beam next_scanline next_frame
advance-at_vblank s on = ground (arith, on.cycle, on.scanline)

advance-vblank_nmi : (s : System) → (advance s).ppu.vblank_nmi ≡ s.ppu.vblank_nmi
unfolding advance move_beam next_scanline next_frame
advance-vblank_nmi s = ground arith

-- One cycle of the PPU leaves the pending interrupt of the CPU as it is, and requests one in just one
-- place of the frame: when the beam moves on from dot 0 of line 241, and only if PPUCTRL allows it.
pub ppu_cycle-nmi :
    (s : System)
    → IsOnScreen s.ppu
    → (ppu_cycle s).cpu.nmi_pending
      ≡ (s.cpu.nmi_pending || ((dot s.ppu == 241 * 341) && s.ppu.vblank_nmi))
unfolding ppu_cycle advance
ppu_cycle-nmi s on =
    line_work-nmi (advance s)
    ∙ ap (λ b. s.cpu.nmi_pending || (b && (advance s).ppu.vblank_nmi)) (advance-at_vblank s on)
    ∙ ap (λ b. s.cpu.nmi_pending || ((dot s.ppu == 241 * 341) && b)) (advance-vblank_nmi s)
