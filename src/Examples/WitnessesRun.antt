-- ===== src/Examples/WitnessesRun.antt =====
-- The theorems on the run of the machine, on the PPU's pipelines and on files at concrete inputs.
use neschan.Base.{◌+◌, ◌*◌, ◌≡◌, arith, refl, ◌==◌, ◌&&◌, ◌||◌, true, if◌then◌else◌}
use neschan.Ppu.State.{Ppu}
use neschan.Ppu.Position.{IsOnScreen, dot}
use neschan.Ppu.Drawing.{IsDrawing}
use neschan.Ppu.Drawing.Lines.{pipelines-IsDrawing}
use neschan.Ppu.Tile.{fetch_tile_pipeline}
use neschan.Ppu.Sprites.{fetch_sprite_pipeline}
use neschan.System.State.{System}
use neschan.System.Beam
use neschan.System.Beam.{ppu_cycle}
use neschan.System.Beam.Catches.{IsCaughtUp, step_to-IsCaughtUp}
use neschan.System.Beam.Nmi.{ppu_cycle-nmi}
use neschan.System.Run.{step}
use neschan.System.Clocks.Step.{IsStepped, step-IsStepped}
use neschan.Rom.{Rom}
use neschan.Mapper.Loader.{load_from, mapper_id}
use neschan.Mapper.Files.{is_some, is_complete, is_supported, load_from-is_some}
use neschan.Examples.Machine.{blank_system, blank_ppu}

-- Dot 70 of line 30, where both pipelines are at work.
abbrev drawing : Ppu
drawing = record blank_ppu {
  cur_scanline = 30;
  scanline_cycle = 70;
  show_bg = true;
  show_sprites = true;
}

pipelines-IsDrawing_example :
    IsDrawing drawing (fetch_sprite_pipeline (fetch_tile_pipeline drawing))
pipelines-IsDrawing_example = pipelines-IsDrawing drawing

-- The last dot before the vertical blank, with the interrupt allowed.
abbrev before_vblank : System
before_vblank = record blank_system {
  ppu = record blank_ppu { cur_scanline = 241; scanline_cycle = 0; vblank_nmi = true };
}

on_screen : IsOnScreen before_vblank.ppu
on_screen = record { cycle = omega arith; scanline = omega arith }

ppu_cycle-nmi_example : (ppu_cycle before_vblank).cpu.nmi_pending ≡ (
    before_vblank.cpu.nmi_pending
    || ((dot before_vblank.ppu == 241 * 341) && before_vblank.ppu.vblank_nmi))
ppu_cycle-nmi_example = ppu_cycle-nmi before_vblank on_screen

step_to-IsCaughtUp_example :
    IsCaughtUp
      (before_vblank.ppu.master_cycle + 400)
      before_vblank
      (Beam.step_to 400 (before_vblank.ppu.master_cycle + 400) before_vblank)
step_to-IsCaughtUp_example =
    step_to-IsCaughtUp 400 (before_vblank.ppu.master_cycle + 400) before_vblank on_screen
      (omega arith)

step-IsStepped_example : IsStepped (before_vblank.master_cycle + 12) (step 12 before_vblank)
step-IsStepped_example = step-IsStepped 12 before_vblank on_screen

-- A file with a header that asks for one bank of each ROM.
abbrev cartridge : Rom
cartridge = record { size = 0x6010; byte = λ i. if (i == 4) || (i == 5) then 1 else 0 }

load_from-is_some_example :
    is_some (load_from 0 0 cartridge) ≡ (is_complete cartridge && is_supported cartridge)
load_from-is_some_example = load_from-is_some 0 0 cartridge

cartridge_is_taken : (is_complete cartridge && is_supported cartridge) ≡ true
unfolding mapper_id
cartridge_is_taken = refl
