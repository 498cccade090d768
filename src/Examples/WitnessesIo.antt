-- ===== src/Examples/WitnessesIo.antt =====
-- The theorems on the memory map, the PPU, the mappers and the controllers at concrete inputs.
use neschan.Base.{
  Bool, not, inl, ℕ, ◌*◌, ◌+◌, ◌%◌, ◌≡◌, refl, arith, true, false, none, some, ◌==◌, if◌then◌else◌,
}
use neschan.Memory.Ram.{redirect_addr}
use neschan.Memory.Map
use neschan.Memory.Map.{redirect_addr_eq, is_io_reg_eq, in_io}
use neschan.Ppu.State.{Ppu}
use neschan.Ppu.Vram
use neschan.Ppu.Vram.{read_byte, write_byte}
use neschan.Ppu.Mirror
use neschan.Ppu.Mirror.{redirect_addr-target, read_byte-write_byte}
use neschan.Ppu.Timing.{step_ppu}
use neschan.Ppu.Position.{IsStep, step_ppu-IsStep}
use neschan.Ppu.Registers.{write_ppuaddr}
use neschan.Ppu.Ports.{write_ppuaddr-twice}
use neschan.Input.{Input, poll_flags}
use neschan.Input.Serial.{read_times, results, buttons, strobed, read_times-strobed}
use neschan.Mapper.Info.{Target, ◌>>=◌}
use neschan.Mapper.Nrom.{Nrom, on_load_ram}
use neschan.Mapper.Windows.{IsMirrored, on_load_ram-IsMirrored}
use neschan.Mapper.Mmc1.{Mmc1, write_selected}
use neschan.Mapper.Serial.{Write, put, write_reg-five}
use neschan.System.State.{System}
use neschan.System.Bus.{oam_dma}
use neschan.System.Transfer.{IsTransfer, oam_dma-IsTransfer}
use neschan.Examples.Machine.{blank_system, zeros, blank_ppu, blank_input}

redirect_addr_eq_example : redirect_addr 0x1fff ≡ Map.target 0x1fff
redirect_addr_eq_example = redirect_addr_eq 0x1fff (omega arith)

redirect_addr-target_example :
    (Vram.redirect_addr 2 0x3805
      ≡ (if Mirror.is_unmirrored 2 0x3805 then 0x2805 else Mirror.hardware 2 0x3805))
    × ((Vram.redirect_addr 2 0x3805 == Mirror.hardware 2 0x3805)
        ≡ not (Mirror.is_unmirrored 2 0x3805))
redirect_addr-target_example = redirect_addr-target 2 0x3805 (omega arith) (omega arith)

-- A write to a mirror of the backdrop colour.
read_byte-write_byte_example : read_byte (write_byte 0x3f10 7 blank_ppu) 0x3f00 ≡ (
    if Mirror.hardware 2 0x3f10 == Mirror.hardware 2 0x3f00 then 7 else read_byte blank_ppu 0x3f00)
read_byte-write_byte_example =
    read_byte-write_byte blank_ppu 0x3f10 0x3f00 7 (omega arith) (omega arith) (omega arith) refl
      refl

-- The last dot of a frame.
abbrev last_dot : Ppu
last_dot = record blank_ppu { cur_scanline = 261; scanline_cycle = 340 }

step_ppu-IsStep_example : (r : Ppu × Bool) × (step_ppu 1 last_dot ≡ some r) × IsStep 1 last_dot r
step_ppu-IsStep_example =
    step_ppu-IsStep 1 last_dot (record { cycle = omega arith; scanline = omega arith })
      (omega arith)

write_ppuaddr-twice_example :
    let q = write_ppuaddr 0x08 (write_ppuaddr 0x21 blank_ppu) in
    (q.ppu_addr ≡ 0x21 % 64 * 256 + 0x08) × (q.addr_toggle ≡ false)
write_ppuaddr-twice_example =
    write_ppuaddr-twice 0x21 0x08 blank_ppu (omega arith) (omega arith) (omega arith) refl

-- A pad on the first port that holds A and Start.
abbrev with_pad : Input
with_pad = record blank_input {
  user_inputs = λ i. if i == 0 then some (record { poll_status = λ _. 0x90; polls = 0 }) else none;
}

read_times-strobed_example :
    (results (read_times 8 0 (strobed with_pad))
      ≡ some (buttons (poll_flags (with_pad.user_inputs 0))))
    × (read_times 9 0 (strobed with_pad) ≡ none)
read_times-strobed_example = read_times-strobed with_pad 0 (omega arith)

abbrev new_mmc1 : Mmc1
new_mmc1 = record {
  prg_rom = record { size = 0x8000; byte = zeros };
  chr_rom = record { size = 0x2000; byte = zeros };
  vertical_mirroring = false;
  bit_latch = 0;
  reg = 0x1b;
  control = 0;
}

abbrev board : Target
board = record { ram = zeros; ppu = blank_ppu }

abbrev to_control : ℕ → Write
to_control v = record { addr = 0x8000; val = v }

-- 0x1e into the control register.
write_reg-five_example :
    (put (to_control 0) (new_mmc1, board) >>= λ r. put (to_control 1) r >>= λ r.
    put (to_control 1) r >>= λ r. put (to_control 1) r >>= λ r. put (to_control 1) r)
    ≡ write_selected 0x8000 30 (record new_mmc1 { bit_latch = 0; reg = 30 }) board
write_reg-five_example =
    write_reg-five (to_control 0) (to_control 1) (to_control 1) (to_control 1) (to_control 1)
      new_mmc1 board (omega arith, omega arith, omega arith, omega arith, omega arith) refl
      (omega arith)

-- A transfer of page 2 that wraps around the OAM.
abbrev transferring : System
transferring = record blank_system { ppu = record blank_ppu { oam_addr = 0x10 } }

oam_dma-IsTransfer_example :
    (t : System) × (oam_dma 0x200 transferring ≡ some (tt, t)) × IsTransfer 0x200 transferring t
oam_dma-IsTransfer_example =
    oam_dma-IsTransfer 0x200 transferring
      (record { aligned = refl; word = omega arith; no_ports = inl (omega arith) }) (omega arith)

abbrev small : Nrom
small = record {
  prg_rom = record { size = 0x4000; byte = λ i. i % 256 };
  chr_rom = record { size = 0x2000; byte = zeros };
  vertical_mirroring = true;
}

on_load_ram-IsMirrored_example :
    (t' : Target) × (on_load_ram small board ≡ some t') × IsMirrored small board t'
on_load_ram-IsMirrored_example = on_load_ram-IsMirrored small board refl
