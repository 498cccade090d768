-- ===== src/System/Bus.antt =====
-- What the CPU reads and writes: `get_byte`, `set_byte` and the registers of lib/src/nes_memory.cpp
-- and lib/inc/nes_memory.h, with the calls of the PPU, the controllers, the mapper and back to the CPU.
use neschan.Base.{
  ℕ, ◌+◌, ◌-◌, ◌<<<◌, ◌>>>◌, bit_and, ◌==◌, leb, if◌then◌else◌, u16, test_bits, Bool, true, ◌&&◌,
  Option, none, some, update,
}
use neschan.Cpu.State.{Cpu}
use neschan.Ppu.State.{ppu_oam_size}
use neschan.Ppu.Registers.{
  read_latch, write_latch, write_ppuctrl, write_ppumask, read_ppustatus, write_oamaddr,
  write_oamdata, read_oamdata, write_ppuscroll, write_ppuaddr, write_ppudata, read_ppudata,
}
use neschan.Input.{read_controller, write_controller}
use neschan.Memory.Ram.{redirect_addr, is_io_reg, get_bytes}
use neschan.Mapper.Info.{MapperInfo, flags_has_registers}
use neschan.Mapper.Loader.{Mapper}
use neschan.Mapper.Loader
use neschan.System.State.{M, pure, ◌>>=◌, ◌>>◌, on_cpu, on_ppu, on_input, read_ppu, read_input}

unfoldable pub request_dma : ℕ → Cpu → Cpu
request_dma addr c = record c { dma_pending = true; dma_addr = addr }

unfoldable pub request_nmi : Cpu → Cpu
request_nmi c = record c { nmi_pending = true }

unfoldable pub write_oamdma : ℕ → M (Unit {0})
unfolding request_dma
write_oamdma val = on_cpu (request_dma (val <<< 8))

unfoldable pub read_io_reg : ℕ → M ℕ
read_io_reg addr =
    if addr == 0x2002
    then read_ppu read_ppustatus
    else if addr == 0x2004
    then read_ppu read_oamdata
    else if addr == 0x2007
    then read_ppu read_ppudata
    else if addr == 0x4016
    then read_input (read_controller 0)
    else if addr == 0x4017
    then read_input (read_controller 1)
    else read_ppu (λ p. (read_latch p, p))

unfoldable pub write_io_reg : ℕ → ℕ → M (Unit {0})
unfolding write_oamdma
write_io_reg addr val =
    if addr == 0x2000
    then on_ppu (write_ppuctrl val)
    else if addr == 0x2001
    then on_ppu (write_ppumask val)
    else if addr == 0x2003
    then on_ppu (write_oamaddr val)
    else if addr == 0x2004
    then on_ppu (write_oamdata val)
    else if addr == 0x2005
    then on_ppu (write_ppuscroll val)
    else if addr == 0x2006
    then on_ppu (write_ppuaddr val)
    else if addr == 0x2007
    then on_ppu (write_ppudata val)
    else if addr == 0x4014
    then write_oamdma val
    else if addr == 0x4016
    then on_input (write_controller val)
    else if addr == 0x4017
    then on_input (write_controller val)
    else on_ppu (write_latch val)

unfoldable pub get_byte : ℕ → M ℕ
get_byte addr =
    let a = redirect_addr addr in if is_io_reg a then read_io_reg a else λ s. some (s.mem.ram a, s)

unfoldable pub get_word : ℕ → M ℕ
get_word addr = do lo ← get_byte addr; hi ← get_byte (u16 (addr + 1)); pure (lo + (hi <<< 8))

-- Does the loaded mapper take the write?
unfoldable pub is_mapper_reg : ℕ → MapperInfo → Bool
is_mapper_reg addr info =
    test_bits info.flags flags_has_registers && (leb info.reg_start addr && leb addr info.reg_end)

unfoldable pub write_mapper : ℕ → ℕ → Mapper → M (Unit {0})
write_mapper addr val m s =
    elim (Loader.write_reg addr val m (record { ram = s.mem.ram; ppu = s.ppu })) [
      | none ↦ none
      | some (m', t) ↦
          some
            (tt, record s { mem = record (s.mem) { ram = t.ram; mapper = some m' }; ppu = t.ppu })
    ]

unfoldable pub write_ram : ℕ → ℕ → M (Unit {0})
write_ram addr val s =
    some (tt, record s { mem = record (s.mem) { ram = update s.mem.ram addr val } })

-- The end of `set_byte`, past the I/O registers.
unfoldable pub write_mem : ℕ → ℕ → Option Mapper → M (Unit {0})
unfolding is_mapper_reg write_mapper write_ram
write_mem addr val none s = write_ram addr val s
write_mem addr val (some m) s =
    if is_mapper_reg addr s.mem.mapper_info then write_mapper addr val m s else write_ram addr val s

unfoldable pub set_byte : ℕ → ℕ → M (Unit {0})
unfolding write_mem
set_byte addr val s =
    let a = redirect_addr addr in
    if is_io_reg a then write_io_reg a val s else write_mem a val s.mem.mapper s

unfoldable pub set_word : ℕ → ℕ → M (Unit {0})
set_word addr value = do set_byte addr (bit_and value 0xff); set_byte (u16 (addr + 1)) (value >>> 8)

-- `nes_ppu::oam_dma`: one page of memory into the OAM, from `_oam_addr` on and around.
unfoldable pub oam_dma : ℕ → M (Unit {0})
oam_dma addr s =
    let before_wrap = 0x100 - s.ppu.oam_addr in
    let direct = get_bytes s.ppu.oam 0 ppu_oam_size addr ppu_oam_size s.mem.ram in
    let first = get_bytes s.ppu.oam s.ppu.oam_addr before_wrap addr before_wrap s.mem.ram in
    if s.ppu.oam_addr == 0
    then elim direct [
      | none ↦ none
      | some o ↦ some (tt, record s { ppu = record (s.ppu) { oam = o } })
    ]
    else elim first [
      | none ↦ none
      | some o ↦
          elim (get_bytes o 0 (ppu_oam_size - before_wrap) (u16 (addr + before_wrap))
            (ppu_oam_size - before_wrap) s.mem.ram) [
              | none ↦ none
              | some o' ↦ some (tt, record s { ppu = record (s.ppu) { oam = o' } })
            ]
    ]
