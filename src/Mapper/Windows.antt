-- ===== src/Mapper/Windows.antt =====
-- Where the PRG ROM of an NROM cartridge stands (lib/src/mappers/nes_mapper_nrom.cpp).
pub mod Banks
use neschan.Base.{ℕ, ◌+◌, ◌-◌, ◌<◌, ◌≤◌, ◌≡◌, refl, arith, copy, Bytes, memcpy_s, some, ◌∙◌}
use neschan.Rom.{slice}
use neschan.Memory.Ram.{set_bytes, redirect_addr}
use neschan.Memory.Map.{redirect_addr_eq}
use neschan.Mapper.Info.{Target}
use neschan.Mapper.Nrom.{Nrom, on_load_ram}

abbrev with_prg : ℕ → Bytes → ℕ → Target → Target
with_prg addr bytes size t = record t { ram = copy t.ram addr bytes size }

set_bytes_eq :
    (addr size : ℕ) (bytes ram : Bytes)
    → 0x4000 ≤ addr
    → 1 ≤ size
    → addr + size ≤ 0x10000
    → set_bytes addr bytes size ram ≡ some (copy ram addr bytes size)
unfolding set_bytes memcpy_s
set_bytes_eq addr size bytes ram lo s h = rw same (ground arith)
  where
    same : redirect_addr addr ≡ addr
    same = redirect_addr_eq addr (omega arith) ∙ ground arith

-- What the copies are given.
abbrev prg : Nrom → Bytes
prg m i = m.prg_rom.byte (0 + i)

-- The 16 KB of a small PRG ROM, read from both windows.
pub record IsMirrored (m : Nrom) (t t' : Target) : Type 0 where
  pub low : (i : ℕ) → i < 0x4000 → t'.ram (0x8000 + i) ≡ m.prg_rom.byte i
  pub high : (i : ℕ) → i < 0x4000 → t'.ram (0xc000 + i) ≡ m.prg_rom.byte i
  pub below : (a : ℕ) → a < 0x8000 → t'.ram a ≡ t.ram a
  pub ppu : t'.ppu ≡ t.ppu

whole : (m : Nrom) → slice m.prg_rom 0 m.prg_rom.size ≡ some (prg m)
unfolding slice
whole m = ground arith

-- An NROM cartridge with a PRG ROM of 16 KB loads, and its ROM is read at 0x8000 and again at 0xc000;
-- the memory below and the PPU stay as they were.
pub on_load_ram-IsMirrored :
    (m : Nrom) (t : Target)
    → m.prg_rom.size ≡ 0x4000
    → (t' : Target) × (on_load_ram m t ≡ some t') × IsMirrored m t t'
unfolding on_load_ram
on_load_ram-IsMirrored m t e = (
  with_prg 0xc000 (prg m) 0x4000 (with_prg 0x8000 (prg m) 0x4000 t),
  rw (
    whole m,
    e,
    set_bytes_eq 0x8000 0x4000 (prg m) t.ram (omega arith) (omega arith) (omega arith),
    set_bytes_eq 0xc000 0x4000 (prg m) (copy t.ram 0x8000 (prg m) 0x4000) (omega arith)
        (omega arith) (omega arith),
  ),
  record {
    low = λ i h. rw (low_offset i, prg) (ground arith);
    high = λ i h. rw (high_offset i, prg) (ground arith);
    below = λ a h. ground arith;
    ppu = refl;
  },
)
  where
    low_offset : (i : ℕ) → 0 + (0x8000 + i - 0x8000) ≡ i
    low_offset i = omega arith

    high_offset : (i : ℕ) → 0 + (0xc000 + i - 0xc000) ≡ i
    high_offset i = omega arith
