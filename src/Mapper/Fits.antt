-- ===== src/Mapper/Fits.antt =====
-- The mappers copy bytes of their ROMs, and their registers stay bytes (lib/src/mappers,
-- lib/src/nes_mapper_mmc3.cpp).
pub mod Shift
pub mod Banks
pub mod Cartridge
use neschan.Base.{
  ℕ, ◌+◌, ◌<◌, ◌≡◌, refl, arith, bit_and, bit_or, ◌<<<◌, ◌>>>◌, if◌then◌else◌, Bool, true, false,
  Option, none, some, Bytes, IsBytes, memcpy_s,
}
use neschan.Base.Chain.{◌>>=◌}
use neschan.Base.Widths.{or_byte, widths, bit_and-le}
use neschan.Ppu.Vram.{write_bytes, set_mirroring}
use neschan.Ppu.Fits.{PpuFits}
use neschan.Ppu.Fits.Memory.{memcpy_s-IsBytes, write_bytes-PpuFits, set_mirroring-PpuFits}
use neschan.Rom.{Rom, slice, slice_end}
use neschan.Memory.Ram.{set_bytes}
use neschan.Mapper.Info.{MapperInfo, Target, load_prg}
use neschan.Mapper.Nrom
use neschan.Mapper.Mmc1
use neschan.Mapper.Mmc3
use neschan.Mapper.Loader.{Mapper, nrom, mmc1, mmc3, write_reg, on_load_ram, on_load_ppu}

pub record TargetFits (t : Target) : Type 0 where
  pub ram : IsBytes t.ram
  pub ppu : PpuFits t.ppu

pub record Mmc1Fits (m : Mmc1.Mmc1) : Type 0 where
  pub prg : IsBytes m.prg_rom.byte
  pub chr : IsBytes m.chr_rom.byte
  pub bit_latch : m.bit_latch < 256
  pub reg : m.reg < 256
  pub control : m.control < 256

pub record Mmc3Fits (m : Mmc3.Mmc3) : Type 0 where
  pub prg : IsBytes m.prg_rom.byte
  pub chr : IsBytes m.chr_rom.byte
  pub bank_select : m.bank_select < 256
  pub prev_prg_mode : m.prev_prg_mode < 256

pub record NromFits (m : Nrom.Nrom) : Type 0 where
  pub prg : IsBytes m.prg_rom.byte
  pub chr : IsBytes m.chr_rom.byte

pub record InfoFits (i : MapperInfo) : Type 0 where
  pub code_addr : i.code_addr < 0x10000
  pub reg_start : i.reg_start < 0x10000
  pub reg_end : i.reg_end < 0x10000
  pub flags : i.flags < 8

abbrev pub MapperFits : Mapper → Type 0
MapperFits (nrom m) = NromFits m
MapperFits (mmc1 m) = Mmc1Fits m
MapperFits (mmc3 m) = Mmc3Fits m

-- A result that may be missing, and fits where it is there.
pub data Gives {A : Type 0} (P : A → Type 0) : Option A → Type 0 where
  nothing : Gives P none
  just : {a : A} → P a → Gives P (some a)

pub Gives-if :
    {A : Type 0} {P : A → Type 0} (b : Bool) (r r' : Option A)
    → Gives P r
    → Gives P r'
    → Gives P (if b then r else r')
Gives-if true r r' g h = g
Gives-if false r r' g h = h

pub Gives-then :
    {A B : Type 0} {P : A → Type 0} {Q : B → Type 0} (r : Option A) (k : A → Option B)
    → Gives P r
    → ((a : A) → P a → Gives Q (k a))
    → Gives Q (r >>= k)
Gives-then r k nothing h = nothing
Gives-then r k (just p) h = h _ p

-- What a pair of a mapper and its target holds.
abbrev pub Both : {M : Type 0} → (M → Type 0) → M × Target → Type 0
Both P r = P r.0 × TargetFits r.1

set_bytes-Gives :
    (addr : ℕ) (src : Bytes) (n : ℕ) (ram : Bytes)
    → IsBytes src
    → IsBytes ram
    → Gives IsBytes (set_bytes addr src n ram)
unfolding set_bytes
set_bytes-Gives addr src n ram h k =
    Gives-if _ _ _ (just (memcpy_s-IsBytes ram src _ _ n k h)) nothing

pub slice-Gives : (r : Rom) (off n : ℕ) → IsBytes r.byte → Gives IsBytes (slice r off n)
unfolding slice
slice-Gives r off n h = Gives-if _ _ _ (just (λ i. h (off + i))) nothing

pub slice_end-Gives : (r : Rom) (back n : ℕ) → IsBytes r.byte → Gives IsBytes (slice_end r back n)
unfolding slice_end
slice_end-Gives r back n h = Gives-if _ _ _ (slice-Gives r _ n h) nothing

pub load_prg-Gives :
    (addr : ℕ) (src : Option Bytes) (n : ℕ) (t : Target)
    → Gives IsBytes src
    → TargetFits t
    → Gives TargetFits (load_prg addr src n t)
unfolding load_prg
load_prg-Gives addr src n t g f = Gives-then src _ g λ b hb.
    Gives-then (set_bytes addr b n t.ram) _ (set_bytes-Gives addr b n t.ram hb f.ram)
      λ ram hr. just (record { ram = hr; ppu = f.ppu })

pub TargetFits-if :
    (b : Bool) (t u : Target) → TargetFits t → TargetFits u → TargetFits (if b then t else u)
TargetFits-if true t u f g = f
TargetFits-if false t u f g = g

pub with_ppu : (t : Target) (p : _) → PpuFits p → TargetFits t → TargetFits (record t { ppu = p })
with_ppu t p g f = record { ram = f.ram; ppu = g }
