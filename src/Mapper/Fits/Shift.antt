-- ===== src/Mapper/Fits/Shift.antt =====
-- The registers of the MMC1.
use neschan.Base.{ℕ, ◌+◌, ◌<◌, arith, bit_and, ◌<<<◌, IsBytes, leb, test_bits, u8}
use neschan.Base.Widths.{or_byte, bit_and-le}
use neschan.Ppu.Fits.Memory.{write_bytes-PpuFits, set_mirroring-PpuFits}
use neschan.Rom.{Rom}
use neschan.Mapper.Info.{Target}
use neschan.Mapper.Mmc1
use neschan.Mapper.Fits.{
  TargetFits, Mmc1Fits, Gives, just, Gives-if, Gives-then, Both, slice-Gives, slice_end-Gives,
  load_prg-Gives, TargetFits-if, with_ppu,
}

load_chr-TargetFits :
    (addr : ℕ) (chr : Rom) (off n : ℕ) (t : Target)
    → IsBytes chr.byte
    → TargetFits t
    → TargetFits (Mmc1.load_chr addr chr off n t)
unfolding Mmc1.load_chr
load_chr-TargetFits addr chr off n t h f =
    TargetFits-if _ _ _ f
      (with_ppu t _ (write_bytes-PpuFits addr _ n t.ppu (λ i. h (off + i)) f.ppu) f)

load_prg_bank-Gives :
    (v : ℕ) (m : Mmc1.Mmc1) (t : Target)
    → Mmc1Fits m
    → TargetFits t
    → Gives TargetFits (Mmc1.load_prg_bank v m t)
unfolding Mmc1.load_prg_bank
load_prg_bank-Gives v m t g f =
    let whole = slice-Gives m.prg_rom _ 0x8000 g.prg in
    let bank = slice-Gives m.prg_rom _ 0x4000 g.prg in
    Gives-if _ _ _
      (Gives-if _ _ _
        (Gives-then _ _ (load_prg-Gives 0x8000 _ _ t bank f)
          λ u h. load_prg-Gives 0xc000 _ _ u (slice_end-Gives m.prg_rom 0x4000 0x4000 g.prg) h)
        (Gives-then _ _ (load_prg-Gives 0x8000 _ _ t (slice-Gives m.prg_rom 0 0x4000 g.prg) f)
          λ u h. load_prg-Gives 0xc000 _ _ u bank h))
      (load_prg-Gives 0x8000 _ _ t whole f)

write_selected-Gives :
    (addr v : ℕ) (m : Mmc1.Mmc1) (t : Target)
    → v < 256
    → Mmc1Fits m
    → TargetFits t
    → Gives (Both Mmc1Fits) (Mmc1.write_selected addr v m t)
unfolding Mmc1.write_selected Mmc1.write_control Mmc1.write_chr_bank_0 Mmc1.write_chr_bank_1
    Mmc1.write_prg_bank
write_selected-Gives addr v m t lt g f =
    Gives-if _ _ _ (just (controlled, with_ppu t _ (set_mirroring-PpuFits _ t.ppu f.ppu) f)) (
      Gives-if (leb addr 49151) _ _
        (just (
          g,
          TargetFits-if (test_bits m.control 0x10) _ _
              (load_chr-TargetFits 0 m.chr_rom (bit_and v 31 <<< 12) 0x1000 t g.chr f)
              (load_chr-TargetFits 0 m.chr_rom (bit_and v 30 <<< 12) 0x2000 t g.chr f),
        ))
        (Gives-if (leb addr 57343) _ _
          (just (
            g,
            TargetFits-if (test_bits m.control 0x10) _ t
                (load_chr-TargetFits 0x1000 m.chr_rom (bit_and v 31 <<< 12) 0x1000 t g.chr f) f,
          ))
          (Gives-then _ _ (load_prg_bank-Gives v m t g f) λ u h. just (g, h))))
  where
    controlled : Mmc1Fits (record m { control = v })
    controlled = record {
      prg = g.prg;
      chr = g.chr;
      bit_latch = g.bit_latch;
      reg = g.reg;
      control = lt;
    }

shift_in-lt : (reg v : ℕ) → reg < 256 → Mmc1.shift_in reg v < 256
unfolding Mmc1.shift_in
shift_in-lt reg v h = or_byte _ _ (omega arith) (omega (arith, bit_and-le v 1))

latched :
    (m : Mmc1.Mmc1) (latch reg : ℕ)
    → latch < 256
    → reg < 256
    → Mmc1Fits m
    → Mmc1Fits (record m { bit_latch = latch; reg = reg })
latched m latch reg h k g = record {
  prg = g.prg;
  chr = g.chr;
  bit_latch = h;
  reg = k;
  control = g.control;
}

-- A write to a register of the MMC1 leaves bytes.
pub write_reg-Gives :
    (addr v : ℕ) (m : Mmc1.Mmc1) (t : Target)
    → Mmc1Fits m
    → TargetFits t
    → Gives (Both Mmc1Fits) (Mmc1.write_reg addr v m t)
unfolding Mmc1.write_reg
write_reg-Gives addr v m t g f =
    let reg = Mmc1.shift_in m.reg v in
    let lt = shift_in-lt m.reg v g.reg in
    Gives-if _ _ _ (just (latched m 0 0x10 (omega arith) (omega arith) g, f)) (
      Gives-if _ _ _ (write_selected-Gives addr reg _ t lt (latched m 0 reg (omega arith) lt g) f)
        (just (latched m (u8 (m.bit_latch + 1)) reg (omega arith) lt g, f)))
