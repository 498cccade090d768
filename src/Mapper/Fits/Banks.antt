-- ===== src/Mapper/Fits/Banks.antt =====
-- The registers of the MMC3.
use neschan.Base.{ℕ, ◌<◌, arith, bit_and, if◌then◌else◌, leb, test_bits, not}
use neschan.Base.Widths.{bit_and-le}
use neschan.Ppu.Vram.{write_bytes, set_mirroring}
use neschan.Ppu.Fits.Memory.{write_bytes-PpuFits, set_mirroring-PpuFits}
use neschan.Mapper.Info.{Target}
use neschan.Mapper.Mmc3
use neschan.Mapper.Fits.{
  TargetFits, Mmc3Fits, Gives, nothing, just, Gives-if, Gives-then, Both, slice-Gives,
  slice_end-Gives, load_prg-Gives, TargetFits-if, with_ppu,
}

load_chr_bank-TargetFits :
    (v : ℕ) (m : Mmc3.Mmc3) (t : Target)
    → Mmc3Fits m
    → TargetFits t
    → TargetFits (Mmc3.load_chr_bank v m t)
unfolding Mmc3.load_chr_bank
load_chr_bank-TargetFits v m t g f =
    TargetFits-if _ _ _ f (with_ppu t _ (write_bytes-PpuFits _ _ _ t.ppu (λ i. g.chr _) f.ppu) f)

load_fixed_bank-Gives :
    (m : Mmc3.Mmc3) (t : Target)
    → Mmc3Fits m
    → TargetFits t
    → Gives TargetFits (Mmc3.load_fixed_bank m t)
unfolding Mmc3.load_fixed_bank
load_fixed_bank-Gives m t g f =
    let bank = slice_end-Gives m.prg_rom 0x4000 0x2000 g.prg in
    Gives-if _ _ _
      (Gives-if _ _ _ (load_prg-Gives 0x8000 _ _ t bank f) (load_prg-Gives 0xc000 _ _ t bank f))
      (just f)

load_prg_bank-Gives :
    (v : ℕ) (m : Mmc3.Mmc3) (t : Target)
    → Mmc3Fits m
    → TargetFits t
    → Gives TargetFits (Mmc3.load_prg_bank v m t)
unfolding Mmc3.load_prg_bank
load_prg_bank-Gives v m t g f =
    Gives-if _ _ _ (just f) (load_prg-Gives _ _ _ t (slice-Gives m.prg_rom _ 0x2000 g.prg) f)

write_bank_data-Gives :
    (v : ℕ) (m : Mmc3.Mmc3) (t : Target)
    → Mmc3Fits m
    → TargetFits t
    → Gives (Both Mmc3Fits) (Mmc3.write_bank_data v m t)
unfolding Mmc3.write_bank_data
write_bank_data-Gives v m t g f = Gives-then _ _ (load_fixed_bank-Gives m t g f) λ u h.
    Gives-then _ _
      (Gives-if _ _ _ (load_prg_bank-Gives v m u g h) (just (load_chr_bank-TargetFits v m u g h)))
      λ w k. just (moded, k)
  where
    moded : Mmc3Fits (record m { prev_prg_mode = bit_and m.bank_select 0x40 })
    moded = record {
      prg = g.prg;
      chr = g.chr;
      bank_select = g.bank_select;
      prev_prg_mode = omega (arith, bit_and-le m.bank_select 0x40);
    }

-- A write to a register of the MMC3 leaves bytes.
pub write_reg-Gives :
    (addr v : ℕ) (m : Mmc3.Mmc3) (t : Target)
    → v < 256
    → Mmc3Fits m
    → TargetFits t
    → Gives (Both Mmc3Fits) (Mmc3.write_reg addr v m t)
unfolding Mmc3.write_reg Mmc3.write_bank_select Mmc3.write_mirroring
write_reg-Gives addr v m t lt g f =
    Gives-if (leb addr 40959) _ _
      (Gives-if (test_bits addr 1) _ _ (write_bank_data-Gives v m t g f) (just (selected, f)))
      (Gives-if (leb addr 49151) _ _
        (Gives-if (test_bits addr 1) _ _ nothing (
          just (
            mirrored,
            with_ppu t _
                (set_mirroring-PpuFits
                  (if not (test_bits v 1)
                    then neschan.Ppu.Vram.flags_vertical_mirroring
                    else neschan.Ppu.Vram.flags_horizontal_mirroring)
                  t.ppu f.ppu)
                f,
          )))
        (Gives-if (leb addr 57343) _ _ nothing
          (Gives-if (test_bits addr 1) _ _ nothing (just (g, f)))))
  where
    selected : Mmc3Fits (record m { bank_select = v })
    selected = record {
      prg = g.prg;
      chr = g.chr;
      bank_select = lt;
      prev_prg_mode = g.prev_prg_mode;
    }

    mirrored : Mmc3Fits (record m { vertical_mirroring = not (test_bits v 1) })
    mirrored = record {
      prg = g.prg;
      chr = g.chr;
      bank_select = g.bank_select;
      prev_prg_mode = g.prev_prg_mode;
    }
