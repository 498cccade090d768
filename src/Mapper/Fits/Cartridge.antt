-- ===== src/Mapper/Fits/Cartridge.antt =====
-- Every cartridge: loading it, and writes to its registers.
use neschan.Base.{ℕ, ◌+◌, ◌*◌, ◌<◌, arith, Bool, Option, none, some, IsBytes, ◌==◌, test_bits}
use neschan.Ppu.Fits.Memory.{write_bytes-PpuFits}
use neschan.Rom.{Rom}
use neschan.Mapper.Info.{Target}
use neschan.Mapper.Nrom
use neschan.Mapper.Mmc1
use neschan.Mapper.Mmc3
use neschan.Mapper.Loader.{
  Mapper, nrom, mmc1, mmc3, write_reg, on_load_ram, on_load_ppu, load_from, make_mapper,
  read_header, read_file, mapper_id, get_info,
}
use neschan.Mapper.Fits.Shift
use neschan.Mapper.Fits.Banks
use neschan.Mapper.Fits.{
  TargetFits, NromFits, Mmc1Fits, Mmc3Fits, MapperFits, InfoFits, Gives, nothing, just, Gives-if,
  Gives-then, Both, slice-Gives, slice_end-Gives, load_prg-Gives, with_ppu,
}

-- A write to a register of any mapper.
pub write_reg-Gives :
    (addr v : ℕ) (m : Mapper) (t : Target)
    → v < 256
    → MapperFits m
    → TargetFits t
    → Gives (Both MapperFits) (write_reg addr v m t)
unfolding write_reg
write_reg-Gives addr v (nrom m) t lt g f = just (g, f)
write_reg-Gives addr v (mmc1 m) t lt g f =
    Gives-then _ _ (Shift.write_reg-Gives addr v m t g f) λ r h. just h
write_reg-Gives addr v (mmc3 m) t lt g f =
    Gives-then _ _ (Banks.write_reg-Gives addr v m t lt g f) λ r h. just h

pub on_load_ram-Gives :
    (m : Mapper) (t : Target) → MapperFits m → TargetFits t → Gives TargetFits (on_load_ram m t)
unfolding on_load_ram Nrom.on_load_ram Mmc1.on_load_ram Mmc3.on_load_ram
on_load_ram-Gives (nrom m) t g f =
    let bytes = slice-Gives m.prg_rom 0 m.prg_rom.size g.prg in
    Gives-then _ _ (load_prg-Gives 0x8000 _ m.prg_rom.size t bytes f)
      λ u h. Gives-if _ _ _ (load_prg-Gives 0xc000 _ m.prg_rom.size u bytes h) (just h)
on_load_ram-Gives (mmc1 m) t g f =
    load_prg-Gives 0x8000 _ _ t (slice_end-Gives m.prg_rom 0x8000 0x8000 g.prg) f
on_load_ram-Gives (mmc3 m) t g f =
    load_prg-Gives 0xe000 _ _ t (slice_end-Gives m.prg_rom 0x2000 0x2000 g.prg) f

pub on_load_ppu-TargetFits :
    (m : Mapper) (t : Target) → MapperFits m → TargetFits t → TargetFits (on_load_ppu m t)
unfolding on_load_ppu Nrom.on_load_ppu
on_load_ppu-TargetFits (nrom m) t g f = with_ppu t _ (write_bytes-PpuFits 0 _ _ t.ppu g.chr f.ppu) f
on_load_ppu-TargetFits (mmc1 m) t g f = f
on_load_ppu-TargetFits (mmc3 m) t g f = f

make_mapper-Gives :
    (reg control id : ℕ) (prg chr : Rom) (vertical : Bool)
    → reg < 256
    → control < 256
    → IsBytes prg.byte
    → IsBytes chr.byte
    → Gives MapperFits (make_mapper reg control id prg chr vertical)
unfolding make_mapper Mmc1.new Mmc3.new
make_mapper-Gives reg control id prg chr vertical hr hc hp hk =
    let small : NromFits (record { prg_rom = prg; chr_rom = chr; vertical_mirroring = vertical }) =
      record { prg = hp; chr = hk } in
    let serial : Mmc1Fits (Mmc1.new prg chr vertical reg control) = record {
      prg = hp;
      chr = hk;
      bit_latch = omega arith;
      reg = hr;
      control = hc;
    } in
    let banked : Mmc3Fits (Mmc3.new prg chr vertical) = record {
      prg = hp;
      chr = hk;
      bank_select = omega arith;
      prev_prg_mode = omega arith;
    } in
    Gives-if (id == 0) _ _ (just small)
      (Gives-if (id == 1) _ _ (just serial) (Gives-if (id == 4) _ _ (just banked) nothing))

anything : {A : Type 0} (r : Option A) → Gives (λ _. Unit {0}) r
anything none = nothing
anything (some a) = just tt

header-Gives : (file : Rom) → Gives (λ _. Unit {0}) (read_header file)
header-Gives file = anything (read_header file)

read_file-Gives : (file : Rom) (at n : ℕ) → IsBytes file.byte → Gives IsBytes (read_file file at n)
unfolding read_file
read_file-Gives file at n h =
    Gives-if (n == 0) _ _ (just (λ i. h (at + i))) (slice-Gives file at n h)

-- The loader makes a mapper of the bytes of a file.
pub load_from-Gives :
    (reg control : ℕ) (file : Rom)
    → reg < 256
    → control < 256
    → IsBytes file.byte
    → Gives MapperFits (load_from reg control file)
unfolding load_from
load_from-Gives reg control file hr hc h =
    Gives-then (read_header file) _ (header-Gives file) λ hd _.
      Gives-then _ _ (read_file-Gives file _ (hd.prg_size * 0x4000) h) λ prg hp.
        Gives-then _ _ (read_file-Gives file _ (hd.chr_size * 0x2000) h) λ chr hk.
          make_mapper-Gives reg control (mapper_id hd)
            (record { size = hd.prg_size * 0x4000; byte = prg })
            (record { size = hd.chr_size * 0x2000; byte = chr }) (test_bits hd.flag6 1) hr hc hp hk

pub get_info-InfoFits : (m : Mapper) → InfoFits (get_info m)
unfolding get_info Nrom.get_info Mmc1.get_info Mmc3.get_info
get_info-InfoFits (nrom m) = record {
  code_addr = ground arith;
  reg_start = ground arith;
  reg_end = ground arith;
  flags = ground arith;
}
get_info-InfoFits (mmc1 m) = record {
  code_addr = ground arith;
  reg_start = ground arith;
  reg_end = ground arith;
  flags = ground arith;
}
get_info-InfoFits (mmc3 m) = record {
  code_addr = ground arith;
  reg_start = ground arith;
  reg_end = ground arith;
  flags = ground arith;
}
