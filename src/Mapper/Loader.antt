-- ===== src/Mapper/Loader.antt =====
-- `nes_mapper` as the sum of its three classes, its virtual functions, and what `nes_rom_loader`
-- makes of the bytes of a file (lib/inc/nes_mapper.h).
use neschan.Base.{
  ℕ, ◌+◌, ◌*◌, bit_and, ◌>>>◌, ◌==◌, if◌then◌else◌, test_bits, Bool, Option, none, some, Bytes,
}
use neschan.Rom.{Rom, slice}
use neschan.Mapper.Info.{MapperInfo, Target, ◌>>=◌}
use neschan.Mapper.Nrom
use neschan.Mapper.Nrom.{Nrom}
use neschan.Mapper.Mmc1
use neschan.Mapper.Mmc1.{Mmc1}
use neschan.Mapper.Mmc3
use neschan.Mapper.Mmc3.{Mmc3}

pub data Mapper : Type 0 where
  nrom : Nrom → Mapper
  mmc1 : Mmc1 → Mapper
  mmc3 : Mmc3 → Mapper

unfoldable pub on_load_ram : Mapper → Target → Option Target
on_load_ram (nrom m) t = Nrom.on_load_ram m t
on_load_ram (mmc1 m) t = Mmc1.on_load_ram m t
on_load_ram (mmc3 m) t = Mmc3.on_load_ram m t

-- The other two only keep the pointer to the PPU.
unfoldable pub on_load_ppu : Mapper → Target → Target
on_load_ppu (nrom m) t = Nrom.on_load_ppu m t
on_load_ppu (mmc1 m) t = t
on_load_ppu (mmc3 m) t = t

unfoldable pub get_info : Mapper → MapperInfo
get_info (nrom m) = Nrom.get_info m
get_info (mmc1 m) = Mmc1.get_info m
get_info (mmc3 m) = Mmc3.get_info m

-- NROM has the base class's empty `write_reg`.
unfoldable pub write_reg : ℕ → ℕ → Mapper → Target → Option (Mapper × Target)
write_reg addr val (nrom m) t = some (nrom m, t)
write_reg addr val (mmc1 m) t = do r ← Mmc1.write_reg addr val m t; some (mmc1 r.0, r.1)
write_reg addr val (mmc3 m) t = do r ← Mmc3.write_reg addr val m t; some (mmc3 r.0, r.1)

-- The fields of `ines_header` that are read.
pub record InesHeader : Type 0 where
  pub prg_size : ℕ
  pub chr_size : ℕ
  pub flag6 : ℕ
  pub flag7 : ℕ

-- A file, as its bytes. `file.read` of `n` bytes at `at`: one past the end throws (`failbit`), which
-- is `none`, but one of no bytes does not, even where `seekg` has moved beyond the end.
unfoldable pub read_file : Rom → ℕ → ℕ → Option Bytes
unfolding slice
read_file file at n = if n == 0 then some (λ i. file.byte (at + i)) else slice file at n

unfoldable pub read_header : Rom → Option InesHeader
unfolding read_file
read_header file = do
  b ← read_file file 0 0x10
  some (record { prg_size = b 4; chr_size = b 5; flag6 = b 6; flag7 = b 7 })

unfoldable pub mapper_id : InesHeader → ℕ
mapper_id h =
    let flag7 = if h.flag7 == 0x44 then 0 else h.flag7 in
    (bit_and h.flag6 0xf0 >>> 4) + bit_and flag7 0xf0

-- The `switch` on the id; `none` is the failed assertion. `reg` and `control` are what the memory
-- of a new MMC1 happens to hold.
unfoldable pub make_mapper : ℕ → ℕ → ℕ → Rom → Rom → Bool → Option Mapper
make_mapper reg control id prg chr vertical =
    if id == 0
    then some (nrom (record { prg_rom = prg; chr_rom = chr; vertical_mirroring = vertical }))
    else if id == 1
    then some (mmc1 (Mmc1.new prg chr vertical reg control))
    else if id == 4
    then some (mmc3 (Mmc3.new prg chr vertical))
    else none

unfoldable pub load_from : ℕ → ℕ → Rom → Option Mapper
unfolding read_header mapper_id make_mapper read_file
load_from reg control file = do
  h ← read_header file
  let start = if test_bits h.flag6 0x4 then 0x210 else 0x10
  prg ← read_file file start (h.prg_size * 0x4000)
  chr ← read_file file (start + h.prg_size * 0x4000) (h.chr_size * 0x2000)
  make_mapper reg control (mapper_id h) (record { size = h.prg_size * 0x4000; byte = prg })
      (record { size = h.chr_size * 0x2000; byte = chr }) (test_bits h.flag6 0x1)
