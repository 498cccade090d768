-- ===== src/Ppu/Vram.antt =====
-- The address space of the PPU: `redirect_addr`, `read_byte`, `write_byte`, `write_bytes` and
-- `set_mirroring` of lib/inc/nes_ppu.h and lib/src/nes_ppu.cpp.
use neschan.Base.{
  ℕ, ◌+◌, ◌-◌, bit_and, bit_or, ◌==◌, ltb, leb, if◌then◌else◌, Bytes, update, memcpy_s,
}
use neschan.Ppu.State.{Ppu, ppu_vram_size}

-- `nes_mapper_flags` of lib/inc/nes_mapper.h, as numbers.
abbrev pub flags_mirroring_mask : ℕ
flags_mirroring_mask = 0x3

abbrev pub flags_vertical_mirroring : ℕ
flags_vertical_mirroring = 0x2

abbrev pub flags_horizontal_mirroring : ℕ
flags_horizontal_mirroring = 0x3

abbrev pub flags_one_screen_upper_bank : ℕ
flags_one_screen_upper_bank = 0x1

abbrev pub flags_one_screen_lower_bank : ℕ
flags_one_screen_lower_bank = 0x0

unfoldable pub set_mirroring : ℕ → Ppu → Ppu
set_mirroring flags p = record p { mirroring_flags = bit_and flags flags_mirroring_mask }

-- The branch of the name tables. The four modes are all the values that `set_mirroring` stores;
-- the last branch is the source's failed assertion, which leaves the address as it is.
unfoldable pub mirror_name_table : ℕ → ℕ → ℕ
mirror_name_table flags addr =
    if flags == flags_vertical_mirroring
    then bit_and addr 0xf7ff
    else if flags == flags_horizontal_mirroring
    then bit_and addr 0xfbff
    else if flags == flags_one_screen_lower_bank
    then bit_and addr 0xf3ff
    else if flags == flags_one_screen_upper_bank
    then bit_or (bit_and addr 0xf3ff) 0x400
    else addr

-- The branch of the palette.
unfoldable pub mirror_palette : ℕ → ℕ
mirror_palette addr =
    let a = bit_and addr 0xff1f in if bit_and a 0xfff3 == 0x3f10 then bit_and a 0x3f0f else a

unfoldable pub redirect_addr : ℕ → ℕ → ℕ
redirect_addr flags addr =
    if bit_and addr 0xff00 == 0x3f00
    then mirror_palette addr
    else if bit_and addr 0xf000 == 0x2000
    then mirror_name_table flags addr
    else if leb 0x3000 addr
    then addr - 0x1000
    else addr

unfoldable pub read_byte : Ppu → ℕ → ℕ
read_byte p addr =
    let a = redirect_addr p.mirroring_flags addr in if leb ppu_vram_size a then 0xff else p.vram a

unfoldable pub write_byte : ℕ → ℕ → Ppu → Ppu
write_byte addr val p =
    let a = redirect_addr p.mirroring_flags addr in
    if leb ppu_vram_size a then p else record p { vram = update p.vram a val }

unfoldable pub write_bytes : ℕ → Bytes → ℕ → Ppu → Ppu
write_bytes addr src src_size p =
    let a = redirect_addr p.mirroring_flags addr in
    if ltb ppu_vram_size (addr + src_size)
    then p
    else record p { vram = memcpy_s p.vram a (ppu_vram_size - a) src src_size }
