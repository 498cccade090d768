-- ===== src/Ppu/Fits/Memory.antt =====
-- Reads and writes of the PPU's address space, and of byte arrays.
use neschan.Base.{ℕ, ◌-◌, ◌<◌, arith, Bytes, IsBytes, update, copy, memcpy_s}
use neschan.Base.Widths.{bit_and-le}
use neschan.Ppu.State.{Ppu}
use neschan.Ppu.Vram.{read_byte, write_byte, write_bytes, redirect_addr, set_mirroring}
use neschan.Ppu.Fits.{PpuFits, PpuFits-if}

pub update-IsBytes : (f : Bytes) (at v : ℕ) → IsBytes f → v < 256 → IsBytes (update f at v)
update-IsBytes f at v h lt i = ground (arith, h i)

copy-IsBytes : (f g : Bytes) (at n : ℕ) → IsBytes f → IsBytes g → IsBytes (copy f at g n)
copy-IsBytes f g at n h k i = ground (arith, h i, k (i - at))

pub memcpy_s-IsBytes :
    (f g : Bytes) (at size n : ℕ) → IsBytes f → IsBytes g → IsBytes (memcpy_s f at size g n)
unfolding memcpy_s
memcpy_s-IsBytes f g at size n h k i = ground (arith, h i, copy-IsBytes f g at n h k i)

pub read_byte-lt : (p : Ppu) (addr : ℕ) → IsBytes p.vram → read_byte p addr < 256
unfolding read_byte
read_byte-lt p addr h = ground (arith, h (redirect_addr p.mirroring_flags addr))

with_vram : (p : Ppu) (v : Bytes) → PpuFits p → IsBytes v → PpuFits (record p { vram = v })
with_vram p v f h = record {
  ports = omega (arith, f.ports);
  pipes = omega (arith, f.pipes);
  bytes = record {
    vram_bytes = h;
    oam_bytes = f.bytes.oam_bytes;
    pixel_bytes = f.bytes.pixel_bytes;
    frame_1_bytes = f.bytes.frame_1_bytes;
    frame_2_bytes = f.bytes.frame_2_bytes;
    bg_bits = f.bytes.bg_bits;
    sprites = f.bytes.sprites;
  };
}

-- A change of the sprite memory alone.
pub with_oam : (p : Ppu) (o : Bytes) → PpuFits p → IsBytes o → PpuFits (record p { oam = o })
with_oam p o f h = record {
  ports = omega (arith, f.ports);
  pipes = omega (arith, f.pipes);
  bytes = record {
    vram_bytes = f.bytes.vram_bytes;
    oam_bytes = h;
    pixel_bytes = f.bytes.pixel_bytes;
    frame_1_bytes = f.bytes.frame_1_bytes;
    frame_2_bytes = f.bytes.frame_2_bytes;
    bg_bits = f.bytes.bg_bits;
    sprites = f.bytes.sprites;
  };
}

pub write_byte-PpuFits :
    (addr v : ℕ) (p : Ppu) → v < 256 → PpuFits p → PpuFits (write_byte addr v p)
unfolding write_byte
write_byte-PpuFits addr v p lt f =
    PpuFits-if _ _ _ f (with_vram p _ f (update-IsBytes p.vram _ v f.bytes.vram_bytes lt))

pub write_bytes-PpuFits :
    (addr : ℕ) (src : Bytes) (n : ℕ) (p : Ppu)
    → IsBytes src
    → PpuFits p
    → PpuFits (write_bytes addr src n p)
unfolding write_bytes
write_bytes-PpuFits addr src n p h f =
    PpuFits-if _ _ _ f (with_vram p _ f (memcpy_s-IsBytes p.vram src _ _ n f.bytes.vram_bytes h))

pub set_mirroring-PpuFits : (flags : ℕ) (p : Ppu) → PpuFits p → PpuFits (set_mirroring flags p)
unfolding set_mirroring
set_mirroring-PpuFits flags p f = record {
  ports = omega (arith, f.ports, bit_and-le flags 3);
  pipes = omega (arith, f.pipes);
  bytes = f.bytes;
}
