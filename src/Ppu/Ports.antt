-- ===== src/Ppu/Ports.antt =====
-- The protocol of the ports PPUADDR, PPUSTATUS and PPUDATA (lib/inc/nes_ppu.h).
use neschan.Base.{
  ℕ, ◌+◌, ◌*◌, ◌%◌, ◌<◌, ◌≡◌, refl, arith, bit_and, bit_or, ◌<<<◌, Bool, true, false, ◌==◌,
}
use neschan.Base.Table.{all_below}
use neschan.Base.Bits.{equal_below, equal_below₂}
use neschan.Ppu.State.{Ppu}
use neschan.Ppu.Registers.{
  or_if, write_ppuaddr, write_latch, ppuaddr_first, ppuaddr_second, read_ppustatus, ppustatus,
  read_ppudata, read_oamdata,
}

or_high : (hi lo : ℕ) → hi < 64 → lo < 256 → bit_or (hi <<< 8) lo ≡ hi * 256 + lo
or_high hi lo hh hl =
    equal_below₂ 64 256 (λ hi lo. bit_or (hi <<< 8) lo) (λ hi lo. hi * 256 + lo) hi lo
      (unfold all_below in refl) hh hl

mask_high : (t hi : ℕ) → t < 256 → hi < 64 → bit_and (bit_or t (hi <<< 8)) 0xff00 ≡ hi <<< 8
mask_high t hi ht hh =
    equal_below₂ 256 64 (λ t hi. bit_and (bit_or t (hi <<< 8)) 0xff00) (λ t hi. hi <<< 8) t hi
      (unfold all_below in refl) ht hh

low_six : (hi : ℕ) → hi < 256 → bit_and hi 0x3f ≡ hi % 64
low_six hi h =
    equal_below 256 (λ hi. bit_and hi 0x3f) (λ hi. hi % 64) hi (unfold all_below in refl) h

low_eight : (t : ℕ) → t < 0x10000 → bit_and t 0x00ff ≡ t % 256
low_eight t h =
    equal_below 0x10000 (λ t. bit_and t 0x00ff) (λ t. t % 256) t (unfold all_below in refl) h

addr_word :
    (t hi lo : ℕ)
    → t < 0x10000
    → hi < 256
    → lo < 256
    → bit_or (bit_and (bit_or (bit_and t 0x00ff) (bit_and hi 0x3f <<< 8)) 0xff00) lo
      ≡ hi % 64 * 256 + lo
addr_word t hi lo ht hh hl =
    rw (low_eight t ht, low_six hi hh, mask_high (t % 256) (hi % 64) (omega arith) (omega arith))
      (or_high (hi % 64) lo (omega arith) hl)

-- Two writes to PPUADDR, the high byte first, set the address to their 14 bits, whatever the
-- temporary address of 16 bits was, and leave the toggle where it was, off. Both are bytes.
pub write_ppuaddr-twice :
    (hi lo : ℕ) (p : Ppu)
    → hi < 256
    → lo < 256
    → p.temp_ppu_addr < 0x10000
    → p.addr_toggle ≡ false
    → (let q = write_ppuaddr lo (write_ppuaddr hi p) in
        (q.ppu_addr ≡ hi % 64 * 256 + lo) × (q.addr_toggle ≡ false))
unfolding write_ppuaddr write_latch ppuaddr_first ppuaddr_second
write_ppuaddr-twice hi lo p hh hl ht off = ground (arith, addr_word p.temp_ppu_addr hi lo ht hh hl)

pub record IsStatusRead (p : Ppu) (v : ℕ) (q : Ppu) : Type 0 where
  pub value : v ≡ ppustatus p
  pub toggle : q.addr_toggle ≡ false
  pub blank : q.vblank_started ≡ false
  pub latched : q.latch ≡ v
  pub rest : q ≡ record p { addr_toggle = false; vblank_started = false; latch = v }
  -- The next read differs in bit 7 alone, which is gone.
  pub again : (read_ppustatus q).0 ≡ v % 128

-- The status byte of the three flags and the latch.
abbrev status : Bool → Bool → Bool → ℕ → ℕ
status b o h l = or_if b 0x80 (or_if o 0x20 (or_if h 0x40 (bit_and l 0x1f)))

again :
    (b o h : Bool) (l : ℕ)
    → all_below 256 (λ l. status false o h (status b o h l) == status b o h l % 128) ≡ true
    → l < 256
    → status false o h (status b o h l) ≡ status b o h l % 128
again b o h l table lt =
    equal_below 256 (λ l. status false o h (status b o h l)) (λ l. status b o h l % 128) l table lt

status_again :
    (b o h : Bool) (l : ℕ) → l < 256 → status false o h (status b o h l) ≡ status b o h l % 128
status_again true true true l lt = again true true true l (unfold all_below in refl) lt
status_again true true false l lt = again true true false l (unfold all_below in refl) lt
status_again true false true l lt = again true false true l (unfold all_below in refl) lt
status_again true false false l lt = again true false false l (unfold all_below in refl) lt
status_again false true true l lt = again false true true l (unfold all_below in refl) lt
status_again false true false l lt = again false true false l (unfold all_below in refl) lt
status_again false false true l lt = again false false true l (unfold all_below in refl) lt
status_again false false false l lt = again false false false l (unfold all_below in refl) lt

-- An unprotected read of PPUSTATUS returns the status, keeps it in the latch, ends the vertical blank
-- and switches the toggle of PPUADDR and PPUSCROLL off, and does nothing else; the next read returns
-- the same with bit 7 clear. The latch holds a byte.
pub read_ppustatus-IsStatusRead :
    (p : Ppu)
    → p.protect_register ≡ false
    → p.latch < 256
    → IsStatusRead p (read_ppustatus p).0 (read_ppustatus p).1
unfolding read_ppustatus ppustatus write_latch
read_ppustatus-IsStatusRead p off h = record {
  value = refl;
  toggle = ground (arith, off);
  blank = ground (arith, off);
  latched = ground (arith, off);
  rest = rw off refl;
  again = rw off (status_again p.vblank_started p.sprite_overflow p.sprite_0_hit p.latch h);
}

-- While the registers are protected, as a debugger's reads are, reading PPUSTATUS, OAMDATA or PPUDATA
-- changes nothing in the PPU.
pub read-protected :
    (p : Ppu)
    → p.protect_register ≡ true
    → ((read_ppustatus p).1 ≡ p) × ((read_oamdata p).1 ≡ p) × ((read_ppudata p).1 ≡ p)
unfolding read_ppustatus read_oamdata read_ppudata write_latch
read-protected p on = (rw on refl, ground (arith, on), rw on refl)
