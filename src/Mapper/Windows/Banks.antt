-- ===== src/Mapper/Windows/Banks.antt =====
-- Which banks of the PRG ROM the MMC1 shows at 0x8000 and at 0xc000
-- (lib/src/mappers/nes_mapper_mmc1.cpp).
use neschan.Base.{
  ℕ, ◌+◌, ◌-◌, ◌*◌, ◌/◌, ◌%◌, ◌<◌, ◌≤◌, ◌≡◌, refl, ap, ◌∙◌, arith, bit_and, copy, Bytes, some,
  if◌then◌else◌, test_bits, true, Bool-cases, inl, inr, leb,
}
use neschan.Base.Table.{all_below}
use neschan.Base.Bits.{equal_below}
use neschan.Rom.{Rom, slice, slice_end}
use neschan.Memory.Ram.{set_bytes}
use neschan.Mapper.Info.{Target}
use neschan.Mapper.Mmc1.{Mmc1, load_prg_bank}
use neschan.Mapper.Windows.{with_prg, set_bytes_eq}

-- A bank of 16 KB, as what a copy is given.
abbrev bank : Rom → ℕ → Bytes
bank r n i = r.byte (n * 0x4000 + i)

slice-bank :
    (r : Rom) (n size : ℕ)
    → n * 0x4000 + size ≤ r.size
    → slice r (n * 0x4000) size ≡ some (bank r n)
unfolding slice
slice-bank r n size h = ground arith

slice_last :
    (r : Rom) (n : ℕ) → r.size ≡ (n + 1) * 0x4000 → slice_end r 0x4000 0x4000 ≡ some (bank r n)
unfolding slice_end
slice_last r n e = rw (fits, start) (slice-bank r n 0x4000 (omega arith))
  where
    fits : leb 0x4000 r.size ≡ true
    fits = ground arith

    start : r.size - 0x4000 ≡ n * 0x4000
    start = omega arith

-- Bank `lo` stands at 0x8000 and bank `hi` at 0xc000; nothing else has changed.
pub record IsBanked (r : Rom) (lo hi : ℕ) (t t' : Target) : Type 0 where
  pub low : (i : ℕ) → i < 0x4000 → t'.ram (0x8000 + i) ≡ r.byte (lo * 0x4000 + i)
  pub high : (i : ℕ) → i < 0x4000 → t'.ram (0xc000 + i) ≡ r.byte (hi * 0x4000 + i)
  pub below : (a : ℕ) → a < 0x8000 → t'.ram a ≡ t.ram a
  pub ppu : t'.ppu ≡ t.ppu

-- What a copy leaves, inside of its window and outside.
copy_in : (f g : Bytes) (at n i : ℕ) → i < n → copy f at g n (at + i) ≡ g i
copy_in f g at n i h = let e : at + i - at ≡ i = omega arith in ground (arith, ap g e)

copy_out : (f g : Bytes) (at n a : ℕ) → a < at → copy f at g n a ≡ f a
copy_out f g at n a h = ground arith

two_banks :
    (r : Rom) (lo hi : ℕ) (t : Target)
    → IsBanked r lo hi t (with_prg 0xc000 (bank r hi) 0x4000 (with_prg 0x8000 (bank r lo) 0x4000 t))
two_banks r lo hi t = record {
  low = λ i h.
      copy_out (copy t.ram 0x8000 (bank r lo) 0x4000) (bank r hi) 0xc000 0x4000 (0x8000 + i)
        (omega arith)
      ∙ copy_in t.ram (bank r lo) 0x8000 0x4000 i h;
  high = λ i h. copy_in (copy t.ram 0x8000 (bank r lo) 0x4000) (bank r hi) 0xc000 0x4000 i h;
  below = λ a h.
      copy_out (copy t.ram 0x8000 (bank r lo) 0x4000) (bank r hi) 0xc000 0x4000 a (omega arith)
      ∙ copy_out t.ram (bank r lo) 0x8000 0x4000 a h;
  ppu = refl;
}

one_pair :
    (r : Rom) (lo : ℕ) (t : Target)
    → IsBanked r lo (lo + 1) t (with_prg 0x8000 (bank r lo) 0x8000 t)
one_pair r lo t = record {
  low = λ i h. copy_in t.ram (bank r lo) 0x8000 0x8000 i (omega arith);
  high = λ i h.
      ap (copy t.ram 0x8000 (bank r lo) 0x8000) (second i)
      ∙ copy_in t.ram (bank r lo) 0x8000 0x8000 (0x4000 + i) (omega arith)
      ∙ ap r.byte (omega arith);
  below = λ a h. copy_out t.ram (bank r lo) 0x8000 0x8000 a h;
  ppu = refl;
}
  where
    second : (i : ℕ) → 0xc000 + i ≡ 0x8000 + (0x4000 + i)
    second i = omega arith

-- The number of a bank of 16 KB, and of the first of a pair.
low_four : (v : ℕ) → v < 256 → bit_and v 0xf ≡ v % 16
low_four v h = equal_below 256 (λ v. bit_and v 0xf) (λ v. v % 16) v (unfold all_below in refl) h

low_pair : (v : ℕ) → v < 256 → bit_and v 0xe ≡ v % 16 / 2 * 2
low_pair v h =
    equal_below 256 (λ v. bit_and v 0xe) (λ v. v % 16 / 2 * 2) v (unfold all_below in refl) h

-- The banks that the MMC1 shows by its control register: bit 3 chooses single banks, of which bit 2
-- fixes the last one at 0xc000 or the first one at 0x8000; `last` is the number of the last bank.
abbrev pub low_bank : Mmc1 → ℕ → ℕ
low_bank m v =
    if test_bits m.control 0x8
    then if test_bits m.control 0x4 then v % 16 else 0
    else v % 16 / 2 * 2

abbrev pub high_bank : Mmc1 → ℕ → ℕ → ℕ
high_bank m last v =
    if test_bits m.control 0x8
    then if test_bits m.control 0x4 then last else v % 16
    else v % 16 / 2 * 2 + 1

-- A write of a byte to the PRG bank register of an MMC1 whose ROM has `last + 1` banks of 16 KB, all of
-- those that it selects among them, copies the two banks that the control register asks for to 0x8000
-- and to 0xc000, and changes nothing below nor in the PPU.
pub load_prg_bank-IsBanked :
    (v last : ℕ) (m : Mmc1) (t : Target)
    → v < 256
    → m.prg_rom.size ≡ (last + 1) * 0x4000
    → low_bank m v ≤ last
    → high_bank m last v ≤ last
    → (t' : Target) × (load_prg_bank v m t ≡ some t')
      × IsBanked m.prg_rom (low_bank m v) (high_bank m last v) t t'
unfolding load_prg_bank
load_prg_bank-IsBanked v last m t hv e lo hi = elim (Bool-cases (test_bits m.control 0x8)) [
  | inl single ↦ elim (Bool-cases (test_bits m.control 0x4)) [
    | inl fixed ↦ (
      both (v % 16) last,
      rw
          (
            low_four v hv,
            single,
            fixed,
            slice-bank m.prg_rom (v % 16) 0x4000 (omega (arith, rw (single, fixed) at lo)),
            slice_last m.prg_rom last e,
            copied_low (v % 16),
            copied_high (v % 16) last,
          )
          refl,
      rw (single, fixed) (two_banks m.prg_rom (v % 16) last t),
    )
    | inr first ↦ (
      both 0 (v % 16),
      rw
          (
            low_four v hv,
            single,
            first,
            slice-bank m.prg_rom 0 0x4000 (omega arith),
            slice-bank m.prg_rom (v % 16) 0x4000 (omega (arith, rw (single, first) at hi)),
            copied_low 0,
            copied_high 0 (v % 16),
          )
          refl,
      rw (single, first) (two_banks m.prg_rom 0 (v % 16) t),
    )
  ]
  | inr pair ↦ (
    with_prg 0x8000 (bank m.prg_rom (v % 16 / 2 * 2)) 0x8000 t,
    rw
        (
          low_pair v hv,
          pair,
          slice-bank m.prg_rom (v % 16 / 2 * 2) 0x8000 (omega (arith, rw pair at hi)),
          set_bytes_eq 0x8000 0x8000 (bank m.prg_rom (v % 16 / 2 * 2)) t.ram (omega arith)
              (omega arith) (omega arith),
        )
        refl,
    rw pair (one_pair m.prg_rom (v % 16 / 2 * 2) t),
  )
]
  where
    both : ℕ → ℕ → Target
    both a b =
        with_prg 0xc000 (bank m.prg_rom b) 0x4000 (with_prg 0x8000 (bank m.prg_rom a) 0x4000 t)

    copied_low :
        (a : ℕ)
        → set_bytes 0x8000 (bank m.prg_rom a) 0x4000 t.ram
          ≡ some (copy t.ram 0x8000 (bank m.prg_rom a) 0x4000)
    copied_low a = set_bytes_eq 0x8000 0x4000 _ t.ram (omega arith) (omega arith) (omega arith)

    copied_high :
        (a b : ℕ)
        → set_bytes 0xc000 (bank m.prg_rom b) 0x4000 (copy t.ram 0x8000 (bank m.prg_rom a) 0x4000)
          ≡ some
              (copy (copy t.ram 0x8000 (bank m.prg_rom a) 0x4000) 0xc000 (bank m.prg_rom b) 0x4000)
    copied_high a b = set_bytes_eq 0xc000 0x4000 _ _ (omega arith) (omega arith) (omega arith)
