-- ===== src/Mapper/Serial.antt =====
-- The serial port of the MMC1: five writes load a register (lib/src/mappers/nes_mapper_mmc1.cpp).
use neschan.Base.{ℕ, ◌+◌, ◌*◌, ◌/◌, ◌%◌, ◌<◌, ◌≡◌, refl, arith, Option, some}
use neschan.Base.Table.{all_below}
use neschan.Base.Bits.{equal_below₂, and_bit}
use neschan.Mapper.Info.{Target, ◌>>=◌}
use neschan.Mapper.Mmc1.{Mmc1, write_reg, write_selected, shift_in}

-- A write of a value at an address.
pub record Write : Type 0 where
  pub addr : ℕ
  pub val : ℕ

abbrev pub put : Write → Mmc1 × Target → Option (Mmc1 × Target)
put w (m, t) = write_reg w.addr w.val m t

-- Bit 0 of each of five values, the first one the lowest.
abbrev pub five_bits : ℕ → ℕ → ℕ → ℕ → ℕ → ℕ
five_bits a b c d e = a % 2 + b % 2 * 2 + c % 2 * 4 + d % 2 * 8 + e % 2 * 16

shift_in_eq : (reg val : ℕ) → reg < 32 → val < 128 → shift_in reg val ≡ reg / 2 + val % 2 * 16
shift_in_eq reg val hr hv =
    equal_below₂ 32 128 shift_in (λ reg val. reg / 2 + val % 2 * 16) reg val
      (unfold all_below shift_in in refl) hr hv

-- One of the first four writes.
write_reg-bit :
    (w : Write) (m : Mmc1) (t : Target)
    → w.val < 128
    → m.bit_latch < 4
    → m.reg < 32
    → put w (m, t)
      ≡ some (record m { bit_latch = m.bit_latch + 1; reg = m.reg / 2 + w.val % 2 * 16 }, t)
unfolding write_reg
write_reg-bit w m t hv hl hr = rw (shift_in_eq m.reg w.val hr hv) (ground (arith, and_bit 7 w.val))

-- The fifth.
write_reg-last :
    (w : Write) (m : Mmc1) (t : Target)
    → w.val < 128
    → m.bit_latch ≡ 4
    → m.reg < 32
    → put w (m, t)
      ≡ write_selected w.addr
          (m.reg / 2 + w.val % 2 * 16)
          (record m { bit_latch = 0; reg = m.reg / 2 + w.val % 2 * 16 })
          t
unfolding write_reg
write_reg-last w m t hv hl hr = rw (shift_in_eq m.reg w.val hr hv) (ground (arith, and_bit 7 w.val))

-- What four writes leave in a register of five bits, and a fifth makes of it.
abbrev shifted : ℕ → ℕ → ℕ
shifted reg val = reg / 2 + val % 2 * 16

five_eq :
    (reg a b c d e : ℕ)
    → reg < 32
    → shifted (shifted (shifted (shifted (shifted reg a) b) c) d) e ≡ five_bits a b c d e
five_eq reg a b c d e h = omega arith

-- The machine of `m` once the writes before the last have shifted in their bits.
abbrev shifted_in : ℕ → Mmc1 → Mmc1
shifted_in val m = record m { bit_latch = m.bit_latch + 1; reg = shifted m.reg val }

-- Five writes to the MMC1 with bit 7 clear, from an empty latch, write the number that their lowest
-- bits make, the first one lowest, to the register that the address of the fifth selects, whatever
-- five bits the shift register held before and whatever the addresses of the first four; the latch is
-- empty again.
pub write_reg-five :
    (a b c d e : Write) (m : Mmc1) (t : Target)
    → (a.val < 128) × (b.val < 128) × (c.val < 128) × (d.val < 128) × (e.val < 128)
    → m.bit_latch ≡ 0
    → m.reg < 32
    → (put a (m, t) >>= λ r. put b r >>= λ r. put c r >>= λ r. put d r >>= λ r. put e r) ≡ (
        let v = five_bits a.val b.val c.val d.val e.val in
        write_selected e.addr v (record m { bit_latch = 0; reg = v }) t)
write_reg-five a b c d e m t (ha, hb, hc, hd, he) hl hr =
    rw
      (
        write_reg-bit a m t ha (omega arith) hr,
        write_reg-bit b (shifted_in a.val m) t hb (omega arith) (omega arith),
        write_reg-bit c (shifted_in b.val (shifted_in a.val m)) t hc (omega arith) (omega arith),
        write_reg-bit d (shifted_in c.val (shifted_in b.val (shifted_in a.val m))) t hd
            (omega arith) (omega arith),
        write_reg-last e
            (shifted_in d.val (shifted_in c.val (shifted_in b.val (shifted_in a.val m)))) t he
            (omega arith) (omega arith),
        five_eq m.reg a.val b.val c.val d.val e.val hr,
      )
      refl
