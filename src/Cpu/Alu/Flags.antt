-- ===== src/Cpu/Alu/Flags.antt =====
-- The status register bit by bit: `set_flag` and the tests of lib/inc/nes_cpu.h.
use neschan.Base.{
  ℕ, ◌<◌, ◌≡◌, refl, arith, ◌^◌, Bool, true, false, if◌then◌else◌, test_bits, leb, ltb, ◌==◌, ◌&&◌,
}
use neschan.Base.Table.{all_below, all_below_sound}
use neschan.Base.Bits.{bit_at, and_bit}
use neschan.Cpu.State.{Cpu, with_flag, get_carry}

abbrev pub of_bool : Bool → ℕ
of_bool true = 1
of_bool false = 0

-- What the bits and the range of a status are after one flag is set.
abbrev flag_test : Bool → ℕ → ℕ → ℕ → Bool
flag_test b k j p =
    ltb (with_flag (2 ^ k) b p) 256
    && (bit_at (with_flag (2 ^ k) b p) j == (if k == j then of_bool b else bit_at p j))

flag_table :
    (b : Bool) → all_below 8 (λ k. all_below 8 (λ j. all_below 256 (flag_test b k j))) ≡ true
unfolding all_below with_flag
flag_table true = refl
flag_table false = refl

flag_test_lem : (b : Bool) (k j p : ℕ) → k < 8 → j < 8 → p < 256 → flag_test b k j p ≡ true
flag_test_lem b k j p hk hj hp =
    all_below_sound 256 (flag_test b k j) p
      (all_below_sound 8 (λ j. all_below 256 (flag_test b k j)) j
        (all_below_sound 8 (λ k. all_below 8 (λ j. all_below 256 (flag_test b k j))) k
          (flag_table b) hk)
        hj)
      hp

pub with_flag-lt : (k : ℕ) (b : Bool) (p : ℕ) → k < 8 → p < 256 → with_flag (2 ^ k) b p < 256
with_flag-lt k b p hk hp = ground (arith, flag_test_lem b k 0 p)

pub bit_at-with_flag :
    (k : ℕ) (b : Bool) (p j : ℕ)
    → k < 8
    → p < 256
    → j < 8
    → bit_at (with_flag (2 ^ k) b p) j ≡ (if k == j then of_bool b else bit_at p j)
bit_at-with_flag k b p j hk hp hj = ground (arith, flag_test_lem b k j p)

pub test_negative : (x : ℕ) → x < 256 → test_bits x 0x80 ≡ leb 128 x
test_negative x h = ground (arith, and_bit 7 x)

pub get_carry_eq : (c : Cpu) → c.p < 256 → get_carry c ≡ bit_at c.p 0
unfolding get_carry
get_carry_eq c h = ground (arith, and_bit 0 c.p)
