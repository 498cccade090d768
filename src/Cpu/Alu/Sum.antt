-- ===== src/Cpu/Alu/Sum.antt =====
-- `_ADC` and `_SBC` against nine-bit addition and the range of signed bytes.
use neschan.Base.{
  ℕ, ◌+◌, ◌-◌, ◌*◌, ◌/◌, ◌%◌, ◌<◌, ◌≤◌, ◌≡◌, refl, arith, Bool, if◌then◌else◌, u8, test_bits, ◌==◌,
  ltb, ◌↔◌, ◌⊎◌, ◌&&◌, ◌||◌, not,
}
use neschan.Base.Bits.{bit_at, and_bit}
use neschan.Cpu.State.{Cpu, with_flag, get_carry}
use neschan.Cpu.Alu.{adc_val, sbc_val, is_sign_overflow}
use neschan.Cpu.Alu.Flags.{of_bool, with_flag-lt, bit_at-with_flag, test_negative, get_carry_eq}

-- The status that `_ADC` leaves.
abbrev pub sum_status : ℕ → Bool → Bool → Bool → Bool → ℕ
sum_status p v c z n = with_flag 0x80 n (with_flag 0x2 z (with_flag 0x1 c (with_flag 0x40 v p)))

pub sum_status-lt : (p : ℕ) (v c z n : Bool) → p < 256 → sum_status p v c z n < 256
sum_status-lt p v c z n h = with_flag-lt 7 n _ (omega arith) (
    with_flag-lt 1 z _ (omega arith)
      (with_flag-lt 0 c _ (omega arith) (with_flag-lt 6 v p (omega arith) h)))

-- Bits 0, 1, 6 and 7 are given, and the others stay.
abbrev sum_bit : ℕ → Bool → Bool → Bool → Bool → ℕ → ℕ
sum_bit p v c z n j =
    if 7 == j
    then of_bool n
    else if 1 == j
    then of_bool z
    else if 0 == j
    then of_bool c
    else if 6 == j
    then of_bool v
    else bit_at p j

bit_at-sum_status :
    (p : ℕ) (v c z n : Bool) (j : ℕ)
    → p < 256
    → j < 8
    → bit_at (sum_status p v c z n) j ≡ sum_bit p v c z n j
bit_at-sum_status p v c z n j hp hj =
    let h1 = with_flag-lt 6 v p (omega arith) hp in
    let h2 = with_flag-lt 0 c _ (omega arith) h1 in
    let h3 = with_flag-lt 1 z _ (omega arith) h2 in
    ground (
      arith,
      bit_at-with_flag 7 n (with_flag 0x2 z (with_flag 0x1 c (with_flag 0x40 v p))) j,
      bit_at-with_flag 1 z (with_flag 0x1 c (with_flag 0x40 v p)) j,
      bit_at-with_flag 0 c (with_flag 0x40 v p) j,
      bit_at-with_flag 6 v p j,
    )

-- A byte read as a signed number, moved up by 128.
abbrev pub offset_signed : ℕ → ℕ
offset_signed x = (x + 128) % 256

-- The addition of two bytes and a carry, as the processor's manual has it.
pub record IsSum (val : ℕ) (c c' : Cpu) : Type 0 where
  pub a_byte : c'.a < 256
  pub p_byte : c'.p < 256
  -- The carry is the ninth bit of the sum.
  pub sum : c'.a + 256 * bit_at c'.p 0 ≡ c.a + val + bit_at c.p 0
  pub zero_flag : (bit_at c'.p 1 ≡ 1) ↔ (c'.a ≡ 0)
  pub negative_flag : bit_at c'.p 7 ≡ bit_at c'.a 7
  -- The overflow flag is set exactly when the signed sum does not fit a signed byte.
  pub overflow_flag : (bit_at c'.p 6 ≡ 1) ↔ (
      (offset_signed c.a + offset_signed val + bit_at c.p 0 < 128)
      ⊎ (384 ≤ offset_signed c.a + offset_signed val + bit_at c.p 0))
  pub interrupt_kept : bit_at c'.p 2 ≡ bit_at c.p 2
  pub decimal_kept : bit_at c'.p 3 ≡ bit_at c.p 3
  pub high_kept : (bit_at c'.p 4 ≡ bit_at c.p 4) × (bit_at c'.p 5 ≡ bit_at c.p 5)
  -- No other register changes.
  pub rest : c' ≡ record c { a = c'.a; p = c'.p }

adc_val_eq :
    (val : ℕ) (c : Cpu)
    → adc_val val c ≡ (
        let sum = u8 (c.a + val) in
        let r = u8 (sum + get_carry c) in
        record c {
          a = r;
          p =
              sum_status c.p
                (is_sign_overflow c.a val r)
                (ltb sum c.a || ltb r sum)
                (r == 0)
                (test_bits r 0x80);
        })
unfolding adc_val
adc_val_eq val c = refl

sign_overflow_eq :
    (x y r : ℕ)
    → x < 256
    → y < 256
    → r < 256
    → is_sign_overflow x y r ≡ ((x / 128 == y / 128) && not (x / 128 == r / 128))
unfolding is_sign_overflow
sign_overflow_eq x y r hx hy hr = ground (arith, and_bit 7 x, and_bit 7 y, and_bit 7 r)

-- The result and the three computed flags, for bytes `a` and `val` and a carry `k`.
abbrev result : ℕ → ℕ → ℕ → ℕ
result a val k = u8 (u8 (a + val) + k)

carry_eq :
    (a val k : ℕ)
    → a < 256
    → val < 256
    → k < 2
    → result a val k + 256 * of_bool (ltb (u8 (a + val)) a || ltb (result a val k) (u8 (a + val)))
      ≡ a + val + k
carry_eq a val k ha hv hk = ground arith

overflow_eq :
    (a val k : ℕ)
    → a < 256
    → val < 256
    → k < 2
    → (of_bool (is_sign_overflow a val (result a val k)) ≡ 1) ↔ (
        (offset_signed a + offset_signed val + k < 128)
        ⊎ (384 ≤ offset_signed a + offset_signed val + k))
overflow_eq a val k ha hv hk = ground (arith, sign_overflow_eq a val (result a val k))

-- `_ADC` adds the operand and the carry to `A` in nine bits, sets the carry to the ninth, the zero
-- and negative flags by the result and the overflow flag exactly when the signed sum does not fit a
-- byte, and keeps all other flags and registers. `A`, `P` and the operand are bytes.
pub adc_val-IsSum :
    (val : ℕ) (c : Cpu) → val < 256 → c.a < 256 → c.p < 256 → IsSum val c (adc_val val c)
adc_val-IsSum val c hv ha hp = rw adc_val_eq (
    rw (get_carry_eq c hp) record {
      a_byte = omega arith;
      p_byte = sum_status-lt c.p _ _ _ _ hp;
      sum = rw (bits 0 (omega arith)) (carry_eq c.a val k ha hv (omega arith));
      zero_flag = rw (bits 1 (omega arith)) (ground arith);
      negative_flag = rw (bits 7 (omega arith)) (ground (arith, test_negative r));
      overflow_flag = rw (bits 6 (omega arith)) (overflow_eq c.a val k ha hv (omega arith));
      interrupt_kept = bits 2 (omega arith);
      decimal_kept = bits 3 (omega arith);
      high_kept = (bits 4 (omega arith), bits 5 (omega arith));
      rest = refl;
    })
  where
    k : ℕ
    k = bit_at c.p 0

    r : ℕ
    r = result c.a val k

    bits :
        (j : ℕ)
        → j < 8
        → bit_at
            (sum_status c.p
              (is_sign_overflow c.a val r)
              (ltb (u8 (c.a + val)) c.a || ltb r (u8 (c.a + val)))
              (r == 0)
              (test_bits r 0x80))
            j
          ≡ sum_bit c.p
              (is_sign_overflow c.a val r)
              (ltb (u8 (c.a + val)) c.a || ltb r (u8 (c.a + val)))
              (r == 0)
              (test_bits r 0x80)
              j
    bits j hj = bit_at-sum_status c.p _ _ _ _ j hp hj

-- Subtraction with the carry as "no borrow".
pub record IsDifference (val : ℕ) (c c' : Cpu) : Type 0 where
  pub a_byte : c'.a < 256
  pub difference : c'.a + val + 1 + 256 * bit_at c'.p 0 ≡ c.a + bit_at c.p 0 + 256
  pub no_borrow : (bit_at c'.p 0 ≡ 1) ↔ (val + 1 ≤ c.a + bit_at c.p 0)
  pub zero_flag : (bit_at c'.p 1 ≡ 1) ↔ (c'.a ≡ 0)
  pub negative_flag : bit_at c'.p 7 ≡ bit_at c'.a 7
  pub overflow_flag : (bit_at c'.p 6 ≡ 1) ↔ (
      (offset_signed c.a + bit_at c.p 0 + 127 < offset_signed val)
      ⊎ (offset_signed val + 128 < offset_signed c.a + bit_at c.p 0))
  pub rest : c' ≡ record c { a = c'.a; p = c'.p }

-- `_SBC` subtracts the operand and the borrow from `A`: the carry stays set exactly when nothing is
-- borrowed, the zero and negative flags follow the result, the overflow flag is set exactly when the
-- signed difference does not fit a byte, and no register but `A` and `P` changes. `A`, `P` and the
-- operand are bytes.
pub sbc_val-IsDifference :
    (val : ℕ) (c : Cpu) → val < 256 → c.a < 256 → c.p < 256 → IsDifference val c (sbc_val val c)
unfolding sbc_val
sbc_val-IsDifference val c hv ha hp =
    let h = adc_val-IsSum (255 - val) c (omega arith) ha hp in
    record {
      a_byte = h.a_byte;
      difference = omega (arith, h.sum);
      no_borrow = (λ e. omega (arith, h.sum, h.a_byte), λ e. omega (arith, h.sum, h.a_byte));
      zero_flag = h.zero_flag;
      negative_flag = h.negative_flag;
      overflow_flag = (λ e. ground (arith, h.overflow_flag), λ e. ground (arith, h.overflow_flag));
      rest = h.rest;
    }
