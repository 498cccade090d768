-- ===== src/Cpu/Alu/Compare.antt =====
-- The comparisons, and the shifts, against subtraction and against one another.
use neschan.Base.{ℕ, ◌+◌, ◌<◌, ◌≤◌, ◌≡◌, refl, arith, Bool, if◌then◌else◌, u8, sub8, ◌==◌, ◌↔◌, ◌-◌}
use neschan.Base.Table.{all_below}
use neschan.Base.Bits.{bit_at, equal_below₂}
use neschan.Cpu.State.{Cpu, with_flag}
use neschan.Cpu.Alu.{compare_flags, rol_val, ror_val}
use neschan.Cpu.Alu.Flags.{of_bool, with_flag-lt, bit_at-with_flag, test_negative}

compare_bits :
    (p : ℕ) (c z n : Bool) (j : ℕ)
    → p < 256
    → j < 8
    → bit_at (with_flag 0x80 n (with_flag 0x2 z (with_flag 0x1 c p))) j ≡ (
        if 7 == j
        then of_bool n
        else if 1 == j
        then of_bool z
        else if 0 == j
        then of_bool c
        else bit_at p j)
compare_bits p c z n j hp hj =
    let h1 = with_flag-lt 0 c p (omega arith) hp in
    let h2 = with_flag-lt 1 z _ (omega arith) h1 in
    ground (
      arith,
      bit_at-with_flag 7 n (with_flag 0x2 z (with_flag 0x1 c p)) j,
      bit_at-with_flag 1 z (with_flag 0x1 c p) j,
      bit_at-with_flag 0 c p j,
    )

-- What the comparison instructions leave in `P`, for a register and an operand.
pub record IsComparison (reg val : ℕ) (c c' : Cpu) : Type 0 where
  pub carry_flag : (bit_at c'.p 0 ≡ 1) ↔ (val ≤ reg)
  pub zero_flag : (bit_at c'.p 1 ≡ 1) ↔ (reg ≡ val)
  pub negative_flag : bit_at c'.p 7 ≡ bit_at (u8 (reg + 256 - val)) 7
  pub overflow_kept : bit_at c'.p 6 ≡ bit_at c.p 6
  pub rest : c' ≡ record c { p = c'.p }

-- A comparison sets the carry exactly when the operand is not above the register, the zero flag
-- exactly when they are equal, and the negative flag to the top bit of the wrapped difference; it
-- keeps the overflow flag and every register but `P`. The register, the operand and `P` are bytes.
pub compare_flags-IsComparison :
    (reg val : ℕ) (c : Cpu)
    → reg < 256
    → val < 256
    → c.p < 256
    → IsComparison reg val c (compare_flags reg val c)
unfolding compare_flags
compare_flags-IsComparison reg val c hr hv hp = record {
  carry_flag = rw (compare_bits c.p _ _ _ 0 hp (omega arith)) (ground arith);
  zero_flag = rw (compare_bits c.p _ _ _ 1 hp (omega arith)) (ground arith);
  negative_flag =
      rw (compare_bits c.p _ _ _ 7 hp (omega arith)) (ground (arith, test_negative (sub8 reg val)));
  overflow_kept = compare_bits c.p _ _ _ 6 hp (omega arith);
  rest = refl;
}

-- `ROR` after `ROL` with the carry that `ROL` shifts out gives the byte and the old carry back, and
-- so does `ROL` after `ROR`. The byte is below 256 and the carry is a bit.
pub ror_val-rol_val :
    (carry val : ℕ)
    → carry < 2
    → val < 256
    → (ror_val (bit_at val 7) (rol_val carry val) ≡ val)
      × (bit_at (rol_val carry val) 0 ≡ carry)
      × (rol_val (bit_at val 0) (ror_val carry val) ≡ val)
      × (bit_at (ror_val carry val) 7 ≡ carry)
ror_val-rol_val carry val hc hv = (
  equal_below₂ 2 256 (λ c v. ror_val (bit_at v 7) (rol_val c v)) (λ c v. v) carry val
      (unfold all_below ror_val rol_val in refl) hc hv,
  equal_below₂ 2 256 (λ c v. bit_at (rol_val c v) 0) (λ c v. c) carry val
      (unfold all_below ror_val rol_val in refl) hc hv,
  equal_below₂ 2 256 (λ c v. rol_val (bit_at v 0) (ror_val c v)) (λ c v. v) carry val
      (unfold all_below ror_val rol_val in refl) hc hv,
  equal_below₂ 2 256 (λ c v. bit_at (ror_val c v) 7) (λ c v. c) carry val
      (unfold all_below ror_val rol_val in refl) hc hv,
)
