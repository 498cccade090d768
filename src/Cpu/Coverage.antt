-- ===== src/Cpu/Coverage.antt =====
-- The cases of `exec_one_instruction` over all bytes (lib/src/nes_cpu.cpp).
use neschan.Base.{
  ℕ, ◌+◌, ◌<◌, ◌≡◌, refl, Bool, true, false, arith, ◌==◌, ==_iff, ◌||◌, not, if◌then◌else◌, Option,
  none, some, List, [], ◌∷◌,
}
use neschan.Base.Table.{all_below, all_below_sound}
use neschan.Cpu.Table.{Case, cases, decode}

-- The two bytes that no case has: the unofficial `SHY` and `SHX`.
abbrev pub has_no_case : ℕ → Bool
has_no_case op_code = (op_code == 0x9c) || (op_code == 0x9e)

-- How many cases have a label.
unfoldable pub count_labels : ℕ → List Case → ℕ
count_labels op_code [] = 0
count_labels op_code (c ∷ cs) =
    let rest = count_labels op_code cs in if c.op_code == op_code then rest + 1 else rest

abbrev pub is_labelled : ℕ → Option Case → Bool
is_labelled op_code none = false
is_labelled op_code (some c) = c.op_code == op_code

pub record IsDecoded (op_code : ℕ) (r : Option Case) : Type 0 where
  pub labels : count_labels op_code cases ≡ (if has_no_case op_code then 0 else 1)
  pub labelled : is_labelled op_code r ≡ not (has_no_case op_code)

abbrev same : Bool → Bool → Bool
same a b = if a then b else not b

same_sound : (a b : Bool) → same a b ≡ true → a ≡ b
same_sound true true h = refl
same_sound true false h = ground arith
same_sound false true h = ground arith
same_sound false false h = refl

-- Every byte but 0x9c and 0x9e labels exactly one case of the `switch`, and decoding it gives that
-- case; the other two label none, and decoding them gives nothing.
pub decode-IsDecoded : (op_code : ℕ) → op_code < 256 → IsDecoded op_code (decode op_code)
decode-IsDecoded op_code h = record {
  labels = (==_iff (count_labels op_code cases) _).0 (
      all_below_sound 256 (λ o. count_labels o cases == (if has_no_case o then 0 else 1)) op_code
        (unfold all_below count_labels cases in refl) h);
  labelled = same_sound _ _ (
      all_below_sound 256 (λ o. same (is_labelled o (decode o)) (not (has_no_case o))) op_code
        (unfold all_below decode in refl) h);
}
