-- ===== src/Cpu/Trace/Layout.antt =====
-- How long the parts of a trace are.
use neschan.Base.{
  ℕ, ◌+◌, ◌-◌, ◌>>>◌, bit_and, ◌≤◌, ◌≡◌, refl, arith, ltb, inl, inr, Bool-cases, u8, u16, ◌++◌,
  Option, none, some,
}
use mathlib.Core.Path.{subst}
use neschan.Base.Text.{Text, codes, length, replicate, length-++, length-replicate}
use neschan.Cpu.State.{Cpu}
use neschan.Cpu.Operand.{
  AddrMode, imp, acc, imm, ind_jmp, rel, abs, abs_jmp, zp, zp_ind_x, zp_ind_y, abs_x, abs_y, ind_x,
  ind_y, peek,
}
use neschan.Cpu.Trace.{
  append_space, append_hex, append_byte, append_word, align, append_value, append_zp,
  append_zp_indexed, append_abs_indexed, append_abs, append_ind_x, append_ind_y, append_operand,
}
use neschan.System.State.{System, M, pure, ◌>>=◌, get}
use neschan.System.Hoare.{Holds, Holds-bind}

-- A text that is `n` characters long, when it is returned.
pub record Writes (n : ℕ) (m : M Text) : Type 0 where
  pub at : (s : System) → Holds (m s) (λ text _. length text ≡ n)

pub Writes-pure : (n : ℕ) (text : Text) → length text ≡ n → Writes n (pure text)
unfolding pure
Writes-pure n text h = record { at = λ s. h }

any : {A : Type 0} (r : Option (A × System)) → Holds r (λ _ _. Unit)
any none = tt
any (some r) = tt

pub Writes-after :
    {A : Type 0} (n : ℕ) (m : M A) (f : A → M Text)
    → ((a : A) → Writes n (f a))
    → Writes n (m >>= f)
Writes-after n m f h = record {
  at = λ s.
      Holds-bind m f s (λ _ _. Unit) (λ text _. length text ≡ n) (any (m s)) λ a t _. (h a).at t;
}

pub Writes-then :
    (k n : ℕ) (m : M Text) (f : Text → M Text)
    → Writes k m
    → ((text : Text) → length text ≡ k → Writes n (f text))
    → Writes n (m >>= f)
Writes-then k n m f h g = record {
  at = λ s.
      Holds-bind m f s (λ text _. length text ≡ k) (λ text _. length text ≡ n) (h.at s)
        λ text t e. (g text e).at t;
}

pub length-append_space : (str : Text) → length (append_space str) ≡ length str + 1
unfolding append_space length
length-append_space str = length-++ str (codes " ")

length-append_hex : (val : ℕ) (str : Text) → length (append_hex val str) ≡ length str + 1
unfolding append_hex length
length-append_hex val str = length-++ str _

pub length-append_byte : (val : ℕ) (str : Text) → length (append_byte val str) ≡ length str + 2
unfolding append_byte
length-append_byte val str = omega (
  arith,
  length-append_hex (bit_and val 0xf) (append_hex (val >>> 4) str),
  length-append_hex (val >>> 4) str,
)

pub length-append_word : (val : ℕ) (str : Text) → length (append_word val str) ≡ length str + 4
unfolding append_word
length-append_word val str = omega (
  arith,
  length-append_byte (bit_and val 0xff) (append_byte (val >>> 8) str),
  length-append_byte (val >>> 8) str,
)

pub length-align : (loc : ℕ) (str : Text) → length str ≤ loc → length (align loc str) ≡ loc
unfolding align
length-align loc str h = elim (Bool-cases (ltb (length str) loc)) [
  | inl e ↦ rw e (
      omega (
        arith,
        length-++ str (replicate (loc - length str) b' '),
        length-replicate {A = ℕ} (loc - length str) b' ',
      ))
  | inr e ↦ rw e (ground (arith, e))
]

pub ruleset text_laws = (length-append_space, length-append_byte, length-append_word, length-++)

append_value-Writes : (addr : ℕ) (str : Text) → Writes (length str + 5) (append_value addr str)
unfolding append_value length
append_value-Writes addr str =
    Writes-after _ (peek addr) _ λ val. Writes-pure _ _ (simp text_laws (omega arith))

pub Writes-eq : (m n : ℕ) (w : M Text) → Writes m w → m ≡ n → Writes n w
Writes-eq m n w h e = record {
  at = λ s. subst (λ k. Holds (w s) (λ text _. length text ≡ k)) e (h.at s);
}

-- How much `append_operand` appends.
unfoldable pub operand_length : AddrMode → ℕ
operand_length imp = 0
operand_length acc = 1
operand_length imm = 4
operand_length rel = 5
operand_length zp = 8
operand_length zp_ind_x = 15
operand_length zp_ind_y = 15
operand_length abs_jmp = 5
operand_length abs = 10
operand_length abs_x = 19
operand_length abs_y = 19
operand_length ind_jmp = 14
operand_length ind_x = 24
operand_length ind_y = 26

append_zp-Writes :
    (n : ℕ) (f : ℕ → Text → M Text) (str : Text)
    → ((addr : ℕ) (text : Text) → length text ≡ length str + 3 → Writes n (f addr text))
    → Writes n (append_zp f str)
unfolding append_zp length
append_zp-Writes n f str h =
    Writes-after n _ _ λ pc. Writes-after n _ _ λ addr. h addr _ (simp text_laws (omega arith))

append_abs-Writes :
    (n : ℕ) (f : ℕ → Text → M Text) (str : Text)
    → ((addr : ℕ) (text : Text) → length text ≡ length str + 5 → Writes n (f addr text))
    → Writes n (append_abs f str)
unfolding append_abs length
append_abs-Writes n f str h =
    Writes-after n _ _ λ pc. Writes-after n _ _ λ addr. h addr _ (simp text_laws (omega arith))

append_zp_indexed-Writes :
    (index : Cpu → ℕ) (label : Text) (addr : ℕ) (str : Text)
    → length label ≡ 5
    → Writes (length str + 12) (append_zp_indexed index label addr str)
unfolding append_zp_indexed
append_zp_indexed-Writes index label addr str h = Writes-after (length str + 12) (get index) _ λ i.
    Writes-eq _ (length str + 12) _
      (append_value-Writes (u8 (addr + i)) (append_byte (u8 (addr + i)) (str ++ label)))
      (simp text_laws (omega (arith, h)))

append_abs_indexed-Writes :
    (index : Cpu → ℕ) (label : Text) (addr : ℕ) (str : Text)
    → length label ≡ 5
    → Writes (length str + 14) (append_abs_indexed index label addr str)
unfolding append_abs_indexed
append_abs_indexed-Writes index label addr str h = Writes-after (length str + 14) (get index) _ λ i.
    Writes-eq _ (length str + 14) _
      (append_value-Writes (u16 (addr + i)) (append_word (u16 (addr + i)) (str ++ label)))
      (simp text_laws (omega (arith, h)))

pub append_operand-Writes :
    (mode : AddrMode) (str : Text)
    → Writes (length str + operand_length mode) (append_operand mode str)
unfolding append_operand operand_length append_ind_x append_ind_y length
append_operand-Writes imp str = Writes-pure _ str (omega arith)
append_operand-Writes acc str = Writes-pure _ _ (simp text_laws refl)
append_operand-Writes imm str =
    Writes-after _ _ _
      λ pc. Writes-after _ _ _ λ val. Writes-pure _ _ (simp text_laws (omega arith))
append_operand-Writes rel str =
    Writes-after _ _ _
      λ pc. Writes-after _ _ _ λ val. Writes-pure _ _ (simp text_laws (omega arith))
append_operand-Writes zp str =
    append_zp-Writes (length str + 8) append_value str λ addr text h.
      Writes-eq _ (length str + 8) _ (append_value-Writes addr text) (omega (arith, h))
append_operand-Writes zp_ind_x str =
    append_zp-Writes (length str + 15) (append_zp_indexed (λ c. c.x) (codes ",X @ ")) str
      λ addr text h.
        Writes-eq _ (length str + 15) _
          (append_zp_indexed-Writes (λ c. c.x) (codes ",X @ ") addr text refl) (omega (arith, h))
append_operand-Writes zp_ind_y str =
    append_zp-Writes (length str + 15) (append_zp_indexed (λ c. c.y) (codes ",Y @ ")) str
      λ addr text h.
        Writes-eq _ (length str + 15) _
          (append_zp_indexed-Writes (λ c. c.y) (codes ",Y @ ") addr text refl) (omega (arith, h))
append_operand-Writes abs_jmp str =
    append_abs-Writes (length str + 5) (λ addr text. pure text) str
      λ addr text h. Writes-pure (length str + 5) text h
append_operand-Writes abs str = append_abs-Writes (length str + 10) append_value str λ addr text h.
    Writes-eq _ (length str + 10) _ (append_value-Writes addr text) (omega (arith, h))
append_operand-Writes abs_x str =
    append_abs-Writes (length str + 19) (append_abs_indexed (λ c. c.x) (codes ",X @ ")) str
      λ addr text h.
        Writes-eq _ (length str + 19) _
          (append_abs_indexed-Writes (λ c. c.x) (codes ",X @ ") addr text refl) (omega (arith, h))
append_operand-Writes abs_y str =
    append_abs-Writes (length str + 19) (append_abs_indexed (λ c. c.y) (codes ",Y @ ")) str
      λ addr text h.
        Writes-eq _ (length str + 19) _
          (append_abs_indexed-Writes (λ c. c.y) (codes ",Y @ ") addr text refl) (omega (arith, h))
append_operand-Writes ind_jmp str = Writes-after (length str + 14) _ _ λ pc.
    Writes-after (length str + 14) _ _ λ addr.
      Writes-after (length str + 14) _ _
        λ target. Writes-pure (length str + 14) _ (simp text_laws (omega arith))
append_operand-Writes ind_x str = Writes-after (length str + 24) _ _ λ pc.
    Writes-after (length str + 24) _ _ λ addr. Writes-after (length str + 24) _ _ λ x.
      Writes-after (length str + 24) _ _ λ final_addr.
        Writes-eq _ (length str + 24) _ (append_value-Writes _ _) (simp text_laws (omega arith))
append_operand-Writes ind_y str = Writes-after (length str + 26) _ _ λ pc.
    Writes-after (length str + 26) _ _ λ addr. Writes-after (length str + 26) _ _ λ base.
      Writes-after (length str + 26) _ _ λ y.
        Writes-eq _ (length str + 26) _ (append_value-Writes _ _) (simp text_laws (omega arith))
