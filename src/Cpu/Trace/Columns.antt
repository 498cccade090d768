-- ===== src/Cpu/Trace/Columns.antt =====
-- How long a line of a trace is.
use neschan.Base.{
  ℕ, zero, suc, ◌+◌, ◌-◌, ◌*◌, ◌%◌, ◌≤◌, ◌<◌, ◌≡◌, refl, ◌∙◌, arith, leb, leb→le, if◌then◌else◌,
  Bool, true, false, u16, [], ◌++◌,
}
use neschan.Base.Table.{all_below, all_below_sound}
use neschan.Base.Text.{Text, codes, length, replicate, length-++, length-replicate}
use neschan.Cpu.Operand.{
  AddrMode, imp, acc, imm, ind_jmp, rel, abs, abs_jmp, zp, zp_ind_x, zp_ind_y, abs_x, abs_y, ind_x,
  ind_y,
}
use neschan.Cpu.Trace.{
  append_space, append_word, align, to_string, operand_size, append_operand_str, append_bytes,
  append_registers, op_str, get_op_str,
}
use neschan.Cpu.Trace.Layout.{
  Writes, Writes-pure, Writes-after, Writes-then, Writes-eq, text_laws, length-align,
  length-append_space, length-append_word, operand_length, append_operand-Writes,
}

operand_length-short : (mode : AddrMode) → operand_length mode ≤ 26
unfolding operand_length
operand_length-short imp = omega arith
operand_length-short acc = omega arith
operand_length-short imm = omega arith
operand_length-short rel = omega arith
operand_length-short zp = omega arith
operand_length-short zp_ind_x = omega arith
operand_length-short zp_ind_y = omega arith
operand_length-short abs_jmp = omega arith
operand_length-short abs = omega arith
operand_length-short abs_x = omega arith
operand_length-short abs_y = omega arith
operand_length-short ind_jmp = omega arith
operand_length-short ind_x = omega arith
operand_length-short ind_y = omega arith

operand_size-short : (mode : AddrMode) → operand_size mode ≤ 2
unfolding operand_size
operand_size-short imp = omega arith
operand_size-short acc = omega arith
operand_size-short imm = omega arith
operand_size-short rel = omega arith
operand_size-short zp = omega arith
operand_size-short zp_ind_x = omega arith
operand_size-short zp_ind_y = omega arith
operand_size-short abs_jmp = omega arith
operand_size-short abs = omega arith
operand_size-short abs_x = omega arith
operand_size-short abs_y = omega arith
operand_size-short ind_jmp = omega arith
operand_size-short ind_x = omega arith
operand_size-short ind_y = omega arith

append_bytes-Writes :
    (left addr n : ℕ) (str : Text)
    → length str + 3 * left ≡ n
    → Writes n (append_bytes left addr str)
unfolding append_bytes
append_bytes-Writes zero addr n str h = Writes-pure n str (omega (arith, h))
append_bytes-Writes (suc left) addr n str h =
    Writes-after n _ _
      λ val. append_bytes-Writes left (addr + 1) n _ (simp text_laws (omega (arith, h)))

-- A cycle of a scanline has three digits at most.
to_string-short : (n : ℕ) → n < 341 → length (to_string 20 n) ≤ 3
unfolding to_string length
to_string-short n h =
    leb→le (length (to_string 20 n)) 3
      (all_below_sound 341 (λ n. leb (length (to_string 20 n)) 3) n (unfold all_below in refl) h)

-- The padded number.
padded :
    (text : Text)
    → length text ≤ 3
    → length {A = ℕ} (replicate (3 - length text) b' ') + length text ≡ 3
padded text h = omega (arith, length-replicate {A = ℕ} (3 - length text) b' ')

append_registers-Writes : (str : Text) → Writes (length str + 33) (append_registers str)
unfolding append_registers length
append_registers-Writes str = Writes-after _ _ _ λ a. Writes-after _ _ _ λ x.
    Writes-after _ _ _ λ y. Writes-after _ _ _ λ p. Writes-after _ _ _ λ s.
      Writes-after _ _ _ λ cycle. Writes-pure _ _ (
        simp text_laws (
          omega (
            arith,
            padded (to_string 20 (cycle % 341)) (to_string-short (cycle % 341) (omega arith)),
          )))

append_operand_str-Writes :
    (mode : AddrMode) (str : Text)
    → Writes (length str + 1 + operand_length mode) (append_operand_str mode str)
unfolding append_operand_str
append_operand_str-Writes mode str =
    Writes-eq _ _ _ (append_operand-Writes mode (append_space str))
      (omega (arith, length-append_space str))

-- The address of the instruction, up to its bytes.
head-length : (pc : ℕ) → length (align 6 (append_word (u16 (pc + 65535)) [])) ≡ 6
unfolding length
head-length pc =
    length-align 6 (append_word (u16 (pc + 65535)) [])
      (omega (arith, length-append_word (u16 (pc + 65535)) []))

-- The mnemonic ends at column 19, with a star before it or not.
mnemonic-length :
    (is_official : Bool) (str op : Text)
    → length str ≤ 15
    → length op ≡ 3
    → length ((if is_official then align 16 str else align 15 str ++ codes "*") ++ op) ≡ 19
unfolding length
mnemonic-length true str op h k =
    length-++ (align 16 str) op ∙ omega (arith, length-align 16 str (omega (arith, h)), k)
mnemonic-length false str op h k =
    length-++ (align 15 str ++ codes "*") op
    ∙ omega (arith, length-++ (align 15 str) (codes "*"), length-align 15 str h, k)

op_str-Writes :
    (op : Text) (mode : AddrMode) (is_official : Bool)
    → length op ≡ 3
    → Writes 81 (op_str op mode is_official)
unfolding op_str
op_str-Writes op mode is_official h = Writes-after _ _ _ λ pc.
    Writes-then (6 + 3 * (operand_size mode + 1)) 81 _ _
      (append_bytes-Writes (operand_size mode + 1) (pc + 65535) _ _ (omega (arith, head-length pc)))
      λ str e.
        Writes-then (19 + 1 + operand_length mode) 81 _ _
          (Writes-eq _ _ _ (append_operand_str-Writes mode _) (
            omega (
              arith,
              mnemonic-length is_official str op (omega (arith, e, operand_size-short mode)) h,
            )))
          λ text f.
            Writes-eq _ 81 _ (append_registers-Writes (align 48 text))
              (omega (arith, length-align 48 text (omega (arith, f, operand_length-short mode))))

-- The whole line, when it is returned.
pub get_op_str-Writes :
    (op : Text) (mode : AddrMode) (is_official : Bool)
    → length op ≡ 3
    → Writes 81 (get_op_str op mode is_official)
unfolding get_op_str
get_op_str-Writes op mode is_official h = Writes-after _ _ _ λ u.
    Writes-then 81 81 _ _ (op_str-Writes op mode is_official h)
      λ str e. Writes-after _ _ _ λ v. Writes-pure 81 str e
