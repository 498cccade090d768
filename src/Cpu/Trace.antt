-- ===== src/Cpu/Trace.antt =====
-- The text of a trace: `nes_cpu::get_op_str`, `append_operand_str` and what they call
-- (lib/src/nes_cpu.cpp), under the protection of `nes_ppu_protect` (lib/src/nes_ppu.cpp).
pub mod Layout
pub mod Columns
pub mod Quiet
pub mod Returns
use neschan.Base.{
  ℕ, zero, suc, ◌+◌, ◌-◌, ◌/◌, ◌%◌, bit_and, ◌<<<◌, ◌>>>◌, ◌==◌, ltb, if◌then◌else◌, u8, u16,
  sign_extend, Bool, true, false, List, [], ◌∷◌, ◌++◌,
}
use neschan.Base.Text.{Text, codes, length, replicate}
use neschan.Ppu.State.{ppu_scanline_cycle}
use neschan.Ppu.Registers.{set_protect}
use neschan.Cpu.State.{Cpu}
use neschan.Cpu.Operand.{
  AddrMode, imp, acc, imm, ind_jmp, rel, abs, abs_jmp, zp, zp_ind_x, zp_ind_y, abs_x, abs_y, ind_x,
  ind_y, peek, peek_word, peek_split, peek_jmp,
}
use neschan.System.State.{M, pure, ◌>>=◌, ◌>>◌, get, on_ppu}

unfoldable pub append_space : Text → Text
append_space str = str ++ codes " "

unfoldable pub append_hex : ℕ → Text → Text
append_hex val str = str ++ ((if ltb val 10 then u8 (val + b'0') else u8 (val - 10 + b'A')) ∷ [])

unfoldable pub append_byte : ℕ → Text → Text
unfolding append_hex
append_byte val str = append_hex (bit_and val 0xf) (append_hex (val >>> 4) str)

unfoldable pub append_word : ℕ → Text → Text
unfolding append_byte
append_word val str = append_byte (bit_and val 0xff) (append_byte (val >>> 8) str)

unfoldable pub align : ℕ → Text → Text
align loc str = if ltb (length str) loc then str ++ replicate (loc - length str) b' ' else str

-- `std::to_string`, with the digits that it may still write.
unfoldable pub to_string : ℕ → ℕ → Text
to_string zero n = []
to_string (suc left) n =
    let high = to_string left (n / 10) in
    if ltb n 10 then (n + b'0') ∷ [] else high ++ ((n % 10 + b'0') ∷ [])

unfoldable pub operand_size : AddrMode → ℕ
operand_size imp = 0
operand_size acc = 0
operand_size rel = 1
operand_size imm = 1
operand_size zp = 1
operand_size zp_ind_x = 1
operand_size zp_ind_y = 1
operand_size ind_x = 1
operand_size ind_y = 1
operand_size ind_jmp = 2
operand_size abs = 2
operand_size abs_jmp = 2
operand_size abs_x = 2
operand_size abs_y = 2

-- ` = ` and the byte at `addr`.
unfoldable pub append_value : ℕ → Text → M Text
append_value addr str = do val ← peek addr; pure (append_byte val (str ++ codes " = "))

-- The three modes of the zero page.
unfoldable pub append_zp : (ℕ → Text → M Text) → Text → M Text
append_zp indexed str = do
  pc ← get (λ c. c.pc)
  addr ← peek pc
  indexed addr (append_byte addr (str ++ codes "$"))

-- An address with an index added, as a byte and as a word.
unfoldable pub append_zp_indexed : (Cpu → ℕ) → Text → ℕ → Text → M Text
unfolding append_value
append_zp_indexed index label addr str = do
  i ← get index
  append_value (u8 (addr + i)) (append_byte (u8 (addr + i)) (str ++ label))

unfoldable pub append_abs_indexed : (Cpu → ℕ) → Text → ℕ → Text → M Text
unfolding append_value
append_abs_indexed index label addr str = do
  i ← get index
  append_value (u16 (addr + i)) (append_word (u16 (addr + i)) (str ++ label))

-- The modes of an absolute address.
unfoldable pub append_abs : (ℕ → Text → M Text) → Text → M Text
append_abs indexed str = do
  pc ← get (λ c. c.pc)
  addr ← peek_word pc
  indexed addr (append_word addr (str ++ codes "$"))

unfoldable pub append_ind_x : Text → M Text
unfolding append_value
append_ind_x str = do
  pc ← get (λ c. c.pc)
  addr ← peek pc
  x ← get (λ c. c.x)
  final_addr ← peek_split (bit_and (addr + x) 0xff) (bit_and (addr + x + 1) 0xff)
  append_value final_addr (
      append_word final_addr (
        append_byte (u8 (addr + x)) (append_byte addr (str ++ codes "($") ++ codes ",X) @ ")
        ++ codes " = "))

unfoldable pub append_ind_y : Text → M Text
unfolding append_value
append_ind_y str = do
  pc ← get (λ c. c.pc)
  addr ← peek pc
  base ← peek_split addr (bit_and (addr + 1) 0xff)
  y ← get (λ c. c.y)
  append_value (u16 (base + y)) (
      append_word (u16 (base + y))
        (append_word base (append_byte addr (str ++ codes "($") ++ codes "),Y = ") ++ codes " @ "))

-- `append_operand_str`, behind its first space.
unfoldable pub append_operand : AddrMode → Text → M Text
unfolding append_zp append_abs append_zp_indexed append_abs_indexed append_ind_x append_ind_y
    append_value
append_operand imp str = pure str
append_operand acc str = pure (str ++ codes "A")
append_operand imm str = do
  pc ← get (λ c. c.pc)
  val ← peek pc
  pure (append_byte val (str ++ codes "#$"))
append_operand rel str = do
  pc ← get (λ c. c.pc)
  val ← peek pc
  pure (append_word (u16 (sign_extend val + pc + 1)) (str ++ codes "$"))
append_operand zp str = append_zp append_value str
append_operand zp_ind_x str = append_zp (append_zp_indexed (λ c. c.x) (codes ",X @ ")) str
append_operand zp_ind_y str = append_zp (append_zp_indexed (λ c. c.y) (codes ",Y @ ")) str
append_operand abs_jmp str = append_abs (λ addr text. pure text) str
append_operand abs str = append_abs append_value str
append_operand abs_x str = append_abs (append_abs_indexed (λ c. c.x) (codes ",X @ ")) str
append_operand abs_y str = append_abs (append_abs_indexed (λ c. c.y) (codes ",Y @ ")) str
append_operand ind_jmp str = do
  pc ← get (λ c. c.pc)
  addr ← peek_word pc
  target ← peek_jmp addr
  pure (append_word target (append_word addr (str ++ codes "($") ++ codes ") = "))
append_operand ind_x str = append_ind_x str
append_operand ind_y str = append_ind_y str

unfoldable pub append_operand_str : AddrMode → Text → M Text
unfolding append_operand append_space
append_operand_str mode str = append_operand mode (append_space str)

-- "Dump instruction bytes": the loop, from `PC() - 1 + i` on, with the rounds that are left.
unfoldable pub append_bytes : ℕ → ℕ → Text → M Text
append_bytes zero addr str = pure str
append_bytes (suc left) addr str = do
  val ← peek (u16 addr)
  append_bytes left (addr + 1) (append_space (append_byte val str))

-- The registers, and the cycle within the scanline.
unfoldable pub append_registers : Text → M Text
unfolding append_space append_byte to_string
append_registers str = do
  a ← get (λ c. c.a)
  x ← get (λ c. c.x)
  y ← get (λ c. c.y)
  p ← get (λ c. c.p)
  s ← get (λ c. c.s)
  cycle ← get (λ c. c.cycle)
  let cycle_str = to_string 20 (cycle % ppu_scanline_cycle)
  pure (
      append_space (
        append_byte s (
          append_space (
            append_byte p (
              append_space (
                append_byte y (
                  append_space
                    (append_byte x (append_space (append_byte a (str ++ codes "A:")) ++ codes "X:"))
                  ++ codes "Y:"))
              ++ codes "P:"))
          ++ codes "SP:"))
      ++ (codes "CYC:" ++ (replicate (3 - length cycle_str) b' ' ++ cycle_str)))

-- The text without the protection: the program counter is one past the opcode.
unfoldable pub op_str : Text → AddrMode → Bool → M Text
unfolding append_word align append_bytes operand_size append_operand_str append_registers
op_str op mode is_official = do
  pc ← get (λ c. c.pc)
  str ←
      append_bytes (operand_size mode + 1) (pc + 65535)
        (align 6 (append_word (u16 (pc + 65535)) []))
  text ←
      append_operand_str mode
        ((if is_official then align 16 str else align 15 str ++ codes "*") ++ op)
  append_registers (align 48 text)

unfoldable pub get_op_str : Text → AddrMode → Bool → M Text
unfolding set_protect op_str
get_op_str op mode is_official = do
  on_ppu (set_protect true)
  str ← op_str op mode is_official
  on_ppu (set_protect false)
  pure str
