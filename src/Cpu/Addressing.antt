-- ===== src/Cpu/Addressing.antt =====
-- The addressing modes of the 6502 as arithmetic on addresses, and `nes_cpu::decode_operand_addr`
-- (lib/inc/nes_cpu.h) against them.
use neschan.Base.{
  ℕ, ◌+◌, ◌*◌, ◌/◌, ◌%◌, ◌<◌, ◌≡◌, refl, ap, ◌∙◌, arith, ◌==◌, u16, bit_and, Bool, true, false, not,
  Bool-cases, inl, inr, Option, none, some, ==_iff,
}
use neschan.Cpu.Operand.{
  AddrMode, acc, imm, imp, rel, zp, zp_ind_x, zp_ind_y, abs, abs_x, abs_y, ind_x, ind_y, abs_jmp,
  ind_jmp, decode_byte, decode_word, add_pc, indexed, peek, peek_word, peek_split, peek_jmp,
  decode_operand_addr,
}
use neschan.Cpu.Stack.{get_byte-low, low_byte}
use neschan.Cpu.Stack.RoundTrip.{IsPlain, byte_at, word_at, get_byte-plain, get_word-plain}
use neschan.Cpu.Branches.{high_byte, same_page, decode_byte_eq}
use neschan.System.State.{System, ◌>>=◌}
use neschan.System.Bus.{get_byte, get_word}
use neschan.System.Steps.{>>=-some}
use neschan.System.Fits.{Fits}

-- The byte and the word behind the opcode.
abbrev pub operand_byte : System → ℕ
operand_byte s = byte_at s s.cpu.pc

abbrev pub operand_word : System → ℕ
operand_word s = word_at s s.cpu.pc

-- A word of the zero page, around its end.
abbrev pub zero_page_word : System → ℕ → ℕ
zero_page_word s a = s.mem.ram a + s.mem.ram ((a + 1) % 256) * 256

-- The address that follows `a` in its page, around its end.
abbrev pub next_in_page : ℕ → ℕ
next_in_page a = a / 256 * 256 + (a + 1) % 256

-- An index moves an address around the address space; does it leave the page?
abbrev pub moved : ℕ → ℕ → ℕ × Bool
moved a i = ((a + i) % 0x10000, not ((a + i) % 0x10000 / 256 == a / 256))

-- The address that an operand stands for, and whether its computation leaves a page.
abbrev pub effective : AddrMode → System → Option (ℕ × Bool)
effective zp s = some (operand_byte s, false)
effective zp_ind_x s = some ((operand_byte s + s.cpu.x) % 256, false)
effective zp_ind_y s = some ((operand_byte s + s.cpu.y) % 256, false)
effective abs s = some (operand_word s, false)
effective abs_jmp s = some (operand_word s, false)
effective abs_x s = some (moved (operand_word s) s.cpu.x)
effective abs_y s = some (moved (operand_word s) s.cpu.y)
effective ind_x s = some (zero_page_word s ((operand_byte s + s.cpu.x) % 256), false)
effective ind_y s = some (moved (zero_page_word s (operand_byte s)) s.cpu.y)
effective ind_jmp s =
    some (byte_at s (operand_word s) + byte_at s (next_in_page (operand_word s)) * 256, false)
effective _ s = none

-- The machine behind an operand of `n` bytes.
abbrev pub behind_operand : ℕ → System → System
behind_operand n s = record s { cpu = record (s.cpu) { pc = u16 (s.cpu.pc + n) } }

abbrev pub operand_size : AddrMode → ℕ
operand_size zp = 1
operand_size zp_ind_x = 1
operand_size zp_ind_y = 1
operand_size ind_x = 1
operand_size ind_y = 1
operand_size _ = 2

abbrev pub result : AddrMode → System → Option (ℕ × Bool) → Option ((ℕ × Bool) × System)
result mode s none = none
result mode s (some r) = some (r, behind_operand (operand_size mode) s)

decode_word_eq :
    (s : System)
    → IsPlain s.cpu.pc
    → IsPlain (u16 (s.cpu.pc + 1))
    → decode_word s ≡ some (operand_word s, behind_operand 2 s)
unfolding decode_word ◌>>=◌
decode_word_eq s h k = >>=-some (get_word s.cpu.pc) _ (get_word-plain s.cpu.pc s h k)

indexed_eq : (a i : ℕ) → a < 0x10000 → indexed a i ≡ moved a i
unfolding indexed
indexed_eq a i h = rw (same_page a ((a + i) % 0x10000) h (omega arith)) refl

peek_split-low :
    (a b : ℕ) (s : System)
    → a < 256
    → b < 256
    → peek_split a b s ≡ some (s.mem.ram a + s.mem.ram b * 256, s)
unfolding peek_split ◌>>=◌ peek
peek_split-low a b s ha hb =
    >>=-some (get_byte a) _ (get_byte-low a s (omega arith))
    ∙ >>=-some (get_byte b) _ (get_byte-low b s (omega arith))

-- What has to be plain memory: the operand, and the pointer of `JMP (addr)`.
abbrev pub IsReadable : AddrMode → System → Type 0
IsReadable ind_jmp s =
    IsPlain (operand_word s)
    × IsPlain (u16 (operand_word s + 1))
    × IsPlain (next_in_page (operand_word s))
IsReadable _ s = Unit {0}

low_bits : (n : ℕ) → n < 0x10000 → bit_and n 0xff ≡ n % 256
low_bits n h = low_byte n h

operand_byte-lt : (s : System) → Fits s → operand_byte s < 256
operand_byte-lt s f = f.ram _

operand_word-lt : (s : System) → Fits s → operand_word s < 0x10000
operand_word-lt s f = omega (arith, operand_byte-lt s f, f.ram _)

low_bits_next : (n : ℕ) → n + 1 < 0x10000 → bit_and (n + 1) 0xff ≡ (n % 256 + 1) % 256
low_bits_next n h = low_byte (n + 1) h ∙ omega arith

-- The two ways to read the pointer agree with its page.
at_end : (a : ℕ) → a < 0x10000 → (bit_and a 0xff == 0xff) ≡ true → bit_and a 0xff00 ≡ next_in_page a
at_end a h e =
    let last = (==_iff (bit_and a 0xff) 0xff).0 e in
    omega (arith, last, low_byte a h, high_byte a h)

before_end : (a : ℕ) → a < 0x10000 → (bit_and a 0xff == 0xff) ≡ false → u16 (a + 1) ≡ next_in_page a
before_end a h e = ground (arith, e, low_byte a h)

peek_split-plain :
    (a b : ℕ) (s : System)
    → IsPlain a
    → IsPlain b
    → peek_split a b s ≡ some (byte_at s a + byte_at s b * 256, s)
unfolding peek_split ◌>>=◌ peek
peek_split-plain a b s ha hb =
    >>=-some (get_byte a) _ (get_byte-plain a s ha)
    ∙ >>=-some (get_byte b) _ (get_byte-plain b s hb)

peek_jmp_eq :
    (a : ℕ) (s : System)
    → a < 0x10000
    → IsPlain a
    → IsPlain (u16 (a + 1))
    → IsPlain (next_in_page a)
    → peek_jmp a s ≡ some (byte_at s a + byte_at s (next_in_page a) * 256, s)
unfolding peek_jmp peek_word
peek_jmp_eq a s ha h k l = elim (Bool-cases (bit_and a 0xff == 0xff)) [
  | inl e ↦ rw (e, at_end a ha e) (peek_split-plain a (next_in_page a) s h l)
  | inr e ↦ rw e (
      get_word-plain a s h k
      ∙ ap (λ (n : ℕ). some (byte_at s a + byte_at s n * 256, s)) (before_end a ha e))
]

-- In each addressing mode that gives an address, decoding the operand of a machine whose values fit
-- their C types gives the address of the 6502 and whether its page is left, and moves `PC` behind the
-- operand; in the others it is a fault. The operand stands in plain memory, and so does the pointer of
-- an indirect jump.
pub decode_operand_addr_eq :
    (mode : AddrMode) (s : System)
    → Fits s
    → IsPlain s.cpu.pc
    → IsPlain (u16 (s.cpu.pc + 1))
    → IsReadable mode s
    → decode_operand_addr mode s ≡ result mode s (effective mode s)
unfolding decode_operand_addr ◌>>=◌ add_pc
decode_operand_addr_eq zp s f h k r = >>=-some decode_byte _ (decode_byte_eq s h)
decode_operand_addr_eq zp_ind_x s f h k r =
    >>=-some decode_byte _ (decode_byte_eq s h)
    ∙ rw (low_bits (operand_byte s + s.cpu.x) (omega (arith, operand_byte-lt s f, f.cpu.x))) refl
decode_operand_addr_eq zp_ind_y s f h k r =
    >>=-some decode_byte _ (decode_byte_eq s h)
    ∙ rw (low_bits (operand_byte s + s.cpu.y) (omega (arith, operand_byte-lt s f, f.cpu.y))) refl
decode_operand_addr_eq abs s f h k r = >>=-some decode_word _ (decode_word_eq s h k)
decode_operand_addr_eq abs_jmp s f h k r = >>=-some decode_word _ (decode_word_eq s h k)
decode_operand_addr_eq abs_x s f h k r =
    >>=-some decode_word _ (decode_word_eq s h k)
    ∙ rw (indexed_eq (operand_word s) s.cpu.x (operand_word-lt s f)) refl
decode_operand_addr_eq abs_y s f h k r =
    >>=-some decode_word _ (decode_word_eq s h k)
    ∙ rw (indexed_eq (operand_word s) s.cpu.y (operand_word-lt s f)) refl
decode_operand_addr_eq ind_x s f h k r =
    let b = operand_byte s + s.cpu.x in
    let lt : b < 512 = omega (arith, operand_byte-lt s f, f.cpu.x) in
    >>=-some decode_byte _ (decode_byte_eq s h)
    ∙ rw (low_bits b (omega arith), low_bits_next b (omega arith))
        (>>=-some (peek_split (b % 256) ((b % 256 + 1) % 256)) _ (
          peek_split-low (b % 256) ((b % 256 + 1) % 256) (behind_operand 1 s) (omega arith)
            (omega arith)))
decode_operand_addr_eq ind_y s f h k r =
    let b = operand_byte s in
    let lt : b < 256 = operand_byte-lt s f in
    >>=-some decode_byte _ (decode_byte_eq s h)
    ∙ rw (low_bits (b + 1) (omega arith)) (
        >>=-some (peek_split b ((b + 1) % 256)) _
          (peek_split-low b ((b + 1) % 256) (behind_operand 1 s) (omega arith) (omega arith))
        ∙ rw
            (indexed_eq (zero_page_word s b) s.cpu.y
              (omega (arith, f.ram b, f.ram ((b + 1) % 256))))
            refl)
decode_operand_addr_eq ind_jmp s f h k r =
    >>=-some decode_word _ (decode_word_eq s h k)
    ∙ >>=-some (peek_jmp (operand_word s)) _
        (peek_jmp_eq (operand_word s) (behind_operand 2 s) (operand_word-lt s f) r.0 r.1 r.2)
decode_operand_addr_eq acc s f h k r = refl
decode_operand_addr_eq imm s f h k r = refl
decode_operand_addr_eq imp s f h k r = refl
decode_operand_addr_eq rel s f h k r = refl
