-- ===== src/Cpu/Stack.antt =====
-- The stack page is plain memory: what pushes and pops do to the machine.
pub mod RoundTrip
pub mod Cartridge
pub mod Interrupt
use neschan.Base.{
  ℕ, ◌+◌, ◌*◌, ◌/◌, ◌%◌, ◌^◌, ◌<◌, ◌≤◌, ◌≡◌, refl, arith, Bool, true, false, if◌then◌else◌, u8,
  ◌==◌, leb, ltb, bit_and, ◌>>>◌, ◌<<<◌, update, Option, none, some, ◌∙◌,
}
use neschan.Base.Table.{all_below}
use neschan.Base.Bits.{equal_below}
use neschan.Memory.Map.{target, redirect_addr_eq, is_io_reg_eq, in_io}
use neschan.Memory.Ram.{redirect_addr, is_io_reg}
use neschan.Mapper.Info.{MapperInfo}
use neschan.Mapper.Loader.{Mapper}
use neschan.System.State.{System, ◌>>=◌}
use neschan.System.Bus.{get_byte, set_byte, write_mem, write_ram, is_mapper_reg}
use neschan.System.Steps.{>>=-some, >>-some}
use neschan.Cpu.Operand.{push_byte, pop_byte, push_word, pop_word}

-- No mapper register lies in the 8 KB of internal memory.
abbrev pub LeavesRam : MapperInfo → Type 0
LeavesRam info = (a : ℕ) → a < 0x2000 → is_mapper_reg a info ≡ false

abbrev pub poked : ℕ → ℕ → System → System
poked a v s = record s { mem = record (s.mem) { ram = update s.mem.ram a v } }

redirect-stack : (a : ℕ) → a < 0x800 → redirect_addr a ≡ a
redirect-stack a h = redirect_addr_eq a (omega arith) ∙ ground arith

is_io_reg-stack : (a : ℕ) → a < 0x800 → is_io_reg a ≡ false
is_io_reg-stack a h = is_io_reg_eq a (omega arith) ∙ ground arith

write_mem-low :
    (a v : ℕ) (m : Option Mapper) (s : System)
    → a < 0x800
    → LeavesRam s.mem.mapper_info
    → write_mem a v m s ≡ some (tt, poked a v s)
unfolding write_mem
write_mem-low a v none s h low = refl
write_mem-low a v (some m) s h low = rw (low a (omega arith))

pub set_byte-low :
    (a v : ℕ) (s : System)
    → a < 0x800
    → LeavesRam s.mem.mapper_info
    → set_byte a v s ≡ some (tt, poked a v s)
unfolding set_byte
set_byte-low a v s h low =
    rw (redirect-stack a h, is_io_reg-stack a h) (write_mem-low a v s.mem.mapper s h low)

pub get_byte-low : (a : ℕ) (s : System) → a < 0x800 → get_byte a s ≡ some (s.mem.ram a, s)
unfolding get_byte
get_byte-low a s h = rw (redirect-stack a h, is_io_reg-stack a h)

abbrev pub with_s : ℕ → System → System
with_s n s = record s { cpu = record (s.cpu) { s = n } }

pub push_byte_eq :
    (v : ℕ) (s : System)
    → s.cpu.s < 256
    → LeavesRam s.mem.mapper_info
    → push_byte v s ≡ some (tt, with_s (u8 (s.cpu.s + 255)) (poked (s.cpu.s + 0x100) v s))
unfolding ◌>>=◌ push_byte
push_byte_eq v s h low =
    >>-some (set_byte (s.cpu.s + 0x100) v) _ (set_byte-low (s.cpu.s + 0x100) v s (omega arith) low)

pub pop_byte_eq :
    (s : System)
    → pop_byte s ≡ some (s.mem.ram (u8 (s.cpu.s + 1) + 0x100), with_s (u8 (s.cpu.s + 1)) s)
unfolding ◌>>=◌ pop_byte
pop_byte_eq s = rw (get_byte-low (u8 (s.cpu.s + 1) + 0x100) _ (omega arith))

pub push_word_eq :
    (v : ℕ) (s : System)
    → s.cpu.s < 256
    → LeavesRam s.mem.mapper_info
    → push_word v s
      ≡ some (
        tt,
        with_s (u8 (u8 (s.cpu.s + 255) + 255)) (
            poked
              (u8 (s.cpu.s + 255) + 0x100)
              (bit_and v 0xff)
              (poked (s.cpu.s + 0x100) (v >>> 8) s)),
      )
unfolding ◌>>=◌ push_word
push_word_eq v s h low =
    >>-some (push_byte (v >>> 8)) (push_byte (bit_and v 0xff)) (push_byte_eq (v >>> 8) s h low)
    ∙ push_byte_eq (bit_and v 0xff)
        (with_s (u8 (s.cpu.s + 255)) (poked (s.cpu.s + 0x100) (v >>> 8) s)) (omega arith) low

pub pop_word_eq :
    (s : System)
    → pop_word s ≡ (
        let lo = u8 (s.cpu.s + 1) in
        let hi = u8 (lo + 1) in
        some (s.mem.ram (hi + 0x100) * 256 + s.mem.ram (lo + 0x100), with_s hi s))
unfolding ◌>>=◌ pop_word
pop_word_eq s =
    >>=-some pop_byte _ (pop_byte_eq s)
    ∙ >>=-some pop_byte _ (pop_byte_eq (with_s (u8 (s.cpu.s + 1)) s))

pub low_byte : (v : ℕ) → v < 0x10000 → bit_and v 0xff ≡ v % 256
low_byte v h =
    equal_below 0x10000 (λ v. bit_and v 0xff) (λ v. v % 256) v (unfold all_below in refl) h
