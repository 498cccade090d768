-- ===== src/Examples/Witnesses.antt =====
-- The theorems on the CPU at concrete inputs.
use neschan.Base.{ℕ, ◌+◌, ◌-◌, ◌*◌, ◌≡◌, ◌≢◌, [], ◌∷◌, refl, arith, true, some, u8, u16, bit_or}
use neschan.Memory.Ram.{redirect_addr, is_io_reg}
use neschan.Cpu.State.{Cpu}
use neschan.Cpu.Alu.{adc_val, sbc_val, compare_flags}
use neschan.Cpu.Alu.Sum.{IsSum, adc_val-IsSum, IsDifference, sbc_val-IsDifference}
use neschan.Cpu.Alu.Compare.{IsComparison, compare_flags-IsComparison}
use neschan.Cpu.Operand.{push_word, pop_word, abs_jmp}
use neschan.Cpu.Flow.{jsr, rts, rti, php, plp}
use neschan.Cpu.Table.{decode}
use neschan.Cpu.Exec.{nmi, step_to}
use neschan.Cpu.Coverage.{IsDecoded, decode-IsDecoded}
use neschan.Cpu.Stack.{LeavesRam, with_s}
use neschan.Cpu.Stack.RoundTrip.{pop_word-push_word, rts-jsr, word_at}
use neschan.Cpu.Stack.Interrupt.{rti-nmi, plp-php}
use neschan.Cpu.Stack.Cartridge.{load_memory-LeavesRam}
use neschan.Cpu.Progress.Loop.{IsEnded, step_to-IsEnded}
use neschan.Mapper.Loader.{nrom}
use neschan.System.State.{System}
use neschan.System.Bus.{is_mapper_reg}
use neschan.System.Hoare.{Holds}
use neschan.System.Run.{load_memory}
use neschan.Examples.Machine.{zeros, bytes, blank_cpu, blank_memory, blank_system}

-- `A` is 0x50 and the carry is set.
abbrev adding : Cpu
adding = record blank_cpu { a = 0x50; p = 0x25 }

adc_val-IsSum_example : IsSum 0x50 adding (adc_val 0x50 adding)
adc_val-IsSum_example = adc_val-IsSum 0x50 adding (omega arith) (omega arith) (omega arith)

sbc_val-IsDifference_example : IsDifference 0xb0 adding (sbc_val 0xb0 adding)
sbc_val-IsDifference_example =
    sbc_val-IsDifference 0xb0 adding (omega arith) (omega arith) (omega arith)

compare_flags-IsComparison_example : IsComparison 0x50 0x51 adding (compare_flags 0x50 0x51 adding)
compare_flags-IsComparison_example =
    compare_flags-IsComparison 0x50 0x51 adding (omega arith) (omega arith) (omega arith)

blank-LeavesRam : LeavesRam blank_memory.mapper_info
unfolding is_mapper_reg
blank-LeavesRam a h = refl

-- The stack pointer is 0, so a word wraps around the page, and a `JSR $1234` stands at 0x600.
abbrev calling : System
calling = record blank_system {
  cpu = record blank_cpu { s = 0; pc = 0x601 };
  mem = record blank_memory { ram = λ a. bytes (0x20 ∷ 0x34 ∷ 0x12 ∷ []) (a - 0x600) };
}

pop_word-push_word_example :
    (t : System) × (push_word 0xabcd calling ≡ some (tt, t))
    × (pop_word t ≡ some (0xabcd, with_s 0 t))
    × ((a : ℕ) → a ≢ 0 + 0x100 → a ≢ u8 (0 + 255) + 0x100 → t.mem.ram a ≡ calling.mem.ram a)
pop_word-push_word_example =
    pop_word-push_word 0xabcd calling (omega arith) (omega arith) blank-LeavesRam

rts-jsr_example :
    (t u : System) × (jsr abs_jmp calling ≡ some (tt, t))
    × (t.cpu.pc ≡ word_at t 0x601)
    × (rts t ≡ some (tt, u))
    × (u.cpu ≡ record (calling.cpu) { pc = u16 (0x601 + 2); cycle = 0 + 3 * 6 + 3 * 6 })
unfolding redirect_addr is_io_reg
rts-jsr_example = rts-jsr calling (omega arith) (omega arith) blank-LeavesRam refl refl

rti-nmi_example :
    (t u : System) × (nmi calling ≡ some (tt, t))
    × (t.cpu.pc ≡ word_at t 0xfffa)
    × (rti t ≡ some (tt, u))
    × (u.cpu ≡ record (calling.cpu) { p = bit_or 0x24 0x20; cycle = 0 + 3 * 7 + 3 * 6 })
rti-nmi_example = rti-nmi calling (omega arith) (omega arith) (omega arith) blank-LeavesRam

decode-IsDecoded_example : IsDecoded 0xa9 (decode 0xa9)
decode-IsDecoded_example = decode-IsDecoded 0xa9 (omega arith)

-- One instruction's time, with fuel for it.
step_to-IsEnded_example : IsEnded 6 (step_to 1 6 calling)
step_to-IsEnded_example = step_to-IsEnded 1 6 calling (omega arith)

load_memory-LeavesRam_example :
    Holds
      (load_memory
        (nrom (record {
          prg_rom = record { size = 0x4000; byte = zeros };
          chr_rom = record { size = 0x2000; byte = zeros };
          vertical_mirroring = true;
        }))
        blank_system)
      (λ _ t. LeavesRam t.mem.mapper_info)
load_memory-LeavesRam_example = load_memory-LeavesRam _ blank_system

plp-php_example :
    (t u : System) × (php calling ≡ some (tt, t))
    × (plp t ≡ some (tt, u))
    × (u.cpu ≡ record (calling.cpu) { p = bit_or 0x24 0x20; cycle = 0 + 3 * 3 + 3 * 4 })
plp-php_example = plp-php calling (omega arith) (omega arith) blank-LeavesRam
