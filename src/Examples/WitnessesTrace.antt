-- ===== src/Examples/WitnessesTrace.antt =====
-- The trace of an instruction at concrete machines.
use neschan.Base.{ℕ, ◌≡◌, refl, arith, ◌==◌, if◌then◌else◌, true, Option, none, some}
use neschan.Base.Text.{Text, codes, length, replicate}
use neschan.Cpu.Operand.{abs_jmp, abs, peek, peek_word, peek_split, peek_jmp}
use neschan.Cpu.Trace.{get_op_str}
use neschan.Cpu.Trace.Returns.Line.{get_op_str-line}
use neschan.Cpu.Trace.Quiet.{IsReading, get_op_str-IsReading}
use neschan.Input
use neschan.Memory.Ram.{redirect_addr, is_io_reg}
use neschan.System.State.{System, ◌>>=◌}
use neschan.System.Hoare.{Holds}
use neschan.System.Bus.{get_byte, get_word, read_io_reg}
use neschan.Examples.Machine.{blank_system, blank_cpu, blank_memory}

-- `JMP $C5F5` at 0xc000, with the opcode decoded.
abbrev jumping : System
jumping = record blank_system {
  cpu = record blank_cpu { pc = 0xc001 };
  mem = record blank_memory {
    ram = λ a.
        if a == 0xc000 then 0x4c else if a == 0xc001 then 0xf5 else if a == 0xc002 then 0xc5 else 0;
  };
}

text_of : Option (Text × System) → Text
text_of none = codes ""
text_of (some (text, s)) = text

-- The line that the comment in the source gives.
jump_line :
    text_of (get_op_str (codes "JMP") abs_jmp true jumping)
    ≡ codes "C000  4C F5 C5  JMP $C5F5                       A:00 X:00 Y:00 P:24 SP:FD CYC:  0"
unfolding text_of get_op_str peek peek_word peek_split peek_jmp get_word get_byte redirect_addr
    is_io_reg ◌>>=◌ length replicate
jump_line = refl

get_op_str-line_example :
    (text : Text) × (t : System) × (get_op_str (codes "JMP") abs_jmp true jumping ≡ some (text, t))
    × (length text ≡ 81)
get_op_str-line_example =
    get_op_str-line (codes "JMP") abs_jmp true jumping (unfold length in refl)
      (record { first = omega arith; second = omega arith })

get_op_str-IsReading_example :
    Holds (get_op_str (codes "JMP") abs_jmp true jumping) (λ text t. IsReading jumping t)
get_op_str-IsReading_example = get_op_str-IsReading (codes "JMP") abs_jmp true jumping refl

-- `LDA $4016` at 0xc000.
abbrev reading_pad : System
reading_pad = record jumping {
  mem = record blank_memory {
    ram = λ a.
        if a == 0xc000 then 0xad else if a == 0xc001 then 0x16 else if a == 0xc002 then 0x40 else 0;
  };
}

shifted_of : Option (Text × System) → ℕ
shifted_of none = 0
shifted_of (some (text, s)) = s.input.button_id 0

-- The trace itself shifts a button out, which the instruction then misses.
trace_reads_pad : shifted_of (get_op_str (codes "LDA") abs true reading_pad) ≡ 1
unfolding shifted_of get_op_str peek peek_word peek_split peek_jmp get_word get_byte read_io_reg
    redirect_addr is_io_reg ◌>>=◌ length replicate Input.read_controller
trace_reads_pad = refl
