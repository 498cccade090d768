-- ===== src/Cpu/Operand.antt =====
-- Addressing modes, operands, the stack and the tables of cycles (lib/inc/nes_cpu.h and
-- lib/src/nes_cpu.cpp). An addressing mode that a function does not take ends in the source's
-- `assert(false)`: a fault.
use neschan.Base.{
  ℕ, ◌+◌, ◌-◌, ◌<<<◌, ◌>>>◌, bit_and, ◌==◌, if◌then◌else◌, u8, u16, Bool, false, not, Option, none,
  some, sign_extend,
}
use neschan.Cpu.State.{Cpu, step_cpu}
use neschan.System.State.{M, pure, ◌>>=◌, ◌>>◌, fault, get, on_cpu}
use neschan.System.Bus.{get_byte, get_word, set_byte}

pub data AddrMode : Type 0 where
  imp acc imm ind_jmp rel abs abs_jmp zp zp_ind_x zp_ind_y abs_x abs_y ind_x ind_y : AddrMode

pub data OperandKind : Type 0 where
  kind_acc kind_imm kind_addr : OperandKind

pub record Operand : Type 0 where
  pub addr_or_value : ℕ  -- uint16_t
  pub kind : OperandKind
  pub is_page_crossing : Bool

unfoldable pub peek : ℕ → M ℕ
peek addr = get_byte addr

unfoldable pub peek_word : ℕ → M ℕ
peek_word addr = get_word addr

unfoldable pub poke : ℕ → ℕ → M (Unit {0})
poke addr value = set_byte addr value

unfoldable pub add_pc : ℕ → Cpu → Cpu
add_pc n c = record c { pc = u16 (c.pc + n) }

unfoldable pub decode_byte : M ℕ
unfolding add_pc
decode_byte = do pc ← get (λ c. c.pc); on_cpu (add_pc 1); get_byte pc

unfoldable pub decode_word : M ℕ
unfolding add_pc
decode_word = do pc ← get (λ c. c.pc); word ← get_word pc; on_cpu (add_pc 2); pure word

unfoldable pub step_s : ℕ → Cpu → Cpu
step_s n c = record c { s = u8 (c.s + n) }

unfoldable pub push_byte : ℕ → M (Unit {0})
unfolding step_s
push_byte val = do s ← get (λ c. c.s); set_byte (s + 0x100) val; on_cpu (step_s 255)

unfoldable pub push_word : ℕ → M (Unit {0})
unfolding push_byte
push_word val = do push_byte (val >>> 8); push_byte (bit_and val 0xff)

unfoldable pub pop_byte : M ℕ
unfolding step_s
pop_byte = do on_cpu (step_s 1); s ← get (λ c. c.s); get_byte (s + 0x100)

unfoldable pub pop_word : M ℕ
unfolding pop_byte
pop_word = do lo ← pop_byte; hi ← pop_byte; pure ((hi <<< 8) + lo)

-- `addr` with an index added, and whether that leaves the page.
unfoldable pub indexed : ℕ → ℕ → ℕ × Bool
indexed addr index =
    let new_addr = u16 (addr + index) in
    (new_addr, not (bit_and addr 0xff00 == bit_and new_addr 0xff00))

-- A word whose second byte is fetched from `hi_addr`.
unfoldable pub peek_split : ℕ → ℕ → M ℕ
peek_split lo_addr hi_addr = do lo ← peek lo_addr; hi ← peek hi_addr; pure (lo + (hi <<< 8))

-- The operand of `JMP (addr)`, with the bug of the hardware at the end of a page.
unfoldable pub peek_jmp : ℕ → M ℕ
unfolding peek_split peek_word peek
peek_jmp addr =
    if bit_and addr 0xff == 0xff then peek_split addr (bit_and addr 0xff00) else peek_word addr

-- The address, and `*page_crossing`.
unfoldable pub decode_operand_addr : AddrMode → M (ℕ × Bool)
unfolding decode_byte decode_word indexed peek_split peek_jmp
decode_operand_addr zp = do b ← decode_byte; pure (b, false)
decode_operand_addr zp_ind_x = do
  b ← decode_byte
  x ← get (λ c. c.x)
  pure (bit_and (b + x) 0xff, false)
decode_operand_addr zp_ind_y = do
  b ← decode_byte
  y ← get (λ c. c.y)
  pure (bit_and (b + y) 0xff, false)
decode_operand_addr ind_jmp = do addr ← decode_word; target ← peek_jmp addr; pure (target, false)
decode_operand_addr abs = do addr ← decode_word; pure (addr, false)
decode_operand_addr abs_jmp = do addr ← decode_word; pure (addr, false)
decode_operand_addr abs_x = do addr ← decode_word; x ← get (λ c. c.x); pure (indexed addr x)
decode_operand_addr abs_y = do addr ← decode_word; y ← get (λ c. c.y); pure (indexed addr y)
decode_operand_addr ind_x = do
  b ← decode_byte
  x ← get (λ c. c.x)
  addr ← peek_split (bit_and (b + x) 0xff) (bit_and (b + x + 1) 0xff)
  pure (addr, false)
decode_operand_addr ind_y = do
  b ← decode_byte
  addr ← peek_split b (bit_and (b + 1) 0xff)
  y ← get (λ c. c.y)
  pure (indexed addr y)
decode_operand_addr _ = fault

-- `decode_operand` for the modes that give an address.
unfoldable pub addr_operand : AddrMode → M Operand
unfolding decode_operand_addr
addr_operand mode = do
  r ← decode_operand_addr mode
  pure (record { addr_or_value = r.0; kind = kind_addr; is_page_crossing = r.1 })

unfoldable pub decode_operand : AddrMode → M Operand
unfolding addr_operand decode_byte
decode_operand acc = pure (record { addr_or_value = 0; kind = kind_acc; is_page_crossing = false })
decode_operand imm = do
  b ← decode_byte
  pure (record { addr_or_value = b; kind = kind_imm; is_page_crossing = false })
decode_operand mode = addr_operand mode

unfoldable pub read_kind : OperandKind → ℕ → M ℕ
unfolding peek
read_kind kind_acc addr = get (λ c. c.a)
read_kind kind_imm addr = pure (u8 addr)
read_kind kind_addr addr = peek addr

unfoldable pub read_operand : Operand → M ℕ
unfolding read_kind
read_operand op = read_kind op.kind op.addr_or_value

-- An immediate operand cannot be written: `assert(false)`.
unfoldable pub write_kind : OperandKind → ℕ → ℕ → M (Unit {0})
unfolding poke
write_kind kind_acc addr value = on_cpu (λ c. record c { a = value })
write_kind kind_imm addr value = fault
write_kind kind_addr addr value = poke addr value

unfoldable pub write_operand : Operand → ℕ → M (Unit {0})
unfolding write_kind
write_operand op value = write_kind op.kind op.addr_or_value value

-- `get_cpu_cycle`; `none` is its failed assertion.
unfoldable pub get_cpu_cycle : Bool → AddrMode → Option ℕ
get_cpu_cycle crossing acc = some 2
get_cpu_cycle crossing imm = some 2
get_cpu_cycle crossing zp = some 3
get_cpu_cycle crossing zp_ind_x = some 4
get_cpu_cycle crossing zp_ind_y = some 4
get_cpu_cycle crossing abs = some 4
get_cpu_cycle crossing abs_x = some (if crossing then 5 else 4)
get_cpu_cycle crossing abs_y = some (if crossing then 5 else 4)
get_cpu_cycle crossing ind_x = some 6
get_cpu_cycle crossing ind_y = some (if crossing then 6 else 5)
get_cpu_cycle crossing _ = none

-- `step_cpu(get_cpu_cycle(op, addr_mode) + extra)`.
unfoldable pub step_operand : Bool → AddrMode → ℕ → M (Unit {0})
unfolding get_cpu_cycle
step_operand crossing mode extra = elim (get_cpu_cycle crossing mode) [
  | none ↦ fault
  | some n ↦ on_cpu (step_cpu (n + extra))
]

-- `new_addr - rel` is taken in `int`; the page is read off its low 16 bits.
unfoldable pub get_branch_cycle : Bool → ℕ → ℕ → ℕ
get_branch_cycle cond new_addr rel_byte =
    let old_addr = u16 (new_addr + 65536 - sign_extend rel_byte) in
    if cond then if bit_and new_addr 0xff00 == bit_and old_addr 0xff00 then 3 else 4 else 2

unfoldable pub get_shift_cycle : AddrMode → ℕ
get_shift_cycle acc = 2
get_shift_cycle zp = 5
get_shift_cycle zp_ind_x = 6
get_shift_cycle abs = 6
get_shift_cycle abs_x = 7
get_shift_cycle _ = 0

-- The table of `INC` and `DEC`.
unfoldable pub get_inc_cycle : AddrMode → ℕ
get_inc_cycle zp = 5
get_inc_cycle zp_ind_x = 6
get_inc_cycle abs = 6
get_inc_cycle abs_x = 7
get_inc_cycle _ = 0
