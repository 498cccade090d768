-- ===== src/Cpu/Branches.antt =====
-- The branches of lib/src/nes_cpu.cpp against the 6502: where they lead, and how long they take.
use neschan.Base.{
  ℕ, ◌+◌, ◌-◌, ◌*◌, ◌/◌, ◌%◌, ◌<◌, ◌≡◌, refl, ap, ◌∙◌, arith, ◌==◌, ◌&&◌, ◌||◌, if◌then◌else◌, u16,
  bit_and, sign_extend, Bool, true, false, Bool-cases, inl, inr, some,
}
use neschan.Base.Table.{all_below}
use neschan.Base.Bits.{equal_below}
use neschan.Cpu.State.{Cpu, step_cpu}
use neschan.Cpu.Operand.{decode_byte, add_pc, get_branch_cycle}
use neschan.Cpu.Flow.{branch, take_branch}
use neschan.Cpu.Instr.{stop}
use neschan.Cpu.Stack.RoundTrip.{IsPlain, byte_at, get_byte-plain}
use neschan.System.State.{System, ◌>>=◌}
use neschan.System.Steps.{>>=-some, >>-some}

-- The address behind the branch, and the one that its byte, as a signed number, leads to from there.
abbrev pub next_pc : System → ℕ
next_pc s = (s.cpu.pc + 1) % 0x10000

abbrev pub target_pc : System → ℕ
target_pc s = let v = byte_at s s.cpu.pc in (next_pc s + 0x10000 + v - 256 * (v / 128)) % 0x10000

-- Two cycles, one more when it is taken, and one more when that leaves the page.
abbrev pub branch_cycles : Bool → System → ℕ
branch_cycles taken s = if taken then if next_pc s / 256 == target_pc s / 256 then 3 else 4 else 2

-- A taken branch to itself stops the system if it looks for an endless loop.
abbrev pub loops : Bool → System → Bool
loops taken s = taken && ((byte_at s s.cpu.pc == 0xfe) && s.cpu.stop_at_infinite_loop)

abbrev pub branched : Bool → System → System
branched taken s = record s {
  cpu = record (s.cpu) {
    pc = if taken then target_pc s else next_pc s;
    cycle = s.cpu.cycle + 3 * branch_cycles taken s;
    stop_at_infinite_loop = if loops taken s then false else s.cpu.stop_at_infinite_loop;
  };
  stop_requested = loops taken s || s.stop_requested;
}

pub high_byte : (a : ℕ) → a < 0x10000 → bit_and a 0xff00 ≡ a / 256 * 256
high_byte a h =
    equal_below 0x10000 (λ a. bit_and a 0xff00) (λ a. a / 256 * 256) a (unfold all_below in refl) h

pub same_page :
    (a b : ℕ)
    → a < 0x10000
    → b < 0x10000
    → (bit_and a 0xff00 == bit_and b 0xff00) ≡ (b / 256 == a / 256)
same_page a b ha hb = rw (high_byte a ha, high_byte b hb) (ground arith)

there :
    (next v : ℕ)
    → v < 256
    → u16 (next + sign_extend v) ≡ (next + 0x10000 + v - 256 * (v / 128)) % 0x10000
there next v hv = ground arith

and_back :
    (next v : ℕ)
    → next < 0x10000
    → v < 256
    → u16 (u16 (next + sign_extend v) + 0x10000 - sign_extend v) ≡ next
and_back next v hn hv = ground arith

-- The pages are compared by their masks, and the old address is found by going back.
taken_cycle :
    (next v : ℕ)
    → next < 0x10000
    → v < 256
    → get_branch_cycle true (u16 (next + sign_extend v)) v
      ≡ (if next / 256 == (next + 0x10000 + v - 256 * (v / 128)) % 0x10000 / 256 then 3 else 4)
unfolding get_branch_cycle
taken_cycle next v hn hv =
    rw (and_back next v hn hv, same_page (u16 (next + sign_extend v)) next (omega arith) hn)
      (ap (λ (n : ℕ). if next / 256 == n / 256 then 3 else 4) (there next v hv))

take_branch_eq :
    (v : ℕ) (s : System)
    → take_branch v s ≡ (
        let b = (v == 0xfe) && s.cpu.stop_at_infinite_loop in
        some (
          tt,
          record s {
            cpu = record (s.cpu) {
              pc = u16 (s.cpu.pc + sign_extend v);
              stop_at_infinite_loop = if b then false else s.cpu.stop_at_infinite_loop;
            };
            stop_requested = b || s.stop_requested;
          },
        ))
unfolding take_branch ◌>>=◌ stop
take_branch_eq v s = elim (Bool-cases ((v == 0xfe) && s.cpu.stop_at_infinite_loop)) [
  | inl e ↦ rw e refl
  | inr e ↦ rw e refl
]

pub decode_byte_eq :
    (s : System)
    → IsPlain s.cpu.pc
    → decode_byte s ≡ some (byte_at s s.cpu.pc, record s { cpu = add_pc 1 s.cpu })
unfolding decode_byte ◌>>=◌
decode_byte_eq s h = get_byte-plain s.cpu.pc (record s { cpu = add_pc 1 s.cpu }) h

-- A branch at an address of plain memory, whose operand is a byte in plain memory too, leads to the
-- next instruction after two cycles when its condition fails. When it holds, it leads to the address
-- that the operand as a signed byte is away from there, around the end of the address space, after
-- three cycles, or four when that is on another page; when it leads to itself and the CPU
-- looks for that, it stops the system, and the CPU looks for it no more. Nothing else changes. `PC` has
-- 16 bits.
pub branch_eq :
    (test : Cpu → Bool) (s : System)
    → s.cpu.pc < 0x10000
    → IsPlain s.cpu.pc
    → byte_at s s.cpu.pc < 256
    → branch test s ≡ some (tt, branched (test s.cpu) s)
unfolding branch ◌>>=◌ step_cpu add_pc
branch_eq test s hp h hv = elim (Bool-cases (test s.cpu)) [
  | inl e ↦
      let v = byte_at s s.cpu.pc in
      let next = next_pc s in
      rw e (
        >>=-some decode_byte _ (decode_byte_eq s h)
        ∙ >>-some (take_branch v) _ (take_branch_eq v (record s { cpu = add_pc 1 s.cpu }))
        ∙ rw (taken_cycle next v (omega arith) hv, there next v hv) refl)
  | inr e ↦ rw e (>>=-some decode_byte _ (decode_byte_eq s h) ∙ unfold get_branch_cycle in refl)
]
