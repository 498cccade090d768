-- ===== src/Cpu/Trace/Returns.antt =====
-- How many bytes a member function reads: a read is defined as long as no controller has run out of
-- buttons.
pub mod Line
use neschan.Base.{
  ℕ, zero, suc, ◌+◌, ◌-◌, ◌*◌, ◌<◌, ◌≤◌, ◌≡◌, refl, sym, ◌∙◌, ap, arith, ◌==◌, leb, ltb,
  if◌then◌else◌, not, ◌&&◌, inl, inr, Bool-cases, Bool, true, false, bit_and, u8, u16, update,
  Option, none, some, List,
}
use neschan.Base.Text.{Text, codes, length}
use neschan.Cpu.State.{Cpu}
use neschan.Cpu.Operand.{
  AddrMode, imp, acc, imm, ind_jmp, rel, abs, abs_jmp, zp, zp_ind_x, zp_ind_y, abs_x, abs_y, ind_x,
  ind_y, peek, peek_word, peek_split, peek_jmp,
}
use neschan.Cpu.Trace.{
  append_value, append_zp, append_abs, append_zp_indexed, append_abs_indexed, append_ind_x,
  append_ind_y, append_operand, append_operand_str, append_bytes, append_registers, operand_size,
  op_str, get_op_str,
}
use neschan.Cpu.Trace.Layout.{Writes}
use neschan.Cpu.Trace.Columns.{get_op_str-Writes}
use neschan.Input.{Input, read_controller, shift_out, reload, reload_player}
use neschan.Memory.Ram.{redirect_addr, is_io_reg}
use neschan.Ppu.State.{Ppu}
use neschan.Ppu.Registers.{read_ppustatus, read_oamdata, read_ppudata, read_latch}
use neschan.System.State.{System, M, pure, ◌>>=◌, get, on_ppu, read_ppu, read_input}
use neschan.System.Hoare.{Holds}
use neschan.System.Steps.{>>=-some}
use neschan.System.Bus.{get_byte, get_word, read_io_reg}

-- Both controllers have `j` reads left.
pub record IsFresh (j : ℕ) (n : Input) : Type 0 where
  pub first : n.button_id 0 + j ≤ 8
  pub second : n.button_id 1 + j ≤ 8

-- At most `k` reads.
pub record Reads {A : Type 0} (k : ℕ) (m : M A) : Type 0 where
  pub at :
      (s : System) (j : ℕ)
      → IsFresh (k + j) s.input
      → (a : A) × (t : System) × (m s ≡ some (a, t)) × IsFresh j t.input

shift_out-IsFresh :
    (id j : ℕ) (n : Input)
    → id < 2
    → IsFresh (1 + j) n
    → (v : ℕ) × (m : Input) × (shift_out id n ≡ some (v, m)) × IsFresh j m
unfolding shift_out
shift_out-IsFresh zero j n h f =
    rw small
      (_, _, refl, record { first = ground (arith, f.first); second = ground (arith, f.second) })
  where
    small : leb (n.button_id 0) 7 ≡ true
    small = ground (arith, f.first)
shift_out-IsFresh (suc zero) j n h f =
    rw small
      (_, _, refl, record { first = ground (arith, f.first); second = ground (arith, f.second) })
  where
    small : leb (n.button_id 1) 7 ≡ true
    small = ground (arith, f.second)
shift_out-IsFresh (suc (suc id)) j n h f = absurd (omega (arith, h))

ready :
    (b : Bool) (j : ℕ) (n : Input) → IsFresh (1 + j) n → IsFresh (1 + j) (if b then reload n else n)
unfolding reload reload_player
ready true j n f = record { first = omega (arith, f.first); second = omega (arith, f.first) }
ready false j n f = f

read_controller-IsFresh :
    (id j : ℕ) (n : Input)
    → id < 2
    → IsFresh (1 + j) n
    → (v : ℕ) × (m : Input) × (read_controller id n ≡ some (v, m)) × IsFresh j m
unfolding read_controller
read_controller-IsFresh id j n h f =
    shift_out-IsFresh id j (if n.strobe_on then reload n else n) h (ready n.strobe_on j n f)

fewer : (i j : ℕ) (n : Input) → j ≤ i → IsFresh i n → IsFresh j n
fewer i j n le f = record { first = omega (arith, f.first); second = omega (arith, f.second) }

pub Reads-pure : {A : Type 0} (a : A) → Reads 0 (pure a)
unfolding pure
Reads-pure a = record { at = λ s j f. (a, s, refl, fewer (0 + j) j s.input (omega arith) f) }

Reads-get : {A : Type 0} (g : Cpu → A) → Reads 0 (get g)
unfolding get
Reads-get g = record { at = λ s j f. (g s.cpu, s, refl, fewer (0 + j) j s.input (omega arith) f) }

pub Reads-more : {A : Type 0} (k l : ℕ) (m : M A) → k ≤ l → Reads k m → Reads l m
Reads-more k l m le r = record {
  at = λ s j f.
      let q = r.at s (l - k + j) (fewer (l + j) (k + (l - k + j)) s.input (omega (arith, le)) f) in
      (q.0, q.1, q.2, fewer (l - k + j) j q.1.input (omega arith) q.3);
}

Reads-then :
    {A B : Type 0} (k l : ℕ) (m : M A) (g : A → M B)
    → Reads k m
    → ((a : A) → Reads l (g a))
    → Reads (k + l) (m >>= g)
Reads-then k l m g r h = record {
  at = λ s j f.
      let q = r.at s (l + j) (fewer (k + l + j) (k + (l + j)) s.input (omega arith) f) in
      let u = (h q.0).at q.1 j q.3 in (u.0, u.1, >>=-some m g q.2 ∙ u.2, u.3);
}

pub Reads-if :
    {A : Type 0} (k : ℕ) (b : Bool) (m w : M A)
    → Reads k m
    → Reads k w
    → Reads k (if b then m else w)
Reads-if k true m w r h = r
Reads-if k false m w r h = h

read_ppu-Reads : (g : Ppu → ℕ × Ppu) → Reads 1 (read_ppu g)
unfolding read_ppu
read_ppu-Reads g = record {
  at = λ s j f.
      ((g s.ppu).0, record s { ppu = (g s.ppu).1 }, refl, fewer (1 + j) j s.input (omega arith) f);
}

stepped :
    (s : System) (r : Option (ℕ × Input)) (v : ℕ) (n : Input)
    → r ≡ some (v, n)
    → ◌≡◌ {A = Option (ℕ × System)}
        (elim r [ none ↦ none | some (v, n) ↦ some (v, record s { input = n }) ])
        (some (v, record s { input = n }))
stepped s r v n e = rw e refl

read_input-Reads : (id : ℕ) → id < 2 → Reads 1 (read_input (read_controller id))
unfolding read_input
read_input-Reads id h = record {
  at = λ s j f.
      let q = read_controller-IsFresh id j s.input h f in
      (q.0, record s { input = q.1 }, stepped s (read_controller id s.input) q.0 q.1 q.2, q.3);
}

read_io_reg-Reads : (addr : ℕ) → Reads 1 (read_io_reg addr)
unfolding read_io_reg
read_io_reg-Reads addr = Reads-if 1 (addr == 0x2002) _ _ (read_ppu-Reads read_ppustatus) (
    Reads-if 1 (addr == 0x2004) _ _ (read_ppu-Reads read_oamdata) (
      Reads-if 1 (addr == 0x2007) _ _ (read_ppu-Reads read_ppudata) (
        Reads-if 1 (addr == 0x4016) _ _ (read_input-Reads 0 (omega arith)) (
          Reads-if 1 (addr == 0x4017) _ _ (read_input-Reads 1 (omega arith))
            (read_ppu-Reads (λ p. (read_latch p, p)))))))

read_ram-Reads : (addr : ℕ) → Reads {A = ℕ} 1 (λ s. some (s.mem.ram addr, s))
read_ram-Reads addr = record {
  at = λ s j f. (s.mem.ram addr, s, refl, fewer (1 + j) j s.input (omega arith) f);
}

pub get_byte-Reads : (addr : ℕ) → Reads 1 (get_byte addr)
unfolding get_byte
get_byte-Reads addr =
    Reads-if 1 (is_io_reg (redirect_addr addr)) _ _ (read_io_reg-Reads (redirect_addr addr))
      (read_ram-Reads (redirect_addr addr))

-- A call of `k` reads, and what follows it.
pub after :
    {A B : Type 0} (k l n : ℕ) (m : M A) (g : A → M B)
    → k + l ≤ n
    → Reads k m
    → ((a : A) → Reads l (g a))
    → Reads n (m >>= g)
after k l n m g le r h = Reads-more (k + l) n (m >>= g) le (Reads-then k l m g r h)

-- The registers are read for nothing.
pub got :
    {A B : Type 0} (n : ℕ) (q : Cpu → A) (g : A → M B)
    → ((a : A) → Reads n (g a))
    → Reads n (get q >>= g)
got n q g h = after 0 n n (get q) g (omega arith) (Reads-get q) h

pub ended : {A : Type 0} (n : ℕ) (a : A) → Reads n (pure a)
ended n a = Reads-more 0 n (pure a) (omega arith) (Reads-pure a)

-- What changes only the PPU.
pub Reads-on_ppu : (g : Ppu → Ppu) → Reads 0 (on_ppu g)
unfolding on_ppu
Reads-on_ppu g = record {
  at = λ s j f. (tt, record s { ppu = g s.ppu }, refl, fewer (0 + j) j s.input (omega arith) f);
}
