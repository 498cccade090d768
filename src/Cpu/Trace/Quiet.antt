-- ===== src/Cpu/Trace/Quiet.antt =====
-- A trace changes nothing but the controllers.
use neschan.Base.{
  ℕ, zero, suc, ◌+◌, ◌≡◌, refl, sym, ◌∙◌, ap, ◌==◌, Bool, true, false, Option, none, some,
}
use neschan.Base.Text.{Text}
use neschan.Cpu.Operand.{
  AddrMode, imp, acc, imm, ind_jmp, rel, abs, abs_jmp, zp, zp_ind_x, zp_ind_y, abs_x, abs_y, ind_x,
  ind_y, peek, peek_word, peek_split, peek_jmp,
}
use neschan.Cpu.Trace.{
  append_value, append_zp, append_abs, append_zp_indexed, append_abs_indexed, append_ind_x,
  append_ind_y, append_operand, append_operand_str, append_bytes, append_registers, op_str,
  get_op_str,
}
use neschan.Cpu.Keeps.{Keeps, Keeps-then, Keeps-if, Keeps-pure, Keeps-get}
use neschan.Input.{Input}
use neschan.Ppu.State.{Ppu}
use neschan.Ppu.Registers.{set_protect, read_ppustatus, read_oamdata, read_ppudata, read_latch}
use neschan.Ppu.Ports.{read-protected}
use neschan.System.State.{System, pure, ◌>>=◌, on_ppu, read_ppu, read_input}
use neschan.System.Hoare.{Holds, Holds-bind}
use neschan.System.Bus.{get_byte, get_word, read_io_reg}

-- `t` is `s` with another state of the controllers.
abbrev pub IsReading : System → System → Type 0
IsReading s t = t ≡ record s { input = t.input }

module _ (s : System) (on : s.ppu.protect_register ≡ true) where
  read_ppu-Keeps : (f : Ppu → ℕ × Ppu) → ((f s.ppu).1 ≡ s.ppu) → Keeps (IsReading s) (read_ppu f)
  unfolding read_ppu
  read_ppu-Keeps f h = record {
    at = λ t i. ap with_ppu i ∙ ap (λ (p : Ppu). with_ppu_input p t.input) h;
  }
    where
      with_ppu : System → System
      with_ppu u = record u { ppu = (f u.ppu).1 }

      with_ppu_input : Ppu → Input → System
      with_ppu_input p n = record s { ppu = p; input = n }

  read_input-Keeps : (f : Input → Option (ℕ × Input)) → Keeps (IsReading s) (read_input f)
  unfolding read_input
  read_input-Keeps f = record { at = λ t i. go t i (f t.input) }
    where
      with_input : Input → System → System
      with_input n u = record u { input = n }

      go :
          (t : System)
          → IsReading s t
          → (r : Option (ℕ × Input))
          → Holds
              (elim r [ none ↦ none | some (v, n) ↦ some (v, record t { input = n }) ])
              (λ _ u. IsReading s u)
      go t i none = tt
      go t i (some (v, n)) = ap (λ (u : System). with_input n u) i

  -- Behind the protection a read changes the controllers only.
  read_io_reg-Keeps : (addr : ℕ) → Keeps (IsReading s) (read_io_reg addr)
  unfolding read_io_reg
  read_io_reg-Keeps addr =
      Keeps-if (addr == 0x2002) _ _ (read_ppu-Keeps read_ppustatus (read-protected s.ppu on).0) (
        Keeps-if (addr == 0x2004) _ _ (read_ppu-Keeps read_oamdata (read-protected s.ppu on).1) (
          Keeps-if (addr == 0x2007) _ _ (read_ppu-Keeps read_ppudata (read-protected s.ppu on).2) (
            Keeps-if (addr == 0x4016) _ _ (read_input-Keeps _) (
              Keeps-if (addr == 0x4017) _ _ (read_input-Keeps _)
                (read_ppu-Keeps (λ p. (read_latch p, p)) refl)))))

  read_ram-Keeps : (addr : ℕ) → Keeps {A = ℕ} (IsReading s) (λ t. some (t.mem.ram addr, t))
  read_ram-Keeps addr = record { at = λ t i. i }

  get_byte-Keeps : (addr : ℕ) → Keeps (IsReading s) (get_byte addr)
  unfolding get_byte
  get_byte-Keeps addr = search (Keeps-if, read_io_reg-Keeps, read_ram-Keeps)

  peek-Keeps : (addr : ℕ) → Keeps (IsReading s) (peek addr)
  unfolding peek
  peek-Keeps addr = get_byte-Keeps addr

  peek_word-Keeps : (addr : ℕ) → Keeps (IsReading s) (peek_word addr)
  unfolding peek_word get_word
  peek_word-Keeps addr = search (Keeps-then, Keeps-pure, get_byte-Keeps)

  ruleset read_rules = (Keeps-then, Keeps-if, Keeps-pure, Keeps-get, peek-Keeps, peek_word-Keeps)

  peek_split-Keeps : (a b : ℕ) → Keeps (IsReading s) (peek_split a b)
  unfolding peek_split
  peek_split-Keeps a b = search read_rules

  peek_jmp-Keeps : (a : ℕ) → Keeps (IsReading s) (peek_jmp a)
  unfolding peek_jmp
  peek_jmp-Keeps a = search (read_rules, peek_split-Keeps)

  append_value-Keeps : (addr : ℕ) (str : Text) → Keeps (IsReading s) (append_value addr str)
  unfolding append_value
  append_value-Keeps addr str = search read_rules

  append_operand-Keeps :
      (mode : AddrMode) (str : Text) → Keeps (IsReading s) (append_operand mode str)
  unfolding append_operand append_zp append_abs append_zp_indexed append_abs_indexed append_ind_x
      append_ind_y
  append_operand-Keeps imp str = search read_rules
  append_operand-Keeps acc str = search read_rules
  append_operand-Keeps imm str = search read_rules
  append_operand-Keeps rel str = search read_rules
  append_operand-Keeps zp str = search (read_rules, append_value-Keeps)
  append_operand-Keeps zp_ind_x str = search (read_rules, append_value-Keeps)
  append_operand-Keeps zp_ind_y str = search (read_rules, append_value-Keeps)
  append_operand-Keeps abs_jmp str = search read_rules
  append_operand-Keeps abs str = search (read_rules, append_value-Keeps)
  append_operand-Keeps abs_x str = search (read_rules, append_value-Keeps)
  append_operand-Keeps abs_y str = search (read_rules, append_value-Keeps)
  append_operand-Keeps ind_jmp str = search (read_rules, peek_jmp-Keeps)
  append_operand-Keeps ind_x str = search (read_rules, peek_split-Keeps, append_value-Keeps)
  append_operand-Keeps ind_y str = search (read_rules, peek_split-Keeps, append_value-Keeps)

  append_operand_str-Keeps :
      (mode : AddrMode) (str : Text) → Keeps (IsReading s) (append_operand_str mode str)
  unfolding append_operand_str
  append_operand_str-Keeps mode str = append_operand-Keeps mode _

  append_bytes-Keeps :
      (left addr : ℕ) (str : Text) → Keeps (IsReading s) (append_bytes left addr str)
  unfolding append_bytes
  append_bytes-Keeps zero addr str = Keeps-pure str
  append_bytes-Keeps (suc left) addr str =
      Keeps-then _ _ (peek-Keeps _) λ val. append_bytes-Keeps left (addr + 1) _

  append_registers-Keeps : (str : Text) → Keeps (IsReading s) (append_registers str)
  unfolding append_registers
  append_registers-Keeps str = search read_rules depth 12

  op_str-Keeps :
      (op : Text) (mode : AddrMode) (is_official : Bool)
      → Keeps (IsReading s) (op_str op mode is_official)
  unfolding op_str
  op_str-Keeps op mode is_official =
      search (read_rules, append_bytes-Keeps, append_operand_str-Keeps, append_registers-Keeps)
        depth 8

protect : Bool → System → System
unfolding set_protect
protect b s = record s { ppu = set_protect b s.ppu }

with_protect : Input → Bool → System → System
with_protect n b s = record s { ppu = record (s.ppu) { protect_register = b }; input = n }

-- Building the text of a trace leaves the whole machine as it was but for the controllers, whose bits a
-- peek shifts out like any read: the registers of the PPU are protected, and left unprotected as before.
pub get_op_str-IsReading :
    (op : Text) (mode : AddrMode) (is_official : Bool) (s : System)
    → s.ppu.protect_register ≡ false
    → Holds (get_op_str op mode is_official s) (λ text t. IsReading s t)
unfolding get_op_str set_protect on_ppu pure ◌>>=◌ protect with_protect
get_op_str-IsReading op mode is_official s off =
    Holds-bind (op_str op mode is_official) (λ str t. some (str, protect false t)) (protect true s)
      (λ _ t. IsReading (protect true s) t) (λ _ t. IsReading s t)
      ((op_str-Keeps (protect true s) refl op mode is_official).at (protect true s) refl)
      λ str t e. ap (protect false) e ∙ ap (λ (b : Bool). with_protect t.input b s) (sym off)
