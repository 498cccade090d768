-- ===== src/Cpu/Progress/Takes.antt =====
-- How many PPU cycles a member function takes at least, when it returns: a rule for each way to
-- build one, and the memory, the stack and the decoder, which take none.
use neschan.Base.{
  ℕ, ◌+◌, ◌≤◌, ◌≡◌, refl, arith, Bool, true, false, if◌then◌else◌, Option, none, some,
}
use neschan.Cpu.State.{Cpu}
use neschan.System.State.{System, M, pure, ◌>>=◌, fault, get, on_cpu}
use neschan.System.Hoare.{Holds, Holds-bind}
use neschan.System.Bus.{read_io_reg, write_io_reg, get_byte, get_word, set_byte, write_mem, oam_dma}
use neschan.Cpu.Operand.{
  peek_word, decode_byte, decode_word, push_byte, push_word, pop_byte, pop_word, add_pc, step_s,
}

pub record Takes {A : Type 0} (n : ℕ) (m : M A) : Type 0 where
  pub at : (s : System) → Holds (m s) (λ _ t. s.cpu.cycle + n ≤ t.cpu.cycle)

Holds-le :
    {A : Type 0} {a b : ℕ} (r : Option (A × System))
    → a ≤ b
    → Holds r (λ _ t. b ≤ t.cpu.cycle)
    → Holds r (λ _ t. a ≤ t.cpu.cycle)
Holds-le none le h = tt
Holds-le (some (a, t)) le h = omega arith

-- The time of a block is taken by its first call, or by what follows.
module _ {A B : Type 0} where
  pub Takes-then :
      (n : ℕ) (m : M A) (f : A → M B) → Takes 0 m → ((a : A) → Takes n (f a)) → Takes n (m >>= f)
  Takes-then n m f h g = record {
    at = λ s.
        Holds-bind m f s (λ _ t. s.cpu.cycle + 0 ≤ t.cpu.cycle) _ (h.at s)
          λ a t le. Holds-le (f a t) (omega arith) ((g a).at t);
  }

  pub Takes-first :
      (n : ℕ) (m : M A) (f : A → M B) → Takes n m → ((a : A) → Takes 0 (f a)) → Takes n (m >>= f)
  Takes-first n m f h g = record {
    at = λ s.
        Holds-bind m f s (λ _ t. s.cpu.cycle + n ≤ t.cpu.cycle) _ (h.at s)
          λ a t le. Holds-le (f a t) (omega arith) ((g a).at t);
  }

pub Takes-if :
    {A : Type 0} (n : ℕ) (b : Bool) (m k : M A)
    → Takes n m
    → Takes n k
    → Takes n (if b then m else k)
Takes-if n true m k h g = h
Takes-if n false m k h g = g

pub Takes-pure : {A : Type 0} (a : A) → Takes 0 (pure a)
unfolding pure
Takes-pure a = record { at = λ s. omega arith }

pub Takes-fault : {A : Type 0} (n : ℕ) → Takes n (fault {A = A})
unfolding fault
Takes-fault n = record { at = λ s. tt }

pub Takes-get : {A : Type 0} (f : Cpu → A) → Takes 0 (get f)
unfolding get
Takes-get f = record { at = λ s. omega arith }

pub Takes-on_cpu :
    (n : ℕ) (f : Cpu → Cpu) → ((c : Cpu) → c.cycle + n ≤ (f c).cycle) → Takes n (on_cpu f)
unfolding on_cpu
Takes-on_cpu n f h = record { at = λ s. h s.cpu }

-- What changes registers but the clock.
pub Takes-registers : (f : Cpu → Cpu) → ((c : Cpu) → (f c).cycle ≡ c.cycle) → Takes 0 (on_cpu f)
unfolding on_cpu
Takes-registers f h = record { at = λ s. omega (arith, h s.cpu) }

pub get_byte-Takes : (a : ℕ) → Takes 0 (get_byte a)
unfolding get_byte read_io_reg ◌>>=◌
get_byte-Takes a = record { at = λ s. ground arith }

pub set_byte-Takes : (a v : ℕ) → Takes 0 (set_byte a v)
unfolding set_byte write_io_reg write_mem ◌>>=◌
set_byte-Takes a v = record { at = λ s. ground arith }

pub oam_dma-Takes : (a : ℕ) → Takes 0 (oam_dma a)
unfolding oam_dma
oam_dma-Takes a = record { at = λ s. ground arith }

pub add_pc-Takes : (n : ℕ) → Takes 0 (on_cpu (add_pc n))
unfolding add_pc
add_pc-Takes n = Takes-registers (add_pc n) (λ c. refl)

step_s-Takes : (n : ℕ) → Takes 0 (on_cpu (step_s n))
unfolding step_s
step_s-Takes n = Takes-registers (step_s n) (λ c. refl)

pub ruleset takes_rules = (
  Takes-pure, Takes-fault, Takes-get, Takes-if, Takes-then, get_byte-Takes, set_byte-Takes,
  add_pc-Takes,
)

pub get_word-Takes : (a : ℕ) → Takes 0 (get_word a)
unfolding get_word
get_word-Takes a = search takes_rules

pub peek_word-Takes : (a : ℕ) → Takes 0 (peek_word a)
unfolding peek_word
peek_word-Takes a = get_word-Takes a

pub decode_byte-Takes : Takes 0 decode_byte
unfolding decode_byte
decode_byte-Takes = search takes_rules

pub decode_word-Takes : Takes 0 decode_word
unfolding decode_word
decode_word-Takes = search (takes_rules, get_word-Takes)

pub push_byte-Takes : (v : ℕ) → Takes 0 (push_byte v)
unfolding push_byte
push_byte-Takes v = search (takes_rules, step_s-Takes)

pub push_word-Takes : (v : ℕ) → Takes 0 (push_word v)
unfolding push_word
push_word-Takes v = search (takes_rules, push_byte-Takes)

pub pop_byte-Takes : Takes 0 pop_byte
unfolding pop_byte
pop_byte-Takes = search (takes_rules, step_s-Takes)

pub pop_word-Takes : Takes 0 pop_word
unfolding pop_word
pop_word-Takes = search (takes_rules, pop_byte-Takes)
