-- ===== src/Cpu/Keeps.antt =====
-- What a member function of the CPU cannot break: a property of the machine that does not look at the
-- registers of the CPU or at the request to stop, and that the bus respects.
pub mod Operands
pub mod Execute
pub mod Loop
use neschan.Base.{ℕ, Bool, true, false, if◌then◌else◌, Option, none, some}
use neschan.Cpu.State.{Cpu}
use neschan.System.State.{System, M, pure, ◌>>=◌, fault, get, on_cpu}
use neschan.System.Hoare.{Holds, Holds-bind}
use neschan.System.Bus.{get_byte, set_byte, oam_dma}

pub record Keeps {A : Type 0} (I : System → Type 0) (m : M A) : Type 0 where
  pub at : (s : System) → I s → Holds (m s) (λ _ t. I t)

-- What the property promises.
pub record IsOutside (I : System → Type 0) : Type 0 where
  pub cpu : (f : Cpu → Cpu) (s : System) → I s → I (record s { cpu = f s.cpu })
  pub stop : (b : Bool) (s : System) → I s → I (record s { stop_requested = b })
  pub get : (addr : ℕ) → Keeps I (get_byte addr)
  pub set : (addr val : ℕ) → Keeps I (set_byte addr val)
  pub dma : (addr : ℕ) → Keeps I (oam_dma addr)

pub Keeps-then :
    {I : System → Type 0} {A B : Type 0} (m : M A) (f : A → M B)
    → Keeps I m
    → ((a : A) → Keeps I (f a))
    → Keeps I (m >>= f)
Keeps-then {I} m f h g = record {
  at = λ s i. Holds-bind m f s (λ _ t. I t) (λ _ t. I t) (h.at s i) λ a t j. (g a).at t j;
}

pub Keeps-if :
    {I : System → Type 0} {A : Type 0} (b : Bool) (m k : M A)
    → Keeps I m
    → Keeps I k
    → Keeps I (if b then m else k)
Keeps-if true m k h g = h
Keeps-if false m k h g = g

pub Keeps-pure : {I : System → Type 0} {A : Type 0} (a : A) → Keeps I (pure a)
unfolding pure
Keeps-pure a = record { at = λ s i. i }

pub Keeps-fault : {I : System → Type 0} {A : Type 0} → Keeps I (fault {A = A})
unfolding fault
Keeps-fault = record { at = λ s i. tt }

pub Keeps-get : {I : System → Type 0} {A : Type 0} (f : Cpu → A) → Keeps I (get f)
unfolding get
Keeps-get f = record { at = λ s i. i }

pub Keeps-on_cpu : {I : System → Type 0} (f : Cpu → Cpu) → IsOutside I → Keeps I (on_cpu f)
unfolding on_cpu
Keeps-on_cpu f o = record { at = λ s i. o.cpu f s i }

pub Keeps-get_byte : {I : System → Type 0} (addr : ℕ) → IsOutside I → Keeps I (get_byte addr)
Keeps-get_byte addr o = o.get addr

pub Keeps-set_byte :
    {I : System → Type 0} (addr val : ℕ) → IsOutside I → Keeps I (set_byte addr val)
Keeps-set_byte addr val o = o.set addr val

pub ruleset keeps_rules = (
  Keeps-then, Keeps-if, Keeps-pure, Keeps-fault, Keeps-get, Keeps-on_cpu, Keeps-get_byte,
  Keeps-set_byte,
)
