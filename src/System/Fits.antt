-- ===== src/System/Fits.antt =====
-- Every value of the machine stays within its C type: the rules, for programs that return a value
-- with a given property.
pub mod Ports
pub mod Transfer
pub mod Operands
pub mod Instr
pub mod Flow
pub mod Execute
pub mod Loops
pub mod Frames
pub mod Machine
pub mod History
use neschan.Base.{ℕ, ◌<◌, Bool, true, false, if◌then◌else◌, Option, none, some, IsBytes}
use neschan.Cpu.State.{Cpu}
use neschan.Cpu.Fits.{CpuFits}
use neschan.Ppu.State.{Ppu}
use neschan.Ppu.Fits.{PpuFits}
use neschan.Mapper.Loader.{Mapper}
use neschan.Mapper.Fits.{MapperFits, InfoFits}
use neschan.System.State.{System, M, pure, ◌>>=◌, fault, get, on_cpu, on_ppu}
use neschan.System.Hoare.{Holds, Holds-bind}

abbrev pub SlotFits : Option Mapper → Type 0
SlotFits none = Unit
SlotFits (some m) = MapperFits m

pub record Fits (s : System) : Type 0 where
  pub cpu : CpuFits s.cpu
  pub ram : IsBytes s.mem.ram
  pub mapper : SlotFits s.mem.mapper
  pub info : InfoFits s.mem.mapper_info
  pub ppu : PpuFits s.ppu

-- `m` keeps the machine's values in range, and returns one that is `Q`.
pub record Fitting {A : Type 0} (Q : A → Type 0) (m : M A) : Type 0 where
  pub at : (s : System) → Fits s → Holds (m s) (λ a t. Q a × Fits t)

abbrev pub Byte : ℕ → Type 0
Byte v = v < 256

abbrev pub Word : ℕ → Type 0
Word v = v < 0x10000

abbrev pub Anything : {A : Type 0} → A → Type 0
Anything a = Unit {0}

abbrev pub Quietly : M (Unit {0}) → Type 0
Quietly m = Fitting Anything m

pub Fitting-then :
    {A B : Type 0} {Q : A → Type 0} {R : B → Type 0} (m : M A) (f : A → M B)
    → Fitting Q m
    → ((a : A) → Q a → Fitting R (f a))
    → Fitting R (m >>= f)
Fitting-then {Q = Q} {R = R} m f h g = record {
  at = λ s i.
      Holds-bind m f s (λ a t. Q a × Fits t) (λ b t. R b × Fits t) (h.at s i)
        λ a t j. (g a j.0).at t j.1;
}

pub Fitting-if :
    {A : Type 0} {Q : A → Type 0} (b : Bool) (m k : M A)
    → Fitting Q m
    → Fitting Q k
    → Fitting Q (if b then m else k)
Fitting-if true m k h g = h
Fitting-if false m k h g = g

pub Fitting-pure : {A : Type 0} {Q : A → Type 0} (a : A) → Q a → Fitting Q (pure a)
unfolding pure
Fitting-pure a q = record { at = λ s i. (q, i) }

pub Fitting-fault : {A : Type 0} {Q : A → Type 0} → Fitting Q (fault {A = A})
unfolding fault
Fitting-fault = record { at = λ s i. tt }

-- What is read of the registers.
pub Fitting-get :
    {A : Type 0} {Q : A → Type 0} (f : Cpu → A)
    → ((c : Cpu) → CpuFits c → Q (f c))
    → Fitting Q (get f)
unfolding get
Fitting-get f h = record { at = λ s i. (h s.cpu i.cpu, i) }

pub with_cpu : (s : System) (c : Cpu) → CpuFits c → Fits s → Fits (record s { cpu = c })
with_cpu s c h i = record { cpu = h; ram = i.ram; mapper = i.mapper; info = i.info; ppu = i.ppu }

pub with_ppu : (s : System) (p : Ppu) → PpuFits p → Fits s → Fits (record s { ppu = p })
with_ppu s p h i = record { cpu = i.cpu; ram = i.ram; mapper = i.mapper; info = i.info; ppu = h }

pub Fitting-on_cpu : (f : Cpu → Cpu) → ((c : Cpu) → CpuFits c → CpuFits (f c)) → Quietly (on_cpu f)
unfolding on_cpu
Fitting-on_cpu f h = record { at = λ s i. (tt, with_cpu s (f s.cpu) (h s.cpu i.cpu) i) }

pub Fitting-on_ppu : (f : Ppu → Ppu) → ((p : Ppu) → PpuFits p → PpuFits (f p)) → Quietly (on_ppu f)
unfolding on_ppu
Fitting-on_ppu f h = record { at = λ s i. (tt, with_ppu s (f s.ppu) (h s.ppu i.ppu) i) }
