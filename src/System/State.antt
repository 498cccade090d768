-- ===== src/System/State.antt =====
-- The machine: `nes_system` (lib/inc/nes_system.h) with the four components it owns. The pointers
-- that the components keep to one another are this record.
use neschan.Base.{ℕ, Bool, Option, none, some, Bytes}
use neschan.Cpu.State.{Cpu}
use neschan.Ppu.State.{Ppu}
use neschan.Input.{Input}
use neschan.Mapper.Info.{MapperInfo}
use neschan.Mapper.Loader.{Mapper}

pub record Memory : Type 0 where
  pub ram : Bytes  -- vector<uint8_t>, 64 KB
  pub mapper : Option Mapper
  pub mapper_info : MapperInfo

pub record System : Type 0 where
  pub cpu : Cpu
  pub mem : Memory
  pub ppu : Ppu
  pub input : Input
  pub master_cycle : ℕ
  pub stop_requested : Bool

-- A member function: `none` is a failed assertion or behaviour that C++ leaves undefined.
abbrev pub M : Type 0 → Type 0
M A = System → Option (A × System)

unfoldable pub pure : {A : Type 0} → A → M A
pure a s = some (a, s)

unfoldable pub fault : {A : Type 0} → M A
fault s = none

-- What a member function reads of the registers, and does to a component.
unfoldable pub get : {A : Type 0} → (Cpu → A) → M A
get f s = some (f s.cpu, s)

unfoldable pub on_cpu : (Cpu → Cpu) → M (Unit {0})
on_cpu f s = some (tt, record s { cpu = f s.cpu })

unfoldable pub on_ppu : (Ppu → Ppu) → M (Unit {0})
on_ppu f s = some (tt, record s { ppu = f s.ppu })

unfoldable pub on_input : (Input → Input) → M (Unit {0})
on_input f s = some (tt, record s { input = f s.input })

unfoldable pub read_ppu : (Ppu → ℕ × Ppu) → M ℕ
read_ppu f s = some ((f s.ppu).0, record s { ppu = (f s.ppu).1 })

unfoldable pub read_input : (Input → Option (ℕ × Input)) → M ℕ
read_input f s = elim (f s.input) [ none ↦ none | some (v, n) ↦ some (v, record s { input = n }) ]

-- To open this is to open the operations above too.
infixl 5 ◌>>=◌ ◌>>◌
unfoldable pub ◌>>=◌ : {A B : Type 0} → M A → (A → M B) → M B
unfolding pure fault get on_cpu on_ppu on_input read_ppu read_input
◌>>=◌ m f s = elim (m s) [ none ↦ none | some (a, s') ↦ f a s' ]

abbrev pub ◌>>◌ : {B : Type 0} → M (Unit {0}) → M B → M B
m >> k = m >>= λ _. k
