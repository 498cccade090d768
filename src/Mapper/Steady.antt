-- ===== src/Mapper/Steady.antt =====
-- The mappers write memories and the mirroring; they never move the beam of the PPU.
pub mod Loading
use neschan.Base.{
  ℕ, ◌≡◌, refl, ◌∙◌, arith, Bool, true, false, if◌then◌else◌, Option, none, some, Bytes,
}
use neschan.Base.Chain.{◌>>=◌}
use neschan.Ppu.State.{Ppu}
use neschan.Ppu.Steady.{IsSteady, IsSteady-refl}
use neschan.Ppu.Vram.{write_bytes, set_mirroring}
use neschan.Memory.Ram.{set_bytes}
use neschan.Mapper.Info.{Target, load_prg}
use neschan.Mapper.Mmc1
use neschan.Mapper.Mmc3
use neschan.Mapper.Loader.{Mapper, nrom, mmc1, mmc3, write_reg}

IsSteady-if :
    (b : Bool) (p : Ppu) (t u : Target)
    → IsSteady p t.ppu
    → IsSteady p u.ppu
    → IsSteady p (if b then t else u).ppu
IsSteady-if true p t u h k = h
IsSteady-if false p t u h k = k

write_bytes-IsSteady :
    (addr : ℕ) (src : Bytes) (n : ℕ) (p : Ppu) → IsSteady p (write_bytes addr src n p)
unfolding write_bytes
write_bytes-IsSteady addr src n p = record {
  clock = ground arith;
  cycle = ground arith;
  scanline = ground arith;
}

set_mirroring-IsSteady : (flags : ℕ) (p : Ppu) → IsSteady p (set_mirroring flags p)
unfolding set_mirroring
set_mirroring-IsSteady flags p = record { clock = refl; cycle = refl; scanline = refl }

-- A result that may be missing, whose PPU is still where it was.
pub record Steadies {A : Type 0} (ppu : A → Ppu) (p : Ppu) (r : Option A) : Type 0 where
  pub at : (a : A) → r ≡ some a → IsSteady p (ppu a)

abbrev pub of_target : Target → Ppu
of_target t = t.ppu

abbrev pub of_pair : {A : Type 0} → A × Target → Ppu
of_pair r = r.1.ppu

Steadies-none : {A : Type 0} (f : A → Ppu) (p : Ppu) → Steadies f p none
Steadies-none f p = record { at = λ a e. grind (arith, e) }

Steadies-some :
    {A : Type 0} (f : A → Ppu) (p : Ppu) (a : A) → IsSteady p (f a) → Steadies f p (some a)
Steadies-some f p a h = record {
  at = λ b e. record {
    clock = grind (arith, e, h.clock);
    cycle = grind (arith, e, h.cycle);
    scanline = grind (arith, e, h.scanline);
  };
}

Steadies-if :
    {A : Type 0} (f : A → Ppu) (p : Ppu) (b : Bool) (r r' : Option A)
    → Steadies f p r
    → Steadies f p r'
    → Steadies f p (if b then r else r')
Steadies-if f p true r r' h k = h
Steadies-if f p false r r' h k = k

Steadies-then :
    {A B : Type 0} (f : A → Ppu) (g : B → Ppu) (p : Ppu) (r : Option A) (k : A → Option B)
    → Steadies f p r
    → ((a : A) → Steadies g (f a) (k a))
    → Steadies g p (r >>= k)
Steadies-then f g p none k h l = Steadies-none g p
Steadies-then f g p (some a) k h l = record {
  at = λ b e. record {
    clock = ((l a).at b e).clock ∙ (h.at a refl).clock;
    cycle = ((l a).at b e).cycle ∙ (h.at a refl).cycle;
    scanline = ((l a).at b e).scanline ∙ (h.at a refl).scanline;
  };
}

then_target :
    {B : Type 0} (g : B → Ppu) (p : Ppu) (r : Option Target) (k : Target → Option B)
    → Steadies of_target p r
    → ((u : Target) → Steadies g u.ppu (k u))
    → Steadies g p (r >>= k)
then_target g p r k h l = Steadies-then of_target g p r k h l

then_pair :
    {A B : Type 0} (g : B → Ppu) (p : Ppu) (r : Option (A × Target)) (k : A × Target → Option B)
    → Steadies of_pair p r
    → ((u : A × Target) → Steadies g u.1.ppu (k u))
    → Steadies g p (r >>= k)
then_pair g p r k h l = Steadies-then of_pair g p r k h l

load_prg-Steadies :
    (addr : ℕ) (src : Option Bytes) (n : ℕ) (t : Target)
    → Steadies of_target t.ppu (load_prg addr src n t)
unfolding load_prg
load_prg-Steadies addr none n t = Steadies-none _ _
load_prg-Steadies addr (some b) n t = go (set_bytes addr b n t.ram)
  where
    go : (r : Option Bytes) → Steadies of_target t.ppu (r >>= λ ram. some (record t { ram = ram }))
    go none = Steadies-none _ _
    go (some ram) = Steadies-some _ _ _ (IsSteady-refl t.ppu)

ruleset steady_rules = (
  Steadies-none, Steadies-some, Steadies-if, then_target, then_pair, IsSteady-refl, IsSteady-if,
  write_bytes-IsSteady, set_mirroring-IsSteady, load_prg-Steadies,
)

mmc1_prg-Steadies :
    (val : ℕ) (m : Mmc1.Mmc1) (t : Target) → Steadies of_target t.ppu (Mmc1.load_prg_bank val m t)
unfolding Mmc1.load_prg_bank
mmc1_prg-Steadies val m t = search steady_rules

selected-Steadies :
    (addr val : ℕ) (m : Mmc1.Mmc1) (t : Target)
    → Steadies of_pair t.ppu (Mmc1.write_selected addr val m t)
unfolding Mmc1.write_selected Mmc1.write_control Mmc1.write_chr_bank_0 Mmc1.write_chr_bank_1
    Mmc1.write_prg_bank Mmc1.load_chr
selected-Steadies addr val m t = search (steady_rules, mmc1_prg-Steadies) depth 8

mmc1-Steadies :
    (addr val : ℕ) (m : Mmc1.Mmc1) (t : Target)
    → Steadies of_pair t.ppu (Mmc1.write_reg addr val m t)
unfolding Mmc1.write_reg
mmc1-Steadies addr val m t = search (steady_rules, selected-Steadies)

fixed-Steadies : (m : Mmc3.Mmc3) (t : Target) → Steadies of_target t.ppu (Mmc3.load_fixed_bank m t)
unfolding Mmc3.load_fixed_bank
fixed-Steadies m t = search steady_rules

bank-Steadies :
    (val : ℕ) (m : Mmc3.Mmc3) (t : Target) → Steadies of_target t.ppu (Mmc3.load_prg_bank val m t)
unfolding Mmc3.load_prg_bank
bank-Steadies val m t = search steady_rules

chr-IsSteady :
    (val : ℕ) (m : Mmc3.Mmc3) (t : Target) → IsSteady t.ppu (Mmc3.load_chr_bank val m t).ppu
unfolding Mmc3.load_chr_bank
chr-IsSteady val m t = search steady_rules

data-Steadies :
    (val : ℕ) (m : Mmc3.Mmc3) (t : Target) → Steadies of_pair t.ppu (Mmc3.write_bank_data val m t)
unfolding Mmc3.write_bank_data
data-Steadies val m t = search (steady_rules, fixed-Steadies, bank-Steadies, chr-IsSteady) depth 8

mmc3-Steadies :
    (addr val : ℕ) (m : Mmc3.Mmc3) (t : Target)
    → Steadies of_pair t.ppu (Mmc3.write_reg addr val m t)
unfolding Mmc3.write_reg Mmc3.write_bank_select Mmc3.write_mirroring
mmc3-Steadies addr val m t = search (steady_rules, data-Steadies) depth 8

-- A write to a register of any mapper leaves the beam and the clock of the PPU alone.
pub write_reg-Steadies :
    (addr val : ℕ) (m : Mapper) (t : Target) → Steadies of_pair t.ppu (write_reg addr val m t)
unfolding write_reg
write_reg-Steadies addr val (nrom m) t = search steady_rules
write_reg-Steadies addr val (mmc1 m) t = search (steady_rules, mmc1-Steadies)
write_reg-Steadies addr val (mmc3 m) t = search (steady_rules, mmc3-Steadies)
