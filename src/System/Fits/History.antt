-- ===== src/System/Fits/History.antt =====
-- Every machine that can be reached from power on.
use neschan.Base.{ℕ, ◌+◌, ◌<◌, ◌≡◌, Option, some, IsBytes, refl, arith}
use mathlib.Core.Path.{subst}
use neschan.Cpu.Exec.{Outcome, done, faulted, out_of_fuel}
use neschan.Cpu.Keeps.Loop.{Leaves}
use neschan.Input.{Input}
use neschan.Rom.{Rom}
use neschan.System.State.{System}
use neschan.System.Hoare.{Holds}
use neschan.System.Run.{step, finish_step, power_on, reset, ExecMode, load_rom}
use neschan.Ppu.State.{init}
use neschan.Ppu.Position.{IsOnScreen}
use neschan.System.Clocks.{AreClocks}
use neschan.System.Clocks.Step.{IsStepped, step-IsStepped}
use neschan.System.Clocks.Loading.{load_rom-Keeps}
use neschan.System.Fits.{Fits}
use neschan.System.Fits.Loops.{cpu-Leaves}
use neschan.System.Fits.Frames.{beam-Fits}
use neschan.System.Fits.Machine.{IsRaw, power_on-Fits, reset-Fits, load_rom-Fitting}

finish_step-Leaves : (r : Outcome) → Leaves Fits r → Leaves Fits (finish_step r)
unfolding finish_step
finish_step-Leaves (done s) i = beam-Fits _ _ s i
finish_step-Leaves faulted i = tt
finish_step-Leaves out_of_fuel i = tt

-- A step of the machine by any number of cycles leaves every value within its C type.
step-Leaves : (count : ℕ) (s : System) → Fits s → Leaves Fits (step count s)
unfolding step
step-Leaves count s i = finish_step-Leaves _ (
    cpu-Leaves _ _ _
      (record { cpu = i.cpu; ram = i.ram; mapper = i.mapper; info = i.info; ppu = i.ppu }))

-- What an emulator does with its machine. `reg` and `control` are what the memory of a new MMC1 holds;
-- the controllers may change at any time.
pub data Reachable : System → Type 0 where
  powered : {s : System} → IsRaw s → Reachable (power_on s)
  restarted : {s : System} → Reachable s → Reachable (reset s)
  plugged : {s : System} (n : Input) → Reachable s → Reachable (record s { input = n })
  loaded :
      {s t : System} (reg control : ℕ) (file : Rom) (mode : ExecMode)
      → reg < 256
      → control < 256
      → IsBytes file.byte
      → load_rom reg control file mode s ≡ some (tt, t)
      → Reachable s
      → Reachable t
  stepped : {s t : System} (count : ℕ) → step count s ≡ done t → Reachable s → Reachable t

Holds-some :
    {A : Type 0} (Q : A → System → Type 0) {r : Option (A × System)} {a : A} {t : System}
    → r ≡ some (a, t)
    → Holds r Q
    → Q a t
Holds-some Q e h = subst (λ x. Holds x Q) e h

Leaves-done : (I : System → Type 0) {r : Outcome} {t : System} → r ≡ done t → Leaves I r → I t
Leaves-done I e h = subst (Leaves I) e h

-- Every value lies in the range of its C type, and the beam is on the screen.
pub record IsSound (s : System) : Type 0 where
  pub fits : Fits s
  pub on_screen : IsOnScreen s.ppu

with_screen : (s : System) → IsOnScreen s.ppu → AreClocks s.master_cycle s.ppu.master_cycle s
with_screen s on = record { on_screen = on; system = refl; ppu = refl }

loaded-IsOnScreen :
    (reg control : ℕ) (file : Rom) (mode : ExecMode) (s t : System)
    → load_rom reg control file mode s ≡ some (tt, t)
    → IsOnScreen s.ppu
    → IsOnScreen t.ppu
loaded-IsOnScreen reg control file mode s t e on =
    (Holds-some (λ _ u. AreClocks s.master_cycle s.ppu.master_cycle u) e
      ((load_rom-Keeps reg control file mode).at s (with_screen s on))).on_screen

stepped-IsOnScreen :
    (count : ℕ) (s t : System) → step count s ≡ done t → IsOnScreen s.ppu → IsOnScreen t.ppu
stepped-IsOnScreen count s t e on =
    (subst (IsStepped (s.master_cycle + count)) e (step-IsStepped count s on)).on_screen

-- A machine that is reached from power on by loading files of bytes, by resets, by steps of any
-- length and by any use of the controllers keeps within the ranges of their C types: the registers of
-- the CPU, its memory, the registers of the cartridge and the addresses it stands at, and the ports,
-- memories, pipelines, frame buffers, numbers of frames and mirroring mode of the PPU. Its beam is on
-- the screen, at most eight sprites are drawn on a line, and a background buffer holds numbers of two
-- bits. What no constructor sets fits its type before.
pub Reachable-IsSound : {s : System} → Reachable s → IsSound s
unfolding power_on reset init
Reachable-IsSound (powered {s} r) = record { fits = power_on-Fits s r; on_screen = omega arith }
Reachable-IsSound (restarted {s} h) = record {
  fits = reset-Fits s (Reachable-IsSound h).fits;
  on_screen = omega arith;
}
Reachable-IsSound (plugged n h) =
    let i = Reachable-IsSound h in
    record {
      fits = record {
        cpu = i.fits.cpu;
        ram = i.fits.ram;
        mapper = i.fits.mapper;
        info = i.fits.info;
        ppu = i.fits.ppu;
      };
      on_screen = i.on_screen;
    }
Reachable-IsSound (loaded {s} {t} reg control file mode hr hc hf e h) =
    let i = Reachable-IsSound h in
    record {
      fits =
          (Holds-some (λ _ t. Unit {0} × Fits t) e
            ((load_rom-Fitting reg control file mode hr hc hf).at s i.fits)).1;
      on_screen = loaded-IsOnScreen reg control file mode s t e i.on_screen;
    }
Reachable-IsSound (stepped {s} {t} count e h) =
    let i = Reachable-IsSound h in
    record {
      fits = Leaves-done Fits e (step-Leaves count s i.fits);
      on_screen = stepped-IsOnScreen count s t e i.on_screen;
    }

-- A machine that is reached never gets stuck in a step: it faults, or it catches up.
Reachable-IsStepped :
    {s : System} (count : ℕ) → Reachable s → IsStepped (s.master_cycle + count) (step count s)
Reachable-IsStepped {s} count h = step-IsStepped count s (Reachable-IsSound h).on_screen
