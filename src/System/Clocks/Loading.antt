-- ===== src/System/Clocks/Loading.antt =====
-- Loading a cartridge moves no clock (lib/src/nes_system.cpp).
use neschan.Base.{ℕ, refl, Option, none, some}
use neschan.Cpu.State as CpuState
use neschan.Cpu.Keeps.{Keeps, Keeps-pure, keeps_rules}
use neschan.Cpu.Keeps.Operands.{get_word-Keeps}
use neschan.Rom.{Rom}
use neschan.Mapper.Info.{Target}
use neschan.Mapper.Loader.{Mapper}
use neschan.Mapper.Loader
use neschan.Mapper.Steady.{Steadies, of_target}
use neschan.Mapper.Steady.Loading.{on_load_ram-Steadies, loaded_ppu}
use neschan.System.State.{System}
use neschan.System.Hoare.{Holds}
use neschan.System.Run.{
  load_memory, load_ppu, ExecMode, direct, reset_mode, start_pc, insert_cartridge, load_rom,
}
use neschan.System.Clocks.{AreClocks, AreClocks-IsOutside, after}

module _ {now drawn : ℕ} where
  load_memory-Keeps : (m : Mapper) → Keeps (AreClocks now drawn) (load_memory m)
  unfolding load_memory
  load_memory-Keeps m = record {
    at = λ s c. go s c _ (on_load_ram-Steadies m (record { ram = s.mem.ram; ppu = s.ppu }));
  }
    where
      go :
          (s : System)
          → AreClocks now drawn s
          → (r : Option Target) → Steadies of_target s.ppu r
          → Holds
              (elim r [
                | none ↦ none
                | some t ↦ some (
                  tt {0},
                  record s {
                    mem = record { ram = t.ram; mapper = some m; mapper_info = Loader.get_info m };
                    ppu = t.ppu;
                  },
                )
              ])
              (λ _ t. AreClocks now drawn t)
      go s c none h = tt
      go s c (some t) h = after s _ refl (h.at t refl) c

  load_ppu-Keeps : (m : Mapper) → Keeps (AreClocks now drawn) (load_ppu m)
  unfolding load_ppu
  load_ppu-Keeps m = record { at = λ s c. after s _ refl (loaded_ppu m _) c }

  start_pc-Keeps : (mode : ExecMode) (m : Mapper) → Keeps (AreClocks now drawn) (start_pc mode m)
  unfolding start_pc
  start_pc-Keeps direct m = Keeps-pure _
  start_pc-Keeps reset_mode m = get_word-Keeps AreClocks-IsOutside CpuState.reset_handler

  insert_cartridge-Keeps :
      (mode : ExecMode) (m : Mapper) → Keeps (AreClocks now drawn) (insert_cartridge mode m)
  unfolding insert_cartridge
  insert_cartridge-Keeps mode m =
      search (keeps_rules, AreClocks-IsOutside, load_memory-Keeps, load_ppu-Keeps, start_pc-Keeps)
        depth 8

  -- The clocks are where they were, and the beam too.
  pub load_rom-Keeps :
      (reg control : ℕ) (file : Rom) (mode : ExecMode)
      → Keeps (AreClocks now drawn) (load_rom reg control file mode)
  unfolding load_rom
  load_rom-Keeps reg control file mode = record {
    at = λ s c. go s c (Loader.load_from reg control file);
  }
    where
      go :
          (s : System)
          → AreClocks now drawn s
          → (r : Option Mapper)
          → Holds
              (elim r [ none ↦ none | some m ↦ insert_cartridge mode m s ])
              (λ _ t. AreClocks now drawn t)
      go s c none = tt
      go s c (some m) = (insert_cartridge-Keeps mode m).at s c
