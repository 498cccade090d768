-- ===== src/System/Clocks.antt =====
-- The clocks of the machine while the CPU runs, and after `nes_system::step`.
pub mod Step
pub mod Loading
use neschan.Base.{
  ℕ, ◌+◌, ◌-◌, u16, inl, inr, Bool-cases, ◌≤◌, ◌<◌, ◌≡◌, refl, ◌∙◌, arith, if◌then◌else◌, Bool,
  true, false, ltb, leb, not, ◌&&◌, ◌||◌, ◌==◌, Option, none, some, Bytes,
}
use neschan.Cpu.State.{Cpu}
use neschan.Cpu.Keeps.{Keeps, Keeps-if, IsOutside}
use neschan.Ppu.State.{Ppu, ppu_oam_size}
use neschan.Ppu.Position.{IsOnScreen}
use neschan.Ppu.Vram.{write_byte}
use neschan.Ppu.Registers.{
  read_latch, write_latch, set_ppuctrl, write_ppuctrl, write_ppumask, read_ppustatus, write_oamaddr,
  write_oamdata, read_oamdata, scroll_first, scroll_second, write_ppuscroll, ppuaddr_first,
  ppuaddr_second, write_ppuaddr, bump_ppu_addr, write_ppudata, fill_read_buf, read_ppudata,
}
use neschan.Input.{Input, write_controller}
use neschan.Mapper.Info.{Target}
use neschan.Mapper.Loader.{Mapper}
use neschan.Mapper.Steady.{Steadies, of_pair, write_reg-Steadies}
use neschan.Ppu.Steady.{
  IsSteady, IsSteady-refl, write_latch-IsSteady, write_ppuctrl-IsSteady, write_ppumask-IsSteady,
  write_oamaddr-IsSteady, write_oamdata-IsSteady, write_ppuscroll-IsSteady, write_ppuaddr-IsSteady,
  write_ppudata-IsSteady, read_ppustatus-IsSteady, read_oamdata-IsSteady, read_ppudata-IsSteady,
}
use neschan.Memory.Ram.{redirect_addr, is_io_reg, get_bytes}
use neschan.System.State.{System, M, on_cpu, on_ppu, on_input, read_ppu, read_input}
use neschan.System.Hoare.{Holds}
use neschan.System.Bus.{
  get_byte, set_byte, oam_dma, read_io_reg, write_io_reg, write_oamdma, write_mem, write_mapper,
  write_ram, request_dma, is_mapper_reg,
}

-- The clock of the system is at `now` and that of the PPU at `drawn`; the beam is on the screen.
pub record AreClocks (now drawn : ℕ) (s : System) : Type 0 where
  pub on_screen : IsOnScreen s.ppu
  pub system : s.master_cycle ≡ now
  pub ppu : s.ppu.master_cycle ≡ drawn

module _ {now drawn : ℕ} where
  -- Anything else of the machine may change with it.
  after :
      (s t : System)
      → t.master_cycle ≡ s.master_cycle
      → IsSteady s.ppu t.ppu
      → AreClocks now drawn s
      → AreClocks now drawn t
  after s t e p c = record {
    on_screen = record {
      cycle = omega (arith, c.on_screen.cycle, p.cycle);
      scanline = omega (arith, c.on_screen.scanline, p.scanline);
    };
    system = e ∙ c.system;
    ppu = p.clock ∙ c.ppu;
  }

  on_cpu-Keeps : (f : Cpu → Cpu) → Keeps (AreClocks now drawn) (on_cpu f)
  unfolding on_cpu
  on_cpu-Keeps f = record { at = λ s c. after s _ refl (IsSteady-refl s.ppu) c }

  on_ppu-Keeps :
      (f : Ppu → Ppu) → ((p : Ppu) → IsSteady p (f p)) → Keeps (AreClocks now drawn) (on_ppu f)
  unfolding on_ppu
  on_ppu-Keeps f h = record { at = λ s c. after s _ refl (h s.ppu) c }

  read_ppu-Keeps :
      (f : Ppu → ℕ × Ppu)
      → ((p : Ppu) → IsSteady p (f p).1)
      → Keeps (AreClocks now drawn) (read_ppu f)
  unfolding read_ppu
  read_ppu-Keeps f h = record { at = λ s c. after s _ refl (h s.ppu) c }

  on_input-Keeps : (f : Input → Input) → Keeps (AreClocks now drawn) (on_input f)
  unfolding on_input
  on_input-Keeps f = record { at = λ s c. after s _ refl (IsSteady-refl s.ppu) c }

  read_input-Keeps : (f : Input → Option (ℕ × Input)) → Keeps (AreClocks now drawn) (read_input f)
  unfolding read_input
  read_input-Keeps f = record { at = λ s c. go s c (f s.input) }
    where
      go :
          (s : System)
          → AreClocks now drawn s
          → (r : Option (ℕ × Input))
          → Holds
              (elim r [ none ↦ none | some (v, n) ↦ some (v, record s { input = n }) ])
              (λ _ t. AreClocks now drawn t)
      go s c none = tt
      go s c (some (v, n)) = after s _ refl (IsSteady-refl s.ppu) c

  read_io_reg-Keeps : (addr : ℕ) → Keeps (AreClocks now drawn) (read_io_reg addr)
  unfolding read_io_reg
  read_io_reg-Keeps addr =
      Keeps-if (addr == 0x2002) _ _ (read_ppu-Keeps read_ppustatus read_ppustatus-IsSteady) (
        Keeps-if (addr == 0x2004) _ _ (read_ppu-Keeps read_oamdata read_oamdata-IsSteady) (
          Keeps-if (addr == 0x2007) _ _ (read_ppu-Keeps read_ppudata read_ppudata-IsSteady) (
            Keeps-if (addr == 0x4016) _ _ (read_input-Keeps _) (
              Keeps-if (addr == 0x4017) _ _ (read_input-Keeps _)
                (read_ppu-Keeps (λ p. (read_latch p, p)) IsSteady-refl)))))

  -- The ports from 0x2007 on.
  write_port-Keeps :
      (addr val : ℕ)
      → Keeps (AreClocks now drawn) (
          if addr == 0x2007
          then on_ppu (write_ppudata val)
          else if addr == 0x4014
          then write_oamdma val
          else if addr == 0x4016
          then on_input (write_controller val)
          else if addr == 0x4017
          then on_input (write_controller val)
          else on_ppu (write_latch val))
  unfolding write_oamdma
  write_port-Keeps addr val =
      Keeps-if (addr == 0x2007) _ _ (on_ppu-Keeps _ (write_ppudata-IsSteady val)) (
        Keeps-if (addr == 0x4014) _ _ (on_cpu-Keeps _) (
          Keeps-if (addr == 0x4016) _ _ (on_input-Keeps _) (
            Keeps-if (addr == 0x4017) _ _ (on_input-Keeps _)
              (on_ppu-Keeps _ (write_latch-IsSteady val)))))

  write_io_reg-Keeps : (addr val : ℕ) → Keeps (AreClocks now drawn) (write_io_reg addr val)
  unfolding write_io_reg write_oamdma
  write_io_reg-Keeps addr val =
      Keeps-if (addr == 0x2000) _ _ (on_ppu-Keeps _ (write_ppuctrl-IsSteady val)) (
        Keeps-if (addr == 0x2001) _ _ (on_ppu-Keeps _ (write_ppumask-IsSteady val)) (
          Keeps-if (addr == 0x2003) _ _ (on_ppu-Keeps _ (write_oamaddr-IsSteady val)) (
            Keeps-if (addr == 0x2004) _ _ (on_ppu-Keeps _ (write_oamdata-IsSteady val)) (
              Keeps-if (addr == 0x2005) _ _ (on_ppu-Keeps _ (write_ppuscroll-IsSteady val)) (
                Keeps-if (addr == 0x2006) _ _ (on_ppu-Keeps _ (write_ppuaddr-IsSteady val))
                  (write_port-Keeps addr val))))))

  read_ram-Keeps : (addr : ℕ) → Keeps {A = ℕ} (AreClocks now drawn) (λ s. some (s.mem.ram addr, s))
  read_ram-Keeps addr = record { at = λ s c. c }

  get_byte-Keeps : (addr : ℕ) → Keeps (AreClocks now drawn) (get_byte addr)
  unfolding get_byte
  get_byte-Keeps addr = search (Keeps-if, read_io_reg-Keeps, read_ram-Keeps)

  write_ram-Keeps : (addr val : ℕ) → Keeps (AreClocks now drawn) (write_ram addr val)
  unfolding write_ram
  write_ram-Keeps addr val = record { at = λ s c. after s _ refl (IsSteady-refl s.ppu) c }

  write_mapper-Keeps :
      (addr val : ℕ) (m : Mapper) → Keeps (AreClocks now drawn) (write_mapper addr val m)
  unfolding write_mapper
  write_mapper-Keeps addr val m = record {
    at = λ s c. go s c _ (write_reg-Steadies addr val m (record { ram = s.mem.ram; ppu = s.ppu }));
  }
    where
      go :
          (s : System)
          → AreClocks now drawn s
          → (r : Option (Mapper × Target)) → Steadies of_pair s.ppu r
          → Holds
              (elim r [
                | none ↦ none
                | some (m', t) ↦ some (
                  tt {0},
                  record s { mem = record (s.mem) { ram = t.ram; mapper = some m' }; ppu = t.ppu },
                )
              ])
              (λ _ t. AreClocks now drawn t)
      go s c none h = tt
      go s c (some r) h = after s _ refl (h.at r refl) c

  write_mem-Keeps :
      (addr val : ℕ) (m : Option Mapper) → Keeps (AreClocks now drawn) (write_mem addr val m)
  unfolding write_mem
  write_mem-Keeps addr val none = record { at = λ s c. (write_ram-Keeps addr val).at s c }
  write_mem-Keeps addr val (some m) = record {
    at = λ s c. pick (is_mapper_reg addr s.mem.mapper_info) s c;
  }
    where
      pick :
          (b : Bool) (s : System)
          → AreClocks now drawn s
          → Holds
              (if b then write_mapper addr val m s else write_ram addr val s)
              (λ _ t. AreClocks now drawn t)
      pick true s c = (write_mapper-Keeps addr val m).at s c
      pick false s c = (write_ram-Keeps addr val).at s c

  set_byte-Keeps : (addr val : ℕ) → Keeps (AreClocks now drawn) (set_byte addr val)
  unfolding set_byte
  set_byte-Keeps addr val = record { at = λ s c. pick (is_io_reg (redirect_addr addr)) s c }
    where
      pick :
          (b : Bool) (s : System)
          → AreClocks now drawn s
          → Holds
              (let a = redirect_addr addr in
                if b then write_io_reg a val s else write_mem a val s.mem.mapper s)
              (λ _ t. AreClocks now drawn t)
      pick true s c = (write_io_reg-Keeps (redirect_addr addr) val).at s c
      pick false s c = (write_mem-Keeps (redirect_addr addr) val s.mem.mapper).at s c

  stored :
      (s : System) (r : Option Bytes)
      → AreClocks now drawn s
      → Holds
          (elim r [
            | none ↦ none
            | some o ↦ some (tt {0}, record s { ppu = record (s.ppu) { oam = o } })
          ])
          (λ _ t. AreClocks now drawn t)
  stored s none c = tt
  stored s (some o) c = after s _ refl (record { clock = refl; cycle = refl; scanline = refl }) c

  split :
      (s : System) (r : Option Bytes) (k : Bytes → Option Bytes)
      → AreClocks now drawn s
      → Holds
          (elim r [
            | none ↦ none
            | some o ↦ elim (k o) [
              | none ↦ none
              | some o' ↦ some (tt {0}, record s { ppu = record (s.ppu) { oam = o' } })
            ]
          ])
          (λ _ t. AreClocks now drawn t)
  split s none k c = tt
  split s (some o) k c = stored s (k o) c

  oam_dma-Keeps : (addr : ℕ) → Keeps (AreClocks now drawn) (oam_dma addr)
  unfolding oam_dma
  oam_dma-Keeps addr = record {
    at = λ s c. elim (Bool-cases (s.ppu.oam_addr == 0)) [
      | inl e ↦ simp e (stored s (get_bytes s.ppu.oam 0 ppu_oam_size addr ppu_oam_size s.mem.ram) c)
      | inr e ↦
          let before_wrap = 0x100 - s.ppu.oam_addr in
          simp e (
            split s (get_bytes s.ppu.oam s.ppu.oam_addr before_wrap addr before_wrap s.mem.ram)
              (λ o.
                get_bytes o 0 (ppu_oam_size - before_wrap) (u16 (addr + before_wrap))
                  (ppu_oam_size - before_wrap) s.mem.ram)
              c)
    ];
  }

  -- No instruction, interrupt or transfer moves the clocks of the system and of the PPU.
  pub AreClocks-IsOutside : IsOutside (AreClocks now drawn)
  AreClocks-IsOutside = record {
    cpu = λ f s c. after s _ refl (IsSteady-refl s.ppu) c;
    stop = λ b s c. after s _ refl (IsSteady-refl s.ppu) c;
    get = get_byte-Keeps;
    set = set_byte-Keeps;
    dma = oam_dma-Keeps;
  }
