-- ===== src/System/Fits/Ports.antt =====
-- The bus: a byte is read at every address, and a byte can be written there.
use neschan.Base.{
  ℕ, ◌+◌, ◌<◌, arith, ◌<<<◌, ◌==◌, leb, if◌then◌else◌, u16, Bool, true, false, Option, none, some,
}
use neschan.Base.Widths.{or_byte, bit_and-le}
use neschan.Cpu.Fits.{CpuFits}
use neschan.Ppu.State.{Ppu}
use neschan.Ppu.Registers.{
  read_latch, write_latch, write_ppuctrl, write_ppumask, read_ppustatus, write_oamaddr,
  write_oamdata, read_oamdata, write_ppuscroll, write_ppuaddr, write_ppudata, read_ppudata,
}
use neschan.Ppu.Fits.{PpuFits}
use neschan.Ppu.Fits.Memory.{update-IsBytes}
use neschan.Ppu.Fits.Ports.{
  ReadFits, read_latch-ReadFits, read_ppustatus-ReadFits, read_oamdata-ReadFits,
  read_ppudata-ReadFits, write_latch-PpuFits, write_ppuctrl-PpuFits, write_ppumask-PpuFits,
  write_oamaddr-PpuFits, write_oamdata-PpuFits, write_ppuscroll-PpuFits, write_ppuaddr-PpuFits,
  write_ppudata-PpuFits,
}
use neschan.Input.{Input, read_controller, write_controller, shift_out, reload}
use neschan.Mapper.Info.{Target}
use neschan.Mapper.Loader.{Mapper}
use neschan.Mapper.Fits.{MapperFits, Gives, Gives-if, nothing, just, Both}
use neschan.Mapper.Fits.Cartridge.{write_reg-Gives}
use neschan.Memory.Ram.{redirect_addr, is_io_reg}
use neschan.System.State.{System, on_input, on_ppu, read_ppu, read_input}
use neschan.System.Hoare.{Holds}
use neschan.System.Bus.{
  get_byte, get_word, set_byte, read_io_reg, write_io_reg, write_oamdma, write_mem, write_mapper,
  write_ram, request_dma, is_mapper_reg,
}
use neschan.System.Fits.{
  Fits, Fitting, Byte, Word, Quietly, SlotFits, Fitting-then, Fitting-if, Fitting-pure,
  Fitting-on_cpu, Fitting-on_ppu, with_ppu,
}

Fitting-read_ppu :
    (f : Ppu → ℕ × Ppu) → ((p : Ppu) → PpuFits p → ReadFits (f p)) → Fitting Byte (read_ppu f)
unfolding read_ppu
Fitting-read_ppu f h = record {
  at = λ s i. let r = h s.ppu i.ppu in (r.value, with_ppu s (f s.ppu).1 r.after i);
}

with_input : (s : System) (n : Input) → Fits s → Fits (record s { input = n })
with_input s n i = record {
  cpu = i.cpu;
  ram = i.ram;
  mapper = i.mapper;
  info = i.info;
  ppu = i.ppu;
}

Fitting-on_input : (f : Input → Input) → Quietly (on_input f)
unfolding on_input
Fitting-on_input f = record { at = λ s i. (tt, with_input s (f s.input) i) }

-- A bit of the buttons, with bit 6 set.
button-Gives : (id : ℕ) (n : Input) → Gives (λ r. r.0 < 256) (shift_out id n)
unfolding shift_out
button-Gives id n =
    Gives-if (leb (n.button_id id) 7) _ _
      (just (or_byte _ _ (omega arith) (omega (arith, bit_and-le _ 1)))) nothing

Fitting-controller : (id : ℕ) → Fitting Byte (read_input (read_controller id))
unfolding read_input read_controller
Fitting-controller id = record {
  at = λ s i. go s i _ (button-Gives id (if s.input.strobe_on then reload s.input else s.input));
}
  where
    go :
        (s : System)
        → Fits s
        → (r : Option (ℕ × Input)) → Gives (λ r. r.0 < 256) r
        → Holds
            (elim r [ none ↦ none | some (v, n) ↦ some (v, record s { input = n }) ])
            (λ v t. Byte v × Fits t)
    go s i _ nothing = tt
    go s i _ (just {a} h) = (h, with_input s a.1 i)

read_io_reg-Fitting : (addr : ℕ) → Fitting Byte (read_io_reg addr)
unfolding read_io_reg
read_io_reg-Fitting addr =
    Fitting-if (addr == 0x2002) _ _ (Fitting-read_ppu read_ppustatus read_ppustatus-ReadFits) (
      Fitting-if (addr == 0x2004) _ _ (Fitting-read_ppu read_oamdata read_oamdata-ReadFits) (
        Fitting-if (addr == 0x2007) _ _ (Fitting-read_ppu read_ppudata read_ppudata-ReadFits) (
          Fitting-if (addr == 0x4016) _ _ (Fitting-controller 0) (
            Fitting-if (addr == 0x4017) _ _ (Fitting-controller 1)
              (Fitting-read_ppu (λ p. (read_latch p, p)) read_latch-ReadFits)))))

request_dma-CpuFits : (v : ℕ) (c : _) → v < 256 → CpuFits c → CpuFits (request_dma (v <<< 8) c)
unfolding request_dma
request_dma-CpuFits v c lt f = omega arith

-- The ports from 0x2007 on.
write_port-Fitting :
    (addr v : ℕ)
    → v < 256
    → Quietly (
        if addr == 0x2007
        then on_ppu (write_ppudata v)
        else if addr == 0x4014
        then write_oamdma v
        else if addr == 0x4016
        then on_input (write_controller v)
        else if addr == 0x4017
        then on_input (write_controller v)
        else on_ppu (write_latch v))
unfolding write_oamdma
write_port-Fitting addr v lt =
    Fitting-if (addr == 0x2007) _ _
      (Fitting-on_ppu (write_ppudata v) λ p f. write_ppudata-PpuFits v p lt f)
      (Fitting-if (addr == 0x4014) _ _
        (Fitting-on_cpu (request_dma (v <<< 8)) λ c f. request_dma-CpuFits v c lt f)
        (Fitting-if (addr == 0x4016) _ _ (Fitting-on_input (write_controller v)) (
          Fitting-if (addr == 0x4017) _ _ (Fitting-on_input (write_controller v))
            (Fitting-on_ppu (write_latch v) λ p f. write_latch-PpuFits v p lt f))))

write_io_reg-Fitting : (addr v : ℕ) → v < 256 → Quietly (write_io_reg addr v)
unfolding write_io_reg write_oamdma
write_io_reg-Fitting addr v lt =
    Fitting-if (addr == 0x2000) _ _
      (Fitting-on_ppu (write_ppuctrl v) λ p f. write_ppuctrl-PpuFits v p lt f)
      (Fitting-if (addr == 0x2001) _ _
        (Fitting-on_ppu (write_ppumask v) λ p f. write_ppumask-PpuFits v p lt f)
        (Fitting-if (addr == 0x2003) _ _
          (Fitting-on_ppu (write_oamaddr v) λ p f. write_oamaddr-PpuFits v p lt f)
          (Fitting-if (addr == 0x2004) _ _
            (Fitting-on_ppu (write_oamdata v) λ p f. write_oamdata-PpuFits v p lt f)
            (Fitting-if (addr == 0x2005) _ _
              (Fitting-on_ppu (write_ppuscroll v) λ p f. write_ppuscroll-PpuFits v p lt f)
              (Fitting-if (addr == 0x2006) _ _
                (Fitting-on_ppu (write_ppuaddr v) λ p f. write_ppuaddr-PpuFits v p lt f)
                (write_port-Fitting addr v lt))))))

read_ram-Fitting : (addr : ℕ) → Fitting Byte (λ s. some (s.mem.ram addr, s))
read_ram-Fitting addr = record { at = λ s i. (i.ram addr, i) }

pub get_byte-Fitting : (addr : ℕ) → Fitting Byte (get_byte addr)
unfolding get_byte
get_byte-Fitting addr =
    Fitting-if (is_io_reg (redirect_addr addr)) _ _ (read_io_reg-Fitting _) (read_ram-Fitting _)

pub get_word-Fitting : (addr : ℕ) → Fitting Word (get_word addr)
unfolding get_word
get_word-Fitting addr = Fitting-then (get_byte addr) _ (get_byte-Fitting addr) λ lo hl.
    Fitting-then (get_byte (u16 (addr + 1))) _ (get_byte-Fitting (u16 (addr + 1)))
      λ hi hh. Fitting-pure _ (omega arith)

write_ram-Fitting : (addr v : ℕ) → v < 256 → Quietly (write_ram addr v)
unfolding write_ram
write_ram-Fitting addr v lt = record {
  at = λ s i. (
    tt,
    record {
      cpu = i.cpu;
      ram = update-IsBytes s.mem.ram addr v i.ram lt;
      mapper = i.mapper;
      info = i.info;
      ppu = i.ppu;
    },
  );
}

write_mapper-Fitting :
    (addr v : ℕ) (m : Mapper) → v < 256 → MapperFits m → Quietly (write_mapper addr v m)
unfolding write_mapper
write_mapper-Fitting addr v m lt g = record {
  at = λ s i. go s i _ (
      write_reg-Gives addr v m (record { ram = s.mem.ram; ppu = s.ppu }) lt g
        (record { ram = i.ram; ppu = i.ppu }));
}
  where
    go :
        (s : System)
        → Fits s
        → (r : Option (Mapper × Target)) → Gives (Both MapperFits) r
        → Holds
            (elim r [
              | none ↦ none
              | some (m', t) ↦ some (
                tt {0},
                record s { mem = record (s.mem) { ram = t.ram; mapper = some m' }; ppu = t.ppu },
              )
            ])
            (λ _ t. Unit {0} × Fits t)
    go s i _ nothing = tt
    go s i _ (just h) =
        (tt, record { cpu = i.cpu; ram = h.1.ram; mapper = h.0; info = i.info; ppu = h.1.ppu })

write_mem-Fitting :
    (addr v : ℕ) (slot : Option Mapper) → v < 256 → SlotFits slot → Quietly (write_mem addr v slot)
unfolding write_mem
write_mem-Fitting addr v none lt g = record { at = λ s i. (write_ram-Fitting addr v lt).at s i }
write_mem-Fitting addr v (some m) lt g = record {
  at = λ s i. pick (is_mapper_reg addr s.mem.mapper_info) s i;
}
  where
    pick :
        (b : Bool) (s : System)
        → Fits s
        → Holds
            (if b then write_mapper addr v m s else write_ram addr v s)
            (λ _ t. Unit {0} × Fits t)
    pick true s i = (write_mapper-Fitting addr v m lt g).at s i
    pick false s i = (write_ram-Fitting addr v lt).at s i

pub set_byte-Fitting : (addr v : ℕ) → v < 256 → Quietly (set_byte addr v)
unfolding set_byte
set_byte-Fitting addr v lt = record { at = λ s i. pick (is_io_reg (redirect_addr addr)) s i }
  where
    pick :
        (b : Bool) (s : System)
        → Fits s
        → Holds
            (let a = redirect_addr addr in
              if b then write_io_reg a v s else write_mem a v s.mem.mapper s)
            (λ _ t. Unit {0} × Fits t)
    pick true s i = (write_io_reg-Fitting (redirect_addr addr) v lt).at s i
    pick false s i = (write_mem-Fitting (redirect_addr addr) v s.mem.mapper lt i.mapper).at s i
