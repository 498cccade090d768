-- ===== src/System/Transfer.antt =====
-- The OAM transfer (`nes_ppu::oam_dma`, lib/src/nes_ppu.cpp).
use neschan.Base.{
  ℕ, ◌+◌, ◌-◌, ◌%◌, ◌<◌, ◌≤◌, ◌≡◌, ◌⊎◌, inl, inr, refl, arith, true, false, ltb, ◌==◌, u16, Bytes,
  copy, memcpy_s, some, ◌∙◌, Bool-cases,
}
use neschan.Memory.Ram.{redirect_addr, get_bytes}
use neschan.Memory.Map.{redirect_addr_eq}
use neschan.System.State.{System}
use neschan.System.Bus.{oam_dma}

get_bytes_eq :
    (dest : Bytes) (at dest_size src size : ℕ) (ram : Bytes)
    → src + size ≤ 0x10000
    → size ≤ dest_size
    → get_bytes dest at dest_size src size ram
      ≡ some (copy dest at (λ i. ram (redirect_addr src + i)) size)
unfolding get_bytes memcpy_s
get_bytes_eq dest at dest_size src size ram h le = ground arith

-- A page of the internal memory, or from 0x4000 on.
pub record IsPage (addr : ℕ) : Type 0 where
  pub aligned : addr % 256 ≡ 0
  pub word : addr < 0x10000
  pub no_ports : (addr < 0x2000) ⊎ (0x4000 ≤ addr)

redirect_addr-page :
    (addr i : ℕ) → IsPage addr → i < 256 → redirect_addr (u16 (addr + i)) ≡ redirect_addr addr + i
redirect_addr-page addr i h lt =
    redirect_addr_eq (u16 (addr + i)) (omega arith)
    ∙ ground (arith, redirect_addr_eq addr h.word, h.aligned, h.no_ports)

abbrev with_oam : Bytes → System → System
with_oam o s = record s { ppu = record (s.ppu) { oam = o } }

abbrev source : ℕ → System → Bytes
source addr s i = s.mem.ram (redirect_addr addr + i)

-- The OAM after the two copies.
abbrev transferred : ℕ → System → Bytes
transferred addr s =
    let wrap = 0x100 - s.ppu.oam_addr in
    copy (copy s.ppu.oam s.ppu.oam_addr (source addr s) wrap) 0
      (λ i. s.mem.ram (redirect_addr (u16 (addr + wrap)) + i)) (0x100 - wrap)

oam_dma-wrap :
    (addr : ℕ) (s : System)
    → IsPage addr
    → s.ppu.oam_addr < 256
    → (s.ppu.oam_addr == 0) ≡ false
    → oam_dma addr s ≡ some (tt, with_oam (transferred addr s) s)
unfolding oam_dma
oam_dma-wrap addr s h lt e = rw (
  e,
  get_bytes_eq s.ppu.oam s.ppu.oam_addr (0x100 - s.ppu.oam_addr) addr (0x100 - s.ppu.oam_addr)
      s.mem.ram (omega (arith, h.aligned, h.word)) (omega arith),
  get_bytes_eq (copy s.ppu.oam s.ppu.oam_addr (source addr s) (0x100 - s.ppu.oam_addr)) 0
      (0x100 - (0x100 - s.ppu.oam_addr)) (u16 (addr + (0x100 - s.ppu.oam_addr)))
      (0x100 - (0x100 - s.ppu.oam_addr)) s.mem.ram (ground (arith, e, h.aligned, h.word))
      (omega arith),
)

oam_dma-direct :
    (addr : ℕ) (s : System)
    → IsPage addr
    → (s.ppu.oam_addr == 0) ≡ true
    → oam_dma addr s ≡ some (tt, with_oam (copy s.ppu.oam 0 (source addr s) 0x100) s)
unfolding oam_dma
oam_dma-direct addr s h e = rw (
  e,
  get_bytes_eq s.ppu.oam 0 0x100 addr 0x100 s.mem.ram (omega (arith, h.aligned, h.word))
      (omega arith),
)

byte_below :
    (addr : ℕ) (s : System) (i : ℕ)
    → s.ppu.oam_addr + i < 256
    → transferred addr s ((s.ppu.oam_addr + i) % 256) ≡ source addr s i
byte_below addr s i lt = rw (index, offset) (ground arith)
  where
    index : (s.ppu.oam_addr + i) % 256 ≡ s.ppu.oam_addr + i
    index = omega arith

    offset : s.ppu.oam_addr + i - s.ppu.oam_addr ≡ i
    offset = omega arith

byte_above :
    (addr : ℕ) (s : System) (i : ℕ)
    → IsPage addr
    → s.ppu.oam_addr < 256
    → i < 256
    → 256 ≤ s.ppu.oam_addr + i
    → transferred addr s ((s.ppu.oam_addr + i) % 256) ≡ source addr s i
byte_above addr s i h lt li le =
    rw (index, redirect_addr-page addr (0x100 - s.ppu.oam_addr) h (omega arith), offset)
      (ground arith)
  where
    offset :
        redirect_addr addr + (0x100 - s.ppu.oam_addr) + (s.ppu.oam_addr + i - 256 - 0)
        ≡ redirect_addr addr + i
    offset = omega arith

    index : (s.ppu.oam_addr + i) % 256 ≡ s.ppu.oam_addr + i - 256
    index = omega arith

byte_direct :
    (addr : ℕ) (s : System) (i : ℕ)
    → s.ppu.oam_addr ≡ 0
    → i < 256
    → copy s.ppu.oam 0 (source addr s) 0x100 ((s.ppu.oam_addr + i) % 256) ≡ source addr s i
byte_direct addr s i e li = rw index (ground arith)
  where
    index : (s.ppu.oam_addr + i) % 256 ≡ i
    index = omega arith

-- What a transfer from a page leaves: byte `i` of the page at `_oam_addr + i`, around the OAM, and
-- nothing else changed.
pub record IsTransfer (addr : ℕ) (s t : System) : Type 0 where
  pub byte :
      (i : ℕ)
      → i < 256
      → t.ppu.oam ((s.ppu.oam_addr + i) % 256) ≡ s.mem.ram (redirect_addr addr + i)
  pub rest : t ≡ record s { ppu = record (s.ppu) { oam = t.ppu.oam } }

-- `oam_dma` from a page of the internal memory, or of the addresses from 0x4000 on, succeeds and copies
-- the 256 bytes of the page into the OAM from `_oam_addr` on and around its end, for every byte
-- `_oam_addr`, and changes nothing else.
pub oam_dma-IsTransfer :
    (addr : ℕ) (s : System)
    → IsPage addr
    → s.ppu.oam_addr < 256
    → (t : System) × (oam_dma addr s ≡ some (tt, t)) × IsTransfer addr s t
oam_dma-IsTransfer addr s h lt = elim (Bool-cases (s.ppu.oam_addr == 0)) [
  | inl e ↦ (
    with_oam (copy s.ppu.oam 0 (source addr s) 0x100) s,
    oam_dma-direct addr s h e,
    record { byte = λ i li. byte_direct addr s i (ground (arith, e)) li; rest = refl },
  )
  | inr e ↦ (
    with_oam (transferred addr s) s,
    oam_dma-wrap addr s h lt e,
    record {
      byte = λ i li. elim (Bool-cases (ltb (s.ppu.oam_addr + i) 256)) [
        | inl b ↦ byte_below addr s i (ground (arith, b))
        | inr b ↦ byte_above addr s i h lt li (ground (arith, b))
      ];
      rest = refl;
    },
  )
]
