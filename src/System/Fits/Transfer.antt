-- ===== src/System/Fits/Transfer.antt =====
-- The OAM transfer copies bytes.
use neschan.Base.{
  ℕ, ◌+◌, ◌-◌, ◌==◌, leb, u16, Bool-cases, inl, inr, Option, none, some, Bytes, IsBytes,
}
use neschan.Ppu.State.{ppu_oam_size}
use neschan.Ppu.Fits.Memory.{memcpy_s-IsBytes, with_oam}
use neschan.Mapper.Fits.{Gives, Gives-if, nothing, just}
use neschan.Memory.Ram.{get_bytes, redirect_addr}
use neschan.System.State.{System}
use neschan.System.Hoare.{Holds}
use neschan.System.Bus.{oam_dma}
use neschan.System.Fits.{Fits, Quietly, with_ppu}

get_bytes-Gives :
    (dest : Bytes) (at size addr n : ℕ) (ram : Bytes)
    → IsBytes dest
    → IsBytes ram
    → Gives IsBytes (get_bytes dest at size addr n ram)
unfolding get_bytes
get_bytes-Gives dest at size addr n ram h k =
    Gives-if (leb (addr + n) 0x10000) _ _
      (just (memcpy_s-IsBytes dest (λ i. ram (redirect_addr addr + i)) at size n h (λ i. k _)))
      nothing

stored :
    (s : System) (r : Option Bytes)
    → Fits s
    → Gives IsBytes r
    → Holds
        (elim r [
          | none ↦ none
          | some o ↦ some (tt {0}, record s { ppu = record (s.ppu) { oam = o } })
        ])
        (λ _ t. Unit {0} × Fits t)
stored s _ i nothing = tt
stored s _ i (just {a = o} h) = (tt, with_ppu s _ (with_oam s.ppu o i.ppu h) i)

split :
    (s : System) (r : Option Bytes) (k : Bytes → Option Bytes)
    → Fits s
    → Gives IsBytes r
    → ((o : Bytes) → IsBytes o → Gives IsBytes (k o))
    → Holds
        (elim r [
          | none ↦ none
          | some o ↦ elim (k o) [
            | none ↦ none
            | some o' ↦ some (tt {0}, record s { ppu = record (s.ppu) { oam = o' } })
          ]
        ])
        (λ _ t. Unit {0} × Fits t)
split s _ k i nothing g = tt
split s _ k i (just {a = o} h) g = stored s (k o) i (g o h)

pub oam_dma-Fitting : (addr : ℕ) → Quietly (oam_dma addr)
unfolding oam_dma
oam_dma-Fitting addr = record {
  at = λ s i.
      let oam = i.ppu.bytes.oam_bytes in
      let before_wrap = 0x100 - s.ppu.oam_addr in
      elim (Bool-cases (s.ppu.oam_addr == 0)) [
        | inl e ↦ simp e (
            stored s (get_bytes s.ppu.oam 0 ppu_oam_size addr ppu_oam_size s.mem.ram) i
              (get_bytes-Gives s.ppu.oam 0 ppu_oam_size addr ppu_oam_size s.mem.ram oam i.ram))
        | inr e ↦ simp e (
            split s (get_bytes s.ppu.oam s.ppu.oam_addr before_wrap addr before_wrap s.mem.ram)
              (λ o.
                get_bytes o 0 (ppu_oam_size - before_wrap) (u16 (addr + before_wrap))
                  (ppu_oam_size - before_wrap) s.mem.ram)
              i
              (get_bytes-Gives s.ppu.oam s.ppu.oam_addr before_wrap addr before_wrap s.mem.ram oam
                i.ram)
              (λ o h. get_bytes-Gives o 0 _ _ _ s.mem.ram h i.ram))
      ];
}
