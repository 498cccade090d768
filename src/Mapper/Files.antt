-- ===== src/Mapper/Files.antt =====
-- Which files `nes_rom_loader::load_from` (lib/inc/nes_mapper.h) takes.
use neschan.Base.{
  ℕ, ◌+◌, ◌*◌, ◌≡◌, refl, sym, arith, inl, inr, Bool-cases, if◌then◌else◌, Bool, true, false, leb,
  ◌&&◌, ◌||◌, ◌==◌, not, test_bits, Option, none, some,
}
use neschan.Rom.{Rom, slice}
use neschan.Mapper.Loader.{
  Mapper, InesHeader, read_header, read_file, mapper_id, make_mapper, load_from,
}

-- The fields of the header, where they stand in the file.
abbrev header : Rom → InesHeader
header file = record {
  prg_size = file.byte 4;
  chr_size = file.byte 5;
  flag6 = file.byte 6;
  flag7 = file.byte 7;
}

-- Where the program's ROM starts: behind the header, and the trainer if there is one.
abbrev prg_start : Rom → ℕ
prg_start file = if test_bits (file.byte 6) 0x4 then 16 + 512 else 16

-- Where the two ROMs end, and whether there is any.
abbrev rom_end : Rom → ℕ
rom_end file = prg_start file + file.byte 4 * 0x4000 + file.byte 5 * 0x2000

abbrev pub has_rom : Rom → Bool
has_rom file = not ((file.byte 4 == 0) && (file.byte 5 == 0))

abbrev pub is_complete : Rom → Bool
is_complete file = leb 16 file.size && (not (has_rom file) || leb (rom_end file) file.size)

abbrev pub is_supported : Rom → Bool
is_supported file = let id = mapper_id (header file) in (id == 0) || ((id == 1) || (id == 4))

abbrev pub is_some : Option Mapper → Bool
is_some none = false
is_some (some m) = true

make_mapper-is_some :
    (reg control id : ℕ) (prg chr : Rom) (vertical : Bool)
    → is_some (make_mapper reg control id prg chr vertical)
      ≡ ((id == 0) || ((id == 1) || (id == 4)))
unfolding make_mapper
make_mapper-is_some reg control id prg chr vertical = ground arith

-- A read succeeds when there is nothing to read, or all of it is there.
abbrev readable : Rom → ℕ → ℕ → Bool
readable file at n = (n == 0) || leb (at + n) file.size

read_file_eq :
    (file : Rom) (at n : ℕ)
    → read_file file at n ≡ (if readable file at n then some (λ i. file.byte (at + i)) else none)
unfolding read_file slice
read_file_eq file at n = elim (Bool-cases (n == 0)) [ inl e ↦ rw e refl | inr e ↦ rw e refl ]

-- Both reads behind the header, as one test.
both_readable :
    (file : Rom) (at n m : ℕ)
    → (readable file at (n * 0x4000) && readable file (at + n * 0x4000) (m * 0x2000))
      ≡ (not (not ((n == 0) && (m == 0))) || leb (at + n * 0x4000 + m * 0x2000) file.size)
both_readable file at n m = ground arith

-- Loading a file gives a mapper exactly when the file holds the header, holds both of the ROMs whose
-- sizes the header gives unless both sizes are 0, and the header asks for mapper 0, 1 or 4. It fails on
-- every other file. Without any ROM, a file that asks for a trainer need not hold one.
pub load_from-is_some :
    (reg control : ℕ) (file : Rom)
    → is_some (load_from reg control file) ≡ (is_complete file && is_supported file)
unfolding load_from read_header
load_from-is_some reg control file =
    rw
      (
        read_file_eq file 0 16,
        sym (both_readable file (prg_start file) (file.byte 4) (file.byte 5)),
      )
      (elim (Bool-cases (leb 16 file.size)) [
        | inr e ↦ simp e refl
        | inl e ↦ elim (Bool-cases (readable file (prg_start file) prg_size)) [
          | inr f ↦ simp (e, read_file_eq, f) refl
          | inl f ↦ elim (Bool-cases (readable file (prg_start file + prg_size) chr_size)) [
            | inr g ↦ simp (e, read_file_eq, f, g) refl
            | inl g ↦
                simp (e, read_file_eq, f, g)
                  (make_mapper-is_some reg control (mapper_id (header file))
                    (record { size = prg_size; byte = λ i. file.byte (prg_start file + i) })
                    (record {
                      size = chr_size;
                      byte = λ i. file.byte (prg_start file + prg_size + i);
                    })
                    (test_bits (file.byte 6) 0x1))
          ]
        ]
      ])
  where
    prg_size : ℕ
    prg_size = file.byte 4 * 0x4000

    chr_size : ℕ
    chr_size = file.byte 5 * 0x2000
