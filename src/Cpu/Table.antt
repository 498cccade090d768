-- ===== src/Cpu/Table.antt =====
-- The `switch` of `nes_cpu::exec_one_instruction` (lib/src/nes_cpu.cpp) as the list of its cases. The
-- functions `is_alu_op_code`, `is_alu_op_code_no_imm` and `is_rmw_op_code` are the source's macros.
use neschan.Base.{ℕ, ◌+◌, ◌==◌, if◌then◌else◌, Option, none, some, List, [], ◌∷◌, ◌++◌}
use neschan.Cpu.Operand.{
  AddrMode, imp, acc, imm, ind_jmp, rel, abs, abs_jmp, zp, zp_ind_x, zp_ind_y, abs_x, abs_y, ind_x,
  ind_y,
}

-- The member functions that the cases call.
pub data Op : Type 0 where
  adc and_a cmp eor ora sbc sta lda asl rol lsr ror ldx ldy stx sty cpx cpy : Op
  tax tay tsx txa txs tya inc inx iny dec dex dey sec sed sei clc cld cli clv : Op
  jmp bcc bcs beq bmi bne bpl bvc bvs bit pha php pla plp rti jsr rts kil brk nop : Op
  slo rla sre rra sax lax dcp isc anc alr arr xaa ahx tas las axs : Op

pub record Case : Type 0 where
  pub op_code : ℕ
  pub op : Op
  pub mode : AddrMode

abbrev pub is_op_code : Op → ℕ → AddrMode → Case
is_op_code op op_code mode = record { op_code = op_code; op = op; mode = mode }

abbrev pub is_alu_op_code_no_imm : Op → ℕ → List Case
is_alu_op_code_no_imm op base =
    is_op_code op (base + 0x5) zp
    ∷ is_op_code op (base + 0x15) zp_ind_x
    ∷ is_op_code op (base + 0xd) abs
    ∷ is_op_code op (base + 0x1d) abs_x
    ∷ is_op_code op (base + 0x19) abs_y
    ∷ is_op_code op (base + 0x1) ind_x
    ∷ is_op_code op (base + 0x11) ind_y
    ∷ []

abbrev pub is_alu_op_code : Op → ℕ → List Case
is_alu_op_code op base = is_op_code op (base + 0x9) imm ∷ is_alu_op_code_no_imm op base

abbrev pub is_rmw_op_code : Op → ℕ → List Case
is_rmw_op_code op base =
    is_op_code op (base + 0x6) zp
    ∷ is_op_code op (base + 0xa) acc
    ∷ is_op_code op (base + 0x16) zp_ind_x
    ∷ is_op_code op (base + 0xe) abs
    ∷ is_op_code op (base + 0x1e) abs_x
    ∷ []

unfoldable pub alu_cases : List Case
alu_cases =
    is_alu_op_code adc 0x60
    ++ is_alu_op_code and_a 0x20
    ++ is_alu_op_code cmp 0xc0
    ++ is_alu_op_code eor 0x40
    ++ is_alu_op_code ora 0x00
    ++ is_alu_op_code sbc 0xe0
    ++ is_alu_op_code_no_imm sta 0x80
    ++ is_alu_op_code lda 0xa0
    ++ is_rmw_op_code asl 0x0
    ++ is_rmw_op_code rol 0x20
    ++ is_rmw_op_code lsr 0x40
    ++ is_rmw_op_code ror 0x60

unfoldable pub official_cases : List Case
official_cases =
    is_op_code ldx 0xa2 imm
    ∷ is_op_code ldx 0xa6 zp
    ∷ is_op_code ldx 0xb6 zp_ind_y
    ∷ is_op_code ldx 0xae abs
    ∷ is_op_code ldx 0xbe abs_y
    ∷ is_op_code ldy 0xa0 imm
    ∷ is_op_code ldy 0xa4 zp
    ∷ is_op_code ldy 0xb4 zp_ind_x
    ∷ is_op_code ldy 0xac abs
    ∷ is_op_code ldy 0xbc abs_x
    ∷ is_op_code stx 0x86 zp
    ∷ is_op_code stx 0x96 zp_ind_y
    ∷ is_op_code stx 0x8e abs
    ∷ is_op_code sty 0x84 zp
    ∷ is_op_code sty 0x94 zp_ind_x
    ∷ is_op_code sty 0x8c abs
    ∷ is_op_code cpx 0xe0 imm
    ∷ is_op_code cpx 0xe4 zp
    ∷ is_op_code cpx 0xec abs
    ∷ is_op_code cpy 0xc0 imm
    ∷ is_op_code cpy 0xc4 zp
    ∷ is_op_code cpy 0xcc abs
    ∷ is_op_code tax 0xaa imp
    ∷ is_op_code tay 0xa8 imp
    ∷ is_op_code tsx 0xba imp
    ∷ is_op_code txa 0x8a imp
    ∷ is_op_code txs 0x9a imp
    ∷ is_op_code tya 0x98 imp
    ∷ is_op_code inc 0xe6 zp
    ∷ is_op_code inc 0xf6 zp_ind_x
    ∷ is_op_code inc 0xee abs
    ∷ is_op_code inc 0xfe abs_x
    ∷ is_op_code inx 0xe8 imp
    ∷ is_op_code iny 0xc8 imp
    ∷ is_op_code dec 0xc6 zp
    ∷ is_op_code dec 0xd6 zp_ind_x
    ∷ is_op_code dec 0xce abs
    ∷ is_op_code dec 0xde abs_x
    ∷ is_op_code dex 0xca imp
    ∷ is_op_code dey 0x88 imp
    ∷ is_op_code sec 0x38 imp
    ∷ is_op_code sed 0xf8 imp
    ∷ is_op_code sei 0x78 imp
    ∷ is_op_code clc 0x18 imp
    ∷ is_op_code cld 0xd8 imp
    ∷ is_op_code cli 0x58 imp
    ∷ is_op_code clv 0xb8 imp
    ∷ is_op_code jmp 0x4c abs_jmp
    ∷ is_op_code jmp 0x6c ind_jmp
    ∷ is_op_code bcc 0x90 rel
    ∷ is_op_code bcs 0xb0 rel
    ∷ is_op_code beq 0xf0 rel
    ∷ is_op_code bmi 0x30 rel
    ∷ is_op_code bne 0xd0 rel
    ∷ is_op_code bpl 0x10 rel
    ∷ is_op_code bvc 0x50 rel
    ∷ is_op_code bvs 0x70 rel
    ∷ is_op_code bit 0x24 zp
    ∷ is_op_code bit 0x2c abs
    ∷ is_op_code pha 0x48 imp
    ∷ is_op_code php 0x08 imp
    ∷ is_op_code pla 0x68 imp
    ∷ is_op_code plp 0x28 imp
    ∷ is_op_code rti 0x40 imp
    ∷ is_op_code jsr 0x20 abs_jmp
    ∷ is_op_code rts 0x60 imp
    ∷ is_op_code kil 0x02 imp
    ∷ is_op_code kil 0x12 imp
    ∷ is_op_code kil 0x22 imp
    ∷ is_op_code kil 0x32 imp
    ∷ is_op_code kil 0x42 imp
    ∷ is_op_code kil 0x52 imp
    ∷ is_op_code kil 0x62 imp
    ∷ is_op_code kil 0x72 imp
    ∷ is_op_code kil 0x92 imp
    ∷ is_op_code kil 0xb2 imp
    ∷ is_op_code kil 0xd2 imp
    ∷ is_op_code kil 0xf2 imp
    ∷ is_op_code brk 0x00 imp
    ∷ is_op_code nop 0xea imp
    ∷ []

unfoldable pub unofficial_cases : List Case
unofficial_cases =
    is_op_code nop 0x80 imm
    ∷ is_op_code nop 0x04 zp
    ∷ is_op_code nop 0x44 zp
    ∷ is_op_code nop 0x64 zp
    ∷ is_op_code nop 0x0c abs
    ∷ is_op_code nop 0x14 zp_ind_x
    ∷ is_op_code nop 0x34 zp_ind_x
    ∷ is_op_code nop 0x54 zp_ind_x
    ∷ is_op_code nop 0x74 zp_ind_x
    ∷ is_op_code nop 0xd4 zp_ind_x
    ∷ is_op_code nop 0xf4 zp_ind_x
    ∷ is_op_code nop 0x1c abs_x
    ∷ is_op_code nop 0x3c abs_x
    ∷ is_op_code nop 0x5c abs_x
    ∷ is_op_code nop 0x7c abs_x
    ∷ is_op_code nop 0xdc abs_x
    ∷ is_op_code nop 0xfc abs_x
    ∷ is_op_code nop 0x89 imm
    ∷ is_op_code nop 0x82 imm
    ∷ is_op_code nop 0xc2 imm
    ∷ is_op_code nop 0xe2 imm
    ∷ is_op_code nop 0x1a imp
    ∷ is_op_code nop 0x3a imp
    ∷ is_op_code nop 0x5a imp
    ∷ is_op_code nop 0x7a imp
    ∷ is_op_code nop 0xda imp
    ∷ is_op_code nop 0xfa imp
    ∷ is_op_code slo 0x03 ind_x
    ∷ is_op_code slo 0x07 zp
    ∷ is_op_code anc 0x0b imm
    ∷ is_op_code slo 0x0f abs
    ∷ is_op_code slo 0x13 ind_y
    ∷ is_op_code slo 0x17 zp_ind_x
    ∷ is_op_code slo 0x1b abs_y
    ∷ is_op_code slo 0x1f abs_x
    ∷ is_op_code rla 0x23 ind_x
    ∷ is_op_code rla 0x27 zp
    ∷ is_op_code anc 0x2b imm
    ∷ is_op_code rla 0x2f abs
    ∷ is_op_code rla 0x33 ind_y
    ∷ is_op_code rla 0x37 zp_ind_x
    ∷ is_op_code rla 0x3b abs_y
    ∷ is_op_code rla 0x3f abs_x
    ∷ is_op_code sre 0x43 ind_x
    ∷ is_op_code sre 0x47 zp
    ∷ is_op_code alr 0x4b imm
    ∷ is_op_code sre 0x4f abs
    ∷ is_op_code sre 0x53 ind_y
    ∷ is_op_code sre 0x57 zp_ind_x
    ∷ is_op_code sre 0x5b abs_y
    ∷ is_op_code sre 0x5f abs_x
    ∷ is_op_code rra 0x63 ind_x
    ∷ is_op_code rra 0x67 zp
    ∷ is_op_code arr 0x6b imm
    ∷ is_op_code rra 0x6f abs
    ∷ is_op_code rra 0x73 ind_y
    ∷ is_op_code rra 0x77 zp_ind_x
    ∷ is_op_code rra 0x7b abs_y
    ∷ is_op_code rra 0x7f abs_x
    ∷ is_op_code sax 0x83 ind_x
    ∷ is_op_code sax 0x87 zp
    ∷ is_op_code xaa 0x8b imm
    ∷ is_op_code sax 0x8f abs
    ∷ is_op_code ahx 0x93 ind_y
    ∷ is_op_code sax 0x97 zp_ind_y
    ∷ is_op_code tas 0x9b abs_y
    ∷ is_op_code ahx 0x9f abs_y
    ∷ is_op_code lax 0xa3 ind_x
    ∷ is_op_code lax 0xa7 zp
    ∷ is_op_code lax 0xab imm
    ∷ is_op_code lax 0xaf abs
    ∷ is_op_code lax 0xb3 ind_y
    ∷ is_op_code lax 0xb7 zp_ind_y
    ∷ is_op_code las 0xbb zp_ind_y
    ∷ is_op_code lax 0xbf abs_y
    ∷ is_op_code dcp 0xc3 ind_x
    ∷ is_op_code dcp 0xc7 zp
    ∷ is_op_code axs 0xcb imm
    ∷ is_op_code dcp 0xcf abs
    ∷ is_op_code dcp 0xd3 ind_y
    ∷ is_op_code dcp 0xd7 zp_ind_x
    ∷ is_op_code dcp 0xdb abs_y
    ∷ is_op_code dcp 0xdf abs_x
    ∷ is_op_code isc 0xe3 ind_x
    ∷ is_op_code isc 0xe7 zp
    ∷ is_op_code sbc 0xeb imm
    ∷ is_op_code isc 0xef abs
    ∷ is_op_code isc 0xf3 ind_y
    ∷ is_op_code isc 0xf7 zp_ind_x
    ∷ is_op_code isc 0xfb abs_y
    ∷ is_op_code isc 0xff abs_x
    ∷ []

unfoldable pub cases : List Case
unfolding alu_cases official_cases unofficial_cases
cases = alu_cases ++ official_cases ++ unofficial_cases

-- The case that a `switch` takes; `none` is its `default`.
unfoldable pub switch : List Case → ℕ → Option Case
switch [] op_code = none
switch (c ∷ cs) op_code = if c.op_code == op_code then some c else switch cs op_code

unfoldable pub decode : ℕ → Option Case
unfolding switch cases
decode = switch cases
