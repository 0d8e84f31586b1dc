-- ===== src/Emit/Inline.antt =====
-- target-i386/cemit-inline.c: single instructions.
use unitrans.Common.{leb, ◌==◌, if◌then◌else◌, u32, ◌+◌, ◌*◌, ◌^◌, ℕ, bit_or}
use unitrans.Emit.Memory.{Out, code_emit8, code_emit32, ◌▷◌}

abbrev pub modrm_byte : ℕ → ℕ → ℕ → ℕ
modrm_byte m reg rm = bit_or (bit_or (m * 64) (reg * 8)) rm

abbrev pub op_push_iz : ℕ
op_push_iz = 0x68

abbrev pub op_mov_g_e : ℕ
op_mov_g_e = 0x89

abbrev pub op_mov_e_g : ℕ
op_mov_e_g = 0x8b

abbrev pub op_lea_m_g : ℕ
op_lea_m_g = 0x8d

abbrev pub op_group11 : ℕ
op_group11 = 0xc7

abbrev pub r_esp : ℕ
r_esp = 4

unfoldable pub cemit_mov_im_g : ℕ → ℕ → Out → Out
cemit_mov_im_g addr reg o =
    o ▷ code_emit8 op_mov_e_g ▷ code_emit8 (modrm_byte 0 reg 5) ▷ code_emit32 addr

unfoldable pub cemit_mov_g_im : ℕ → ℕ → Out → Out
cemit_mov_g_im reg addr o =
    o ▷ code_emit8 op_mov_g_e ▷ code_emit8 (modrm_byte 0 reg 5) ▷ code_emit32 addr

unfoldable pub cemit_mov_i_gm : ℕ → ℕ → Out → Out
cemit_mov_i_gm imm32 reg o =
    o ▷ code_emit8 op_group11 ▷ code_emit8 (modrm_byte 0 0 reg) ▷ code_emit32 imm32

unfoldable pub cemit_push_i : ℕ → Out → Out
cemit_push_i imm32 o = o ▷ code_emit8 op_push_iz ▷ code_emit32 imm32

-- The offset is a 32-bit word, negative where its top bit is set.
unfoldable pub cemit_lea_reg : ℕ → ℕ → Out → Out
cemit_lea_reg reg offset o =
    let negative = leb (2 ^ 31) offset in
    let modrm = if negative then modrm_byte 1 reg reg else modrm_byte 2 reg reg in
    let o₁ =
      if reg == r_esp
      then o ▷ code_emit8 op_lea_m_g ▷ code_emit8 modrm ▷ code_emit8 0x24
      else o ▷ code_emit8 op_lea_m_g ▷ code_emit8 modrm in
    if negative then code_emit8 offset o₁ else code_emit32 offset o₁

unfoldable pub cemit_incl_mem : ℕ → Out → Out
cemit_incl_mem addr o =
    o ▷ code_emit8 0x9c ▷ code_emit8 0xff ▷ code_emit8 0x05 ▷ code_emit32 addr ▷ code_emit8 0x9d

unfoldable pub cemit_incl_mem64 : ℕ → Out → Out
cemit_incl_mem64 addr o =
    o
    ▷ code_emit8 0x9c
    ▷ code_emit8 0x83
    ▷ code_emit8 0x05
    ▷ code_emit32 addr
    ▷ code_emit8 1
    ▷ code_emit8 0x83
    ▷ code_emit8 0x15
    ▷ code_emit32 (u32 (addr + 4))
    ▷ code_emit8 0
    ▷ code_emit8 0x9d

unfoldable pub cemit_add_mem64 : ℕ → ℕ → Out → Out
cemit_add_mem64 addr val o =
    o
    ▷ code_emit8 0x9c
    ▷ code_emit8 0x81
    ▷ code_emit8 0x05
    ▷ code_emit32 addr
    ▷ code_emit32 val
    ▷ code_emit8 0x83
    ▷ code_emit8 0x15
    ▷ code_emit32 (u32 (addr + 4))
    ▷ code_emit8 0
    ▷ code_emit8 0x9d
