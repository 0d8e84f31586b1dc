-- ===== src/Decode/State.antt =====
-- target-i386/decode.h: the attribute bits, the modrm and sib bytes and `decode_t`.
use unitrans.Common.{ℕ, ◌/◌, ◌%◌, Bool, ◌||◌, ◌==◌, if◌then◌else◌}
use unitrans.Decode.OpCode.{OpCode, Pointer, InstType}

-- Which further bytes an entry asks for.
abbrev pub df_modrm : ℕ
df_modrm = 0x1

-- `DF_Ib` and `DF_Jb` are one bit.
abbrev pub df_ib : ℕ
df_ib = 0x2

abbrev pub df_iv : ℕ
df_iv = 0x8

abbrev pub df_jv : ℕ
df_jv = 0x10

abbrev pub df_ob : ℕ
df_ob = 0x40

abbrev pub df_ov : ℕ
df_ov = 0x80

abbrev pub df_prefix : ℕ
df_prefix = 0x100

abbrev pub df_undefined : ℕ
df_undefined = 0x200

abbrev pub df_table : ℕ
df_table = 0x400

abbrev pub df_group : ℕ
df_group = 0x800

abbrev pub df_iw : ℕ
df_iw = 0x4000

abbrev pub df_ap : ℕ
df_ap = 0x8000

abbrev pub df_float : ℕ
df_float = 0x10000

abbrev pub df_one_more_level : ℕ
df_one_more_level = 0x20000

-- `DSFL_GROUPn_PREFIX` and the two bits of `opstate`.
abbrev pub dsfl_group1_prefix : ℕ
dsfl_group1_prefix = 0x1

abbrev pub dsfl_group2_prefix : ℕ
dsfl_group2_prefix = 0x2

abbrev pub dsfl_group3_prefix : ℕ
dsfl_group3_prefix = 0x4

abbrev pub dsfl_group4_prefix : ℕ
dsfl_group4_prefix = 0x8

abbrev pub opstate_addr32 : ℕ
opstate_addr32 = 0x1

abbrev pub opstate_data32 : ℕ
opstate_data32 = 0x2

abbrev pub opstate_addr16 : ℕ
opstate_addr16 = 0x0

-- The bit fields of the two unions, lowest first: `rm`, `reg`, `mod` and `base`, `index`, `ss`.
abbrev pub modrm_rm : ℕ → ℕ
modrm_rm byte = byte % 8

abbrev pub modrm_reg : ℕ → ℕ
modrm_reg byte = byte / 8 % 8

abbrev pub modrm_mod : ℕ → ℕ
modrm_mod byte = byte / 64 % 4

abbrev pub sib_base : ℕ → ℕ
sib_base byte = byte % 8

-- `decode_t`. `instr` is a guest address; `p_instr` holds what the code stores there, a byte.
pub record Decode : Type 0 where
  pub decode_eip : ℕ
  pub instr : ℕ
  pub p_instr : ℕ
  pub attr : ℕ
  pub group1_prefix : ℕ
  pub group2_prefix : ℕ
  pub group3_prefix : ℕ
  pub group4_prefix : ℕ
  pub no_of_prefixes : ℕ
  pub flags : ℕ
  pub emitfn : Pointer
  pub p_entry : OpCode
  pub b : ℕ
  pub opstate : ℕ
  pub modrm : ℕ
  pub need_sib : Bool
  pub sib : ℕ
  pub disp_bytes : ℕ
  pub displacement : ℕ
  pub modrm_regs : ℕ
  pub immediate : ℕ
  pub imm16 : ℕ
  pub inst_type : InstType

-- The eleven bytes of the switch on prefixes, by the group that each belongs to.
pub data Prefix : Type 0 where
  group1 group2 opsz addrsz other : Prefix

unfoldable pub prefix_kind : ℕ → Prefix
prefix_kind b =
    if b == 0xf0 || b == 0xf3 || b == 0xf2
    then group1
    else if b == 0x2e || b == 0x3e || b == 0x26 || b == 0x64 || b == 0x65 || b == 0x36
    then group2
    else if b == 0x66
    then opsz
    else if b == 0x67
    then addrsz
    else other
