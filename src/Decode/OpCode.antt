-- ===== src/Decode/OpCode.antt =====
-- target-i386/decode.h: the entry of an opcode table and the enumerations that it names.
use unitrans.Common.{ℕ, String, List, [], ◌∷◌}

-- The functions that an entry may name as its emitter.
pub data EmitFn : Type 0 where
  emit_call_disp emit_call_near_mem emit_int emit_jcond emit_jmp emit_jmp_near_mem emit_normal
        emit_other_jcond emit_ret emit_ret_iw emit_sysenter :
      EmitFn

-- The opcode tables, by name: what `ptr` points at in an entry that leads to another table.
pub data Table : Type 0 where
  group1_eb_ib group1_ev_iv group1_ev_ib group2a_eb_ib group2a_ev_ib group2_eb_1 group2_ev_1
        group2_eb_cl group2_ev_cl group3b group3v ngroup4 ngroup5 ngroup6 ngroup7 group8_ev_ib
        ngroup9 two_byte_opcodes nopbyte0 float_d8 float_d9 float_d9_2 float_d9_4 float_d9_5
        float_d9_6 float_d9_7 float_da float_da_5 float_db float_db_4 float_dc float_dd float_de
        float_de_3 float_df float_df_4 :
      Table

pub data InstType : Type 0 where
  inst_normal inst_call inst_call_ind inst_jmp inst_jmp_ind inst_jcond inst_other_jcond inst_ret
        inst_ret_iw inst_int inst_reserved inst_group1_eb_ib inst_group1_ev_iv inst_group1_ev_ib
        inst_group2_eb_1 inst_group2_ev_1 inst_group2_eb_cl inst_group2_ev_cl inst_group2a_eb_ib
        inst_group2a_ev_ib inst_group3b inst_group3v inst_ngroup4 inst_ngroup5 inst_ngroup6
        inst_ngroup7 inst_ngroup9 inst_group8_ev_ib inst_2bytes_opc inst_prefix inst_sysenter
        inst_float_d8 inst_float_d9 inst_float_da inst_float_db inst_float_dc inst_float_dd
        inst_float_de inst_float_df inst_float_d9_2 inst_float_d9_4 inst_float_d9_5 inst_float_d9_6
        inst_float_d9_7 inst_float_da_5 inst_float_db_4 inst_float_de_3 inst_float_df_4 :
      InstType

pub data Pointer : Type 0 where
  null : Pointer
  function : EmitFn → Pointer
  table : Table → Pointer

pub record OpArgument : Type 0 where
  pub amode : ℕ
  pub ainfo : ℕ

pub record OpCode : Type 0 where
  pub index : ℕ
  pub disasm : String
  pub args : List OpArgument
  pub ptr : Pointer
  pub inst_type : InstType
  pub attr : ℕ
  pub flag_effect : ℕ

-- An initialiser, in the order of the fields in the source.
abbrev pub op : ℕ → String → ℕ → ℕ → ℕ → ℕ → ℕ → ℕ → Pointer → InstType → ℕ → ℕ → OpCode
op i name m₀ n₀ m₁ n₁ m₂ n₂ p t a e = record {
  index = i;
  disasm = name;
  args =
      record { amode = m₀; ainfo = n₀ }
      ∷ record { amode = m₁; ainfo = n₁ }
      ∷ record { amode = m₂; ainfo = n₂ }
      ∷ [];
  ptr = p;
  inst_type = t;
  attr = a;
  flag_effect = e;
}
