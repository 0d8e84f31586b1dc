-- ===== src/Decode/Tables.antt =====
-- target-i386/decode-table.c: the tables by name.
mod Group
mod Ngroup
mod TwoByteLo
mod TwoByteHi
mod OneByteLo
mod OneByteHi
mod FloatLo
mod FloatHi
use unitrans.Common.{List, ◌++◌}
use unitrans.Decode.OpCode.{
  OpCode, Table, group1_eb_ib, group1_ev_iv, group1_ev_ib, group2a_eb_ib, group2a_ev_ib,
  group2_eb_1, group2_ev_1, group2_eb_cl, group2_ev_cl, group3b, group3v, ngroup4, ngroup5, ngroup6,
  ngroup7, group8_ev_ib, ngroup9, two_byte_opcodes, nopbyte0, float_d8, float_d9, float_d9_2,
  float_d9_4, float_d9_5, float_d9_6, float_d9_7, float_da, float_da_5, float_db, float_db_4,
  float_dc, float_dd, float_de, float_de_3, float_df, float_df_4,
}
use Group.{
  group1_eb_ib_entries, group1_ev_iv_entries, group1_ev_ib_entries, group2a_eb_ib_entries,
  group2a_ev_ib_entries, group2_eb_1_entries, group2_ev_1_entries, group2_eb_cl_entries,
  group2_ev_cl_entries, group8_ev_ib_entries,
}
use Ngroup.{
  group3b_entries, group3v_entries, ngroup4_entries, ngroup5_entries, ngroup6_entries,
  ngroup7_entries, ngroup9_entries,
}
use TwoByteLo.{two_byte_opcodes_00_3f, two_byte_opcodes_40_7f}
use TwoByteHi.{two_byte_opcodes_80_bf, two_byte_opcodes_c0_ff}
use OneByteLo.{nopbyte0_00_3f, nopbyte0_40_7f}
use OneByteHi.{nopbyte0_80_bf, nopbyte0_c0_ff}
use FloatLo.{
  float_d8_entries, float_d9_entries, float_d9_2_entries, float_d9_4_entries, float_d9_5_entries,
  float_d9_6_entries, float_d9_7_entries, float_da_entries, float_da_5_entries,
}
use FloatHi.{
  float_db_entries, float_db_4_entries, float_dc_entries, float_dd_entries, float_de_entries,
  float_de_3_entries, float_df_entries, float_df_4_entries,
}

unfoldable pub entries : Table → List OpCode
unfolding group1_eb_ib_entries group1_ev_iv_entries group1_ev_ib_entries group2a_eb_ib_entries
    group2a_ev_ib_entries group2_eb_1_entries group2_ev_1_entries group2_eb_cl_entries
    group2_ev_cl_entries group8_ev_ib_entries group3b_entries group3v_entries ngroup4_entries
    ngroup5_entries ngroup6_entries ngroup7_entries ngroup9_entries two_byte_opcodes_00_3f
    two_byte_opcodes_40_7f two_byte_opcodes_80_bf two_byte_opcodes_c0_ff nopbyte0_00_3f
    nopbyte0_40_7f nopbyte0_80_bf nopbyte0_c0_ff float_d8_entries float_d9_entries
    float_d9_2_entries float_d9_4_entries float_d9_5_entries float_d9_6_entries float_d9_7_entries
    float_da_entries float_da_5_entries float_db_entries float_db_4_entries float_dc_entries
    float_dd_entries float_de_entries float_de_3_entries float_df_entries float_df_4_entries
entries group1_eb_ib = group1_eb_ib_entries
entries group1_ev_iv = group1_ev_iv_entries
entries group1_ev_ib = group1_ev_ib_entries
entries group2a_eb_ib = group2a_eb_ib_entries
entries group2a_ev_ib = group2a_ev_ib_entries
entries group2_eb_1 = group2_eb_1_entries
entries group2_ev_1 = group2_ev_1_entries
entries group2_eb_cl = group2_eb_cl_entries
entries group2_ev_cl = group2_ev_cl_entries
entries group3b = group3b_entries
entries group3v = group3v_entries
entries ngroup4 = ngroup4_entries
entries ngroup5 = ngroup5_entries
entries ngroup6 = ngroup6_entries
entries ngroup7 = ngroup7_entries
entries group8_ev_ib = group8_ev_ib_entries
entries ngroup9 = ngroup9_entries
entries two_byte_opcodes =
    two_byte_opcodes_00_3f
    ++ (two_byte_opcodes_40_7f ++ (two_byte_opcodes_80_bf ++ (two_byte_opcodes_c0_ff)))
entries nopbyte0 = nopbyte0_00_3f ++ (nopbyte0_40_7f ++ (nopbyte0_80_bf ++ (nopbyte0_c0_ff)))
entries float_d8 = float_d8_entries
entries float_d9 = float_d9_entries
entries float_d9_2 = float_d9_2_entries
entries float_d9_4 = float_d9_4_entries
entries float_d9_5 = float_d9_5_entries
entries float_d9_6 = float_d9_6_entries
entries float_d9_7 = float_d9_7_entries
entries float_da = float_da_entries
entries float_da_5 = float_da_5_entries
entries float_db = float_db_entries
entries float_db_4 = float_db_4_entries
entries float_dc = float_dc_entries
entries float_dd = float_dd_entries
entries float_de = float_de_entries
entries float_de_3 = float_de_3_entries
entries float_df = float_df_entries
entries float_df_4 = float_df_4_entries
