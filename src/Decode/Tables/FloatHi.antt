-- ===== src/Decode/Tables/FloatHi.antt =====
-- target-i386/decode-table.c: the floating-point tables 0xdb to 0xdf.
use unitrans.Common.{List, [], ◌∷◌}
use unitrans.Decode.OpCode.{
  OpCode, op, null, function, table, emit_normal, inst_normal, inst_reserved, inst_float_db_4,
  inst_float_de_3, inst_float_df_4, float_db_4, float_de_3, float_df_4,
}

unfoldable pub float_db_entries : List OpCode
float_db_entries =
    op 0x0 "fild-d" 2 4 0 0 0 0 (function emit_normal) inst_normal 1048577 0
    ∷ op 0x1 "reserved" 0 0 0 0 0 0 null inst_reserved 512 0
    ∷ op 0x2 "fist-d" 2 4 0 0 0 0 (function emit_normal) inst_normal 1048577 0
    ∷ op 0x3 "fistp-d" 2 4 0 0 0 0 (function emit_normal) inst_normal 1048577 0
    ∷ op 0x4 "reserved" 0 0 0 0 0 0 null inst_reserved 512 0
    ∷ op 0x5 "fld-er" 2 8 0 0 0 0 (function emit_normal) inst_normal 1048577 0
    ∷ op 0x6 "reserved" 0 0 0 0 0 0 null inst_reserved 512 0
    ∷ op 0x7 "fstp-er" 2 8 0 0 0 0 (function emit_normal) inst_normal 1048577 0
    ∷ op 0x8 "fcmovnb" 12 0 0 0 0 0 (function emit_normal) inst_normal 262144 5
    ∷ op 0x9 "fcmovne" 12 0 0 0 0 0 (function emit_normal) inst_normal 262144 5
    ∷ op 0xa "fcmovnbe" 12 0 0 0 0 0 (function emit_normal) inst_normal 262144 5
    ∷ op 0xb "fcmovnu" 12 0 0 0 0 0 (function emit_normal) inst_normal 262144 5
    ∷ op 0xc "(float)" 0 0 0 0 0 0 (table float_db_4) inst_float_db_4 131072 0
    ∷ op 0xd "fucomi" 12 0 0 0 0 0 (function emit_normal) inst_normal 262144 15
    ∷ op 0xe "fcomi" 12 0 0 0 0 0 (function emit_normal) inst_normal 262144 15
    ∷ op 0xf "reserved" 0 0 0 0 0 0 null inst_reserved 512 0
    ∷ []

unfoldable pub float_db_4_entries : List OpCode
float_db_4_entries =
    op 0x0 "reserved" 0 0 0 0 0 0 null inst_reserved 512 0
    ∷ op 0x1 "reserved" 0 0 0 0 0 0 null inst_reserved 512 0
    ∷ op 0x2 "fclex" 0 0 0 0 0 0 (function emit_normal) inst_normal 0 0
    ∷ op 0x3 "finit" 0 0 0 0 0 0 (function emit_normal) inst_normal 0 0
    ∷ op 0x4 "reserved" 0 0 0 0 0 0 null inst_reserved 512 0
    ∷ op 0x5 "reserved" 0 0 0 0 0 0 null inst_reserved 512 0
    ∷ op 0x6 "reserved" 0 0 0 0 0 0 null inst_reserved 512 0
    ∷ op 0x7 "reserved" 0 0 0 0 0 0 null inst_reserved 512 0
    ∷ []

unfoldable pub float_dc_entries : List OpCode
float_dc_entries =
    op 0x0 "fadd-dr" 2 7 0 0 0 0 (function emit_normal) inst_normal 1048577 0
    ∷ op 0x1 "fmul-dr" 2 7 0 0 0 0 (function emit_normal) inst_normal 1048577 0
    ∷ op 0x2 "fcom-dr" 2 7 0 0 0 0 (function emit_normal) inst_normal 1048577 0
    ∷ op 0x3 "fcomp-dr" 2 7 0 0 0 0 (function emit_normal) inst_normal 1048577 0
    ∷ op 0x4 "fsub-dr" 2 7 0 0 0 0 (function emit_normal) inst_normal 1048577 0
    ∷ op 0x5 "fsubr-dr" 2 7 0 0 0 0 (function emit_normal) inst_normal 1048577 0
    ∷ op 0x6 "fdiv-dr" 2 7 0 0 0 0 (function emit_normal) inst_normal 1048577 0
    ∷ op 0x7 "fdivr-dr" 2 7 0 0 0 0 (function emit_normal) inst_normal 1048577 0
    ∷ op 0x8 "fadd" 12 0 0 0 0 0 (function emit_normal) inst_normal 786432 0
    ∷ op 0x9 "fmul" 12 0 0 0 0 0 (function emit_normal) inst_normal 786432 0
    ∷ op 0xa "reserved" 0 0 0 0 0 0 null inst_reserved 512 0
    ∷ op 0xb "reserved" 0 0 0 0 0 0 null inst_reserved 512 0
    ∷ op 0xc "fsubr" 12 0 0 0 0 0 (function emit_normal) inst_normal 786432 0
    ∷ op 0xd "fsub" 12 0 0 0 0 0 (function emit_normal) inst_normal 786432 0
    ∷ op 0xe "fdivr" 12 0 0 0 0 0 (function emit_normal) inst_normal 786432 0
    ∷ op 0xf "fdiv" 12 0 0 0 0 0 (function emit_normal) inst_normal 786432 0
    ∷ []

unfoldable pub float_dd_entries : List OpCode
float_dd_entries =
    op 0x0 "fld-dr" 2 7 0 0 0 0 (function emit_normal) inst_normal 1048577 0
    ∷ op 0x1 "reserved" 0 0 0 0 0 0 null inst_reserved 512 0
    ∷ op 0x2 "fst-dr" 2 7 0 0 0 0 (function emit_normal) inst_normal 1048577 0
    ∷ op 0x3 "fstp-dr" 2 7 0 0 0 0 (function emit_normal) inst_normal 1048577 0
    ∷ op 0x4 "frstor-x" 2 7 0 0 0 0 (function emit_normal) inst_normal 1048577 0
    ∷ op 0x5 "reserved" 0 0 0 0 0 0 null inst_reserved 512 0
    ∷ op 0x6 "fsave-x" 2 7 0 0 0 0 (function emit_normal) inst_normal 1048577 0
    ∷ op 0x7 "fstsw-w" 2 3 0 0 0 0 (function emit_normal) inst_normal 1048577 0
    ∷ op 0x8 "ffree" 12 0 0 0 0 0 (function emit_normal) inst_normal 0 0
    ∷ op 0x9 "reserved" 0 0 0 0 0 0 null inst_reserved 512 0
    ∷ op 0xa "fst" 12 0 0 0 0 0 (function emit_normal) inst_normal 0 0
    ∷ op 0xb "fstp" 12 0 0 0 0 0 (function emit_normal) inst_normal 0 0
    ∷ op 0xc "fucom" 12 0 0 0 0 0 (function emit_normal) inst_normal 786432 0
    ∷ op 0xd "fucomp" 12 0 0 0 0 0 (function emit_normal) inst_normal 0 0
    ∷ op 0xe "reserved" 0 0 0 0 0 0 null inst_reserved 512 0
    ∷ op 0xf "reserved" 0 0 0 0 0 0 null inst_reserved 512 0
    ∷ []

unfoldable pub float_de_entries : List OpCode
float_de_entries =
    op 0x0 "fiadd-w" 2 3 0 0 0 0 (function emit_normal) inst_normal 1048577 0
    ∷ op 0x1 "fimul-w" 2 3 0 0 0 0 (function emit_normal) inst_normal 1048577 0
    ∷ op 0x2 "ficom-w" 2 3 0 0 0 0 (function emit_normal) inst_normal 1048577 0
    ∷ op 0x3 "ficomp-w" 2 3 0 0 0 0 (function emit_normal) inst_normal 1048577 0
    ∷ op 0x4 "fisub-w" 2 3 0 0 0 0 (function emit_normal) inst_normal 1048577 0
    ∷ op 0x5 "fisubr-w" 2 3 0 0 0 0 (function emit_normal) inst_normal 1048577 0
    ∷ op 0x6 "fidiv-w" 2 3 0 0 0 0 (function emit_normal) inst_normal 1048577 0
    ∷ op 0x7 "fidivr-w" 2 3 0 0 0 0 (function emit_normal) inst_normal 1048577 0
    ∷ op 0x8 "faddp" 12 0 0 0 0 0 (function emit_normal) inst_normal 786432 0
    ∷ op 0x9 "fmulp" 12 0 0 0 0 0 (function emit_normal) inst_normal 786432 0
    ∷ op 0xa "reserved" 0 0 0 0 0 0 null inst_reserved 512 0
    ∷ op 0xb "(float)" 0 0 0 0 0 0 (table float_de_3) inst_float_de_3 131072 0
    ∷ op 0xc "fsubrp" 12 0 0 0 0 0 (function emit_normal) inst_normal 786432 0
    ∷ op 0xd "fsubp" 12 0 0 0 0 0 (function emit_normal) inst_normal 786432 0
    ∷ op 0xe "fdivrp" 12 0 0 0 0 0 (function emit_normal) inst_normal 786432 0
    ∷ op 0xf "fdivp" 12 0 0 0 0 0 (function emit_normal) inst_normal 786432 0
    ∷ []

unfoldable pub float_de_3_entries : List OpCode
float_de_3_entries =
    op 0x0 "reserved" 0 0 0 0 0 0 null inst_reserved 512 0
    ∷ op 0x1 "fcompp" 0 0 0 0 0 0 (function emit_normal) inst_normal 0 0
    ∷ op 0x2 "reserved" 0 0 0 0 0 0 null inst_reserved 512 0
    ∷ op 0x3 "reserved" 0 0 0 0 0 0 null inst_reserved 512 0
    ∷ op 0x4 "reserved" 0 0 0 0 0 0 null inst_reserved 512 0
    ∷ op 0x5 "reserved" 0 0 0 0 0 0 null inst_reserved 512 0
    ∷ op 0x6 "reserved" 0 0 0 0 0 0 null inst_reserved 512 0
    ∷ op 0x7 "reserved" 0 0 0 0 0 0 null inst_reserved 512 0
    ∷ []

unfoldable pub float_df_entries : List OpCode
float_df_entries =
    op 0x0 "fild-w" 2 3 0 0 0 0 (function emit_normal) inst_normal 1048577 0
    ∷ op 0x1 "reserved" 0 0 0 0 0 0 null inst_reserved 512 0
    ∷ op 0x2 "fist-w" 2 3 0 0 0 0 (function emit_normal) inst_normal 1048577 0
    ∷ op 0x3 "fistp-w" 2 3 0 0 0 0 (function emit_normal) inst_normal 1048577 0
    ∷ op 0x4 "fbld-y" 2 8 0 0 0 0 (function emit_normal) inst_normal 1048577 0
    ∷ op 0x5 "fild-q" 2 7 0 0 0 0 (function emit_normal) inst_normal 1048577 0
    ∷ op 0x6 "fbstp-y" 2 8 0 0 0 0 (function emit_normal) inst_normal 1048577 0
    ∷ op 0x7 "fistp-q" 2 7 0 0 0 0 (function emit_normal) inst_normal 1048577 0
    ∷ op 0x8 "reserved" 0 0 0 0 0 0 null inst_reserved 512 0
    ∷ op 0x9 "reserved" 0 0 0 0 0 0 null inst_reserved 512 0
    ∷ op 0xa "reserved" 0 0 0 0 0 0 null inst_reserved 512 0
    ∷ op 0xb "reserved" 0 0 0 0 0 0 null inst_reserved 512 0
    ∷ op 0xc "(float)" 0 0 0 0 0 0 (table float_df_4) inst_float_df_4 131072 0
    ∷ op 0xd "fucomip" 12 0 0 0 0 0 (function emit_normal) inst_normal 262144 15
    ∷ op 0xe "fcomip" 12 0 0 0 0 0 (function emit_normal) inst_normal 262144 15
    ∷ op 0xf "reserved" 0 0 0 0 0 0 null inst_reserved 512 0
    ∷ []

unfoldable pub float_df_4_entries : List OpCode
float_df_4_entries =
    op 0x0 "fstsw-ax" 0 0 0 0 0 0 (function emit_normal) inst_normal 0 0
    ∷ op 0x1 "reserved" 0 0 0 0 0 0 null inst_reserved 512 0
    ∷ op 0x2 "reserved" 0 0 0 0 0 0 null inst_reserved 512 0
    ∷ op 0x3 "reserved" 0 0 0 0 0 0 null inst_reserved 512 0
    ∷ op 0x4 "reserved" 0 0 0 0 0 0 null inst_reserved 512 0
    ∷ op 0x5 "reserved" 0 0 0 0 0 0 null inst_reserved 512 0
    ∷ op 0x6 "reserved" 0 0 0 0 0 0 null inst_reserved 512 0
    ∷ op 0x7 "reserved" 0 0 0 0 0 0 null inst_reserved 512 0
    ∷ []
