-- ===== src/Decode/Tables/FloatLo.antt =====
-- target-i386/decode-table.c: the floating-point tables 0xd8 to 0xda.
use unitrans.Common.{List, [], ◌∷◌}
use unitrans.Decode.OpCode.{
  OpCode, op, null, function, table, emit_normal, inst_normal, inst_reserved, inst_float_d9_2,
  inst_float_d9_4, inst_float_d9_5, inst_float_d9_6, inst_float_d9_7, inst_float_da_5, float_d9_2,
  float_d9_4, float_d9_5, float_d9_6, float_d9_7, float_da_5,
}

unfoldable pub float_d8_entries : List OpCode
float_d8_entries =
    op 0x0 "fadd-sr" 2 4 0 0 0 0 (function emit_normal) inst_normal 1048577 0
    ∷ op 0x1 "fmul-sr" 2 4 0 0 0 0 (function emit_normal) inst_normal 1048577 0
    ∷ op 0x2 "fcom-sr" 2 4 0 0 0 0 (function emit_normal) inst_normal 1048577 0
    ∷ op 0x3 "fcomp-sr" 2 4 0 0 0 0 (function emit_normal) inst_normal 1048577 0
    ∷ op 0x4 "fsub-sr" 2 4 0 0 0 0 (function emit_normal) inst_normal 1048577 0
    ∷ op 0x5 "fsubr-sr" 2 4 0 0 0 0 (function emit_normal) inst_normal 1048577 0
    ∷ op 0x6 "fdiv-sr" 2 4 0 0 0 0 (function emit_normal) inst_normal 1048577 0
    ∷ op 0x7 "fdivr-sr" 2 4 0 0 0 0 (function emit_normal) inst_normal 1048577 0
    ∷ op 0x8 "fadd" 12 0 0 0 0 0 (function emit_normal) inst_normal 262144 0
    ∷ op 0x9 "fmul" 12 0 0 0 0 0 (function emit_normal) inst_normal 262144 0
    ∷ op 0xa "fcom" 12 0 0 0 0 0 (function emit_normal) inst_normal 262144 0
    ∷ op 0xb "fcomp" 12 0 0 0 0 0 (function emit_normal) inst_normal 262144 0
    ∷ op 0xc "fsub" 12 0 0 0 0 0 (function emit_normal) inst_normal 262144 0
    ∷ op 0xd "fsubr" 12 0 0 0 0 0 (function emit_normal) inst_normal 262144 0
    ∷ op 0xe "fdiv" 12 0 0 0 0 0 (function emit_normal) inst_normal 262144 0
    ∷ op 0xf "fdivr" 12 0 0 0 0 0 (function emit_normal) inst_normal 262144 0
    ∷ []

unfoldable pub float_d9_entries : List OpCode
float_d9_entries =
    op 0x0 "fld-sr" 2 4 0 0 0 0 (function emit_normal) inst_normal 1048577 0
    ∷ op 0x1 "reserved" 0 0 0 0 0 0 null inst_reserved 512 0
    ∷ op 0x2 "fst-sr" 2 4 0 0 0 0 (function emit_normal) inst_normal 1048577 0
    ∷ op 0x3 "fstp-sr" 2 4 0 0 0 0 (function emit_normal) inst_normal 1048577 0
    ∷ op 0x4 "fldenv-z" 2 9 0 0 0 0 (function emit_normal) inst_normal 1048577 0
    ∷ op 0x5 "fldcw-w" 2 3 0 0 0 0 (function emit_normal) inst_normal 1048577 0
    ∷ op 0x6 "fstenv-z" 2 9 0 0 0 0 (function emit_normal) inst_normal 1048577 0
    ∷ op 0x7 "fstcw-w" 2 3 0 0 0 0 (function emit_normal) inst_normal 1048577 0
    ∷ op 0x8 "fld" 12 0 0 0 0 0 (function emit_normal) inst_normal 262144 0
    ∷ op 0x9 "fxch" 12 0 0 0 0 0 (function emit_normal) inst_normal 262144 0
    ∷ op 0xa "(float)" 0 0 0 0 0 0 (table float_d9_2) inst_float_d9_2 131072 0
    ∷ op 0xb "reserved" 0 0 0 0 0 0 null inst_reserved 512 0
    ∷ op 0xc "(float)" 0 0 0 0 0 0 (table float_d9_4) inst_float_d9_4 131072 0
    ∷ op 0xd "(float)" 0 0 0 0 0 0 (table float_d9_5) inst_float_d9_5 131072 0
    ∷ op 0xe "(float)" 0 0 0 0 0 0 (table float_d9_6) inst_float_d9_6 131072 0
    ∷ op 0xf "(float)" 0 0 0 0 0 0 (table float_d9_7) inst_float_d9_7 131072 0
    ∷ []

unfoldable pub float_d9_2_entries : List OpCode
float_d9_2_entries =
    op 0x0 "fnop" 0 0 0 0 0 0 (function emit_normal) inst_normal 0 0
    ∷ op 0x1 "reserved" 0 0 0 0 0 0 null inst_reserved 512 0
    ∷ op 0x2 "reserved" 0 0 0 0 0 0 null inst_reserved 512 0
    ∷ op 0x3 "reserved" 0 0 0 0 0 0 null inst_reserved 512 0
    ∷ op 0x4 "reserved" 0 0 0 0 0 0 null inst_reserved 512 0
    ∷ op 0x5 "reserved" 0 0 0 0 0 0 null inst_reserved 512 0
    ∷ op 0x6 "reserved" 0 0 0 0 0 0 null inst_reserved 512 0
    ∷ op 0x7 "reserved" 0 0 0 0 0 0 null inst_reserved 512 0
    ∷ []

unfoldable pub float_d9_4_entries : List OpCode
float_d9_4_entries =
    op 0x0 "fchs" 0 0 0 0 0 0 (function emit_normal) inst_normal 0 0
    ∷ op 0x1 "fabs" 0 0 0 0 0 0 (function emit_normal) inst_normal 0 0
    ∷ op 0x2 "reserved" 0 0 0 0 0 0 null inst_reserved 512 0
    ∷ op 0x3 "reserved" 0 0 0 0 0 0 null inst_reserved 512 0
    ∷ op 0x4 "ftst" 0 0 0 0 0 0 (function emit_normal) inst_normal 0 0
    ∷ op 0x5 "fxam" 0 0 0 0 0 0 (function emit_normal) inst_normal 0 0
    ∷ op 0x6 "reserved" 0 0 0 0 0 0 null inst_reserved 512 0
    ∷ op 0x7 "reserved" 0 0 0 0 0 0 null inst_reserved 512 0
    ∷ []

unfoldable pub float_d9_5_entries : List OpCode
float_d9_5_entries =
    op 0x0 "fld1" 0 0 0 0 0 0 (function emit_normal) inst_normal 0 0
    ∷ op 0x1 "fldl2t" 0 0 0 0 0 0 (function emit_normal) inst_normal 0 0
    ∷ op 0x2 "fldl2e" 0 0 0 0 0 0 (function emit_normal) inst_normal 0 0
    ∷ op 0x3 "fldpi" 0 0 0 0 0 0 (function emit_normal) inst_normal 0 0
    ∷ op 0x4 "fldlg2" 0 0 0 0 0 0 (function emit_normal) inst_normal 0 0
    ∷ op 0x5 "fldln2" 0 0 0 0 0 0 (function emit_normal) inst_normal 0 0
    ∷ op 0x6 "fldz" 0 0 0 0 0 0 (function emit_normal) inst_normal 0 0
    ∷ op 0x7 "reserved" 0 0 0 0 0 0 null inst_reserved 512 0
    ∷ []

unfoldable pub float_d9_6_entries : List OpCode
float_d9_6_entries =
    op 0x0 "f2xm1" 0 0 0 0 0 0 (function emit_normal) inst_normal 0 0
    ∷ op 0x1 "fyl2x" 0 0 0 0 0 0 (function emit_normal) inst_normal 0 0
    ∷ op 0x2 "fptan" 0 0 0 0 0 0 (function emit_normal) inst_normal 0 0
    ∷ op 0x3 "fpatan" 0 0 0 0 0 0 (function emit_normal) inst_normal 0 0
    ∷ op 0x4 "fxtract" 0 0 0 0 0 0 (function emit_normal) inst_normal 0 0
    ∷ op 0x5 "fprem1" 0 0 0 0 0 0 (function emit_normal) inst_normal 0 0
    ∷ op 0x6 "fdecstp" 0 0 0 0 0 0 (function emit_normal) inst_normal 0 0
    ∷ op 0x7 "fincstp" 0 0 0 0 0 0 (function emit_normal) inst_normal 0 0
    ∷ []

unfoldable pub float_d9_7_entries : List OpCode
float_d9_7_entries =
    op 0x0 "fprem" 0 0 0 0 0 0 (function emit_normal) inst_normal 0 0
    ∷ op 0x1 "fyl2xp1" 0 0 0 0 0 0 (function emit_normal) inst_normal 0 0
    ∷ op 0x2 "fsqrt" 0 0 0 0 0 0 (function emit_normal) inst_normal 0 0
    ∷ op 0x3 "fsincos" 0 0 0 0 0 0 (function emit_normal) inst_normal 0 0
    ∷ op 0x4 "frndint" 0 0 0 0 0 0 (function emit_normal) inst_normal 0 0
    ∷ op 0x5 "fscale" 0 0 0 0 0 0 (function emit_normal) inst_normal 0 0
    ∷ op 0x6 "fsin" 0 0 0 0 0 0 (function emit_normal) inst_normal 0 0
    ∷ op 0x7 "fcos" 0 0 0 0 0 0 (function emit_normal) inst_normal 0 0
    ∷ []

unfoldable pub float_da_entries : List OpCode
float_da_entries =
    op 0x0 "fiadd-d" 2 4 0 0 0 0 (function emit_normal) inst_normal 1048577 0
    ∷ op 0x1 "fimul-d" 2 4 0 0 0 0 (function emit_normal) inst_normal 1048577 0
    ∷ op 0x2 "ficom-d" 2 4 0 0 0 0 (function emit_normal) inst_normal 1048577 0
    ∷ op 0x3 "ficomp-d" 2 4 0 0 0 0 (function emit_normal) inst_normal 1048577 0
    ∷ op 0x4 "fisub-d" 2 4 0 0 0 0 (function emit_normal) inst_normal 1048577 0
    ∷ op 0x5 "fisubr-d" 2 4 0 0 0 0 (function emit_normal) inst_normal 1048577 0
    ∷ op 0x6 "fidiv-d" 2 4 0 0 0 0 (function emit_normal) inst_normal 1048577 0
    ∷ op 0x7 "fidivr-d" 2 4 0 0 0 0 (function emit_normal) inst_normal 1048577 0
    ∷ op 0x8 "fcmovb" 12 0 0 0 0 0 (function emit_normal) inst_normal 262144 5
    ∷ op 0x9 "fcmove" 12 0 0 0 0 0 (function emit_normal) inst_normal 262144 5
    ∷ op 0xa "fcmovbe" 12 0 0 0 0 0 (function emit_normal) inst_normal 262144 5
    ∷ op 0xb "fcmovu" 12 0 0 0 0 0 (function emit_normal) inst_normal 262144 5
    ∷ op 0xc "reserved" 0 0 0 0 0 0 null inst_reserved 512 0
    ∷ op 0xd "(float)" 0 0 0 0 0 0 (table float_da_5) inst_float_da_5 131072 0
    ∷ op 0xe "reserved" 0 0 0 0 0 0 null inst_reserved 512 0
    ∷ op 0xf "reserved" 0 0 0 0 0 0 null inst_reserved 512 0
    ∷ []

unfoldable pub float_da_5_entries : List OpCode
float_da_5_entries =
    op 0x0 "reserved" 0 0 0 0 0 0 null inst_reserved 512 0
    ∷ op 0x1 "fucompp" 0 0 0 0 0 0 (function emit_normal) inst_normal 0 0
    ∷ op 0x2 "reserved" 0 0 0 0 0 0 null inst_reserved 512 0
    ∷ op 0x3 "reserved" 0 0 0 0 0 0 null inst_reserved 512 0
    ∷ op 0x4 "reserved" 0 0 0 0 0 0 null inst_reserved 512 0
    ∷ op 0x5 "reserved" 0 0 0 0 0 0 null inst_reserved 512 0
    ∷ op 0x6 "reserved" 0 0 0 0 0 0 null inst_reserved 512 0
    ∷ op 0x7 "reserved" 0 0 0 0 0 0 null inst_reserved 512 0
    ∷ []
