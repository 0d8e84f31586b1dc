-- ===== src/Decode/Tables/OneByteHi.antt =====
-- target-i386/decode-table.c: the one-byte opcodes 0x80 to 0xff.
use unitrans.Common.{List, [], ◌∷◌}
use unitrans.Decode.OpCode.{
  OpCode, op, null, function, table, emit_call_disp, emit_int, emit_jmp, emit_normal,
  emit_other_jcond, emit_ret, emit_ret_iw, inst_normal, inst_call, inst_jmp, inst_other_jcond,
  inst_ret, inst_ret_iw, inst_int, inst_reserved, inst_group1_eb_ib, inst_group1_ev_iv,
  inst_group1_ev_ib, inst_group2_eb_1, inst_group2_ev_1, inst_group2_eb_cl, inst_group2_ev_cl,
  inst_group2a_eb_ib, inst_group2a_ev_ib, inst_group3b, inst_group3v, inst_ngroup4, inst_ngroup5,
  inst_prefix, inst_float_d8, inst_float_d9, inst_float_da, inst_float_db, inst_float_dc,
  inst_float_dd, inst_float_de, inst_float_df, group1_eb_ib, group1_ev_iv, group1_ev_ib,
  group2a_eb_ib, group2a_ev_ib, group2_eb_1, group2_ev_1, group2_eb_cl, group2_ev_cl, group3b,
  group3v, ngroup4, ngroup5, float_d8, float_d9, float_da, float_db, float_dc, float_dd, float_de,
  float_df,
}

unfoldable pub nopbyte0_80_bf : List OpCode
nopbyte0_80_bf =
    op 0x80 "(group)" 0 0 0 0 0 0 (table group1_eb_ib) inst_group1_eb_ib 2048 0
    ∷ op 0x81 "(group)" 0 0 0 0 0 0 (table group1_ev_iv) inst_group1_ev_iv 2048 0
    ∷ op 0x82 "(group)" 0 0 0 0 0 0 (table group1_eb_ib) inst_group1_eb_ib 2048 0
    ∷ op 0x83 "(group)" 0 0 0 0 0 0 (table group1_ev_ib) inst_group1_ev_ib 2048 0
    ∷ op 0x84 "testB" 2 1 3 1 0 0 (function emit_normal) inst_normal 1048577 10
    ∷ op 0x85 "testL" 2 2 3 2 0 0 (function emit_normal) inst_normal 3145729 10
    ∷ op 0x86 "xchgB" 2 1 3 1 0 0 (function emit_normal) inst_normal 1048577 0
    ∷ op 0x87 "xchgL" 2 2 3 2 0 0 (function emit_normal) inst_normal 3145729 0
    ∷ op 0x88 "movB" 2 1 3 1 0 0 (function emit_normal) inst_normal 1048577 0
    ∷ op 0x89 "movL" 2 2 3 2 0 0 (function emit_normal) inst_normal 3145729 0
    ∷ op 0x8a "movB" 3 1 2 1 0 0 (function emit_normal) inst_normal 1048577 0
    ∷ op 0x8b "movL" 3 2 2 2 0 0 (function emit_normal) inst_normal 3145729 0
    ∷ op 0x8c "movL" 2 3 9 3 0 0 (function emit_normal) inst_normal 3145729 0
    ∷ op 0x8d "lea" 3 2 2 0 0 0 (function emit_normal) inst_normal 3145729 0
    ∷ op 0x8e "movL" 9 3 2 3 0 0 (function emit_normal) inst_normal 3145729 0
    ∷ op 0x8f "popL" 2 2 0 0 0 0 (function emit_normal) inst_normal 3145729 0
    ∷ op 0x90 "nop" 0 0 0 0 0 0 (function emit_normal) inst_normal 2097152 0
    ∷ op 0x91 "xchgL" 1 146 1 144 0 0 (function emit_normal) inst_normal 2097152 0
    ∷ op 0x92 "xchgL" 1 147 1 144 0 0 (function emit_normal) inst_normal 2097152 0
    ∷ op 0x93 "xchgL" 1 145 1 144 0 0 (function emit_normal) inst_normal 2097152 0
    ∷ op 0x94 "xchgL" 1 148 1 144 0 0 (function emit_normal) inst_normal 2097152 0
    ∷ op 0x95 "xchgL" 1 149 1 144 0 0 (function emit_normal) inst_normal 2097152 0
    ∷ op 0x96 "xchgL" 1 151 1 144 0 0 (function emit_normal) inst_normal 2097152 0
    ∷ op 0x97 "xchgL" 1 150 1 144 0 0 (function emit_normal) inst_normal 2097152 0
    ∷ op 0x98 "cWD" 0 0 0 0 0 0 (function emit_normal) inst_normal 2097152 0
    ∷ op 0x99 "cDQ" 0 0 0 0 0 0 (function emit_normal) inst_normal 2097152 0
    ∷ op 0x9a "call" 10 5 0 0 0 0 (function emit_normal) inst_normal 2129920 0
    ∷ op 0x9b "wait" 0 0 0 0 0 0 (function emit_normal) inst_normal 0 0
    ∷ op 0x9c "pushf" 0 0 0 0 0 0 (function emit_normal) inst_normal 2097152 5
    ∷ op 0x9d "popf" 0 0 0 0 0 0 (function emit_normal) inst_normal 2097152 10
    ∷ op 0x9e "sahf" 0 0 0 0 0 0 (function emit_normal) inst_normal 0 10
    ∷ op 0x9f "lahf" 0 0 0 0 0 0 (function emit_normal) inst_normal 0 0
    ∷ op 0xa0 "movB" 1 129 11 1 0 0 (function emit_normal) inst_normal 1048640 0
    ∷ op 0xa1 "movL" 1 144 11 2 0 0 (function emit_normal) inst_normal 3145856 0
    ∷ op 0xa2 "movB" 11 1 1 129 0 0 (function emit_normal) inst_normal 1048640 0
    ∷ op 0xa3 "movL" 11 2 1 144 0 0 (function emit_normal) inst_normal 3145856 0
    ∷ op 0xa4 "movsB" 5 150 6 151 0 0 (function emit_normal) inst_normal 1048576 5
    ∷ op 0xa5 "movsL" 5 150 6 151 0 0 (function emit_normal) inst_normal 3145728 5
    ∷ op 0xa6 "cmpsB" 6 151 5 150 0 0 (function emit_normal) inst_normal 1048576 10
    ∷ op 0xa7 "cmpsL" 6 151 5 150 0 0 (function emit_normal) inst_normal 3145728 10
    ∷ op 0xa8 "testB" 1 129 4 1 0 0 (function emit_normal) inst_normal 2 10
    ∷ op 0xa9 "testL" 1 144 4 2 0 0 (function emit_normal) inst_normal 2097160 10
    ∷ op 0xaa "stosB" 5 150 1 129 0 0 (function emit_normal) inst_normal 1048576 5
    ∷ op 0xab "stosL" 5 150 1 144 0 0 (function emit_normal) inst_normal 3145728 5
    ∷ op 0xac "lodsB" 1 129 6 151 0 0 (function emit_normal) inst_normal 1048576 0
    ∷ op 0xad "lodsL" 1 144 6 151 0 0 (function emit_normal) inst_normal 3145728 0
    ∷ op 0xae "scasB" 1 129 5 150 0 0 (function emit_normal) inst_normal 1048576 15
    ∷ op 0xaf "scasL" 1 144 5 150 0 0 (function emit_normal) inst_normal 3145728 15
    ∷ op 0xb0 "movB" 1 129 4 1 0 0 (function emit_normal) inst_normal 2 0
    ∷ op 0xb1 "movB" 1 133 4 1 0 0 (function emit_normal) inst_normal 2 0
    ∷ op 0xb2 "movB" 1 135 4 1 0 0 (function emit_normal) inst_normal 2 0
    ∷ op 0xb3 "movB" 1 131 4 1 0 0 (function emit_normal) inst_normal 2 0
    ∷ op 0xb4 "movB" 1 128 4 1 0 0 (function emit_normal) inst_normal 2 0
    ∷ op 0xb5 "movB" 1 132 4 1 0 0 (function emit_normal) inst_normal 2 0
    ∷ op 0xb6 "movB" 1 134 4 1 0 0 (function emit_normal) inst_normal 2 0
    ∷ op 0xb7 "movB" 1 130 4 1 0 0 (function emit_normal) inst_normal 2 0
    ∷ op 0xb8 "movL" 1 144 4 2 0 0 (function emit_normal) inst_normal 2097160 0
    ∷ op 0xb9 "movL" 1 146 4 2 0 0 (function emit_normal) inst_normal 2097160 0
    ∷ op 0xba "movL" 1 147 4 2 0 0 (function emit_normal) inst_normal 2097160 0
    ∷ op 0xbb "movL" 1 145 4 2 0 0 (function emit_normal) inst_normal 2097160 0
    ∷ op 0xbc "movL" 1 148 4 2 0 0 (function emit_normal) inst_normal 2097160 0
    ∷ op 0xbd "movL" 1 149 4 2 0 0 (function emit_normal) inst_normal 2097160 0
    ∷ op 0xbe "movL" 1 151 4 2 0 0 (function emit_normal) inst_normal 2097160 0
    ∷ op 0xbf "movL" 1 150 4 2 0 0 (function emit_normal) inst_normal 2097160 0
    ∷ []

unfoldable pub nopbyte0_c0_ff : List OpCode
nopbyte0_c0_ff =
    op 0xc0 "(group)" 0 0 0 0 0 0 (table group2a_eb_ib) inst_group2a_eb_ib 2048 0
    ∷ op 0xc1 "(group)" 0 0 0 0 0 0 (table group2a_ev_ib) inst_group2a_ev_ib 2048 0
    ∷ op 0xc2 "retL" 4 3 0 0 0 0 (function emit_ret_iw) inst_ret_iw 10502144 0
    ∷ op 0xc3 "retL" 0 0 0 0 0 0 (function emit_ret) inst_ret 10485760 0
    ∷ op 0xc4 "les" 3 2 2 5 0 0 (function emit_normal) inst_normal 3145729 0
    ∷ op 0xc5 "lds" 3 2 2 5 0 0 (function emit_normal) inst_normal 3145729 0
    ∷ op 0xc6 "movB" 2 1 4 1 0 0 (function emit_normal) inst_normal 1048579 0
    ∷ op 0xc7 "movL" 2 2 4 2 0 0 (function emit_normal) inst_normal 3145737 0
    ∷ op 0xc8 "enter" 4 3 4 1 0 0 (function emit_normal) inst_normal 16386 0
    ∷ op 0xc9 "leaveL" 0 0 0 0 0 0 (function emit_normal) inst_normal 2097152 0
    ∷ op 0xca "lret" 4 3 0 0 0 0 (function emit_normal) inst_normal 2113536 0
    ∷ op 0xcb "lret" 0 0 0 0 0 0 (function emit_normal) inst_normal 2097152 0
    ∷ op 0xcc "int3" 0 0 0 0 0 0 (function emit_normal) inst_normal 0 15
    ∷ op 0xcd "int" 4 1 0 0 0 0 (function emit_int) inst_int 2 15
    ∷ op 0xce "into" 0 0 0 0 0 0 (function emit_normal) inst_normal 0 15
    ∷ op 0xcf "iret" 0 0 0 0 0 0 (function emit_normal) inst_normal 2097152 15
    ∷ op 0xd0 "(group)" 0 0 0 0 0 0 (table group2_eb_1) inst_group2_eb_1 2048 0
    ∷ op 0xd1 "(group)" 0 0 0 0 0 0 (table group2_ev_1) inst_group2_ev_1 2048 0
    ∷ op 0xd2 "(group)" 0 0 0 0 0 0 (table group2_eb_cl) inst_group2_eb_cl 2048 0
    ∷ op 0xd3 "(group)" 0 0 0 0 0 0 (table group2_ev_cl) inst_group2_ev_cl 2048 0
    ∷ op 0xd4 "aam" 4 1 0 0 0 0 (function emit_normal) inst_normal 2 10
    ∷ op 0xd5 "aad" 4 1 0 0 0 0 (function emit_normal) inst_normal 2 10
    ∷ op 0xd6 "reserved" 0 0 0 0 0 0 null inst_reserved 512 0
    ∷ op 0xd7 "xlat" 0 0 0 0 0 0 (function emit_normal) inst_normal 1048576 0
    ∷ op 0xd8 "(float)" 0 0 0 0 0 0 (table float_d8) inst_float_d8 65536 0
    ∷ op 0xd9 "(float)" 0 0 0 0 0 0 (table float_d9) inst_float_d9 65536 0
    ∷ op 0xda "(float)" 0 0 0 0 0 0 (table float_da) inst_float_da 65536 0
    ∷ op 0xdb "(float)" 0 0 0 0 0 0 (table float_db) inst_float_db 65536 0
    ∷ op 0xdc "(float)" 0 0 0 0 0 0 (table float_dc) inst_float_dc 65536 0
    ∷ op 0xdd "(float)" 0 0 0 0 0 0 (table float_dd) inst_float_dd 65536 0
    ∷ op 0xde "(float)" 0 0 0 0 0 0 (table float_de) inst_float_de 65536 0
    ∷ op 0xdf "(float)" 0 0 0 0 0 0 (table float_df) inst_float_df 65536 0
    ∷ op 0xe0 "loopne" 7 1 0 0 0 0 (function emit_other_jcond) inst_other_jcond 11534338 5
    ∷ op 0xe1 "loope" 7 1 0 0 0 0 (function emit_other_jcond) inst_other_jcond 11534338 5
    ∷ op 0xe2 "loop" 7 1 0 0 0 0 (function emit_other_jcond) inst_other_jcond 11534338 0
    ∷ op 0xe3 "jcxz" 7 1 0 0 0 0 (function emit_other_jcond) inst_other_jcond 11534338 0
    ∷ op 0xe4 "inB" 1 129 4 1 0 0 (function emit_normal) inst_normal 2 0
    ∷ op 0xe5 "inL" 1 144 4 1 0 0 (function emit_normal) inst_normal 2097154 0
    ∷ op 0xe6 "outB" 4 1 1 129 0 0 (function emit_normal) inst_normal 2 0
    ∷ op 0xe7 "outL" 4 1 1 144 0 0 (function emit_normal) inst_normal 2097154 0
    ∷ op 0xe8 "callL" 7 2 0 0 0 0 (function emit_call_disp) inst_call 10485776 0
    ∷ op 0xe9 "jmpL" 7 2 0 0 0 0 (function emit_jmp) inst_jmp 10485776 0
    ∷ op 0xea "ljmp" 10 5 0 0 0 0 (function emit_normal) inst_normal 2129920 0
    ∷ op 0xeb "jmp" 7 1 0 0 0 0 (function emit_jmp) inst_jmp 10485762 0
    ∷ op 0xec "inB" 1 129 1 137 0 0 (function emit_normal) inst_normal 0 0
    ∷ op 0xed "inL" 1 144 1 137 0 0 (function emit_normal) inst_normal 2097152 0
    ∷ op 0xee "outB" 1 137 1 129 0 0 (function emit_normal) inst_normal 0 0
    ∷ op 0xef "outL" 1 137 1 144 0 0 (function emit_normal) inst_normal 2097152 0
    ∷ op 0xf0 "lock" 0 0 0 0 0 0 null inst_prefix 256 0
    ∷ op 0xf1 "reserved" 0 0 0 0 0 0 null inst_reserved 512 0
    ∷ op 0xf2 "repne" 0 0 0 0 0 0 null inst_prefix 256 0
    ∷ op 0xf3 "rep" 0 0 0 0 0 0 null inst_prefix 256 0
    ∷ op 0xf4 "hlt" 0 0 0 0 0 0 (function emit_normal) inst_normal 0 0
    ∷ op 0xf5 "cmc" 0 0 0 0 0 0 (function emit_normal) inst_normal 0 3
    ∷ op 0xf6 "(group)" 0 0 0 0 0 0 (table group3b) inst_group3b 2048 0
    ∷ op 0xf7 "(group)" 0 0 0 0 0 0 (table group3v) inst_group3v 2048 0
    ∷ op 0xf8 "clc" 0 0 0 0 0 0 (function emit_normal) inst_normal 0 2
    ∷ op 0xf9 "stc" 0 0 0 0 0 0 (function emit_normal) inst_normal 0 10
    ∷ op 0xfa "cli" 0 0 0 0 0 0 (function emit_normal) inst_normal 0 10
    ∷ op 0xfb "sti" 0 0 0 0 0 0 (function emit_normal) inst_normal 0 10
    ∷ op 0xfc "cld" 0 0 0 0 0 0 (function emit_normal) inst_normal 0 10
    ∷ op 0xfd "std" 0 0 0 0 0 0 (function emit_normal) inst_normal 0 10
    ∷ op 0xfe "(group)" 0 0 0 0 0 0 (table ngroup4) inst_ngroup4 2048 0
    ∷ op 0xff "(group)" 0 0 0 0 0 0 (table ngroup5) inst_ngroup5 2048 0
    ∷ []
