-- ===== src/Decode/Tables/TwoByteHi.antt =====
-- target-i386/decode-table.c: the two-byte opcodes 0x80 to 0xff.
use unitrans.Common.{List, [], ◌∷◌}
use unitrans.Decode.OpCode.{
  OpCode, op, null, function, table, emit_jcond, emit_normal, inst_normal, inst_jcond,
  inst_reserved, inst_ngroup9, inst_group8_ev_ib, group8_ev_ib, ngroup9,
}

unfoldable pub two_byte_opcodes_80_bf : List OpCode
two_byte_opcodes_80_bf =
    op 0x80 "jo" 7 2 0 0 0 0 (function emit_jcond) inst_jcond 10485776 5
    ∷ op 0x81 "jno" 7 2 0 0 0 0 (function emit_jcond) inst_jcond 10485776 5
    ∷ op 0x82 "jb" 7 2 0 0 0 0 (function emit_jcond) inst_jcond 10485776 5
    ∷ op 0x83 "jae" 7 2 0 0 0 0 (function emit_jcond) inst_jcond 10485776 5
    ∷ op 0x84 "je" 7 2 0 0 0 0 (function emit_jcond) inst_jcond 10485776 5
    ∷ op 0x85 "jne" 7 2 0 0 0 0 (function emit_jcond) inst_jcond 10485776 5
    ∷ op 0x86 "jbe" 7 2 0 0 0 0 (function emit_jcond) inst_jcond 10485776 5
    ∷ op 0x87 "ja" 7 2 0 0 0 0 (function emit_jcond) inst_jcond 10485776 5
    ∷ op 0x88 "js" 7 2 0 0 0 0 (function emit_jcond) inst_jcond 10485776 5
    ∷ op 0x89 "jns" 7 2 0 0 0 0 (function emit_jcond) inst_jcond 10485776 5
    ∷ op 0x8a "jp" 7 2 0 0 0 0 (function emit_jcond) inst_jcond 10485776 5
    ∷ op 0x8b "jnp" 7 2 0 0 0 0 (function emit_jcond) inst_jcond 10485776 5
    ∷ op 0x8c "jl" 7 2 0 0 0 0 (function emit_jcond) inst_jcond 10485776 5
    ∷ op 0x8d "jge" 7 2 0 0 0 0 (function emit_jcond) inst_jcond 10485776 5
    ∷ op 0x8e "jle" 7 2 0 0 0 0 (function emit_jcond) inst_jcond 10485776 5
    ∷ op 0x8f "jg" 7 2 0 0 0 0 (function emit_jcond) inst_jcond 10485776 5
    ∷ op 0x90 "setoB" 2 1 0 0 0 0 (function emit_normal) inst_normal 1048577 5
    ∷ op 0x91 "setnoB" 2 1 0 0 0 0 (function emit_normal) inst_normal 1048577 5
    ∷ op 0x92 "setbB" 2 1 0 0 0 0 (function emit_normal) inst_normal 1048577 5
    ∷ op 0x93 "setnbB" 2 1 0 0 0 0 (function emit_normal) inst_normal 1048577 5
    ∷ op 0x94 "setzB" 2 1 0 0 0 0 (function emit_normal) inst_normal 1048577 5
    ∷ op 0x95 "setnzB" 2 1 0 0 0 0 (function emit_normal) inst_normal 1048577 5
    ∷ op 0x96 "setbeB" 2 1 0 0 0 0 (function emit_normal) inst_normal 1048577 5
    ∷ op 0x97 "setnbeB" 2 1 0 0 0 0 (function emit_normal) inst_normal 1048577 5
    ∷ op 0x98 "setsB" 2 1 0 0 0 0 (function emit_normal) inst_normal 1048577 5
    ∷ op 0x99 "setnsB" 2 1 0 0 0 0 (function emit_normal) inst_normal 1048577 5
    ∷ op 0x9a "setpB" 2 1 0 0 0 0 (function emit_normal) inst_normal 1048577 5
    ∷ op 0x9b "setnpB" 2 1 0 0 0 0 (function emit_normal) inst_normal 1048577 5
    ∷ op 0x9c "setlB" 2 1 0 0 0 0 (function emit_normal) inst_normal 1048577 5
    ∷ op 0x9d "setnlB" 2 1 0 0 0 0 (function emit_normal) inst_normal 1048577 5
    ∷ op 0x9e "setleB" 2 1 0 0 0 0 (function emit_normal) inst_normal 1048577 5
    ∷ op 0x9f "setnleB" 2 1 0 0 0 0 (function emit_normal) inst_normal 1048577 5
    ∷ op 0xa0 "push" 8 4 0 0 0 0 (function emit_normal) inst_normal 2097152 0
    ∷ op 0xa1 "pop" 8 4 0 0 0 0 (function emit_normal) inst_normal 2097152 0
    ∷ op 0xa2 "cpuid" 0 0 0 0 0 0 (function emit_normal) inst_normal 0 0
    ∷ op 0xa3 "btL" 2 2 3 2 0 0 (function emit_normal) inst_normal 3145729 10
    ∷ op 0xa4 "shldL" 2 2 3 2 4 1 (function emit_normal) inst_normal 3145731 10
    ∷ op 0xa5 "shldL" 2 2 3 2 1 133 (function emit_normal) inst_normal 3145729 10
    ∷ op 0xa6 "reserved" 0 0 0 0 0 0 null inst_reserved 512 0
    ∷ op 0xa7 "reserved" 0 0 0 0 0 0 null inst_reserved 512 0
    ∷ op 0xa8 "push" 8 5 0 0 0 0 (function emit_normal) inst_normal 2097152 0
    ∷ op 0xa9 "pop" 8 5 0 0 0 0 (function emit_normal) inst_normal 2097152 0
    ∷ op 0xaa "rsm" 0 0 0 0 0 0 (function emit_normal) inst_normal 0 10
    ∷ op 0xab "btsL" 2 2 3 2 0 0 (function emit_normal) inst_normal 3145729 10
    ∷ op 0xac "shrdL" 2 2 3 2 4 1 (function emit_normal) inst_normal 3145731 10
    ∷ op 0xad "shrdL" 2 2 3 2 1 133 (function emit_normal) inst_normal 3145729 10
    ∷ op 0xae "MMX/SSE/SSE2" 2 0 0 0 0 0 (function emit_normal) inst_normal 1048577 0
    ∷ op 0xaf "imulL" 3 2 2 2 0 0 (function emit_normal) inst_normal 3145729 10
    ∷ op 0xb0 "cmpxchgB" 2 1 3 1 0 0 (function emit_normal) inst_normal 1048577 15
    ∷ op 0xb1 "cmpxchgL" 2 2 3 2 0 0 (function emit_normal) inst_normal 3145729 10
    ∷ op 0xb2 "lss" 3 2 2 5 0 0 (function emit_normal) inst_normal 3145729 0
    ∷ op 0xb3 "btr" 2 2 3 2 0 0 (function emit_normal) inst_normal 3145729 10
    ∷ op 0xb4 "lfs" 3 2 2 5 0 0 (function emit_normal) inst_normal 3145729 0
    ∷ op 0xb5 "lgs" 3 2 2 5 0 0 (function emit_normal) inst_normal 3145729 0
    ∷ op 0xb6 "movzbL" 3 2 2 1 0 0 (function emit_normal) inst_normal 3145729 0
    ∷ op 0xb7 "movzwL" 3 2 2 3 0 0 (function emit_normal) inst_normal 1048577 0
    ∷ op 0xb8 "reserved" 0 0 0 0 0 0 null inst_reserved 512 0
    ∷ op 0xb9 "reserved" 0 0 0 0 0 0 null inst_reserved 512 0
    ∷ op 0xba "(group)" 0 0 0 0 0 0 (table group8_ev_ib) inst_group8_ev_ib 2048 0
    ∷ op 0xbb "btcL" 2 2 3 2 0 0 (function emit_normal) inst_normal 3145729 10
    ∷ op 0xbc "bsfL" 3 2 2 2 0 0 (function emit_normal) inst_normal 3145729 10
    ∷ op 0xbd "bsrL" 3 2 2 2 0 0 (function emit_normal) inst_normal 3145729 10
    ∷ op 0xbe "movsxL" 3 2 2 1 0 0 (function emit_normal) inst_normal 3145729 0
    ∷ op 0xbf "movsxL" 3 2 2 3 0 0 (function emit_normal) inst_normal 1048577 0
    ∷ []

unfoldable pub two_byte_opcodes_c0_ff : List OpCode
two_byte_opcodes_c0_ff =
    op 0xc0 "xaddB" 2 1 3 1 0 0 (function emit_normal) inst_normal 1048577 10
    ∷ op 0xc1 "xaddL" 2 2 3 2 0 0 (function emit_normal) inst_normal 3145729 10
    ∷ op 0xc2 "MMX/SSE/SSE2" 2 0 4 1 0 0 (function emit_normal) inst_normal 1048579 0
    ∷ op 0xc3 "MMX/SSE/SSE2" 2 0 0 0 0 0 (function emit_normal) inst_normal 1048577 0
    ∷ op 0xc4 "MMX/SSE/SSE2" 2 0 4 1 0 0 (function emit_normal) inst_normal 1048579 0
    ∷ op 0xc5 "MMX/SSE/SSE2" 2 0 4 1 0 0 (function emit_normal) inst_normal 1048579 0
    ∷ op 0xc6 "MMX/SSE/SSE2" 2 0 4 1 0 0 (function emit_normal) inst_normal 1048579 0
    ∷ op 0xc7 "(group)" 0 0 0 0 0 0 (table ngroup9) inst_ngroup9 2048 0
    ∷ op 0xc8 "bswap" 1 144 0 0 0 0 (function emit_normal) inst_normal 0 0
    ∷ op 0xc9 "bswap" 1 146 0 0 0 0 (function emit_normal) inst_normal 0 0
    ∷ op 0xca "bswap" 1 147 0 0 0 0 (function emit_normal) inst_normal 0 0
    ∷ op 0xcb "bswap" 1 145 0 0 0 0 (function emit_normal) inst_normal 0 0
    ∷ op 0xcc "bswap" 1 148 0 0 0 0 (function emit_normal) inst_normal 0 0
    ∷ op 0xcd "bswap" 1 149 0 0 0 0 (function emit_normal) inst_normal 0 0
    ∷ op 0xce "bswap" 1 151 0 0 0 0 (function emit_normal) inst_normal 0 0
    ∷ op 0xcf "bswap" 1 150 0 0 0 0 (function emit_normal) inst_normal 0 0
    ∷ op 0xd0 "reserved" 0 0 0 0 0 0 null inst_reserved 512 0
    ∷ op 0xd1 "MMX/SSE/SSE2" 2 0 0 0 0 0 (function emit_normal) inst_normal 1048577 0
    ∷ op 0xd2 "MMX/SSE/SSE2" 2 0 0 0 0 0 (function emit_normal) inst_normal 1048577 0
    ∷ op 0xd3 "MMX/SSE/SSE2" 2 0 0 0 0 0 (function emit_normal) inst_normal 1048577 0
    ∷ op 0xd4 "MMX/SSE/SSE2" 2 0 0 0 0 0 (function emit_normal) inst_normal 1048577 0
    ∷ op 0xd5 "MMX/SSE/SSE2" 2 0 0 0 0 0 (function emit_normal) inst_normal 1048577 0
    ∷ op 0xd6 "MMX/SSE/SSE2" 2 0 0 0 0 0 (function emit_normal) inst_normal 1048577 0
    ∷ op 0xd7 "MMX/SSE/SSE2" 2 0 0 0 0 0 (function emit_normal) inst_normal 1048577 0
    ∷ op 0xd8 "MMX/SSE/SSE2" 2 0 0 0 0 0 (function emit_normal) inst_normal 1048577 0
    ∷ op 0xd9 "MMX/SSE/SSE2" 2 0 0 0 0 0 (function emit_normal) inst_normal 1048577 0
    ∷ op 0xda "MMX/SSE/SSE2" 2 0 0 0 0 0 (function emit_normal) inst_normal 1048577 0
    ∷ op 0xdb "MMX/SSE/SSE2" 2 0 0 0 0 0 (function emit_normal) inst_normal 1048577 0
    ∷ op 0xdc "MMX/SSE/SSE2" 2 0 0 0 0 0 (function emit_normal) inst_normal 1048577 0
    ∷ op 0xdd "MMX/SSE/SSE2" 2 0 0 0 0 0 (function emit_normal) inst_normal 1048577 0
    ∷ op 0xde "MMX/SSE/SSE2" 2 0 0 0 0 0 (function emit_normal) inst_normal 1048577 0
    ∷ op 0xdf "MMX/SSE/SSE2" 2 0 0 0 0 0 (function emit_normal) inst_normal 1048577 0
    ∷ op 0xe0 "MMX/SSE/SSE2" 2 0 0 0 0 0 (function emit_normal) inst_normal 1048577 0
    ∷ op 0xe1 "MMX/SSE/SSE2" 2 0 0 0 0 0 (function emit_normal) inst_normal 1048577 0
    ∷ op 0xe2 "MMX/SSE/SSE2" 2 0 0 0 0 0 (function emit_normal) inst_normal 1048577 0
    ∷ op 0xe3 "MMX/SSE/SSE2" 2 0 0 0 0 0 (function emit_normal) inst_normal 1048577 0
    ∷ op 0xe4 "MMX/SSE/SSE2" 2 0 0 0 0 0 (function emit_normal) inst_normal 1048577 0
    ∷ op 0xe5 "MMX/SSE/SSE2" 2 0 0 0 0 0 (function emit_normal) inst_normal 1048577 0
    ∷ op 0xe6 "MMX/SSE/SSE2" 2 0 0 0 0 0 (function emit_normal) inst_normal 1048577 0
    ∷ op 0xe7 "MMX/SSE/SSE2" 2 0 0 0 0 0 (function emit_normal) inst_normal 1048577 0
    ∷ op 0xe8 "MMX/SSE/SSE2" 2 0 0 0 0 0 (function emit_normal) inst_normal 1048577 0
    ∷ op 0xe9 "MMX/SSE/SSE2" 2 0 0 0 0 0 (function emit_normal) inst_normal 1048577 0
    ∷ op 0xea "MMX/SSE/SSE2" 2 0 0 0 0 0 (function emit_normal) inst_normal 1048577 0
    ∷ op 0xeb "MMX/SSE/SSE2" 2 0 0 0 0 0 (function emit_normal) inst_normal 1048577 0
    ∷ op 0xec "MMX/SSE/SSE2" 2 0 0 0 0 0 (function emit_normal) inst_normal 1048577 0
    ∷ op 0xed "MMX/SSE/SSE2" 2 0 0 0 0 0 (function emit_normal) inst_normal 1048577 0
    ∷ op 0xee "MMX/SSE/SSE2" 2 0 0 0 0 0 (function emit_normal) inst_normal 1048577 0
    ∷ op 0xef "MMX/SSE/SSE2" 2 0 0 0 0 0 (function emit_normal) inst_normal 1048577 0
    ∷ op 0xf0 "reserved" 0 0 0 0 0 0 null inst_reserved 512 0
    ∷ op 0xf1 "MMX/SSE/SSE2" 2 0 0 0 0 0 (function emit_normal) inst_normal 1048577 0
    ∷ op 0xf2 "MMX/SSE/SSE2" 2 0 0 0 0 0 (function emit_normal) inst_normal 1048577 0
    ∷ op 0xf3 "MMX/SSE/SSE2" 2 0 0 0 0 0 (function emit_normal) inst_normal 1048577 0
    ∷ op 0xf4 "MMX/SSE/SSE2" 2 0 0 0 0 0 (function emit_normal) inst_normal 1048577 0
    ∷ op 0xf5 "MMX/SSE/SSE2" 2 0 0 0 0 0 (function emit_normal) inst_normal 1048577 0
    ∷ op 0xf6 "MMX/SSE/SSE2" 2 0 0 0 0 0 (function emit_normal) inst_normal 1048577 0
    ∷ op 0xf7 "MMX/SSE/SSE2" 2 0 0 0 0 0 (function emit_normal) inst_normal 1048577 0
    ∷ op 0xf8 "MMX/SSE/SSE2" 2 0 0 0 0 0 (function emit_normal) inst_normal 1048577 0
    ∷ op 0xf9 "MMX/SSE/SSE2" 2 0 0 0 0 0 (function emit_normal) inst_normal 1048577 0
    ∷ op 0xfa "MMX/SSE/SSE2" 2 0 0 0 0 0 (function emit_normal) inst_normal 1048577 0
    ∷ op 0xfb "MMX/SSE/SSE2" 2 0 0 0 0 0 (function emit_normal) inst_normal 1048577 0
    ∷ op 0xfc "MMX/SSE/SSE2" 2 0 0 0 0 0 (function emit_normal) inst_normal 1048577 0
    ∷ op 0xfd "MMX/SSE/SSE2" 2 0 0 0 0 0 (function emit_normal) inst_normal 1048577 0
    ∷ op 0xfe "MMX/SSE/SSE2" 2 0 0 0 0 0 (function emit_normal) inst_normal 1048577 0
    ∷ op 0xff "reserved" 0 0 0 0 0 0 null inst_reserved 512 0
    ∷ []
