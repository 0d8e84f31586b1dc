-- ===== src/Decode/Tables/OneByteLo.antt =====
-- target-i386/decode-table.c: the one-byte opcodes 0x00 to 0x7f.
use unitrans.Common.{List, [], ◌∷◌}
use unitrans.Decode.OpCode.{
  OpCode, op, null, function, table, emit_jcond, emit_normal, inst_normal, inst_jcond,
  inst_2bytes_opc, inst_prefix, two_byte_opcodes,
}

unfoldable pub nopbyte0_00_3f : List OpCode
nopbyte0_00_3f =
    op 0x0 "addB" 2 1 3 1 0 0 (function emit_normal) inst_normal 1048577 10
    ∷ op 0x1 "addL" 2 2 3 2 0 0 (function emit_normal) inst_normal 3145729 10
    ∷ op 0x2 "addB" 3 1 2 1 0 0 (function emit_normal) inst_normal 1048577 10
    ∷ op 0x3 "addL" 3 2 2 2 0 0 (function emit_normal) inst_normal 3145729 10
    ∷ op 0x4 "addB" 1 129 4 1 0 0 (function emit_normal) inst_normal 2 10
    ∷ op 0x5 "addL" 1 144 4 2 0 0 (function emit_normal) inst_normal 2097160 10
    ∷ op 0x6 "push" 8 0 0 0 0 0 (function emit_normal) inst_normal 2097152 0
    ∷ op 0x7 "pop" 8 0 0 0 0 0 (function emit_normal) inst_normal 2097152 0
    ∷ op 0x8 "orB" 2 1 3 1 0 0 (function emit_normal) inst_normal 1048577 10
    ∷ op 0x9 "orL" 2 2 3 2 0 0 (function emit_normal) inst_normal 3145729 10
    ∷ op 0xa "orB" 3 1 2 1 0 0 (function emit_normal) inst_normal 1048577 10
    ∷ op 0xb "orL" 3 2 2 2 0 0 (function emit_normal) inst_normal 3145729 10
    ∷ op 0xc "orB" 1 129 4 1 0 0 (function emit_normal) inst_normal 2 10
    ∷ op 0xd "orL" 1 144 4 2 0 0 (function emit_normal) inst_normal 2097160 10
    ∷ op 0xe "push" 8 1 0 0 0 0 (function emit_normal) inst_normal 2097152 0
    ∷ op 0xf "(table)" 0 0 0 0 0 0 (table two_byte_opcodes) inst_2bytes_opc 1024 0
    ∷ op 0x10 "adcB" 2 1 3 1 0 0 (function emit_normal) inst_normal 1048577 15
    ∷ op 0x11 "adcL" 2 2 3 2 0 0 (function emit_normal) inst_normal 3145729 15
    ∷ op 0x12 "adcB" 3 1 2 1 0 0 (function emit_normal) inst_normal 1048577 15
    ∷ op 0x13 "adcL" 3 2 2 2 0 0 (function emit_normal) inst_normal 3145729 15
    ∷ op 0x14 "adcB" 1 129 4 1 0 0 (function emit_normal) inst_normal 2 15
    ∷ op 0x15 "adcL" 1 144 4 2 0 0 (function emit_normal) inst_normal 2097160 15
    ∷ op 0x16 "push" 8 2 0 0 0 0 (function emit_normal) inst_normal 2097152 0
    ∷ op 0x17 "pop" 8 2 0 0 0 0 (function emit_normal) inst_normal 2097152 0
    ∷ op 0x18 "sbbB" 2 1 3 1 0 0 (function emit_normal) inst_normal 1048577 15
    ∷ op 0x19 "sbbL" 2 2 3 2 0 0 (function emit_normal) inst_normal 3145729 15
    ∷ op 0x1a "sbbB" 3 1 2 1 0 0 (function emit_normal) inst_normal 1048577 15
    ∷ op 0x1b "sbbL" 3 2 2 2 0 0 (function emit_normal) inst_normal 3145729 15
    ∷ op 0x1c "sbbB" 1 129 4 1 0 0 (function emit_normal) inst_normal 2 15
    ∷ op 0x1d "sbbL" 1 144 4 2 0 0 (function emit_normal) inst_normal 2097160 15
    ∷ op 0x1e "push" 8 3 0 0 0 0 (function emit_normal) inst_normal 2097152 0
    ∷ op 0x1f "pop" 8 3 0 0 0 0 (function emit_normal) inst_normal 2097152 0
    ∷ op 0x20 "andB" 2 1 3 1 0 0 (function emit_normal) inst_normal 1048577 10
    ∷ op 0x21 "andL" 2 2 3 2 0 0 (function emit_normal) inst_normal 3145729 10
    ∷ op 0x22 "andB" 3 1 2 1 0 0 (function emit_normal) inst_normal 1048577 10
    ∷ op 0x23 "andL" 3 2 2 2 0 0 (function emit_normal) inst_normal 3145729 10
    ∷ op 0x24 "andB" 1 129 4 1 0 0 (function emit_normal) inst_normal 2 10
    ∷ op 0x25 "andL" 1 144 4 2 0 0 (function emit_normal) inst_normal 2097160 10
    ∷ op 0x26 "es" 0 0 0 0 0 0 null inst_prefix 256 0
    ∷ op 0x27 "daa" 0 0 0 0 0 0 (function emit_normal) inst_normal 0 15
    ∷ op 0x28 "subB" 2 1 3 1 0 0 (function emit_normal) inst_normal 1048577 10
    ∷ op 0x29 "subL" 2 2 3 2 0 0 (function emit_normal) inst_normal 3145729 10
    ∷ op 0x2a "subB" 3 1 2 1 0 0 (function emit_normal) inst_normal 1048577 10
    ∷ op 0x2b "subL" 3 2 2 2 0 0 (function emit_normal) inst_normal 3145729 10
    ∷ op 0x2c "subB" 1 129 4 1 0 0 (function emit_normal) inst_normal 2 10
    ∷ op 0x2d "subL" 1 144 4 2 0 0 (function emit_normal) inst_normal 2097160 10
    ∷ op 0x2e "cs" 0 0 0 0 0 0 null inst_prefix 256 0
    ∷ op 0x2f "das" 0 0 0 0 0 0 (function emit_normal) inst_normal 0 15
    ∷ op 0x30 "xorB" 2 1 3 1 0 0 (function emit_normal) inst_normal 1048577 10
    ∷ op 0x31 "xorL" 2 2 3 2 0 0 (function emit_normal) inst_normal 3145729 10
    ∷ op 0x32 "xorB" 3 1 2 1 0 0 (function emit_normal) inst_normal 1048577 10
    ∷ op 0x33 "xorL" 3 2 2 2 0 0 (function emit_normal) inst_normal 3145729 10
    ∷ op 0x34 "xorB" 1 129 4 1 0 0 (function emit_normal) inst_normal 2 10
    ∷ op 0x35 "xorL" 1 144 4 2 0 0 (function emit_normal) inst_normal 2097160 10
    ∷ op 0x36 "ss" 0 0 0 0 0 0 null inst_prefix 256 0
    ∷ op 0x37 "aaa" 0 0 0 0 0 0 (function emit_normal) inst_normal 0 15
    ∷ op 0x38 "cmpB" 2 1 3 1 0 0 (function emit_normal) inst_normal 1048577 10
    ∷ op 0x39 "cmpL" 2 2 3 2 0 0 (function emit_normal) inst_normal 3145729 10
    ∷ op 0x3a "cmpB" 3 1 2 1 0 0 (function emit_normal) inst_normal 1048577 10
    ∷ op 0x3b "cmpL" 3 2 2 2 0 0 (function emit_normal) inst_normal 3145729 10
    ∷ op 0x3c "cmpB" 1 129 4 1 0 0 (function emit_normal) inst_normal 2 10
    ∷ op 0x3d "cmpL" 1 144 4 2 0 0 (function emit_normal) inst_normal 2097160 10
    ∷ op 0x3e "ds" 0 0 0 0 0 0 null inst_prefix 256 0
    ∷ op 0x3f "aas" 0 0 0 0 0 0 (function emit_normal) inst_normal 0 15
    ∷ []

unfoldable pub nopbyte0_40_7f : List OpCode
nopbyte0_40_7f =
    op 0x40 "incL" 1 144 0 0 0 0 (function emit_normal) inst_normal 2097152 8
    ∷ op 0x41 "incL" 1 146 0 0 0 0 (function emit_normal) inst_normal 2097152 8
    ∷ op 0x42 "incL" 1 147 0 0 0 0 (function emit_normal) inst_normal 2097152 8
    ∷ op 0x43 "incL" 1 145 0 0 0 0 (function emit_normal) inst_normal 2097152 8
    ∷ op 0x44 "incL" 1 148 0 0 0 0 (function emit_normal) inst_normal 2097152 8
    ∷ op 0x45 "incL" 1 149 0 0 0 0 (function emit_normal) inst_normal 2097152 8
    ∷ op 0x46 "incL" 1 151 0 0 0 0 (function emit_normal) inst_normal 2097152 8
    ∷ op 0x47 "incL" 1 150 0 0 0 0 (function emit_normal) inst_normal 2097152 8
    ∷ op 0x48 "decL" 1 144 0 0 0 0 (function emit_normal) inst_normal 2097152 8
    ∷ op 0x49 "decL" 1 146 0 0 0 0 (function emit_normal) inst_normal 2097152 8
    ∷ op 0x4a "decL" 1 147 0 0 0 0 (function emit_normal) inst_normal 2097152 8
    ∷ op 0x4b "decL" 1 145 0 0 0 0 (function emit_normal) inst_normal 2097152 8
    ∷ op 0x4c "decL" 1 148 0 0 0 0 (function emit_normal) inst_normal 2097152 8
    ∷ op 0x4d "decL" 1 149 0 0 0 0 (function emit_normal) inst_normal 2097152 8
    ∷ op 0x4e "decL" 1 151 0 0 0 0 (function emit_normal) inst_normal 2097152 8
    ∷ op 0x4f "decL" 1 150 0 0 0 0 (function emit_normal) inst_normal 2097152 8
    ∷ op 0x50 "pushL" 1 144 0 0 0 0 (function emit_normal) inst_normal 2097152 0
    ∷ op 0x51 "pushL" 1 146 0 0 0 0 (function emit_normal) inst_normal 2097152 0
    ∷ op 0x52 "pushL" 1 147 0 0 0 0 (function emit_normal) inst_normal 2097152 0
    ∷ op 0x53 "pushL" 1 145 0 0 0 0 (function emit_normal) inst_normal 2097152 0
    ∷ op 0x54 "pushL" 1 148 0 0 0 0 (function emit_normal) inst_normal 2097152 0
    ∷ op 0x55 "pushL" 1 149 0 0 0 0 (function emit_normal) inst_normal 2097152 0
    ∷ op 0x56 "pushL" 1 151 0 0 0 0 (function emit_normal) inst_normal 2097152 0
    ∷ op 0x57 "pushL" 1 150 0 0 0 0 (function emit_normal) inst_normal 2097152 0
    ∷ op 0x58 "popL" 1 144 0 0 0 0 (function emit_normal) inst_normal 2097152 0
    ∷ op 0x59 "popL" 1 146 0 0 0 0 (function emit_normal) inst_normal 2097152 0
    ∷ op 0x5a "popL" 1 147 0 0 0 0 (function emit_normal) inst_normal 2097152 0
    ∷ op 0x5b "popL" 1 145 0 0 0 0 (function emit_normal) inst_normal 2097152 0
    ∷ op 0x5c "popL" 1 148 0 0 0 0 (function emit_normal) inst_normal 2097152 0
    ∷ op 0x5d "popL" 1 149 0 0 0 0 (function emit_normal) inst_normal 2097152 0
    ∷ op 0x5e "popL" 1 151 0 0 0 0 (function emit_normal) inst_normal 2097152 0
    ∷ op 0x5f "popL" 1 150 0 0 0 0 (function emit_normal) inst_normal 2097152 0
    ∷ op 0x60 "pushaL" 0 0 0 0 0 0 (function emit_normal) inst_normal 2097152 0
    ∷ op 0x61 "popaL" 0 0 0 0 0 0 (function emit_normal) inst_normal 2097152 0
    ∷ op 0x62 "bound" 3 2 2 2 0 0 (function emit_normal) inst_normal 3145729 0
    ∷ op 0x63 "arpl" 2 3 3 3 0 0 (function emit_normal) inst_normal 1048577 15
    ∷ op 0x64 "fs" 0 0 0 0 0 0 null inst_prefix 256 0
    ∷ op 0x65 "gs" 0 0 0 0 0 0 null inst_prefix 256 0
    ∷ op 0x66 "dataN" 0 0 0 0 0 0 null inst_prefix 256 0
    ∷ op 0x67 "addrN" 0 0 0 0 0 0 null inst_prefix 256 0
    ∷ op 0x68 "pushL" 4 2 0 0 0 0 (function emit_normal) inst_normal 2097160 0
    ∷ op 0x69 "imulL" 3 2 2 2 4 2 (function emit_normal) inst_normal 3145737 10
    ∷ op 0x6a "push" 4 1 0 0 0 0 (function emit_normal) inst_normal 2 0
    ∷ op 0x6b "imulL" 3 2 2 2 4 1 (function emit_normal) inst_normal 3145731 10
    ∷ op 0x6c "insB" 5 150 1 137 0 0 (function emit_normal) inst_normal 1048576 5
    ∷ op 0x6d "insL" 5 150 1 137 0 0 (function emit_normal) inst_normal 3145728 5
    ∷ op 0x6e "outsB" 1 137 6 151 0 0 (function emit_normal) inst_normal 1048576 5
    ∷ op 0x6f "outsL" 1 137 6 151 0 0 (function emit_normal) inst_normal 3145728 5
    ∷ op 0x70 "jo" 7 1 0 0 0 0 (function emit_jcond) inst_jcond 10485762 5
    ∷ op 0x71 "jno" 7 1 0 0 0 0 (function emit_jcond) inst_jcond 10485762 5
    ∷ op 0x72 "jb" 7 1 0 0 0 0 (function emit_jcond) inst_jcond 10485762 5
    ∷ op 0x73 "jae" 7 1 0 0 0 0 (function emit_jcond) inst_jcond 10485762 5
    ∷ op 0x74 "je" 7 1 0 0 0 0 (function emit_jcond) inst_jcond 10485762 5
    ∷ op 0x75 "jne" 7 1 0 0 0 0 (function emit_jcond) inst_jcond 10485762 5
    ∷ op 0x76 "jbe" 7 1 0 0 0 0 (function emit_jcond) inst_jcond 10485762 5
    ∷ op 0x77 "ja" 7 1 0 0 0 0 (function emit_jcond) inst_jcond 10485762 5
    ∷ op 0x78 "js" 7 1 0 0 0 0 (function emit_jcond) inst_jcond 10485762 5
    ∷ op 0x79 "jns" 7 1 0 0 0 0 (function emit_jcond) inst_jcond 10485762 5
    ∷ op 0x7a "jp" 7 1 0 0 0 0 (function emit_jcond) inst_jcond 10485762 5
    ∷ op 0x7b "jnp" 7 1 0 0 0 0 (function emit_jcond) inst_jcond 10485762 5
    ∷ op 0x7c "jl" 7 1 0 0 0 0 (function emit_jcond) inst_jcond 10485762 5
    ∷ op 0x7d "jge" 7 1 0 0 0 0 (function emit_jcond) inst_jcond 10485762 5
    ∷ op 0x7e "jle" 7 1 0 0 0 0 (function emit_jcond) inst_jcond 10485762 5
    ∷ op 0x7f "jg" 7 1 0 0 0 0 (function emit_jcond) inst_jcond 10485762 5
    ∷ []
