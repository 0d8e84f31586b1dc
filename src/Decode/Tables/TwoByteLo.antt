-- ===== src/Decode/Tables/TwoByteLo.antt =====
-- target-i386/decode-table.c: the two-byte opcodes 0x00 to 0x7f.
use unitrans.Common.{List, [], ◌∷◌}
use unitrans.Decode.OpCode.{
  OpCode, op, null, function, table, emit_normal, emit_sysenter, inst_normal, inst_reserved,
  inst_ngroup6, inst_ngroup7, inst_sysenter, ngroup6, ngroup7,
}

unfoldable pub two_byte_opcodes_00_3f : List OpCode
two_byte_opcodes_00_3f =
    op 0x0 "(group)" 0 0 0 0 0 0 (table ngroup6) inst_ngroup6 2048 0
    ∷ op 0x1 "(group)" 0 0 0 0 0 0 (table ngroup7) inst_ngroup7 2048 0
    ∷ op 0x2 "lar" 3 2 2 2 0 0 (function emit_normal) inst_normal 3145729 15
    ∷ op 0x3 "lsl" 3 2 2 2 0 0 (function emit_normal) inst_normal 3145729 15
    ∷ op 0x4 "reserved" 0 0 0 0 0 0 null inst_reserved 512 0
    ∷ op 0x5 "reserved" 0 0 0 0 0 0 null inst_reserved 512 0
    ∷ op 0x6 "clts" 0 0 0 0 0 0 (function emit_normal) inst_normal 0 0
    ∷ op 0x7 "reserved" 0 0 0 0 0 0 null inst_reserved 512 0
    ∷ op 0x8 "invd" 0 0 0 0 0 0 (function emit_normal) inst_normal 0 0
    ∷ op 0x9 "wbinvd" 0 0 0 0 0 0 (function emit_normal) inst_normal 0 0
    ∷ op 0xa "reserved" 0 0 0 0 0 0 null inst_reserved 512 0
    ∷ op 0xb "reserved" 0 0 0 0 0 0 (function emit_normal) inst_reserved 512 0
    ∷ op 0xc "reserved" 0 0 0 0 0 0 null inst_reserved 512 0
    ∷ op 0xd "reserved" 0 0 0 0 0 0 null inst_reserved 512 0
    ∷ op 0xe "reserved" 0 0 0 0 0 0 null inst_reserved 512 0
    ∷ op 0xf "reserved" 0 0 0 0 0 0 null inst_reserved 512 0
    ∷ op 0x10 "MMX/SSE/SSE2" 2 0 0 0 0 0 (function emit_normal) inst_normal 1048577 0
    ∷ op 0x11 "MMX/SSE/SSE2" 2 0 0 0 0 0 (function emit_normal) inst_normal 1048577 0
    ∷ op 0x12 "MMX/SSE/SSE2" 2 0 0 0 0 0 (function emit_normal) inst_normal 1048577 0
    ∷ op 0x13 "MMX/SSE/SSE2" 2 0 0 0 0 0 (function emit_normal) inst_normal 1048577 0
    ∷ op 0x14 "MMX/SSE/SSE2" 2 0 0 0 0 0 (function emit_normal) inst_normal 1048577 0
    ∷ op 0x15 "MMX/SSE/SSE2" 2 0 0 0 0 0 (function emit_normal) inst_normal 1048577 0
    ∷ op 0x16 "MMX/SSE/SSE2" 2 0 0 0 0 0 (function emit_normal) inst_normal 1048577 0
    ∷ op 0x17 "MMX/SSE/SSE2" 2 0 0 0 0 0 (function emit_normal) inst_normal 1048577 0
    ∷ op 0x18 "MMX/SSE/SSE2" 2 0 0 0 0 0 (function emit_normal) inst_normal 1048577 0
    ∷ op 0x19 "reserved" 0 0 0 0 0 0 null inst_reserved 512 0
    ∷ op 0x1a "reserved" 0 0 0 0 0 0 null inst_reserved 512 0
    ∷ op 0x1b "reserved" 0 0 0 0 0 0 null inst_reserved 512 0
    ∷ op 0x1c "reserved" 0 0 0 0 0 0 null inst_reserved 512 0
    ∷ op 0x1d "reserved" 0 0 0 0 0 0 null inst_reserved 512 0
    ∷ op 0x1e "reserved" 0 0 0 0 0 0 null inst_reserved 512 0
    ∷ op 0x1f "reserved" 0 0 0 0 0 0 null inst_reserved 512 0
    ∷ op 0x20 "mov" 14 4 15 4 0 0 (function emit_normal) inst_normal 1 10
    ∷ op 0x21 "mov" 14 4 16 4 0 0 (function emit_normal) inst_normal 1 10
    ∷ op 0x22 "mov" 15 4 14 4 0 0 (function emit_normal) inst_normal 1 10
    ∷ op 0x23 "mov" 16 4 14 4 0 0 (function emit_normal) inst_normal 1 10
    ∷ op 0x24 "mov" 14 4 17 4 0 0 (function emit_normal) inst_normal 1 10
    ∷ op 0x25 "reserved" 0 0 0 0 0 0 null inst_reserved 512 0
    ∷ op 0x26 "mov" 17 4 14 4 0 0 (function emit_normal) inst_normal 1 10
    ∷ op 0x27 "reserved" 0 0 0 0 0 0 null inst_reserved 512 0
    ∷ op 0x28 "MMX/SSE/SSE2" 2 0 0 0 0 0 (function emit_normal) inst_normal 1048577 0
    ∷ op 0x29 "MMX/SSE/SSE2" 2 0 0 0 0 0 (function emit_normal) inst_normal 1048577 0
    ∷ op 0x2a "MMX/SSE/SSE2" 2 0 0 0 0 0 (function emit_normal) inst_normal 1048577 0
    ∷ op 0x2b "MMX/SSE/SSE2" 2 0 0 0 0 0 (function emit_normal) inst_normal 1048577 0
    ∷ op 0x2c "MMX/SSE/SSE2" 2 0 0 0 0 0 (function emit_normal) inst_normal 1048577 0
    ∷ op 0x2d "MMX/SSE/SSE2" 2 0 0 0 0 0 (function emit_normal) inst_normal 1048577 0
    ∷ op 0x2e "MMX/SSE/SSE2" 2 0 0 0 0 0 (function emit_normal) inst_normal 1048577 0
    ∷ op 0x2f "MMX/SSE/SSE2" 2 0 0 0 0 0 (function emit_normal) inst_normal 1048577 0
    ∷ op 0x30 "wrmsr" 0 0 0 0 0 0 (function emit_normal) inst_normal 0 0
    ∷ op 0x31 "rdtsc" 0 0 0 0 0 0 (function emit_normal) inst_normal 0 0
    ∷ op 0x32 "rdmsr" 0 0 0 0 0 0 (function emit_normal) inst_normal 0 0
    ∷ op 0x33 "rdpmc" 0 0 0 0 0 0 (function emit_normal) inst_normal 0 0
    ∷ op 0x34 "sysenter" 0 0 0 0 0 0 (function emit_sysenter) inst_sysenter 0 0
    ∷ op 0x35 "sysexit" 0 0 0 0 0 0 (function emit_normal) inst_normal 0 0
    ∷ op 0x36 "reserved" 0 0 0 0 0 0 null inst_reserved 512 0
    ∷ op 0x37 "reserved" 0 0 0 0 0 0 null inst_reserved 512 0
    ∷ op 0x38 "reserved" 0 0 0 0 0 0 null inst_reserved 512 0
    ∷ op 0x39 "reserved" 0 0 0 0 0 0 null inst_reserved 512 0
    ∷ op 0x3a "reserved" 0 0 0 0 0 0 null inst_reserved 512 0
    ∷ op 0x3b "reserved" 0 0 0 0 0 0 null inst_reserved 512 0
    ∷ op 0x3c "movnti" 3 2 2 2 0 0 (function emit_normal) inst_normal 1 0
    ∷ op 0x3d "reserved" 0 0 0 0 0 0 null inst_reserved 512 0
    ∷ op 0x3e "reserved" 0 0 0 0 0 0 null inst_reserved 512 0
    ∷ op 0x3f "reserved" 0 0 0 0 0 0 null inst_reserved 512 0
    ∷ []

unfoldable pub two_byte_opcodes_40_7f : List OpCode
two_byte_opcodes_40_7f =
    op 0x40 "cmovo" 3 2 2 2 0 0 (function emit_normal) inst_normal 3145729 5
    ∷ op 0x41 "cmovno" 3 2 2 2 0 0 (function emit_normal) inst_normal 3145729 5
    ∷ op 0x42 "cmovnae" 3 2 2 2 0 0 (function emit_normal) inst_normal 3145729 5
    ∷ op 0x43 "cmovae" 3 2 2 2 0 0 (function emit_normal) inst_normal 3145729 5
    ∷ op 0x44 "cmove" 3 2 2 2 0 0 (function emit_normal) inst_normal 3145729 5
    ∷ op 0x45 "cmovne" 3 2 2 2 0 0 (function emit_normal) inst_normal 3145729 5
    ∷ op 0x46 "cmovbe" 3 2 2 2 0 0 (function emit_normal) inst_normal 3145729 5
    ∷ op 0x47 "cmovnbe" 3 2 2 2 0 0 (function emit_normal) inst_normal 3145729 5
    ∷ op 0x48 "cmovs" 3 2 2 2 0 0 (function emit_normal) inst_normal 3145729 5
    ∷ op 0x49 "cmovns" 3 2 2 2 0 0 (function emit_normal) inst_normal 3145729 5
    ∷ op 0x4a "cmovp" 3 2 2 2 0 0 (function emit_normal) inst_normal 3145729 5
    ∷ op 0x4b "cmovnp" 3 2 2 2 0 0 (function emit_normal) inst_normal 3145729 5
    ∷ op 0x4c "cmovl" 3 2 2 2 0 0 (function emit_normal) inst_normal 3145729 5
    ∷ op 0x4d "cmovge" 3 2 2 2 0 0 (function emit_normal) inst_normal 3145729 5
    ∷ op 0x4e "cmovle" 3 2 2 2 0 0 (function emit_normal) inst_normal 3145729 5
    ∷ op 0x4f "cmovg" 3 2 2 2 0 0 (function emit_normal) inst_normal 3145729 5
    ∷ op 0x50 "MMX/SSE/SSE2" 2 0 0 0 0 0 (function emit_normal) inst_normal 1048577 0
    ∷ op 0x51 "MMX/SSE/SSE2" 2 0 0 0 0 0 (function emit_normal) inst_normal 1048577 0
    ∷ op 0x52 "MMX/SSE/SSE2" 2 0 0 0 0 0 (function emit_normal) inst_normal 1048577 0
    ∷ op 0x53 "MMX/SSE/SSE2" 2 0 0 0 0 0 (function emit_normal) inst_normal 1048577 0
    ∷ op 0x54 "MMX/SSE/SSE2" 2 0 0 0 0 0 (function emit_normal) inst_normal 1048577 0
    ∷ op 0x55 "MMX/SSE/SSE2" 2 0 0 0 0 0 (function emit_normal) inst_normal 1048577 0
    ∷ op 0x56 "MMX/SSE/SSE2" 2 0 0 0 0 0 (function emit_normal) inst_normal 1048577 0
    ∷ op 0x57 "MMX/SSE/SSE2" 2 0 0 0 0 0 (function emit_normal) inst_normal 1048577 0
    ∷ op 0x58 "MMX/SSE/SSE2" 2 0 0 0 0 0 (function emit_normal) inst_normal 1048577 0
    ∷ op 0x59 "MMX/SSE/SSE2" 2 0 0 0 0 0 (function emit_normal) inst_normal 1048577 0
    ∷ op 0x5a "MMX/SSE/SSE2" 2 0 0 0 0 0 (function emit_normal) inst_normal 1048577 0
    ∷ op 0x5b "MMX/SSE/SSE2" 2 0 0 0 0 0 (function emit_normal) inst_normal 1048577 0
    ∷ op 0x5c "MMX/SSE/SSE2" 2 0 0 0 0 0 (function emit_normal) inst_normal 1048577 0
    ∷ op 0x5d "MMX/SSE/SSE2" 2 0 0 0 0 0 (function emit_normal) inst_normal 1048577 0
    ∷ op 0x5e "MMX/SSE/SSE2" 2 0 0 0 0 0 (function emit_normal) inst_normal 1048577 0
    ∷ op 0x5f "MMX/SSE/SSE2" 2 0 0 0 0 0 (function emit_normal) inst_normal 1048577 0
    ∷ op 0x60 "MMX/SSE/SSE2" 2 0 0 0 0 0 (function emit_normal) inst_normal 1048577 0
    ∷ op 0x61 "MMX/SSE/SSE2" 2 0 0 0 0 0 (function emit_normal) inst_normal 1048577 0
    ∷ op 0x62 "MMX/SSE/SSE2" 2 0 0 0 0 0 (function emit_normal) inst_normal 1048577 0
    ∷ op 0x63 "MMX/SSE/SSE2" 2 0 0 0 0 0 (function emit_normal) inst_normal 1048577 0
    ∷ op 0x64 "MMX/SSE/SSE2" 2 0 0 0 0 0 (function emit_normal) inst_normal 1048577 0
    ∷ op 0x65 "MMX/SSE/SSE2" 2 0 0 0 0 0 (function emit_normal) inst_normal 1048577 0
    ∷ op 0x66 "MMX/SSE/SSE2" 2 0 0 0 0 0 (function emit_normal) inst_normal 1048577 0
    ∷ op 0x67 "MMX/SSE/SSE2" 2 0 0 0 0 0 (function emit_normal) inst_normal 1048577 0
    ∷ op 0x68 "MMX/SSE/SSE2" 2 0 0 0 0 0 (function emit_normal) inst_normal 1048577 0
    ∷ op 0x69 "MMX/SSE/SSE2" 2 0 0 0 0 0 (function emit_normal) inst_normal 1048577 0
    ∷ op 0x6a "MMX/SSE/SSE2" 2 0 0 0 0 0 (function emit_normal) inst_normal 1048577 0
    ∷ op 0x6b "MMX/SSE/SSE2" 2 0 0 0 0 0 (function emit_normal) inst_normal 1048577 0
    ∷ op 0x6c "MMX/SSE/SSE2" 2 0 0 0 0 0 (function emit_normal) inst_normal 1048577 0
    ∷ op 0x6d "MMX/SSE/SSE2" 2 0 0 0 0 0 (function emit_normal) inst_normal 1048577 0
    ∷ op 0x6e "MMX/SSE/SSE2" 2 0 0 0 0 0 (function emit_normal) inst_normal 1048577 0
    ∷ op 0x6f "MMX/SSE/SSE2" 2 0 0 0 0 0 (function emit_normal) inst_normal 1048577 0
    ∷ op 0x70 "MMX/SSE/SSE2" 2 0 4 1 0 0 (function emit_normal) inst_normal 1048579 0
    ∷ op 0x71 "MMX/SSE/SSE2" 2 0 4 1 0 0 (function emit_normal) inst_normal 1048579 0
    ∷ op 0x72 "MMX/SSE/SSE2" 2 0 4 1 0 0 (function emit_normal) inst_normal 1048579 0
    ∷ op 0x73 "MMX/SSE/SSE2" 2 0 4 1 0 0 (function emit_normal) inst_normal 1048579 0
    ∷ op 0x74 "MMX/SSE/SSE2" 2 0 0 0 0 0 (function emit_normal) inst_normal 1048577 0
    ∷ op 0x75 "MMX/SSE/SSE2" 2 0 0 0 0 0 (function emit_normal) inst_normal 1048577 0
    ∷ op 0x76 "MMX/SSE/SSE2" 2 0 0 0 0 0 (function emit_normal) inst_normal 1048577 0
    ∷ op 0x77 "MMX/SSE/SSE2" 0 0 0 0 0 0 (function emit_normal) inst_normal 1048576 0
    ∷ op 0x78 "reserved" 0 0 0 0 0 0 null inst_reserved 512 0
    ∷ op 0x79 "reserved" 0 0 0 0 0 0 null inst_reserved 512 0
    ∷ op 0x7a "reserved" 0 0 0 0 0 0 null inst_reserved 512 0
    ∷ op 0x7b "reserved" 0 0 0 0 0 0 null inst_reserved 512 0
    ∷ op 0x7c "reserved" 0 0 0 0 0 0 null inst_reserved 512 0
    ∷ op 0x7d "reserved" 0 0 0 0 0 0 null inst_reserved 512 0
    ∷ op 0x7e "MMX/SSE/SSE2" 2 0 0 0 0 0 (function emit_normal) inst_normal 1048577 0
    ∷ op 0x7f "MMX/SSE/SSE2" 2 0 0 0 0 0 (function emit_normal) inst_normal 1048577 0
    ∷ []
