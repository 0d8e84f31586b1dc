-- ===== src/Decode/Tables/Ngroup.antt =====
-- target-i386/decode-table.c: the unary and system groups.
use unitrans.Common.{List, [], ◌∷◌}
use unitrans.Decode.OpCode.{
  OpCode, op, null, function, emit_call_near_mem, emit_jmp_near_mem, emit_normal, inst_normal,
  inst_call_ind, inst_jmp_ind, inst_reserved,
}

unfoldable pub group3b_entries : List OpCode
group3b_entries =
    op 0x0 "testB" 2 1 4 1 0 0 (function emit_normal) inst_normal 1048579 10
    ∷ op 0x1 "reserved" 0 0 0 0 0 0 null inst_reserved 512 0
    ∷ op 0x2 "notB" 2 1 0 0 0 0 (function emit_normal) inst_normal 1048577 10
    ∷ op 0x3 "negB" 2 1 0 0 0 0 (function emit_normal) inst_normal 1048577 10
    ∷ op 0x4 "mulB" 1 129 2 1 0 0 (function emit_normal) inst_normal 1048577 10
    ∷ op 0x5 "imulB" 1 129 2 1 0 0 (function emit_normal) inst_normal 1048577 10
    ∷ op 0x6 "divB" 1 129 2 1 0 0 (function emit_normal) inst_normal 1048577 10
    ∷ op 0x7 "idivB" 1 129 2 1 0 0 (function emit_normal) inst_normal 1048577 10
    ∷ []

unfoldable pub group3v_entries : List OpCode
group3v_entries =
    op 0x0 "testL" 2 2 4 2 0 0 (function emit_normal) inst_normal 3145737 10
    ∷ op 0x1 "reserved" 0 0 0 0 0 0 null inst_reserved 512 0
    ∷ op 0x2 "notL" 2 2 0 0 0 0 (function emit_normal) inst_normal 3145729 10
    ∷ op 0x3 "negL" 2 2 0 0 0 0 (function emit_normal) inst_normal 3145729 10
    ∷ op 0x4 "mulL" 1 144 2 2 0 0 (function emit_normal) inst_normal 3145729 10
    ∷ op 0x5 "imulL" 1 144 2 2 0 0 (function emit_normal) inst_normal 3145729 10
    ∷ op 0x6 "divL" 1 144 2 2 0 0 (function emit_normal) inst_normal 3145729 10
    ∷ op 0x6 "idivL" 1 144 2 2 0 0 (function emit_normal) inst_normal 3145729 10
    ∷ []

unfoldable pub ngroup4_entries : List OpCode
ngroup4_entries =
    op 0x0 "incB" 2 1 0 0 0 0 (function emit_normal) inst_normal 1048577 8
    ∷ op 0x1 "decB" 2 1 0 0 0 0 (function emit_normal) inst_normal 1048577 8
    ∷ op 0x2 "reserved" 0 0 0 0 0 0 null inst_reserved 512 0
    ∷ op 0x3 "reserved" 0 0 0 0 0 0 null inst_reserved 512 0
    ∷ op 0x4 "reserved" 0 0 0 0 0 0 null inst_reserved 512 0
    ∷ op 0x5 "reserved" 0 0 0 0 0 0 null inst_reserved 512 0
    ∷ op 0x6 "reserved" 0 0 0 0 0 0 null inst_reserved 512 0
    ∷ op 0x7 "reserved" 0 0 0 0 0 0 null inst_reserved 512 0
    ∷ []

unfoldable pub ngroup5_entries : List OpCode
ngroup5_entries =
    op 0x0 "incL" 2 2 0 0 0 0 (function emit_normal) inst_normal 3145729 8
    ∷ op 0x1 "decL" 2 2 0 0 0 0 (function emit_normal) inst_normal 3145729 8
    ∷ op 0x2 "callL" 2 2 0 0 0 0 (function emit_call_near_mem) inst_call_ind 11534337 0
    ∷ op 0x3 "call" 2 5 0 0 0 0 (function emit_normal) inst_normal 3145729 0
    ∷ op 0x4 "jmpL" 2 2 0 0 0 0 (function emit_jmp_near_mem) inst_jmp_ind 11534337 0
    ∷ op 0x5 "jmp" 2 5 0 0 0 0 (function emit_normal) inst_normal 3145729 0
    ∷ op 0x6 "pushL" 2 2 0 0 0 0 (function emit_normal) inst_normal 3145729 0
    ∷ op 0x7 "reserved" 0 0 0 0 0 0 null inst_reserved 512 0
    ∷ []

unfoldable pub ngroup6_entries : List OpCode
ngroup6_entries =
    op 0x0 "sldt" 2 3 0 0 0 0 (function emit_normal) inst_normal 1048577 0
    ∷ op 0x1 "str" 2 3 0 0 0 0 (function emit_normal) inst_normal 1048577 0
    ∷ op 0x2 "lldt" 2 3 0 0 0 0 (function emit_normal) inst_normal 1048577 0
    ∷ op 0x3 "ltr" 2 3 0 0 0 0 (function emit_normal) inst_normal 1048577 0
    ∷ op 0x4 "verr" 2 3 0 0 0 0 (function emit_normal) inst_normal 1048577 15
    ∷ op 0x5 "verw" 2 3 0 0 0 0 (function emit_normal) inst_normal 1048577 15
    ∷ op 0x6 "reserved" 0 0 0 0 0 0 null inst_reserved 512 0
    ∷ op 0x7 "reserved" 0 0 0 0 0 0 null inst_reserved 512 0
    ∷ []

unfoldable pub ngroup7_entries : List OpCode
ngroup7_entries =
    op 0x0 "sgdt" 2 6 0 0 0 0 (function emit_normal) inst_normal 3145729 0
    ∷ op 0x1 "sidt" 2 6 0 0 0 0 (function emit_normal) inst_normal 3145729 0
    ∷ op 0x2 "lgdt" 2 6 0 0 0 0 (function emit_normal) inst_normal 3145729 0
    ∷ op 0x3 "lidt" 2 6 0 0 0 0 (function emit_normal) inst_normal 3145729 0
    ∷ op 0x4 "smsw" 2 3 0 0 0 0 (function emit_normal) inst_normal 3145729 0
    ∷ op 0x5 "reserved" 0 0 0 0 0 0 null inst_reserved 512 0
    ∷ op 0x6 "lmsw" 2 3 0 0 0 0 (function emit_normal) inst_normal 1048577 0
    ∷ op 0x7 "invlpg" 2 1 0 0 0 0 (function emit_normal) inst_normal 1048577 0
    ∷ []

unfoldable pub ngroup9_entries : List OpCode
ngroup9_entries =
    op 0x0 "reserved" 0 0 0 0 0 0 null inst_reserved 512 0
    ∷ op 0x1 "cmpxchgL" 2 2 0 0 0 0 (function emit_normal) inst_normal 1048577 10
    ∷ op 0x2 "reserved" 0 0 0 0 0 0 null inst_reserved 512 0
    ∷ op 0x3 "reserved" 0 0 0 0 0 0 null inst_reserved 512 0
    ∷ op 0x4 "reserved" 0 0 0 0 0 0 null inst_reserved 512 0
    ∷ op 0x5 "reserved" 0 0 0 0 0 0 null inst_reserved 512 0
    ∷ op 0x6 "reserved" 0 0 0 0 0 0 null inst_reserved 512 0
    ∷ op 0x7 "reserved" 0 0 0 0 0 0 null inst_reserved 512 0
    ∷ []
