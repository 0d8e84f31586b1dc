-- ===== src/Decode/Tables/Group.antt =====
-- target-i386/decode-table.c: the arithmetic and shift groups.
use unitrans.Common.{List, [], ◌∷◌}
use unitrans.Decode.OpCode.{OpCode, op, null, function, emit_normal, inst_normal, inst_reserved}

unfoldable pub group1_eb_ib_entries : List OpCode
group1_eb_ib_entries =
    op 0x0 "addB" 2 1 4 1 0 0 (function emit_normal) inst_normal 1048579 10
    ∷ op 0x1 "orB" 2 1 4 1 0 0 (function emit_normal) inst_normal 1048579 10
    ∷ op 0x2 "adcB" 2 1 4 1 0 0 (function emit_normal) inst_normal 1048579 15
    ∷ op 0x3 "sbbB" 2 1 4 1 0 0 (function emit_normal) inst_normal 1048579 15
    ∷ op 0x4 "andB" 2 1 4 1 0 0 (function emit_normal) inst_normal 1048579 10
    ∷ op 0x5 "subB" 2 1 4 1 0 0 (function emit_normal) inst_normal 1048579 10
    ∷ op 0x6 "xorB" 2 1 4 1 0 0 (function emit_normal) inst_normal 1048579 10
    ∷ op 0x7 "cmpB" 2 1 4 1 0 0 (function emit_normal) inst_normal 1048579 10
    ∷ []

unfoldable pub group1_ev_iv_entries : List OpCode
group1_ev_iv_entries =
    op 0x0 "addL" 2 2 4 2 0 0 (function emit_normal) inst_normal 3145737 10
    ∷ op 0x1 "orL" 2 2 4 2 0 0 (function emit_normal) inst_normal 3145737 10
    ∷ op 0x2 "adcL" 2 2 4 2 0 0 (function emit_normal) inst_normal 3145737 15
    ∷ op 0x3 "sbbL" 2 2 4 2 0 0 (function emit_normal) inst_normal 3145737 15
    ∷ op 0x4 "andL" 2 2 4 2 0 0 (function emit_normal) inst_normal 3145737 10
    ∷ op 0x5 "subL" 2 2 4 2 0 0 (function emit_normal) inst_normal 3145737 10
    ∷ op 0x6 "xorL" 2 2 4 2 0 0 (function emit_normal) inst_normal 3145737 10
    ∷ op 0x7 "cmpL" 2 2 4 2 0 0 (function emit_normal) inst_normal 3145737 10
    ∷ []

unfoldable pub group1_ev_ib_entries : List OpCode
group1_ev_ib_entries =
    op 0x0 "addL" 2 2 4 1 0 0 (function emit_normal) inst_normal 3145731 10
    ∷ op 0x1 "orL" 2 2 4 1 0 0 (function emit_normal) inst_normal 3145731 10
    ∷ op 0x2 "adcL" 2 2 4 1 0 0 (function emit_normal) inst_normal 3145731 15
    ∷ op 0x3 "sbbL" 2 2 4 1 0 0 (function emit_normal) inst_normal 3145731 15
    ∷ op 0x4 "andL" 2 2 4 1 0 0 (function emit_normal) inst_normal 3145731 10
    ∷ op 0x5 "subL" 2 2 4 1 0 0 (function emit_normal) inst_normal 3145731 10
    ∷ op 0x6 "xorL" 2 2 4 1 0 0 (function emit_normal) inst_normal 3145731 10
    ∷ op 0x7 "cmpL" 2 2 4 1 0 0 (function emit_normal) inst_normal 3145731 10
    ∷ []

unfoldable pub group2a_eb_ib_entries : List OpCode
group2a_eb_ib_entries =
    op 0x0 "rolB" 2 1 4 1 0 0 (function emit_normal) inst_normal 1048579 15
    ∷ op 0x1 "rorB" 2 1 4 1 0 0 (function emit_normal) inst_normal 1048579 15
    ∷ op 0x2 "rclB" 2 1 4 1 0 0 (function emit_normal) inst_normal 1048579 15
    ∷ op 0x3 "rcrB" 2 1 4 1 0 0 (function emit_normal) inst_normal 1048579 15
    ∷ op 0x4 "shlB" 2 1 4 1 0 0 (function emit_normal) inst_normal 1048579 10
    ∷ op 0x5 "shrB" 2 1 4 1 0 0 (function emit_normal) inst_normal 1048579 10
    ∷ op 0x6 "reserved" 0 0 0 0 0 0 null inst_reserved 512 0
    ∷ op 0x7 "sarB" 2 1 4 1 0 0 (function emit_normal) inst_normal 1048579 10
    ∷ []

unfoldable pub group2a_ev_ib_entries : List OpCode
group2a_ev_ib_entries =
    op 0x0 "rolL" 2 2 4 1 0 0 (function emit_normal) inst_normal 3145731 15
    ∷ op 0x1 "rorL" 2 2 4 1 0 0 (function emit_normal) inst_normal 3145731 15
    ∷ op 0x2 "rclL" 2 2 4 1 0 0 (function emit_normal) inst_normal 3145731 15
    ∷ op 0x3 "rcrL" 2 2 4 1 0 0 (function emit_normal) inst_normal 3145731 15
    ∷ op 0x4 "shlL" 2 2 4 1 0 0 (function emit_normal) inst_normal 3145731 10
    ∷ op 0x5 "shrL" 2 2 4 1 0 0 (function emit_normal) inst_normal 3145731 10
    ∷ op 0x6 "reserved" 0 0 0 0 0 0 null inst_reserved 512 0
    ∷ op 0x7 "sarL" 2 2 4 1 0 0 (function emit_normal) inst_normal 3145731 10
    ∷ []

unfoldable pub group2_eb_1_entries : List OpCode
group2_eb_1_entries =
    op 0x0 "rolB" 2 1 0 0 0 0 (function emit_normal) inst_normal 1048577 15
    ∷ op 0x1 "rorB" 2 1 0 0 0 0 (function emit_normal) inst_normal 1048577 15
    ∷ op 0x2 "rclB" 2 1 0 0 0 0 (function emit_normal) inst_normal 1048577 15
    ∷ op 0x3 "rcrB" 2 1 0 0 0 0 (function emit_normal) inst_normal 1048577 15
    ∷ op 0x4 "shlB" 2 1 0 0 0 0 (function emit_normal) inst_normal 1048577 10
    ∷ op 0x5 "shrB" 2 1 0 0 0 0 (function emit_normal) inst_normal 1048577 10
    ∷ op 0x6 "reserved" 0 0 0 0 0 0 null inst_reserved 512 0
    ∷ op 0x7 "sarB" 2 1 0 0 0 0 (function emit_normal) inst_normal 1048577 10
    ∷ []

unfoldable pub group2_ev_1_entries : List OpCode
group2_ev_1_entries =
    op 0x0 "rolL" 2 2 0 0 0 0 (function emit_normal) inst_normal 3145729 15
    ∷ op 0x1 "rorL" 2 2 0 0 0 0 (function emit_normal) inst_normal 3145729 15
    ∷ op 0x2 "rclL" 2 2 0 0 0 0 (function emit_normal) inst_normal 3145729 15
    ∷ op 0x3 "rcrL" 2 2 0 0 0 0 (function emit_normal) inst_normal 3145729 15
    ∷ op 0x4 "shlL" 2 2 0 0 0 0 (function emit_normal) inst_normal 3145729 10
    ∷ op 0x5 "shrL" 2 2 0 0 0 0 (function emit_normal) inst_normal 3145729 10
    ∷ op 0x6 "reserved" 0 0 0 0 0 0 null inst_reserved 512 0
    ∷ op 0x7 "sarL" 2 2 0 0 0 0 (function emit_normal) inst_normal 3145729 10
    ∷ []

unfoldable pub group2_eb_cl_entries : List OpCode
group2_eb_cl_entries =
    op 0x0 "rolB" 2 1 1 133 0 0 (function emit_normal) inst_normal 1048577 15
    ∷ op 0x1 "rorB" 2 1 1 133 0 0 (function emit_normal) inst_normal 1048577 15
    ∷ op 0x2 "rclB" 2 1 1 133 0 0 (function emit_normal) inst_normal 1048577 15
    ∷ op 0x3 "rcrB" 2 1 1 133 0 0 (function emit_normal) inst_normal 1048577 15
    ∷ op 0x4 "shlB" 2 1 1 133 0 0 (function emit_normal) inst_normal 1048577 10
    ∷ op 0x5 "shrB" 2 1 1 133 0 0 (function emit_normal) inst_normal 1048577 10
    ∷ op 0x6 "reserved" 0 0 0 0 0 0 null inst_reserved 512 0
    ∷ op 0x7 "sarB" 2 1 1 133 0 0 (function emit_normal) inst_normal 1048577 10
    ∷ []

unfoldable pub group2_ev_cl_entries : List OpCode
group2_ev_cl_entries =
    op 0x0 "rolL" 2 2 1 133 0 0 (function emit_normal) inst_normal 3145729 15
    ∷ op 0x1 "rorL" 2 2 1 133 0 0 (function emit_normal) inst_normal 3145729 15
    ∷ op 0x2 "rclL" 2 2 1 133 0 0 (function emit_normal) inst_normal 3145729 15
    ∷ op 0x3 "rcrL" 2 2 1 133 0 0 (function emit_normal) inst_normal 3145729 15
    ∷ op 0x4 "shlL" 2 2 1 133 0 0 (function emit_normal) inst_normal 3145729 10
    ∷ op 0x5 "shrL" 2 2 1 133 0 0 (function emit_normal) inst_normal 3145729 10
    ∷ op 0x6 "reserved" 0 0 0 0 0 0 null inst_reserved 512 0
    ∷ op 0x7 "sarL" 2 2 1 133 0 0 (function emit_normal) inst_normal 3145729 10
    ∷ []

unfoldable pub group8_ev_ib_entries : List OpCode
group8_ev_ib_entries =
    op 0x0 "reserved" 0 0 0 0 0 0 null inst_reserved 512 0
    ∷ op 0x1 "reserved" 0 0 0 0 0 0 null inst_reserved 512 0
    ∷ op 0x2 "reserved" 0 0 0 0 0 0 null inst_reserved 512 0
    ∷ op 0x3 "reserved" 0 0 0 0 0 0 null inst_reserved 512 0
    ∷ op 0x4 "btL" 2 2 4 1 0 0 (function emit_normal) inst_normal 3145731 10
    ∷ op 0x5 "btsL" 2 2 4 1 0 0 (function emit_normal) inst_normal 3145731 10
    ∷ op 0x6 "btrL" 2 2 4 1 0 0 (function emit_normal) inst_normal 3145731 10
    ∷ op 0x7 "btcL" 2 2 4 1 0 0 (function emit_normal) inst_normal 3145731 10
    ∷ []
