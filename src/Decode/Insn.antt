-- ===== src/Decode/Insn.antt =====
-- target-i386/decode.c: `simple_disas_insn`, a stage for each paragraph of it. `IS_IFAULT` is 0
-- outside supervisor mode, so `handle_ifault` is never reached.
use unitrans.Common.{
  ltb, ◌==◌, if◌then◌else◌, u8, u32, has, sext8, ◌&&◌, ◌||◌, bit_or, false, ◌+◌, bit_xor, ℕ, true,
  not, zero, suc, Bool,
}
use unitrans.Decode.Fetch.{
  Code, ldub_code, read_in_next_byte, read_in_next_word, read_in_next_long, table_of, entry_at,
}
use unitrans.Decode.OpCode.{Table, nopbyte0, Pointer, null, function, table, OpCode}
use unitrans.Decode.Run.{Run, ok, out_of_fuel, ◌>>=◌}
use unitrans.Decode.State.{
  df_modrm, df_ib, df_iv, df_jv, df_ob, df_ov, df_prefix, df_undefined, df_table, df_group, df_iw,
  df_ap, df_float, df_one_more_level, dsfl_group1_prefix, dsfl_group2_prefix, dsfl_group3_prefix,
  dsfl_group4_prefix, opstate_addr32, opstate_data32, modrm_rm, modrm_reg, modrm_mod, sib_base,
  Decode, Prefix, group1, group2, opsz, addrsz, other, prefix_kind,
}

-- The fields that the function sets at its start; the others keep what `ds` held.
unfoldable pub start : Decode → ℕ → Decode
start ds pc = record ds {
  decode_eip = pc;
  attr = 0;
  emitfn = null;
  modrm_regs = 0;
  need_sib = false;
  disp_bytes = 0;
  no_of_prefixes = 0;
  group1_prefix = 0;
  group2_prefix = 0;
  group3_prefix = 0;
  group4_prefix = 0;
  flags = 0;
  opstate = bit_or opstate_data32 opstate_addr32;
}

-- The switch on the prefix byte `ds->b`.
unfoldable pub note_prefix : Prefix → Decode → Decode
note_prefix group1 ds = record ds {
  flags = bit_or ds.flags dsfl_group1_prefix;
  group1_prefix = u8 ds.b;
}
note_prefix group2 ds = record ds {
  flags = bit_or ds.flags dsfl_group2_prefix;
  group2_prefix = u8 ds.b;
}
note_prefix opsz ds = record ds {
  flags = bit_or ds.flags dsfl_group3_prefix;
  opstate = bit_xor ds.opstate opstate_data32;
  group3_prefix = u8 ds.b;
}
note_prefix addrsz ds = record ds {
  flags = bit_or ds.flags dsfl_group4_prefix;
  opstate = bit_xor ds.opstate opstate_addr32;
  group4_prefix = u8 ds.b;
}
note_prefix other ds = ds

-- One round of the prefix loop on a byte that is a prefix.
unfoldable pub step_prefix : Decode → Decode
unfolding note_prefix prefix_kind
step_prefix ds =
    let counted = record ds { no_of_prefixes = u8 (ds.no_of_prefixes + 1) } in
    let noted = note_prefix (prefix_kind ds.b) counted in
    record noted { decode_eip = u32 (noted.decode_eip + 1) }

unfoldable pub prefix_loop : ℕ → Code → Decode → Run Decode
unfolding entry_at step_prefix
prefix_loop zero m ds = out_of_fuel
prefix_loop (suc f) m ds = do
  let byte = ldub_code m ds.decode_eip
  e ← entry_at nopbyte0 byte
  let seen = record ds { b = byte; attr = e.attr }
  let rest = prefix_loop f m (step_prefix seen)
  if has e.attr df_prefix then rest else ok seen

-- A floating-point opcode: the modrm byte is read here, and selects the entry.
unfoldable pub float_entry : Code → OpCode → Decode → Run (OpCode × Decode)
unfolding table_of entry_at
float_entry m e ds = do
  t ← table_of e.ptr
  let byte = ldub_code m ds.decode_eip
  let ds' = record ds { b = byte; decode_eip = u32 (ds.decode_eip + 1); modrm = u8 byte }
  elim (modrm_mod ds'.modrm == 3) [
    | true ↦ do
      e₁ ← entry_at t (modrm_reg ds'.modrm + 8)
      elim (has e₁.attr df_one_more_level) [
        | true ↦ do
          t₂ ← table_of e₁.ptr
          e₂ ← entry_at t₂ (modrm_rm ds'.modrm)
          ok (e₂, record ds' { attr = e₂.attr })
        | false ↦ ok (e₁, record ds' { attr = e₁.attr })
      ]
    | false ↦ do e₁ ← entry_at t (modrm_reg ds'.modrm); ok (e₁, record ds' { attr = e₁.attr })
  ]

-- The loop over opcode bytes. The flag says that the modrm byte has been read (`wierd`).
unfoldable pub opcode_loop : ℕ → Code → Table → Decode → Run (OpCode × Bool × Decode)
unfolding entry_at table_of float_entry
opcode_loop zero m t ds = out_of_fuel
opcode_loop (suc f) m t ds = do
  let byte = ldub_code m ds.decode_eip
  e ← entry_at t byte
  let ds' = record ds { b = byte; attr = e.attr; decode_eip = u32 (ds.decode_eip + 1) }
  elim (has e.attr df_table) [
    | true ↦ do t' ← table_of e.ptr; opcode_loop f m t' ds'
    | false ↦ elim (has e.attr df_float) [
      | true ↦ do (e', ds'') ← float_entry m e ds'; ok (e', true, ds'')
      | false ↦ ok (e, false, ds')
    ]
  ]

-- The modrm byte, unless it has been read already.
unfoldable pub read_modrm : Code → Bool → Decode → Decode
unfolding read_in_next_byte
read_modrm m wierd ds =
    if not wierd && has ds.attr (bit_or df_modrm df_group) then read_in_next_byte m ds else ds

-- The group's entry that the reg field selects.
unfoldable pub select_group : OpCode → Decode → Run (OpCode × Decode)
unfolding table_of entry_at
select_group e ds = elim (has ds.attr df_group) [
  | true ↦ do
    let ds' = record ds { modrm = u8 ds.b }
    t ← table_of e.ptr
    g ← entry_at t (modrm_reg ds'.modrm)
    ok (g, record ds' { attr = bit_or ds'.attr g.attr })
  | false ↦ ok (e, ds)
]

unfoldable pub keep_modrm : Decode → Decode
keep_modrm ds = if has ds.attr df_modrm then record ds { modrm = u8 ds.b } else ds

unfoldable pub fetch_modrm : Code → OpCode → Bool → Decode → Run (OpCode × Decode)
unfolding read_modrm select_group keep_modrm
fetch_modrm m e wierd ds = do
  (e', ds') ← select_group e (read_modrm m wierd ds)
  ok (e', keep_modrm ds')

-- `ds->dispBytes`, from the mod and rm fields, before the sib byte is seen.
unfoldable pub disp_bytes_of : Bool → ℕ → ℕ → ℕ
disp_bytes_of true mod' rm =
    if mod' == 0 && rm == 5 then 4 else if mod' == 1 then 1 else if mod' == 2 then 4 else 0
disp_bytes_of false mod' rm =
    if mod' == 0 && rm == 6 then 2 else if mod' == 1 then 1 else if mod' == 2 then 2 else 0

-- The sib byte: a base of 5 without a displacement means one of four bytes.
unfoldable pub note_sib : Decode → Decode
note_sib ds =
    let ds' = record ds { sib = u8 ds.b } in
    if sib_base ds'.sib == 5 && modrm_mod ds'.modrm == 0 then record ds' { disp_bytes = 4 } else ds'

unfoldable pub fetch_sib : Code → Decode → Decode
unfolding read_in_next_byte note_sib
fetch_sib m ds = if ds.need_sib then note_sib (read_in_next_byte m ds) else ds

unfoldable pub fetch_displacement : Code → Decode → Decode
unfolding read_in_next_byte read_in_next_word read_in_next_long
fetch_displacement m ds =
    if ds.disp_bytes == 0
    then ds
    else let ds₁ =
        if ltb 2 ds.disp_bytes
        then read_in_next_long m ds
        else if ltb 1 ds.disp_bytes
        then read_in_next_word m ds
        else read_in_next_byte m ds in
      record ds₁ { displacement = ds₁.b }

-- What the mod and rm fields ask for.
unfoldable pub note_mode : Decode → Decode
unfolding disp_bytes_of
note_mode ds =
    let wide = has ds.opstate opstate_addr32 in
    let mod' = modrm_mod ds.modrm in
    let rm = modrm_rm ds.modrm in
    record ds {
      need_sib = wide && not (mod' == 3) && rm == 4 || ds.need_sib;
      disp_bytes = disp_bytes_of wide mod' rm;
    }

unfoldable pub fetch_address : Code → Decode → Decode
unfolding note_mode fetch_sib fetch_displacement
fetch_address m ds =
    if has ds.attr (bit_or df_modrm df_group)
    then fetch_displacement m (fetch_sib m (note_mode ds))
    else ds

-- An operand of two or four bytes, by a bit of `opstate`.
unfoldable pub fetch_sized : ℕ → Code → Decode → Decode
unfolding read_in_next_word read_in_next_long
fetch_sized bit m ds =
    let ds₁ = if has ds.opstate bit then read_in_next_long m ds else read_in_next_word m ds in
    record ds₁ { immediate = ds₁.b }

unfoldable pub fetch_imm16 : Code → Decode → Decode
unfolding read_in_next_word
fetch_imm16 m ds = let ds₁ = read_in_next_word m ds in record ds₁ { imm16 = ds₁.b }

unfoldable pub fetch_imm8 : Code → Decode → Decode
unfolding read_in_next_byte
fetch_imm8 m ds = let ds₁ = read_in_next_byte m ds in record ds₁ { immediate = sext8 ds₁.b }

-- The operands, in the order of the source.
unfoldable pub fetch_operands : Code → Decode → Decode
unfolding fetch_sized fetch_imm16 fetch_imm8
fetch_operands m ds₀ =
    let ds₁ = if has ds₀.attr df_iw then fetch_imm16 m ds₀ else ds₀ in
    let ds₂ = if has ds₁.attr df_ib then fetch_imm8 m ds₁ else ds₁ in
    let ds₃ = if has ds₂.attr df_iv then fetch_sized opstate_data32 m ds₂ else ds₂ in
    let ds₄ =
      if has ds₃.attr df_ov || has ds₃.attr df_ob then fetch_sized opstate_addr32 m ds₃ else ds₃ in
    let ds₅ = if has ds₄.attr (bit_or df_jv df_ap) then fetch_sized opstate_data32 m ds₄ else ds₄ in
    if has ds₅.attr df_ap then fetch_imm16 m ds₅ else ds₅

abbrev pub is_null : Pointer → Bool
is_null null = true
is_null (function f) = false
is_null (table t) = false

-- The last paragraph: the emitter, and whether the opcode is a defined one.
unfoldable pub finish : Code → OpCode → Decode → Bool × Decode
finish m e ds₀ =
    let ds = record ds₀ { p_instr = ldub_code m ds₀.decode_eip; emitfn = e.ptr; p_entry = e } in
    if has ds.attr df_undefined || is_null e.ptr
    then (false, ds)
    else (true, record ds { inst_type = e.inst_type })

-- `fuel` bounds the prefixes; two rounds are enough for the opcode bytes.
unfoldable pub simple_disas_insn : ℕ → Code → Decode → ℕ → Run (Bool × Decode)
unfolding start prefix_loop opcode_loop fetch_modrm fetch_address fetch_operands finish
simple_disas_insn fuel m ds pc = do
  ds₁ ← prefix_loop fuel m (start ds pc)
  (e, wierd, ds₂) ← opcode_loop 2 m nopbyte0 (record ds₁ { instr = ds₁.decode_eip })
  (e', ds₃) ← fetch_modrm m e wierd ds₂
  ok (finish m e' (fetch_operands m (fetch_address m ds₃)))
