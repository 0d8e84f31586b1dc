-- ===== src/Decode/Length/Opcode.antt =====
-- The opcode bytes and the modrm byte: no table is read out of range, and an entry that passed the
-- check leaves room for what follows.
-- The code is made of bytes.
use unitrans.Common.{
  ◌==◌, leb→le, Bool-cases, and_left, and_right, u8, u32, has, refl, true, arith, inr, inl, ◌≡◌,
  bit_or, subst, ◌∙◌, ◌<◌, sym, Bool, ◌≤◌, ◌^◌, ℕ, ap, false, ◌+◌,
}
use unitrans.Decode.Fetch.{Code, ldub_code, read_in_next_byte, table_of, entry_at}
use unitrans.Decode.Insn.{float_entry, read_modrm, select_group, keep_modrm, fetch_modrm}
use unitrans.Decode.Length.Tables.{
  tail_bytes, modrm_bytes, table_ok, entries_ok, group_entry_ok, leaf_ok, float_leaf_ok,
  entry_at-entries_ok, table_of-table_ok,
}
use unitrans.Decode.OpCode.{Table, OpCode}
use unitrans.Decode.Run.{ok, ◌>>=◌, Returns}
use unitrans.Decode.State.{df_group, df_one_more_level, modrm_rm, modrm_reg, modrm_mod, Decode}

abbrev pub IsBytes : Code → Type 0
IsBytes m = (a : ℕ) → m a < 256

-- `count` bytes behind `from`, with room for the operands that the attributes ask for.
pub record Fits (from : ℕ) (ds : Decode) : Type 0 where
  pub count : ℕ
  pub moved : ds.decode_eip ≡ u32 (from + count)
  pub some_byte : 1 ≤ count
  pub room : count + tail_bytes ds.attr ≤ 11

read_modrm_lem :
    (m : Code) (w : Bool) (ds : Decode)
    → ds.decode_eip < 2 ^ 32
    → ((read_modrm m w ds).attr ≡ ds.attr)
      × ((read_modrm m w ds).decode_eip ≡ u32 (ds.decode_eip + modrm_bytes w ds.attr))
unfolding read_modrm read_in_next_byte
read_modrm_lem m w ds h = (ground arith, ground arith)

keep_modrm_lem :
    (ds : Decode) → ((keep_modrm ds).attr ≡ ds.attr) × ((keep_modrm ds).decode_eip ≡ ds.decode_eip)
unfolding keep_modrm
keep_modrm_lem ds = (ground arith, ground arith)

-- `n` opcode bytes have been read behind `from`.
pub record Opened (w : Bool) (from : ℕ) (e : OpCode) (ds : Decode) : Type 0 where
  pub count : ℕ
  pub moved : ds.decode_eip ≡ u32 (from + count)
  pub some_byte : 1 ≤ count
  pub leaf : leaf_ok w count e ≡ true
  pub same : ds.attr ≡ e.attr

select_group_here :
    (e : OpCode) (ds : Decode) (t : Table) (g : OpCode)
    → has ds.attr df_group ≡ true
    → table_of e.ptr ≡ ok t
    → entry_at t (modrm_reg (u8 ds.b)) ≡ ok g
    → select_group e ds ≡ ok (g, record ds { modrm = u8 ds.b; attr = bit_or ds.attr g.attr })
unfolding select_group
select_group_here e ds t g h p q = rw (select_group, h, p, q)

select_group_else :
    (e : OpCode) (ds : Decode) → has ds.attr df_group ≡ false → select_group e ds ≡ ok (e, ds)
unfolding select_group
select_group_else e ds h = rw (select_group, h)

module _ (w : Bool) (from : ℕ) (e : OpCode) (n : ℕ) (pos : 1 ≤ n)
    (leaf : leaf_ok w n e ≡ true) where
  select_group-Fits :
      (ds : Decode)
      → ds.attr ≡ e.attr
      → ds.decode_eip ≡ u32 (from + n + modrm_bytes w e.attr)
      → Returns (select_group e ds) (λ r. Fits from r.1)
  select_group-Fits ds same moved = elim (Bool-cases (has ds.attr df_group)) [
    | inl g ↦
        let here : has e.attr df_group ≡ true = ap (λ (a : ℕ). has a df_group) (sym same) ∙ g in
        let (t, is_t, t_ok) =
          table_of-table_ok (entries_ok 8 (group_entry_ok w n e)) e.ptr (rw here at leaf) in
        let (e', is_e', e'_ok) =
          entry_at-entries_ok 8 (group_entry_ok w n e) t (modrm_reg (u8 ds.b)) t_ok (omega arith) in
        let ds' = record ds { modrm = u8 ds.b; attr = bit_or ds.attr e'.attr } in
        (
          (e', ds'),
          select_group_here e ds t e' g is_t is_e',
          record {
            count = n + modrm_bytes w e.attr;
            moved = omega (arith, moved);
            some_byte = omega arith;
            room =
                subst (λ (a : ℕ). n + modrm_bytes w e.attr + tail_bytes (bit_or a e'.attr) ≤ 11)
                  (sym same) (leb→le _ _ e'_ok);
          },
        )
    | inr ng ↦
        let here : has e.attr df_group ≡ false = ap (λ (a : ℕ). has a df_group) (sym same) ∙ ng in
        (
          (e, ds),
          select_group_else e ds ng,
          record {
            count = n + modrm_bytes w e.attr;
            moved = omega (arith, moved);
            some_byte = omega arith;
            room =
                subst (λ (a : ℕ). n + modrm_bytes w e.attr + tail_bytes a ≤ 11) (sym same)
                  (leb→le _ _ (rw here at leaf));
          },
        )
  ]

pub fetch_modrm-Fits :
    (m : Code) (w : Bool) (from : ℕ) (e : OpCode) (ds : Decode)
    → Opened w from e ds
    → Returns (fetch_modrm m e w ds) (λ r. Fits from r.1)
unfolding fetch_modrm
fetch_modrm-Fits m w from e ds o =
    let ds₁ = read_modrm m w ds in
    let (kept, read) = read_modrm_lem m w ds (omega (arith, o.moved)) in
    let moved : ds₁.decode_eip ≡ u32 (from + o.count + modrm_bytes w e.attr) =
      subst (λ (a : ℕ). ds₁.decode_eip ≡ u32 (from + o.count + modrm_bytes w a)) o.same
        (omega (arith, read, o.moved)) in
    let (r, run, f) =
      select_group-Fits w from e o.count o.some_byte o.leaf ds₁ (kept ∙ o.same) moved in
    let (k, p) = keep_modrm_lem r.1 in
    (
      (r.0, keep_modrm r.1),
      rw run,
      record { count = f.count; moved = p ∙ f.moved; some_byte = f.some_byte; room = rw k f.room },
    )

-- The floating-point opcodes: one opcode byte and the modrm byte.
float_entry_two :
    (m : Code) (e : OpCode) (ds : Decode) (t t' : Table) (f g : OpCode)
    → let b = ldub_code m ds.decode_eip in
      table_of e.ptr ≡ ok t
      → (modrm_mod (u8 b) == 3) ≡ true
      → entry_at t (modrm_reg (u8 b) + 8) ≡ ok f
      → has f.attr df_one_more_level ≡ true
      → table_of f.ptr ≡ ok t'
      → entry_at t' (modrm_rm (u8 b)) ≡ ok g
      → float_entry m e ds
        ≡ ok (
          g,
          record ds { b = b; decode_eip = u32 (ds.decode_eip + 1); modrm = u8 b; attr = g.attr },
        )
unfolding float_entry
float_entry_two m e ds t t' f g p₁ p₂ p₃ p₄ p₅ p₆ = rw (float_entry, p₁, p₂, p₃, ◌>>=◌, p₄, p₅, p₆)

float_entry_reg :
    (m : Code) (e : OpCode) (ds : Decode) (t : Table) (f : OpCode)
    → let b = ldub_code m ds.decode_eip in
      table_of e.ptr ≡ ok t
      → (modrm_mod (u8 b) == 3) ≡ true
      → entry_at t (modrm_reg (u8 b) + 8) ≡ ok f
      → has f.attr df_one_more_level ≡ false
      → float_entry m e ds
        ≡ ok (
          f,
          record ds { b = b; decode_eip = u32 (ds.decode_eip + 1); modrm = u8 b; attr = f.attr },
        )
unfolding float_entry
float_entry_reg m e ds t f p₁ p₂ p₃ p₄ = rw (float_entry, p₁, p₂, p₃, ◌>>=◌, p₄)

float_entry_mem :
    (m : Code) (e : OpCode) (ds : Decode) (t : Table) (f : OpCode)
    → let b = ldub_code m ds.decode_eip in
      table_of e.ptr ≡ ok t
      → (modrm_mod (u8 b) == 3) ≡ false
      → entry_at t (modrm_reg (u8 b)) ≡ ok f
      → float_entry m e ds
        ≡ ok (
          f,
          record ds { b = b; decode_eip = u32 (ds.decode_eip + 1); modrm = u8 b; attr = f.attr },
        )
unfolding float_entry
float_entry_mem m e ds t f p₁ p₂ p₃ = rw (float_entry, p₁, p₂, p₃)

pub float_entry-Opened :
    (m : Code) (from : ℕ) (e : OpCode) (ds : Decode)
    → table_ok e.ptr (entries_ok 16 float_leaf_ok) ≡ true
    → ds.decode_eip ≡ u32 (from + 1)
    → Returns (float_entry m e ds) (λ r. Opened true from r.0 r.1)
float_entry-Opened m from e ds h moved =
    let b = ldub_code m ds.decode_eip in
    let (t, is_t, t_ok) = table_of-table_ok (entries_ok 16 float_leaf_ok) e.ptr h in
    elim (Bool-cases (modrm_mod (u8 b) == 3)) [
      | inr mem ↦
          let (f, is_f, f_ok) =
            entry_at-entries_ok 16 float_leaf_ok t (modrm_reg (u8 b)) t_ok (omega arith) in
          (
            _,
            float_entry_mem m e ds t f is_t mem is_f,
            record {
              count = 2;
              moved = omega (arith, moved);
              some_byte = omega arith;
              leaf = and_left _ f_ok;
              same = refl;
            },
          )
      | inl reg ↦
          let (f, is_f, f_ok) =
            entry_at-entries_ok 16 float_leaf_ok t (modrm_reg (u8 b) + 8) t_ok (omega arith) in
          elim (Bool-cases (has f.attr df_one_more_level)) [
            | inr leaf ↦ (
              _,
              float_entry_reg m e ds t f is_t reg is_f leaf,
              record {
                count = 2;
                moved = omega (arith, moved);
                some_byte = omega arith;
                leaf = and_left _ f_ok;
                same = refl;
              },
            )
            | inl more ↦
                let (t', is_t', t'_ok) =
                  table_of-table_ok (entries_ok 8 (leaf_ok true 2)) f.ptr
                    (rw more at (and_right (leaf_ok true 2 f) f_ok)) in
                let (g, is_g, g_ok) =
                  entry_at-entries_ok 8 (leaf_ok true 2) t' (modrm_rm (u8 b)) t'_ok (omega arith) in
                (
                  _,
                  float_entry_two m e ds t t' f g is_t reg is_f more is_t' is_g,
                  record {
                    count = 2;
                    moved = omega (arith, moved);
                    some_byte = omega arith;
                    leaf = g_ok;
                    same = refl;
                  },
                )
          ]
    ]
