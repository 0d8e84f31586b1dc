-- ===== src/Link/Patched.antt =====
-- One round of `lazy_patch`: the jump goes to the code of its destination, or to code that leaves the
-- cache for it.
use unitrans.Blocks.Creation.{update-new}
use unitrans.Blocks.Invariant.{IsLinked, Holds}
use unitrans.Blocks.Make.{note_jmp_from, tb_add_jmp_from}
use unitrans.Blocks.Relinked.{SameLinks, SameLinks-IsLinked, SameLinks-Holds, update-SameLinks}
use unitrans.Blocks.Ring.{IsRing, Recorded, note_jmp_from-Recorded}
use unitrans.Blocks.State.{not_trans_yet, Block, Blocks, update}
use unitrans.Cache.Emission.{apart}
use unitrans.Common.{
  ◌==◌, ==_iff, Bool-cases, length, set, all, u16, sub32, sym, ◌^◌, ◌≡◌, arith, true, ◌+◌, inl, ◌⊎◌,
  inr, ◌∙◌, refl, ◌≢◌, [], ℕ, ◌≤◌, subst, ap, ◌<◌, ◌∷◌, ◌++◌, List,
}
use unitrans.Emit.Memory.{Memory, le32, Out, code_emit8, code_emit32, ◌▷◌}
use unitrans.Emit.Stored.{Spells, store-Spells, are_bytes, le32-bytes, all-append}
use unitrans.Emit.Trace.{Emitted, nothing, then8, then32}
use unitrans.Link.Chained.{tb_add_jmp_from-SameLinks, tb_add_jmp_from-at}
use unitrans.Link.Lands.{LandsAt, point_at-LandsAt, point_at-elsewhere, LandsAt-same}
use unitrans.Link.Patch.{close_jump, emit_exit_stub, point_at, patch_direct, patch_stub}
use unitrans.Link.State.{PatchEntry, Linker, Layout}
use unitrans.Sieve.Linking.{store-away}

-- What the stub for the jump `n` of the block `tb` spells at `a`.
abbrev pub exit_bytes : Layout → ℕ → ℕ → ℕ → ℕ → List ℕ
exit_bytes l tb n to a =
    ((0xc7 ∷ 0x05 ∷ []) ++ le32 l.ret_tb_addr ++ le32 (l.tb_addr tb))
    ++ ((0xc7 ∷ 0x05 ∷ []) ++ le32 l.patch_num_addr ++ le32 n)
    ++ ((0xc7 ∷ 0x05 ∷ []) ++ le32 l.eip_addr ++ le32 to)
    ++ (0xe9 ∷ [])
    ++ le32 (sub32 (sub32 l.tb_ret_addr (a + 31)) 4)

-- A move of a word to a field of `env`.
mov_bytes-bytes : (addr v : ℕ) → are_bytes ((0xc7 ∷ 0x05 ∷ []) ++ le32 addr ++ le32 v) ≡ true
unfolding all
mov_bytes-bytes addr v =
    all-append (0xc7 ∷ 0x05 ∷ le32 addr) (le32 v) (opcode_bytes addr) (le32-bytes v)
  where
    opcode_bytes : (addr : ℕ) → are_bytes (0xc7 ∷ 0x05 ∷ le32 addr) ≡ true
    opcode_bytes addr = le32-bytes addr

exit_bytes-bytes : (l : Layout) (tb n to a : ℕ) → are_bytes (exit_bytes l tb n to a) ≡ true
unfolding all
exit_bytes-bytes l tb n to a =
    let rel = sub32 (sub32 l.tb_ret_addr (a + 31)) 4 in
    let first : List ℕ = (0xc7 ∷ 0x05 ∷ []) ++ le32 l.ret_tb_addr ++ le32 (l.tb_addr tb) in
    let second : List ℕ = (0xc7 ∷ 0x05 ∷ []) ++ le32 l.patch_num_addr ++ le32 n in
    let third : List ℕ = (0xc7 ∷ 0x05 ∷ []) ++ le32 l.eip_addr ++ le32 to in
    let jump : List ℕ = (0xe9 ∷ []) ++ le32 rel in
    all-append first (second ++ third ++ jump) (mov_bytes-bytes l.ret_tb_addr (l.tb_addr tb)) (
      all-append second (third ++ jump) (mov_bytes-bytes l.patch_num_addr n)
        (all-append third jump (mov_bytes-bytes l.eip_addr to) (le32-bytes rel)))

emit_exit_stub-Emitted :
    (l : Layout) (tb n to : ℕ) (o : Out)
    → Emitted o (emit_exit_stub l tb n to o) (exit_bytes l tb n to o.code_ptr)
unfolding emit_exit_stub
emit_exit_stub-Emitted l tb n to o =
    let e₁ = then32 (l.tb_addr tb) (then32 l.ret_tb_addr (then8 0x05 (then8 0xc7 (nothing o)))) in
    let e₂ = then32 n (then32 l.patch_num_addr (then8 0x05 (then8 0xc7 e₁))) in
    let e₃ = then8 0xe9 (then32 to (then32 l.eip_addr (then8 0x05 (then8 0xc7 e₂)))) in
    let o₁ =
      o
      ▷ code_emit8 0xc7
      ▷ code_emit8 0x05
      ▷ code_emit32 l.ret_tb_addr
      ▷ code_emit32 (l.tb_addr tb)
      ▷ code_emit8 0xc7
      ▷ code_emit8 0x05
      ▷ code_emit32 l.patch_num_addr
      ▷ code_emit32 n
      ▷ code_emit8 0xc7
      ▷ code_emit8 0x05
      ▷ code_emit32 l.eip_addr
      ▷ code_emit32 to
      ▷ code_emit8 0xe9 in
    let front =
      ((0xc7 ∷ 0x05 ∷ []) ++ le32 l.ret_tb_addr ++ le32 (l.tb_addr tb))
      ++ ((0xc7 ∷ 0x05 ∷ []) ++ le32 l.patch_num_addr ++ le32 n)
      ++ ((0xc7 ∷ 0x05 ∷ []) ++ le32 l.eip_addr ++ le32 to)
      ++ (0xe9 ∷ []) in
    subst
      (λ (k : ℕ).
        Emitted o (emit_exit_stub l tb n to o) (front ++ le32 (sub32 (sub32 l.tb_ret_addr k) 4)))
      e₃.moved (then32 (sub32 (sub32 l.tb_ret_addr o₁.code_ptr) 4) e₃)

-- The block of the jump behind a round: one open jump less, and the distance of the jump noted.
abbrev pub closed : ℕ → Block → Block
closed place tb = record tb {
  patch_num = sub32 tb.patch_num 1;
  tb_jmp_offset = set tb.tb_jmp_offset (sub32 tb.patch_num 1) (u16 (sub32 place tb.tc_ptr));
}

-- The destination has code, the jump lands on it, and the block of the destination has noted the jump.
pub record Direct (p : PatchEntry) (s t : Linker) : Type 0 where
  pub dest : ℕ
  pub is_dest : Holds s.blocks p.to p.tb_tag dest
  pub has_code : (s.blocks.tbs dest).tc_ptr ≢ not_trans_yet
  pub lands : LandsAt t.out.mem p.place (s.blocks.tbs dest).tc_ptr
  pub elsewhere : (x : ℕ) → x < p.place ⊎ p.place + 4 ≤ x → t.out.mem x ≡ s.out.mem x
  pub linked : IsLinked t.blocks
  pub recorded :
      Recorded
        (t.blocks.tbs dest)
        (s.blocks.tbs dest).jmp_from_index
        (p.tb, sub32 (s.blocks.tbs p.tb).patch_num 1)
  pub number : (t.blocks.tbs p.tb).patch_num ≡ sub32 (s.blocks.tbs p.tb).patch_num 1

-- The destination has none, there is a block for it now, and the jump lands on a new stub.
pub record Stubbed (l : Layout) (p : PatchEntry) (s t : Linker) : Type 0 where
  pub dest : ℕ
  pub is_dest : Holds t.blocks p.to p.tb_tag dest
  pub is_closed : t.blocks.tbs p.tb ≡ closed p.place (s.blocks.tbs p.tb)
  pub lands : LandsAt t.out.mem p.place s.out.code_ptr
  pub stub :
      Spells t.out.mem s.out.code_ptr
        (exit_bytes l p.tb (sub32 (s.blocks.tbs p.tb).patch_num 1) p.to s.out.code_ptr)
  pub end : t.out.code_ptr ≡ s.out.code_ptr + 35
  pub elsewhere :
      (x : ℕ)
      → x < p.place ⊎ p.place + 4 ≤ x
      → x < s.out.code_ptr ⊎ s.out.code_ptr + 35 ≤ x
      → t.out.mem x ≡ s.out.mem x
  pub linked : IsLinked t.blocks

close_jump-SameLinks : (i place : ℕ) (b : Blocks) → SameLinks b (close_jump i place b)
unfolding close_jump
close_jump-SameLinks i place b =
    let tb = b.tbs i in
    let n = sub32 tb.patch_num 1 in
    update-SameLinks b i
      (record tb {
        patch_num = n;
        tb_jmp_offset = set tb.tb_jmp_offset n (u16 (sub32 place tb.tc_ptr));
      })
      refl refl refl

-- A field that an update keeps.
update-field :
    {A : Type 0} (g : Block → A) (f : ℕ → Block) (i j : ℕ) (b : Block)
    → g b ≡ g (f i)
    → g (update f i b j) ≡ g (f j)
update-field g f i j b p = elim (Bool-cases (j == i)) [
  | inl same ↦ rw same (p ∙ ap (λ (k : ℕ). g (f k)) (sym ((==_iff j i).0 same)))
  | inr differ ↦ rw differ refl
]

close_jump-at : (i place : ℕ) (b : Blocks) → (close_jump i place b).tbs i ≡ closed place (b.tbs i)
unfolding close_jump
close_jump-at i place b = update-new b.tbs i (closed place (b.tbs i))

close_jump-field :
    {A : Type 0} (g : Block → A) (i place j : ℕ) (b : Blocks)
    → g (closed place (b.tbs i)) ≡ g (b.tbs i)
    → g ((close_jump i place b).tbs j) ≡ g (b.tbs j)
unfolding close_jump
close_jump-field g i place j b p = update-field g b.tbs i j (closed place (b.tbs i)) p

close_jump-IsRing :
    (i place j : ℕ) (b : Blocks) → IsRing (b.tbs j) → IsRing ((close_jump i place b).tbs j)
close_jump-IsRing i place j b r =
    let froms = close_jump-field (λ x. length x.jmp_from) i place j b refl in
    let nums = close_jump-field (λ x. length x.jmp_from_num) i place j b refl in
    let index = close_jump-field (λ x. x.jmp_from_index) i place j b refl in
    record {
      from_length = froms ∙ r.from_length;
      num_length = nums ∙ r.num_length;
      in_range = omega (arith, index, r.in_range);
    }

tb_add_jmp_from-number :
    (tb tb_next n i : ℕ) (b : Blocks)
    → ((tb_add_jmp_from tb tb_next n b).tbs i).patch_num ≡ (b.tbs i).patch_num
unfolding tb_add_jmp_from note_jmp_from
tb_add_jmp_from-number tb tb_next n i b =
    update-field (λ x. x.patch_num) b.tbs tb_next i (note_jmp_from tb n (b.tbs tb_next)) refl

pub patch_direct-Direct :
    (p : PatchEntry) (dest : ℕ) (s : Linker)
    → IsLinked s.blocks
    → Holds s.blocks p.to p.tb_tag dest
    → (s.blocks.tbs dest).tc_ptr ≢ not_trans_yet
    → p.place + 4 ≤ 2 ^ 32
    → (s.blocks.tbs dest).tc_ptr < 2 ^ 32
    → IsRing (s.blocks.tbs dest)
    → Direct p s (patch_direct p dest s)
unfolding patch_direct
patch_direct-Direct p dest s l held code room lt ring =
    let b = close_jump p.tb p.place s.blocks in
    let n = (b.tbs p.tb).patch_num in
    let number : n ≡ sub32 (s.blocks.tbs p.tb).patch_num 1 =
      ap (λ (x : Block). x.patch_num) (close_jump-at p.tb p.place s.blocks) in
    let index = close_jump-field (λ x. x.jmp_from_index) p.tb p.place dest s.blocks refl in
    let noted =
      note_jmp_from-Recorded p.tb n (b.tbs dest)
        (close_jump-IsRing p.tb p.place dest s.blocks ring) in
    let at_dest = sym (tb_add_jmp_from-at p.tb dest n b) in
    record {
      recorded =
          subst
            (λ (k : ℕ).
              Recorded ((tb_add_jmp_from p.tb dest n b).tbs dest) (s.blocks.tbs dest).jmp_from_index
                (p.tb, k))
            number
            (subst (λ (k : ℕ). Recorded ((tb_add_jmp_from p.tb dest n b).tbs dest) k (p.tb, n))
              index
              (subst (λ (x : Block). Recorded x (b.tbs dest).jmp_from_index (p.tb, n)) at_dest
                noted));
      number = tb_add_jmp_from-number p.tb dest n p.tb b ∙ number;
      dest = dest;
      is_dest = held;
      has_code = code;
      lands = point_at-LandsAt s.out.mem p.place (s.blocks.tbs dest).tc_ptr room lt;
      elsewhere = λ x away. point_at-elsewhere s.out.mem p.place (s.blocks.tbs dest).tc_ptr x away;
      linked =
          SameLinks-IsLinked (tb_add_jmp_from-SameLinks p.tb dest (b.tbs p.tb).patch_num b)
            (SameLinks-IsLinked (close_jump-SameLinks p.tb p.place s.blocks) l);
    }

away_from_stub :
    (x place a : ℕ)
    → place + 4 ≤ a ⊎ a + 35 ≤ place
    → place ≤ x
    → x < place + 4
    → x < a ⊎ a + 35 ≤ x
away_from_stub x place a (inl h) le lt = inl (omega (arith, h, lt))
away_from_stub x place a (inr h) le lt = inr (omega (arith, h, le))

pub patch_stub-Stubbed :
    (l : Layout) (p : PatchEntry) (dest : ℕ) (s : Linker)
    → IsLinked s.blocks
    → Holds s.blocks p.to p.tb_tag dest
    → p.place + 4 ≤ 2 ^ 32
    → s.out.code_ptr < 2 ^ 32
    → p.place + 4 ≤ s.out.code_ptr ⊎ s.out.code_ptr + 35 ≤ p.place
    → Stubbed l p s (patch_stub l p s)
unfolding patch_stub
patch_stub-Stubbed l p dest s linked held room lt apart =
    let b = close_jump p.tb p.place s.blocks in
    let n = (b.tbs p.tb).patch_num in
    let a = s.out.code_ptr in
    let m = point_at p.place a s.out.mem in
    let bytes = exit_bytes l p.tb n p.to a in
    let o = emit_exit_stub l p.tb n p.to (record { mem = m; code_ptr = a }) in
    let e = emit_exit_stub-Emitted l p.tb n p.to (record { mem = m; code_ptr = a }) in
    let outside = λ (x : ℕ) (away : x < a ⊎ a + 35 ≤ x).
      ap (λ (k : Memory). k x) e.stored ∙ store-away bytes m a x away in
    record {
      dest = dest;
      is_dest =
          SameLinks-Holds (close_jump-SameLinks p.tb p.place s.blocks) p.to p.tb_tag dest held;
      is_closed = close_jump-at p.tb p.place s.blocks;
      lands =
          LandsAt-same m o.mem p.place a
            (λ x le x_lt. outside x (away_from_stub x p.place a apart le x_lt))
            (point_at-LandsAt s.out.mem p.place a room lt);
      stub =
          subst (λ (k : ℕ). Spells o.mem a (exit_bytes l p.tb k p.to a))
            (ap (λ (x : Block). x.patch_num) (close_jump-at p.tb p.place s.blocks))
            (subst (λ (k : Memory). Spells k a bytes) (sym e.stored)
              (store-Spells bytes m a (exit_bytes-bytes l p.tb n p.to a)));
      end = e.moved;
      elsewhere = λ x away away'. outside x away' ∙ point_at-elsewhere s.out.mem p.place a x away;
      linked = SameLinks-IsLinked (close_jump-SameLinks p.tb p.place s.blocks) linked;
    }
