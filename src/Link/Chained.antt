-- ===== src/Link/Chained.antt =====
-- A direct jump that is set after its destination was translated.
use unitrans.Blocks.Creation.{update-new}
use unitrans.Blocks.Invariant.{IsLinked}
use unitrans.Blocks.Make.{note_jmp_from, tb_add_jmp_from}
use unitrans.Blocks.Relinked.{SameLinks, SameLinks-IsLinked, update-SameLinks}
use unitrans.Blocks.Ring.{IsRing, note_jmp_from-IsRing, Recorded, note_jmp_from-Recorded}
use unitrans.Blocks.State.{Block, Blocks, update}
use unitrans.Common.{
  get_or, u32, sub32, ◌<◌, sym, ◌≢◌, arith, ap, ◌^◌, ◌≤◌, ◌+◌, ℕ, ◌⊎◌, ◌∙◌, subst, refl, ◌≡◌,
}
use unitrans.Emit.Memory.{Memory, store, le32}
use unitrans.Link.Jump.{tb_set_jmp_target1, tb_set_jmp_target, tb_add_jump}
use unitrans.Link.Lands.{LandsAt, point_at-LandsAt, point_at-elsewhere}
use unitrans.Link.Patch.{point_at}
use unitrans.Link.State.{Linker}

-- The displacement of the jump `n` of a block.
abbrev pub place_of : Block → ℕ → ℕ
place_of tb n = tb.tc_ptr + get_or tb.tb_jmp_offset n 0

-- A block with the three fields of the ring taken from another.
abbrev pub with_ring : Block → Block → Block
with_ring from b = record b {
  jmp_from = from.jmp_from;
  jmp_from_num = from.jmp_from_num;
  jmp_from_index = from.jmp_from_index;
}

pub record Joined (tb n tb_next : ℕ) (s t : Linker) : Type 0 where
  pub lands : LandsAt t.out.mem (place_of (s.blocks.tbs tb) n) (s.blocks.tbs tb_next).tc_ptr
  pub elsewhere :
      (x : ℕ)
      → x < place_of (s.blocks.tbs tb) n ⊎ place_of (s.blocks.tbs tb) n + 4 ≤ x
      → t.out.mem x ≡ s.out.mem x
  pub ring : IsRing (t.blocks.tbs tb_next)
  pub recorded : Recorded (t.blocks.tbs tb_next) (s.blocks.tbs tb_next).jmp_from_index (tb, n)
  pub linked : IsLinked t.blocks
  -- only the memory and the blocks differ, of the blocks only `tb_next`, and of that only the ring
  pub rest : t ≡ record s {
    out = record s.out { mem = t.out.mem };
    blocks = record s.blocks { tbs = t.blocks.tbs };
  }
  pub others : (i : ℕ) → i ≢ tb_next → t.blocks.tbs i ≡ s.blocks.tbs i
  pub fields : t.blocks.tbs tb_next ≡ with_ring (t.blocks.tbs tb_next) (s.blocks.tbs tb_next)

note_jmp_from-fields :
    (tb n : ℕ) (b : Block) → note_jmp_from tb n b ≡ with_ring (note_jmp_from tb n b) b
unfolding note_jmp_from
note_jmp_from-fields tb n b = refl

tb_add_jump-rest :
    (tb n tb_next : ℕ) (s : Linker)
    → tb_add_jump tb n tb_next s ≡ record s {
      out = record s.out { mem = (tb_add_jump tb n tb_next s).out.mem };
      blocks = record s.blocks { tbs = (tb_add_jump tb n tb_next s).blocks.tbs };
    }
unfolding tb_add_jump tb_add_jmp_from
tb_add_jump-rest tb n tb_next s = refl

pub update-elsewhere : {A : Type 0} (f : ℕ → A) (i j : ℕ) (v : A) → j ≢ i → update f i v j ≡ f j
update-elsewhere f i j v ne = ground arith

tb_add_jmp_from-others :
    (tb tb_next n i : ℕ) (b : Blocks)
    → i ≢ tb_next
    → (tb_add_jmp_from tb tb_next n b).tbs i ≡ b.tbs i
unfolding tb_add_jmp_from
tb_add_jmp_from-others tb tb_next n i b ne =
    update-elsewhere b.tbs tb_next i (note_jmp_from tb n (b.tbs tb_next)) ne

pub tb_add_jmp_from-SameLinks :
    (tb tb_next n : ℕ) (b : Blocks) → SameLinks b (tb_add_jmp_from tb tb_next n b)
unfolding tb_add_jmp_from note_jmp_from
tb_add_jmp_from-SameLinks tb tb_next n b =
    update-SameLinks b tb_next (note_jmp_from tb n (b.tbs tb_next)) refl refl refl

pub tb_add_jmp_from-at :
    (tb tb_next n : ℕ) (b : Blocks)
    → (tb_add_jmp_from tb tb_next n b).tbs tb_next ≡ note_jmp_from tb n (b.tbs tb_next)
unfolding tb_add_jmp_from
tb_add_jmp_from-at tb tb_next n b = update-new b.tbs tb_next (note_jmp_from tb n (b.tbs tb_next))

set_target-point_at :
    (m : Memory) (tb : Block) (n to : ℕ)
    → place_of tb n + 4 ≤ 2 ^ 32
    → tb_set_jmp_target tb n to m ≡ point_at (place_of tb n) to m
unfolding tb_set_jmp_target tb_set_jmp_target1
set_target-point_at m tb n to room =
    let at_place : u32 (tb.tc_ptr + get_or tb.tb_jmp_offset n 0) ≡ place_of tb n =
      omega (arith, room) in
    let place = place_of tb n in
    ap (λ (k : ℕ). store m k (le32 (sub32 to (u32 (k + 4))))) at_place
    ∙ ap (λ (v : ℕ). store m place (le32 v)) (same_word place to room)
  where
    same_word :
        (place to : ℕ) → place + 4 ≤ 2 ^ 32 → sub32 to (u32 (place + 4)) ≡ sub32 (sub32 to place) 4
    same_word place to room = omega (arith, room)

-- Let the code address of `tb_next` be a 32-bit word and the displacement of the jump `n` of `tb` be
-- inside the address space. After `tb_add_jump` the jump lands on the code of `tb_next`, no other
-- byte has changed, the ring of `tb_next` has the jump as its newest entry, and the blocks are
-- linked as they were. Apart from the memory and the three fields of that ring the state is the same.
pub tb_add_jump-Joined :
    (tb n tb_next : ℕ) (s : Linker)
    → IsLinked s.blocks
    → IsRing (s.blocks.tbs tb_next)
    → place_of (s.blocks.tbs tb) n + 4 ≤ 2 ^ 32
    → (s.blocks.tbs tb_next).tc_ptr < 2 ^ 32
    → Joined tb n tb_next s (tb_add_jump tb n tb_next s)
unfolding tb_add_jump
tb_add_jump-Joined tb n tb_next s l r room lt =
    let m = s.out.mem in
    let b = s.blocks.tbs tb in
    let to = (s.blocks.tbs tb_next).tc_ptr in
    let mem_is = set_target-point_at m b n to room in
    let block_is = sym (tb_add_jmp_from-at tb tb_next n s.blocks) in
    record {
      lands =
          subst (λ (k : Memory). LandsAt k (place_of b n) to) (sym mem_is)
            (point_at-LandsAt m (place_of b n) to room lt);
      elsewhere =
          λ x away. ap (λ (k : Memory). k x) mem_is ∙ point_at-elsewhere m (place_of b n) to x away;
      ring = subst IsRing block_is (note_jmp_from-IsRing tb n (s.blocks.tbs tb_next) r);
      recorded =
          subst (λ (x : Block). Recorded x (s.blocks.tbs tb_next).jmp_from_index (tb, n)) block_is
            (note_jmp_from-Recorded tb n (s.blocks.tbs tb_next) r);
      linked = SameLinks-IsLinked (tb_add_jmp_from-SameLinks tb tb_next n s.blocks) l;
      rest = tb_add_jump-rest tb n tb_next s;
      others = λ i ne. tb_add_jmp_from-others tb tb_next n i s.blocks ne;
      fields =
          subst (λ (x : Block). x ≡ with_ring x (s.blocks.tbs tb_next)) block_is
            (note_jmp_from-fields tb n (s.blocks.tbs tb_next));
    }
