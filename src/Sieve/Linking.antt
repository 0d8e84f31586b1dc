-- ===== src/Sieve/Linking.antt =====
-- `link_node` writes a node and lets the slot jump to it.
use unitrans.Common.{
  length, u32, sub32, ap, refl, List, ◌^◌, [], ◌≡◌, sym, ◌∙◌, ℕ, inl, subst, ◌+◌, ◌∷◌, ◌⊎◌, arith,
  inr, ◌≤◌, ◌<◌,
}
use unitrans.Emit.Memory.{Memory, store, le32, load32, Out}
use unitrans.Emit.Stored.{
  Spells, store-below, store-above, store-Spells, Spells-same, Spells-right, load32-le32,
  le32-bytes,
}
use unitrans.Sieve.Chain.{JumpsTo, Node}
use unitrans.Sieve.Entry.{emit_node, link_node}
use unitrans.Sieve.Spelling.{node_bytes, emit_node-Emitted, spelled-Node, node_bytes-bytes}

-- What the linking of a node leaves in memory.
pub record Linked (se pc tc_ptr code_ptr onwards : ℕ) (m : Memory) (o : Out) : Type 0 where
  pub end : o.code_ptr ≡ code_ptr + 27
  pub new_node : Node o.mem code_ptr pc tc_ptr onwards
  pub slot : JumpsTo o.mem se code_ptr
  pub rest : (x : ℕ) → x < se ⊎ se + 5 ≤ x → x < code_ptr ⊎ code_ptr + 27 ≤ x → o.mem x ≡ m x

pub store-away :
    (bytes : List ℕ) (m : Memory) (a x : ℕ) → x < a ⊎ a + length bytes ≤ x → store m a bytes x ≡ m x
store-away bytes m a x (inl lt) = store-below bytes m a x lt
store-away bytes m a x (inr le) = store-above bytes m a x le

away_from : (x se p : ℕ) → se + 5 ≤ p ⊎ p + 27 ≤ se → se ≤ x → x < se + 5 → x < p ⊎ p + 27 ≤ x
away_from x se p (inl h) le lt = inl (omega (arith, h, le, lt))
away_from x se p (inr h) le lt = inr (omega (arith, h, le, lt))

beside : (x se : ℕ) → x < se ⊎ se + 5 ≤ x → x < se + 1 ⊎ se + 1 + 4 ≤ x
beside x se (inl h) = inl (omega (arith, h))
beside x se (inr h) = inr (omega (arith, h))

onwards-loaded :
    (se onwards : ℕ) (m : Memory)
    → JumpsTo m se onwards
    → se + 5 ≤ 2 ^ 32
    → u32 (u32 (se + 5) + load32 m (se + 1)) ≡ onwards
onwards-loaded se onwards m j room =
    let rel =
      load32-le32 m (se + 1) j.rel (Spells-right (0xe9 ∷ []) (le32 j.rel) m se j.spelled)
        j.rel_word in
    ap (λ (k : ℕ). u32 (u32 (se + 5) + k)) rel ∙ omega (arith, j.target, room)

slot_jumps :
    (se code_ptr d : ℕ) (m n : Memory)
    → m se ≡ 0xe9
    → d ≡ sub32 code_ptr (u32 (se + 5))
    → code_ptr < 2 ^ 32
    → se + 5 ≤ 2 ^ 32
    → ((x : ℕ) → se ≤ x → x < se + 5 → n x ≡ store m (se + 1) (le32 d) x)
    → JumpsTo n se code_ptr
unfolding Spells
slot_jumps se code_ptr d m n first d_is lt room same = record {
  rel = d;
  rel_word = omega (arith, d_is);
  to_word = lt;
  spelled =
      let here_same = same se (omega arith) (omega arith) in
      (
        here_same ∙ store-below (le32 d) m (se + 1) se (omega arith) ∙ first,
        Spells-same (le32 d) (store m (se + 1) (le32 d)) n (se + 1)
            (λ x le x_lt. same x (omega (arith, le)) (omega (arith, x_lt)))
            (store-Spells (le32 d) m (se + 1) (le32-bytes d)),
      );
  target = omega (arith, d_is, lt, room);
}

pub link_node-Linked :
    (se pc tc_ptr code_ptr onwards : ℕ) (m : Memory)
    → JumpsTo m se onwards
    → pc < 2 ^ 32
    → tc_ptr < 2 ^ 32
    → se + 5 ≤ 2 ^ 32
    → code_ptr + 27 ≤ 2 ^ 32
    → se + 5 ≤ code_ptr ⊎ code_ptr + 27 ≤ se
    → Linked se pc tc_ptr code_ptr onwards m (link_node se pc tc_ptr code_ptr m)
unfolding link_node Spells
link_node-Linked se pc tc_ptr code_ptr onwards m j pc_lt tc_lt se_room room apart =
    let d = sub32 code_ptr (u32 (se + 5)) in
    let m₁ = store m (se + 1) (le32 d) in
    let o₁ : Out = record { mem = m₁; code_ptr = code_ptr } in
    let after = u32 (u32 (se + 5) + load32 m (se + 1)) in
    let after_is = onwards-loaded se onwards m j se_room in
    let (rel, rel', rel_is, rel'_is, e) = emit_node-Emitted pc tc_ptr after o₁ in
    let bytes = node_bytes pc rel rel' in
    let o = emit_node pc tc_ptr after o₁ in
    let stored = λ (x : ℕ). ap (λ (n : Memory). n x) e.stored in
    let spelled =
      subst (λ (n : Memory). Spells n code_ptr bytes) (sym e.stored)
        (store-Spells bytes m₁ code_ptr (node_bytes-bytes pc rel rel')) in
    let outside = λ (x : ℕ) (away : x < code_ptr ⊎ code_ptr + 27 ≤ x).
      stored x ∙ store-away bytes m₁ code_ptr x away in
    record {
      end = e.moved;
      new_node = subst (Node o.mem code_ptr pc tc_ptr) after_is (
          spelled-Node o.mem code_ptr pc tc_ptr after rel rel' room pc_lt tc_lt (omega arith) rel_is
            rel'_is spelled);
      slot =
          slot_jumps se code_ptr d m o.mem (j.spelled.0) refl (omega (arith, room)) se_room
            (λ x le lt. outside x (away_from x se code_ptr apart le lt));
      rest = λ x from_slot from_node.
          outside x from_node ∙ store-away (le32 d) m (se + 1) x (beside x se from_slot);
    }
