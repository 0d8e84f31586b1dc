-- ===== src/Sieve/Spelling.antt =====
-- The bytes of a node, and that they make one.
use unitrans.Common.{
  all, sub32, subst, ◌≡◌, ◌^◌, arith, ◌∙◌, ◌∷◌, [], true, List, ℕ, ap, ◌+◌, ◌≤◌, ◌<◌, ◌++◌,
}
use unitrans.Emit.Memory.{Memory, le32, Out, code_emit8, code_emit32, ◌▷◌}
use unitrans.Emit.Stored.{Spells, Spells-left, Spells-right, are_bytes}
use unitrans.Emit.Trace.{Emitted, nothing, then8, then32}
use unitrans.Sieve.Chain.{JumpsTo, Node}
use unitrans.Sieve.Entry.{emit_node}

abbrev pub node_front : ℕ → ℕ → List ℕ
node_front pc rel =
    ((0x8b ∷ 0x4c ∷ 0x24 ∷ 4 ∷ 0x8d ∷ 0x89 ∷ []) ++ le32 (sub32 0 pc))
    ++ (0xe3 ∷ 0x05 ∷ 0xe9 ∷ [])
    ++ le32 rel

abbrev pub node_bytes : ℕ → ℕ → ℕ → List ℕ
node_bytes pc rel rel' =
    node_front pc rel ++ (0x59 ∷ 0x8d ∷ 0x64 ∷ 0x24 ∷ 4 ∷ 0xe9 ∷ []) ++ le32 rel'

pub emit_node-Emitted :
    (pc tc_ptr next_node : ℕ) (o : Out)
    → (rel rel' : ℕ) × (rel ≡ sub32 (sub32 next_node (o.code_ptr + 13)) 4)
      × (rel' ≡ sub32 (sub32 tc_ptr (o.code_ptr + 23)) 4)
      × Emitted o (emit_node pc tc_ptr next_node o) (node_bytes pc rel rel')
unfolding emit_node
emit_node-Emitted pc tc_ptr next_node o =
    let e₁ = then8 0xe9 (
      then8 0x05 (
        then8 0xe3 (
          then32 (sub32 0 pc) (
            then8 0x89
              (then8 0x8d (then8 4 (then8 0x24 (then8 0x4c (then8 0x8b (nothing o)))))))))) in
    let o₁ =
      o
      ▷ code_emit8 0x8b
      ▷ code_emit8 0x4c
      ▷ code_emit8 0x24
      ▷ code_emit8 4
      ▷ code_emit8 0x8d
      ▷ code_emit8 0x89
      ▷ code_emit32 (sub32 0 pc)
      ▷ code_emit8 0xe3
      ▷ code_emit8 0x05
      ▷ code_emit8 0xe9 in
    let rel = sub32 (sub32 next_node o₁.code_ptr) 4 in
    let e₂ =
      then8 0xe9 (then8 4 (then8 0x24 (then8 0x64 (then8 0x8d (then8 0x59 (then32 rel e₁)))))) in
    let o₂ =
      o₁
      ▷ code_emit32 rel
      ▷ code_emit8 0x59
      ▷ code_emit8 0x8d
      ▷ code_emit8 0x64
      ▷ code_emit8 0x24
      ▷ code_emit8 4
      ▷ code_emit8 0xe9 in
    let rel' = sub32 (sub32 tc_ptr o₂.code_ptr) 4 in
    (
      rel,
      rel',
      ap (λ (k : ℕ). sub32 (sub32 next_node k) 4) e₁.moved,
      ap (λ (k : ℕ). sub32 (sub32 tc_ptr k) 4) e₂.moved,
      then32 rel' e₂,
    )

pub jumps_to :
    (m : Memory) (a to rel : ℕ)
    → rel ≡ sub32 (sub32 to (a + 1)) 4
    → to < 2 ^ 32
    → a + 5 ≤ 2 ^ 32
    → Spells m a ((0xe9 ∷ []) ++ le32 rel)
    → JumpsTo m a to
jumps_to m a to rel p lt room s = record {
  rel = rel;
  rel_word = omega (arith, p);
  to_word = lt;
  spelled = s;
  target = omega (arith, p, lt, room);
}

Spells-moved : (m : Memory) (a b : ℕ) (bytes : List ℕ) → a ≡ b → Spells m a bytes → Spells m b bytes
Spells-moved m a b bytes p s = subst (λ (k : ℕ). Spells m k bytes) p s

-- A node that is spelled is a node.
pub spelled-Node :
    (m : Memory) (a pc tc_ptr next rel rel' : ℕ)
    → a + 27 ≤ 2 ^ 32
    → pc < 2 ^ 32
    → tc_ptr < 2 ^ 32
    → next < 2 ^ 32
    → rel ≡ sub32 (sub32 next (a + 13)) 4
    → rel' ≡ sub32 (sub32 tc_ptr (a + 23)) 4
    → Spells m a (node_bytes pc rel rel')
    → Node m a pc tc_ptr next
spelled-Node m a pc tc_ptr after rel rel' room pc_lt tc_lt next_lt p q s =
    let mov : List ℕ = 0x8b ∷ 0x4c ∷ 0x24 ∷ 4 ∷ [] in
    let lea : List ℕ = (0x8d ∷ 0x89 ∷ []) ++ le32 (sub32 0 pc) in
    let jecxz : List ℕ = 0xe3 ∷ 0x05 ∷ [] in
    let miss : List ℕ = (0xe9 ∷ []) ++ le32 rel in
    let pop : List ℕ = 0x59 ∷ [] in
    let drop : List ℕ = 0x8d ∷ 0x64 ∷ 0x24 ∷ 4 ∷ [] in
    let hit : List ℕ = (0xe9 ∷ []) ++ le32 rel' in
    let s₆ = hit in
    let s₅ = drop ++ s₆ in
    let s₄ = pop ++ s₅ in
    let s₃ = miss ++ s₄ in
    let s₂ = jecxz ++ s₃ in
    let s₁ = lea ++ s₂ in
    let t₁ : Spells m (a + 4) s₁ = Spells-right mov s₁ m a s in
    let t₂ : Spells m (a + 10) s₂ =
      Spells-moved m (a + 4 + 6) (a + 10) s₂ (omega arith) (Spells-right lea s₂ m (a + 4) t₁) in
    let t₃ : Spells m (a + 12) s₃ =
      Spells-moved m (a + 10 + 2) (a + 12) s₃ (omega arith) (Spells-right jecxz s₃ m (a + 10) t₂) in
    let t₄ : Spells m (a + 17) s₄ =
      Spells-moved m (a + 12 + 5) (a + 17) s₄ (omega arith) (Spells-right miss s₄ m (a + 12) t₃) in
    let t₅ : Spells m (a + 18) s₅ =
      Spells-moved m (a + 17 + 1) (a + 18) s₅ (omega arith) (Spells-right pop s₅ m (a + 17) t₄) in
    let t₆ : Spells m (a + 22) s₆ =
      Spells-moved m (a + 18 + 4) (a + 22) s₆ (omega arith) (Spells-right drop s₆ m (a + 18) t₅) in
    record {
      room = room;
      pc_word = pc_lt;
      loads = Spells-left mov s₁ m a s;
      compares = Spells-left lea s₂ m (a + 4) t₁;
      branches = Spells-left jecxz s₃ m (a + 10) t₂;
      onwards =
          jumps_to m (a + 12) after rel (p ∙ ap (λ (k : ℕ). sub32 (sub32 after k) 4) (omega arith))
            next_lt (omega (arith, room)) (Spells-left miss s₄ m (a + 12) t₃);
      pops = Spells-left pop s₅ m (a + 17) t₄;
      drops = Spells-left drop s₆ m (a + 18) t₅;
      enters =
          jumps_to m (a + 22) tc_ptr rel'
            (q ∙ ap (λ (k : ℕ). sub32 (sub32 tc_ptr k) 4) (omega arith)) tc_lt (omega (arith, room))
            t₆;
    }

pub node_bytes-bytes : (pc rel rel' : ℕ) → are_bytes (node_bytes pc rel rel') ≡ true
unfolding all
node_bytes-bytes pc rel rel' = ground arith
