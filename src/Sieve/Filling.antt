-- ===== src/Sieve/Filling.antt =====
-- `sv_table_init` makes a sieve without entries.
use unitrans.Common.{
  ◌==◌, ==_iff, Bool-cases, ==_different, length, all, sub32, inl, inr, ℕ, ◌<◌, ◌+◌, zero, arith,
  [], sym, ◌++◌, ◌-◌, ◌∷◌, refl, ◌≢◌, ◌*◌, List, ◌⊎◌, ◌≡◌, suc, ◌∙◌, ◌≤◌, subst, ap, ◌^◌, true,
}
use unitrans.Emit.Memory.{Memory, store, le32, Out, code_emit8}
use unitrans.Emit.Stored.{Spells, store-below, store-above, store-Spells, are_bytes}
use unitrans.Emit.Trace.{nothing, then8, then32}
use unitrans.Sieve.Chain.{JumpsTo, Chain}
use unitrans.Sieve.Dispatch.{view_of}
use unitrans.Sieve.Entry.{SieveState}
use unitrans.Sieve.Hash.{sieve_size}
use unitrans.Sieve.Holding.{IsPlaced, IsSieve, JumpsTo-same}
use unitrans.Sieve.Spelling.{jumps_to}
use unitrans.Sieve.Table.{fill_slots, sv_table_init}

slot_bytes : ℕ → List ℕ
slot_bytes rel = (0xe9 ∷ []) ++ le32 rel

-- The memory after one slot, and the bytes that it wrote.
one_slot : ℕ → Out → Out
unfolding fill_slots
one_slot sv_out o = fill_slots 1 sv_out o

slot-Emitted :
    (sv_out : ℕ) (o : Out)
    → (rel : ℕ) × (rel ≡ sub32 (sub32 sv_out (o.code_ptr + 1)) 4)
      × ((one_slot sv_out o).mem ≡ store o.mem o.code_ptr (slot_bytes rel))
      × ((one_slot sv_out o).code_ptr ≡ o.code_ptr + 8)
unfolding one_slot fill_slots slot_bytes
slot-Emitted sv_out o =
    let o₁ = code_emit8 0xe9 o in
    let e₁ = then8 0xe9 (nothing o) in
    let rel = sub32 (sub32 sv_out o₁.code_ptr) 4 in
    let e₂ = then32 rel e₁ in
    (rel, ap (λ (k : ℕ). sub32 (sub32 sv_out k) 4) e₁.moved, e₂.stored, omega (arith, e₂.moved))

fill_slots-next :
    (n sv_out : ℕ) (o : Out) → fill_slots (suc n) sv_out o ≡ fill_slots n sv_out (one_slot sv_out o)
unfolding fill_slots one_slot
fill_slots-next n sv_out o = refl

slot_bytes-bytes : (rel : ℕ) → are_bytes (slot_bytes rel) ≡ true
unfolding all slot_bytes
slot_bytes-bytes rel = ground arith

-- The slots that are filled, and the memory around them.
record Filled (n sv_out : ℕ) (o o' : Out) : Type 0 where
  below : (x : ℕ) → x < o.code_ptr → o'.mem x ≡ o.mem x
  above : (x : ℕ) → o.code_ptr + n * 8 ≤ x → o'.mem x ≡ o.mem x
  slot : (k : ℕ) → k < n → JumpsTo o'.mem (o.code_ptr + k * 8) sv_out

pos_of : (k : ℕ) → k ≢ 0 → 0 < k
pos_of zero ne = absurd (ne refl)
pos_of (suc k) ne = omega arith

spelled_slot :
    (m : Memory) (a rel : ℕ) → Spells (store m a (slot_bytes rel)) a ((0xe9 ∷ []) ++ le32 rel)
unfolding slot_bytes
spelled_slot m a rel = store-Spells (slot_bytes rel) m a (slot_bytes-bytes rel)

slot_above : (a n x rel : ℕ) → a + suc n * 8 ≤ x → a + length (slot_bytes rel) ≤ x
unfolding slot_bytes
slot_above a n x rel le = omega (arith, le)

fill_slots-Filled :
    (n sv_out : ℕ) (o : Out)
    → sv_out < 2 ^ 32
    → o.code_ptr + n * 8 ≤ 2 ^ 32
    → Filled n sv_out o (fill_slots n sv_out o)
unfolding fill_slots one_slot
fill_slots-Filled zero sv_out o lt room = record {
  below = λ x x_lt. refl;
  above = λ x le. refl;
  slot = λ k k_lt. absurd (omega (arith, k_lt));
}
fill_slots-Filled (suc n) sv_out o lt room =
    let o₁ = one_slot sv_out o in
    let (rel, rel_is, stored, moved) = slot-Emitted sv_out o in
    let rest = fill_slots-Filled n sv_out o₁ lt (omega (arith, moved, room)) in
    let first : JumpsTo o₁.mem o.code_ptr sv_out =
      subst (λ (m : Memory). JumpsTo m o.code_ptr sv_out) (sym stored)
        (jumps_to (store o.mem o.code_ptr (slot_bytes rel)) o.code_ptr sv_out rel rel_is lt
          (omega (arith, room)) (spelled_slot o.mem o.code_ptr rel)) in
    let stored_at = λ (x : ℕ). ap (λ (m : Memory). m x) stored in
    record {
      below = λ x x_lt.
          rest.below x (omega (arith, moved, x_lt))
          ∙ stored_at x
          ∙ store-below (slot_bytes rel) o.mem o.code_ptr x x_lt;
      above = λ x le.
          rest.above x (omega (arith, moved, le))
          ∙ stored_at x
          ∙ store-above (slot_bytes rel) o.mem o.code_ptr x (slot_above o.code_ptr n x rel le);
      slot = λ k k_lt. elim (Bool-cases (k == 0)) [
        | inl is_first ↦
            let k_is = (==_iff k 0).0 is_first in
            subst (λ (a : ℕ). JumpsTo (fill_slots n sv_out o₁).mem a sv_out) (omega (arith, k_is))
              (JumpsTo-same o₁.mem (fill_slots n sv_out o₁).mem o.code_ptr sv_out
                (λ x le x_lt. rest.below x (omega (arith, moved, x_lt))) first)
        | inr later ↦
            let ne = ==_different k 0 later in
            subst (λ (a : ℕ). JumpsTo (fill_slots n sv_out o₁).mem a sv_out)
              (omega (arith, moved, pos_of k ne))
              (rest.slot (k - 1) (omega (arith, k_lt, pos_of k ne)))
      ];
    }

-- After `sv_table_init`, with the table and the buffer apart and inside the address space, memory
-- is a sieve without entries: every slot jumps to the code that leaves the cache.
pub sv_table_init-IsSieve :
    (s : SieveState) (exit : ℕ) (m : Memory)
    → IsPlaced s
    → s.out.mem ≡ sv_table_init s.sieve_hashtable exit m
    → exit < 2 ^ 32
    → IsSieve s exit (view_of [])
unfolding sv_table_init
sv_table_init-IsSieve s exit m p after lt =
    let o : Out = record { mem = m; code_ptr = s.sieve_hashtable } in
    let f = fill_slots-Filled sieve_size exit o lt p.table_room in
    record {
      placed = p;
      slots = λ k k_lt. record {
        first = exit;
        jumps =
            subst (λ (n : Memory). JumpsTo n (s.sieve_hashtable + k * 8) exit) (sym after)
              (f.slot k k_lt);
        chain = Chain.ends;
      };
    }

-- And it writes nothing but the table.
pub sv_table_init-outside :
    (base exit x : ℕ) (m : Memory)
    → exit < 2 ^ 32
    → base + 2 ^ 19 ≤ 2 ^ 32
    → x < base ⊎ base + 2 ^ 19 ≤ x
    → sv_table_init base exit m x ≡ m x
unfolding sv_table_init
sv_table_init-outside base exit x m lt room away =
    let f = fill_slots-Filled sieve_size exit (record { mem = m; code_ptr = base }) lt room in
    elim away [ inl x_lt ↦ f.below x x_lt | inr le ↦ f.above x le ]
