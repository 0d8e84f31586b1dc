-- ===== src/Sieve/Refinement.antt =====
-- The sieve as a map from target addresses to translated code: adding an entry, and the dispatch.
use unitrans.Blocks.State.{not_trans_yet, update}
use unitrans.Common.{
  ltb, leb, ◌==◌, if◌then◌else◌, lt→ltb, leb→le, ==_iff, Bool-cases, ==_different, le→not_ltb,
  not_leb→lt, u32, ◌≤◌, ◌⊎◌, refl, ◌≡◌, List, arith, ◌<◌, none, ◌≢◌, ℕ, false, inl, Bool, ◌^◌, ◌∷◌,
  ◌∙◌, ◌-◌, inr, ap, ◌%◌, bit_and, true, sym, ◌/◌, ◌+◌, some, ◌*◌, subst,
}
use unitrans.Sieve.Chain.{Chain}
use unitrans.Sieve.Entry.{default_sieve_buffer_size, SieveState, link_node, add_sieve_entry}
use unitrans.Sieve.Hash.{sieve_size, sieve_mask, slot_of}
use unitrans.Sieve.Holding.{slot_of-index, IsPlaced, Holding, IsSieve, JumpsTo-same, Chain-same}
use unitrans.Sieve.Linking.{Linked, link_node-Linked}

slot_apart :
    (s : SieveState) (k : ℕ)
    → IsPlaced s
    → k < sieve_size
    → s.sieve_hashtable + k * 8 + 5 ≤ s.out.code_ptr
      ⊎ s.out.code_ptr + 27 ≤ s.sieve_hashtable + k * 8
slot_apart s k p lt = elim p.apart [
  | inl below ↦ inl (omega (arith, below, p.filled_from, lt))
  | inr above ↦ inr (omega (arith, above, p.filled_to, lt))
]

-- The state with the new entry.
abbrev pub added : ℕ → ℕ → SieveState → SieveState
added pc tc_ptr s =
    let k = bit_and pc sieve_mask / 8 in
    record s {
      out = link_node (slot_of s.sieve_hashtable pc) pc tc_ptr s.out.code_ptr s.out.mem;
      sieve_stat = update s.sieve_stat k (u32 (s.sieve_stat k + 1));
    }

abbrev pub insert : ℕ → ℕ → (ℕ → List (ℕ × ℕ)) → ℕ → List (ℕ × ℕ)
insert pc tc_ptr view = update view (pc % 2 ^ 16) ((pc, tc_ptr) ∷ view (pc % 2 ^ 16))

add_sieve_entry-untranslated :
    (pc : ℕ) (s : SieveState) → add_sieve_entry pc not_trans_yet s ≡ some s
unfolding add_sieve_entry
add_sieve_entry-untranslated pc s = refl

add_sieve_entry-run :
    (pc tc_ptr : ℕ) (s : SieveState)
    → tc_ptr ≢ not_trans_yet
    → add_sieve_entry pc tc_ptr s ≡ (
        if ltb default_sieve_buffer_size ((added pc tc_ptr s).out.code_ptr - s.sieve_buffer)
        then none
        else some (added pc tc_ptr s))
unfolding add_sieve_entry
add_sieve_entry-run pc tc_ptr s ne = elim (Bool-cases (tc_ptr == not_trans_yet)) [
  | inl same ↦ absurd (ne ((==_iff tc_ptr not_trans_yet).0 same))
  | inr differ ↦ rw (add_sieve_entry, differ)
]

module _ (s : SieveState) (exit pc tc_ptr : ℕ) (view : ℕ → List (ℕ × ℕ)) (is : IsSieve s exit view)
    (pc_lt : pc < 2 ^ 32) (tc_lt : tc_ptr < 2 ^ 32) where
  pub slot_holds : Holding s exit (pc % 2 ^ 16) (view (pc % 2 ^ 16))
  slot_holds = is.slots (pc % 2 ^ 16) (omega arith)

  pub added-Linked :
      Linked
        (s.sieve_hashtable + pc % 2 ^ 16 * 8)
        pc
        tc_ptr
        s.out.code_ptr
        slot_holds.first
        s.out.mem
        (added pc tc_ptr s).out
  added-Linked =
      let p = is.placed in
      subst
        (λ (se : ℕ).
          Linked (s.sieve_hashtable + pc % 2 ^ 16 * 8) pc tc_ptr s.out.code_ptr slot_holds.first
            s.out.mem (link_node se pc tc_ptr s.out.code_ptr s.out.mem))
        (sym (slot_of-index s.sieve_hashtable pc p.table_room))
        (link_node-Linked (s.sieve_hashtable + pc % 2 ^ 16 * 8) pc tc_ptr s.out.code_ptr
          slot_holds.first s.out.mem slot_holds.jumps pc_lt tc_lt (omega (arith, p.table_room))
          (omega (arith, p.filled_to, p.buffer_room)) (slot_apart s (pc % 2 ^ 16) p (omega arith)))

  -- The bytes of the older nodes are as they were.
  pub buffer_same :
      (x : ℕ)
      → s.sieve_buffer ≤ x
      → x < s.out.code_ptr
      → (added pc tc_ptr s).out.mem x ≡ s.out.mem x
  buffer_same x le lt =
      let p = is.placed in
      added-Linked.rest x
        (elim p.apart [
          | inl below ↦ inr (omega (arith, below, le))
          | inr above ↦ inl (omega (arith, above, lt, p.filled_to))
        ])
        (inl lt)

  -- And so are the other slots.
  slot_same :
      (k : ℕ)
      → k < sieve_size
      → k ≢ pc % 2 ^ 16
      → (x : ℕ) → s.sieve_hashtable + k * 8 ≤ x
      → x < s.sieve_hashtable + k * 8 + 5
      → (added pc tc_ptr s).out.mem x ≡ s.out.mem x
  slot_same k k_lt ne x le lt =
      let p = is.placed in
      added-Linked.rest x (beside_slot k ne x le lt) (elim p.apart [
        | inl below ↦ inl (omega (arith, below, lt, k_lt, p.filled_from))
        | inr above ↦ inr (omega (arith, above, le, p.filled_to))
      ])
    where
      beside_slot :
          (k : ℕ)
          → k ≢ pc % 2 ^ 16
          → (x : ℕ) → s.sieve_hashtable + k * 8 ≤ x
          → x < s.sieve_hashtable + k * 8 + 5
          → x < s.sieve_hashtable + pc % 2 ^ 16 * 8 ⊎ s.sieve_hashtable + pc % 2 ^ 16 * 8 + 5 ≤ x
      beside_slot k ne x le lt = ground arith

  old-Chain :
      (a : ℕ) (nodes : List (ℕ × ℕ))
      → Chain s.out.mem s.sieve_buffer s.out.code_ptr exit a nodes
      → Chain
          (added pc tc_ptr s).out.mem
          s.sieve_buffer
          (added pc tc_ptr s).out.code_ptr
          exit
          a
          nodes
  old-Chain a nodes c =
      Chain-same s.out.mem (added pc tc_ptr s).out.mem s.sieve_buffer s.out.code_ptr
        (added pc tc_ptr s).out.code_ptr exit a nodes (omega (arith, added-Linked.end)) buffer_same
        c

  new-Holding : Holding (added pc tc_ptr s) exit (pc % 2 ^ 16) ((pc, tc_ptr) ∷ view (pc % 2 ^ 16))
  new-Holding = record {
    first = s.out.code_ptr;
    jumps = added-Linked.slot;
    chain =
        Chain.node is.placed.filled_from (omega (arith, added-Linked.end)) added-Linked.new_node
          (old-Chain slot_holds.first (view (pc % 2 ^ 16)) slot_holds.chain);
  }

  old-Holding :
      (k : ℕ) → k < sieve_size → k ≢ pc % 2 ^ 16 → Holding (added pc tc_ptr s) exit k (view k)
  old-Holding k lt ne =
      let h = is.slots k lt in
      record {
        first = h.first;
        jumps =
            JumpsTo-same s.out.mem (added pc tc_ptr s).out.mem (s.sieve_hashtable + k * 8) h.first
              (slot_same k lt ne) h.jumps;
        chain = old-Chain h.first (view k) h.chain;
      }

  pub added-IsSieve :
      s.out.code_ptr + 27 ≤ s.sieve_buffer + default_sieve_buffer_size
      → IsSieve (added pc tc_ptr s) exit (insert pc tc_ptr view)
  added-IsSieve room =
      let p = is.placed in
      record {
        placed = record {
          table_room = p.table_room;
          buffer_room = p.buffer_room;
          apart = p.apart;
          filled_from = omega (arith, p.filled_from, added-Linked.end);
          filled_to = omega (arith, room, added-Linked.end);
        };
        slots = λ k lt. elim (Bool-cases (k == pc % 2 ^ 16)) [
          | inl same ↦ subst (Holding (added pc tc_ptr s) exit k) (sym (rw same refl)) (
              subst
                (λ (j : ℕ). Holding (added pc tc_ptr s) exit j ((pc, tc_ptr) ∷ view (pc % 2 ^ 16)))
                (sym ((==_iff k (pc % 2 ^ 16)).0 same)) new-Holding)
          | inr differ ↦
              subst (Holding (added pc tc_ptr s) exit k) (sym (rw differ refl))
                (old-Holding k lt (==_different k (pc % 2 ^ 16) differ))
        ];
      }

add_sieve_entry-full :
    (s : SieveState) (pc tc_ptr : ℕ)
    → tc_ptr ≢ not_trans_yet
    → s.sieve_buffer + default_sieve_buffer_size < (added pc tc_ptr s).out.code_ptr
    → add_sieve_entry pc tc_ptr s ≡ none
add_sieve_entry-full s pc tc_ptr ne full =
    add_sieve_entry-run pc tc_ptr s ne
    ∙ ap (λ (b : Bool). if b then none else some (added pc tc_ptr s))
        (lt→ltb default_sieve_buffer_size ((added pc tc_ptr s).out.code_ptr - s.sieve_buffer)
          (omega (arith, full)))

pub add_sieve_entry-room :
    (s : SieveState) (pc tc_ptr : ℕ)
    → tc_ptr ≢ not_trans_yet
    → (added pc tc_ptr s).out.code_ptr ≤ s.sieve_buffer + default_sieve_buffer_size
    → add_sieve_entry pc tc_ptr s ≡ some (added pc tc_ptr s)
add_sieve_entry-room s pc tc_ptr ne room =
    add_sieve_entry-run pc tc_ptr s ne
    ∙ ap (λ (b : Bool). if b then none else some (added pc tc_ptr s))
        (le→not_ltb default_sieve_buffer_size ((added pc tc_ptr s).out.code_ptr - s.sieve_buffer)
          (omega (arith, room)))

-- Whether the buffer has room for one more node.
abbrev pub has_room : SieveState → Bool
has_room s = leb (s.out.code_ptr + 27) (s.sieve_buffer + default_sieve_buffer_size)

-- The state after an entry was added.
pub record Extended (s : SieveState) (exit pc tc_ptr : ℕ) (view : ℕ → List (ℕ × ℕ)) (t : SieveState)
    : Type 0 where
  pub is : IsSieve t exit (insert pc tc_ptr view)
  pub end : t.out.code_ptr ≡ s.out.code_ptr + 27
  pub buffer : t.sieve_buffer ≡ s.sieve_buffer

-- In a sieve, for an address and a code address of 32 bits: a block that is not translated changes
-- nothing, a buffer without room for a node aborts, and otherwise `add_sieve_entry` succeeds, fills
-- the buffer by 27 bytes, and the sieve then holds the entry in front of the chain of the
-- address's slot, with every other chain as before.
pub add_sieve_entry-IsSieve :
    (s : SieveState) (exit pc tc_ptr : ℕ) (view : ℕ → List (ℕ × ℕ))
    → IsSieve s exit view
    → pc < 2 ^ 32
    → tc_ptr < 2 ^ 32
    → ((tc_ptr ≡ not_trans_yet) × (add_sieve_entry pc tc_ptr s ≡ some s))
      ⊎ ((tc_ptr ≢ not_trans_yet)
          × (((has_room s ≡ false) × (add_sieve_entry pc tc_ptr s ≡ none))
              ⊎ ((has_room s ≡ true)
                  × ((t : SieveState) × (add_sieve_entry pc tc_ptr s ≡ some t)
                      × Extended s exit pc tc_ptr view t))))
add_sieve_entry-IsSieve s exit pc tc_ptr view is pc_lt tc_lt =
    let end = (added-Linked s exit pc tc_ptr view is pc_lt tc_lt).end in
    elim (Bool-cases (tc_ptr == not_trans_yet)) [
      | inl same ↦
          let p = (==_iff tc_ptr not_trans_yet).0 same in
          inl (p, ap (λ (k : ℕ). add_sieve_entry pc k s) p ∙ add_sieve_entry-untranslated pc s)
      | inr differ ↦
          let ne = ==_different tc_ptr not_trans_yet differ in
          inr (
            ne,
            elim (Bool-cases (has_room s)) [
              | inl room ↦
                  let le =
                    leb→le (s.out.code_ptr + 27) (s.sieve_buffer + default_sieve_buffer_size)
                      room in
                  inr (
                    room,
                    (
                      added pc tc_ptr s,
                      add_sieve_entry-room s pc tc_ptr ne (omega (arith, end, le)),
                      record {
                        is = added-IsSieve s exit pc tc_ptr view is pc_lt tc_lt le;
                        end = end;
                        buffer = refl;
                      },
                    ),
                  )
              | inr full ↦
                  let gt =
                    not_leb→lt (s.out.code_ptr + 27) (s.sieve_buffer + default_sieve_buffer_size)
                      full in
                  inl (full, add_sieve_entry-full s pc tc_ptr ne (omega (arith, end, gt)))
            ],
          )
    ]
