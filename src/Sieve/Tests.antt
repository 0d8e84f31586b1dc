-- ===== src/Sieve/Tests.antt =====
-- A sieve in a memory of zeros, and the theorems applied to it.
use unitrans.Blocks.State.{not_trans_yet}
use unitrans.Common.{
  ◌≤◌, inr, ◌⊎◌, ℕ, ◌∷◌, ◌≡◌, none, refl, false, arith, ◌++◌, ◌^◌, ◌<◌, inl, ◌%◌, true, [], some,
  List, ◌≢◌, ◌∙◌,
}
use unitrans.Emit.Memory.{Memory, store, le32, emit, code_emit8, code_emit32}
use unitrans.Emit.Stored.{Spells, Spells-same}
use unitrans.Sieve.Chain.{lookup, Pushed, Arrives, cpu}
use unitrans.Sieve.Dispatch.{stub_bytes, emit_sieve_stub-Runs, view_of, lookup-view_of}
use unitrans.Sieve.Entry.{SieveState, add_sieve_entry}
use unitrans.Sieve.Filling.{sv_table_init-IsSieve, sv_table_init-outside}
use unitrans.Sieve.Hash.{slot_of}
use unitrans.Sieve.History.{add_all, AreTranslated, Added, add_all-Added, add_all-Arrives}
use unitrans.Sieve.Holding.{IsPlaced, IsSieve}
use unitrans.Sieve.Machine.{Cpu, Runs}
use unitrans.Sieve.Refinement.{
  added, added-Linked, buffer_same, add_sieve_entry-room, has_room, Extended,
  add_sieve_entry-IsSieve,
}
use unitrans.Sieve.Table.{sv_table_init, emit_sieve_stub}

-- The stub at 0x200000, and at 0x8000 a stack with the saved %ecx and a target.
abbrev pub before : Memory
before = store (store (λ x. 0) 0x200000 (stub_bytes 0x100000)) 0x8000 (le32 7 ++ le32 0x9000)

-- The table stands at 0x100000, the buffer at 0x200000, and the code that leaves the cache at 0x5000.
abbrev bare : SieveState
bare = record {
  sieve_hashtable = 0x100000;
  sieve_buffer = 0x200000;
  out = record { mem = sv_table_init 0x100000 0x5000 before; code_ptr = 0x200010 };
  sieve_stat = λ k. 0;
}

bare-IsPlaced : IsPlaced bare
bare-IsPlaced = record {
  table_room = omega arith;
  buffer_room = omega arith;
  apart = inl (omega arith);
  filled_from = omega arith;
  filled_to = omega arith;
}

sv_table_init-IsSieve_example : IsSieve bare 0x5000 (view_of [])
sv_table_init-IsSieve_example =
    sv_table_init-IsSieve bare 0x5000 before bare-IsPlaced refl (omega arith)

bare-IsSieve : IsSieve bare 0x5000 (view_of [])
bare-IsSieve = sv_table_init-IsSieve bare 0x5000 before bare-IsPlaced refl (omega arith)

abbrev two_entries : List (ℕ × ℕ)
two_entries = (0x9000, 0x7100) ∷ (0x19000, 0x7200) ∷ []

two_entries-AreTranslated : AreTranslated two_entries
unfolding AreTranslated
two_entries-AreTranslated = (
  omega arith,
  omega arith,
  (λ p. omega (arith, p)),
  (omega arith, omega arith, (λ p. omega (arith, p)), tt),
)

add_all-Added_example :
    (t : SieveState) × (add_all two_entries bare ≡ some t) × Added bare 0x5000 two_entries t
add_all-Added_example =
    add_all-Added two_entries bare 0x5000 bare-IsSieve two_entries-AreTranslated (omega arith)

add_sieve_entry-IsSieve_example :
    ((0x7100 ≡ not_trans_yet) × (add_sieve_entry 0x9000 0x7100 bare ≡ some bare))
    ⊎ ((0x7100 ≢ not_trans_yet)
        × (((has_room bare ≡ false) × (add_sieve_entry 0x9000 0x7100 bare ≡ none))
            ⊎ ((has_room bare ≡ true)
                × ((t : SieveState) × (add_sieve_entry 0x9000 0x7100 bare ≡ some t)
                    × Extended bare 0x5000 0x9000 0x7100 (view_of []) t))))
add_sieve_entry-IsSieve_example =
    add_sieve_entry-IsSieve bare 0x5000 0x9000 0x7100 (view_of []) bare-IsSieve (omega arith)
      (omega arith)

lookup-view_of_example :
    lookup 0x9000 (view_of two_entries (0x9000 % 2 ^ 16)) ≡ lookup 0x9000 two_entries
lookup-view_of_example = lookup-view_of 0x9000 two_entries

-- After one entry the stub and the stack are still there.
abbrev one_entry : List (ℕ × ℕ)
one_entry = (0x9000, 0x7100) ∷ []

one_entry-AreTranslated : AreTranslated one_entry
unfolding AreTranslated
one_entry-AreTranslated = (omega arith, omega arith, (λ p. omega (arith, p)), tt)

abbrev after_one : SieveState
after_one = added 0x9000 0x7100 bare

bare-before : (x : ℕ) → x < 0x100000 ⊎ 0x180000 ≤ x → bare.out.mem x ≡ before x
bare-before x away = sv_table_init-outside 0x100000 0x5000 x before (omega arith) (omega arith) away

pub stub-before : Spells before 0x200000 (stub_bytes 0x100000)
unfolding store Spells
stub-before = (
  refl,
  (
    refl,
    (
      refl,
      (
        refl,
        (
          refl,
          (
            refl,
            (refl, (refl, (refl, (refl, (refl, (refl, (refl, (refl, (refl, (refl, tt)))))))))),
          ),
        ),
      ),
    ),
  ),
)

stack-after : (x : ℕ) → x < 0x100000 → after_one.out.mem x ≡ before x
stack-after x lt =
    let l =
      added-Linked bare 0x5000 0x9000 0x7100 (view_of []) bare-IsSieve (omega arith)
        (omega arith) in
    l.rest x (inl (omega (arith, lt))) (inl (omega (arith, lt)))
    ∙ bare-before x (inl (omega (arith, lt)))

stub-after : Spells after_one.out.mem 0x200000 (stub_bytes 0x100000)
stub-after =
    Spells-same (stub_bytes 0x100000) before after_one.out.mem 0x200000
      (λ x le lt.
        buffer_same bare 0x5000 0x9000 0x7100 (view_of []) bare-IsSieve (omega arith) (omega arith)
          x (omega (arith, le)) (omega (arith, lt))
        ∙ bare-before x (inr (omega (arith, le))))
      stub-before

Pushed-after : Pushed after_one.out.mem 0x8000 7 0x9000
unfolding store
Pushed-after =
    let at_0 : after_one.out.mem 0x8000 ≡ 7 = stack-after 0x8000 (omega arith) in
    let at_1 : after_one.out.mem 0x8001 ≡ 0 = stack-after 0x8001 (omega arith) in
    let at_2 : after_one.out.mem 0x8002 ≡ 0 = stack-after 0x8002 (omega arith) in
    let at_3 : after_one.out.mem 0x8003 ≡ 0 = stack-after 0x8003 (omega arith) in
    let at_4 : after_one.out.mem 0x8004 ≡ 0 = stack-after 0x8004 (omega arith) in
    let at_5 : after_one.out.mem 0x8005 ≡ 0x90 = stack-after 0x8005 (omega arith) in
    let at_6 : after_one.out.mem 0x8006 ≡ 0 = stack-after 0x8006 (omega arith) in
    let at_7 : after_one.out.mem 0x8007 ≡ 0 = stack-after 0x8007 (omega arith) in
    record {
      stack_room = omega arith;
      target_word = omega arith;
      saved_ecx = omega (arith, at_0, at_1, at_2, at_3);
      pushed_target = omega (arith, at_4, at_5, at_6, at_7);
    }

one_entry-added : add_all one_entry bare ≡ some after_one
unfolding add_all
one_entry-added =
    let end =
      (added-Linked bare 0x5000 0x9000 0x7100 (view_of []) bare-IsSieve (omega arith)
        (omega arith)).end in
    add_sieve_entry-room bare 0x9000 0x7100 (λ p. omega (arith, p)) (omega (arith, end))

add_all-Arrives_example :
    (c : Cpu) × Runs after_one.out.mem (cpu 0x200000 5 0x8000) c
    × Arrives (lookup 0x9000 one_entry) 0x5000 0x8000 7 c
add_all-Arrives_example =
    add_all-Arrives one_entry bare after_one 0x5000 0x200000 5 0x8000 7 0x9000 bare-IsSieve
      one_entry-AreTranslated (omega arith) one_entry-added stub-after (omega arith) Pushed-after

-- The stub emitted at 0x300000, in front of the same stack.
abbrev new_stub : Memory
new_stub = (emit_sieve_stub 0x100000 (record { mem = before; code_ptr = 0x300000 })).mem

emit_sieve_stub-Runs_example :
    Runs new_stub
      (cpu 0x300000 5 0x8000)
      (cpu (slot_of 0x100000 0x9000) (slot_of 0x100000 0x9000) 0x8000)
unfolding emit_sieve_stub code_emit8 code_emit32 emit store
emit_sieve_stub-Runs_example =
    emit_sieve_stub-Runs 0x100000 (record { mem = before; code_ptr = 0x300000 }) new_stub 5 0x8000 7
      0x9000 (omega arith) (omega arith) (λ x le lt. refl)
      (record {
        stack_room = omega arith;
        target_word = omega arith;
        saved_ecx = refl;
        pushed_target = refl;
      })
