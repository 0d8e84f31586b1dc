-- ===== src/Cache/Examples.antt =====
-- An inline cache beside a sieve, and the theorems applied to it.
use unitrans.Blocks.State.{Blocks}
use unitrans.Blocks.Tests.{zero_block}
use unitrans.Cache.Code.{EnvLayout, cemit_ind_opt}
use unitrans.Cache.Dispatch.{patch_all-Arrives, branch-Arrives}
use unitrans.Cache.Frame.{Agree}
use unitrans.Cache.Fresh.{cemit_ind_opt-IsCache, cemit_ind_opt-Emitted}
use unitrans.Cache.Misses.{WayOut, IsCache}
use unitrans.Cache.Sequence.{first_of, patch_all, resolved, AreAddresses, After, patch_all-After}
use unitrans.Common.{
  ltb, length, ◌++◌, ℕ, ◌⊎◌, some, List, inl, ◌*◌, ◌<◌, ◌≡◌, ◌∙◌, ◌∷◌, ◌%◌, ◌+◌, ◌^◌, true, refl,
  none, false, ◌≤◌, inr, arith, [],
}
use unitrans.Emit.Memory.{Memory, store, Out}
use unitrans.Emit.Stored.{Spells-same, Spells-agree}
use unitrans.Sieve.Chain.{lookup, Pushed, Arrives, cpu}
use unitrans.Sieve.Dispatch.{stub_bytes, emit_sieve_stub-Spells, view_of}
use unitrans.Sieve.Entry.{SieveState}
use unitrans.Sieve.Filling.{sv_table_init-IsSieve, sv_table_init-outside}
use unitrans.Sieve.History.{add_all, AreTranslated}
use unitrans.Sieve.Holding.{IsSieve}
use unitrans.Sieve.Machine.{Cpu, Runs}
use unitrans.Sieve.Refinement.{added, added-Linked, add_sieve_entry-room}
use unitrans.Sieve.Table.{sv_table_init, emit_sieve_stub}
use unitrans.Sieve.Tests.{before, stub-before}

abbrev pub where_things_are : EnvLayout
where_things_are = record {
  eip_addr = 0x10000;
  ret_tb_addr = 0x10004;
  ind_type_addr = 0x10008;
  ind_dest_addr = 0x1000c;
  ret_hash_table = 0x20000;
  env_addr = 0x10000;
  exit_stub = 0x30000;
  tb_ret_addr = 0x31000;
  sieve_stub = 0x200000;
  nr_exit_group = 252;
  block_addr = λ i. 0x40000 + 256 * i;
}

-- Block 0 has the indirect branch; the code of every block is at 0x7000.
abbrev pub some_blocks : Blocks
some_blocks = record {
  tbs = λ i. record zero_block { tc_ptr = 0x7000 };
  nb_tbs = 9;
  code_gen_max_blocks = 16;
  code_gen_size = 0;
  code_gen_buffer_max_size = 4096;
  tb_phys_hash = λ h. none;
  tb_jmp_cache = λ h. none;
}

abbrev start_out : Out
start_out = record { mem = before; code_ptr = 0x300000 }

emitted_here :
    (s' : Blocks) × (o' : Out) × (cemit_ind_opt where_things_are 0 2 some_blocks start_out
      ≡ some (s', o'))
    × (o'.code_ptr ≡ 0x300000 + 99)
    × (o'.mem 0x300000 ≡ 0x51)
    × Agree before o'.mem 0 0x300000
    × ((i : ℕ) → (s'.tbs i).tc_ptr ≡ 0x7000)
    × IsCache where_things_are 0 2 (0x300000 + 1) 3 [] false s' o'.mem
emitted_here = cemit_ind_opt-IsCache where_things_are 0 2 some_blocks start_out refl (omega arith)

cemit_ind_opt-Emitted_example :
    (s' : Blocks) × (o' : Out) × (cemit_ind_opt where_things_are 0 2 some_blocks start_out
      ≡ some (s', o'))
    × (o'.code_ptr ≡ 0x300000 + 99)
    × (o'.mem 0x8000 ≡ before 0x8000)
    × IsCache where_things_are 0 2 (0x300000 + 1) 3 [] false s' o'.mem
cemit_ind_opt-Emitted_example =
    cemit_ind_opt-Emitted where_things_are 0 2 some_blocks start_out 0x8000 refl (omega arith)
      (omega arith)

abbrev blocks_here : Blocks
blocks_here = emitted_here.0

abbrev out_here : Out
out_here = emitted_here.1

abbrev four_misses : List (ℕ × ℕ)
four_misses = (0x9000, 1) ∷ (0x9100, 2) ∷ (0x9200, 3) ∷ (0x9300, 4) ∷ []

four_misses-AreAddresses : AreAddresses four_misses
four_misses-AreAddresses = (omega arith, (omega arith, (omega arith, (omega arith, tt))))

abbrev filled_here : Blocks × Memory
filled_here = patch_all where_things_are 0 four_misses blocks_here out_here.mem

filled_here-After :
    After where_things_are 0 2 0x300001
      (λ i. 0x7000)
      0
      ((0x9000, 0x7000) ∷ (0x9100, 0x7000) ∷ (0x9200, 0x7000) ∷ [])
      true
      blocks_here
      out_here.mem
      filled_here
filled_here-After =
    patch_all-After where_things_are 0 2 0x300001 (λ i. 0x7000) four_misses 3 [] false blocks_here
      out_here.mem emitted_here.6 (λ i. omega arith) (omega arith) four_misses-AreAddresses
      emitted_here.7

-- The stack and the stub of the sieve are as before.
filled-below : (x : ℕ) → x < 0x300000 → filled_here.1 x ≡ before x
filled-below x lt =
    filled_here-After.1.outside x (inl (omega (arith, lt))) ∙ emitted_here.5 x (omega arith) lt

pub Pushed-small :
    (m : Memory) → ((x : ℕ) → x < 0x100000 → m x ≡ before x) → Pushed m 0x8000 7 0x9000
unfolding store
Pushed-small m same =
    let at_0 : m 0x8000 ≡ 7 = same 0x8000 (omega arith) in
    let at_1 : m 0x8001 ≡ 0 = same 0x8001 (omega arith) in
    let at_2 : m 0x8002 ≡ 0 = same 0x8002 (omega arith) in
    let at_3 : m 0x8003 ≡ 0 = same 0x8003 (omega arith) in
    let at_4 : m 0x8004 ≡ 0 = same 0x8004 (omega arith) in
    let at_5 : m 0x8005 ≡ 0x90 = same 0x8005 (omega arith) in
    let at_6 : m 0x8006 ≡ 0 = same 0x8006 (omega arith) in
    let at_7 : m 0x8007 ≡ 0 = same 0x8007 (omega arith) in
    record {
      stack_room = omega arith;
      target_word = omega arith;
      saved_ecx = omega (arith, at_0, at_1, at_2, at_3);
      pushed_target = omega (arith, at_4, at_5, at_6, at_7);
    }

codes_lt : (i : ℕ) → (blocks_here.tbs i).tc_ptr < 2 ^ 32
codes_lt i = omega (arith, emitted_here.6 i)

patch_all-Arrives_example :
    (c : Cpu) × Runs filled_here.1 (cpu 0x300001 5 0x8000) c
    × Arrives
        (lookup 0x9000 (first_of 3 (resolved (λ i. (blocks_here.tbs i).tc_ptr) four_misses)))
        0x300025
        0x8000
        7
        c
    × WayOut where_things_are 0 2 filled_here.1 0x300025 (ltb 3 (length four_misses))
patch_all-Arrives_example =
    patch_all-Arrives where_things_are 0 2 some_blocks blocks_here start_out out_here four_misses
      0x8000 7 0x9000 5 refl (omega arith) emitted_here.2 codes_lt (omega arith)
      four_misses-AreAddresses (λ p. omega (arith, p))
      (Pushed-small filled_here.1 (λ x lt. filled-below x (omega (arith, lt))))

-- The table of the sieve is made in that memory.
abbrev beside : SieveState
beside = record {
  sieve_hashtable = 0x100000;
  sieve_buffer = 0x200000;
  out = record { mem = sv_table_init 0x100000 0x5000 filled_here.1; code_ptr = 0x200010 };
  sieve_stat = λ k. 0;
}

beside-IsSieve : IsSieve beside 0x5000 (view_of [])
beside-IsSieve =
    sv_table_init-IsSieve beside 0x5000 filled_here.1
      (record {
        table_room = omega arith;
        buffer_room = omega arith;
        apart = inl (omega arith);
        filled_from = omega arith;
        filled_to = omega arith;
      })
      refl (omega arith)

beside-outside : (x : ℕ) → x < 0x100000 ⊎ 0x180000 ≤ x → beside.out.mem x ≡ filled_here.1 x
beside-outside x away =
    sv_table_init-outside 0x100000 0x5000 x filled_here.1 (omega arith) (omega arith) away

beside-stack : (x : ℕ) → x < 0x100000 → beside.out.mem x ≡ before x
beside-stack x lt = beside-outside x (inl lt) ∙ filled-below x (omega (arith, lt))

-- One entry more than the cache has.
abbrev one_more : List (ℕ × ℕ)
one_more = (0x9500, 0x7100) ∷ []

abbrev with_entry : SieveState
with_entry = added 0x9500 0x7100 beside

with_entry-Linked :
    (x : ℕ)
    → x < 0x100000 ⊎ 0x180000 ≤ x
    → x < 0x200010 ⊎ 0x200010 + 27 ≤ x
    → with_entry.out.mem x ≡ filled_here.1 x
with_entry-Linked x away away' =
    let k =
      added-Linked beside 0x5000 0x9500 0x7100 (view_of []) beside-IsSieve (omega arith)
        (omega arith) in
    k.rest x (from_slot x away) away' ∙ beside-outside x away
  where
    from_slot :
        (x : ℕ)
        → x < 0x100000 ⊎ 0x180000 ≤ x
        → x < 0x100000 + 0x9500 % 2 ^ 16 * 8 ⊎ 0x100000 + 0x9500 % 2 ^ 16 * 8 + 5 ≤ x
    from_slot x (inl lt) = inl (omega (arith, lt))
    from_slot x (inr le) = inr (omega (arith, le))

one_more-added : add_all one_more beside ≡ some with_entry
unfolding add_all
one_more-added =
    let k =
      added-Linked beside 0x5000 0x9500 0x7100 (view_of []) beside-IsSieve (omega arith)
        (omega arith) in
    let end = k.end in
    add_sieve_entry-room beside 0x9500 0x7100 (λ p. omega (arith, p)) (omega (arith, end))

one_more-AreTranslated : AreTranslated one_more
unfolding AreTranslated
one_more-AreTranslated = (omega arith, omega arith, λ p. omega (arith, p), tt)

abbrev stub_place : Out
stub_place = record { mem = before; code_ptr = 0x200000 }

-- The stub is emitted once more, where it is.
stub_kept : Agree (emit_sieve_stub 0x100000 stub_place).mem with_entry.out.mem 0x200000 0x200010
stub_kept x le lt =
    Spells-agree (stub_bytes 0x100000) (emit_sieve_stub 0x100000 stub_place).mem with_entry.out.mem
      0x200000 (emit_sieve_stub-Spells 0x100000 stub_place)
      (Spells-same (stub_bytes 0x100000) before with_entry.out.mem 0x200000
        (λ y y_le y_lt.
          with_entry-Linked y (inr (omega (arith, y_le))) (inl (omega (arith, y_lt)))
          ∙ filled-below y (omega (arith, y_lt)))
        stub-before)
      x le (omega (arith, lt))

branch-Arrives_example :
    (c : Cpu) × Runs with_entry.out.mem (cpu 0x300001 5 0x8000) c
    × Arrives
        (lookup 0x9000
          (first_of 3 (resolved (λ i. (blocks_here.tbs i).tc_ptr) four_misses) ++ one_more))
        0x5000
        0x8000
        7
        c
branch-Arrives_example =
    branch-Arrives where_things_are 0 2 some_blocks blocks_here start_out out_here stub_place
      four_misses one_more beside with_entry 0x5000 0x8000 7 0x9000 5 refl (omega arith)
      emitted_here.2 codes_lt (omega arith) four_misses-AreAddresses (omega arith) beside-IsSieve
      one_more-AreTranslated (omega arith) one_more-added
      (λ x le lt. with_entry-Linked x (inr (omega (arith, le))) (inr (omega (arith, le)))) refl
      (λ x le lt. stub_kept x le lt) (λ p. omega (arith, p))
      (Pushed-small with_entry.out.mem (λ x lt.
        with_entry-Linked x (inl lt) (inl (omega (arith, lt)))
        ∙ filled-below x (omega (arith, lt))))
