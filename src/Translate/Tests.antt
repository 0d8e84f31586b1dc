-- ===== src/Translate/Tests.antt =====
-- Short translations, and the theorems applied to one.
use unitrans.Blocks.Find.{tb_find_slow}
use unitrans.Blocks.Tests.{zero_block}
use unitrans.Cache.Emission.{Emitted-below}
use unitrans.Cache.Examples.{where_things_are, some_blocks, Pushed-small}
use unitrans.Common.{◌∷◌, ◌*◌, map, ◌∙◌, arith, true, ◌<◌, ◌+◌, inl, ℕ, [], ◌≡◌, refl}
use unitrans.Decode.Fetch.{Code}
use unitrans.Decode.Tests.{code_at, blank}
use unitrans.Emit.Memory.{Memory, store, le32, load32, Out, code_emit8, code_emit32}
use unitrans.Link.State.{PatchEntry, Layout}
use unitrans.Sieve.Chain.{cpu}
use unitrans.Sieve.Linking.{store-away}
use unitrans.Sieve.Machine.{Cpu, Runs}
use unitrans.Sieve.Tests.{before}
use unitrans.Translate.Answer.{cemit_rc_cmp-Returned}
use unitrans.Translate.Bounds.{IsInside, Ends, gen_loop-IsInside}
use unitrans.Translate.Calls.{store_word, cemit_rc_cmp}
use unitrans.Translate.Gen.{
  Outcome, finished, aborted, out_of_rounds, fuel_spent, gen_loop, start_trans,
}
use unitrans.Translate.Return.{Returned}
use unitrans.Translate.Returning.{front_bytes, front-Emitted, front-same}
use unitrans.Translate.State.{Trans}

-- push %ebp; mov %esp, %ebp; jne over the next instruction; ret; int $0x80; ret
abbrev guest_code : Code
guest_code = code_at 0x1000 (0x55 ∷ 0x89 ∷ 0xe5 ∷ 0x75 ∷ 0x01 ∷ 0xc3 ∷ 0xcd ∷ 0x80 ∷ 0xc3 ∷ [])

-- Block 0 starts at 0x1000, its code at 0x7000; the addresses have no blocks yet.
abbrev start_state : Trans
start_state = record {
  linker = record {
    blocks = record some_blocks {
      tbs = λ i. record zero_block { pc = 0x1000; tc_ptr = 0x7000; func_addr = 0x1000 };
      nb_tbs = 1;
    };
    out = record { mem = λ x. 0; code_ptr = 0x200000 };
    patch_array = [];
    patch_num = 0;
    find_dest_count = 0;
  };
  code_ptr = 0;
  pc_ptr = 0;
  insn_len = 0;
  cur_tb = 0;
}

abbrev state_of : Outcome → Trans
state_of (finished t) = t
state_of aborted = start_state
state_of out_of_rounds = start_state
state_of fuel_spent = start_state

abbrev translation : Trans
translation =
    state_of (gen_loop 9 guest_code where_things_are 16 blank 0 (start_trans 0 start_state))

-- The two copied instructions, the open jump, and the jump of the return; the open jump is noted with
-- its destination, and the instruction behind it starts block 1.
translation-run :
    (translation.code_ptr ≡ 0x700f)
    × (map translation.linker.out.mem (0x7000 ∷ 0x7001 ∷ 0x7002 ∷ 0x7003 ∷ 0x7004 ∷ 0x7009 ∷ [])
        ≡ 0x55 ∷ 0x89 ∷ 0xe5 ∷ 0x0f ∷ 0x85 ∷ 0xff ∷ [])
    × (map (λ (p : PatchEntry). p.place) translation.linker.patch_array ≡ 0x7005 ∷ [])
    × (map (λ (p : PatchEntry). p.to) translation.linker.patch_array ≡ 0x1006 ∷ [])
    × (translation.cur_tb ≡ 1)
unfolding gen_loop tb_find_slow code_emit32 code_emit8 store
translation-run = (refl, refl, refl, refl, refl)

abbrev where_env_is : Layout
where_env_is = record {
  ret_tb_addr = 0x10004;
  patch_num_addr = 0x10010;
  eip_addr = 0x10000;
  tb_ret_addr = 0x31000;
  tb_addr = λ i. 0x40000 + 256 * i;
}

gen_loop-IsInside_example :
    Ends
      (gen_loop 8193 guest_code where_things_are 16 blank 0 (start_trans 0 start_state))
      (IsInside 0x7000 255)
gen_loop-IsInside_example =
    gen_loop-IsInside 8193 guest_code where_things_are 16 blank 0 start_state (omega arith)

-- The code behind a call that returns to 0x9000, where the stack holds that address.
abbrev call_out : Out
call_out = record { mem = before; code_ptr = 0x400000 }

abbrev behind_call : Memory
behind_call = (cemit_rc_cmp where_things_are 0x9000 0x3ffff0 call_out).mem

behind_call-below : (x : ℕ) → x < 0x100000 → behind_call x ≡ before x
behind_call-below x lt =
    front-same where_things_are 0x9000 0x3ffff0 call_out x (omega (arith, lt))
    ∙ Emitted-below (front_bytes 0x9000) x
        (front-Emitted 0x9000 (store_word 0x3ffff0 0x400000 call_out)) (omega (arith, lt))
    ∙ store-away (le32 0x400000) before 0x3ffff0 x (inl (omega (arith, lt)))

cemit_rc_cmp-Returned_example :
    (load32 behind_call 0x3ffff0 ≡ 0x400000)
    × ((cemit_rc_cmp where_things_are 0x9000 0x3ffff0 call_out).code_ptr ≡ 0x400017)
    × (behind_call 0x400000 ≡ 0x51)
    × (c : Cpu) × Runs behind_call (cpu 0x400001 5 0x8000) c
    × Returned true 0x400017 where_things_are.sieve_stub 0x8000 7 c
cemit_rc_cmp-Returned_example =
    cemit_rc_cmp-Returned where_things_are 0x9000 0x3ffff0 call_out behind_call 5 0x8000 7 0x9000
      (omega arith) (omega arith) (omega arith) (omega arith) (λ x ge lt. refl)
      (Pushed-small behind_call behind_call-below)
