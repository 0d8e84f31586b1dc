-- ===== src/Cache/Fresh.antt =====
-- `cemit_ind_opt` emits an inline cache with no slot filled.
use unitrans.Blocks.State.{ind_slot_max, Blocks, update}
use unitrans.Blocks.Tests.{empty}
use unitrans.Cache.Code.{
  EnvLayout, emit_field, cemit_exit_tb, emit_tests, emit_hits, slots_into, cemit_ind_opt,
}
use unitrans.Cache.Emission.{
  unfilled, places_from, dests_from, Tested, Tested-Agree, Emitted-Spells, Emitted-below,
  emit_tests-Tested, emit_hits-Slots,
}
use unitrans.Cache.Frame.{Agree, Spells-Agree}
use unitrans.Cache.Misses.{leave_front, leave_bytes, landing, IsCache}
use unitrans.Cache.Slots.{Slots}
use unitrans.Common.{
  ◌==◌, ==_iff, Bool-cases, all, sub32, ◌+◌, refl, inr, some, ◌≡◌, map, inl, true, ◌∷◌, ◌++◌, List,
  ℕ, false, ap, ◌^◌, ◌<◌, subst, [], arith, ◌≤◌, ◌∙◌, Option,
}
use unitrans.Common.Maybe.{◌>>=◌}
use unitrans.Emit.Memory.{le32, Out, code_emit8, code_emit32, ◌▷◌}
use unitrans.Emit.Stored.{Spells, are_bytes, le32-bytes, all-append}
use unitrans.Emit.Trace.{Emitted, nothing, then8, then32}

front-Emitted :
    (l : EnvLayout) (tb ind_type : ℕ) (o : Out)
    → Emitted o
        (o
          ▷ code_emit8 0x59
          ▷ code_emit8 0x8f
          ▷ code_emit8 0x05
          ▷ code_emit32 l.eip_addr
          ▷ emit_field l.ret_tb_addr (some (l.block_addr tb))
          ▷ emit_field l.ind_type_addr (some ind_type)
          ▷ code_emit8 0xe9)
        (leave_front l tb ind_type)
front-Emitted l tb ind_type o = then8 0xe9 (
    then32 ind_type (
      then32 l.ind_type_addr (
        then8 0x05 (
          then8 0xc7 (
            then32 (l.block_addr tb) (
              then32 l.ret_tb_addr (
                then8 0x05 (
                  then8 0xc7
                    (then32 l.eip_addr (then8 0x05 (then8 0x8f (then8 0x59 (nothing o)))))))))))))

pub leave-Emitted :
    (l : EnvLayout) (tb ind_type : ℕ) (o : Out)
    → Emitted o
        (cemit_exit_tb l (some (l.block_addr tb)) (some ind_type) o)
        (leave_bytes l tb ind_type o.code_ptr)
unfolding cemit_exit_tb
leave-Emitted l tb ind_type o =
    let e = front-Emitted l tb ind_type o in
    subst
      (λ (k : ℕ).
        Emitted o (cemit_exit_tb l (some (l.block_addr tb)) (some ind_type) o)
          (leave_front l tb ind_type ++ le32 (sub32 (sub32 l.tb_ret_addr k) 4)))
      e.moved (then32 _ e)

module _ (xs : List ℕ) (h : are_bytes xs ≡ true) where
  and_word : (v : ℕ) → are_bytes (xs ++ le32 v) ≡ true
  and_word v = all-append xs (le32 v) h (le32-bytes v)

  and_move : are_bytes (xs ++ (0xc7 ∷ 0x05 ∷ [])) ≡ true
  unfolding all
  and_move = all-append xs (0xc7 ∷ 0x05 ∷ []) h refl

  and_jump : are_bytes (xs ++ (0xe9 ∷ [])) ≡ true
  unfolding all
  and_jump = all-append xs (0xe9 ∷ []) h refl

pops_bytes : are_bytes (0x59 ∷ 0x8f ∷ 0x05 ∷ []) ≡ true
unfolding all
pops_bytes = refl

leave_bytes-bytes :
    (l : EnvLayout) (tb ind_type a : ℕ) → are_bytes (leave_bytes l tb ind_type a) ≡ true
leave_bytes-bytes l tb ind_type a =
    and_word _
      (and_jump _ (
        and_word _
          (and_word _
            (and_move _ (
              and_word _ (and_word _ (and_move _ (and_word _ pops_bytes l.eip_addr)) l.ret_tb_addr)
                (l.block_addr tb)))
            l.ind_type_addr)
          ind_type))
      (sub32 (sub32 l.tb_ret_addr (a + 28)) 4)

push-bytes : are_bytes (0x51 ∷ []) ≡ true
unfolding all
push-bytes = refl

abbrev with_slots : Blocks → ℕ → List (ℕ × ℕ) → ℕ → List ℕ → Blocks
with_slots s tb places enter dests = record s {
  tbs = update s.tbs tb (slots_into places dests enter (s.tbs tb));
}

abbrev with_hits : Blocks → ℕ → List (ℕ × ℕ) → ℕ → Out × List ℕ → Option (Blocks × Out)
with_hits s tb places enter r = some (with_slots s tb places enter r.1, r.0)

code_kept :
    (s : Blocks) (tb : ℕ) (places : List (ℕ × ℕ)) (enter : ℕ) (dests : List ℕ) (i : ℕ)
    → ((with_slots s tb places enter dests).tbs i).tc_ptr ≡ (s.tbs i).tc_ptr
code_kept s tb places enter dests i = elim (Bool-cases (i == tb)) [
  | inl same ↦ rw (same, (==_iff i tb).0 same) refl
  | inr differ ↦ rw differ refl
]

-- The code of an indirect branch behind the guest's target on the stack: it never aborts for a
-- distance that is too long, it ends 99 bytes on, it writes nowhere below, and its cache is empty.
pub cemit_ind_opt-IsCache :
    (l : EnvLayout) (tb ind_type : ℕ) (s : Blocks) (o : Out)
    → (s.tbs tb).jmp_ind_index ≡ 0
    → o.code_ptr + 99 ≤ 2 ^ 32
    → (s' : Blocks) × (o' : Out) × (cemit_ind_opt l tb ind_type s o ≡ some (s', o'))
      × (o'.code_ptr ≡ o.code_ptr + 99)
      × (o'.mem o.code_ptr ≡ 0x51)
      × Agree o.mem o'.mem 0 o.code_ptr
      × ((i : ℕ) → (s'.tbs i).tc_ptr ≡ (s.tbs i).tc_ptr)
      × IsCache l tb ind_type (o.code_ptr + 1) ind_slot_max [] false s' o'.mem
unfolding cemit_ind_opt Spells
cemit_ind_opt-IsCache l tb ind_type s o empty room =
    let a = o.code_ptr + 1 in
    let p = code_emit8 0x51 o in
    let pe = then8 0x51 (nothing o) in
    let (places, stop, tested, same) = emit_tests-Tested 3 p in
    let t = (emit_tests 3 p).0 in
    let x = cemit_exit_tb l (some (l.block_addr tb)) (some ind_type) t in
    let xe = leave-Emitted l tb ind_type t in
    let t_at : t.code_ptr ≡ a + 36 = omega (arith, stop, pe.moved) in
    let x_at : x.code_ptr ≡ landing a = omega (arith, t_at, xe.moved) in
    let p_at : p.code_ptr ≡ a = pe.moved in
    let bytes = leave_bytes l tb ind_type t.code_ptr in
    let tested' : Tested x.mem a 3 =
      Tested-Agree 3 a (λ y le lt. Emitted-below bytes y xe (omega (arith, lt, t_at)))
        (subst (λ (k : ℕ). Tested t.mem k 3) p_at tested) in
    let (o', ran, end, slots, front, back) =
      emit_hits-Slots 3 a x (omega (arith, x_at)) (omega (arith, x_at, room)) (omega (arith, x_at))
        tested' in
    let exits : Spells x.mem (a + 36) (leave_bytes l tb ind_type (a + 36)) =
      subst (λ (k : ℕ). Spells x.mem k (leave_bytes l tb ind_type k)) t_at
        (Emitted-Spells bytes xe (leave_bytes-bytes l tb ind_type t.code_ptr)) in
    let found : emit_hits (emit_tests 3 p).1 x ≡ some (o', dests_from 3 x.code_ptr) =
      ap (λ (ps : List (ℕ × ℕ)). emit_hits ps x) (places ∙ ap (places_from 3) p_at) ∙ ran in
    let s' = with_slots s tb (emit_tests 3 p).1 t.code_ptr (dests_from 3 x.code_ptr) in
    let entry = (==_iff tb tb).1 refl in
    let first : o'.mem o.code_ptr ≡ 0x51 =
      front o.code_ptr (omega arith) (omega arith)
      ∙ Emitted-below bytes o.code_ptr xe (omega (arith, t_at))
      ∙ same o.code_ptr (omega arith) (omega (arith, p_at))
      ∙ (Emitted-Spells (0x51 ∷ []) pe push-bytes).0 in
    (
      s',
      o',
      ap (λ (q : Option (Out × List ℕ)). q >>= with_hits s tb (emit_tests 3 p).1 t.code_ptr) found,
      omega (arith, end, x_at),
      first,
      λ y le lt.
          front y le (omega (arith, lt))
          ∙ Emitted-below bytes y xe (omega (arith, lt, t_at))
          ∙ same y le (omega (arith, lt, p_at))
          ∙ Emitted-below (0x51 ∷ []) y pe lt,
      code_kept s tb (emit_tests 3 p).1 t.code_ptr (dests_from 3 x.code_ptr),
      record {
        count = refl;
        room = omega (arith, room);
        sources = rw entry (ap (map (λ (q : ℕ × ℕ). q.0)) (places ∙ ap (places_from 3) p_at));
        dests = rw entry (ap (dests_from 3) x_at);
        index = rw entry empty;
        enter = rw entry t_at;
        slots =
            subst (λ (k : ℕ). Slots o'.mem a (landing a) (unfilled 3 k)) (omega arith)
              (subst (λ (k : ℕ). Slots o'.mem a k (unfilled 3 k)) x_at slots);
        way =
            Spells-Agree (leave_bytes l tb ind_type (a + 36)) (a + 36) back (omega arith)
              (omega (arith, x_at)) exits;
      },
    )

-- The code of an indirect branch in a block that is new, with room in the address space: its emission
-- never aborts for a distance that is too long, ends 99 bytes on, changes no byte below, and leaves an
-- inline cache with no slot filled and the code that leaves the cache behind the tests.
pub cemit_ind_opt-Emitted :
    (l : EnvLayout) (tb ind_type : ℕ) (s : Blocks) (o : Out) (x : ℕ)
    → (s.tbs tb).jmp_ind_index ≡ 0
    → o.code_ptr + 99 ≤ 2 ^ 32
    → x < o.code_ptr
    → (s' : Blocks) × (o' : Out) × (cemit_ind_opt l tb ind_type s o ≡ some (s', o'))
      × (o'.code_ptr ≡ o.code_ptr + 99)
      × (o'.mem x ≡ o.mem x)
      × IsCache l tb ind_type (o.code_ptr + 1) ind_slot_max [] false s' o'.mem
cemit_ind_opt-Emitted l tb ind_type s o x empty room lt =
    let (s', o', ran, end, push, same, codes, cache) =
      cemit_ind_opt-IsCache l tb ind_type s o empty room in
    (s', o', ran, end, same x (omega arith) lt, cache)
