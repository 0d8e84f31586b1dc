-- ===== src/Cache/Misses.antt =====
-- The inline cache of a block as an invariant, kept by every miss that is patched.
use mathlib.Core.List.{append_assoc}
use unitrans.Blocks.State.{ind_slot_max, Blocks, update}
use unitrans.Cache.Code.{need_patch_32, EnvLayout, patch_jmp_target}
use unitrans.Cache.Emission.{unfilled, places_from, dests_from, unfilled-length}
use unitrans.Cache.Filling.{filled_at, filled_at-elsewhere, fill-Slots}
use unitrans.Cache.Frame.{Agree, Spells-Agree, JumpsTo-Agree}
use unitrans.Cache.Slots.{Slots}
use unitrans.Common.{
  ◌==◌, ==_iff, Bool-cases, length, get_or, length-append, u32, sub32, inl, ◌++◌, ◌≡◌, suc, ◌+◌,
  refl, ap, ◌<◌, ◌*◌, ℕ, ◌∷◌, ◌≤◌, ◌∙◌, map, false, subst, ap₂, true, ◌^◌, sym, Bool, arith, List,
  [], ◌⊎◌, inr, zero,
}
use unitrans.Emit.Memory.{Memory, le32}
use unitrans.Emit.Stored.{Spells}
use unitrans.Sieve.Chain.{JumpsTo}

-- The code that leaves the cache, at `a`.
abbrev pub leave_front : EnvLayout → ℕ → ℕ → List ℕ
leave_front l tb ind_type =
    (0x59 ∷ 0x8f ∷ 0x05 ∷ [])
    ++ le32 l.eip_addr
    ++ (0xc7 ∷ 0x05 ∷ [])
    ++ le32 l.ret_tb_addr
    ++ le32 (l.block_addr tb)
    ++ (0xc7 ∷ 0x05 ∷ [])
    ++ le32 l.ind_type_addr
    ++ le32 ind_type
    ++ (0xe9 ∷ [])

abbrev pub leave_bytes : EnvLayout → ℕ → ℕ → ℕ → List ℕ
leave_bytes l tb ind_type a =
    leave_front l tb ind_type ++ le32 (sub32 (sub32 l.tb_ret_addr (a + 28)) 4)

-- Behind the tests: that code, or a jump to the sieve once there was a miss with every slot filled.
abbrev pub WayOut : EnvLayout → ℕ → ℕ → Memory → ℕ → Bool → Type 0
WayOut l tb ind_type m a false = Spells m a (leave_bytes l tb ind_type a)
WayOut l tb ind_type m a true = JumpsTo m a l.sieve_stub

abbrev pub landing : ℕ → ℕ
landing a = a + 68

-- The cache of block `tb` with its first test at `a`: the slots `filled` and `left` others.
pub record IsCache (l : EnvLayout) (tb ind_type a left : ℕ) (filled : List (ℕ × ℕ)) (entered : Bool)
    (s : Blocks) (m : Memory) : Type 0 where
  pub count : length filled + left ≡ ind_slot_max
  pub room : landing a + 30 ≤ 2 ^ 32
  pub sources : (s.tbs tb).jind_src_addr ≡ map (λ (p : ℕ × ℕ). p.0) (places_from ind_slot_max a)
  pub dests : (s.tbs tb).jind_dest_addr ≡ dests_from ind_slot_max (landing a)
  pub index : (s.tbs tb).jmp_ind_index ≡ length filled
  pub enter : (s.tbs tb).ind_enter_sieve ≡ a + 36
  pub slots : Slots m a (landing a) (filled ++ unfilled left (landing a + 10 * length filled))
  pub way : WayOut l tb ind_type m (a + 36) entered

source-at :
    (n k a : ℕ) → k < n → get_or (map (λ (p : ℕ × ℕ). p.0) (places_from n a)) k 0 ≡ a + 6 + 12 * k
source-at zero k a lt = absurd (omega (arith, lt))
source-at (suc n) zero a lt = omega arith
source-at (suc n) (suc k) a lt = omega (arith, source-at n k (a + 12) (omega (arith, lt)))

dest-at : (n k h : ℕ) → k < n → get_or (dests_from n h) k 0 ≡ h + 6 + 10 * k
dest-at zero k h lt = absurd (omega (arith, lt))
dest-at (suc n) zero h lt = omega arith
dest-at (suc n) (suc k) h lt = omega (arith, dest-at n k (h + 10) (omega (arith, lt)))

-- Memory that agrees on the way out has it.
pub WayOut-Agree :
    (l : EnvLayout) (tb ind_type a : ℕ) (entered : Bool) {m n : Memory}
    → Agree m n a (a + 32)
    → WayOut l tb ind_type m a entered
    → WayOut l tb ind_type n a entered
WayOut-Agree l tb ind_type a false h w =
    Spells-Agree (leave_bytes l tb ind_type a) a h (omega arith) (omega arith) w
WayOut-Agree l tb ind_type a true h w = JumpsTo-Agree (λ x le lt. h x le (omega (arith, lt))) w

-- What a patch leaves alone: the memory outside the cache and the code of every block.
pub record Kept (a : ℕ) (s s' : Blocks) (m m' : Memory) : Type 0 where
  pub outside : (x : ℕ) → x < a ⊎ landing a + 30 ≤ x → m' x ≡ m x
  pub codes : (i : ℕ) → (s'.tbs i).tc_ptr ≡ (s.tbs i).tc_ptr

Slots-snoc :
    (m : Memory) (a h left : ℕ) (filled : List (ℕ × ℕ)) (p : ℕ × ℕ)
    → Slots m a h (filled ++ p ∷ unfilled left (h + 10 * length filled + 10))
    → Slots m a h ((filled ++ p ∷ []) ++ unfilled left (h + 10 * length (filled ++ p ∷ [])))
Slots-snoc m a h left filled p slots =
    let end : h + 10 * length filled + 10 ≡ h + 10 * length (filled ++ p ∷ []) =
      omega (arith, length-append filled (p ∷ [])) in
    subst (Slots m a h)
      (ap (λ (x : ℕ). filled ++ p ∷ unfilled left x) end
        ∙ sym (append_assoc filled (p ∷ []) (unfilled left (h + 10 * length (filled ++ p ∷ [])))))
      slots

-- A miss with a slot left fills the next one.
pub patched-IsCache :
    (l : EnvLayout) (tb ind_type a left pc tc_ptr : ℕ) (filled : List (ℕ × ℕ)) (entered : Bool)
    (s : Blocks) (m : Memory)
    → pc < 2 ^ 32
    → tc_ptr < 2 ^ 32
    → IsCache l tb ind_type a (suc left) filled entered s m
    → let r = patch_jmp_target tb pc tc_ptr s m in
      IsCache l tb ind_type a left (filled ++ (pc, tc_ptr) ∷ []) entered r.0 r.1
      × Kept a s r.0 m r.1
unfolding patch_jmp_target
patched-IsCache l tb ind_type a left pc tc_ptr filled entered s m pc_lt tc_lt is =
    let k = length filled in
    let b = s.tbs tb in
    let count = is.count in
    let src : get_or b.jind_src_addr b.jmp_ind_index 0 ≡ a + 6 + 12 * k =
      ap₂ (λ (xs : List ℕ) (i : ℕ). get_or xs i 0) is.sources is.index
      ∙ source-at 3 k a (omega (arith, count)) in
    let dest : get_or b.jind_dest_addr b.jmp_ind_index 0 ≡ landing a + 6 + 10 * k =
      ap₂ (λ (xs : List ℕ) (i : ℕ). get_or xs i 0) is.dests is.index
      ∙ dest-at 3 k (landing a) (omega (arith, count)) in
    let same = ap₂ (λ (x y : ℕ). filled_at m x y pc tc_ptr) src dest in
    let old : ℕ × ℕ = (need_patch_32, u32 (landing a + 10 * k + 10 + need_patch_32)) in
    let rest = unfilled left (landing a + 10 * k + 10) in
    let new : ℕ × ℕ = (pc, tc_ptr) in
    let m' = filled_at m (a + 6 + 12 * k) (landing a + 6 + 10 * k) pc tc_ptr in
    let slots' : Slots m' a (landing a) (filled ++ new ∷ rest) =
      fill-Slots filled rest m a (landing a) pc tc_ptr old
        (omega (arith, count, unfilled-length left (landing a + 10 * k + 10))) pc_lt tc_lt
        is.slots in
    let beside : (x : ℕ) → x < a ⊎ landing a + 30 ≤ x → m' x ≡ m x = λ x away.
      filled_at-elsewhere m (a + 6 + 12 * k) (landing a + 6 + 10 * k) pc tc_ptr x
        (outside-source x a k left away count) (outside-dest x a k left away count) in
    let kept_block = (==_iff tb tb).1 refl in
    (
      record {
        count = omega (arith, count, length-append filled (new ∷ []));
        room = is.room;
        sources = rw kept_block is.sources;
        dests = rw kept_block is.dests;
        index = rw kept_block (omega (arith, is.index, count, length-append filled (new ∷ [])));
        enter = rw kept_block is.enter;
        slots =
            subst
              (λ (n : Memory). Slots n a (landing a) (
                (filled ++ new ∷ [])
                ++ unfilled left (landing a + 10 * length (filled ++ new ∷ []))))
              (sym same) (Slots-snoc m' a (landing a) left filled new slots');
        way =
            subst (λ (n : Memory). WayOut l tb ind_type n (a + 36) entered) (sym same)
              (WayOut-Agree l tb ind_type (a + 36) entered
                (λ x le lt.
                  filled_at-elsewhere m (a + 6 + 12 * k) (landing a + 6 + 10 * k) pc tc_ptr x
                    (inr (omega (arith, le, count))) (inl (omega (arith, lt))))
                is.way);
      },
      record {
        outside = λ x away. ap (λ (n : Memory). n x) same ∙ beside x away;
        codes = λ i. code-kept i;
      },
    )
  where
    outside-source :
        (x a k left : ℕ)
        → x < a ⊎ a + 68 + 30 ≤ x
        → k + suc left ≡ 3
        → x < a + 6 + 12 * k ⊎ a + 6 + 12 * k + 4 ≤ x
    outside-source x a k left (inl lt) c = inl (omega (arith, lt))
    outside-source x a k left (inr le) c = inr (omega (arith, le, c))

    outside-dest :
        (x a k left : ℕ)
        → x < a ⊎ a + 68 + 30 ≤ x
        → k + suc left ≡ 3
        → x < a + 68 + 6 + 10 * k ⊎ a + 68 + 6 + 10 * k + 4 ≤ x
    outside-dest x a k left (inl lt) c = inl (omega (arith, lt))
    outside-dest x a k left (inr le) c = inr (omega (arith, le, c))

    code-kept :
        (i : ℕ)
        → (update s.tbs tb
            (record (s.tbs tb) { jmp_ind = 0; jmp_ind_index = u32 ((s.tbs tb).jmp_ind_index + 1) })
            i).tc_ptr
          ≡ (s.tbs i).tc_ptr
    code-kept i = elim (Bool-cases (i == tb)) [
      | inl same ↦ rw (same, (==_iff i tb).0 same) refl
      | inr differ ↦ rw differ refl
    ]
