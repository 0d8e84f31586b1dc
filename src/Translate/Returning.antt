-- ===== src/Translate/Returning.antt =====
-- `cemit_rc_cmp` writes the code behind a call, and the word that names it.
use unitrans.Cache.Code.{need_patch_8, EnvLayout, cemit_sieve_nopush, patch_byte}
use unitrans.Cache.Emission.{Emitted-Spells, Emitted-below, one_byte, apart}
use unitrans.Cache.Frame.{Spells-moved}
use unitrans.Cache.Sequence.{sieve_jump, jump-Emitted}
use unitrans.Common.{
  ==_iff, all, sub32, ◌≡◌, ◌≤◌, ◌+◌, ◌++◌, List, ◌^◌, subst, true, ap, ◌∙◌, inl, ℕ, [], ◌∷◌, refl,
  inr, ◌<◌, arith,
}
use unitrans.Emit.Memory.{store, le32, Out, code_emit8}
use unitrans.Emit.Stored.{Spells, store-Spells, Spells-same, Spells-left, Spells-right, are_bytes}
use unitrans.Emit.Trace.{Emitted, nothing, then8, then32}
use unitrans.Sieve.Chain.{JumpsTo}
use unitrans.Sieve.Spelling.{jumps_to}
use unitrans.Translate.Calls.{rc_test, drop_two, store_word, cemit_rc_cmp}
use unitrans.Translate.Return.{ReturnTest}

abbrev pub front_bytes : ℕ → List ℕ
front_bytes pc =
    (0x51 ∷ 0x8b ∷ 0x4c ∷ 0x24 ∷ 4 ∷ 0x8d ∷ 0x89 ∷ []) ++ le32 (sub32 0 pc) ++ (0xe3 ∷ [])

pub front-Emitted : (pc : ℕ) (o : Out) → Emitted o (rc_test pc o) (front_bytes pc)
front-Emitted pc o = then8 0xe3 (
    then32 (sub32 0 pc) (
      then8 0x89
        (then8 0x8d (then8 4 (then8 0x24 (then8 0x4c (then8 0x8b (then8 0x51 (nothing o)))))))))

abbrev drop_bytes : List ℕ
drop_bytes = 0x59 ∷ 0x8d ∷ 0x64 ∷ 0x24 ∷ 4 ∷ []

drop-Emitted : (o : Out) → Emitted o (drop_two o) drop_bytes
drop-Emitted o = then8 4 (then8 0x24 (then8 0x64 (then8 0x8d (then8 0x59 (nothing o)))))

-- The memory and the code pointer in between, by name.
abbrev at_front : ℕ → ℕ → Out → Out
at_front pc place o = rc_test pc (store_word place o.code_ptr o)

abbrev at_jump : EnvLayout → ℕ → ℕ → Out → Out
at_jump l pc place o = cemit_sieve_nopush l (code_emit8 need_patch_8 (at_front pc place o))

front_bytes-bytes : (pc : ℕ) → are_bytes (front_bytes pc) ≡ true
unfolding all
front_bytes-bytes pc = ground arith

drop_bytes-bytes : are_bytes drop_bytes ≡ true
unfolding all
drop_bytes-bytes = refl

sieve_jump-bytes : (l : EnvLayout) (a : ℕ) → are_bytes (sieve_jump l a) ≡ true
unfolding all
sieve_jump-bytes l a = ground arith

module _ (l : EnvLayout) (pc place : ℕ) (o : Out) where
  front_at : (at_front pc place o).code_ptr ≡ o.code_ptr + 12
  front_at = let e = front-Emitted pc (store_word place o.code_ptr o) in e.moved

  jump_at : (at_jump l pc place o).code_ptr ≡ o.code_ptr + 18
  jump_at =
      let p = then8 need_patch_8 (nothing (at_front pc place o)) in
      let e = jump-Emitted l (code_emit8 need_patch_8 (at_front pc place o)) in
      omega (arith, front_at, p.moved, e.moved)

  -- The front in the final memory, byte by byte.
  pub front-same :
      (x : ℕ)
      → x < o.code_ptr + 12
      → (cemit_rc_cmp l pc place o).mem x ≡ (at_front pc place o).mem x
  unfolding cemit_rc_cmp
  front-same x lt =
      let o₁ = at_front pc place o in
      let o₂ = at_jump l pc place o in
      let d = sub32 (sub32 o₂.code_ptr o₁.code_ptr) 1 in
      let p = then8 need_patch_8 (nothing o₁) in
      let e = jump-Emitted l (code_emit8 need_patch_8 o₁) in
      Emitted-below drop_bytes x (drop-Emitted (patch_byte o₁.code_ptr d o₂))
        (omega (arith, lt, jump_at))
      ∙ one_byte o₂.mem o₁.code_ptr d x
      ∙ rw (apart x o₁.code_ptr (inl (omega (arith, lt, front_at)))) (
          Emitted-below (sieve_jump l (code_emit8 need_patch_8 o₁).code_ptr) x e
            (omega (arith, lt, front_at, p.moved))
          ∙ Emitted-below (0x5a ∷ []) x p (omega (arith, lt, front_at)))

  -- The jump behind the patched byte.
  jump-same :
      (x : ℕ)
      → o.code_ptr + 13 ≤ x
      → x < o.code_ptr + 18
      → (cemit_rc_cmp l pc place o).mem x ≡ (at_jump l pc place o).mem x
  unfolding cemit_rc_cmp
  jump-same x le lt =
      let o₁ = at_front pc place o in
      let o₂ = at_jump l pc place o in
      let d = sub32 (sub32 o₂.code_ptr o₁.code_ptr) 1 in
      Emitted-below drop_bytes x (drop-Emitted (patch_byte o₁.code_ptr d o₂))
        (omega (arith, lt, jump_at))
      ∙ one_byte o₂.mem o₁.code_ptr d x
      ∙ rw (apart x o₁.code_ptr (inr (omega (arith, le, front_at)))) refl

  distance-byte : o.code_ptr + 24 ≤ 2 ^ 32 → (cemit_rc_cmp l pc place o).mem (o.code_ptr + 12) ≡ 5
  unfolding cemit_rc_cmp
  distance-byte room =
      let o₁ = at_front pc place o in
      let o₂ = at_jump l pc place o in
      let d = sub32 (sub32 o₂.code_ptr o₁.code_ptr) 1 in
      let k = o.code_ptr + 12 in
      Emitted-below drop_bytes k (drop-Emitted (patch_byte o₁.code_ptr d o₂))
        (omega (arith, jump_at))
      ∙ one_byte o₂.mem o₁.code_ptr d k
      ∙ rw ((==_iff k o₁.code_ptr).1 (omega (arith, front_at)))
          (omega (arith, front_at, jump_at, room))

  pub front-Spells : Spells (cemit_rc_cmp l pc place o).mem o.code_ptr (front_bytes pc)
  front-Spells =
      Spells-same (front_bytes pc) (at_front pc place o).mem (cemit_rc_cmp l pc place o).mem
        o.code_ptr (λ x le lt. front-same x lt)
        (Emitted-Spells (front_bytes pc) (front-Emitted pc (store_word place o.code_ptr o))
          (front_bytes-bytes pc))

  jump-leaves :
      l.sieve_stub < 2 ^ 32
      → o.code_ptr + 24 ≤ 2 ^ 32
      → JumpsTo (cemit_rc_cmp l pc place o).mem (o.code_ptr + 13) l.sieve_stub
  jump-leaves lt room =
      let o₁ = at_front pc place o in
      let p = then8 need_patch_8 (nothing o₁) in
      let a = (code_emit8 need_patch_8 o₁).code_ptr in
      let d = sub32 (sub32 l.sieve_stub (a + 1)) 4 in
      let at : a ≡ o.code_ptr + 13 = omega (arith, front_at, p.moved) in
      let here : Spells (at_jump l pc place o).mem (o.code_ptr + 13) (sieve_jump l a) =
        Spells-moved (at_jump l pc place o).mem a (o.code_ptr + 13) (sieve_jump l a) at (
          Emitted-Spells (sieve_jump l a) (jump-Emitted l (code_emit8 need_patch_8 o₁))
            (sieve_jump-bytes l a)) in
      jumps_to (cemit_rc_cmp l pc place o).mem (o.code_ptr + 13) l.sieve_stub d
        (ap (λ (k : ℕ). sub32 (sub32 l.sieve_stub (k + 1)) 4) at) lt (omega (arith, room))
        (Spells-same (sieve_jump l a) (at_jump l pc place o).mem (cemit_rc_cmp l pc place o).mem
          (o.code_ptr + 13) (λ x le lt'. jump-same x le (omega (arith, lt'))) here)

  drop-Spells : Spells (cemit_rc_cmp l pc place o).mem (o.code_ptr + 18) drop_bytes
  unfolding cemit_rc_cmp
  drop-Spells =
      let o₁ = at_front pc place o in
      let o₂ = at_jump l pc place o in
      let d = sub32 (sub32 o₂.code_ptr o₁.code_ptr) 1 in
      Spells-moved (cemit_rc_cmp l pc place o).mem o₂.code_ptr (o.code_ptr + 18) drop_bytes jump_at
        (Emitted-Spells drop_bytes (drop-Emitted (patch_byte o₁.code_ptr d o₂)) drop_bytes-bytes)

  pub cemit_rc_cmp-ReturnTest :
      pc < 2 ^ 32
      → l.sieve_stub < 2 ^ 32
      → o.code_ptr + 24 ≤ 2 ^ 32
      → ReturnTest (cemit_rc_cmp l pc place o).mem (o.code_ptr + 1) pc l.sieve_stub
  unfolding Spells
  cemit_rc_cmp-ReturnTest pc_lt stub_lt room =
      let m = (cemit_rc_cmp l pc place o).mem in
      let k = o.code_ptr in
      let mov : List ℕ = 0x8b ∷ 0x4c ∷ 0x24 ∷ 4 ∷ [] in
      let lea : List ℕ = (0x8d ∷ 0x89 ∷ []) ++ le32 (sub32 0 pc) in
      let pop : List ℕ = 0x59 ∷ [] in
      let drop : List ℕ = 0x8d ∷ 0x64 ∷ 0x24 ∷ 4 ∷ [] in
      let t₀ : Spells m (k + 1) (mov ++ (lea ++ (0xe3 ∷ []))) =
        Spells-right (0x51 ∷ []) (mov ++ (lea ++ (0xe3 ∷ []))) m k front-Spells in
      let t₁ : Spells m (k + 1 + 4) (lea ++ (0xe3 ∷ [])) =
        Spells-right mov (lea ++ (0xe3 ∷ [])) m (k + 1) t₀ in
      let t₂ : Spells m (k + 1 + 10) (0xe3 ∷ []) =
        Spells-moved m (k + 1 + 4 + 6) (k + 1 + 10) (0xe3 ∷ []) (omega arith)
          (Spells-right lea (0xe3 ∷ []) m (k + 1 + 4) t₁) in
      let u₀ : Spells m (k + 1 + 17) (pop ++ drop) =
        Spells-moved m (k + 18) (k + 1 + 17) (pop ++ drop) (omega arith) drop-Spells in
      record {
        room = omega (arith, room);
        pc_word = pc_lt;
        loads = Spells-left mov (lea ++ (0xe3 ∷ [])) m (k + 1) t₀;
        compares = Spells-left lea (0xe3 ∷ []) m (k + 1 + 4) t₁;
        branches = (t₂.0, (ap m (omega arith) ∙ distance-byte room, tt));
        leaves =
            subst (λ (x : ℕ). JumpsTo m x l.sieve_stub) (omega arith) (jump-leaves stub_lt room);
        pops = Spells-left pop drop m (k + 1 + 17) u₀;
        drops =
            Spells-moved m (k + 1 + 17 + 1) (k + 1 + 18) drop (omega arith)
              (Spells-right pop drop m (k + 1 + 17) u₀);
      }

  word_bytes : are_bytes (le32 o.code_ptr) ≡ true
  unfolding all
  word_bytes = ground arith

  pub place-Spells :
      place + 4 ≤ o.code_ptr → Spells (cemit_rc_cmp l pc place o).mem place (le32 o.code_ptr)
  place-Spells le =
      Spells-same (le32 o.code_ptr) (store o.mem place (le32 o.code_ptr))
        (cemit_rc_cmp l pc place o).mem place
        (λ x le' lt.
          front-same x (omega (arith, le, lt))
          ∙ Emitted-below (front_bytes pc) x (front-Emitted pc (store_word place o.code_ptr o))
              (omega (arith, le, lt)))
        (store-Spells (le32 o.code_ptr) o.mem place word_bytes)

  pub answer-moved : (cemit_rc_cmp l pc place o).code_ptr ≡ o.code_ptr + 23
  unfolding cemit_rc_cmp
  answer-moved =
      let o₁ = at_front pc place o in
      let o₂ = at_jump l pc place o in
      let d = sub32 (sub32 o₂.code_ptr o₁.code_ptr) 1 in
      let e = drop-Emitted (patch_byte o₁.code_ptr d o₂) in omega (arith, jump_at, e.moved)
