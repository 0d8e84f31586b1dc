-- ===== src/Translate/Advance.antt =====
-- What an emitter does to the code pointer and to the list of open jumps.
use unitrans.Blocks.Find.{tb_find_fast}
use unitrans.Blocks.Make.{make_tb, tb_add_jmp_from}
use unitrans.Blocks.State.{not_trans_yet, patch_max, normal_tb_tag, Blocks}
use unitrans.Common.{
  leb, ◌==◌, if◌then◌else◌, Bool-cases, length, has, true, List, ◌<◌, ◌∷◌, false, inr, ◌||◌, Bool,
  [], ◌∙◌, inl, some, ◌++◌, ap, arith, ◌-◌, refl, Option, none, ℕ, ◌+◌, ◌≡◌, ◌≤◌,
}
use unitrans.Common.Tried.{◌>>=◌, Tried, result, abort, no_fuel, of_search, of_step}
use unitrans.Decode.State.{opstate_data32, Decode}
use unitrans.Emit.Memory.{emit, code_emit8, code_emit32}
use unitrans.Link.Patch.{note_patch, translated}
use unitrans.Link.State.{patch_array_size, PatchEntry}
use unitrans.Translate.State.{
  Trans, with_blocks, note_jump, join_block, start_block, continue_at, trans_next,
}

-- A property of a result, where there is one.
abbrev pub When {ℓ κ} : {A : Type ℓ} → Tried A → (A → Type κ) → Type κ
When abort P = Unit
When no_fuel P = Unit
When (result a) P = P a

pub When-bind {ℓ κ ι μ} :
    {A : Type ℓ} {B : Type κ} (Q : A → Type ι) (P : B → Type μ) (o : Tried A) (f : A → Tried B)
    → When o Q
    → ((a : A) → Q a → When (f a) P)
    → When (o >>= f) P
When-bind Q P abort f q h = tt
When-bind Q P no_fuel f q h = tt
When-bind Q P (result a) f q h = h a q

-- Where nothing is known of the first result.
pub any_result {ℓ} : {A : Type ℓ} (o : Tried A) → When o (λ a. Unit {0})
any_result abort = tt
any_result no_fuel = tt
any_result (result a) = tt

-- The code grows, and the open jumps are the same.
pub record Still (t t' : Trans) : Type 0 where
  pub moved : t.code_ptr ≤ t'.code_ptr
  pub same : t'.linker.patch_array ≡ t.linker.patch_array

-- The code grows, and there may be one more open jump, whose displacement lies in the new code.
pub data Noted (t t' : Trans) : Type 0 where
  still : Still t t' → Noted t t'
  noted :
      (p : PatchEntry)
      → t'.linker.patch_array ≡ t.linker.patch_array ++ p ∷ []
      → t.code_ptr < p.place
      → p.place + 4 ≤ t'.code_ptr
      → Noted t t'

pub Still-trans : {t u v : Trans} → Still t u → Still u v → Still t v
Still-trans s r = record { moved = omega (arith, s.moved, r.moved); same = r.same ∙ s.same }

pub Noted-then : {t u v : Trans} → Noted t u → Still u v → Noted t v
Noted-then (Noted.still s) r = Noted.still (Still-trans s r)
Noted-then (Noted.noted p eq lt le) r = Noted.noted p (r.same ∙ eq) lt (omega (arith, le, r.moved))

pub then-Noted : {t u v : Trans} → Still t u → Noted u v → Noted t v
then-Noted s (Noted.still r) = Noted.still (Still-trans s r)
then-Noted s (Noted.noted p eq lt le) =
    Noted.noted p (eq ∙ ap (λ (ps : List PatchEntry). ps ++ p ∷ []) s.same)
      (omega (arith, s.moved, lt)) le

abbrev noted_entry : ℕ → ℕ → Trans → PatchEntry
noted_entry to func_addr u = record {
  place = u.code_ptr - 4;
  to = to;
  tb = u.cur_tb;
  func_addr = func_addr;
  tb_tag = normal_tb_tag;
}

-- An open jump that is noted behind at least five bytes of new code.
pub note_jump-Noted :
    (to func_addr : ℕ) (t u : Trans)
    → t.code_ptr + 5 ≤ u.code_ptr
    → u.linker.patch_array ≡ t.linker.patch_array
    → When (note_jump to func_addr u) (Noted t)
unfolding note_jump note_patch
note_jump-Noted to func_addr t u le same =
    elim (Bool-cases
      (leb patch_array_size (length u.linker.patch_array) || leb patch_max u.linker.patch_num)) [
        | inl full ↦ rw full tt
        | inr room ↦ rw room (
            Noted.noted (noted_entry to func_addr u)
              (ap (λ (ps : List PatchEntry). ps ++ noted_entry to func_addr u ∷ []) same)
              (omega (arith, le)) (omega (arith, le)))
      ]

join_block-Still : (i : ℕ) (t : Trans) → Still t (join_block i t)
unfolding join_block tb_add_jmp_from code_emit8 code_emit32 emit
join_block-Still i t = record { moved = omega arith; same = refl }

start_block-Still : (i : ℕ) (b : Blocks) (t : Trans) → Still t (start_block i (with_blocks b t))
start_block-Still i b t = record { moved = omega arith; same = refl }

abbrev pub StillNext : Trans → Bool × Trans → Type 0
StillNext t r = Still t r.1

continue_at-Still :
    (found : Option ℕ) (b : Blocks) (t : Trans)
    → When (continue_at found (with_blocks b t)) (StillNext t)
unfolding continue_at translated
continue_at-Still none b t =
    When-bind (λ (r : ℕ × Blocks). Unit {0}) (StillNext t)
      (of_step (make_tb t.pc_ptr (b.tbs t.cur_tb).func_addr normal_tb_tag b))
      (λ (r : ℕ × Blocks). result (true, start_block r.0 (with_blocks r.1 t)))
      (any_result (of_step (make_tb t.pc_ptr (b.tbs t.cur_tb).func_addr normal_tb_tag b)))
      (λ r u. start_block-Still r.0 r.1 t)
continue_at-Still (some i) b t = elim (Bool-cases ((b.tbs i).tc_ptr == not_trans_yet)) [
  | inl untranslated ↦ rw (When, untranslated) (start_block-Still i b t)
  | inr there ↦
      rw (When, there)
        (Still-trans (record { moved = omega arith; same = refl })
          (join_block-Still i (with_blocks b t)))
]

pub trans_next-Still :
    (fuel : ℕ) (ds : Decode) (t : Trans) → When (trans_next fuel ds t) (StillNext t)
unfolding trans_next
trans_next-Still fuel ds t = elim (Bool-cases (has ds.opstate opstate_data32)) [
  | inr narrow_op ↦ rw narrow_op tt
  | inl wide ↦ rw wide (
      let found = of_search (tb_find_fast fuel t.pc_ptr normal_tb_tag t.linker.blocks) in
      When-bind (λ (r : Option ℕ × Blocks). Unit {0}) (StillNext t) found
        (λ (r : Option ℕ × Blocks). continue_at r.0 (with_blocks r.1 t)) (any_result found)
        (λ r u. continue_at-Still r.0 r.1 t))
]

pub When-map {ℓ κ ι} :
    {A : Type ℓ} (P : A → Type κ) (Q : A → Type ι) (o : Tried A)
    → When o P
    → ((a : A) → P a → Q a)
    → When o Q
When-map P Q abort w h = tt
When-map P Q no_fuel w h = tt
When-map P Q (result a) w h = h a w

abbrev pub NotedNext : Trans → Bool × Trans → Type 0
NotedNext t r = Noted t r.1

-- What follows an open jump.
pub Noted-next :
    (fuel : ℕ) (ds : Decode) (t u v : Trans)
    → Noted t u
    → Still u v
    → When (trans_next fuel ds v) (NotedNext t)
Noted-next fuel ds t u v n s =
    When-map (StillNext v) (NotedNext t) (trans_next fuel ds v) (trans_next-Still fuel ds v)
      (λ r w. Noted-then (Noted-then n s) w)

pub When-guard {ℓ κ} :
    {A : Type ℓ} (P : A → Type κ) (b : Bool) (o : Tried A)
    → When o P
    → When (if b then o else abort) P
When-guard P true o w = w
When-guard P false o w = tt
