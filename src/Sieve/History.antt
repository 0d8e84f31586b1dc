-- ===== src/Sieve/History.antt =====
-- A sieve after any number of entries, and what it dispatches to.
use unitrans.Blocks.State.{not_trans_yet}
use unitrans.Common.{
  length, ◌+◌, refl, List, some, ◌<◌, ◌≡◌, Option, ◌≢◌, ◌*◌, ◌^◌, ◌∙◌, none, ◌∷◌, [], sym, ◌≤◌,
  arith, subst, ap, ℕ,
}
use unitrans.Common.Maybe.{◌>>=◌}
use unitrans.Emit.Stored.{Spells}
use unitrans.Link.Patch.{translated}
use unitrans.Sieve.Chain.{lookup, Pushed, Arrives, cpu}
use unitrans.Sieve.Dispatch.{stub_bytes, dispatch-Arrives, view_of, lookup-view_of}
use unitrans.Sieve.Entry.{default_sieve_buffer_size, SieveState, add_sieve_entry}
use unitrans.Sieve.Holding.{IsSieve}
use unitrans.Sieve.Machine.{Cpu, Runs}
use unitrans.Sieve.Refinement.{added, added-Linked, added-IsSieve, add_sieve_entry-room}

-- The additions, newest first.
unfoldable pub add_all : List (ℕ × ℕ) → SieveState → Option SieveState
add_all [] s = some s
add_all ((pc, tc_ptr) ∷ older) s = do t ← add_all older s; add_sieve_entry pc tc_ptr t

-- Each pair is an address and the address of code that is there.
unfoldable pub AreTranslated : List (ℕ × ℕ) → Type 0
AreTranslated [] = Unit {0}
AreTranslated ((pc, tc_ptr) ∷ older) =
    (pc < 2 ^ 32) × (tc_ptr < 2 ^ 32) × (tc_ptr ≢ not_trans_yet) × AreTranslated older

pub record Added (s : SieveState) (exit : ℕ) (additions : List (ℕ × ℕ)) (t : SieveState)
    : Type 0 where
  pub is : IsSieve t exit (view_of additions)
  pub end : t.out.code_ptr ≡ s.out.code_ptr + 27 * length additions
  pub buffer : t.sieve_buffer ≡ s.sieve_buffer

-- Entries that are added one after the other to a sieve without entries, with room in the buffer
-- for all of them, are all added, and the sieve holds exactly them, each in its slot, newest first.
pub add_all-Added :
    (additions : List (ℕ × ℕ)) (s : SieveState) (exit : ℕ)
    → IsSieve s exit (view_of [])
    → AreTranslated additions
    → s.out.code_ptr + 27 * length additions ≤ s.sieve_buffer + default_sieve_buffer_size
    → (t : SieveState) × (add_all additions s ≡ some t) × Added s exit additions t
unfolding add_all AreTranslated
add_all-Added [] s exit is translated room =
    (s, refl, record { is = is; end = omega arith; buffer = refl })
add_all-Added ((pc, tc_ptr) ∷ older) s exit is (pc_lt, tc_lt, ne, translated) room =
    let (t, run, a) = add_all-Added older s exit is translated (omega (arith, room)) in
    let linked = added-Linked t exit pc tc_ptr (view_of older) a.is pc_lt tc_lt in
    (
      added pc tc_ptr t,
      rw run
          (add_sieve_entry-room t pc tc_ptr ne (omega (arith, linked.end, room, a.end, a.buffer))),
      record {
        is =
            added-IsSieve t exit pc tc_ptr (view_of older) a.is pc_lt tc_lt
              (omega (arith, room, a.end, a.buffer));
        end = omega (arith, linked.end, a.end);
        buffer = a.buffer;
      },
    )

or_state : Option SieveState → SieveState → SieveState
or_state none d = d
or_state (some x) d = x

some_is : {a b : SieveState} → some a ≡ some b → a ≡ b
unfolding or_state
some_is {a} p = ap (λ (o : Option SieveState). or_state o a) p

-- The state that the additions left, where it is given by name.
pub add_all-Holds :
    (additions : List (ℕ × ℕ)) (s t : SieveState) (exit : ℕ)
    → IsSieve s exit (view_of [])
    → AreTranslated additions
    → s.out.code_ptr + 27 * length additions ≤ s.sieve_buffer + default_sieve_buffer_size
    → add_all additions s ≡ some t
    → IsSieve t exit (view_of additions)
add_all-Holds additions s t exit is translated room ran =
    let (t', run, added') = add_all-Added additions s exit is translated room in
    subst (λ (u : SieveState). IsSieve u exit (view_of additions)) (some_is (sym run ∙ ran))
      added'.is

-- Entries that are added one after the other to a sieve without entries, with room in the buffer
-- for all of them, leave a memory in which, with the stub of the sieve at `a`, an indirect branch
-- whose target has an entry reaches the code of the newest one, with the guest's %ecx restored and
-- the two pushed words dropped, and one whose target has none reaches the code that leaves the
-- cache, with the stack untouched.
pub add_all-Arrives :
    (additions : List (ℕ × ℕ)) (s t : SieveState) (exit a ecx esp saved target : ℕ)
    → IsSieve s exit (view_of [])
    → AreTranslated additions
    → s.out.code_ptr + 27 * length additions ≤ s.sieve_buffer + default_sieve_buffer_size
    → add_all additions s ≡ some t
    → Spells t.out.mem a (stub_bytes t.sieve_hashtable)
    → a + 16 ≤ 2 ^ 32
    → Pushed t.out.mem esp saved target
    → (c : Cpu) × Runs t.out.mem (cpu a ecx esp) c
      × Arrives (lookup target additions) exit esp saved c
add_all-Arrives additions s t exit a ecx esp saved target is translated room ran stub a_room p =
    let t_sieve = add_all-Holds additions s t exit is translated room ran in
    let (c, runs, arrives) =
      dispatch-Arrives t exit a ecx esp saved target (view_of additions) t_sieve stub a_room p in
    (
      c,
      runs,
      subst (λ (o : Option ℕ). Arrives o exit esp saved c) (lookup-view_of target additions)
          arrives,
    )
