-- ===== src/Sieve/Machine.antt =====
-- The IA-32 instructions that the sieve consists of, as the processor's manual describes them: what
-- one of them, found in memory at %eip, does to %eip, %ecx and %esp. None writes memory.
use unitrans.Common.{u32, ◌^◌, ◌%◌, ◌<◌, ℕ, ◌∷◌, [], ◌≢◌, ◌+◌, ◌≡◌, ◌*◌, ◌++◌}
use unitrans.Emit.Memory.{Memory, le32, load32}
use unitrans.Emit.Stored.{Spells}

pub record Cpu : Type 0 where
  pub eip : ℕ
  pub ecx : ℕ
  pub esp : ℕ

pub data Step (m : Memory) (c : Cpu) : Cpu → Type 0 where
  -- mov d(%esp), %ecx
  mov_ecx :
      (d : ℕ)
      → d < 128
      → Spells m c.eip (0x8b ∷ 0x4c ∷ 0x24 ∷ d ∷ [])
      → Step m c (record { eip = u32 (c.eip + 4); ecx = load32 m (c.esp + d); esp = c.esp })
  -- movzwl %cx, %ecx
  movzwl_ecx :
      Spells m c.eip (0x0f ∷ 0xb7 ∷ 0xc9 ∷ [])
      → Step m c (record { eip = u32 (c.eip + 3); ecx = c.ecx % 2 ^ 16; esp = c.esp })
  -- lea imm(, %ecx, 8), %ecx
  lea_table :
      (imm : ℕ)
      → imm < 2 ^ 32
      → Spells m c.eip ((0x8d ∷ 0x0c ∷ 0xcd ∷ []) ++ le32 imm)
      → Step m c (record { eip = u32 (c.eip + 7); ecx = u32 (c.ecx * 8 + imm); esp = c.esp })
  -- lea imm(%ecx), %ecx
  lea_ecx :
      (imm : ℕ)
      → imm < 2 ^ 32
      → Spells m c.eip ((0x8d ∷ 0x89 ∷ []) ++ le32 imm)
      → Step m c (record { eip = u32 (c.eip + 6); ecx = u32 (c.ecx + imm); esp = c.esp })
  -- jecxz d
  jecxz_taken :
      (d : ℕ)
      → d < 128
      → Spells m c.eip (0xe3 ∷ d ∷ [])
      → c.ecx ≡ 0
      → Step m c (record { eip = u32 (c.eip + 2 + d); ecx = c.ecx; esp = c.esp })
  jecxz_not :
      (d : ℕ)
      → Spells m c.eip (0xe3 ∷ d ∷ [])
      → c.ecx ≢ 0
      → Step m c (record { eip = u32 (c.eip + 2); ecx = c.ecx; esp = c.esp })
  -- jmp rel
  jmp :
      (rel : ℕ)
      → rel < 2 ^ 32
      → Spells m c.eip ((0xe9 ∷ []) ++ le32 rel)
      → Step m c (record { eip = u32 (c.eip + 5 + rel); ecx = c.ecx; esp = c.esp })
  -- jmp *%ecx
  jmp_ecx :
      Spells m c.eip (0xff ∷ 0xe1 ∷ [])
      → Step m c (record { eip = c.ecx; ecx = c.ecx; esp = c.esp })
  -- pop %ecx
  pop_ecx :
      Spells m c.eip (0x59 ∷ [])
      → Step m c (record { eip = u32 (c.eip + 1); ecx = load32 m c.esp; esp = u32 (c.esp + 4) })
  -- lea d(%esp), %esp
  lea_esp :
      (d : ℕ)
      → d < 128
      → Spells m c.eip (0x8d ∷ 0x64 ∷ 0x24 ∷ d ∷ [])
      → Step m c (record { eip = u32 (c.eip + 4); ecx = c.ecx; esp = u32 (c.esp + d) })

pub data Runs (m : Memory) : Cpu → Cpu → Type 0 where
  done : {c : Cpu} → Runs m c c
  then : {c d e : Cpu} → Step m c d → Runs m d e → Runs m c e

pub Runs-trans : {m : Memory} {c d e : Cpu} → Runs m c d → Runs m d e → Runs m c e
Runs-trans Runs.done r = r
Runs-trans (Runs.then s q) r = Runs.then s (Runs-trans q r)
