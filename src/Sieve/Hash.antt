-- ===== src/Sieve/Hash.antt =====
-- target-i386/cpu.h and the use of it in target-i386/translate.c: the slot of a target address.
use unitrans.Common.{u32, ℕ, ◌^◌, ◌+◌, bit_and, ◌-◌, ◌*◌}

abbrev pub sieve_size : ℕ
sieve_size = 2 ^ 16

abbrev pub sieve_mask : ℕ
sieve_mask = (sieve_size - 1) * 8

unfoldable pub sieve_hash : ℕ → ℕ → ℕ
sieve_hash b i = u32 (b + bit_and i sieve_mask)

-- `SIEVE_HASH(env->sieve_hashtable, (tb->pc) << 3)`.
unfoldable pub slot_of : ℕ → ℕ → ℕ
unfolding sieve_hash
slot_of base pc = sieve_hash base (u32 (pc * 8))
