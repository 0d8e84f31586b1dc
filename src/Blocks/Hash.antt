-- ===== src/Blocks/Hash.antt =====
-- exec-all.h: the two hash functions of a guest address.
use unitrans.Common.{bit_or, bit_xor, ◌-◌, ◌/◌, ℕ, bit_and, ◌^◌}

abbrev pub target_page_bits : ℕ
target_page_bits = 12

abbrev pub tb_jmp_cache_bits : ℕ
tb_jmp_cache_bits = 12

abbrev pub tb_jmp_cache_size : ℕ
tb_jmp_cache_size = 2 ^ tb_jmp_cache_bits

abbrev pub tb_jmp_page_bits : ℕ
tb_jmp_page_bits = tb_jmp_cache_bits / 2

abbrev pub tb_jmp_page_size : ℕ
tb_jmp_page_size = 2 ^ tb_jmp_page_bits

abbrev pub tb_jmp_addr_mask : ℕ
tb_jmp_addr_mask = tb_jmp_page_size - 1

abbrev pub tb_jmp_page_mask : ℕ
tb_jmp_page_mask = tb_jmp_cache_size - tb_jmp_page_size

abbrev pub code_gen_phys_hash_size : ℕ
code_gen_phys_hash_size = 2 ^ 15

unfoldable pub tb_jmp_cache_hash_func : ℕ → ℕ
tb_jmp_cache_hash_func pc =
    let shift = target_page_bits - tb_jmp_page_bits in
    let tmp = bit_xor pc (pc / 2 ^ shift) in
    bit_or (bit_and (tmp / 2 ^ shift) tb_jmp_page_mask) (bit_and tmp tb_jmp_addr_mask)

unfoldable pub tb_phys_hash_func : ℕ → ℕ
tb_phys_hash_func pc = bit_and pc (code_gen_phys_hash_size - 1)
