-- ===== src/State/Hash.antt =====
-- The FNV-1a hashes of src/state/fleece_state_manager.c.
use fleece.Prelude.{ℕ, zero, suc, ◌*◌, ◌/◌, ◌%◌, ◌^◌, bit_xor, List, [], ◌∷◌}

-- hash_name: the 32-bit hash of a name, over the bytes before the NUL
unfoldable pub fnv32 : ℕ → List ℕ → ℕ
fnv32 hash [] = hash
fnv32 hash (c ∷ cs) = fnv32 (bit_xor hash c * 16777619 % 2 ^ 32) cs

unfoldable pub hash_name : List ℕ → ℕ
unfolding fnv32
hash_name name = fnv32 2166136261 name

-- fnv64_mix
unfoldable pub fnv64_mix : ℕ → List ℕ → ℕ
fnv64_mix h [] = h
fnv64_mix h (b ∷ bs) = fnv64_mix (bit_xor h b * 0x100000001b3 % 2 ^ 64) bs

-- The eight bytes of `v`, lowest first.
unfoldable le_bytes : ℕ → ℕ → List ℕ
le_bytes zero v = []
le_bytes (suc n) v = (v % 256) ∷ le_bytes n (v / 256)

-- fnv64_mix_uint
unfoldable pub fnv64_mix_uint : ℕ → ℕ → ℕ
unfolding fnv64_mix le_bytes
fnv64_mix_uint h v = fnv64_mix h (le_bytes 8 v)
