-- ===== src/Tiedb/LockedTree/Hashes.antt =====
-- The functions that spread keys over the shards.
use Prim.Native.Nat.{bit_xor}
use tie.Prelude.{ℕ, ◌+◌, ◌*◌, ◌%◌, ◌^◌, List, [], ◌∷◌, take, drop}

abbrev pub hash_mix : ℕ
hash_mix = 0x9e3779b97f4a7c15

unfoldable pub uint64_hash : ℕ → ℕ
uint64_hash k = k * hash_mix % 2 ^ 64

-- k[0] | k[1] << 8 | … : the bits of the bytes do not overlap.
pub little_endian : List ℕ → ℕ
little_endian [] = 0
little_endian (b ∷ bs) = b + 256 * little_endian bs

unfoldable pub hash_hash : List ℕ → ℕ
unfolding little_endian
hash_hash k =
    bit_xor (little_endian (take 8 k)) (little_endian (take 8 (drop 8 k)) * hash_mix % 2 ^ 64)

-- One FNV-1a step for each byte.
unfoldable pub fnv : ℕ → List ℕ → ℕ
fnv h [] = h
fnv h (b ∷ bs) = fnv (bit_xor h b * 1099511628211 % 2 ^ 64) bs

abbrev pub fnv_offset : ℕ
fnv_offset = 14695981039346656037

unfoldable pub unique_value_hash : ℕ → List ℕ → ℕ
unfolding fnv
unique_value_hash parent_id value = bit_xor (fnv fnv_offset value) (parent_id * hash_mix % 2 ^ 64)

unfoldable pub collection_key_hash : List ℕ → List ℕ → ℕ
unfolding fnv
collection_key_hash database collection = fnv (fnv fnv_offset collection) database
