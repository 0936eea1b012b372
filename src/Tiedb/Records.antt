-- ===== src/Tiedb/Records.antt =====
-- The 50-byte frames of the record file: the encoders of tiedb/datastructures.go and the decoders
-- of tiedb/filehandling.go.
pub mod Words
pub mod RoundTrip
use tie.Prelude.{
  ℕ, zero, suc, ◌+◌, ◌-◌, ◌*◌, ◌/◌, ◌%◌, ◌^◌, Option, none, some, Bool, List, [], ◌∷◌, ◌++◌,
  if◌then◌else◌, ltb, nat_beq, take, drop, replicate, length,
}
use tie.Prelude.Int.{ℤ, pos, negsuc}
use tie.Tiedb.Triples.{Bytes, UniqueValue, Triple, hash_level}

abbrev pub size_datatype : ℕ
size_datatype = 2

abbrev pub size_level : ℕ
size_level = 8

abbrev pub size_id : ℕ
size_id = 8

abbrev pub size_parent_id : ℕ
size_parent_id = 8

abbrev pub size_value : ℕ
size_value = 24

abbrev pub type_delete : ℕ
type_delete = 10

abbrev pub type_entry : ℕ
type_entry = 11

abbrev pub type_association : ℕ
type_association = 12

abbrev pub type_hash : ℕ
type_hash = 13

-- binary.LittleEndian.PutUint…: the low `n` bytes, the least significant first.
unfoldable pub put_uint : ℕ → ℕ → Bytes
put_uint zero v = []
put_uint (suc n) v = v % 256 ∷ put_uint n (v / 256)

-- binary.LittleEndian.Uint…
unfoldable pub uint : Bytes → ℕ
uint [] = 0
uint (b ∷ bs) = b + 256 * uint bs

-- uint64(v) of an int, in two's complement.
unfoldable pub to_uint64 : ℤ → ℕ
to_uint64 (pos n) = n % 2 ^ 64
to_uint64 (negsuc n) = 2 ^ 64 - 1 - n % 2 ^ 64

-- int(u) of a uint64.
unfoldable pub to_int : ℕ → ℤ
to_int u = if ltb u (2 ^ 63) then pos u else negsuc (2 ^ 64 - 1 - u)

-- buf[from : from + n]
unfoldable pub slice : ℕ → ℕ → Bytes → Bytes
slice from n buf = take n (drop from buf)

unfoldable pub entry_to_bytes : ℤ → ℕ → UniqueValue → Bytes
entry_to_bytes level entry_id uv =
    put_uint 2 type_entry
    ++ (put_uint 8 (to_uint64 level)
        ++ (put_uint 8 entry_id ++ (put_uint 8 uv.parent_id ++ uv.value)))

unfoldable pub hash_to_bytes : ℕ → Bytes → Bytes
hash_to_bytes entry_id raw =
    put_uint 2 type_hash ++ (put_uint 8 (to_uint64 hash_level) ++ (put_uint 8 entry_id ++ raw))

unfoldable pub to_bytes : Triple → Bytes
to_bytes a =
    put_uint 2 type_association
    ++ (put_uint 8 (to_uint64 a.level)
        ++ (put_uint 8 a.key
            ++ (put_uint 8 (to_uint64 a.value2_level)
                ++ (put_uint 8 a.value2
                    ++ (put_uint 8 (to_uint64 a.value1_level) ++ put_uint 8 a.value1)))))

-- The tombstone that a delete writes.
unfoldable pub delete_to_bytes : Bytes
unfolding put_uint
delete_to_bytes = put_uint 2 type_delete ++ replicate 48 0

unfoldable pub datatype : Bytes → ℕ
datatype buf = uint (slice 0 2 buf)

unfoldable pub buf_to_entry : Bytes → ℤ × ℕ × UniqueValue
buf_to_entry buf = (
  to_int (uint (slice 2 8 buf)),
  uint (slice 10 8 buf),
  record { parent_id = uint (slice 18 8 buf); value = slice 26 24 buf },
)

unfoldable pub buf_to_hash : Bytes → ℕ × Bytes
buf_to_hash buf = (uint (slice 10 8 buf), slice 18 32 buf)

-- `none` is the error on a record of another type.
unfoldable pub buf_to_association : Bytes → Option Triple
buf_to_association buf =
    if nat_beq (datatype buf) type_association
    then some (record {
      level = to_int (uint (slice 2 8 buf));
      key = uint (slice 10 8 buf);
      value2_level = to_int (uint (slice 18 8 buf));
      value2 = uint (slice 26 8 buf);
      value1_level = to_int (uint (slice 34 8 buf));
      value1 = uint (slice 42 8 buf);
    })
    else none
