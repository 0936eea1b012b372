-- ===== src/Tiedb/Records/RoundTrip.antt =====
-- A record that is written reads back as what was written.
use tie.Prelude.{
  ℕ, ◌+◌, ◌^◌, ◌<◌, ◌≡◌, ap, ◌∙◌, none, some, ◌++◌, length, length-append, arith, ◌≢◌,
}
use tie.Prelude.Int.{ℤ}
use tie.Tiedb.Triples.{Bytes, UniqueValue, Triple, hash_level}
use tie.Tiedb.Records.{
  put_uint, uint, to_uint64, to_int, slice, type_entry, type_association, type_hash, entry_to_bytes,
  hash_to_bytes, to_bytes, datatype, buf_to_entry, buf_to_hash, buf_to_association,
}
use tie.Tiedb.Records.Words.{
  length-put_uint, uint-put_uint, IsInt, to_int-to_uint64, to_uint64-lt, slice-front, slice-last,
  slice-behind,
}

abbrev pub IsWord : ℕ → Type 0
IsWord n = n < 2 ^ 64

behind_type : (m k v : ℕ) (ys : Bytes) → slice (2 + m) k (put_uint 2 v ++ ys) ≡ slice m k ys
behind_type m k v ys = slice-behind 2 m k (put_uint 2 v) ys (length-put_uint 2 v)

behind_word : (m k v : ℕ) (ys : Bytes) → slice (8 + m) k (put_uint 8 v ++ ys) ≡ slice m k ys
behind_word m k v ys = slice-behind 8 m k (put_uint 8 v) ys (length-put_uint 8 v)

word_front : (v : ℕ) (ys : Bytes) → IsWord v → uint (slice 0 8 (put_uint 8 v ++ ys)) ≡ v
word_front v ys h =
    ap uint (slice-front 8 (put_uint 8 v) ys (length-put_uint 8 v)) ∙ uint-put_uint 8 v h

word_last : (v : ℕ) → IsWord v → uint (slice 0 8 (put_uint 8 v)) ≡ v
word_last v h = ap uint (slice-last 8 (put_uint 8 v) (length-put_uint 8 v)) ∙ uint-put_uint 8 v h

level_front :
    (i : ℤ) (ys : Bytes) → IsInt i → to_int (uint (slice 0 8 (put_uint 8 (to_uint64 i) ++ ys))) ≡ i
level_front i ys h = ap to_int (word_front (to_uint64 i) ys (to_uint64-lt i)) ∙ to_int-to_uint64 i h

type_front : (t : ℕ) (ys : Bytes) → t < 2 ^ 16 → datatype (put_uint 2 t ++ ys) ≡ t
unfolding datatype
type_front t ys h =
    ap uint (slice-front 2 (put_uint 2 t) ys (length-put_uint 2 t)) ∙ uint-put_uint 2 t h

-- A trie entry whose level and ids fit in 64 bits and whose block has 24 bytes is written as one
-- 50-byte frame of its type, which reads back as the entry.
pub buf_to_entry-entry_to_bytes :
    (level : ℤ) (entry_id : ℕ) (uv : UniqueValue)
    → IsInt level
    → IsWord entry_id
    → IsWord uv.parent_id
    → length uv.value ≡ 24
    → (buf_to_entry (entry_to_bytes level entry_id uv) ≡ (level, entry_id, uv))
      × (datatype (entry_to_bytes level entry_id uv) ≡ type_entry)
      × (length (entry_to_bytes level entry_id uv) ≡ 50)
unfolding buf_to_entry entry_to_bytes
buf_to_entry-entry_to_bytes level entry_id uv hl hi hp hv =
    let r3 = put_uint 8 uv.parent_id ++ uv.value in
    let r2 = put_uint 8 entry_id ++ r3 in
    let w = to_uint64 level in
    let r1 = put_uint 8 w ++ r2 in
    let e1 =
      ap (λ (b : Bytes). to_int (uint b)) (behind_type 0 8 11 r1) ∙ level_front level r2 hl in
    let e2 = ap uint (behind_type 8 8 11 r1 ∙ behind_word 0 8 w r2) ∙ word_front entry_id r3 hi in
    let e3 =
      ap uint (behind_type 16 8 11 r1 ∙ behind_word 8 8 w r2 ∙ behind_word 0 8 entry_id r3)
      ∙ word_front uv.parent_id uv.value hp in
    let e4 =
      behind_type 24 24 11 r1
      ∙ behind_word 16 24 w r2
      ∙ behind_word 8 24 entry_id r3
      ∙ behind_word 0 24 uv.parent_id uv.value
      ∙ slice-last 24 uv.value hv in
    (
      (λ i. (e1 i, e2 i, record { parent_id = e3 i; value = e4 i })),
      type_front 11 r1 (omega arith),
      omega (
        arith,
        length-append {0} (put_uint 2 11) r1,
        length-append {0} (put_uint 8 w) r2,
        length-append {0} (put_uint 8 entry_id) r3,
        length-append {0} (put_uint 8 uv.parent_id) uv.value,
        length-put_uint 2 11,
        length-put_uint 8 w,
        length-put_uint 8 entry_id,
        length-put_uint 8 uv.parent_id,
      ),
    )

-- A hash entry whose id fits in 64 bits and whose value has 32 bytes is written as one 50-byte
-- frame of its type, which reads back as the entry.
pub buf_to_hash-hash_to_bytes :
    (entry_id : ℕ) (raw : Bytes)
    → IsWord entry_id
    → length raw ≡ 32
    → (buf_to_hash (hash_to_bytes entry_id raw) ≡ (entry_id, raw))
      × (datatype (hash_to_bytes entry_id raw) ≡ type_hash)
      × (length (hash_to_bytes entry_id raw) ≡ 50)
unfolding buf_to_hash hash_to_bytes
buf_to_hash-hash_to_bytes entry_id raw hi hr =
    let r2 = put_uint 8 entry_id ++ raw in
    let w = to_uint64 hash_level in
    let r1 = put_uint 8 w ++ r2 in
    let e2 = ap uint (behind_type 8 8 13 r1 ∙ behind_word 0 8 w r2) ∙ word_front entry_id raw hi in
    let e3 =
      behind_type 16 32 13 r1
      ∙ behind_word 8 32 w r2
      ∙ behind_word 0 32 entry_id raw
      ∙ slice-last 32 raw hr in
    (
      (λ i. (e2 i, e3 i)),
      type_front 13 r1 (omega arith),
      omega (
        arith,
        length-append {0} (put_uint 2 13) r1,
        length-append {0} (put_uint 8 w) r2,
        length-append {0} (put_uint 8 entry_id) raw,
        length-put_uint 2 13,
        length-put_uint 8 w,
        length-put_uint 8 entry_id,
      ),
    )

abbrev read_triple : Bytes → Triple
read_triple buf = record {
  level = to_int (uint (slice 2 8 buf));
  key = uint (slice 10 8 buf);
  value1_level = to_int (uint (slice 34 8 buf));
  value1 = uint (slice 42 8 buf);
  value2_level = to_int (uint (slice 18 8 buf));
  value2 = uint (slice 26 8 buf);
}

of_type :
    (buf : Bytes)
    → datatype buf ≡ type_association
    → buf_to_association buf ≡ some (read_triple buf)
unfolding buf_to_association
of_type buf h = rw h

pub record IsStorable (a : Triple) : Type 0 where
  pub level : IsInt a.level
  pub key : IsWord a.key
  pub value1_level : IsInt a.value1_level
  pub value1 : IsWord a.value1
  pub value2_level : IsInt a.value2_level
  pub value2 : IsWord a.value2

-- An association whose levels and ids fit in 64 bits is written as one 50-byte frame, which
-- reads back as the triple.
pub buf_to_association-to_bytes :
    (a : Triple)
    → IsStorable a
    → (buf_to_association (to_bytes a) ≡ some a) × (length (to_bytes a) ≡ 50)
unfolding to_bytes
buf_to_association-to_bytes a h =
    let w1 = to_uint64 a.level in
    let w2 = to_uint64 a.value2_level in
    let w3 = to_uint64 a.value1_level in
    let r6 = put_uint 8 a.value1 in
    let r5 = put_uint 8 w3 ++ r6 in
    let r4 = put_uint 8 a.value2 ++ r5 in
    let r3 = put_uint 8 w2 ++ r4 in
    let r2 = put_uint 8 a.key ++ r3 in
    let r1 = put_uint 8 w1 ++ r2 in
    let to_1 = λ (m : ℕ). behind_type m 8 12 r1 in
    let to_2 = λ (m : ℕ). to_1 (8 + m) ∙ behind_word m 8 w1 r2 in
    let to_3 = λ (m : ℕ). to_2 (8 + m) ∙ behind_word m 8 a.key r3 in
    let to_4 = λ (m : ℕ). to_3 (8 + m) ∙ behind_word m 8 w2 r4 in
    let to_5 = λ (m : ℕ). to_4 (8 + m) ∙ behind_word m 8 a.value2 r5 in
    let to_6 = λ (m : ℕ). to_5 (8 + m) ∙ behind_word m 8 w3 r6 in
    let as_int = λ (b : Bytes). to_int (uint b) in
    let e1 = ap as_int (to_1 0) ∙ level_front a.level r2 h.level in
    let e2 = ap uint (to_2 0) ∙ word_front a.key r3 h.key in
    let e3 = ap as_int (to_3 0) ∙ level_front a.value2_level r4 h.value2_level in
    let e4 = ap uint (to_4 0) ∙ word_front a.value2 r5 h.value2 in
    let e5 = ap as_int (to_5 0) ∙ level_front a.value1_level r6 h.value1_level in
    let e6 = ap uint (to_6 0) ∙ word_last a.value1 h.value1 in
    (
      of_type (to_bytes a) (type_front 12 r1 (omega arith)) ∙ (λ i. some (record {
        level = e1 i;
        key = e2 i;
        value1_level = e5 i;
        value1 = e6 i;
        value2_level = e3 i;
        value2 = e4 i;
      })),
      omega (
        arith,
        length-append {0} (put_uint 2 12) r1,
        length-append {0} (put_uint 8 w1) r2,
        length-append {0} (put_uint 8 a.key) r3,
        length-append {0} (put_uint 8 w2) r4,
        length-append {0} (put_uint 8 a.value2) r5,
        length-append {0} (put_uint 8 w3) r6,
        length-put_uint 2 12,
        length-put_uint 8 w1,
        length-put_uint 8 a.key,
        length-put_uint 8 w2,
        length-put_uint 8 a.value2,
        length-put_uint 8 w3,
        length-put_uint 8 a.value1,
      ),
    )

-- No frame of another type is read as an association.
pub buf_to_association-other :
    (buf : Bytes) → datatype buf ≢ type_association → buf_to_association buf ≡ none
unfolding buf_to_association
buf_to_association-other buf h = ground arith
