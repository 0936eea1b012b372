-- ===== src/Tiedb/Intern/Blocks.antt =====
-- Padding, cutting into blocks, and trimming.
use tie.Prelude.{
  ℕ, zero, suc, ◌+◌, ◌-◌, ◌*◌, ◌/◌, ◌%◌, ◌≡◌, refl, ◌∙◌, ap, List, [], ◌∷◌, ◌++◌, arith, length,
  take, drop, replicate, length-append, length-replicate, length-drop, take-append-drop,
}
use tie.Tiedb.Triples.{Bytes}
use tie.Tiedb.Intern.{size_value, pad, chunks, blocks, trim_right}

abbrev pub joined : List Bytes → Bytes
joined [] = []
joined (b ∷ bs) = b ++ joined bs

joined-chunks : (n : ℕ) (b : Bytes) → length b ≡ size_value * n → joined (chunks n b) ≡ b
unfolding chunks
joined-chunks zero [] h = refl
joined-chunks zero (x ∷ b) h = absurd (omega arith)
joined-chunks (suc n) b h =
    ap (λ r. take size_value b ++ r)
      (joined-chunks n (drop size_value b) (omega (arith, length-drop {0} size_value b)))
    ∙ take-append-drop size_value b

length-chunks : (n : ℕ) (b : Bytes) → length (chunks n b) ≡ n
unfolding chunks
length-chunks zero b = refl
length-chunks (suc n) b = ap suc (length-chunks n (drop size_value b))

length-pad : (v : Bytes) → length (pad v) ≡ size_value * (length v / size_value + 1)
unfolding pad
length-pad v = omega (
  arith,
  length-append {0} v (replicate (size_value - length v % size_value) 0),
  length-replicate {0} {A = ℕ} (size_value - length v % size_value) 0,
)

-- The blocks of a value are its padded bytes.
pub joined-blocks : (v : Bytes) → joined (blocks v) ≡ pad v
unfolding blocks
joined-blocks v = joined-chunks (length (pad v) / size_value) (pad v) (omega (arith, length-pad v))

-- There is one block more than the whole blocks of the value.
pub length-blocks : (v : Bytes) → length (blocks v) ≡ length v / size_value + 1
unfolding blocks
length-blocks v = length-chunks (length (pad v) / size_value) (pad v) ∙ omega (arith, length-pad v)

trim-zeros : (n : ℕ) → trim_right (replicate n 0) ≡ []
unfolding trim_right
trim-zeros zero = refl
trim-zeros (suc n) = ground (arith, trim-zeros n)

pub trim-append : (v : Bytes) (n : ℕ) → trim_right (v ++ replicate n 0) ≡ trim_right v
unfolding trim_right
trim-append [] n = trim-zeros n
trim-append (b ∷ v) n = ground (arith, trim-append v n)

-- The padding is trimmed, and no byte of a value that does not end in a NUL.
pub trim-pad : (v : Bytes) → trim_right (pad v) ≡ trim_right v
unfolding pad
trim-pad v = trim-append v (size_value - length v % size_value)
