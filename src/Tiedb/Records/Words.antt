-- ===== src/Tiedb/Records/Words.antt =====
-- Words of a frame read back, as unsigned and as signed numbers.
use tie.Prelude.{
  ℕ, zero, suc, ◌+◌, ◌*◌, ◌/◌, ◌^◌, ◌<◌, ◌≡◌, refl, ap, [], ◌∷◌, ◌++◌, length, take_of_length-le,
  arith,
}
use tie.Prelude.Int.{ℤ, pos, negsuc}
use tie.Tiedb.Triples.{Bytes}
use tie.Tiedb.Records.{put_uint, uint, to_uint64, to_int, slice}
use native.Mathlib.Nat.{pow-suc, zero-add, suc-add}

pub length-put_uint : (n v : ℕ) → length (put_uint n v) ≡ n
unfolding put_uint
length-put_uint zero v = refl
length-put_uint (suc n) v = ap suc (length-put_uint n (v / 256))

pub uint-put_uint : (n v : ℕ) → v < 256 ^ n → uint (put_uint n v) ≡ v
unfolding put_uint uint
uint-put_uint zero v h = omega arith
uint-put_uint (suc n) v h =
    let p : 256 ^ suc n ≡ 256 * 256 ^ n = simp (pow-suc) (omega arith) in
    let ih = uint-put_uint n (v / 256) (omega (arith, p)) in omega (arith, ih)

-- An `int` of the machine.
abbrev pub IsInt : ℤ → Type 0
IsInt (pos n) = n < 2 ^ 63
IsInt (negsuc n) = n < 2 ^ 63

pub to_int-to_uint64 : (i : ℤ) → IsInt i → to_int (to_uint64 i) ≡ i
unfolding to_int to_uint64
to_int-to_uint64 (pos n) h = ground arith
to_int-to_uint64 (negsuc n) h = ground arith

pub to_uint64-lt : (i : ℤ) → to_uint64 i < 2 ^ 64
unfolding to_uint64
to_uint64-lt (pos n) = omega arith
to_uint64-lt (negsuc n) = omega arith

-- The parts of a frame: the one in front, the last one, and those behind a part.
pub slice-front : (n : ℕ) (ys zs : Bytes) → length ys ≡ n → slice 0 n (ys ++ zs) ≡ ys
unfolding slice
slice-front zero [] zs q = refl
slice-front zero (y ∷ ys) zs q = absurd (omega arith)
slice-front (suc n) [] zs q = absurd (omega arith)
slice-front (suc n) (y ∷ ys) zs q = ap (◌∷◌ y) (slice-front n ys zs (omega arith))

pub slice-last : (n : ℕ) (ys : Bytes) → length ys ≡ n → slice 0 n ys ≡ ys
unfolding slice
slice-last n ys q = take_of_length-le n ys (omega arith)

pub slice-behind :
    (n m k : ℕ) (xs ys : Bytes) → length xs ≡ n → slice (n + m) k (xs ++ ys) ≡ slice m k ys
unfolding slice
slice-behind zero m k [] ys p = rw zero-add
slice-behind zero m k (x ∷ xs) ys p = absurd (omega arith)
slice-behind (suc n) m k [] ys p = absurd (omega arith)
slice-behind (suc n) m k (x ∷ xs) ys p = rw suc-add (slice-behind n m k xs ys (omega arith))
