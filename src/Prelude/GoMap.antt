-- ===== src/Prelude/GoMap.antt =====
-- Go's maps as association lists. `put` and `delete` keep the keys distinct; the order of the
-- entries stands for the order of one iteration, which Go leaves open.
use Prim.Native.Nat.{◌+◌, ◌≤◌}
use mathlib.Core.Path.{◌≡◌, refl}
use mathlib.Core.Logic.{inl, inr}
use mathlib.Core.Option.{Option, none, some}
use mathlib.Core.List.{List, [], ◌∷◌, ◌++◌}
use native.Mathlib.Omega.{arith}
use tie.Prelude.Tests.{Eq, ◌==◌, if◌then◌else◌, is_some, Bool-cases}
use tie.Prelude.Lists.{length}

module _ {ℓ κ} {K : Type ℓ} {V : Type κ} ⦃e : Eq K⦄ where
  unfoldable pub get : List (K × V) → K → Option V
  get [] k = none
  get ((j, v) ∷ m) k = if j == k then some v else get m k

  -- m[k] = v
  unfoldable pub put : List (K × V) → K → V → List (K × V)
  put [] k v = (k, v) ∷ []
  put ((j, w) ∷ m) k v = if j == k then (j, v) ∷ m else (j, w) ∷ put m k v

  -- delete(m, k)
  unfoldable pub delete : List (K × V) → K → List (K × V)
  delete [] k = []
  delete ((j, w) ∷ m) k = let rest = delete m k in if j == k then rest else (j, w) ∷ rest

  abbrev pub Distinct : List (K × V) → Type κ
  Distinct [] = Unit
  Distinct ((k, v) ∷ m) = (get m k ≡ none) × Distinct m

  pub get-put :
      (m : List (K × V)) (k : K) (v : V) (j : K)
      → get (put m k v) j ≡ (if k == j then some v else get m j)
  unfolding get put
  get-put [] k v j = refl
  get-put ((i, w) ∷ m) k v j =
      ground (arith, e.beq_iff i k, e.beq_iff i j, e.beq_iff k j, get-put m k v j)

  pub get-delete :
      (m : List (K × V)) (k j : K) → get (delete m k) j ≡ (if k == j then none else get m j)
  unfolding get delete
  get-delete [] k j = ground arith
  get-delete ((i, w) ∷ m) k j =
      ground (arith, e.beq_iff i k, e.beq_iff i j, e.beq_iff k j, get-delete m k j)

  pub get-append :
      (xs ys : List (K × V)) (k : K)
      → get (xs ++ ys) k ≡ (if is_some (get xs k) then get xs k else get ys k)
  unfolding get
  get-append [] ys k = refl
  get-append ((i, w) ∷ xs) ys k = ground (arith, get-append xs ys k)

  pub delete_absent : (m : List (K × V)) (k : K) → get m k ≡ none → delete m k ≡ m
  unfolding get delete
  delete_absent [] k h = refl
  delete_absent ((i, w) ∷ m) k h = ground (arith, delete_absent m k)

  pub length-delete-le : (m : List (K × V)) (k : K) → length (delete m k) ≤ length m
  unfolding delete
  length-delete-le [] k = omega arith
  length-delete-le ((i, w) ∷ m) k = ground (arith, length-delete-le m k)

  pub length-delete :
      (m : List (K × V)) (k : K) {v : V}
      → Distinct m
      → get m k ≡ some v
      → length (delete m k) + 1 ≡ length m
  unfolding get delete
  length-delete [] k d h = cc
  length-delete ((i, w) ∷ m) k {v} d h = elim (Bool-cases (i == k)) [
    | inl here ↦ ground (arith, here, e.beq_iff i k, delete_absent m k)
    | inr there ↦ ground (arith, there, length-delete m k {v = v} d.1)
  ]

  pub put-Distinct : (m : List (K × V)) (k : K) (v : V) → Distinct m → Distinct (put m k v)
  unfolding put get
  put-Distinct [] k v d = (refl, tt)
  put-Distinct ((i, w) ∷ m) k v d =
      ground (arith, e.beq_iff i k, e.beq_iff k i, get-put m k v i, put-Distinct m k v d.1)

  pub delete-Distinct : (m : List (K × V)) (k : K) → Distinct m → Distinct (delete m k)
  unfolding delete
  delete-Distinct [] k d = tt
  delete-Distinct ((i, w) ∷ m) k d = ground (arith, get-delete m k i, delete-Distinct m k d.1)

  -- A map gains at most one entry by a write, and none if the key was there.
  pub length-put :
      (m : List (K × V)) (k : K) (v : V)
      → length (put m k v) ≡ (if is_some (get m k) then length m else length m + 1)
  unfolding get put
  length-put [] k v = refl
  length-put ((i, w) ∷ m) k v = ground (arith, length-put m k v)

  pub delete-put : (m : List (K × V)) (k : K) (v : V) → delete (put m k v) k ≡ delete m k
  unfolding put delete
  delete-put [] k v = ground (arith, e.beq_iff k k)
  delete-put ((i, w) ∷ m) k v = ground (arith, delete-put m k v)
