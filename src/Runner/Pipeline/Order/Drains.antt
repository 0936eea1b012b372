-- ===== src/Runner/Pipeline/Order/Drains.antt =====
-- The main loop of orderSteps, name by name: a job step is on the frontier or in order exactly once,
-- from when its last open edge is closed.
use tie.Prelude.{
  ℕ, suc, ◌+◌, ◌≡◌, ◌<◌, refl, ap, ◌∙◌, Bool, true, false, List, [], ◌∷◌, ◌++◌, if◌then◌else◌,
  nat_eq, nat_beq, list_eq, list_beq_iff, ◌==◌, ◌&&◌, inl, inr, arith, Bool-cases, ltb,
}
use tie.Prelude.GoMap
use tie.Prelude.Int.{ℤ, pos, int_eq}
use tie.Tiedb.Triples.{Bytes}
use tie.Runner.Pipeline.Order.{decrement, degree, lower}
use tie.Runner.Pipeline.Order.Degrees.{count, count-append, degree-put}

pushed :
    (b : Bool) (ready : List Bytes) (d x : Bytes)
    → count (if b then ready ++ d ∷ [] else ready) x
      ≡ count ready x + (if b then (if d == x then 1 else 0) else 0)
pushed true ready d x = count-append ready (d ∷ []) x ∙ omega arith
pushed false ready d x = omega arith

decrement_pos : (k : ℕ) → decrement (pos (k + 1)) ≡ pos k
decrement_pos k = ap decrement (ap pos (more k)) ∙ refl
  where
    more : (k : ℕ) → k + 1 ≡ suc k
    more k = omega arith

zero_test : (n : ℤ) (k : ℕ) → n ≡ pos k → (n == pos 0) ≡ nat_beq k 0
zero_test n k e = ap (λ (z : ℤ). z == pos 0) e

-- What the loop over the dependents does to one name, where k edges of it stay open.
lower_at :
    (names : List Bytes) (m : List (Bytes × ℤ)) (ready : List Bytes) (x : Bytes) (k : ℕ)
    → degree m x ≡ pos (k + count names x)
    → (degree (lower names m ready).0 x ≡ pos k)
      × (count (lower names m ready).1 x
          ≡ count ready x + (if ltb 0 (count names x) && nat_beq k 0 then 1 else 0))
unfolding lower
lower_at [] m ready x k h = (h ∙ ap pos (omega arith), omega arith)
lower_at (d ∷ names) m ready x k h =
    let n = decrement (degree m d) in
    let push = pushed (n == pos 0) ready d x in
    elim (Bool-cases (d == x)) [
      | inr e ↦
          let kept : degree (GoMap.put m d n) x ≡ pos (k + count names x) =
            degree-put m d x n
            ∙ ap (λ b. if b then n else degree m x) e
            ∙ h
            ∙ ap pos (ground (arith, e)) in
          let rest =
            lower_at names (GoMap.put m d n) (if n == pos 0 then ready ++ d ∷ [] else ready) x k
              kept in
          (
            rest.0,
            rest.1
                ∙ ap (λ c. c + (if ltb 0 (count names x) && nat_beq k 0 then 1 else 0)) push
                ∙ ground (arith, e),
          )
      | inl e ↦
          let same = (list_beq_iff d x).0 e in
          let now : n ≡ pos (k + count names x) =
            ap (λ (y : Bytes). decrement (degree m y)) same
            ∙ ap decrement (h ∙ ap pos (ground (arith, e)))
            ∙ decrement_pos (k + count names x) in
          let kept : degree (GoMap.put m d n) x ≡ pos (k + count names x) =
            degree-put m d x n ∙ ap (λ b. if b then n else degree m x) e ∙ now in
          let rest =
            lower_at names (GoMap.put m d n) (if n == pos 0 then ready ++ d ∷ [] else ready) x k
              kept in
          let test = zero_test n (k + count names x) now in
          (
            rest.0,
            rest.1
                ∙ ap (λ c. c + (if ltb 0 (count names x) && nat_beq k 0 then 1 else 0))
                    (push
                      ∙ ap (λ b. count ready x + (if b then (if d == x then 1 else 0) else 0)) test)
                ∙ ground (arith, e),
          )
    ]

-- One name between two rounds of the loop: w says how often it names a step.
pub record Balanced (k w : ℕ) (m : List (Bytes × ℤ)) (ready set : List Bytes) (x : Bytes)
    : Type 0 where
  pub degrees : degree m x ≡ pos k
  pub once : count ready x + count set x ≡ (if nat_beq k 0 then w else 0)

pub round_lem :
    (k c w : ℕ) (n : Bytes) (below : List Bytes) (m : List (Bytes × ℤ)) (ready set : List Bytes)
    (x : Bytes)
    → count below x ≡ c
    → (0 < k + c → w ≡ 1)
    → Balanced (k + c) w m (n ∷ ready) set x
    → Balanced k w (lower below m ready).0 (lower below m ready).1 (set ++ n ∷ []) x
round_lem k c w n below m ready set x e one b =
    let r = lower_at below m ready x k (b.degrees ∙ ap pos (omega (arith, e))) in
    let old = b.once in
    let now = r.1 in
    let more = count-append set (n ∷ []) x in
    record { degrees = r.0; once = ground (arith, old, now, more, e, one) }
