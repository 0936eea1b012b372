-- ===== src/Tiedb/Apply/Validates.antt =====
-- A batch that fails its validation has applied nothing, and a run reports how far it came.
use tie.Prelude.{
  ℕ, suc, ◌+◌, ◌<◌, ◌≡◌, refl, Bool, true, false, Option, none, some, List, [], ◌∷◌, if◌then◌else◌,
  length, arith,
}
use tie.Tiedb.Triples.{Bytes}
use tie.Tiedb.Collection.{Collection, Error, read_only_error}
use tie.Tiedb.Intern.{get_entry_from_string}
use tie.Tiedb.Intern.Unchanged.{
  Unchanged, Unchanged-refl, Unchanged-trans, after_answer, get_entry_from_string-Unchanged,
}
use tie.Tiedb.Apply.{
  OpKind, add, delete, set, update, update_add, add_if_absent, unknown, Op, first_value,
  triple_exists, validate_op, validate, run_op, run_ops, apply,
}

-- All `n` operations are applied where there is no error, and fewer where there is one.
abbrev pub Counts : ℕ → Option Error → ℕ → Type 0
Counts applied none n = applied ≡ n
Counts applied (some e) n = applied < n

Counts-step :
    (i : ℕ) (ops : List Op) (r : Collection × Option Error)
    (rest : Collection → Collection × ℕ × Option Error)
    → Counts (rest r.0).1 (rest r.0).2 (suc i + length ops)
    → Counts
        (elim r.1 as (λ _. Collection × ℕ × Option Error) [
          | some e ↦ (r.0, i, some e)
          | none ↦ rest r.0
        ]).1
        (elim r.1 as (λ _. Collection × ℕ × Option Error) [
          | some e ↦ (r.0, i, some e)
          | none ↦ rest r.0
        ]).2
        (i + suc (length ops))
Counts-step i ops (c, some e) rest h = omega arith
Counts-step i ops (c, none) rest h = shift (rest c).1 (rest c).2 h
  where
    shift :
        (applied : ℕ) (err : Option Error)
        → Counts applied err (suc i + length ops)
        → Counts applied err (i + suc (length ops))
    shift applied none h = omega (arith, h)
    shift applied (some e) h = omega (arith, h)

run_ops-from :
    (ic : Collection) (i : ℕ) (ops : List Op)
    → Counts (run_ops ic i ops).1 (run_ops ic i ops).2 (i + length ops)
unfolding run_ops
run_ops-from ic i [] = omega arith
run_ops-from ic i (op ∷ ops) =
    Counts-step i ops (run_op ic i op.kind op) (λ c. run_ops c (suc i) ops)
      (run_ops-from (run_op ic i op.kind op).0 (suc i) ops)

triple_exists-Unchanged :
    (ic : Collection) (key relation value : Bytes)
    → Unchanged (triple_exists ic key relation value).0 ic
unfolding triple_exists
triple_exists-Unchanged ic key relation value =
    let r1 = get_entry_from_string ic key in
    let h1 = get_entry_from_string-Unchanged ic key in
    after_answer ic r1.1 _ (λ k. _) h1
      (λ k.
        let r2 = get_entry_from_string r1.0 relation in
        let h2 = Unchanged-trans h1 (get_entry_from_string-Unchanged r1.0 relation) in
        after_answer ic r2.1 _ (λ v. _) h2
          (λ v.
            let r3 = get_entry_from_string r2.0 value in
            let h3 = Unchanged-trans h2 (get_entry_from_string-Unchanged r2.0 value) in
            after_answer ic r3.1 _ (λ w. _) h3 (λ w. h3)))

validate_op-Unchanged :
    (ic : Collection) (i : ℕ) (k : OpKind) (op : Op) → Unchanged (validate_op ic i k op).0 ic
unfolding validate_op
validate_op-Unchanged ic i update op =
    triple_exists-Unchanged ic op.key op.relation (first_value op)
validate_op-Unchanged ic i (unknown k) op = Unchanged-refl ic
validate_op-Unchanged ic i add op = Unchanged-refl ic
validate_op-Unchanged ic i delete op = Unchanged-refl ic
validate_op-Unchanged ic i set op = Unchanged-refl ic
validate_op-Unchanged ic i update_add op = Unchanged-refl ic
validate_op-Unchanged ic i add_if_absent op = Unchanged-refl ic

validate_step :
    (ic : Collection) (r : Collection × Option Error)
    (rest : Collection → Collection × Option Error)
    → Unchanged r.0 ic
    → Unchanged (rest r.0).0 ic
    → Unchanged (elim r.1 as (λ _. Collection × Option Error) [ some e ↦ r | none ↦ rest r.0 ]).0 ic
validate_step ic (c, some e) rest h g = h
validate_step ic (c, none) rest h g = g

validate-Unchanged : (ic : Collection) (i : ℕ) (ops : List Op) → Unchanged (validate ic i ops).0 ic
unfolding validate
validate-Unchanged ic i [] = Unchanged-refl ic
validate-Unchanged ic i (op ∷ ops) =
    let h = validate_op-Unchanged ic i op.kind op in
    validate_step ic (validate_op ic i op.kind op) (λ c. validate c (suc i) ops) h
      (Unchanged-trans h (validate-Unchanged (validate_op ic i op.kind op).0 (suc i) ops))

-- The body of `apply` by what it tests.
abbrev gated :
    Collection
    → List Op
    → Bool
    → Option Error
    → Collection × Option Error
    → Collection × ℕ × Option Error
gated ic ops sealed earlier r = if sealed then (ic, 0, some read_only_error) else elim earlier [
  | some e ↦ (ic, 0, some e)
  | none ↦ elim r.1 [ some e ↦ (r.0, 0, some e) | none ↦ run_ops r.0 0 ops ]
]

gated-invalid :
    (ic : Collection) (ops : List Op) (sealed : Bool) (earlier : Option Error)
    (r : Collection × Option Error) (e : Error)
    → sealed ≡ false
    → earlier ≡ none
    → r.1 ≡ some e
    → Unchanged r.0 ic
    → ((gated ic ops sealed earlier r).1 ≡ 0)
      × ((gated ic ops sealed earlier r).2 ≡ some e)
      × Unchanged (gated ic ops sealed earlier r).0 ic
gated-invalid ic ops false none (c, some d) e w g bad h = (refl, bad, h)
gated-invalid ic ops false none (c, none) e w g bad h = cc
gated-invalid ic ops false (some d) r e w g bad h = cc
gated-invalid ic ops true earlier r e w g bad h = cc

gated-Counts :
    (ic : Collection) (ops : List Op) (sealed : Bool) (earlier : Option Error)
    (r : Collection × Option Error)
    → 0 < length ops
    → Counts (gated ic ops sealed earlier r).1 (gated ic ops sealed earlier r).2 (length ops)
gated-Counts ic ops false none (c, none) h = from_zero _ _ (run_ops-from c 0 ops)
  where
    from_zero :
        (applied : ℕ) (err : Option Error)
        → Counts applied err (0 + length ops)
        → Counts applied err (length ops)
    from_zero applied none h = omega (arith, h)
    from_zero applied (some e) h = omega (arith, h)
gated-Counts ic ops false none (c, some e) h = h
gated-Counts ic ops false (some e) r h = h
gated-Counts ic ops true earlier r h = h

-- A batch on a writable collection without an earlier failure, one of whose operations fails its
-- validation, reports no operation applied and that error, and leaves every table, the queue, the
-- file and every other field but the number of empty levels as they were.
pub apply-invalid :
    (ic : Collection) (ops : List Op) (e : Error)
    → ic.read_only ≡ false
    → ic.io_err ≡ none
    → (validate ic 0 ops).1 ≡ some e
    → ((apply ic ops).1 ≡ 0) × ((apply ic ops).2 ≡ some e) × Unchanged (apply ic ops).0 ic
unfolding apply
apply-invalid ic ops e w g bad =
    gated-invalid ic ops ic.read_only ic.io_err (validate ic 0 ops) e w g bad
      (validate-Unchanged ic 0 ops)

-- A batch that is not empty reports all its operations applied if it reports no error, and fewer
-- than it has if it reports one.
pub apply-Counts :
    (ic : Collection) (ops : List Op)
    → 0 < length ops
    → Counts (apply ic ops).1 (apply ic ops).2 (length ops)
unfolding apply
apply-Counts ic ops h = gated-Counts ic ops ic.read_only ic.io_err (validate ic 0 ops) h
