-- ===== src/Workflow/Definition/Sound.antt =====
-- `Definition.Validate` and its specification (backend/internal/workflow/domain.go).
use go_dashboard.Prelude.{
  ℕ, zero, suc, ◌+◌, ◌<◌, String, ◌≡◌, refl, ap, subst, ◌≢◌, ◌⊎◌, inl, inr, true, false, none, some,
  List, [], ◌∷◌, arith, ◌==◌, eq_iff, Bool-cases, Option-cases, get_elem?, All, is_pos, is_blank,
  ok,
}
use go_dashboard.Prelude.Results.{Result-cases}
use native.Mathlib.Nat.{add-zero, zero-add}
use go_dashboard.Workflow.Definition.{
  StepDefinition, Definition, StepIndexes, index_of, contains, check_step, check_steps,
  check_dependency, check_dependencies, check_order, validate, no_steps,
}
use go_dashboard.Workflow.Definition.Spec.{IsRunnable, IsWellFormed, StandsBefore, AreDistinct}

check_step-IsRunnable :
    (n : ℕ) (s : StepDefinition) (seen : StepIndexes) → check_step n s seen ≡ ok tt → IsRunnable s
unfolding check_step
check_step-IsRunnable n s seen h = ground arith

check_step-fresh :
    (n : ℕ) (s : StepDefinition) (seen : StepIndexes)
    → check_step n s seen ≡ ok tt
    → index_of s.id seen ≡ none
unfolding check_step
check_step-fresh n s seen h = ground arith

-- What the first loop has checked, one step at a time.
check_steps-cons :
    (n : ℕ) (s : StepDefinition) (rest : List StepDefinition) (seen : StepIndexes) {m : StepIndexes}
    → check_steps n (s ∷ rest) seen ≡ ok m
    → (check_step n s seen ≡ ok tt) × (check_steps (suc n) rest ((s.id, n) ∷ seen) ≡ ok m)
unfolding check_steps
check_steps-cons n s rest seen h = ground arith

steps-IsRunnable :
    (n : ℕ) (steps : List StepDefinition) (seen : StepIndexes) {m : StepIndexes}
    → check_steps n steps seen ≡ ok m
    → (i : ℕ) (s : StepDefinition) → get_elem? steps i ≡ some s
    → IsRunnable s
steps-IsRunnable n [] seen h i s e = cc
steps-IsRunnable n (t ∷ rest) seen h zero s e =
    let (c, _) = check_steps-cons n t rest seen h in
    subst IsRunnable (ground arith) (check_step-IsRunnable n t seen c)
steps-IsRunnable n (t ∷ rest) seen h (suc i) s e =
    let (_, r) = check_steps-cons n t rest seen h in
    steps-IsRunnable (suc n) rest ((t.id, n) ∷ seen) r i s e

steps_fresh :
    (n : ℕ) (steps : List StepDefinition) (seen : StepIndexes) {m : StepIndexes}
    → check_steps n steps seen ≡ ok m
    → (i : ℕ) (s : StepDefinition) → get_elem? steps i ≡ some s
    → index_of s.id seen ≡ none
unfolding index_of
steps_fresh n [] seen h i s e = cc
steps_fresh n (t ∷ rest) seen h zero s e =
    let (c, _) = check_steps-cons n t rest seen h in ground (arith, check_step-fresh n t seen c)
steps_fresh n (t ∷ rest) seen h (suc i) s e =
    let (_, r) = check_steps-cons n t rest seen h in
    ground (arith, steps_fresh (suc n) rest ((t.id, n) ∷ seen) r i s e)

head_fresh :
    (n : ℕ) (t : StepDefinition) (rest : List StepDefinition) (seen : StepIndexes) {m : StepIndexes}
    → check_steps n (t ∷ rest) seen ≡ ok m
    → (j : ℕ) (s : StepDefinition) → get_elem? rest j ≡ some s
    → t.id ≢ s.id
unfolding index_of
head_fresh n t rest seen h j s e =
    let (_, r) = check_steps-cons n t rest seen h in
    ground (arith, steps_fresh (suc n) rest ((t.id, n) ∷ seen) r j s e, eq_iff t.id s.id)

steps_unique :
    (n : ℕ) (steps : List StepDefinition) (seen : StepIndexes) {m : StepIndexes}
    → check_steps n steps seen ≡ ok m
    → (i j : ℕ) (s t : StepDefinition) → get_elem? steps i ≡ some s
    → get_elem? steps j ≡ some t
    → s.id ≡ t.id
    → i ≡ j
steps_unique n [] seen h i j s t a b e = cc
steps_unique n (u ∷ rest) seen h zero zero s t a b e = refl
steps_unique n (u ∷ rest) seen h zero (suc j) s t a b e =
    absurd (ground (arith, head_fresh n u rest seen h j t b))
steps_unique n (u ∷ rest) seen h (suc i) zero s t a b e =
    absurd (ground (arith, head_fresh n u rest seen h i s a))
steps_unique n (u ∷ rest) seen h (suc i) (suc j) s t a b e =
    let (_, r) = check_steps-cons n u rest seen h in
    ap suc (steps_unique (suc n) rest ((u.id, n) ∷ seen) r i j s t a b e)

-- The map that the first loop leaves names positions of the list only.
index_found :
    (n : ℕ) (steps : List StepDefinition) (seen : StepIndexes) {m : StepIndexes}
    → check_steps n steps seen ≡ ok m
    → (k : String) (a : ℕ) → index_of k m ≡ some a
    → (index_of k seen ≡ some a)
      ⊎ ((j : ℕ) × (t : StepDefinition) × (a ≡ n + j) × (get_elem? steps j ≡ some t) × (t.id ≡ k))
unfolding index_of check_steps
index_found n [] seen h k a e = inl (ground arith)
index_found n (s ∷ rest) seen h k a e =
    let (_, r) = check_steps-cons n s rest seen h in
    elim (index_found (suc n) rest ((s.id, n) ∷ seen) r k a e) [
      | inl old ↦ elim (Bool-cases (s.id == k)) [
        | inl same ↦ inr (zero, s, ground arith, refl, (eq_iff s.id k).0 same)
        | inr other ↦ inl (ground arith)
      ]
      | inr (j, t, p, q, w) ↦ inr (suc j, t, omega arith, q, w)
    ]

abbrev IsKnown : StepIndexes → ℕ → String → Type 0
IsKnown m index d = (a : ℕ) × (a < index) × (index_of d m ≡ some a)

check_dependency-facts :
    (index : ℕ) (id : String) (m : StepIndexes) (seen : List String) (d : String)
    → check_dependency index id m seen d ≡ ok tt
    → IsKnown m index d × (contains d seen ≡ false)
unfolding check_dependency
check_dependency-facts index id m seen d h = elim (Option-cases (index_of d m)) [
  | inl e ↦ absurd (ground arith)
  | inr (a, e) ↦ ((a, ground arith, e), ground arith)
]

module _ (index : ℕ) (id : String) (m : StepIndexes) where
  check_dependencies-cons :
      (seen : List String) (d : String) (rest : List String)
      → check_dependencies index id m seen (d ∷ rest) ≡ ok tt
      → (check_dependency index id m seen d ≡ ok tt)
        × (check_dependencies index id m (d ∷ seen) rest ≡ ok tt)
  unfolding check_dependencies
  check_dependencies-cons seen d rest h = ground arith

  dependencies-IsKnown :
      (seen deps : List String)
      → check_dependencies index id m seen deps ≡ ok tt
      → All (IsKnown m index) deps
  dependencies-IsKnown seen [] h = tt
  dependencies-IsKnown seen (d ∷ rest) h =
      let (c, r) = check_dependencies-cons seen d rest h in
      ((check_dependency-facts index id m seen d c).0, dependencies-IsKnown (d ∷ seen) rest r)

  dependencies_unseen :
      (seen deps : List String)
      → check_dependencies index id m seen deps ≡ ok tt
      → All (λ d. contains d seen ≡ false) deps
  dependencies_unseen seen [] h = tt
  dependencies_unseen seen (d ∷ rest) h =
      let (c, r) = check_dependencies-cons seen d rest h in
      (
        (check_dependency-facts index id m seen d c).1,
        tail_unseen d seen rest (dependencies_unseen (d ∷ seen) rest r),
      )
    where
      tail_unseen :
          (d : String) (seen rest : List String)
          → All (λ e. contains e (d ∷ seen) ≡ false) rest
          → All (λ e. contains e seen ≡ false) rest
      tail_unseen d seen [] h = tt
      tail_unseen d seen (e ∷ rest) h =
          (unfold contains in ground arith, tail_unseen d seen rest h.1)

head_distinct :
    (d : String) (seen rest : List String)
    → All (λ e. contains e (d ∷ seen) ≡ false) rest
    → All (λ e. d ≢ e) rest
unfolding contains
head_distinct d seen [] h = tt
head_distinct d seen (e ∷ rest) h = (ground (arith, eq_iff d e), head_distinct d seen rest h.1)

dependencies_distinct :
    (index : ℕ) (id : String) (m : StepIndexes) (seen deps : List String)
    → check_dependencies index id m seen deps ≡ ok tt
    → AreDistinct deps
dependencies_distinct index id m seen [] h = tt
dependencies_distinct index id m seen (d ∷ rest) h =
    let (_, r) = check_dependencies-cons index id m seen d rest h in
    (
      head_distinct d seen rest (dependencies_unseen index id m (d ∷ seen) rest r),
      dependencies_distinct index id m (d ∷ seen) rest r,
    )

order_checked :
    (n : ℕ) (steps : List StepDefinition) (m : StepIndexes)
    → check_order n steps m ≡ ok tt
    → (i : ℕ) (s : StepDefinition) → get_elem? steps i ≡ some s
    → check_dependencies (n + i) s.id m [] s.depends_on ≡ ok tt
unfolding check_order
order_checked n [] m h i s e = cc
order_checked n (t ∷ rest) m h zero s e =
    let same : t ≡ s = ground arith in
    subst (λ u. check_dependencies (n + 0) u.id m [] u.depends_on ≡ ok tt) same
      (rw add-zero (ground arith))
order_checked n (t ∷ rest) m h (suc i) s e =
    let next : n + suc i ≡ suc n + i = omega arith in
    rw next (order_checked (suc n) rest m (ground arith) i s e)

All-map {κ} :
    {P Q : String → Type κ} (f : (d : String) → P d → Q d) (xs : List String) → All P xs → All Q xs
All-map f [] h = tt
All-map f (x ∷ xs) h = (f x h.0, All-map f xs h.1)

-- The parts of an accepted definition.
record Accepted (d : Definition) : Type 0 where
  indexes : StepIndexes
  steps_ok : check_steps 0 d.steps [] ≡ ok indexes
  order_ok : check_order 0 d.steps indexes ≡ ok tt
  id_ok : is_blank d.id ≡ false
  name_ok : is_blank d.name ≡ false
  version_ok : is_pos d.version ≡ true
  timeout_ok : is_pos d.timeout ≡ true
  some_steps : no_steps d.steps ≡ false

validate-Accepted : (d : Definition) → validate d ≡ ok tt → Accepted d
unfolding validate
validate-Accepted d h = elim (Result-cases (check_steps 0 d.steps [])) [
  | inl (m, e) ↦ record {
    indexes = m;
    steps_ok = e;
    order_ok = ground arith;
    id_ok = ground arith;
    name_ok = ground arith;
    version_ok = ground arith;
    timeout_ok = ground arith;
    some_steps = ground arith;
  }
  | inr (x, e) ↦ absurd (ground arith)
]

known_before :
    (d : Definition) (a : Accepted d) (i : ℕ) (k : String)
    → IsKnown a.indexes i k
    → StandsBefore d.steps i k
unfolding index_of
known_before d a i k (at, lt, e) = elim (index_found 0 d.steps [] a.steps_ok k at e) [
  | inl none_yet ↦ cc
  | inr (j, t, p, q, w) ↦ (j, t, omega arith, q, w)
]

checked_at :
    (d : Definition) (a : Accepted d) (i : ℕ) (s : StepDefinition)
    → get_elem? d.steps i ≡ some s
    → check_dependencies i s.id a.indexes [] s.depends_on ≡ ok tt
checked_at d a i s e = rw zero-add at (order_checked 0 d.steps a.indexes a.order_ok i s e)

-- A definition that `Validate` accepts is well formed: the steps have distinct IDs and positive
-- timeouts and attempts, and each depends, without repeats, on steps that stand before it.
pub validate-IsWellFormed : (d : Definition) → validate d ≡ ok tt → IsWellFormed d
validate-IsWellFormed d h =
    let a = validate-Accepted d h in
    record {
      has_id = a.id_ok;
      has_name = a.name_ok;
      has_version = a.version_ok;
      has_timeout = a.timeout_ok;
      has_steps = ground (arith, a.some_steps);
      runnable = steps-IsRunnable 0 d.steps [] a.steps_ok;
      unique = steps_unique 0 d.steps [] a.steps_ok;
      ordered = λ i s e.
          All-map (known_before d a i) s.depends_on
            (dependencies-IsKnown i s.id a.indexes [] s.depends_on (checked_at d a i s e));
      distinct =
          λ i s e. dependencies_distinct i s.id a.indexes [] s.depends_on (checked_at d a i s e);
    }
