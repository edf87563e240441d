-- ===== src/Plan/Validate/Errors.antt =====
-- When each of the checks of `validate` in crates/valyria-plan/src/validate.rs has nothing to report.
use valyria.Common.{
  Bool, true, false, not, ◌&&◌, String, List, [], ◌∷◌, ◌++◌, string_eq, ==_iff, contains, ◌≡◌, ◌↔◌,
  refl, arith, Bool-cases, inl, inr, All, is_some, if◌then◌else◌, ◌∙◌, sym,
}
use valyria.Plan.Model.{PlanStepId, PlanStep, step_ids, is_mutating, is_none}
use valyria.Plan.Schedule.Next.{Unique}
use valyria.Plan.Validate.{
  PlanError, PlanContext, error_if, step_error, plan_error, duplicate_errors, unknown_errors,
  dependency_errors, mutation_errors, scope_errors, target_errors, all_target_errors, is_writable,
  is_empty, in_scope, trim_end, duplicate_step_id, unknown_dependency, target_outside_plan_scope,
  target_unresolvable, plan_scope_outside_profile, mutating_step_without_verification,
  rollback_boundary_without_checkpoint,
}

pub append-nil_iff {ℓ} : {A : Type ℓ} (xs ys : List A) → (xs ++ ys ≡ []) ↔ ((xs ≡ []) × (ys ≡ []))
append-nil_iff [] ys = (λ h. (refl, h), λ h. h.1)
append-nil_iff (x ∷ xs) ys = (λ h. cc, λ h. cc)

pub error_if-nil : (b : Bool) (e : PlanError) → (error_if b e ≡ []) ↔ (b ≡ false)
error_if-nil true e = (λ h. cc, λ h. cc)
error_if-nil false e = (λ h. refl, λ h. refl)

All-iff {ℓ κ} :
    {A : Type ℓ} (P Q : A → Type κ) (xs : List A) → ((a : A) → P a ↔ Q a) → All P xs ↔ All Q xs
All-iff P Q [] f = (λ h. tt, λ h. tt)
All-iff P Q (x ∷ xs) f =
    let rest = All-iff P Q xs f in (λ h. ((f x).0 h.0, rest.0 h.1), λ h. ((f x).1 h.0, rest.1 h.1))

-- The target resolves, and stands in the plan's scope if it has one.
abbrev pub TargetOk : PlanContext → List String → String → Type 0
TargetOk cx prefixes target =
    (is_some (cx.resolve target) ≡ true)
    × ((not (is_empty prefixes) && not (in_scope target prefixes)) ≡ false)

fresh :
    (id : PlanStepId) (seen : List PlanStepId) (ss : List PlanStep)
    → All (λ s. contains (id ∷ seen) s.id ≡ false) ss
      ↔ ((contains (step_ids ss) id ≡ false) × All (λ s. contains seen s.id ≡ false) ss)
fresh id seen [] = (λ h. (refl, tt), λ h. tt)
fresh id seen (s ∷ ss) =
    let rest = fresh id seen ss in
    (
      λ h. (
        ground (arith, (rest.0 h.1).0, h.0, ==_iff id s.id, ==_iff s.id id),
        (ground (arith, h.0), (rest.0 h.1).1),
      ),
      λ h. (
        ground (arith, h.0, h.1.0, ==_iff id s.id, ==_iff s.id id),
        rest.1 (ground (arith, h.0), h.1.1),
      ),
    )

pub duplicates :
    (seen : List PlanStepId) (ss : List PlanStep)
    → (duplicate_errors seen ss ≡ []) ↔ (Unique ss × All (λ s. contains seen s.id ≡ false) ss)
duplicates seen [] = (λ h. (tt, tt), λ h. refl)
duplicates seen (s ∷ ss) =
    let split =
      append-nil_iff (error_if (contains seen s.id) (step_error duplicate_step_id s))
        (duplicate_errors (s.id ∷ seen) ss) in
    let one = error_if-nil (contains seen s.id) (step_error duplicate_step_id s) in
    let rest = duplicates (s.id ∷ seen) ss in
    let new = fresh s.id seen ss in
    (
      λ h.
          let (a, b) = split.0 h in
          let (u, f) = rest.0 b in let (n, g) = new.0 f in ((n, u), (one.0 a, g)),
      λ h. split.1 (one.1 h.1.0, rest.1 (h.0.1, new.1 (h.0.0, h.1.1))),
    )

-- Errors that are collected over a list are none exactly if each element has none.
collects {ℓ} :
    {A : Type ℓ} (P : A → Type 0) (f : A → List PlanError) (g : List A → List PlanError)
    → g [] ≡ []
    → ((a : A) (rest : List A) → g (a ∷ rest) ≡ f a ++ g rest)
    → ((a : A) → (f a ≡ []) ↔ P a)
    → (xs : List A) → (g xs ≡ []) ↔ All P xs
collects P f g nil cons one [] = (λ h. tt, λ h. nil)
collects P f g nil cons one (x ∷ xs) =
    let split = append-nil_iff (f x) (g xs) in
    let rest = collects P f g nil cons one xs in
    (
      λ h. let (a, b) = split.0 (sym (cons x xs) ∙ h) in ((one x).0 a, rest.0 b),
      λ h. cons x xs ∙ split.1 ((one x).1 h.0, rest.1 h.1),
    )

not-false_iff : (b : Bool) → (not b ≡ false) ↔ (b ≡ true)
not-false_iff true = (λ h. refl, λ h. refl)
not-false_iff false = (λ h. cc, λ h. cc)

error_unless : (b : Bool) (e : PlanError) → (error_if (not b) e ≡ []) ↔ (b ≡ true)
error_unless true e = (λ h. refl, λ h. refl)
error_unless false e = (λ h. cc, λ h. cc)

unknown-known :
    (ids : List PlanStepId) (s : PlanStep) (deps : List PlanStepId)
    → (unknown_errors ids s deps ≡ []) ↔ All (λ d. contains ids d ≡ true) deps
unknown-known ids s =
    collects (λ d. contains ids d ≡ true)
      (λ d. error_if (not (contains ids d)) (step_error unknown_dependency s))
      (unknown_errors ids s) refl (λ a rest. refl) (λ d. error_unless (contains ids d) _)

pub dependencies :
    (ids : List PlanStepId) (ss : List PlanStep)
    → (dependency_errors ids ss ≡ []) ↔ All (λ s. All (λ d. contains ids d ≡ true) s.depends_on) ss
dependencies ids =
    collects (λ s. All (λ d. contains ids d ≡ true) s.depends_on)
      (λ s. unknown_errors ids s s.depends_on) (dependency_errors ids) refl (λ a rest. refl)
      (λ s. unknown-known ids s s.depends_on)

target-TargetOk :
    (cx : PlanContext) (prefixes : List String) (s : PlanStep) (targets : List String)
    → (target_errors cx prefixes s targets ≡ []) ↔ All (TargetOk cx prefixes) targets
target-TargetOk cx prefixes s =
    collects (TargetOk cx prefixes)
      (λ target.
        if is_some (cx.resolve target)
        then error_if (not (is_empty prefixes) && not (in_scope target prefixes))
            (step_error target_outside_plan_scope s)
        else step_error target_unresolvable s ∷ [])
      (target_errors cx prefixes s) refl (λ a rest. refl) one
  where
    one :
        (target : String)
        → ((if is_some (cx.resolve target)
              then error_if
                  (not (is_empty prefixes) && not (in_scope target prefixes))
                  (step_error target_outside_plan_scope s)
              else step_error target_unresolvable s ∷ [])
            ≡ [])
          ↔ TargetOk cx prefixes target
    one target = elim (Bool-cases (is_some (cx.resolve target))) [
      | inl e ↦
          let inside =
            error_if-nil (not (is_empty prefixes) && not (in_scope target prefixes))
              (step_error target_outside_plan_scope s) in
          (λ h. (e, inside.0 (rw e at h)), λ h. rw e (inside.1 h.1))
      | inr e ↦ (λ h. absurd (ground arith), λ h. cc (e, h.0))
    ]

pub all_targets :
    (cx : PlanContext) (prefixes : List String) (ss : List PlanStep)
    → (all_target_errors cx prefixes ss ≡ []) ↔ All (λ s. All (TargetOk cx prefixes) s.targets) ss
all_targets cx prefixes =
    collects (λ s. All (TargetOk cx prefixes) s.targets)
      (λ s. target_errors cx prefixes s s.targets) (all_target_errors cx prefixes) refl
      (λ a rest. refl) (λ s. target-TargetOk cx prefixes s s.targets)

pub scope :
    (cx : PlanContext) (raws : List String)
    → (scope_errors cx raws ≡ [])
      ↔ All (λ raw. is_writable cx (cx.resolve (trim_end raw)) ≡ true) raws
scope cx =
    collects (λ raw. is_writable cx (cx.resolve (trim_end raw)) ≡ true)
      (λ raw.
        error_if (not (is_writable cx (cx.resolve (trim_end raw))))
          (plan_error plan_scope_outside_profile))
      (scope_errors cx) refl (λ a rest. refl)
      (λ raw. error_unless (is_writable cx (cx.resolve (trim_end raw))) _)

-- The two tests of the loop over the steps.
abbrev pub MutationOk : PlanStep → Type 0
MutationOk s =
    ((is_mutating s && is_none s.verification) ≡ false)
    × ((s.rollback_boundary && not s.checkpoint) ≡ false)

abbrev unverified : PlanStep → List PlanError
unverified s =
    error_if (is_mutating s && is_none s.verification)
      (step_error mutating_step_without_verification s)

abbrev unchecked : PlanStep → List PlanError
unchecked s =
    error_if (s.rollback_boundary && not s.checkpoint)
      (step_error rollback_boundary_without_checkpoint s)

mutation : (s : PlanStep) → (unverified s ++ unchecked s ≡ []) ↔ MutationOk s
mutation s =
    let split = append-nil_iff (unverified s) (unchecked s) in
    (
      λ h. let (a, b) = split.0 h in ((error_if-nil _ _).0 a, (error_if-nil _ _).0 b),
      λ h. split.1 ((error_if-nil _ _).1 h.0, (error_if-nil _ _).1 h.1),
    )

pub mutations : (ss : List PlanStep) → (mutation_errors ss ≡ []) ↔ All MutationOk ss
mutations =
    collects MutationOk (λ s. unverified s ++ unchecked s) mutation_errors refl (λ s rest. refl)
      mutation
