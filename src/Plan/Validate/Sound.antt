-- ===== src/Plan/Validate/Sound.antt =====
-- Which plans `validate` of crates/valyria-plan/src/validate.rs accepts.
use valyria.Common.{
  true, false, not, ◌&&◌, Option, none, some, List, [], ◌∷◌, ◌++◌, map, string_eq, contains, ◌≡◌,
  ◌≢◌, ◌↔◌, refl, arith, Bool-cases, inl, inr, Option-cases, All,
}
use valyria.Plan.Model.{PlanStepId, PlanStep, Plan, step_ids, is_mutating, is_none}
use valyria.Plan.Waves.{topological_waves, adjacency}
use valyria.Plan.Waves.Progress.{IsStuck}
use valyria.Plan.Waves.Cycles.{topological_waves-none}
use valyria.Plan.FindCycle.{find_cycle}
use valyria.Plan.FindCycle.Agreement.{find_cycle-topological_waves}
use valyria.Plan.Schedule.{ValidatedPlan}
use valyria.Plan.Schedule.Next.{Unique}
use valyria.Plan.Validate.{
  PlanError, PlanContext, error_if, plan_error, duplicate_errors, dependency_errors, cycle_errors,
  mutation_errors, scope_errors, all_target_errors, validate_scope, all_errors, validate, accepted,
  panics, conclude, is_writable, is_empty, is_manual, scope_prefix, trim_end,
  plan_scope_outside_profile,
}
use valyria.Plan.Validate.Errors.{
  TargetOk, MutationOk, duplicates, dependencies, all_targets, scope, mutations, append-nil_iff,
  error_if-nil,
}

-- What a step must be: its dependencies are steps, a mutation is verified, a rollback boundary has
-- a checkpoint, and its targets are in order.
pub record IsValidStep (plan : Plan) (cx : PlanContext) (s : PlanStep) : Type 0 where
  pub known : All (λ d. contains (step_ids plan.steps) d ≡ true) s.depends_on
  pub verified : (is_mutating s && is_none s.verification) ≡ false
  pub checkpointed : (s.rollback_boundary && not s.checkpoint) ≡ false
  pub targets : All (TargetOk cx (map scope_prefix plan.plan_scope)) s.targets

pub record IsValid (plan : Plan) (cx : PlanContext) : Type 0 where
  pub has_steps : is_empty plan.steps ≡ false
  pub unique : Unique plan.steps
  pub acyclic : ¬ ((stuck : List PlanStepId) × IsStuck (adjacency plan) stuck)
  pub steps : All (IsValidStep plan cx) plan.steps
  pub writable : All (λ raw. is_writable cx (cx.resolve (trim_end raw)) ≡ true) plan.plan_scope
  pub no_manual_scope : (is_manual cx.permission_mode && not (is_empty plan.plan_scope)) ≡ false

-- All checks have nothing to report.
record NoErrors (plan : Plan) (cx : PlanContext) : Type 0 where
  unique : Unique plan.steps
  known : All (λ s. All (λ d. contains (step_ids plan.steps) d ≡ true) s.depends_on) plan.steps
  no_cycle : find_cycle plan ≡ none
  mutation : All MutationOk plan.steps
  writable : All (λ raw. is_writable cx (cx.resolve (trim_end raw)) ≡ true) plan.plan_scope
  no_manual_scope : (is_manual cx.permission_mode && not (is_empty plan.plan_scope)) ≡ false
  targets : All (λ s. All (TargetOk cx (map scope_prefix plan.plan_scope)) s.targets) plan.steps

cycle-nil : (o : Option (List PlanStepId)) → (cycle_errors o ≡ []) ↔ (o ≡ none)
cycle-nil none = (λ h. refl, λ h. refl)
cycle-nil (some c) = (λ h. cc, λ h. cc)

module _ (plan : Plan) (cx : PlanContext) where
  abbrev manual_errors : List PlanError
  manual_errors =
      error_if (is_manual cx.permission_mode && not (is_empty plan.plan_scope))
        (plan_error plan_scope_outside_profile)

  abbrev targets_of : List PlanError
  targets_of = all_target_errors cx (map scope_prefix plan.plan_scope) plan.steps

  scope_nil : (validate_scope plan cx ≡ []) ↔ (
      All (λ raw. is_writable cx (cx.resolve (trim_end raw)) ≡ true) plan.plan_scope
      × ((is_manual cx.permission_mode && not (is_empty plan.plan_scope)) ≡ false)
      × All (λ s. All (TargetOk cx (map scope_prefix plan.plan_scope)) s.targets) plan.steps)
  unfolding validate_scope
  scope_nil =
      let entries = scope_errors cx plan.plan_scope in
      let split = append-nil_iff (entries ++ manual_errors) targets_of in
      let split2 = append-nil_iff entries manual_errors in
      let written = scope cx plan.plan_scope in
      let targeted = all_targets cx (map scope_prefix plan.plan_scope) plan.steps in
      (
        λ h.
            let (ef, g) = split.0 h in
            let (e, f) = split2.0 ef in (written.0 e, (error_if-nil _ _).0 f, targeted.0 g),
        λ (e, f, g). split.1 (split2.1 (written.1 e, (error_if-nil _ _).1 f), targeted.1 g),
      )

  abbrev dup_errors : List PlanError
  dup_errors = duplicate_errors [] plan.steps

  abbrev dep_errors : List PlanError
  dep_errors = dependency_errors (step_ids plan.steps) plan.steps

  abbrev loop_errors : List PlanError
  loop_errors = cycle_errors (find_cycle plan)

  all_errors-nil : all_errors plan cx ≡ [] → NoErrors plan cx
  unfolding all_errors
  all_errors-nil h =
      let (abcd, efg) =
        (append-nil_iff (dup_errors ++ dep_errors ++ loop_errors ++ mutation_errors plan.steps)
            (validate_scope plan cx)).0
          h in
      let (abc, d) =
        (append-nil_iff (dup_errors ++ dep_errors ++ loop_errors) (mutation_errors plan.steps)).0
          abcd in
      let (ab, c) = (append-nil_iff (dup_errors ++ dep_errors) loop_errors).0 abc in
      let (a, b) = (append-nil_iff dup_errors dep_errors).0 ab in
      let (e, f, g) = scope_nil.0 efg in
      record {
        unique = ((duplicates [] plan.steps).0 a).0;
        known = (dependencies (step_ids plan.steps) plan.steps).0 b;
        no_cycle = (cycle-nil (find_cycle plan)).0 c;
        mutation = (mutations plan.steps).0 d;
        writable = e;
        no_manual_scope = f;
        targets = g;
      }

  nil-all_errors : NoErrors plan cx → all_errors plan cx ≡ []
  unfolding all_errors
  nil-all_errors n =
      let a = (duplicates [] plan.steps).1 (n.unique, all_unseen plan.steps) in
      let b = (dependencies (step_ids plan.steps) plan.steps).1 n.known in
      let c = (cycle-nil (find_cycle plan)).1 n.no_cycle in
      let d = (mutations plan.steps).1 n.mutation in
      let efg = scope_nil.1 (n.writable, n.no_manual_scope, n.targets) in
      let ab = (append-nil_iff dup_errors dep_errors).1 (a, b) in
      let abc = (append-nil_iff (dup_errors ++ dep_errors) loop_errors).1 (ab, c) in
      let abcd =
        (append-nil_iff (dup_errors ++ dep_errors ++ loop_errors) (mutation_errors plan.steps)).1
          (abc, d) in
      (append-nil_iff (dup_errors ++ dep_errors ++ loop_errors ++ mutation_errors plan.steps)
          (validate_scope plan cx)).1
        (abcd, efg)
    where
      all_unseen : (ss : List PlanStep) → All (λ s. contains {K = PlanStepId} [] s.id ≡ false) ss
      all_unseen [] = tt
      all_unseen (s ∷ ss) = (refl, all_unseen ss)

merge :
    (plan : Plan) (cx : PlanContext) (ss : List PlanStep)
    → All (λ s. All (λ d. contains (step_ids plan.steps) d ≡ true) s.depends_on) ss
    → All MutationOk ss
    → All (λ s. All (TargetOk cx (map scope_prefix plan.plan_scope)) s.targets) ss
    → All (IsValidStep plan cx) ss
merge plan cx [] k m t = tt
merge plan cx (s ∷ ss) k m t = (
  record { known = k.0; verified = m.0.0; checkpointed = m.0.1; targets = t.0 },
  merge plan cx ss k.1 m.1 t.1,
)

split :
    (plan : Plan) (cx : PlanContext) (ss : List PlanStep)
    → All (IsValidStep plan cx) ss
    → All (λ s. All (λ d. contains (step_ids plan.steps) d ≡ true) s.depends_on) ss
      × All MutationOk ss
      × All (λ s. All (TargetOk cx (map scope_prefix plan.plan_scope)) s.targets) ss
split plan cx [] h = (tt, tt, tt)
split plan cx (s ∷ ss) h =
    let (k, m, t) = split plan cx ss h.1 in
    ((h.0.known, k), ((h.0.verified, h.0.checkpointed), m), (h.0.targets, t))

module _ (plan : Plan) (cx : PlanContext) where
  accepted-IsValid :
      (v : ValidatedPlan) (errors : List PlanError)
      → is_empty plan.steps ≡ false
      → all_errors plan cx ≡ errors
      → conclude plan errors ≡ accepted v
      → (v.plan ≡ plan) × (topological_waves plan ≡ some v.waves) × IsValid plan cx
  accepted-IsValid v (e ∷ es) steps all h = absurd (ground arith)
  accepted-IsValid v [] steps all h = elim (Option-cases (topological_waves plan)) [
    | inl none_found ↦ absurd (ground arith)
    | inr (ws, found) ↦
        let n = all_errors-nil plan cx all in
        (
          ground arith,
          ground arith,
          record {
            has_steps = steps;
            unique = n.unique;
            acyclic = λ stuck. cc ((topological_waves-none plan).1 stuck, found);
            steps = merge plan cx plan.steps n.known n.mutation n.targets;
            writable = n.writable;
            no_manual_scope = n.no_manual_scope;
          },
        )
  ]

  -- If `validate` accepts, then what it accepts is the plan itself with its waves, and the plan is
  -- valid: it has steps with unique ids, dependencies that are steps and no steps that wait for each
  -- other; each mutation is verified, each rollback boundary has a checkpoint, and scope and targets
  -- are in order.
  pub validate-IsValid :
      (v : ValidatedPlan)
      → validate plan cx ≡ accepted v
      → (v.plan ≡ plan) × (topological_waves plan ≡ some v.waves) × IsValid plan cx
  unfolding validate
  validate-IsValid v h = elim (Bool-cases (is_empty plan.steps)) [
    | inl none_there ↦ absurd (ground arith)
    | inr steps ↦ accepted-IsValid v (all_errors plan cx) steps refl (rw steps at h)
  ]

  -- Every valid plan has waves, and `validate` accepts it with them.
  pub IsValid-validate :
      IsValid plan cx
      → (ws : List (List PlanStepId)) × (topological_waves plan ≡ some ws)
        × (validate plan cx ≡ accepted (record { plan = plan; waves = ws }))
  unfolding validate
  IsValid-validate valid = elim (Option-cases (topological_waves plan)) [
    | inl none_found ↦ absurd (valid.acyclic ((topological_waves-none plan).0 none_found))
    | inr (ws, found) ↦
        let (k, m, t) = split plan cx plan.steps valid.steps in
        let cycle : find_cycle plan ≡ none = ground (arith, find_cycle-topological_waves plan) in
        let nothing : all_errors plan cx ≡ [] = nil-all_errors plan cx (record {
          unique = valid.unique;
          known = k;
          no_cycle = cycle;
          mutation = m;
          writable = valid.writable;
          no_manual_scope = valid.no_manual_scope;
          targets = t;
        }) in
        (ws, found, rw (valid.has_steps, nothing, found) refl)
  ]

  concludes :
      (errors : List PlanError) → all_errors plan cx ≡ errors → conclude plan errors ≢ panics
  concludes (e ∷ es) all h = ground arith
  concludes [] all h =
      let n = all_errors-nil plan cx all in
      let agree = find_cycle-topological_waves plan in
      elim (Option-cases (topological_waves plan)) [
        | inl none_found ↦ cc (n.no_cycle, none_found, agree)
        | inr (ws, found) ↦ ground arith
      ]

  -- Validation never panics: whatever the plan, the `expect` on the waves does not fail.
  validate-panics : validate plan cx ≢ panics
  unfolding validate
  validate-panics h = elim (Bool-cases (is_empty plan.steps)) [
    | inl none_there ↦ ground arith
    | inr steps ↦ concludes (all_errors plan cx) refl (rw steps at h)
  ]
