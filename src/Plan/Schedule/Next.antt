-- ===== src/Plan/Schedule/Next.antt =====
-- Which step comes next: `next_incomplete` and `remaining` of crates/valyria-plan/src/schedule.rs.
use valyria.Common.{
  ◌<◌, ◌≤◌, true, false, not, none, some, List, [], ◌∷◌, ◌++◌, string_eq, filterb, findb, contains,
  Option, ◌==◌, ==_iff, ==_refl, length, ◌≡◌, refl, arith, ◌↔◌, lookup, insert, lookup-insert,
  contains-filterb, append_assoc, append-nil, ◌∙◌, sym, is_some, Option-cases, inl, inr, Bool-cases,
  subst, allb, ap,
}
use valyria.Plan.Model.{PlanStepId, PlanStep, Plan, step, step_ids}
use valyria.Plan.Waves.{Adjacency, insert_all, adjacency, topological_waves}
use valyria.Plan.Waves.Order.{before, flatten}
use valyria.Plan.Waves.Progress.{keys-known, topological_waves-IsOrdered}
use valyria.Plan.Schedule.{
  ValidatedPlan, schedule, schedule_waves, group_wave, next_incomplete, remaining, Group,
}

-- No id is used twice.
abbrev pub Unique : List PlanStep → Type 0
Unique [] = Unit
Unique (s ∷ ss) = (contains (step_ids ss) s.id ≡ false) × Unique ss

order-schedule_waves :
    (plan : Plan) (ws : List (List PlanStepId)) (waves : List (List Group))
    (order : List PlanStepId)
    → ((schedule_waves plan ws waves order).order ≡ order ++ flatten ws)
      × ((schedule_waves plan ws waves order).plan ≡ plan)
order-schedule_waves plan [] waves order = (sym (append-nil order), refl)
order-schedule_waves plan (w ∷ ws) waves order =
    let (o, p) =
      order-schedule_waves plan ws (waves ++ group_wave plan w [] [] ∷ []) (order ++ w) in
    (o ∙ append_assoc order w (flatten ws), p)

-- A step is found by its id.
step_found :
    (steps : List PlanStep) (id : PlanStepId)
    → is_some (findb (λ s. s.id == id) steps) ≡ contains (step_ids steps) id
step_found [] id = refl
step_found (s ∷ ss) id = ground (arith, step_found ss id)

found_id :
    (steps : List PlanStep) (id : PlanStepId) (s : PlanStep)
    → findb (λ s. s.id == id) steps ≡ some s
    → s.id ≡ id
found_id [] id s h = cc
found_id (t ∷ ss) id s h = ground (arith, found_id ss id s, ==_iff t.id id)

lookup-insert_all :
    (ids : List PlanStepId) (steps : List PlanStep) (adj : Adjacency) (id : PlanStepId)
    → contains (step_ids steps) id ≡ false
    → lookup id (insert_all ids steps adj) ≡ lookup id adj
lookup-insert_all ids [] adj id h = refl
lookup-insert_all ids (s ∷ ss) adj id h =
    let deps = filterb (contains ids) s.depends_on in
    ground
      (arith, lookup-insert_all ids ss (insert s.id deps adj) id, lookup-insert s.id id deps adj)

-- With unique ids the adjacency has the known dependencies of each step.
pub entry_of :
    (ids : List PlanStepId) (steps : List PlanStep) (adj : Adjacency) (id : PlanStepId)
    (s : PlanStep)
    → Unique steps
    → findb (λ s. s.id == id) steps ≡ some s
    → lookup id (insert_all ids steps adj) ≡ some (filterb (contains ids) s.depends_on)
entry_of ids [] adj id s u h = cc
entry_of ids (t ∷ ss) adj id s u h =
    let deps = filterb (contains ids) t.depends_on in
    ground (
      arith,
      entry_of ids ss (insert t.id deps adj) id s u.1,
      ==_iff t.id id,
      lookup-insert_all ids ss (insert t.id deps adj) id,
      lookup-insert t.id id deps adj,
    )

-- The first step that is not done comes after done steps only.
first_incomplete :
    (done order : List PlanStepId) (x : PlanStepId)
    → findb (λ id. not (contains done id)) order ≡ some x
    → (contains done x ≡ false)
      × (contains order x ≡ true)
      × ((d : PlanStepId) → contains (before x order) d ≡ true → contains done d ≡ true)
first_incomplete done [] x h = cc
first_incomplete done (y ∷ order) x h = elim (Bool-cases (contains done y)) [
  | inl e ↦
      let (new, is_in, early) = first_incomplete done order x (ground arith) in
      (new, ground arith, λ d b. ground (arith, early d, ==_iff y d, ==_iff y x))
  | inr e ↦ (ground arith, ground (arith, ==_refl y), λ d b. ground (arith, ==_refl y))
]

none_left :
    (done order : List PlanStepId) (d : PlanStepId)
    → findb (λ id. not (contains done id)) order ≡ none
    → contains order d ≡ true
    → contains done d ≡ true
none_left done [] d h b = cc
none_left done (y ∷ order) d h b = ground (arith, none_left done order d, ==_iff y d)

all_in :
    (done xs : List PlanStepId)
    → ((k : PlanStepId) → contains xs k ≡ true → contains done k ≡ true)
    → allb (contains done) xs ≡ true
all_in done [] h = refl
all_in done (x ∷ xs) h = ground (arith, h x, ==_refl x, all_in done xs (λ k c. h k (ground arith)))

in_all :
    (done xs : List PlanStepId) (k : PlanStepId)
    → allb (contains done) xs ≡ true
    → contains xs k ≡ true
    → contains done k ≡ true
in_all done [] k h c = cc
in_all done (x ∷ xs) k h c = ground (arith, in_all done xs k, ==_iff x k)

length-filterb-le_done :
    (x : PlanStepId) (done order : List PlanStepId)
    → length (filterb (λ id. not (contains (x ∷ done) id)) order)
      ≤ length (filterb (λ id. not (contains done id)) order)
length-filterb-le_done x done [] = omega arith
length-filterb-le_done x done (y ∷ order) = ground (arith, length-filterb-le_done x done order)

length-filterb-done :
    (x : PlanStepId) (done order : List PlanStepId)
    → contains done x ≡ false
    → contains order x ≡ true
    → length (filterb (λ id. not (contains (x ∷ done) id)) order)
      < length (filterb (λ id. not (contains done id)) order)
length-filterb-done x done [] n c = cc
length-filterb-done x done (y ∷ order) n c = ground (
  arith,
  length-filterb-done x done order n,
  length-filterb-le_done x done order,
  ==_iff y x,
  ==_refl x,
)

-- What may come next when the steps `done` are done.
pub data IsNext (v : ValidatedPlan) (done : List PlanStepId) : Option PlanStep → Type 0 where
  nothing_left : allb (contains done) (step_ids v.plan.steps) ≡ true → IsNext v done none
  comes_next :
      {s : PlanStep}
      → step v.plan s.id ≡ some s
      → contains done s.id ≡ false
      → allb (contains done) (filterb (contains (step_ids v.plan.steps)) s.depends_on) ≡ true
      → allb (contains done) (before s.id (schedule v).order) ≡ true
      → IsNext v done (some s)

module _ (v : ValidatedPlan) (valid : topological_waves v.plan ≡ some v.waves) where
  contains-order :
      (k : PlanStepId) → contains (schedule v).order k ≡ contains (step_ids v.plan.steps) k
  unfolding schedule
  contains-order k =
      let (order, _) = order-schedule_waves v.plan v.waves [] [] in
      let ordered = topological_waves-IsOrdered v.plan v.waves valid in
      rw order (ordered.places k ∙ keys-known v.plan k)

  next_of :
      (done : List PlanStepId) (s : PlanStep)
      → next_incomplete (schedule v) done ≡ some s
      → (findb (λ id. not (contains done id)) (schedule v).order ≡ some s.id)
        × (step v.plan s.id ≡ some s)
  unfolding next_incomplete schedule
  next_of done s h =
      let (_, same_plan) = order-schedule_waves v.plan v.waves [] [] in
      elim (Option-cases (findb (λ id. not (contains done id)) (schedule v).order)) [
        | inl e ↦ absurd (ground arith)
        | inr (id, e) ↦
            let found : step v.plan id ≡ some s = rw (e, same_plan) at h in
            let is_id = found_id v.plan.steps id s found in
            (e ∙ ap some (sym is_id), subst (λ k. step v.plan k ≡ some s) (sym is_id) found)
      ]

  dependencies_done :
      (done : List PlanStepId) (s : PlanStep) (d : PlanStepId)
      → Unique v.plan.steps
      → next_incomplete (schedule v) done ≡ some s
      → contains s.depends_on d ≡ true
      → contains (step_ids v.plan.steps) d ≡ true
      → contains done d ≡ true
  unfolding adjacency schedule
  dependencies_done done s d u h is_dep known =
      let ids = step_ids v.plan.steps in
      let (next, found) = next_of done s h in
      let (new, is_in, early) = first_incomplete done (schedule v).order s.id next in
      let (order, _) = order-schedule_waves v.plan v.waves [] [] in
      let here = keys-known v.plan s.id ∙ sym (contains-order s.id) ∙ is_in in
      let dep : contains (filterb (contains ids) s.depends_on) d ≡ true =
        ground (arith, contains-filterb (contains ids) s.depends_on d) in
      let first =
        (topological_waves-IsOrdered v.plan v.waves valid).dependencies_first s.id d _ here
          (entry_of ids v.plan.steps [] s.id s u found) dep (keys-known v.plan d ∙ known) in
      early d (subst (λ o. contains (before s.id o) d ≡ true) (sym order) first)

  -- In the schedule of a plan with its own waves, no step comes next exactly if every step of the plan
  -- is done.
  next_incomplete-none :
      (done : List PlanStepId)
      → (next_incomplete (schedule v) done ≡ none)
        ↔ (allb (contains done) (step_ids v.plan.steps) ≡ true)
  unfolding next_incomplete schedule
  next_incomplete-none done =
      let order = (schedule v).order in
      let ids = step_ids v.plan.steps in
      let (_, same_plan) = order-schedule_waves v.plan v.waves [] [] in
      elim (Option-cases (findb (λ id. not (contains done id)) order)) [
        | inl e ↦ (
          λ h. all_in done ids (λ k known. none_left done order k e (contains-order k ∙ known)),
          λ h. rw e refl,
        )
        | inr (id, e) ↦
            let (new, is_in, _) = first_incomplete done order id e in
            let known = sym (contains-order id) ∙ is_in in
            (
              λ h.
                  let lost : step v.plan id ≡ none = rw (e, same_plan) at h in
                  absurd (ground (arith, step_found v.plan.steps id)),
              λ h. cc (new, in_all done ids id h known),
            )
      ]

  -- In the schedule of a plan with unique ids and its own waves, whatever is done: if nothing comes
  -- next, every step of the plan is done. The step that comes next is a step of the plan that is
  -- not done, every step of the plan that it depends on is done, and so is every step that is
  -- earlier in the execution order.
  pub next_incomplete-IsNext :
      (done : List PlanStepId)
      → Unique v.plan.steps
      → IsNext v done (next_incomplete (schedule v) done)
  next_incomplete-IsNext done u = elim (Option-cases (next_incomplete (schedule v) done)) [
    | inl e ↦ subst (IsNext v done) (sym e) (nothing_left ((next_incomplete-none done).0 e))
    | inr (s, e) ↦
        let (next, found) = next_of done s e in
        let (new, _, early) = first_incomplete done (schedule v).order s.id next in
        let ids = step_ids v.plan.steps in
        let deps = all_in done (filterb (contains ids) s.depends_on) (λ d c.
          dependencies_done done s d u e
            (ground (arith, contains-filterb (contains ids) s.depends_on d))
            (ground (arith, contains-filterb (contains ids) s.depends_on d))) in
        subst (IsNext v done) (sym e)
          (comes_next found new deps (all_in done (before s.id (schedule v).order) early))
  ]

  -- In the schedule of a plan with its own waves, marking the next step as done leaves fewer steps.
  remaining_decreases :
      (done : List PlanStepId) (s : PlanStep)
      → next_incomplete (schedule v) done ≡ some s
      → remaining (schedule v) (s.id ∷ done) < remaining (schedule v) done
  unfolding remaining
  remaining_decreases done s h =
      let (next, _) = next_of done s h in
      let (new, is_in, _) = first_incomplete done (schedule v).order s.id next in
      length-filterb-done s.id done (schedule v).order new is_in
