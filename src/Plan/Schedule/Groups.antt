-- ===== src/Plan/Schedule/Groups.antt =====
-- Which steps may run together: the groups of `schedule` and `group_for` of
-- crates/valyria-plan/src/schedule.rs.
use valyria.Common.{
  true, false, ◌||◌, some, List, [], ◌∷◌, ◌++◌, string_eq, findb, anyb, anyb-append, is_some-findb,
  contains, map, All, All-map, All-findb, All-append, contains-append, findb_sound, ◌≡◌, refl,
  arith, append_assoc, append-nil, ◌∙◌, sym, is_some, Bool-cases, inl, inr, contains-filterb,
}
use valyria.Plan.Model.{PlanStepId, PlanStep, Plan, step, step_ids}
use valyria.Plan.Waves.{Adjacency, adjacency, topological_waves}
use valyria.Plan.Waves.Order.{IsIndependent, flatten}
use valyria.Plan.Waves.Progress.{keys-known, topological_waves-IsOrdered}
use valyria.Plan.Schedule.{
  ValidatedPlan, schedule, schedule_waves, group_wave, is_parallelizable, all_groups, group_for,
  Group,
}
use valyria.Plan.Schedule.Next.{Unique, entry_of}

-- The group's members are among these.
abbrev Within : List PlanStepId → Group → Type 0
Within ids g = (k : PlanStepId) → contains g k ≡ true → contains ids k ≡ true

group_wave-Within :
    (plan : Plan) (ids w : List PlanStepId) (groups : List Group) (bucket : Group)
    → Within ids w
    → All (Within ids) groups
    → Within ids bucket
    → All (Within ids) (group_wave plan w groups bucket)
group_wave-Within plan ids [] groups [] hw hg hb = hg
group_wave-Within plan ids [] groups (b ∷ bucket) hw hg hb =
    All-append (Within ids) groups ((b ∷ bucket) ∷ []) hg (hb, tt)
group_wave-Within plan ids (x ∷ w) groups bucket hw hg hb =
    elim (Bool-cases (is_parallelizable (step plan x))) [
      | inl e ↦ rw e (
          group_wave-Within plan ids w groups (bucket ++ x ∷ []) rest hg
            (λ k h. ground (arith, hb k, contains-append bucket (x ∷ []) k, hw k)))
      | inr e ↦ rw e (
          group_wave-Within plan ids w (groups ++ (x ∷ []) ∷ []) bucket rest
            (All-append (Within ids) groups ((x ∷ []) ∷ []) hg (λ k h. ground (arith, hw k), tt))
            hb)
    ]
  where
    rest : Within ids w
    rest k h = hw k (ground arith)

contains-group_wave :
    (plan : Plan) (w : List PlanStepId) (groups : List Group) (bucket : Group) (k : PlanStepId)
    → anyb (λ g. contains g k) (group_wave plan w groups bucket)
      ≡ (anyb (λ g. contains g k) groups || (contains bucket k || contains w k))
contains-group_wave plan [] groups [] k = ground arith
contains-group_wave plan [] groups (b ∷ bucket) k =
    ground (arith, anyb-append (λ g. contains g k) groups ((b ∷ bucket) ∷ []))
contains-group_wave plan (x ∷ w) groups bucket k =
    elim (Bool-cases (is_parallelizable (step plan x))) [
      | inl e ↦
          rw (e, contains-group_wave plan w groups (bucket ++ x ∷ []) k)
            (ground (arith, contains-append bucket (x ∷ []) k))
      | inr e ↦
          rw (e, contains-group_wave plan w (groups ++ (x ∷ []) ∷ []) bucket k)
            (ground (arith, anyb-append (λ g. contains g k) groups ((x ∷ []) ∷ [])))
    ]

waves-schedule_waves :
    (plan : Plan) (ws : List (List PlanStepId)) (waves : List (List Group))
    (order : List PlanStepId)
    → (schedule_waves plan ws waves order).waves ≡ waves ++ map (λ w. group_wave plan w [] []) ws
waves-schedule_waves plan [] waves order = sym (append-nil waves)
waves-schedule_waves plan (w ∷ ws) waves order =
    waves-schedule_waves plan ws (waves ++ group_wave plan w [] [] ∷ []) (order ++ w)
    ∙ append_assoc waves (group_wave plan w [] [] ∷ []) (map (λ w. group_wave plan w [] []) ws)

contains-all_groups :
    (plan : Plan) (ws : List (List PlanStepId)) (k : PlanStepId)
    → anyb (λ g. contains g k) (all_groups (map (λ w. group_wave plan w [] []) ws))
      ≡ contains (flatten ws) k
contains-all_groups plan [] k = refl
contains-all_groups plan (w ∷ ws) k = ground (
  arith,
  contains-all_groups plan ws k,
  contains-group_wave plan w [] [] k,
  anyb-append (λ g. contains g k) (group_wave plan w [] [])
      (all_groups (map (λ w. group_wave plan w [] []) ws)),
  contains-append w (flatten ws) k,
)

all_groups-IsIndependent :
    (plan : Plan) (adj : Adjacency) (ws : List (List PlanStepId))
    → All (IsIndependent adj) ws
    → All (IsIndependent adj) (all_groups (map (λ w. group_wave plan w [] []) ws))
all_groups-IsIndependent plan adj [] h = tt
all_groups-IsIndependent plan adj (w ∷ ws) h =
    All-append (IsIndependent adj) (group_wave plan w [] []) _
      (All-map (Within w) (IsIndependent adj) (group_wave plan w [] [])
        (λ g within x d deps x_in entry d_in. h.0 x d deps (within x x_in) entry (within d d_in))
        (group_wave-Within plan w w [] [] (λ k c. c) tt (λ k c. cc)))
      (all_groups-IsIndependent plan adj ws h.1)

member_of :
    (groups : List Group) (id d : PlanStepId) (g : Group)
    → findb (λ group. contains group id) groups ≡ some g
    → contains g d ≡ true
    → anyb (λ group. contains group d) groups ≡ true
member_of [] id d g h c = cc
member_of (x ∷ groups) id d g h c = ground (arith, member_of groups id d g)

module _ (v : ValidatedPlan) (valid : topological_waves v.plan ≡ some v.waves) where
  any_group :
      (k : PlanStepId)
      → anyb (λ g. contains g k) (all_groups (schedule v).waves)
        ≡ contains (step_ids v.plan.steps) k
  unfolding schedule
  any_group k = rw (waves-schedule_waves v.plan v.waves [] []) (
      contains-all_groups v.plan v.waves k
      ∙ (topological_waves-IsOrdered v.plan v.waves valid).places k
      ∙ keys-known v.plan k)

  groups-IsIndependent : All (IsIndependent (adjacency v.plan)) (all_groups (schedule v).waves)
  unfolding schedule
  groups-IsIndependent = rw (waves-schedule_waves v.plan v.waves [] []) (
      all_groups-IsIndependent v.plan (adjacency v.plan) v.waves
        (topological_waves-IsOrdered v.plan v.waves valid).independent)

  -- In the schedule of a plan with its own waves, exactly the steps of the plan have a group.
  is_some-group_for :
      (id : PlanStepId) → is_some (group_for (schedule v) id) ≡ contains (step_ids v.plan.steps) id
  unfolding group_for
  is_some-group_for id =
      is_some-findb (λ g. contains g id) (all_groups (schedule v).waves) ∙ any_group id

  -- In the schedule of a plan with unique ids and its own waves, the group that is found for a step
  -- has that step in it, and no member of it depends on a member.
  pub group_for-independent :
      (id x d : PlanStepId) (g : Group) (s : PlanStep)
      → Unique v.plan.steps
      → group_for (schedule v) id ≡ some g
      → contains g x ≡ true
      → contains g d ≡ true
      → step v.plan x ≡ some s
      → (contains g id ≡ true) × (contains s.depends_on d ≡ false)
  unfolding group_for adjacency
  group_for-independent id x d g s u h x_in d_in found =
      let ids = step_ids v.plan.steps in
      let adj = adjacency v.plan in
      let groups = all_groups (schedule v).waves in
      let known : contains ids d ≡ true = sym (any_group d) ∙ member_of groups id d g h d_in in
      let free =
        All-findb (IsIndependent adj) (λ group. contains group id) groups g groups-IsIndependent
          h in
      let apart = free x d _ x_in (entry_of ids v.plan.steps [] x s u found) d_in in
      (
        findb_sound (λ group. contains group id) groups g h,
        ground (arith, contains-filterb (contains ids) s.depends_on d),
      )
