-- ===== src/Plan/Waves/Progress.antt =====
-- When `topological_waves` of crates/valyria-plan/src/validate.rs finds waves, and when it stalls.
use valyria.Common.{
  allb, not, Option-cases, Bool-cases, inl, inr, true, false, lookup, contains, ℕ, zero, suc, ◌≤◌,
  ◌<◌, ◌+◌, Option, none, some, List, [], ◌∷◌, string_eq, filterb, insert, remove, length, ◌≡◌,
  refl, arith, ==_refl,
}
use valyria.Plan.Model.{PlanStepId, PlanStep, Plan, step_ids}
use valyria.Plan.Waves.{
  Adjacency, insert_all, adjacency, keys, ready, is_free, wave_of, remove_all, place_all, place,
  cons_wave, topological_waves,
}
use valyria.Plan.Waves.Sets.{length-remove_all-lt, contains-keys, is_some-lookup}
use valyria.Plan.Waves.Order.{
  contains-ready, contains-wave, round-known, IsOrdered, place_all-IsOrdered,
}

-- The step depends on a step of these.
pub record WaitsFor (adj : Adjacency) (stuck : List PlanStepId) (k : PlanStepId) : Type 0 where
  pub deps : List PlanStepId
  pub entry : lookup k adj ≡ some deps
  pub dependency : PlanStepId
  pub is_dependency : contains deps dependency ≡ true
  pub is_stuck : contains stuck dependency ≡ true

-- Steps that wait for each other: there is one, and each waits for one of them.
pub record IsStuck (adj : Adjacency) (stuck : List PlanStepId) : Type 0 where
  pub some_step : PlanStepId
  pub is_in : contains stuck some_step ≡ true
  pub waits : (k : PlanStepId) → contains stuck k ≡ true → WaitsFor adj stuck k

blocked_by :
    (stuck deps : List PlanStepId)
    → allb (λ d. not (contains stuck d)) deps ≡ false
    → (d : PlanStepId) × (contains deps d ≡ true) × (contains stuck d ≡ true)
blocked_by stuck [] h = cc
blocked_by stuck (x ∷ deps) h = elim (Bool-cases (contains stuck x)) [
  | inl e ↦ (x, ground (arith, ==_refl x), e)
  | inr e ↦
      let (d, is_dep, is_in) = blocked_by stuck deps (ground arith) in (d, ground arith, is_in)
]

stuck_entry :
    (adj : Adjacency) (stuck : List PlanStepId) (k : PlanStepId)
    → is_free stuck (lookup k adj) ≡ false
    → (deps : List PlanStepId) × (lookup k adj ≡ some deps)
      × (allb (λ d. not (contains stuck d)) deps ≡ false)
stuck_entry adj stuck k h = elim (Option-cases (lookup k adj)) [
  | inl e ↦ absurd (ground arith)
  | inr (deps, e) ↦ (deps, e, ground arith)
]

waits_for :
    (adj : Adjacency) (stuck : List PlanStepId) (k : PlanStepId)
    → is_free stuck (lookup k adj) ≡ false
    → WaitsFor adj stuck k
waits_for adj stuck k h =
    let (deps, entry, held) = stuck_entry adj stuck k h in
    let (d, is_dep, is_in) = blocked_by stuck deps held in
    record { deps = deps; entry = entry; dependency = d; is_dependency = is_dep; is_stuck = is_in }

none-cons_wave :
    (wave : List PlanStepId) (o : Option (List (List PlanStepId)))
    → cons_wave wave o ≡ none
    → o ≡ none
none-cons_wave wave none h = refl
none-cons_wave wave (some ws) h = cc

stall :
    (adj : Adjacency) (id : PlanStepId) (ids : List PlanStepId)
    → ready adj (id ∷ ids) ≡ []
    → IsStuck adj (id ∷ ids)
stall adj id ids e = record {
  some_step = id;
  is_in = ground (arith, ==_refl id);
  waits = λ k h.
      let chosen : contains (ready adj (id ∷ ids)) k ≡ false = rw e refl in
      waits_for adj (id ∷ ids) k (ground (arith, contains-ready adj (id ∷ ids) k));
}

length-round :
    (plan : Plan) (adj : Adjacency) (remaining : List PlanStepId) (r : PlanStepId)
    (rs : List PlanStepId)
    → ((k : PlanStepId) → contains remaining k ≡ true → contains (step_ids plan.steps) k ≡ true)
    → ready adj remaining ≡ r ∷ rs
    → length (remove_all (wave_of plan (ready adj remaining)) remaining) < length remaining
length-round plan adj remaining r rs known e =
    let chosen : contains (ready adj remaining) r ≡ true = rw e (ground (arith, ==_refl r)) in
    from (wave_of plan (ready adj remaining))
      (ground (arith, contains-wave plan adj remaining known r, contains-ready adj remaining r))
      (ground (arith, contains-ready adj remaining r))
      (λ k h. ground (arith, contains-wave plan adj remaining known k))
  where
    from :
        (wave : List PlanStepId)
        → contains wave r ≡ true
        → contains remaining r ≡ true
        → ((k : PlanStepId) → contains wave k ≡ true → contains remaining k ≡ true)
        → length (remove_all wave remaining) < length remaining
    from [] h here sub = cc
    from (w ∷ ws) h here sub =
        length-remove_all-lt w ws remaining (sub w (ground (arith, ==_refl w)))

-- With fuel for as many rounds as there are steps left the loop fails only at a stall.
pub place_all-IsStuck :
    (fuel : ℕ) (plan : Plan) (adj : Adjacency) (remaining : List PlanStepId)
    → length remaining ≤ fuel
    → ((k : PlanStepId) → contains remaining k ≡ true → contains (step_ids plan.steps) k ≡ true)
    → place_all fuel plan adj remaining ≡ none
    → (stuck : List PlanStepId) × IsStuck adj stuck
unfolding place_all
place_all-IsStuck fuel plan adj [] l known h = cc
place_all-IsStuck zero plan adj (id ∷ ids) l known h = absurd (omega arith)
place_all-IsStuck (suc fuel) plan adj (id ∷ ids) l known h =
    from
      (λ shorter. place_all-IsStuck fuel plan adj _ shorter (round-known plan adj (id ∷ ids) known))
      (ready adj (id ∷ ids)) refl h
  where
    from :
        (length (remove_all (wave_of plan (ready adj (id ∷ ids))) (id ∷ ids)) ≤ fuel
          → place_all fuel plan adj (remove_all (wave_of plan (ready adj (id ∷ ids))) (id ∷ ids))
            ≡ none
          → (stuck : List PlanStepId) × IsStuck adj stuck)
        → (chosen : List PlanStepId) → ready adj (id ∷ ids) ≡ chosen
        → place plan (id ∷ ids) chosen (place_all fuel plan adj) ≡ none
        → (stuck : List PlanStepId) × IsStuck adj stuck
    from later [] e g = (id ∷ ids, stall adj id ids e)
    from later (r ∷ rs) e g =
        let wave = wave_of plan (ready adj (id ∷ ids)) in
        let same : cons_wave wave (place_all fuel plan adj (remove_all wave (id ∷ ids))) ≡ none =
          rw e g in
        later (omega (arith, length-round plan adj (id ∷ ids) r rs known e))
          (none-cons_wave wave _ same)

length-remove : (id : PlanStepId) (adj : Adjacency) → length (remove id adj) ≤ length adj
length-remove id [] = omega arith
length-remove id ((j, deps) ∷ adj) = ground (arith, length-remove id adj)

length-insert_all :
    (ids : List PlanStepId) (steps : List PlanStep) (adj : Adjacency)
    → length (keys (insert_all ids steps adj)) ≤ length steps + length adj
length-insert_all ids [] adj = length-keys adj
  where
    length-keys : (m : Adjacency) → length (keys m) ≤ 0 + length m
    length-keys [] = omega arith
    length-keys ((j, deps) ∷ m) = omega (arith, length-keys m)
length-insert_all ids (s ∷ ss) adj = omega (
  arith,
  length-insert_all ids ss (insert s.id (filterb (contains ids) s.depends_on) adj),
  length-remove s.id adj,
)

pub keys-known :
    (plan : Plan) (k : PlanStepId)
    → contains (keys (adjacency plan)) k ≡ contains (step_ids plan.steps) k
unfolding adjacency
keys-known plan k =
    let ids = step_ids plan.steps in
    ground
      (arith, contains-keys (insert_all ids plan.steps []) k, is_some-lookup ids plan.steps [] k)

pub topological_waves-IsStuck :
    (plan : Plan)
    → topological_waves plan ≡ none
    → (stuck : List PlanStepId) × IsStuck (adjacency plan) stuck
unfolding topological_waves adjacency
topological_waves-IsStuck plan h =
    place_all-IsStuck (length plan.steps) plan (adjacency plan) (keys (adjacency plan))
      (omega (arith, length-insert_all (step_ids plan.steps) plan.steps []))
      (λ k e. ground (arith, keys-known plan k)) h

pub topological_waves-IsOrdered :
    (plan : Plan) (ws : List (List PlanStepId))
    → topological_waves plan ≡ some ws
    → IsOrdered (adjacency plan) (keys (adjacency plan)) ws
unfolding topological_waves
topological_waves-IsOrdered plan ws h =
    place_all-IsOrdered (length plan.steps) plan (adjacency plan) (keys (adjacency plan)) ws
      (λ k e. ground (arith, keys-known plan k)) h
