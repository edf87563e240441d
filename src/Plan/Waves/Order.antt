-- ===== src/Plan/Waves/Order.antt =====
-- The order of the waves of `topological_waves` in crates/valyria-plan/src/validate.rs.
use valyria.Common.{
  ℕ, zero, suc, true, false, not, ◌||◌, Option, none, some, List, [], ◌∷◌, ◌++◌, string_eq, ◌==◌,
  allb, contains, lookup, if◌then◌else◌, ◌≡◌, refl, arith, contains-filterb, ==_iff, Bool-cases,
  inl, inr, contains-append, subst, All,
}
use valyria.Plan.Model.{PlanStepId, Plan, step_ids}
use valyria.Plan.Waves.{Adjacency, ready, is_free, wave_of, remove_all, place_all, place, cons_wave}
use valyria.Plan.Waves.Sets.{contains-wave_of, contains-remove_all}

-- The steps of all waves, one after the other.
abbrev pub flatten : List (List PlanStepId) → List PlanStepId
flatten [] = []
flatten (w ∷ ws) = w ++ flatten ws

-- What stands before the first occurrence.
abbrev pub before : PlanStepId → List PlanStepId → List PlanStepId
before x [] = []
before x (y ∷ ys) = let rest = before x ys in if y == x then [] else y ∷ rest

pub contains-before-append :
    (x d : PlanStepId) (xs ys : List PlanStepId)
    → contains xs x ≡ false
    → contains (before x (xs ++ ys)) d ≡ (contains xs d || contains (before x ys) d)
contains-before-append x d [] ys h = refl
contains-before-append x d (y ∷ xs) ys h = ground (arith, contains-before-append x d xs ys)

contains-allb :
    (remaining deps : List PlanStepId) (d : PlanStepId)
    → allb (λ x. not (contains remaining x)) deps ≡ true
    → contains deps d ≡ true
    → contains remaining d ≡ false
contains-allb remaining [] d h c = cc
contains-allb remaining (x ∷ deps) d h c =
    ground (arith, contains-allb remaining deps d, ==_iff x d)

-- No step of the wave depends on another one of it.
abbrev pub IsIndependent : Adjacency → List PlanStepId → Type 0
IsIndependent adj wave =
    (x d : PlanStepId) (deps : List PlanStepId)
    → contains wave x ≡ true
    → lookup x adj ≡ some deps
    → contains wave d ≡ true
    → contains deps d ≡ false

-- What a round of the loop places, out of what remains.
pub record IsOrdered (adj : Adjacency) (remaining : List PlanStepId) (ws : List (List PlanStepId))
    : Type 0 where
  pub places : (k : PlanStepId) → contains (flatten ws) k ≡ contains remaining k
  pub dependencies_first :
      (x d : PlanStepId) (deps : List PlanStepId)
      → contains remaining x ≡ true
      → lookup x adj ≡ some deps
      → contains deps d ≡ true
      → contains remaining d ≡ true
      → contains (before x (flatten ws)) d ≡ true
  pub independent : All (IsIndependent adj) ws

some-cons_wave :
    (wave : List PlanStepId) (o : Option (List (List PlanStepId))) (ws : List (List PlanStepId))
    → cons_wave wave o ≡ some ws
    → (rest : List (List PlanStepId)) × (o ≡ some rest) × (wave ∷ rest ≡ ws)
some-cons_wave wave none ws h = cc
some-cons_wave wave (some rest) ws h = (rest, refl, cc)

pub contains-ready :
    (adj : Adjacency) (remaining : List PlanStepId) (k : PlanStepId)
    → contains (ready adj remaining) k
      ≡ (if is_free remaining (lookup k adj) then contains remaining k else false)
contains-ready adj remaining k =
    contains-filterb (λ id. is_free remaining (lookup id adj)) remaining k

module _ (plan : Plan) (adj : Adjacency) (remaining : List PlanStepId)
    (known : (k : PlanStepId)
      → contains remaining k ≡ true
      → contains (step_ids plan.steps) k ≡ true) where
  pub contains-wave :
      (k : PlanStepId)
      → contains (wave_of plan (ready adj remaining)) k
        ≡ (if is_free remaining (lookup k adj) then contains remaining k else false)
  contains-wave k = ground (
    arith,
    contains-wave_of plan (ready adj remaining) k,
    contains-ready adj remaining k,
    known k,
  )

  round-IsOrdered :
      (rest : List (List PlanStepId))
      → IsOrdered adj (remove_all (wave_of plan (ready adj remaining)) remaining) rest
      → IsOrdered adj remaining (wave_of plan (ready adj remaining) ∷ rest)
  round-IsOrdered rest ordered =
      let wave = wave_of plan (ready adj remaining) in
      let left = contains-remove_all wave remaining in
      record {
        places = λ k. ground (
          arith,
          contains-wave k,
          ordered.places k,
          left k,
          contains-append wave (flatten rest) k,
        );
        dependencies_first = λ x d deps x_in entry d_dep d_in. elim (Bool-cases (contains wave x)) [
          | inl placed ↦
              let none_left = contains-allb remaining deps d in
              ground (arith, none_left, contains-wave x)
          | inr later ↦ ground (
            arith,
            contains-before-append x d wave (flatten rest) later,
            left x,
            left d,
            ordered.dependencies_first x d deps,
          )
        ];
        independent = (
          λ x d deps x_in entry d_in. elim (Bool-cases (contains deps d)) [
            | inl is_dep ↦
                ground (arith, contains-allb remaining deps d, contains-wave x, contains-wave d)
            | inr free ↦ free
          ],
          ordered.independent,
        );
      }

  pub round-known :
      (k : PlanStepId)
      → contains (remove_all (wave_of plan (ready adj remaining)) remaining) k ≡ true
      → contains (step_ids plan.steps) k ≡ true
  round-known k h =
      ground (arith, contains-remove_all (wave_of plan (ready adj remaining)) remaining k, known k)

-- The waves that the loop returns are ordered, whatever its fuel was.
pub place_all-IsOrdered :
    (fuel : ℕ) (plan : Plan) (adj : Adjacency) (remaining : List PlanStepId)
    (ws : List (List PlanStepId))
    → ((k : PlanStepId) → contains remaining k ≡ true → contains (step_ids plan.steps) k ≡ true)
    → place_all fuel plan adj remaining ≡ some ws
    → IsOrdered adj remaining ws
unfolding place_all
place_all-IsOrdered fuel plan adj [] ws known h =
    let same : [] ≡ ws = cc in
    subst (IsOrdered adj []) same (record {
      places = λ k. refl;
      dependencies_first = λ x d deps x_in entry d_dep d_in. cc;
      independent = tt;
    })
place_all-IsOrdered zero plan adj (id ∷ ids) ws known h = cc
place_all-IsOrdered (suc fuel) plan adj (id ∷ ids) ws known h =
    from (λ rest. place_all-IsOrdered fuel plan adj _ rest (round-known plan adj (id ∷ ids) known))
      (ready adj (id ∷ ids)) refl h
  where
    from :
        ((rest : List (List PlanStepId))
          → place_all fuel plan adj (remove_all (wave_of plan (ready adj (id ∷ ids))) (id ∷ ids))
            ≡ some rest
          → IsOrdered adj (remove_all (wave_of plan (ready adj (id ∷ ids))) (id ∷ ids)) rest)
        → (chosen : List PlanStepId) → ready adj (id ∷ ids) ≡ chosen
        → place plan (id ∷ ids) chosen (place_all fuel plan adj) ≡ some ws
        → IsOrdered adj (id ∷ ids) ws
    from later [] e g = cc
    from later (r ∷ rs) e g =
        let wave = wave_of plan (ready adj (id ∷ ids)) in
        let same : cons_wave wave (place_all fuel plan adj (remove_all wave (id ∷ ids))) ≡ some ws =
          rw e g in
        let (rest, placed, whole) = some-cons_wave wave _ ws same in
        subst (IsOrdered adj (id ∷ ids)) whole
          (round-IsOrdered plan adj (id ∷ ids) known rest (later rest placed))
