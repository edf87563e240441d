-- ===== src/Examples/Context.antt =====
-- The allocation of a concrete budget.
use valyria.Common.{option_eq, string_eq, nat_eq, ◌≤◌, ◌<◌, ◌≡◌, refl, ◌↔◌, none, [], ◌∷◌, arith}
use valyria.Context.Budget.{
  top_up, fill, floors, policy, repository, history, kind_eq, SectionSpec, ContextBudget, lesser,
  greater, usize_max, available, Tokens, tokens, Allocation, section_cap, total_allocated, ok,
  unbudgeted, allocate,
}
use valyria.Context.Budget.Floors.{Distinct, sum_of_floors}
use valyria.Context.Budget.Bounds.{allocate_feasible, allocate-total, allocate-spent}
use valyria.Context.Budget.Sections.{allocate-bounds}

abbrev repository_spec : SectionSpec
repository_spec = record { kind = repository; min = 0; ideal = 5; max = 10; priority = 100 }

-- Ten tokens for three sections.
abbrev budget : ContextBudget
budget = record {
  total_tokens = 12;
  reserve_for_output = 2;
  sections =
      record { kind = history; min = 2; ideal = 3; max = 4; priority = 60 }
      ∷ repository_spec
      ∷ record { kind = policy; min = 1; ideal = 2; max = 4; priority = 250 }
      ∷ [];
}

abbrev demand : Tokens
demand = (policy, 3) ∷ (repository, 20) ∷ (history, 1) ∷ []

abbrev allocation : Allocation
allocation = record {
  available = 10;
  per_section = (repository, 6) ∷ (policy, 3) ∷ (history, 1) ∷ [];
}

small : budget.total_tokens < usize_max
unfolding usize_max
small = omega arith

once : Distinct budget.sections
once = (refl, (refl, (refl, tt)))

allocated : allocate budget demand ≡ ok allocation
unfolding allocate floors usize_max fill top_up
allocated = refl

allocate_feasible_example : ((a : Allocation) × (allocate budget demand ≡ ok a)) ↔ (
    (unbudgeted budget demand ≡ none) × (sum_of_floors demand budget.sections ≤ available budget))
allocate_feasible_example = allocate_feasible budget demand small

allocate-total_example : total_allocated allocation ≤ available budget
allocate-total_example = allocate-total budget demand allocation once small allocated

more_room : section_cap allocation repository < repository_spec.max
unfolding section_cap
more_room = omega arith

more_wanted : section_cap allocation repository < tokens demand repository
unfolding section_cap
more_wanted = omega arith

allocate-spent_example : total_allocated allocation ≡ available budget
allocate-spent_example =
    allocate-spent budget demand allocation repository repository_spec once small allocated refl
      more_room more_wanted

allocate-bounds_example :
    (lesser repository_spec.min (tokens demand repository) ≤ section_cap allocation repository)
    × (section_cap allocation repository ≤ tokens demand repository)
    × (section_cap allocation repository
        ≤ greater repository_spec.min (greater repository_spec.ideal repository_spec.max))
allocate-bounds_example =
    allocate-bounds budget demand allocation repository repository_spec once allocated refl
