-- ===== src/Context/Budget/Bounds.antt =====
-- When an allocation is possible, and what each section is given:
-- crates/valyria-context/src/budget.rs.
use valyria.Context.Budget.Rounds.{fill-Reached, Reached, fill-Balanced, Balanced}
use valyria.Common.{
  subst, All-sort_by_back, findb_sound, ◌∙◌, Bool-cases, inl, inr, All-findb, Option-cases, true,
  false, ltb, sort_by, ℕ, ◌-◌, ◌≤◌, ◌<◌, ◌≡◌, ◌↔◌, ap, none, some, [], arith, ◌==◌,
}
use valyria.Context.Budget.{
  lesser, unbudgeted_section, budget_infeasible, err, usize_max, unbudgeted, fill, goes_before,
  phases, SectionKind, kind_eq, kind_eqb_iff, Tokens, tokens, total, floors, SectionSpec, spec,
  ContextBudget, Allocation, allocate, available, section_cap, total_allocated, ok,
}
use valyria.Context.Budget.Floors.{Fresh-nil, floors-sum, total-floors, Distinct, sum_of_floors}

-- The tokens after the three phases, and those that remain.
unfoldable pub topped : ContextBudget → Tokens → Tokens × ℕ
topped budget demand =
    let order = sort_by goes_before budget.sections in
    let start = floors demand budget.sections ([], 0) in
    fill demand (λ s. s.max) order
      (fill demand (λ s. s.ideal) order (start.0, available budget - start.1))

abbrev pub floor_total : ContextBudget → Tokens → ℕ
floor_total budget demand = (floors demand budget.sections ([], 0)).1

phases-ok :
    (budget : ContextBudget) (demand : Tokens)
    → ltb (available budget) (floor_total budget demand) ≡ false
    → phases budget demand (floors demand budget.sections ([], 0))
      ≡ ok (record { available = available budget; per_section = (topped budget demand).0 })
unfolding phases topped
phases-ok budget demand h = rw h

phases-err :
    (budget : ContextBudget) (demand : Tokens)
    → ltb (available budget) (floor_total budget demand) ≡ true
    → phases budget demand (floors demand budget.sections ([], 0))
      ≡ err (budget_infeasible (floor_total budget demand) (available budget))
unfolding phases
phases-err budget demand h = rw h

allocate_lem :
    (budget : ContextBudget) (demand : Tokens)
    → unbudgeted budget demand ≡ none
    → allocate budget demand ≡ phases budget demand (floors demand budget.sections ([], 0))
unfolding allocate
allocate_lem budget demand h = rw (h, allocate)

allocate-unbudgeted :
    (budget : ContextBudget) (demand : Tokens) (kind : SectionKind)
    → unbudgeted budget demand ≡ some kind
    → allocate budget demand ≡ err (unbudgeted_section kind)
unfolding allocate
allocate-unbudgeted budget demand kind h = rw (h, allocate)

-- A result that is an allocation.
pub allocate-ok :
    (budget : ContextBudget) (demand : Tokens) (a : Allocation)
    → allocate budget demand ≡ ok a
    → (floor_total budget demand ≤ available budget)
      × (a ≡ record { available = available budget; per_section = (topped budget demand).0 })
allocate-ok budget demand a h = elim (Option-cases (unbudgeted budget demand)) [
  | inr (kind, e) ↦ absurd (let bad = allocate-unbudgeted budget demand kind e in cc)
  | inl e ↦ elim (Bool-cases (ltb (available budget) (floor_total budget demand))) [
    | inl t ↦ absurd (let bad = allocate_lem budget demand e ∙ phases-err budget demand t in cc)
    | inr f ↦
        let good = allocate_lem budget demand e ∙ phases-ok budget demand f in (ground arith, cc)
  ]
]

-- With no kind twice in the budget and less than the greatest number of tokens in all, an
-- allocation is made exactly if every kind that is asked for has a section and the floors of the
-- sections, each the lesser of its minimum and of what is asked for, fit the available tokens.
pub allocate_feasible :
    (budget : ContextBudget) (demand : Tokens)
    → budget.total_tokens < usize_max
    → ((a : Allocation) × (allocate budget demand ≡ ok a)) ↔ (
        (unbudgeted budget demand ≡ none)
        × (sum_of_floors demand budget.sections ≤ available budget))
allocate_feasible budget demand small = (there, back)
  where
    sum : floor_total budget demand ≡ lesser (sum_of_floors demand budget.sections) usize_max
    sum = ground (arith, floors-sum demand budget.sections ([], 0) (omega arith))

    there :
        ((a : Allocation) × (allocate budget demand ≡ ok a))
        → (unbudgeted budget demand ≡ none)
          × (sum_of_floors demand budget.sections ≤ available budget)
    there (a, h) = elim (Option-cases (unbudgeted budget demand)) [
      | inl e ↦ (e, ground (arith, sum, (allocate-ok budget demand a h).0))
      | inr (kind, e) ↦ absurd (let bad = allocate-unbudgeted budget demand kind e in cc)
    ]

    back :
        (unbudgeted budget demand ≡ none)
          × (sum_of_floors demand budget.sections ≤ available budget)
        → (a : Allocation) × (allocate budget demand ≡ ok a)
    back (e, fits) =
        (_, allocate_lem budget demand e ∙ phases-ok budget demand (ground (arith, sum)))

start-Balanced :
    (budget : ContextBudget) (demand : Tokens)
    → Distinct budget.sections
    → floor_total budget demand ≤ available budget
    → budget.total_tokens < usize_max
    → Balanced
        (available budget)
        ((floors demand budget.sections ([], 0)).0, available budget - floor_total budget demand)
start-Balanced budget demand d fits small =
    let (unique, total) = total-floors demand budget.sections ([], 0) tt d (Fresh-nil _) in
    record {
      unique = unique;
      sum = ground (arith, total, floors-sum demand budget.sections ([], 0) (omega arith));
    }

topped-Balanced :
    (budget : ContextBudget) (demand : Tokens)
    → Distinct budget.sections
    → floor_total budget demand ≤ available budget
    → budget.total_tokens < usize_max
    → Balanced (available budget) (topped budget demand)
unfolding topped
topped-Balanced budget demand d fits small =
    fill-Balanced _ demand (λ s. s.max) (sort_by goes_before budget.sections) _
      (fill-Balanced _ demand (λ s. s.ideal) (sort_by goes_before budget.sections) _
        (start-Balanced budget demand d fits small))

-- If no kind is twice in the budget, and it has less than the greatest number of tokens in all, an
-- allocation gives the sections no more than the available tokens in all.
pub allocate-total :
    (budget : ContextBudget) (demand : Tokens) (a : Allocation)
    → Distinct budget.sections
    → budget.total_tokens < usize_max
    → allocate budget demand ≡ ok a
    → total_allocated a ≤ available budget
unfolding total_allocated
allocate-total budget demand a d small h =
    let (fits, e) = allocate-ok budget demand a h in
    let b = topped-Balanced budget demand d fits small in
    omega (arith, b.sum, ap (λ (x : Allocation). total x.per_section) e)

-- No kind is twice in the budget, and it has less than the greatest number of tokens in all. Then,
-- if an allocation gives a section of the budget less than its maximum and less than what is asked
-- for it, all of the available tokens are given out.
pub allocate-spent :
    (budget : ContextBudget) (demand : Tokens) (a : Allocation) (kind : SectionKind)
    (s : SectionSpec)
    → Distinct budget.sections
    → budget.total_tokens < usize_max
    → allocate budget demand ≡ ok a
    → spec budget kind ≡ some s
    → section_cap a kind < s.max
    → section_cap a kind < tokens demand kind
    → total_allocated a ≡ available budget
unfolding total_allocated section_cap topped
allocate-spent budget demand a kind s d small h at low wanted =
    let (fits, e) = allocate-ok budget demand a h in
    let b = topped-Balanced budget demand d fits small in
    let reached =
      All-findb (Reached demand (λ t. t.max) (topped budget demand)) (λ t. t.kind == kind)
        budget.sections s
        (All-sort_by_back (Reached demand (λ t. t.max) (topped budget demand)) goes_before
          budget.sections
          (fill-Reached demand (λ t. t.max) (sort_by goes_before budget.sections) _))
        at in
    let same : s.kind ≡ kind =
      (kind_eqb_iff s.kind kind).0
        (findb_sound (λ (t : SectionSpec). t.kind == kind) budget.sections s at) in
    let given : tokens a.per_section kind ≡ tokens (topped budget demand).0 kind =
      ap (λ (x : Allocation). tokens x.per_section kind) e in
    elim reached [
      | inl spent ↦ omega (arith, b.sum, ap (λ (x : Allocation). total x.per_section) e, spent)
      | inr full ↦
          let here =
            subst (λ k. lesser s.max (tokens demand k) ≤ tokens (topped budget demand).0 k) same
              full in
          absurd (ground (arith, here, given))
    ]
