-- ===== src/Context/Budget/Sections.antt =====
-- What one section is given: crates/valyria-context/src/budget.rs.
use valyria.Context.Budget.Rounds.{fill_mono, fill-le, aim}
use valyria.Context.Budget.Bounds.{floor_total, allocate-ok, topped}
use valyria.Common.{
  inr, ap, inl, ◌-◌, ◌==◌, sym, subst, All-map, All-sort_by, [], findb_sound, sort_by, Bool-cases,
  arith, ◌∷◌, All, some, none, ℕ, List, nat_eq, ◌≤◌, ◌≡◌,
}
use valyria.Context.Budget.{
  available, floors, goes_before, floor_of, spec, fill, ok, tokens, allocate, Allocation,
  ContextBudget, spec_in, section_cap, Tokens, SectionSpec, SectionKind, kind_eq, kind_eqb_iff,
  lesser, greater,
}
use valyria.Context.Budget.Floors.{tokens-floors, Distinct}

no_section :
    (kind : SectionKind) (specs : List SectionSpec) (s : SectionSpec)
    → spec_in kind specs ≡ none
    → All (λ t. t.kind ≡ kind → t ≡ s) specs
no_section kind [] s h = tt
no_section kind (t ∷ rest) s h = (
  λ k. absurd (ground (arith, h, kind_eqb_iff t.kind kind)),
  no_section kind rest s (ground (arith, h)),
)

-- The only section of a kind.
the_section :
    (kind : SectionKind) (specs : List SectionSpec) (s : SectionSpec)
    → Distinct specs
    → spec_in kind specs ≡ some s
    → All (λ t. t.kind ≡ kind → t ≡ s) specs
the_section kind [] s d h = tt
the_section kind (t ∷ rest) s d h = elim (Bool-cases (t.kind == kind)) [
  | inl e ↦
      let same : t.kind ≡ kind = (kind_eqb_iff t.kind kind).0 e in
      (λ k. ground (arith, h), no_section kind rest s (subst (λ j. spec_in j rest ≡ none) same d.0))
  | inr f ↦ (
    λ k. absurd (ground (arith, kind_eqb_iff t.kind kind)),
    the_section kind rest s d.1 (ground (arith, h)),
  )
]

-- A bound of the section's own target bounds its tokens.
fill-le_section :
    (demand : Tokens) (target : SectionSpec → ℕ) (specs : List SectionSpec) (acc : Tokens × ℕ)
    (kind : SectionKind) (s : SectionSpec) (bound : ℕ)
    → Distinct specs
    → spec_in kind specs ≡ some s
    → aim demand (target s) s ≤ bound
    → tokens acc.0 kind ≤ bound
    → tokens (fill demand target (sort_by goes_before specs) acc).0 kind ≤ bound
fill-le_section demand target specs acc kind s bound d at low before =
    fill-le demand target (sort_by goes_before specs) acc kind bound
      (All-sort_by (λ t. t.kind ≡ kind → aim demand (target t) t ≤ bound) goes_before specs
        (All-map (λ t. t.kind ≡ kind → t ≡ s) (λ t. t.kind ≡ kind → aim demand (target t) t ≤ bound)
          specs (λ t same k. subst (λ r. aim demand (target r) r ≤ bound) (sym (same k)) low)
          (the_section kind specs s d at)))
      before

topped-bounds :
    (budget : ContextBudget) (demand : Tokens) (kind : SectionKind) (s : SectionSpec) (bound : ℕ)
    → Distinct budget.sections
    → spec budget kind ≡ some s
    → floor_of demand s ≤ bound
    → aim demand s.ideal s ≤ bound
    → aim demand s.max s ≤ bound
    → (floor_of demand s ≤ tokens (topped budget demand).0 kind)
      × (tokens (topped budget demand).0 kind ≤ bound)
unfolding topped
topped-bounds budget demand kind s bound d at f i m =
    let start = tokens-floors demand budget.sections ([], 0) kind s d at in
    let order = sort_by goes_before budget.sections in
    let acc : Tokens × ℕ =
      ((floors demand budget.sections ([], 0)).0, available budget - floor_total budget demand) in
    (
      omega (
        arith,
        start,
        fill_mono demand (λ t. t.ideal) order acc kind,
        fill_mono demand (λ t. t.max) order (fill demand (λ t. t.ideal) order acc) kind,
      ),
      fill-le_section demand (λ t. t.max) budget.sections (fill demand (λ t. t.ideal) order acc)
          kind s bound d at m
          (fill-le_section demand (λ t. t.ideal) budget.sections acc kind s bound d at i
            (omega (arith, start, f))),
    )

-- If no kind is twice in the budget, an allocation gives a section of the budget at least its floor,
-- which is the lesser of its minimum and of what is asked for it, and at most what is asked for it,
-- and at most the greatest of its minimum, its ideal and its maximum.
pub allocate-bounds :
    (budget : ContextBudget) (demand : Tokens) (a : Allocation) (kind : SectionKind)
    (s : SectionSpec)
    → Distinct budget.sections
    → allocate budget demand ≡ ok a
    → spec budget kind ≡ some s
    → (lesser s.min (tokens demand kind) ≤ section_cap a kind)
      × (section_cap a kind ≤ tokens demand kind)
      × (section_cap a kind ≤ greater s.min (greater s.ideal s.max))
unfolding section_cap
allocate-bounds budget demand a kind s d h at =
    let (fits, e) = allocate-ok budget demand a h in
    let same : s.kind ≡ kind =
      (kind_eqb_iff s.kind kind).0
        (findb_sound (λ (t : SectionSpec). t.kind == kind) budget.sections s at) in
    let want : tokens demand s.kind ≡ tokens demand kind = ap (tokens demand) same in
    let (low, high) =
      topped-bounds budget demand kind s
        (lesser (tokens demand s.kind) (greater s.min (greater s.ideal s.max))) d at (ground arith)
        (ground arith) (ground arith) in
    let given : tokens a.per_section kind ≡ tokens (topped budget demand).0 kind =
      ap (λ (x : Allocation). tokens x.per_section kind) e in
    (
      ground (arith, low, want, given),
      ground (arith, high, want, given),
      ground (arith, high, given),
    )
