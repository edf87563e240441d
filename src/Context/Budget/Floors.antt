-- ===== src/Context/Budget/Floors.antt =====
-- Phase 1, the floors of the sections: crates/valyria-context/src/budget.rs.
use valyria.Context.Budget.Totals.{total-insert, insert-Unique, tokens-insert, Unique}
use valyria.Common.{
  inr, ◌∙◌, subst, inl, Bool-cases, All, insert, nat_eq, ℕ, ◌+◌, ◌≤◌, ◌≡◌, refl, ap, none, some,
  List, [], ◌∷◌, arith, ◌==◌,
}
use valyria.Context.Budget.{
  lesser, saturating_add, usize_max, floor_of, SectionKind, kind_eq, kind_eqb_iff, Tokens, tokens,
  total, floors, SectionSpec, spec_in,
}

-- No two sections are of one kind.
abbrev pub Distinct : List SectionSpec → Type 0
Distinct [] = Unit
Distinct (s ∷ rest) = (spec_in s.kind rest ≡ none) × Distinct rest

-- The sum of the floors, with no upper end.
pub sum_of_floors : Tokens → List SectionSpec → ℕ
sum_of_floors demand [] = 0
sum_of_floors demand (s ∷ rest) = floor_of demand s + sum_of_floors demand rest

floors_other :
    (demand : Tokens) (specs : List SectionSpec) (acc : Tokens × ℕ) (k : SectionKind)
    → spec_in k specs ≡ none
    → tokens (floors demand specs acc).0 k ≡ tokens acc.0 k
unfolding floors
floors_other demand [] acc k h = refl
floors_other demand (s ∷ rest) (alloc, sum) k h = ground (
  arith,
  floors_other demand rest
      (insert s.kind (floor_of demand s) alloc, saturating_add sum (floor_of demand s)) k,
  tokens-insert s.kind k (floor_of demand s) alloc,
)

pub tokens-floors :
    (demand : Tokens) (specs : List SectionSpec) (acc : Tokens × ℕ) (k : SectionKind)
    (s : SectionSpec)
    → Distinct specs
    → spec_in k specs ≡ some s
    → tokens (floors demand specs acc).0 k ≡ floor_of demand s
unfolding floors
tokens-floors demand [] acc k s d h = cc
tokens-floors demand (t ∷ rest) (alloc, sum) k s d h = elim (Bool-cases (t.kind == k)) [
  | inl e ↦
      let same : t.kind ≡ k = (kind_eqb_iff t.kind k).0 e in
      let it : t ≡ s = ground (arith, h) in
      floors_other demand rest
        (insert t.kind (floor_of demand t) alloc, saturating_add sum (floor_of demand t)) k
        (subst (λ j. spec_in j rest ≡ none) same d.0)
      ∙ tokens-insert t.kind k (floor_of demand t) alloc
      ∙ rw e (ap (floor_of demand) it)
  | inr f ↦
      tokens-floors demand rest
        (insert t.kind (floor_of demand t) alloc, saturating_add sum (floor_of demand t)) k s d.1
        (rw f at h)
]

-- The sum that is computed is the true one, unless it stops at the greatest number.
pub floors-sum :
    (demand : Tokens) (specs : List SectionSpec) (acc : Tokens × ℕ)
    → acc.1 ≤ usize_max
    → (floors demand specs acc).1 ≡ lesser (acc.1 + sum_of_floors demand specs) usize_max
unfolding floors sum_of_floors
floors-sum demand [] acc h = ground arith
floors-sum demand (s ∷ rest) (alloc, sum) h = ground (
  arith,
  floors-sum demand rest
      (insert s.kind (floor_of demand s) alloc, lesser (sum + floor_of demand s) usize_max),
)

-- Nothing has been given yet to the sections of the list.
abbrev pub Fresh : Tokens → List SectionSpec → Type 0
Fresh alloc = All λ s. tokens alloc s.kind ≡ 0

insert-Fresh :
    (k : SectionKind) (v : ℕ) (alloc : Tokens) (rest : List SectionSpec)
    → spec_in k rest ≡ none
    → Fresh alloc rest
    → Fresh (insert k v alloc) rest
insert-Fresh k v alloc [] h f = tt
insert-Fresh k v alloc (s ∷ rest) h f = (
  ground (arith, tokens-insert k s.kind v alloc, kind_eqb_iff k s.kind, kind_eqb_iff s.kind k, f.0),
  insert-Fresh k v alloc rest (ground (arith, h)) f.1,
)

pub total-floors :
    (demand : Tokens) (specs : List SectionSpec) (acc : Tokens × ℕ)
    → Unique acc.0
    → Distinct specs
    → Fresh acc.0 specs
    → Unique (floors demand specs acc).0
      × (total (floors demand specs acc).0 ≡ total acc.0 + sum_of_floors demand specs)
unfolding floors sum_of_floors
total-floors demand [] acc u d f = (u, omega arith)
total-floors demand (s ∷ rest) (alloc, sum) u d f =
    let (u', t) =
      total-floors demand rest
        (insert s.kind (floor_of demand s) alloc, saturating_add sum (floor_of demand s))
        (insert-Unique s.kind (floor_of demand s) alloc u) d.1
        (insert-Fresh s.kind (floor_of demand s) alloc rest d.0 f.1) in
    (u', omega (arith, t, total-insert s.kind (floor_of demand s) alloc u, f.0))

pub Fresh-nil : (specs : List SectionSpec) → Fresh [] specs
Fresh-nil [] = tt
Fresh-nil (s ∷ rest) = (refl, Fresh-nil rest)
