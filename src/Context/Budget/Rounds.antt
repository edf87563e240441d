-- ===== src/Context/Budget/Rounds.antt =====
-- The rounds of phases 2 and 3: crates/valyria-context/src/budget.rs.
use valyria.Common.{
  sym, subst, ◌∙◌, ap, All, true, nat_eq, leb→le, leb, ◌⊎◌, ℕ, ◌+◌, ◌-◌, ◌≤◌, ◌≡◌, refl, List, [],
  ◌∷◌, arith, ◌==◌, Bool-cases, inl, inr, if◌then◌else◌, ltb,
}
use valyria.Context.Budget.{
  lesser, SectionKind, kind_eq, kind_eqb_iff, Tokens, tokens, total, top_up, fill, SectionSpec,
}
use valyria.Context.Budget.Totals.{total-insert, insert-Unique, tokens-insert, Unique}

-- The tokens so far and those that remain are `all` together.
pub record Balanced (all : ℕ) (acc : Tokens × ℕ) : Type 0 where
  pub unique : Unique acc.0
  pub sum : total acc.0 + acc.1 ≡ all

abbrev pub aim : Tokens → ℕ → SectionSpec → ℕ
aim demand target s = lesser target (tokens demand s.kind)

-- What a section of `current` tokens has after its round.
abbrev raised : ℕ → ℕ → ℕ → ℕ
raised aim current remaining =
    if ltb current aim then current + lesser (aim - current) remaining else current

tokens-top_up :
    (demand : Tokens) (target : ℕ) (s : SectionSpec) (acc : Tokens × ℕ) (k : SectionKind)
    → tokens (top_up demand target s acc).0 k ≡ (
        if s.kind == k
        then raised (aim demand target s) (tokens acc.0 s.kind) acc.1
        else tokens acc.0 k)
unfolding top_up
tokens-top_up demand target s (alloc, remaining) k =
    elim (Bool-cases (ltb (tokens alloc s.kind) (aim demand target s))) [
      | inl t ↦ rw t (
          tokens-insert s.kind k
            (tokens alloc s.kind + lesser (aim demand target s - tokens alloc s.kind) remaining)
            alloc)
      | inr f ↦ rw f (ground (arith, kind_eqb_iff s.kind k))
    ]

remaining-top_up :
    (demand : Tokens) (target : ℕ) (s : SectionSpec) (acc : Tokens × ℕ)
    → (top_up demand target s acc).1 + raised (aim demand target s) (tokens acc.0 s.kind) acc.1
      ≡ acc.1 + tokens acc.0 s.kind
unfolding top_up
remaining-top_up demand target s (alloc, remaining) =
    elim (Bool-cases (ltb (tokens alloc s.kind) (aim demand target s))) [
      | inl t ↦ rw t (ground arith)
      | inr f ↦ rw f refl
    ]

top_up-Balanced :
    (all : ℕ) (demand : Tokens) (target : ℕ) (s : SectionSpec) (acc : Tokens × ℕ)
    → Balanced all acc
    → Balanced all (top_up demand target s acc)
unfolding top_up
top_up-Balanced all demand target s (alloc, remaining) b =
    elim (Bool-cases (ltb (tokens alloc s.kind) (aim demand target s))) [
      | inl t ↦ rw t (record {
        unique =
            insert-Unique s.kind
              (tokens alloc s.kind + lesser (aim demand target s - tokens alloc s.kind) remaining)
              alloc b.unique;
        sum = ground (
          arith,
          total-insert s.kind
              (tokens alloc s.kind + lesser (aim demand target s - tokens alloc s.kind) remaining)
              alloc b.unique,
          b.sum,
        );
      })
      | inr f ↦ rw f b
    ]

pub fill-Balanced :
    (all : ℕ) (demand : Tokens) (target : SectionSpec → ℕ) (order : List SectionSpec)
    (acc : Tokens × ℕ)
    → Balanced all acc
    → Balanced all (fill demand target order acc)
unfolding fill
fill-Balanced all demand target [] acc b = b
fill-Balanced all demand target (s ∷ order) acc b = elim (Bool-cases (acc.1 == 0)) [
  | inl t ↦ rw t b
  | inr f ↦
      rw f (fill-Balanced all demand target order _ (top_up-Balanced all demand (target s) s acc b))
]

-- A section never loses tokens.
top_up_mono :
    (demand : Tokens) (target : ℕ) (s : SectionSpec) (acc : Tokens × ℕ) (k : SectionKind)
    → tokens acc.0 k ≤ tokens (top_up demand target s acc).0 k
top_up_mono demand target s acc k =
    ground (arith, kind_eqb_iff s.kind k, tokens-top_up demand target s acc k)

pub fill_mono :
    (demand : Tokens) (target : SectionSpec → ℕ) (order : List SectionSpec) (acc : Tokens × ℕ)
    (k : SectionKind)
    → tokens acc.0 k ≤ tokens (fill demand target order acc).0 k
unfolding fill
fill_mono demand target [] acc k = omega arith
fill_mono demand target (s ∷ order) acc k = ground (
  arith,
  top_up_mono demand (target s) s acc k,
  fill_mono demand target order (top_up demand (target s) s acc) k,
)

-- Every section of the list has its target, or nothing remains.
abbrev pub Reached : Tokens → (SectionSpec → ℕ) → Tokens × ℕ → SectionSpec → Type 0
Reached demand target acc s = (acc.1 ≡ 0) ⊎ (aim demand (target s) s ≤ tokens acc.0 s.kind)

top_up-Reached :
    (demand : Tokens) (target : SectionSpec → ℕ) (s : SectionSpec) (acc : Tokens × ℕ)
    → Reached demand target (top_up demand (target s) s acc) s
top_up-Reached demand target s acc =
    elim (Bool-cases
      (leb (aim demand (target s) s) (tokens (top_up demand (target s) s acc).0 s.kind))) [
        | inl t ↦ inr (leb→le _ _ t)
        | inr f ↦ inl (
            ground (
              arith,
              remaining-top_up demand (target s) s acc,
              tokens-top_up demand (target s) s acc s.kind,
              kind_eqb_iff s.kind s.kind,
            ))
      ]

pub fill_spent :
    (demand : Tokens) (target : SectionSpec → ℕ) (order : List SectionSpec) (acc : Tokens × ℕ)
    → acc.1 ≡ 0
    → fill demand target order acc ≡ acc
unfolding fill
fill_spent demand target [] acc h = refl
fill_spent demand target (s ∷ order) acc h = let e : (acc.1 == 0) ≡ true = ground arith in rw e

all_spent :
    (demand : Tokens) (target : SectionSpec → ℕ) (order : List SectionSpec) (acc : Tokens × ℕ)
    → acc.1 ≡ 0
    → All (Reached demand target acc) order
all_spent demand target [] acc h = tt
all_spent demand target (s ∷ order) acc h = (inl h, all_spent demand target order acc h)

fill-keeps :
    (demand : Tokens) (target : SectionSpec → ℕ) (order : List SectionSpec) (acc : Tokens × ℕ)
    (s : SectionSpec)
    → Reached demand target acc s
    → Reached demand target (fill demand target order acc) s
fill-keeps demand target order acc s (inl spent) =
    inl (ap (λ (a : Tokens × ℕ). a.1) (fill_spent demand target order acc spent) ∙ spent)
fill-keeps demand target order acc s (inr full) =
    inr (omega (arith, full, fill_mono demand target order acc s.kind))

pub fill-Reached :
    (demand : Tokens) (target : SectionSpec → ℕ) (order : List SectionSpec) (acc : Tokens × ℕ)
    → All (Reached demand target (fill demand target order acc)) order
unfolding fill
fill-Reached demand target [] acc = tt
fill-Reached demand target (s ∷ order) acc = elim (Bool-cases (acc.1 == 0)) [
  | inl t ↦
      subst
        (λ b.
          All
            (Reached demand target
              (if b then acc else fill demand target order (top_up demand (target s) s acc)))
            (s ∷ order))
        (sym t) (all_spent demand target (s ∷ order) acc (ground arith))
  | inr f ↦
      subst
        (λ b.
          All
            (Reached demand target
              (if b then acc else fill demand target order (top_up demand (target s) s acc)))
            (s ∷ order))
        (sym f)
        (
          fill-keeps demand target order (top_up demand (target s) s acc) s
              (top_up-Reached demand target s acc),
          fill-Reached demand target order (top_up demand (target s) s acc),
        )
]

-- A section stays below a bound that its targets respect.
pub fill-le :
    (demand : Tokens) (target : SectionSpec → ℕ) (order : List SectionSpec) (acc : Tokens × ℕ)
    (k : SectionKind) (bound : ℕ)
    → All (λ t. t.kind ≡ k → aim demand (target t) t ≤ bound) order
    → tokens acc.0 k ≤ bound
    → tokens (fill demand target order acc).0 k ≤ bound
unfolding fill
fill-le demand target [] acc k bound h low = low
fill-le demand target (s ∷ order) acc k bound h low =
    let next : tokens (top_up demand (target s) s acc).0 k ≤ bound =
      elim (Bool-cases (s.kind == k)) [
        | inl t ↦
            let same : s.kind ≡ k = (kind_eqb_iff s.kind k).0 t in
            ground
              (arith, tokens-top_up demand (target s) s acc k, h.0 same, ap (tokens acc.0) same)
        | inr f ↦ ground (arith, tokens-top_up demand (target s) s acc k)
      ] in
    ground (arith, fill-le demand target order (top_up demand (target s) s acc) k bound h.1 next)
