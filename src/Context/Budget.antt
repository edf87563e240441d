-- ===== src/Context/Budget.antt =====
-- The token budget of a prompt: crates/valyria-context/src/budget.rs. A `BTreeMap` is an association
-- list whose keys stand in the order of the kinds.
pub mod Totals
pub mod Floors
pub mod Rounds
pub mod Bounds
pub mod Sections
use valyria.Common.{
  ℕ, zero, suc, ◌+◌, ◌-◌, ◌*◌, ◌/◌, ◌≡◌, ◌↔◌, Bool, true, false, not, Option, none, some, List, [],
  ◌∷◌, ◌++◌, ltb, leb, nat_eqb, if◌then◌else◌, ◌&&◌, ◌||◌, ◌==◌, nat_eq, PartialEq, findb, filterb,
  is_some, unwrap_or, lookup, insert, sort_by, arith,
}

pub data SectionKind : Type 0 where
  policy instructions memory task repository evidence history : SectionKind

-- The derived order is that of the declaration.
abbrev pub discriminant : SectionKind → ℕ
discriminant policy = 0
discriminant instructions = 1
discriminant memory = 2
discriminant task = 3
discriminant repository = 4
discriminant evidence = 5
discriminant history = 6

abbrev pub kind_eqb : SectionKind → SectionKind → Bool
kind_eqb a b = nat_eqb (discriminant a) (discriminant b)

pub kind_eqb_iff : (a b : SectionKind) → (kind_eqb a b ≡ true) ↔ (a ≡ b)
kind_eqb_iff a b = ground arith

instance abbrev pub kind_eq : PartialEq SectionKind
kind_eq = record { eq = kind_eqb; eq_iff = kind_eqb_iff }

pub record SectionSpec : Type 0 where
  pub kind : SectionKind
  pub min : ℕ
  pub ideal : ℕ
  pub max : ℕ
  pub priority : ℕ

pub record ContextBudget : Type 0 where
  pub total_tokens : ℕ
  pub reserve_for_output : ℕ
  pub sections : List SectionSpec

abbrev pub lesser : ℕ → ℕ → ℕ
lesser a b = if leb a b then a else b

abbrev pub greater : ℕ → ℕ → ℕ
greater a b = if leb a b then b else a

-- `usize::MAX`, and the addition that stops there.
unfoldable pub usize_max : ℕ
usize_max = 18446744073709551615

unfoldable pub saturating_add : ℕ → ℕ → ℕ
saturating_add a b = lesser (a + b) usize_max

unfoldable pub new : ℕ → ContextBudget
new total_tokens =
    let reserve_for_output = lesser (greater (total_tokens / 8) 256) total_tokens in
    let body = greater (total_tokens - reserve_for_output) 1 in
    let pct = λ (n : ℕ). greater (body * n / 100) 1 in
    record {
      total_tokens = total_tokens;
      reserve_for_output = reserve_for_output;
      sections =
          record { kind = policy; min = 1; ideal = pct 6; max = pct 12; priority = 250 }
          ∷ record { kind = task; min = 1; ideal = pct 6; max = pct 15; priority = 240 }
          ∷ record { kind = instructions; min = 0; ideal = pct 15; max = pct 30; priority = 200 }
          ∷ record { kind = memory; min = 0; ideal = pct 10; max = pct 20; priority = 150 }
          ∷ record { kind = evidence; min = 0; ideal = pct 25; max = pct 55; priority = 120 }
          ∷ record { kind = repository; min = 0; ideal = pct 35; max = pct 70; priority = 100 }
          ∷ record { kind = history; min = 0; ideal = pct 8; max = pct 20; priority = 60 }
          ∷ [];
    }

abbrev pub available : ContextBudget → ℕ
available budget = budget.total_tokens - budget.reserve_for_output

abbrev pub spec_in : SectionKind → List SectionSpec → Option SectionSpec
spec_in kind = findb λ s. s.kind == kind

abbrev pub spec : ContextBudget → SectionKind → Option SectionSpec
spec budget kind = spec_in kind budget.sections

unfoldable pub with_section : ContextBudget → SectionSpec → ContextBudget
with_section budget section = record budget {
  sections = filterb (λ s. not (s.kind == section.kind)) budget.sections ++ section ∷ [];
}

abbrev pub Tokens : Type 0
Tokens = List (SectionKind × ℕ)

-- `get(&kind).copied().unwrap_or(0)`; also `alloc[&spec.kind]`, whose key is always there.
abbrev pub tokens : Tokens → SectionKind → ℕ
tokens m kind = unwrap_or 0 (lookup kind m)

abbrev pub total : Tokens → ℕ
total [] = 0
total ((kind, n) ∷ m) = n + total m

pub record Allocation : Type 0 where
  pub available : ℕ
  pub per_section : Tokens

unfoldable pub section_cap : Allocation → SectionKind → ℕ
section_cap allocation kind = tokens allocation.per_section kind

unfoldable pub total_allocated : Allocation → ℕ
total_allocated allocation = total allocation.per_section

pub data ContextError : Type 0 where
  unbudgeted_section : SectionKind → ContextError
  budget_infeasible : ℕ → ℕ → ContextError

pub data Result : Type 0 where
  ok : Allocation → Result
  err : ContextError → Result

-- The first kind of the demand that the budget has no section for.
abbrev pub unbudgeted : ContextBudget → Tokens → Option SectionKind
unbudgeted budget [] = none
unbudgeted budget ((kind, n) ∷ demand) =
    if is_some (spec budget kind) then unbudgeted budget demand else some kind

abbrev pub floor_of : Tokens → SectionSpec → ℕ
floor_of demand s = lesser s.min (tokens demand s.kind)

-- Phase 1: the floors, and their sum.
unfoldable pub floors : Tokens → List SectionSpec → Tokens × ℕ → Tokens × ℕ
unfolding saturating_add
floors demand [] acc = acc
floors demand (s ∷ rest) (alloc, floor_total) =
    floors demand rest
      (insert s.kind (floor_of demand s) alloc, saturating_add floor_total (floor_of demand s))

-- The order of the later phases: the greater priority first, then the order of the kinds.
abbrev pub goes_before : SectionSpec → SectionSpec → Bool
goes_before a b =
    ltb a.priority b.priority
    || a.priority == b.priority && ltb (discriminant b.kind) (discriminant a.kind)

-- One round of phases 2 and 3: the tokens so far and those that remain.
unfoldable pub top_up : Tokens → ℕ → SectionSpec → Tokens × ℕ → Tokens × ℕ
top_up demand target s (alloc, remaining) =
    let aim = lesser target (tokens demand s.kind) in
    let current = tokens alloc s.kind in
    let grant = lesser (aim - current) remaining in
    if ltb current aim
    then (insert s.kind (current + grant) alloc, remaining - grant)
    else (alloc, remaining)

unfoldable pub fill : Tokens → (SectionSpec → ℕ) → List SectionSpec → Tokens × ℕ → Tokens × ℕ
fill demand target_of [] acc = acc
fill demand target_of (s ∷ order) acc =
    if acc.1 == 0 then acc else fill demand target_of order (top_up demand (target_of s) s acc)

unfoldable pub phases : ContextBudget → Tokens → Tokens × ℕ → Result
phases budget demand (alloc, floor_total) =
    if ltb (available budget) floor_total
    then err (budget_infeasible floor_total (available budget))
    else let order = sort_by goes_before budget.sections in
      let ideal = fill demand (λ s. s.ideal) order (alloc, available budget - floor_total) in
      let topped = fill demand (λ s. s.max) order ideal in
      ok (record { available = available budget; per_section = topped.0 })

unfoldable pub allocate : ContextBudget → Tokens → Result
unfolding phases
allocate budget demand = elim (unbudgeted budget demand) [
  | some kind ↦ err (unbudgeted_section kind)
  | none ↦ phases budget demand (floors demand budget.sections ([], 0))
]
