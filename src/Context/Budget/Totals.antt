-- ===== src/Context/Budget/Totals.antt =====
-- The tokens that an allocation gives out in all: crates/valyria-context/src/budget.rs.
use valyria.Common.{
  ==_refl, ◌∙◌, lookup-insert, lookup-remove, ℕ, ◌+◌, ◌≡◌, refl, none, [], ◌∷◌, arith, lookup,
  insert, remove, ◌==◌, Bool-cases, inl, inr, if◌then◌else◌,
}
use valyria.Context.Budget.{SectionKind, kind_eq, kind_eqb_iff, Tokens, tokens, total}

-- No kind stands twice.
abbrev pub Unique : Tokens → Type 0
Unique [] = Unit
Unique ((k, n) ∷ m) = (lookup k m ≡ none) × Unique m

remove-Unique : (k : SectionKind) (m : Tokens) → Unique m → Unique (remove k m)
remove-Unique k [] u = tt
remove-Unique k ((j, n) ∷ m) u = elim (Bool-cases (j == k)) [
  | inl t ↦ rw t (remove-Unique k m u.1)
  | inr f ↦ rw f (ground (arith, lookup-remove k j m, u.0), remove-Unique k m u.1)
]

pub insert-Unique : (k : SectionKind) (v : ℕ) (m : Tokens) → Unique m → Unique (insert k v m)
insert-Unique k v m u = (lookup-remove k k m ∙ ground (arith, ==_refl k), remove-Unique k m u)

remove_absent : (k : SectionKind) (m : Tokens) → lookup k m ≡ none → remove k m ≡ m
remove_absent k [] h = refl
remove_absent k ((j, n) ∷ m) h = ground (arith, remove_absent k m)

total-remove : (k : SectionKind) (m : Tokens) → Unique m → total (remove k m) + tokens m k ≡ total m
total-remove k [] u = omega arith
total-remove k ((j, n) ∷ m) u =
    ground (arith, total-remove k m u.1, remove_absent k m, kind_eqb_iff j k)

pub total-insert :
    (k : SectionKind) (v : ℕ) (m : Tokens)
    → Unique m
    → total (insert k v m) + tokens m k ≡ total m + v
total-insert k v m u = omega (arith, total-remove k m u)

pub tokens-insert :
    (k j : SectionKind) (v : ℕ) (m : Tokens)
    → tokens (insert k v m) j ≡ (if k == j then v else tokens m j)
tokens-insert k j v m = ground (arith, lookup-insert k j v m)
