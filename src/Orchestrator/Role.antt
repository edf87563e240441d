-- ===== src/Orchestrator/Role.antt =====
-- Model roles: crates/valyria-model-registry/src/role.rs.
use valyria.Common.{ℕ, ◌≡◌, Bool, true, Option, none, some, arith, ◌↔◌, PartialEq, nat_eqb}

pub data ModelRole : Type 0 where
  primary_coder fast_coder planner reviewer embedder reranker autocomplete summarizer : ModelRole

-- The derived equality compares the constructors.
abbrev pub discriminant : ModelRole → ℕ
discriminant primary_coder = 0
discriminant fast_coder = 1
discriminant planner = 2
discriminant reviewer = 3
discriminant embedder = 4
discriminant reranker = 5
discriminant autocomplete = 6
discriminant summarizer = 7

abbrev pub role_eqb : ModelRole → ModelRole → Bool
role_eqb a b = nat_eqb (discriminant a) (discriminant b)

pub role_eqb_iff : (a b : ModelRole) → (role_eqb a b ≡ true) ↔ (a ≡ b)
role_eqb_iff a b = (λ h. ground arith, λ h. ground arith)

instance abbrev pub role_eq : PartialEq ModelRole
role_eq = record { eq = role_eqb; eq_iff = role_eqb_iff }

unfoldable pub priority : ModelRole → ℕ
priority primary_coder = 100
priority planner = 80
priority fast_coder = 70
priority reviewer = 60
priority summarizer = 40
priority embedder = 35
priority reranker = 30
priority autocomplete = 10

unfoldable pub escalates_to : ModelRole → Option ModelRole
escalates_to fast_coder = some primary_coder
escalates_to autocomplete = some fast_coder
escalates_to _ = none
