-- ===== src/Plan/Repair.antt =====
-- Bounded plan repair: crates/valyria-plan/src/repair.rs, with the codes' texts of validate.rs. The
-- texts of a feedback and a reason are left out. The number of an attempt has 32 bits and wraps, as it
-- does in a build without overflow checks.
use valyria.Common.{
  ℕ, zero, suc, ◌+◌, ◌≤◌, ◌<◌, u32_range, as_u32, as_u32-next, String, List, [], ◌∷◌, ◌++◌, map,
  leb, length, if◌then◌else◌, ◌≡◌, ◌↔◌, refl, arith, length-append, leb→le, le→leb, Bool-cases, inl,
  inr,
}
use valyria.Plan.Validate.{
  PlanErrorCode, PlanError, empty_plan, not_submitted, malformed, duplicate_step_id,
  unknown_dependency, cyclic_dependency, mutating_step_without_verification,
  rollback_boundary_without_checkpoint, target_outside_plan_scope, target_unresolvable,
  plan_scope_outside_profile,
}

abbrev as_str : PlanErrorCode → String
as_str empty_plan = "empty_plan"
as_str not_submitted = "plan_not_submitted"
as_str malformed = "plan_malformed"
as_str duplicate_step_id = "duplicate_step_id"
as_str unknown_dependency = "unknown_dependency"
as_str cyclic_dependency = "cyclic_dependency"
as_str mutating_step_without_verification = "mutating_step_without_verification"
as_str rollback_boundary_without_checkpoint = "rollback_boundary_without_checkpoint"
as_str target_outside_plan_scope = "target_outside_plan_scope"
as_str target_unresolvable = "target_unresolvable"
as_str plan_scope_outside_profile = "plan_scope_outside_profile"

pub record PlanRepairAttempt : Type 0 where
  pub attempt : ℕ
  pub error_codes : List String

pub data PlanRepairDecision : Type 0 where
  retry give_up : PlanRepairDecision

pub record PlanRepairLedger : Type 0 where
  pub attempts : List PlanRepairAttempt
  pub max_attempts : ℕ

-- `(1..=prior_rejections).map(…)`, from `attempt` on.
abbrev prior : ℕ → ℕ → List PlanRepairAttempt
prior attempt zero = []
prior attempt (suc n) =
    record { attempt = attempt; error_codes = "(from a prior run)" ∷ [] } ∷ prior (suc attempt) n

unfoldable pub resumed : ℕ → ℕ → PlanRepairLedger
resumed max_attempts prior_rejections = record {
  attempts = prior 1 prior_rejections;
  max_attempts = max_attempts;
}

unfoldable pub record_and_decide :
    PlanRepairLedger → List PlanError → PlanRepairLedger × PlanRepairDecision
record_and_decide l errors =
    let attempt = as_u32 (as_u32 (length l.attempts) + 1) in
    let entry : PlanRepairAttempt = record {
      attempt = attempt;
      error_codes = map (λ e. as_str e.code) errors;
    } in
    (
      record l { attempts = l.attempts ++ entry ∷ [] },
      if leb l.max_attempts attempt then give_up else retry,
    )

-- The ledger after some rejections, the oldest first.
abbrev pub reject_all : PlanRepairLedger → List (List PlanError) → PlanRepairLedger
reject_all l [] = l
reject_all l (errors ∷ more) = reject_all (record_and_decide l errors).0 more

length-prior : (attempt n : ℕ) → length (prior attempt n) ≡ n
length-prior attempt zero = refl
length-prior attempt (suc n) = omega (arith, length-prior (suc attempt) n)

counted :
    (l : PlanRepairLedger) (more : List (List PlanError))
    → (length (reject_all l more).attempts ≡ length l.attempts + length more)
      × ((reject_all l more).max_attempts ≡ l.max_attempts)
unfolding record_and_decide
counted l [] = (omega arith, refl)
counted l (errors ∷ more) =
    let (n, m) = counted (record_and_decide l errors).0 more in
    (
      omega (
        arith,
        n,
        length-append l.attempts (
            record {
              attempt = as_u32 (as_u32 (length l.attempts) + 1);
              error_codes = map (λ e. as_str e.code) errors;
            }
            ∷ []),
      ),
      m,
    )

-- A rejection is the last one exactly if it is at least as late as the ledger allows, counted over
-- the runs before a crash too: a resumed ledger gives no new attempts. There are fewer than 2 ^ 32.
record_and_decide-give_up :
    (max prior_rejections : ℕ) (more : List (List PlanError)) (errors : List PlanError)
    → prior_rejections + length more + 1 < u32_range
    → ((record_and_decide (reject_all (resumed max prior_rejections) more) errors).1 ≡ give_up)
      ↔ (max ≤ prior_rejections + length more + 1)
unfolding record_and_decide resumed
record_and_decide-give_up max prior_rejections more errors small =
    let (n, m) = counted (resumed max prior_rejections) more in
    let total : length (reject_all (resumed max prior_rejections) more).attempts
        ≡ prior_rejections + length more =
      omega (arith, n, length-prior 1 prior_rejections) in
    rw (m, total, as_u32-next (prior_rejections + length more) small)
      (decided (prior_rejections + length more + 1))
  where
    decided : (k : ℕ) → ((if leb max k then give_up else retry) ≡ give_up) ↔ (max ≤ k)
    decided k = elim (Bool-cases (leb max k)) [
      | inl e ↦ (λ h. leb→le _ _ e, λ h. rw e refl)
      | inr e ↦ (λ h. absurd (ground arith), λ h. cc (e, le→leb _ _ h))
    ]
