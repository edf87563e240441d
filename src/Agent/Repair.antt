-- ===== src/Agent/Repair.antt =====
-- The repair ledger: crates/valyria-agent/src/repair.rs. The reasons' texts are left out. The counts
-- have 32 bits and wrap, `… as u32 + 1` too, as it does in a build without overflow checks.
pub mod Bounds
use valyria.Common.{
  as_u32, ℕ, zero, suc, ◌+◌, Bool, true, false, not, String, Option, none, some, List, [], ◌∷◌,
  ◌++◌, string_eq, ◌==◌, leb, last?, length, filterb, if◌then◌else◌,
}
use valyria.Agent.LoopDetect.{LoopFinding, oscillation}

pub data RepairOutcome : Type 0 where
  fixed improved no_change regressed : RepairOutcome

pub record RepairAttempt : Type 0 where
  pub attempt : ℕ
  pub diagnosis_fingerprint : String
  pub edit_summary : String
  pub outcome : RepairOutcome

pub data RepairDecision : Type 0 where
  continue escalate_strategy switch_role ask_user give_up : RepairDecision

pub record RepairLedger : Type 0 where
  pub attempts : List RepairAttempt
  pub max_attempts : ℕ
  pub escalated : Bool
  pub switched_role : Bool

unfoldable pub new_ledger : ℕ → RepairLedger
new_ledger max_attempts = record {
  attempts = [];
  max_attempts = max_attempts;
  escalated = false;
  switched_role = false;
}

abbrev pub count : RepairLedger → ℕ
count l = as_u32 (length l.attempts)

abbrev pub count_for : RepairLedger → String → ℕ
count_for l fingerprint =
    as_u32 (length (filterb (λ a. a.diagnosis_fingerprint == fingerprint) l.attempts))

unfoldable pub mark_escalated : RepairLedger → RepairLedger
mark_escalated l = record l { escalated = true }

unfoldable pub mark_switched_role : RepairLedger → RepairLedger
mark_switched_role l = record l { switched_role = true }

unfoldable pub record_attempt : RepairLedger → RepairAttempt → RepairLedger
record_attempt l attempt =
    let numbered : RepairAttempt = record attempt {
      attempt = as_u32 (as_u32 (length l.attempts) + 1);
    } in
    record l { attempts = l.attempts ++ numbered ∷ [] }

unfoldable pub escalate_or_ask : RepairLedger → RepairDecision
escalate_or_ask l =
    if not l.escalated
    then escalate_strategy
    else if not l.switched_role
    then switch_role
    else ask_user

abbrev pub has_regressed : Option RepairAttempt → Bool
has_regressed none = false
has_regressed (some a) = is_regressed a.outcome
  where
    is_regressed : RepairOutcome → Bool
    is_regressed regressed = true
    is_regressed _ = false

abbrev pub decide_finding : RepairLedger → LoopFinding → RepairDecision
decide_finding l (oscillation period) = ask_user
decide_finding l _ = escalate_or_ask l

abbrev pub decide_count : RepairLedger → ℕ → RepairDecision
decide_count l zero = continue
decide_count l (suc zero) = continue
decide_count l (suc (suc n)) = escalate_or_ask l

abbrev pub decide_rest : RepairLedger → String → Option LoopFinding → RepairDecision
decide_rest l next_fingerprint (some finding) = decide_finding l finding
decide_rest l next_fingerprint none = decide_count l (count_for l next_fingerprint)

unfoldable pub decide : RepairLedger → String → Option LoopFinding → RepairDecision
unfolding escalate_or_ask
decide l next_fingerprint loop_finding =
    if leb l.max_attempts (count l)
    then give_up
    else if has_regressed (last? l.attempts)
    then escalate_or_ask l
    else decide_rest l next_fingerprint loop_finding
