-- ===== src/Examples/Agent.antt =====
-- The guards of crates/valyria-agent at concrete histories.
use valyria.Common.{
  u32_range, as_u32, option_eq, string_eq, nat_eq, ℕ, ◌≤◌, ◌<◌, arith, List, String, ◌≡◌, refl, ◌↔◌,
  true, none, some, [], ◌∷◌, map,
}
use valyria.Agent.LoopDetect.{
  StepSignature, key, ProgressMetric, advanced_since, oscillation, default_config, LoopDetector,
  detect_oscillation,
}
use valyria.Agent.LoopDetect.Cycles.{EndsInCycle, detect_oscillation-EndsInCycle}
use valyria.Agent.LoopDetect.Streaks.{stall}
use valyria.Agent.Repair.{
  regressed, RepairAttempt, ask_user, give_up, RepairLedger, new_ledger, escalate_or_ask, decide,
}
use valyria.Agent.Repair.Bounds.{
  RepairStep, records, escalates, switches_role, run, recorded, NumberedFrom, run-decide,
}

abbrev tool_step : String → StepSignature
tool_step call = record {
  tool_call = some call;
  patch_hash = none;
  error_fingerprint = none;
  file_state_hash = none;
  context_hash = none;
}

-- Reading and writing in turns, three times.
abbrev back_and_forth : LoopDetector
back_and_forth = record {
  config = default_config;
  steps =
      tool_step "read"
      ∷ tool_step "write"
      ∷ tool_step "read"
      ∷ tool_step "write"
      ∷ tool_step "read"
      ∷ tool_step "write"
      ∷ [];
  failures = [];
  progress = [];
  no_change_run = 0;
  stalled_run = 0;
}

back_and_forth_found : detect_oscillation back_and_forth ≡ some (oscillation 2)
unfolding detect_oscillation
back_and_forth_found = refl

detect_oscillation-EndsInCycle_example :
    (p : ℕ) × (oscillation 2 ≡ oscillation p)
    × (p ≤ 3)
    × EndsInCycle p (map key back_and_forth.steps)
detect_oscillation-EndsInCycle_example =
    detect_oscillation-EndsInCycle back_and_forth (oscillation 2) back_and_forth_found

two_keys : EndsInCycle 2 (map key back_and_forth.steps)
two_keys = record {
  before = [];
  cycle = key (tool_step "read") ∷ key (tool_step "write") ∷ [];
  rounds = refl;
  length_of_cycle = refl;
  varies = refl;
}

abbrev snapshot : ℕ → ProgressMetric
snapshot failures = record {
  verification_frontier = 1;
  failure_count = failures;
  files_touched = [];
}

stalls : stall (snapshot 2 ∷ snapshot 2 ∷ snapshot 2 ∷ snapshot 2 ∷ []) ≡ 3
unfolding advanced_since
stalls = refl

abbrev failed_attempt : RepairAttempt
failed_attempt = record {
  attempt = 0;
  diagnosis_fingerprint = "E1";
  edit_summary = "an edit";
  outcome = regressed;
}

abbrev two_attempts : List RepairStep
two_attempts = records failed_attempt ∷ escalates ∷ records failed_attempt ∷ switches_role ∷ []

few : recorded two_attempts < u32_range
unfolding u32_range
few = omega arith

run-decide_example :
    NumberedFrom 1 (run (new_ledger 2) two_attempts).attempts
    × ((decide (run (new_ledger 2) two_attempts) "E1" none ≡ give_up) ↔ (2 ≤ recorded two_attempts))
run-decide_example = run-decide 2 two_attempts "E1" none few

abbrev exhausted : RepairLedger
exhausted = record {
  attempts = failed_attempt ∷ [];
  max_attempts = 4;
  escalated = true;
  switched_role = true;
}

asks : decide exhausted "E1" none ≡ ask_user
unfolding decide escalate_or_ask as_u32 u32_range
asks = refl
