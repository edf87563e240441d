-- ===== src/Agent/LoopDetect.antt =====
-- The loop detector: crates/valyria-agent/src/loop_detect.rs. A `ContentHash` is the text of its
-- `to_hex`. The normal form of a tool call is computed from JSON and is given as its text.
pub mod Cycles
pub mod Streaks
use Prim.Native.String.{◌++◌ as append}
use valyria.Common.{
  ℕ, zero, suc, ◌+◌, ◌-◌, ◌*◌, Bool, true, false, not, ◌&&◌, ◌||◌, String, Option, none, some, List,
  [], ◌∷◌, ◌++◌, map, reverse, string_eq, option_eq, ◌==◌, leb, ltb, anyb, allb, take, drop, last?,
  length, prefix_run, is_some, unwrap_or, if◌then◌else◌,
}

pub record StepSignature : Type 0 where
  pub tool_call : Option String
  pub patch_hash : Option String
  pub error_fingerprint : Option String
  pub file_state_hash : Option String
  pub context_hash : Option String

abbrev pub key : StepSignature → String
key s = append (unwrap_or "-" s.tool_call) (
    append "|" (
      append (unwrap_or "" s.patch_hash) (
        append "|" (
          append (unwrap_or "-" s.error_fingerprint)
            (append "|" (unwrap_or "" s.file_state_hash))))))

-- Of `files_touched`, a set, only the size is read.
pub record ProgressMetric : Type 0 where
  pub verification_frontier : ℕ
  pub failure_count : ℕ
  pub files_touched : List String

unfoldable pub advanced_since : ProgressMetric → ProgressMetric → Bool
advanced_since m prev =
    ltb prev.verification_frontier m.verification_frontier
    || ltb m.failure_count prev.failure_count
    || ltb (length prev.files_touched) (length m.files_touched)

pub data LoopFinding : Type 0 where
  exact_repeat : String → ℕ → LoopFinding
  oscillation : ℕ → LoopFinding
  repeated_failure : String → ℕ → LoopFinding
  no_change_iteration : ℕ → LoopFinding
  frontier_stalled : ℕ → LoopFinding

pub record DetectorConfig : Type 0 where
  pub exact_repeat_at : ℕ
  pub max_oscillation_period : ℕ
  pub repeated_failure_at : ℕ
  pub stall_at : ℕ

-- `DetectorConfig::default`
abbrev pub default_config : DetectorConfig
default_config = record {
  exact_repeat_at = 3;
  max_oscillation_period = 3;
  repeated_failure_at = 3;
  stall_at = 3;
}

pub record LoopDetector : Type 0 where
  pub config : DetectorConfig
  pub steps : List StepSignature
  pub failures : List String
  pub progress : List ProgressMetric
  pub no_change_run : ℕ
  pub stalled_run : ℕ

unfoldable pub new_detector : DetectorConfig → LoopDetector
new_detector config = record {
  config = config;
  steps = [];
  failures = [];
  progress = [];
  no_change_run = 0;
  stalled_run = 0;
}

abbrev pub state_of : Option StepSignature → Option String
state_of none = none
state_of (some s) = s.file_state_hash

abbrev pub same_state : Option String → Option String → Bool
same_state (some prev) (some cur) = prev == cur
same_state _ _ = false

abbrev pub is_action : StepSignature → Bool
is_action s = is_some s.tool_call || is_some s.patch_hash

abbrev pub repeat_of : ℕ → List StepSignature → Option StepSignature → Option LoopFinding
repeat_of at steps none = none
repeat_of at steps (some last) =
    let run = prefix_run (λ s. key s == key last) (reverse steps) in
    if not (is_some last.tool_call)
      && not (is_some last.patch_hash)
      && not (is_some last.error_fingerprint)
    then none
    else if leb at run
    then some (exact_repeat (key last) run)
    else none

unfoldable pub detect_exact_repeat : LoopDetector → Option LoopFinding
detect_exact_repeat d = repeat_of d.config.exact_repeat_at d.steps (last? d.steps)

abbrev pub list_eqb : List String → List String → Bool
list_eqb [] [] = true
list_eqb (x ∷ xs) (y ∷ ys) = x == y && list_eqb xs ys
list_eqb _ _ = false

-- `all(|k| k == &cycle[0])`
abbrev pub is_constant : List String → Bool
is_constant [] = true
is_constant (k ∷ ks) = allb (λ x. x == k) ks

-- `tail.chunks(period)` of the `3 * period` keys of the tail.
abbrev pub is_cycle : ℕ → List String → Bool
is_cycle period tail =
    let cycle = take period tail in
    list_eqb (take period (drop period tail)) cycle
    && list_eqb (drop period (drop period tail)) cycle

abbrev pub tail_of : ℕ → List String → List String
tail_of period keys = drop (length keys - period * 3) keys

abbrev pub oscillates : ℕ → List String → Bool
oscillates period keys =
    leb (period * 3) (length keys)
    && not (is_constant (take period (tail_of period keys)))
    && is_cycle period (tail_of period keys)

-- The loop over `1..=max`, of which `left` periods are left.
abbrev pub first_period : ℕ → ℕ → List String → Option LoopFinding
first_period period zero keys = none
first_period period (suc left) keys =
    let later = first_period (suc period) left keys in
    if oscillates period keys then some (oscillation period) else later

unfoldable pub detect_oscillation : LoopDetector → Option LoopFinding
detect_oscillation d = first_period 1 d.config.max_oscillation_period (map key d.steps)

abbrev pub or_finding : Option LoopFinding → Option LoopFinding → Option LoopFinding
or_finding (some f) other = some f
or_finding none other = other

unfoldable pub observe_step : LoopDetector → StepSignature → LoopDetector × Option LoopFinding
unfolding detect_exact_repeat detect_oscillation
observe_step d sig =
    let run =
      if same_state (state_of (last? d.steps)) sig.file_state_hash
      then d.no_change_run + 1
      else 0 in
    let d' : LoopDetector = record d { no_change_run = run; steps = d.steps ++ sig ∷ [] } in
    if leb d.config.stall_at (run + 1) && anyb is_action (take (run + 1) (reverse d'.steps))
    then (d', some (no_change_iteration (run + 1)))
    else (d', or_finding (detect_exact_repeat d') (detect_oscillation d'))

unfoldable pub observe_failure : LoopDetector → Option String → LoopDetector × Option LoopFinding
observe_failure d none = (record d { failures = [] }, none)
observe_failure d (some fp) =
    let failures = d.failures ++ fp ∷ [] in
    let n = prefix_run (λ f. f == fp) (reverse failures) in
    (
      record d { failures = failures },
      if leb d.config.repeated_failure_at n then some (repeated_failure fp n) else none,
    )

abbrev pub stalled_after : LoopDetector → ProgressMetric → Option ProgressMetric → ℕ
stalled_after d metric none = d.stalled_run
stalled_after d metric (some prev) = if advanced_since metric prev then 0 else d.stalled_run + 1

unfoldable pub observe_progress : LoopDetector → ProgressMetric → LoopDetector × Option LoopFinding
unfolding advanced_since
observe_progress d metric =
    let run = stalled_after d metric (last? d.progress) in
    (
      record d { progress = d.progress ++ metric ∷ []; stalled_run = run },
      if leb d.config.stall_at run then some (frontier_stalled run) else none,
    )
