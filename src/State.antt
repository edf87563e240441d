-- ===== src/State.antt =====
-- The agent state machine: crates/valyria-types/src/state.rs. `AgentState` is the enum of the
-- fourteen states; `can_transition_to` is the table of legal edges with the universal interrupts.
pub mod Graph
use valyria.Common.{
  ℕ, ◌≡◌, ◌↔◌, Bool, true, false, String, List, [], ◌∷◌, arith, PartialEq, ◌==◌, contains, nat_eqb,
  if◌then◌else◌,
}

pub data AgentState : Type 0 where
  idle understanding discovery planning implementing verifying diagnosing repairing : AgentState
  waiting_for_permission waiting_for_user paused completed failed cancelled : AgentState

-- The derived `PartialEq` compares discriminants.
abbrev pub discriminant : AgentState → ℕ
discriminant idle = 0
discriminant understanding = 1
discriminant discovery = 2
discriminant planning = 3
discriminant implementing = 4
discriminant verifying = 5
discriminant diagnosing = 6
discriminant repairing = 7
discriminant waiting_for_permission = 8
discriminant waiting_for_user = 9
discriminant paused = 10
discriminant completed = 11
discriminant failed = 12
discriminant cancelled = 13

abbrev pub state_eqb : AgentState → AgentState → Bool
state_eqb a b = nat_eqb (discriminant a) (discriminant b)

pub state_eqb_iff : (a b : AgentState) → (state_eqb a b ≡ true) ↔ (a ≡ b)
state_eqb_iff a b = ground arith

instance abbrev pub state_eq : PartialEq AgentState
state_eq = record { eq = state_eqb; eq_iff = state_eqb_iff }

-- `AgentState::ALL`
abbrev pub all_states : List AgentState
all_states =
    idle ∷ understanding ∷ discovery ∷ planning ∷ implementing ∷ verifying ∷ diagnosing ∷ repairing
    ∷ waiting_for_permission ∷ waiting_for_user ∷ paused ∷ completed ∷ failed ∷ cancelled ∷ []

unfoldable pub is_terminal : AgentState → Bool
is_terminal completed = true
is_terminal failed = true
is_terminal cancelled = true
is_terminal _ = false

unfoldable pub domain_edges : AgentState → List AgentState
domain_edges idle = understanding ∷ []
domain_edges understanding = discovery ∷ waiting_for_user ∷ []
domain_edges discovery = planning ∷ understanding ∷ waiting_for_user ∷ []
domain_edges planning = implementing ∷ waiting_for_permission ∷ []
domain_edges implementing = verifying ∷ waiting_for_permission ∷ waiting_for_user ∷ []
domain_edges verifying = completed ∷ diagnosing ∷ []
domain_edges diagnosing = repairing ∷ waiting_for_user ∷ failed ∷ []
domain_edges repairing = verifying ∷ waiting_for_user ∷ []
domain_edges waiting_for_permission = implementing ∷ planning ∷ failed ∷ []
domain_edges waiting_for_user = understanding ∷ implementing ∷ diagnosing ∷ repairing ∷ []
domain_edges paused =
    idle ∷ understanding ∷ discovery ∷ planning ∷ implementing ∷ verifying ∷ diagnosing ∷ repairing
    ∷ waiting_for_permission ∷ waiting_for_user ∷ []
domain_edges completed = []
domain_edges failed = []
domain_edges cancelled = []

-- `matches!(other, AgentState::Paused | AgentState::Cancelled)`
abbrev is_interrupt : AgentState → Bool
is_interrupt paused = true
is_interrupt cancelled = true
is_interrupt _ = false

abbrev fails_from : AgentState → AgentState → Bool
fails_from failed paused = false
fails_from failed _ = true
fails_from _ _ = false

unfoldable pub can_transition_to : AgentState → AgentState → Bool
unfolding is_terminal domain_edges
can_transition_to s other =
    if is_terminal s
    then false
    else if contains (domain_edges s) other
    then true
    else if other == s
    then false
    else if is_interrupt other
    then true
    else fails_from other s

-- `Display`
unfoldable pub display : AgentState → String
display idle = "IDLE"
display understanding = "UNDERSTANDING"
display discovery = "DISCOVERY"
display planning = "PLANNING"
display implementing = "IMPLEMENTING"
display verifying = "VERIFYING"
display diagnosing = "DIAGNOSING"
display repairing = "REPAIRING"
display waiting_for_permission = "WAITING_FOR_PERMISSION"
display waiting_for_user = "WAITING_FOR_USER"
display paused = "PAUSED"
display completed = "COMPLETED"
display failed = "FAILED"
display cancelled = "CANCELLED"
