-- ===== src/Examples/State.antt =====
-- Runs of the state machine of crates/valyria-types/src/state.rs.
use valyria.Common.{◌≡◌, refl, ◌≢◌, false, List, [], ◌∷◌, arith}
use valyria.State.{
  AgentState, idle, understanding, verifying, paused, completed, can_transition_to, is_terminal,
  state_eq,
}
use valyria.State.Graph.{Walk}

abbrev short_way : List AgentState
short_way = understanding ∷ paused ∷ verifying ∷ completed ∷ []

short_way-Walk : Walk idle short_way
unfolding can_transition_to
short_way-Walk = ground arith

idle_is_not_completed : idle ≢ completed
idle_is_not_completed p = cc

paused_is_open : is_terminal paused ≡ false
unfolding is_terminal
paused_is_open = refl
