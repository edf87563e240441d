-- ===== src/State/Graph.antt =====
-- What holds of every walk along the legal edges of crates/valyria-types/src/state.rs.
use valyria.Common.{
  ◌≡◌, refl, ◌≢◌, ◌⊎◌, inl, inr, true, false, List, [], ◌∷◌, arith, contains, ◌==◌, Bool-cases,
}
use valyria.State.{
  AgentState, idle, understanding, discovery, planning, implementing, verifying, diagnosing,
  repairing, waiting_for_permission, waiting_for_user, paused, completed, failed, cancelled,
  is_terminal, can_transition_to, state_eq, state_eqb_iff,
}

-- A walk is a state followed by the states that it moves through.
abbrev pub Walk : AgentState → List AgentState → Type 0
Walk s [] = Unit {0}
Walk s (t ∷ ts) = (can_transition_to s t ≡ true) × Walk t ts

abbrev pub end_of : AgentState → List AgentState → AgentState
end_of s [] = s
end_of s (t ∷ ts) = end_of t ts

terminal_edge : (s t : AgentState) → is_terminal s ≡ true → can_transition_to s t ≡ false
unfolding can_transition_to is_terminal
terminal_edge s t h = ground arith

-- A walk that starts in a terminal state makes no step.
terminal-Walk : (s : AgentState) (ts : List AgentState) → is_terminal s ≡ true → Walk s ts → ts ≡ []
terminal-Walk s [] h w = refl
terminal-Walk s (t ∷ ts) h w = cc (terminal_edge s t h)

-- No state has an edge to itself, `Paused` and the terminal states included.
pub can_transition_to_self : (s : AgentState) → can_transition_to s s ≡ false
unfolding can_transition_to
can_transition_to_self s = ground arith

way_to_completed : AgentState → List AgentState
way_to_completed idle =
    understanding ∷ discovery ∷ planning ∷ implementing ∷ verifying ∷ completed ∷ []
way_to_completed understanding = discovery ∷ planning ∷ implementing ∷ verifying ∷ completed ∷ []
way_to_completed discovery = planning ∷ implementing ∷ verifying ∷ completed ∷ []
way_to_completed planning = implementing ∷ verifying ∷ completed ∷ []
way_to_completed implementing = verifying ∷ completed ∷ []
way_to_completed verifying = completed ∷ []
way_to_completed diagnosing = repairing ∷ verifying ∷ completed ∷ []
way_to_completed repairing = verifying ∷ completed ∷ []
way_to_completed waiting_for_permission = implementing ∷ verifying ∷ completed ∷ []
way_to_completed waiting_for_user = implementing ∷ verifying ∷ completed ∷ []
way_to_completed paused = verifying ∷ completed ∷ []
way_to_completed _ = []

-- From a state that is not terminal some walk of legal edges ends in `Completed`, and the edges to
-- `Cancelled` and, but for `Paused` itself, to `Paused` and to `Failed` are legal. `Paused` has no
-- edge to `Failed`.
open_states_can_end :
    (s : AgentState)
    → is_terminal s ≡ false
    → ((ts : List AgentState) × Walk s ts × (end_of s ts ≡ completed))
      × (can_transition_to s cancelled ≡ true)
      × ((s ≡ paused) ⊎ (can_transition_to s paused ≡ true))
      × ((s ≡ paused) ⊎ (can_transition_to s failed ≡ true))
      × (can_transition_to paused failed ≡ false)
unfolding can_transition_to is_terminal way_to_completed
open_states_can_end idle h =
    ((way_to_completed idle, ground arith, refl), refl, inr refl, inr refl, refl)
open_states_can_end completed h = cc
open_states_can_end failed h = cc
open_states_can_end cancelled h = cc
open_states_can_end paused h =
    ((way_to_completed paused, ground arith, refl), refl, inl refl, inl refl, refl)
open_states_can_end s h = ((way_to_completed s, ground arith, refl), refl, inr refl, inr refl, refl)

completed_edge : (s : AgentState) → can_transition_to s completed ≡ true → s ≡ verifying
unfolding can_transition_to
completed_edge s h = ground arith

-- A walk that ends in `Completed` and starts in another state passes through `Verifying`: no task
-- is completed without a verification.
completed_needs_verifying :
    (s : AgentState) (ts : List AgentState)
    → Walk s ts
    → s ≢ completed
    → end_of s ts ≡ completed
    → contains (s ∷ ts) verifying ≡ true
completed_needs_verifying s [] w n e = absurd (n e)
completed_needs_verifying s (t ∷ ts) w n e = elim (Bool-cases (t == completed)) [
  | inl last ↦ ground (arith, completed_edge s, state_eqb_iff t completed)
  | inr more ↦
      let later : contains (t ∷ ts) verifying ≡ true =
        completed_needs_verifying t ts w.1 (λ p. cc (more, (state_eqb_iff t completed).1 p)) e in
      ground arith
]
