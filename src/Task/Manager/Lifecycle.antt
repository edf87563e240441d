-- ===== src/Task/Manager/Lifecycle.antt =====
-- Pausing, resuming and recovering a task: crates/valyria-task/src/manager.rs.
use valyria.Common.{
  subst, sym, ap, if◌then◌else◌, ◌==◌, Bool-cases, inl, inr, ℕ, ◌≡◌, refl, ◌≢◌, ◌↔◌, true, false,
  none, some, arith, nat_eq, Option-cases,
}
use valyria.State.{state_eq, AgentState, paused, is_terminal, can_transition_to, state_eqb_iff}
use valyria.Task.Types.{Json, Task, wrong_resume_target}
use valyria.Task.Rows.{Reads}
use valyria.Task.World.{Result, World, ok, err}
use valyria.Task.Manager.{transition_refusal, transition}
use valyria.Task.Manager.Transition.{moved, transition_refused, transition_accepted}

-- A transition is accepted exactly if the table has the edge and, out of `Paused`, it leads back
-- to the state that the task was paused from.
pub transition_refusal-none :
    (task : Task) (to : AgentState)
    → (transition_refusal task to ≡ none) ↔ (
        (can_transition_to task.state to ≡ true)
        × (task.state ≡ paused → task.paused_from ≡ some to))
unfolding transition_refusal
transition_refusal-none task to = (
  λ h. (ground (arith, state_eqb_iff task.state paused), λ p. resumed p h),
  λ h. ground (arith, state_eqb_iff task.state paused, h.1, state_eqb_iff to to),
)
  where
    resumed : task.state ≡ paused → transition_refusal task to ≡ none → task.paused_from ≡ some to
    resumed p h = elim (Option-cases task.paused_from) [
      | inl e ↦ absurd (ground arith)
      | inr (s, e) ↦ ground (arith, state_eqb_iff s to)
    ]

pub pause_edges :
    (s : AgentState)
    → is_terminal s ≡ false
    → s ≢ paused
    → (can_transition_to s paused ≡ true) × (can_transition_to paused s ≡ true)
unfolding can_transition_to
pause_edges s t p = ground arith

wrong_target :
    (task : Task) (from to : AgentState)
    → task.state ≡ paused
    → task.paused_from ≡ some from
    → to ≢ from
    → transition_refusal task to ≡ some (wrong_resume_target task.id from to)
unfolding transition_refusal
wrong_target task from to s f n = ground (arith, state_eqb_iff from to)

module _ {V : Type 0} ⦃j : Json V⦄ where
  -- A task that can be read, in an open state other than `Paused`, can be paused, and then resumes
  -- into exactly the state that it was in: every other target, `Cancelled` included, is refused.
  pub pause_then_resume :
      (id : ℕ) (to : AgentState) (w : World V) (task : Task)
      → Reads w id task
      → is_terminal task.state ≡ false
      → task.state ≢ paused
      → let w' = (transition id paused w).1 in
        ((transition id paused w).0 ≡ ok tt)
        × ((transition id to w').0
            ≡ (if to == task.state then ok tt else err (wrong_resume_target task.id task.state to)))
  pause_then_resume id to w task h t p =
      let edges = pause_edges task.state t p in
      let can_pause = (transition_refusal-none task paused).1 (edges.0, λ q. absurd (p q)) in
      let stopped = transition_accepted id paused w task h can_pause in
      let held = moved task paused (w.env.clock w.reads) in
      let w' = (transition id paused w).1 in
      let can_resume = (transition_refusal-none held task.state).1 (edges.1, λ q. refl) in
      let resumed = (transition_accepted id task.state w' held stopped.1 can_resume).0 in
      (
        stopped.0,
        elim (Bool-cases (to == task.state)) [
          | inl same ↦ rw same (
              subst (λ s. (transition id s w').0 ≡ ok tt)
                (sym ((state_eqb_iff to task.state).0 same)) resumed)
          | inr differ ↦ rw differ (
              ap (λ (x : Result (Unit {0}) × World V). x.0)
                (transition_refused id to w' held _ stopped.1 (
                  wrong_target held task.state to refl refl
                    (λ e. cc (differ, (state_eqb_iff to task.state).1 e)))))
        ],
      )
