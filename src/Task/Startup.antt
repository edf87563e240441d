-- ===== src/Task/Startup.antt =====
-- Recovery at startup: `recover_incomplete_tasks` of crates/valyria-task/src/manager.rs. The note is
-- a function of the state, and the ids of the rows are ids.
pub mod Rest
use valyria.Common.{ℕ, String, Option, none, some, List, [], ◌∷◌, if◌then◌else◌}
use valyria.State.{AgentState}
use valyria.Task.Types.{Json}
use valyria.Task.Codec.{state_from_text}
use valyria.Task.World.{Row, Exec, pure, gets, ◌>>=◌, ◌>>◌}
use valyria.Task.Manager.{is_stable_without_a_driver, recover_task}

module _ {V : Type 0} ⦃j : Json V⦄ where
  -- One row of the loop, and the rows after it.
  unfoldable pub recover_row :
      (AgentState → String) → Row → Option AgentState → Exec V (List ℕ) → Exec V (List ℕ)
  unfolding ◌>>=◌
  recover_row note r none later = later
  recover_row note r (some state) later =
      if is_stable_without_a_driver state
      then later
      else (do recover_task r.id (note state); ids ← later; pure (r.id ∷ ids))

  unfoldable pub recover_rows : (AgentState → String) → List Row → Exec V (List ℕ)
  unfolding recover_row
  recover_rows note [] = pure []
  recover_rows note (r ∷ rs) = recover_row note r (state_from_text r.state) (recover_rows note rs)

  unfoldable pub recover_incomplete_tasks : (AgentState → String) → Exec V (List ℕ)
  unfolding ◌>>=◌ recover_rows
  recover_incomplete_tasks note = do rows ← gets (λ w. w.tasks); recover_rows note rows
