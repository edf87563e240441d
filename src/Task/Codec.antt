-- ===== src/Task/Codec.antt =====
-- The text columns of the tasks table: crates/valyria-task/src/codec.rs.
use valyria.Common.{
  ◌≡◌, refl, String, Option, none, some, ◌==◌, string_eq, ==_iff, Bool-cases, inl, inr,
  if◌then◌else◌,
}
use valyria.State.{
  AgentState, idle, understanding, discovery, planning, implementing, verifying, diagnosing,
  repairing, waiting_for_permission, waiting_for_user, paused, completed, failed, cancelled,
  display,
}
use valyria.Task.Types.{ControlSignal, pause_requested, cancel_requested}

unfoldable pub state_to_text : AgentState → String
unfolding display
state_to_text state = display state

unfoldable pub signal_to_text : ControlSignal → String
signal_to_text pause_requested = "PAUSE"
signal_to_text cancel_requested = "CANCEL"

unfoldable pub signal_from_text : String → Option ControlSignal
signal_from_text s =
    if s == "PAUSE"
    then some pause_requested
    else if s == "CANCEL"
    then some cancel_requested
    else none

unfoldable pub state_from_text : String → Option AgentState
state_from_text s =
    if s == "IDLE"
    then some idle
    else if s == "UNDERSTANDING"
    then some understanding
    else if s == "DISCOVERY"
    then some discovery
    else if s == "PLANNING"
    then some planning
    else if s == "IMPLEMENTING"
    then some implementing
    else if s == "VERIFYING"
    then some verifying
    else if s == "DIAGNOSING"
    then some diagnosing
    else if s == "REPAIRING"
    then some repairing
    else if s == "WAITING_FOR_PERMISSION"
    then some waiting_for_permission
    else if s == "WAITING_FOR_USER"
    then some waiting_for_user
    else if s == "PAUSED"
    then some paused
    else if s == "COMPLETED"
    then some completed
    else if s == "FAILED"
    then some failed
    else if s == "CANCELLED"
    then some cancelled
    else none

-- Every state is read back from its column.
pub state_from_text-state_to_text : (s : AgentState) → state_from_text (state_to_text s) ≡ some s
unfolding state_from_text state_to_text
state_from_text-state_to_text idle = refl
state_from_text-state_to_text _ = refl

pub signal_from_text-signal_to_text :
    (s : ControlSignal) → signal_from_text (signal_to_text s) ≡ some s
unfolding signal_from_text signal_to_text
signal_from_text-signal_to_text pause_requested = refl
signal_from_text-signal_to_text cancel_requested = refl

-- One arm of the match, and the arms below it.
text_arm :
    (t literal : String) (a : AgentState) (below : Option AgentState) (s : AgentState)
    → state_to_text a ≡ literal
    → (below ≡ some s → state_to_text s ≡ t)
    → (if t == literal then some a else below) ≡ some s
    → state_to_text s ≡ t
text_arm t literal a below s e k h = elim (Bool-cases (t == literal)) [
  | inl hit ↦ cc (e, (==_iff t literal).0 hit, rw hit at h)
  | inr miss ↦ k (rw miss at h)
]

-- A text that reads as a state is that state's own text: the column holds no other spelling.
state_to_text-state_from_text :
    (t : String) (s : AgentState) → state_from_text t ≡ some s → state_to_text s ≡ t
unfolding state_from_text state_to_text
state_to_text-state_from_text t s = text_arm t "IDLE" idle _ s refl (
    text_arm t "UNDERSTANDING" understanding _ s refl (
      text_arm t "DISCOVERY" discovery _ s refl (
        text_arm t "PLANNING" planning _ s refl (
          text_arm t "IMPLEMENTING" implementing _ s refl (
            text_arm t "VERIFYING" verifying _ s refl (
              text_arm t "DIAGNOSING" diagnosing _ s refl (
                text_arm t "REPAIRING" repairing _ s refl (
                  text_arm t "WAITING_FOR_PERMISSION" waiting_for_permission _ s refl (
                    text_arm t "WAITING_FOR_USER" waiting_for_user _ s refl (
                      text_arm t "PAUSED" paused _ s refl (
                        text_arm t "COMPLETED" completed _ s refl (
                          text_arm t "FAILED" failed _ s refl
                            (text_arm t "CANCELLED" cancelled _ s refl (λ p. cc))))))))))))))
