-- ===== src/Task/Kinds.antt =====
-- The effect and outcome tags of the journal: `kinds` of crates/valyria-task/src/types.rs.
use valyria.Common.{String}

abbrev pub model_call : String
model_call = "model_call"

abbrev pub model_completion : String
model_completion = "model_completion"

abbrev pub context_retrieved : String
context_retrieved = "context_retrieved"

abbrev pub tool : String
tool = "tool"

abbrev pub tool_result : String
tool_result = "tool_result"

abbrev pub tool_denied : String
tool_denied = "tool_denied"

abbrev pub permission_ask : String
permission_ask = "permission_ask"

abbrev pub user_response : String
user_response = "user_response"

abbrev pub verify : String
verify = "verify"

abbrev pub verify_result : String
verify_result = "verify_result"

abbrev pub diagnosis : String
diagnosis = "diagnosis"

abbrev pub loop_detected : String
loop_detected = "loop_detected"

abbrev pub repair_decision : String
repair_decision = "repair_decision"

abbrev pub repair_attempt : String
repair_attempt = "repair_attempt"

abbrev pub plan_accepted : String
plan_accepted = "plan_accepted"

abbrev pub plan_rejected : String
plan_rejected = "plan_rejected"

abbrev pub plan_step_started : String
plan_step_started = "plan_step_started"

abbrev pub plan_step_completed : String
plan_step_completed = "plan_step_completed"

abbrev pub plan_checkpoint : String
plan_checkpoint = "plan_checkpoint"

abbrev pub plan_rollback : String
plan_rollback = "plan_rollback"

abbrev pub plan_scope_expansion : String
plan_scope_expansion = "plan_scope_expansion"

abbrev pub subtask_started : String
subtask_started = "subtask_started"

abbrev pub subtask_completed : String
subtask_completed = "subtask_completed"

abbrev pub artifact_published : String
artifact_published = "artifact_published"
