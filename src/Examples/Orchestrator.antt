-- ===== src/Examples/Orchestrator.antt =====
-- The pool of models at concrete residents.
use valyria.Common.{
  ◌↔◌, inl, zero, suc, ◌+◌, none, some, true, if◌then◌else◌, ◌==◌, option_eq, string_eq, nat_eq, ℕ,
  ◌≤◌, ◌<◌, String, ◌≡◌, refl, false, List, [], ◌∷◌, arith,
}
use valyria.Orchestrator.Role.{
  ModelRole, primary_coder, planner, embedder, reranker, role_eq, priority,
}
use valyria.Orchestrator.Pool.{
  wont_fit, Resident, ModelPool, new, is_loaded, pick_victim, resident_at, err, admit,
}
use valyria.Orchestrator.Pool.Evictions.{protected}
use valyria.Orchestrator.Pool.Admissions.{Admitted, needed, admit-ok, admit-err}
use valyria.Orchestrator.Pool.Victims.{NoLater, pick_victim-NoLater}
use valyria.Orchestrator.Pool.Runs.{IsValid, Call, admits, evicts, run, run-IsValid}
use valyria.Orchestrator.Json.{first_json_value, scan}
use valyria.Orchestrator.Json.Scanned.{FirstValue}
use valyria.Orchestrator.Json.Complete.{first_json_value_iff}
use valyria.Orchestrator.Structured.{
  Completion, Servers, Reader, GenerateRequest, stop, tool_calls, down, healthy, completed, user,
  not_a_call, resolve_action, ladder, after_generate, after_fast_path, after_extraction, fast_path,
  extract, recover_from_text, recovered, reformat, action_to_completion,
}
use valyria.Orchestrator.Structured.Attempts.{Climbed, counted, resolve_action-Climbed}
use valyria.Orchestrator.Router.{
  RoleBinding, RoleRouter, RoutedCompletion, bind, register, new as empty_router, chain,
  unreachable, routed, generate_action, route, walk, candidate, candidate_at, if_healthy,
  next_candidate, acted,
}
use valyria.Orchestrator.Router.Chains.{Walked, act, generate_action-Walked}
use valyria.Orchestrator.Router.Actions.{OneAction, generate_action-OneAction}

abbrev resident : String → ModelRole → ℕ → ℕ → Resident
resident id role footprint last_used = record {
  id = id;
  role = role;
  footprint = footprint;
  last_used = last_used;
}

abbrev pool : ModelPool
pool = record {
  budget_bytes = 10;
  residents = resident "coder" primary_coder 6 1 ∷ resident "embed" embedder 3 2 ∷ [];
  tick = 2;
}

not_loaded : is_loaded pool "plan" ≡ false
unfolding is_loaded
not_loaded = refl

enough : needed pool planner 4 ≤ pool.budget_bytes
unfolding priority
enough = omega arith

admit-ok_example : Admitted pool "plan" planner 4 (admit pool "plan" planner 4)
admit-ok_example = admit-ok pool "plan" planner 4 not_loaded enough

too_much : pool.budget_bytes < needed pool planner 5
unfolding priority
too_much = omega arith

admit-err_example :
    ((admit pool "plan" planner 5).1 ≡ err (wont_fit "plan" 5 pool.budget_bytes))
    × ((admit pool "plan" planner 5).0.residents ≡ protected (priority planner) pool.residents)
admit-err_example = admit-err pool "plan" planner 5 not_loaded (omega arith) too_much

abbrev calls : List Call
calls =
    admits "coder" primary_coder 6
    ∷ admits "embed" embedder 3
    ∷ admits "plan" planner 4
    ∷ admits "rank" reranker 5
    ∷ evicts "plan"
    ∷ []

run-IsValid_example : IsValid (run (new 10) calls)
run-IsValid_example = run-IsValid 10 calls

abbrev three : List Resident
three =
    resident "coder" primary_coder 6 1
    ∷ resident "embed" embedder 3 2
    ∷ resident "rank" reranker 1 3
    ∷ []

last_picked : pick_victim three 80 ≡ some 2
unfolding pick_victim priority
last_picked = refl

embedder_low : priority embedder ≤ 80
unfolding priority
embedder_low = omega arith

pick_victim-NoLater_example :
    (r : Resident) × (resident_at 2 three ≡ some r)
    × (priority r.role ≤ 80)
    × NoLater r (resident "embed" embedder 3 2)
pick_victim-NoLater_example =
    pick_victim-NoLater three 80 2 1 (resident "embed" embedder 3 2) last_picked refl embedder_low

-- Two servers, of which the first is down. The second answers first with a text that is no call,
-- and then with a call; what it remembers is the number of its answers.
abbrev answer : ℕ → Completion String
answer zero = record { text = "tool_call"; calls = []; finish_reason = stop }
answer (suc n) = record { text = ""; calls = "read" ∷ []; finish_reason = tool_calls }

abbrev servers : Servers ℕ String ℕ String
servers = record {
  health = λ r s. (if r == "first" then down "refused" else healthy, s);
  generate = λ r req s. (completed (answer s), s + 1);
}

-- No text has a value in it.
abbrev reader : Reader String ℕ
reader = record {
  looks_like_a_tool_call_attempt = λ text. true;
  first_json_value = λ text. none;
  parse_lenient = λ text. inl text;
  interpret = λ value. not_a_call;
}

abbrev ask_for_work : GenerateRequest ℕ
ask_for_work = record { messages = user "go" ∷ []; rest = 0; turn_hint = some 0 }

abbrev coder : RoleBinding
coder = record { role = primary_coder; primary = "first"; fallbacks = "second" ∷ [] }

abbrev router : RoleRouter String
router = bind (register (register empty_router "first" "first") "second" "second") coder

resolve_action-Climbed_example :
    Climbed 2
      (resolve_action (counted servers) reader "second" ask_for_work 2 (0, 0)).0
      (resolve_action (counted servers) reader "second" ask_for_work 2 (0, 0)).1.1
resolve_action-Climbed_example = resolve_action-Climbed servers reader 2 "second" ask_for_work 0

generate_action-Walked_example :
    Walked servers
      (act servers reader ask_for_work 2)
      router
      primary_coder
      (chain coder)
      unreachable
      0
      (generate_action servers reader router primary_coder ask_for_work 2 0).0
      (generate_action servers reader router primary_coder ask_for_work 2 0).1
generate_action-Walked_example =
    generate_action-Walked servers reader router primary_coder coder ask_for_work 2 0 refl

abbrev read_by_second : RoutedCompletion String
read_by_second = record {
  model_id = "second";
  completion = record { text = ""; calls = "read" ∷ []; finish_reason = tool_calls };
}

second_answers :
    (generate_action servers reader router primary_coder ask_for_work 2 0).0 ≡ routed read_by_second
unfolding generate_action route walk candidate candidate_at if_healthy next_candidate acted
    action_to_completion resolve_action ladder after_generate after_fast_path after_extraction
    fast_path extract recover_from_text recovered reformat
second_answers = refl

generate_action-OneAction_example : OneAction read_by_second.completion
generate_action-OneAction_example =
    generate_action-OneAction servers reader router primary_coder ask_for_work 2 0 read_by_second
      second_answers

-- `ok: {"}":[]} .`
abbrev text_with_value : List ℕ
text_with_value = 111 ∷ 107 ∷ 58 ∷ 123 ∷ 34 ∷ 125 ∷ 34 ∷ 58 ∷ 91 ∷ 93 ∷ 125 ∷ 46 ∷ []

first_json_value_iff_example :
    (first_json_value text_with_value ≡ some (123 ∷ 34 ∷ 125 ∷ 34 ∷ 58 ∷ 91 ∷ 93 ∷ 125 ∷ []))
    ↔ FirstValue text_with_value (123 ∷ 34 ∷ 125 ∷ 34 ∷ 58 ∷ 91 ∷ 93 ∷ 125 ∷ [])
first_json_value_iff_example =
    first_json_value_iff text_with_value (123 ∷ 34 ∷ 125 ∷ 34 ∷ 58 ∷ 91 ∷ 93 ∷ 125 ∷ [])

value_found :
    first_json_value text_with_value ≡ some (123 ∷ 34 ∷ 125 ∷ 34 ∷ 58 ∷ 91 ∷ 93 ∷ 125 ∷ [])
unfolding first_json_value scan
value_found = refl
