-- ===== src/Orchestrator/Router.antt =====
-- The routing of roles to models, with chains of fallbacks:
-- crates/valyria-orchestrator/src/router.rs, with the bindings of
-- crates/valyria-model-registry/src/select.rs. The lock around the router is left out: a call that is
-- under way sees the router as it was when it began.
pub mod Chains
pub mod Actions
use valyria.Common.{
  ltb, leb, nat_eqb, if◌then◌else◌, ltb→lt, leb→le, le→leb, nat_eqb_iff, Bool-cases, Option-cases,
  &&-true, ||-true, is_some, unwrap_or, PartialEq, ◌==◌, ==_iff, ==_refl, ==_sym, option_eqb,
  option_eqb_iff, option_eq, string_eq, nat_eq, length, take, drop, last?, filterb, anyb, allb,
  findb, prefix_run, length-append, last?-append, length-filterb-le, filterb-append, findb-append,
  findb_sound, All, All-append, is_some-findb, anyb-append, All-map, All-findb, reverse-snoc,
  contains, contains-append, contains-filterb, lookup, remove, insert, lookup-remove, lookup-insert,
  length-take, length-drop, drop-drop, drop-append, take-append, place_by, sort_by, min_from,
  min_by, All-sort_by, All-sort_by_back, anyb-sort_by, All-filterb, min_by_lem, min_by_least, ℕ,
  zero, suc, ◌+◌, ◌-◌, ◌*◌, ◌/◌, ◌%◌, ◌≤◌, ◌<◌, String, ◌≡◌, refl, sym, ap, ◌∙◌, subst, ◌≢◌, ◌↔◌,
  ◌⊎◌, inl, inr, Bool, true, false, not, ◌&&◌, ◌||◌, Option, none, some, List, [], ◌∷◌, ◌++◌, map,
  reverse, append-nil, append_assoc, arith,
}
use valyria.Orchestrator.Role.{
  ModelRole, primary_coder, fast_coder, planner, reviewer, embedder, reranker, autocomplete,
  summarizer, discriminant, role_eqb, role_eqb_iff, role_eq, priority, escalates_to,
}
use valyria.Orchestrator.Structured.{
  FinishReason, stop, tool_calls, length_limit, cancelled, ask, Completion, ModelError,
  generation_cancelled, timeout, malformed_output, unavailable, retryable, Health, healthy,
  degraded, down, ExtractError, no_json, no_name, invalid_json, broken, Message, system, user,
  assistant, tool, not_a_tool_call, GenerateRequest, OrchestratorError, no_binding, model,
  unparseable_tool_call, Extraction, extracted, no_call, failed, Interpreted, calls_of, not_a_call,
  broken_call, Generated, completed, model_failed, ResolvedAction, runs, answers, Resolved, ok, err,
  no_fuel, Reader, Servers, fast_path, action_to_completion, interpreted, parsed, recovered,
  recover_from_text, extract, next_hint, reformat, after_extraction, after_fast_path,
  after_generate, ladder, resolve_action,
}

pub record RoleBinding : Type 0 where
  pub role : ModelRole
  pub primary : String
  pub fallbacks : List String

abbrev pub with_fallback : RoleBinding → String → RoleBinding
with_fallback binding id = record binding { fallbacks = binding.fallbacks ++ id ∷ [] }

-- The primary first, then the fallbacks.
abbrev pub chain : RoleBinding → List String
chain binding = binding.primary ∷ binding.fallbacks

pub record RoleRouter (R : Type 0) : Type 0 where
  pub runtimes : List (String × R)
  pub bindings : List (ModelRole × RoleBinding)

pub record RoutedCompletion (C : Type 0) : Type 0 where
  pub model_id : String
  pub completion : Completion C

-- Why a model of the chain was passed over, as the text of the error says.
pub data Skipped : Type 0 where
  unreachable : Skipped
  no_runtime : String → Skipped
  not_healthy : String → String → Skipped
  failed_with : OrchestratorError → Skipped

pub data RouteError : Type 0 where
  fatal : OrchestratorError → RouteError
  all_fallbacks_failed : ModelRole → Skipped → RouteError
  -- The ladder has run out of fuel.
  ladder_no_fuel : RouteError

pub data Route (C : Type 0) : Type 0 where
  routed : RoutedCompletion C → Route C
  refused : RouteError → Route C

-- What one model of the chain comes to.
pub data Attempt (C : Type 0) : Type 0 where
  done : Completion C → Attempt C
  skip : Skipped → Attempt C
  stops : RouteError → Attempt C

module _ {R : Type 0} where
  abbrev pub new : RoleRouter R
  new = record { runtimes = []; bindings = [] }

  abbrev pub register : RoleRouter R → String → R → RoleRouter R
  register router model_id runtime = record router {
    runtimes = insert model_id runtime router.runtimes;
  }

  abbrev pub unregister : RoleRouter R → String → RoleRouter R × Option R
  unregister router model_id = (
    record router { runtimes = remove model_id router.runtimes },
    lookup model_id router.runtimes,
  )

  abbrev pub bind : RoleRouter R → RoleBinding → RoleRouter R
  bind router binding = record router { bindings = insert binding.role binding router.bindings }

  abbrev pub bind_single : RoleRouter R → ModelRole → String → R → RoleRouter R
  bind_single router role model_id runtime =
      bind (register router model_id runtime)
        (record { role = role; primary = model_id; fallbacks = [] })

  abbrev pub clear : RoleRouter R → ModelRole → RoleRouter R × Option RoleBinding
  clear router role =
      (record router { bindings = remove role router.bindings }, lookup role router.bindings)

  abbrev pub is_bound : RoleRouter R → ModelRole → Bool
  is_bound router role = is_some (lookup role router.bindings)

module _ {S R C : Type 0} where
  -- A server that is not healthy is passed over.
  unfoldable pub if_healthy : (R → S → Attempt C × S) → String → R → Health × S → Attempt C × S
  if_healthy call id runtime (down reason, s) = (skip (not_healthy id reason), s)
  if_healthy call id runtime (healthy, s) = call runtime s
  if_healthy call id runtime (degraded reason, s) = call runtime s

module _ {S C : Type 0} where
  unfoldable pub next_candidate : (Skipped → S → Route C × S) → String → Attempt C × S → Route C × S
  next_candidate others id (done completion, s) =
      (routed (record { model_id = id; completion = completion }), s)
  next_candidate others id (skip why, s) = others why s
  next_candidate others id (stops e, s) = (refused e, s)

  unfoldable pub generated : Generated C × S → Attempt C × S
  generated (completed completion, s) = (done completion, s)
  generated (model_failed e, s) =
      (if retryable e then skip (failed_with (model e)) else stops (fatal (model e)), s)

  unfoldable pub acted : Resolved C × S → Attempt C × S
  unfolding action_to_completion
  acted (ok action, s) = (done (action_to_completion action), s)
  acted (err (model e), s) =
      (if retryable e then skip (failed_with (model e)) else stops (fatal (model e)), s)
  acted (err (unparseable_tool_call attempts detail), s) =
      (skip (failed_with (unparseable_tool_call attempts detail)), s)
  acted (err (no_binding role), s) = (stops (fatal (no_binding role)), s)
  acted (no_fuel, s) = (stops ladder_no_fuel, s)

module _ {S R Q C : Type 0} (servers : Servers S R Q C) where
  unfoldable pub candidate_at : (R → S → Attempt C × S) → String → S → Option R → Attempt C × S
  unfolding if_healthy
  candidate_at call id s none = (skip (no_runtime id), s)
  candidate_at call id s (some runtime) = if_healthy call id runtime (servers.health runtime s)

  -- One round of the loop over the chain.
  unfoldable pub candidate : (R → S → Attempt C × S) → RoleRouter R → String → S → Attempt C × S
  unfolding candidate_at
  candidate call router id s = candidate_at call id s (lookup id router.runtimes)

  unfoldable pub walk :
      (R → S → Attempt C × S) → RoleRouter R → ModelRole → List String → Skipped → S → Route C × S
  unfolding candidate next_candidate
  walk call router role [] last s = (refused (all_fallbacks_failed role last), s)
  walk call router role (id ∷ ids) last s =
      next_candidate (walk call router role ids) id (candidate call router id s)

  unfoldable pub route :
      (R → S → Attempt C × S) → RoleRouter R → ModelRole → S → Option RoleBinding → Route C × S
  unfolding walk
  route call router role s none = (refused (fatal (no_binding role)), s)
  route call router role s (some binding) = walk call router role (chain binding) unreachable s

  unfoldable pub generate : RoleRouter R → ModelRole → GenerateRequest Q → S → Route C × S
  unfolding route generated
  generate router role req s =
      route (λ runtime t. generated (servers.generate runtime req t)) router role s
        (lookup role router.bindings)

module _ {S R Q C V : Type 0} (servers : Servers S R Q C) (reader : Reader C V) where
  unfoldable pub generate_action :
      RoleRouter R → ModelRole → GenerateRequest Q → ℕ → S → Route C × S
  unfolding route acted resolve_action
  generate_action router role req max_retries s =
      route servers (λ runtime t. acted (resolve_action servers reader runtime req max_retries t))
        router role s (lookup role router.bindings)
