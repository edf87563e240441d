-- ===== src/Orchestrator/Router/Actions.antt =====
-- What a routed action looks like: crates/valyria-orchestrator/src/router.rs and structured.rs.
use valyria.Common.{
  ◌≡◌, subst, [], ◌∷◌, zero, suc, ◌+◌, inl, inr, ◌⊎◌, true, false, Bool, Bool-cases, lookup, ℕ,
  String, List, Option, none, some, ltb, option_eq, string_eq, nat_eq,
}
use valyria.Orchestrator.Role.{ModelRole, role_eq}
use valyria.Orchestrator.Structured.{
  Reader, Servers, Completion, GenerateRequest, Resolved, ResolvedAction, Extraction, ExtractError,
  Generated, Interpreted, Health, FinishReason, stop, tool_calls, length_limit, cancelled, ask,
  healthy, degraded, down, no_binding, model, unparseable_tool_call, extracted, no_call, failed,
  calls_of, not_a_call, broken_call, completed, model_failed, runs, answers, ok, err, no_fuel,
  interpreted, parsed, recovered, recover_from_text, extract, fast_path, action_to_completion,
  reformat, after_extraction, after_fast_path, after_generate, ladder, resolve_action, retryable,
}
use valyria.Orchestrator.Router.{
  RoleBinding, RoleRouter, RoutedCompletion, Route, routed, refused, Attempt, done, skip, stops,
  Skipped, chain, unreachable, if_healthy, next_candidate, candidate_at, candidate, walk, route,
  acted, generate_action,
}

-- One call of a tool, a question to the user, or the end of the task.
pub data OneAction {C : Type 0} : Completion C → Type 0 where
  calls_tool :
      (c : C) → OneAction (record { text = ""; calls = c ∷ []; finish_reason = tool_calls })
  asks_user : (text : String) → OneAction (record { text = text; calls = []; finish_reason = ask })
  finishes : (text : String) → OneAction (record { text = text; calls = []; finish_reason = stop })

module _ {C : Type 0} where
  abbrev Some : List C → Type 0
  Some [] = ⊥
  Some (c ∷ cs) = Unit

  abbrev Acts : ResolvedAction C → Type 0
  Acts (runs calls) = Some calls
  Acts (answers text asks) = Unit

  abbrev Reads : Extraction C → Type 0
  Reads (extracted calls) = Some calls
  Reads no_call = Unit
  Reads (failed d) = Unit

  abbrev Resolves : Resolved C → Type 0
  Resolves (ok action) = Acts action
  Resolves (err e) = Unit
  Resolves no_fuel = Unit

  abbrev Tries : Attempt C → Type 0
  Tries (done completion) = OneAction completion
  Tries (skip why) = Unit
  Tries (stops e) = Unit

  abbrev Routes : Route C → Type 0
  Routes (routed r) = OneAction r.completion
  Routes (refused e) = Unit

  action_to_completion-OneAction :
      (a : ResolvedAction C) → Acts a → OneAction (action_to_completion a)
  unfolding action_to_completion
  action_to_completion-OneAction (runs []) a = absurd a
  action_to_completion-OneAction (runs (c ∷ cs)) a = calls_tool c
  action_to_completion-OneAction (answers text true) a = asks_user text
  action_to_completion-OneAction (answers text false) a = finishes text

  abbrev Decides : Option (ResolvedAction C) → Type 0
  Decides none = Unit
  Decides (some a) = Acts a

  fast_path-Decides :
      (why : FinishReason) (calls : List C) (text : String) → Decides (fast_path why calls text)
  unfolding fast_path
  fast_path-Decides ask calls text = tt
  fast_path-Decides tool_calls (c ∷ []) text = tt
  fast_path-Decides tool_calls [] text = tt
  fast_path-Decides tool_calls (c ∷ d ∷ cs) text = tt
  fast_path-Decides stop calls text = tt
  fast_path-Decides length_limit calls text = tt
  fast_path-Decides cancelled calls text = tt

module _ {C V : Type 0} (reader : Reader C V) where
  interpreted-Reads : (intended : Bool) (x : Interpreted C) → Reads (interpreted reader intended x)
  unfolding interpreted
  interpreted-Reads intended (calls_of []) = tt
  interpreted-Reads intended (calls_of (c ∷ cs)) = tt
  interpreted-Reads true not_a_call = tt
  interpreted-Reads false not_a_call = tt
  interpreted-Reads intended (broken_call why) = tt

  parsed-Reads : (intended : Bool) (x : String ⊎ V) → Reads (parsed reader intended x)
  unfolding parsed
  parsed-Reads intended (inl e) = tt
  parsed-Reads intended (inr v) = interpreted-Reads intended (reader.interpret v)

  recovered-Reads : (intended : Bool) (x : Option String) → Reads (recovered reader intended x)
  unfolding recovered
  recovered-Reads true none = tt
  recovered-Reads false none = tt
  recovered-Reads intended (some slice) = parsed-Reads intended (reader.parse_lenient slice)

  extract-Reads : (calls : List C) (text : String) → Reads (extract reader calls text)
  unfolding extract recover_from_text
  extract-Reads [] text = recovered-Reads _ _
  extract-Reads (c ∷ cs) text = tt

module _ {S C : Type 0} where
  after_extraction-Resolves :
      (retry : ExtractError → S → Resolved C × S) (attempts max_retries : ℕ) (text : String) (s : S)
      (x : Extraction C)
      → Reads x
      → ((d : ExtractError) (t : S) → Resolves (retry d t).0)
      → Resolves (after_extraction retry attempts max_retries text s x).0
  unfolding after_extraction
  after_extraction-Resolves retry attempts max_retries text s (extracted calls) x next = x
  after_extraction-Resolves retry attempts max_retries text s no_call x next = tt
  after_extraction-Resolves retry attempts max_retries text s (failed d) x next =
      elim (Bool-cases (ltb max_retries attempts)) [ inl t ↦ rw t tt | inr f ↦ rw f (next d s) ]

  acted-Tries : (r : Resolved C) (s : S) → Resolves r → Tries (acted (r, s)).0
  unfolding acted
  acted-Tries (ok action) s h = action_to_completion-OneAction action h
  acted-Tries (err (no_binding role)) s h = tt
  acted-Tries (err (model e)) s h = elim (Bool-cases (retryable e)) [
    | inl t ↦ rw t tt
    | inr f ↦ rw f tt
  ]
  acted-Tries (err (unparseable_tool_call n d)) s h = tt
  acted-Tries no_fuel s h = tt

module _ {S R Q C V : Type 0} (servers : Servers S R Q C) (reader : Reader C V) where
  after_fast_path-Resolves :
      (retry : ExtractError → S → Resolved C × S) (attempts max_retries : ℕ)
      (completion : Completion C) (s : S) (fast : Option (ResolvedAction C))
      → Decides fast
      → ((d : ExtractError) (t : S) → Resolves (retry d t).0)
      → Resolves (after_fast_path reader retry attempts max_retries completion s fast).0
  unfolding after_fast_path
  after_fast_path-Resolves retry attempts max_retries completion s (some a) h next = h
  after_fast_path-Resolves retry attempts max_retries completion s none h next =
      after_extraction-Resolves retry attempts max_retries completion.text s _
        (extract-Reads reader completion.calls completion.text) next

  after_generate-Resolves :
      (retry : String → ExtractError → S → Resolved C × S) (attempts max_retries : ℕ)
      (g : Generated C) (s : S)
      → ((text : String) (d : ExtractError) (t : S) → Resolves (retry text d t).0)
      → Resolves (after_generate reader retry attempts max_retries (g, s)).0
  unfolding after_generate
  after_generate-Resolves retry attempts max_retries (completed completion) s next =
      after_fast_path-Resolves (retry completion.text) attempts max_retries completion s _
        (fast_path-Decides completion.finish_reason completion.calls completion.text)
        (next completion.text)
  after_generate-Resolves retry attempts max_retries (model_failed e) s next = tt

  ladder-Resolves :
      (fuel : ℕ) (runtime : R) (req : GenerateRequest Q) (attempts max_retries : ℕ) (s : S)
      → Resolves (ladder servers reader fuel runtime req attempts max_retries s).0
  unfolding ladder
  ladder-Resolves zero runtime req attempts max_retries s = tt
  ladder-Resolves (suc fuel) runtime req attempts max_retries s =
      after_generate-Resolves _ (attempts + 1) max_retries _ _ (λ text d t.
        ladder-Resolves fuel runtime (reformat req text d) (attempts + 1) max_retries t)

module _ {S R Q C : Type 0} (servers : Servers S R Q C) (call : R → S → Attempt C × S)
    (tries : (runtime : R) (s : S) → Tries (call runtime s).0) where
  if_healthy-Tries :
      (id : String) (runtime : R) (h : Health) (s : S) → Tries (if_healthy call id runtime (h, s)).0
  unfolding if_healthy
  if_healthy-Tries id runtime (down reason) s = tt
  if_healthy-Tries id runtime healthy s = tries runtime s
  if_healthy-Tries id runtime (degraded reason) s = tries runtime s

  candidate_at-Tries :
      (id : String) (s : S) (o : Option R) → Tries (candidate_at servers call id s o).0
  unfolding candidate_at
  candidate_at-Tries id s none = tt
  candidate_at-Tries id s (some runtime) = if_healthy-Tries id runtime _ _

  next-Routes :
      (others : Skipped → S → Route C × S) (id : String) (a : Attempt C) (s : S)
      → Tries a
      → ((why : Skipped) (t : S) → Routes (others why t).0)
      → Routes (next_candidate others id (a, s)).0
  unfolding next_candidate
  next-Routes others id (done completion) s h next = h
  next-Routes others id (skip why) s h next = next why s
  next-Routes others id (stops e) s h next = tt

  walk-Routes :
      (router : RoleRouter R) (role : ModelRole) (ids : List String) (last : Skipped) (s : S)
      → Routes (walk servers call router role ids last s).0
  unfolding walk candidate
  walk-Routes router role [] last s = tt
  walk-Routes router role (id ∷ ids) last s =
      next-Routes (walk servers call router role ids) id _ _
        (candidate_at-Tries id s (lookup id router.runtimes))
        (λ why t. walk-Routes router role ids why t)

  route-Routes :
      (router : RoleRouter R) (role : ModelRole) (s : S) (o : Option RoleBinding)
      → Routes (route servers call router role s o).0
  unfolding route
  route-Routes router role s none = tt
  route-Routes router role s (some binding) = walk-Routes router role (chain binding) unreachable s

module _ {S R Q C V : Type 0} (servers : Servers S R Q C) (reader : Reader C V) where
  -- Whatever the models answer, an action that is routed is exactly one call of a tool with no
  -- text, a question with no call, or a final answer with no call.
  pub generate_action-OneAction :
      (router : RoleRouter R) (role : ModelRole) (req : GenerateRequest Q) (max_retries : ℕ) (s : S)
      (r : RoutedCompletion C)
      → (generate_action servers reader router role req max_retries s).0 ≡ routed r
      → OneAction r.completion
  unfolding generate_action resolve_action
  generate_action-OneAction router role req max_retries s r h = subst Routes h (
      route-Routes servers
        (λ runtime t. acted (resolve_action servers reader runtime req max_retries t))
        (λ runtime t.
          acted-Tries _ _
            (ladder-Resolves servers reader (max_retries + 1) runtime req 0 max_retries t))
        router role s (lookup role router.bindings))
