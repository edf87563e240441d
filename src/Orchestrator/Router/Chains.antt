-- ===== src/Orchestrator/Router/Chains.antt =====
-- Which model of a chain answers: crates/valyria-orchestrator/src/router.rs.
use valyria.Orchestrator.Router.{
  all_fallbacks_failed, refused, unreachable, RouteError, chain, stops, routed, done, skip,
  candidate, Route, RoleBinding, acted, Skipped, route, generate_action, walk, next_candidate,
  RoleRouter, Attempt,
}
use valyria.Orchestrator.Structured.{Reader, Servers, Completion, GenerateRequest, resolve_action}
use valyria.Common.{
  ◌++◌, some, ◌≡◌, refl, ap, [], lookup, ◌∷◌, ℕ, String, List, option_eq, string_eq, nat_eq,
}
use valyria.Orchestrator.Role.{ModelRole, role_eq}

module _ {S R Q C : Type 0} (servers : Servers S R Q C) (call : R → S → Attempt C × S)
    (router : RoleRouter R) where
  -- The models of the list are passed over in turn; `last` is the reason for the last of them, or
  -- the first `last` if there is none.
  pub data PassedOver : List String → Skipped → S → Skipped → S → Type 0 where
    nobody : (last : Skipped) (s : S) → PassedOver [] last s last s
    passed :
        (id : String) (ids : List String) (last why last' : Skipped) (s t u : S)
        → candidate servers call router id s ≡ (skip why, t)
        → PassedOver ids why t last' u
        → PassedOver (id ∷ ids) last s last' u

  -- What a chain comes to.
  pub data Walked (role : ModelRole) (ids : List String) (last : Skipped) (s : S)
      : Route C → S → Type 0 where
    answered :
        (before after : List String) (id : String) (completion : Completion C) (why : Skipped)
        (t u : S)
        → ids ≡ before ++ id ∷ after
        → PassedOver before last s why t
        → candidate servers call router id t ≡ (done completion, u)
        → Walked role ids last s (routed (record { model_id = id; completion = completion })) u
    stopped :
        (before after : List String) (id : String) (e : RouteError) (why : Skipped) (t u : S)
        → ids ≡ before ++ id ∷ after
        → PassedOver before last s why t
        → candidate servers call router id t ≡ (stops e, u)
        → Walked role ids last s (refused e) u
    exhausted :
        (why : Skipped) (t : S)
        → PassedOver ids last s why t
        → Walked role ids last s (refused (all_fallbacks_failed role why)) t

  Walked-cons :
      (role : ModelRole) (id : String) (ids : List String) (last why : Skipped) (s t : S)
      (r : Route C) (u : S)
      → candidate servers call router id s ≡ (skip why, t)
      → Walked role ids why t r u
      → Walked role (id ∷ ids) last s r u
  Walked-cons role id ids last why s t r u first
        (answered before after other completion why' t' u' split over last_one) =
      answered (id ∷ before) after other completion why' t' u' (ap (λ l. id ∷ l) split)
        (passed id before last why why' s t t' first over) last_one
  Walked-cons role id ids last why s t r u first
        (stopped before after other e why' t' u' split over last_one) =
      stopped (id ∷ before) after other e why' t' u' (ap (λ l. id ∷ l) split)
        (passed id before last why why' s t t' first over) last_one
  Walked-cons role id ids last why s t r u first (exhausted why' t' over) =
      exhausted why' t' (passed id ids last why why' s t t' first over)

  next-Walked :
      (role : ModelRole) (id : String) (ids : List String) (last : Skipped) (s : S) (a : Attempt C)
      (t : S)
      → candidate servers call router id s ≡ (a, t)
      → ((why : Skipped)
          → Walked role ids why t
              (walk servers call router role ids why t).0
              (walk servers call router role ids why t).1)
      → Walked role
          (id ∷ ids)
          last
          s
          (next_candidate (walk servers call router role ids) id (a, t)).0
          (next_candidate (walk servers call router role ids) id (a, t)).1
  unfolding next_candidate
  next-Walked role id ids last s (done completion) t e rest =
      answered [] ids id completion last s t refl (nobody last s) e
  next-Walked role id ids last s (stops error) t e rest =
      stopped [] ids id error last s t refl (nobody last s) e
  next-Walked role id ids last s (skip why) t e rest =
      Walked-cons role id ids last why s t _ _ e (rest why)

  walk-Walked :
      (role : ModelRole) (ids : List String) (last : Skipped) (s : S)
      → Walked role ids last s
          (walk servers call router role ids last s).0
          (walk servers call router role ids last s).1
  unfolding walk
  walk-Walked role [] last s = exhausted last s (nobody last s)
  walk-Walked role (id ∷ ids) last s =
      next-Walked role id ids last s _ _ refl (λ why. walk-Walked role ids why _)

module _ {S R Q C V : Type 0} (servers : Servers S R Q C) (reader : Reader C V) where
  -- One model of the chain, asked for an action.
  abbrev pub act : GenerateRequest Q → ℕ → R → S → Attempt C × S
  act req max_retries runtime s = acted (resolve_action servers reader runtime req max_retries s)

module _ {S R Q C V : Type 0} (servers : Servers S R Q C) (reader : Reader C V)
    (router : RoleRouter R) where
  -- A role with a binding is answered by the first model of its chain that is not passed over, and
  -- the models before it are asked in turn, each in the state that the one before it left; if that
  -- model fails for good, its error is the answer; and only if all of them are passed over, the
  -- answer is that every model failed, with the reason of the last.
  pub generate_action-Walked :
      (role : ModelRole) (binding : RoleBinding) (req : GenerateRequest Q) (max_retries : ℕ) (s : S)
      → lookup role router.bindings ≡ some binding
      → Walked servers
          (act servers reader req max_retries)
          router
          role
          (chain binding)
          unreachable
          s
          (generate_action servers reader router role req max_retries s).0
          (generate_action servers reader router role req max_retries s).1
  unfolding generate_action route
  generate_action-Walked role binding req max_retries s bound = rw bound (
      walk-Walked servers (act servers reader req max_retries) router role (chain binding)
        unreachable s)
