-- ===== src/Orchestrator/Structured/Attempts.antt =====
-- How often the ladder asks the model: crates/valyria-orchestrator/src/structured.rs.
use mathlib.Core.Option.{none}
use valyria.Orchestrator.Structured.{
  no_call, reformat, failed, unparseable_tool_call, model, answers, err, model_failed, runs,
  ModelError, completed, extracted, ok, Generated, Completion, Extraction, GenerateRequest,
  ExtractError, resolve_action, ladder, after_generate, after_fast_path, after_extraction,
  ResolvedAction, Reader, Resolved, Servers,
}
use valyria.Common.{
  zero, suc, ◌≡◌, inl, inr, subst, false, ltb, arith, Bool-cases, some, Option, ◌≤◌, ◌<◌, String,
  ◌+◌, ℕ, option_eq, string_eq, nat_eq,
}

module _ {S R Q C : Type 0} (servers : Servers S R Q C) where
  -- The servers, with a count of the answers that they were asked for.
  abbrev pub counted : Servers (S × ℕ) R Q C
  counted = record {
    health = λ r w. ((servers.health r w.0).0, ((servers.health r w.0).1, w.1));
    generate =
        λ r req w. ((servers.generate r req w.0).0, ((servers.generate r req w.0).1, w.1 + 1));
  }

-- The result of the ladder with `max_retries` retries, and the number of answers.
pub data Climbed {C : Type 0} (max_retries : ℕ) : Resolved C → ℕ → Type 0 where
  resolved :
      (a : ResolvedAction C) (n : ℕ) → 0 < n → n ≤ max_retries + 1 → Climbed max_retries (ok a) n
  model_error :
      (e : ModelError) (n : ℕ) → 0 < n → n ≤ max_retries + 1 → Climbed max_retries (err (model e)) n
  given_up :
      (d : ExtractError)
      → Climbed max_retries (err (unparseable_tool_call (max_retries + 1) d)) (max_retries + 1)

module _ {S R Q C V : Type 0} (servers : Servers S R Q C) (reader : Reader C V)
    (max_retries : ℕ) where
  abbrev Ends : Resolved C × (S × ℕ) → Type 0
  Ends r = Climbed max_retries r.0 r.1.1

  after_extraction-Ends :
      (retry : ExtractError → S × ℕ → Resolved C × (S × ℕ)) (attempts : ℕ) (text : String) (s : S)
      (x : Extraction C)
      → attempts < max_retries + 1
      → (attempts + 1 ≤ max_retries → (d : ExtractError) → Ends (retry d (s, attempts + 1)))
      → Ends (after_extraction retry (attempts + 1) max_retries text (s, attempts + 1) x)
  unfolding after_extraction
  after_extraction-Ends retry attempts text s (extracted calls) low next =
      resolved (runs calls) (attempts + 1) (omega arith) (omega arith)
  after_extraction-Ends retry attempts text s no_call low next =
      resolved (answers text false) (attempts + 1) (omega arith) (omega arith)
  after_extraction-Ends retry attempts text s (failed d) low next =
      elim (Bool-cases (ltb max_retries (attempts + 1))) [
        | inl t ↦ rw t (
            let last : max_retries + 1 ≡ attempts + 1 = ground arith in
            subst (λ n. Climbed {C = C} max_retries (err (unparseable_tool_call n d)) n) last
              (given_up d))
        | inr f ↦ rw f (next (ground arith) d)
      ]

  after_fast_path-Ends :
      (retry : ExtractError → S × ℕ → Resolved C × (S × ℕ)) (attempts : ℕ)
      (completion : Completion C) (s : S) (fast : Option (ResolvedAction C))
      → attempts < max_retries + 1
      → (attempts + 1 ≤ max_retries → (d : ExtractError) → Ends (retry d (s, attempts + 1)))
      → Ends (
          after_fast_path reader retry (attempts + 1) max_retries completion (s, attempts + 1) fast)
  unfolding after_fast_path
  after_fast_path-Ends retry attempts completion s (some action) low next =
      resolved action (attempts + 1) (omega arith) (omega arith)
  after_fast_path-Ends retry attempts completion s none low next =
      after_extraction-Ends retry attempts completion.text s _ low next

  after_generate-Ends :
      (retry : String → ExtractError → S × ℕ → Resolved C × (S × ℕ)) (attempts : ℕ)
      (g : Generated C) (s : S)
      → attempts < max_retries + 1
      → (attempts + 1 ≤ max_retries
          → (text : String) (d : ExtractError) → Ends (retry text d (s, attempts + 1)))
      → Ends (after_generate reader retry (attempts + 1) max_retries (g, (s, attempts + 1)))
  unfolding after_generate
  after_generate-Ends retry attempts (completed completion) s low next =
      after_fast_path-Ends (retry completion.text) attempts completion s _ low
        (λ more. next more completion.text)
  after_generate-Ends retry attempts (model_failed e) s low next =
      model_error e (attempts + 1) (omega arith) (omega arith)

  ladder-Ends :
      (fuel : ℕ) (runtime : R) (req : GenerateRequest Q) (attempts : ℕ) (s : S)
      → attempts + fuel ≡ max_retries + 1
      → 0 < fuel
      → Ends (ladder (counted servers) reader fuel runtime req attempts max_retries (s, attempts))
  unfolding ladder
  ladder-Ends zero runtime req attempts s sum some_fuel = absurd (omega arith)
  ladder-Ends (suc fuel) runtime req attempts s sum some_fuel =
      after_generate-Ends _ attempts _ _ (omega arith) (λ more text d.
        ladder-Ends fuel runtime (reformat req text d) (attempts + 1) _ (omega arith) (omega arith))

  -- The ladder asks the model at least once, and at most once more than it may retry. It ends with
  -- an action, with the error of the model, or, only after all of the retries, with the error that
  -- the answer cannot be parsed, which gives the number of answers.
  pub resolve_action-Climbed :
      (runtime : R) (req : GenerateRequest Q) (s : S)
      → Climbed max_retries
          (resolve_action (counted servers) reader runtime req max_retries (s, 0)).0
          (resolve_action (counted servers) reader runtime req max_retries (s, 0)).1.1
  unfolding resolve_action
  resolve_action-Climbed runtime req s =
      ladder-Ends (max_retries + 1) runtime req 0 s (omega arith) (omega arith)
