-- ===== src/Orchestrator/Structured.antt =====
-- The ladder that turns a model's answer into an action:
-- crates/valyria-orchestrator/src/structured.rs, with the types of crates/valyria-model/src. `C` is
-- the type of a tool call, `V` that of a JSON value, `R` that of the handle of a model server and `S`
-- that of what the servers remember. The usage of tokens and what is
-- written to the log of the program are left out.
pub mod Attempts
use valyria.Common.{
  ltb, leb, nat_eqb, if◌then◌else◌, ltb→lt, leb→le, le→leb, nat_eqb_iff, Bool-cases, Option-cases,
  &&-true, ||-true, is_some, unwrap_or, PartialEq, ◌==◌, ==_iff, ==_refl, ==_sym, option_eqb,
  option_eqb_iff, option_eq, string_eq, nat_eq, length, take, drop, last?, filterb, anyb, allb,
  findb, prefix_run, length-append, last?-append, length-filterb-le, filterb-append, findb-append,
  findb_sound, All, All-append, is_some-findb, anyb-append, All-map, All-findb, reverse-snoc,
  contains, contains-append, contains-filterb, lookup, remove, insert, lookup-remove, lookup-insert,
  length-take, length-drop, drop-drop, drop-append, take-append, place_by, sort_by, min_from,
  min_by, All-sort_by, All-sort_by_back, anyb-sort_by, All-filterb, min_by_lem, min_by_least, ℕ,
  zero, suc, ◌+◌, ◌-◌, ◌*◌, ◌/◌, ◌%◌, ◌≤◌, ◌<◌, String, ◌≡◌, refl, sym, ap, ◌∙◌, subst, ◌≢◌, ◌↔◌,
  ◌⊎◌, inl, inr, Bool, true, false, not, ◌&&◌, ◌||◌, Option, none, some, List, [], ◌∷◌, ◌++◌, map,
  reverse, append-nil, append_assoc, arith,
}
use valyria.Orchestrator.Role.{ModelRole}

pub data FinishReason : Type 0 where
  stop tool_calls length_limit cancelled ask : FinishReason

pub record Completion (C : Type 0) : Type 0 where
  pub text : String
  pub calls : List C
  pub finish_reason : FinishReason

pub data ModelError : Type 0 where
  generation_cancelled timeout : ModelError
  malformed_output unavailable : String → ModelError

abbrev pub retryable : ModelError → Bool
retryable timeout = true
retryable (unavailable reason) = true
retryable _ = false

pub data Health : Type 0 where
  healthy : Health
  degraded down : String → Health

-- Why no tool call could be read, as the text of the error says.
pub data ExtractError : Type 0 where
  no_json no_name : ExtractError
  invalid_json broken : String → ExtractError

pub data Message : Type 0 where
  system user assistant tool : String → Message
  -- The user message that asks for a well-formed tool call.
  not_a_tool_call : ExtractError → Message

-- The tools and the sampling parameters are in `rest`.
pub record GenerateRequest (Q : Type 0) : Type 0 where
  pub messages : List Message
  pub rest : Q
  pub turn_hint : Option ℕ

pub data OrchestratorError : Type 0 where
  no_binding : ModelRole → OrchestratorError
  model : ModelError → OrchestratorError
  unparseable_tool_call : ℕ → ExtractError → OrchestratorError

pub data Extraction (C : Type 0) : Type 0 where
  extracted : List C → Extraction C
  no_call : Extraction C
  failed : ExtractError → Extraction C

pub data Interpreted (C : Type 0) : Type 0 where
  calls_of : List C → Interpreted C
  not_a_call : Interpreted C
  broken_call : String → Interpreted C

pub data Generated (C : Type 0) : Type 0 where
  completed : Completion C → Generated C
  model_failed : ModelError → Generated C

pub data ResolvedAction (C : Type 0) : Type 0 where
  runs : List C → ResolvedAction C
  answers : String → Bool → ResolvedAction C

pub data Resolved (C : Type 0) : Type 0 where
  ok : ResolvedAction C → Resolved C
  err : OrchestratorError → Resolved C
  -- The loop has run out of fuel.
  no_fuel : Resolved C

-- Reading JSON out of a text: whether it looks like an attempt at a call, its first balanced value,
-- the tolerant parser, and the reading of a value as calls.
pub record Reader (C V : Type 0) : Type 0 where
  pub looks_like_a_tool_call_attempt : String → Bool
  pub first_json_value : String → Option String
  pub parse_lenient : String → String ⊎ V
  pub interpret : V → Interpreted C

-- The servers of the models.
pub record Servers (S R Q C : Type 0) : Type 0 where
  pub health : R → S → Health × S
  pub generate : R → GenerateRequest Q → S → Generated C × S

module _ {C : Type 0} where
  -- The turn that an answer decides by itself.
  unfoldable pub fast_path : FinishReason → List C → String → Option (ResolvedAction C)
  fast_path ask calls text = some (answers text true)
  fast_path tool_calls (c ∷ []) text = some (runs (c ∷ []))
  fast_path _ calls text = none

  -- The completion that the driver is given: the first call only.
  unfoldable pub action_to_completion : ResolvedAction C → Completion C
  action_to_completion (runs []) = record { text = ""; calls = []; finish_reason = tool_calls }
  action_to_completion (runs (c ∷ cs)) = record {
    text = "";
    calls = c ∷ [];
    finish_reason = tool_calls;
  }
  action_to_completion (answers text true) = record { text = text; calls = []; finish_reason = ask }
  action_to_completion (answers text false) = record {
    text = text;
    calls = [];
    finish_reason = stop;
  }

module _ {C V : Type 0} (reader : Reader C V) where
  unfoldable pub interpreted : Bool → Interpreted C → Extraction C
  interpreted intended (calls_of []) = no_call
  interpreted intended (calls_of (c ∷ cs)) = extracted (c ∷ cs)
  interpreted intended not_a_call = if intended then failed no_name else no_call
  interpreted intended (broken_call why) = failed (broken why)

  unfoldable pub parsed : Bool → String ⊎ V → Extraction C
  unfolding interpreted
  parsed intended (inl e) = failed (invalid_json e)
  parsed intended (inr value) = interpreted intended (reader.interpret value)

  unfoldable pub recovered : Bool → Option String → Extraction C
  unfolding parsed
  recovered intended none = if intended then failed no_json else no_call
  recovered intended (some slice) = parsed intended (reader.parse_lenient slice)

  unfoldable pub recover_from_text : String → Extraction C
  unfolding recovered
  recover_from_text text =
      recovered (reader.looks_like_a_tool_call_attempt text) (reader.first_json_value text)

  unfoldable pub extract : List C → String → Extraction C
  unfolding recover_from_text
  extract [] text = recover_from_text text
  extract (c ∷ cs) text = extracted (c ∷ cs)

abbrev pub next_hint : Option ℕ → Option ℕ
next_hint none = none
next_hint (some hint) = some (hint + 1)

-- The request with the answer and the complaint about it.
unfoldable pub reformat :
    {Q : Type 0} → GenerateRequest Q → String → ExtractError → GenerateRequest Q
reformat req text detail = record req {
  messages = req.messages ++ assistant text ∷ not_a_tool_call detail ∷ [];
  turn_hint = next_hint req.turn_hint;
}

module _ {S C : Type 0} where
  -- What follows an extraction: `retry` is the next round of the loop.
  unfoldable pub after_extraction :
      (ExtractError → S → Resolved C × S) → ℕ → ℕ → String → S → Extraction C → Resolved C × S
  after_extraction retry attempts max_retries text s (extracted calls) = (ok (runs calls), s)
  after_extraction retry attempts max_retries text s no_call = (ok (answers text false), s)
  after_extraction retry attempts max_retries text s (failed detail) =
      if ltb max_retries attempts
      then (err (unparseable_tool_call attempts detail), s)
      else retry detail s

module _ {S C V : Type 0} (reader : Reader C V) where
  unfoldable pub after_fast_path :
      (ExtractError → S → Resolved C × S)
      → ℕ
      → ℕ
      → Completion C
      → S
      → Option (ResolvedAction C)
      → Resolved C × S
  unfolding after_extraction extract
  after_fast_path retry attempts max_retries completion s (some action) = (ok action, s)
  after_fast_path retry attempts max_retries completion s none =
      after_extraction retry attempts max_retries completion.text s
        (extract reader completion.calls completion.text)

  unfoldable pub after_generate :
      (String → ExtractError → S → Resolved C × S) → ℕ → ℕ → Generated C × S → Resolved C × S
  unfolding after_fast_path fast_path
  after_generate retry attempts max_retries (completed completion, s) =
      after_fast_path (retry completion.text) attempts max_retries completion s
        (fast_path completion.finish_reason completion.calls completion.text)
  after_generate retry attempts max_retries (model_failed e, s) = (err (model e), s)

module _ {S R Q C V : Type 0} (servers : Servers S R Q C) (reader : Reader C V) where
  -- The loop, with fuel; `attempts` is its value before the round.
  unfoldable pub ladder : ℕ → R → GenerateRequest Q → ℕ → ℕ → S → Resolved C × S
  unfolding after_generate reformat
  ladder zero runtime req attempts max_retries s = (no_fuel, s)
  ladder (suc fuel) runtime req attempts max_retries s =
      after_generate reader
        (λ text detail. ladder fuel runtime (reformat req text detail) (attempts + 1) max_retries)
        (attempts + 1) max_retries (servers.generate runtime req s)

  -- As many rounds as there are retries, and the first one.
  unfoldable pub resolve_action : R → GenerateRequest Q → ℕ → S → Resolved C × S
  unfolding ladder
  resolve_action runtime req max_retries s = ladder (max_retries + 1) runtime req 0 max_retries s
