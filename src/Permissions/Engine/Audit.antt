-- ===== src/Permissions/Engine/Audit.antt =====
-- The journal that crates/valyria-permissions/src/engine.rs keeps of its decisions, over every
-- sequence of calls.
use valyria.Common.{
  ℕ, suc, ◌+◌, ◌≡◌, refl, sym, ap, ◌∙◌, inl, inr, Option-cases, ◌⊎◌, Option, List, [], ◌∷◌, ◌++◌,
  arith, length, length-append, All, All-append, append_assoc, append-nil,
}
use valyria.Permissions.Request.{
  PermissionMode, PermissionRequest, filesystem, shell, git_history_modification,
}
use valyria.Permissions.Rules.{DefaultDecision, default_decision}
use valyria.Permissions.Rules.Table.{
  AutoAllowed, default_decision-AutoAllowed, default_decision-deny,
}
use valyria.Permissions.Grants.{GrantScope, find_covering}
use valyria.Permissions.Engine.{
  PermissionEngine, DecisionRecord, allowed, denied, asked, default_rule, set_mode, set_task_mode,
  clear_task_mode, effective_mode, evaluate, approve, by_default, by_grant,
}

-- The public calls that change the engine, with the clock's reading where it is read.
pub data Call : Type 0 where
  evaluates : PermissionRequest → ℕ → Call
  approves : PermissionRequest → GrantScope → Option ℕ → ℕ → Call
  sets_mode : PermissionMode → Call
  sets_task_mode : ℕ → PermissionMode → Call
  clears_task_mode : ℕ → Call

pub step : PermissionEngine → Call → PermissionEngine
step e (evaluates req now) = (evaluate e req now).0
step e (approves req scope exp now) = (approve e req scope exp now).0
step e (sets_mode m) = set_mode e m
step e (sets_task_mode t m) = set_task_mode e t m
step e (clears_task_mode t) = clear_task_mode e t

pub run : PermissionEngine → List Call → PermissionEngine
run e [] = e
run e (c ∷ cs) = run (step e c) cs

-- The calls that decide something.
abbrev pub decisions : List Call → ℕ
decisions [] = 0
decisions (evaluates req now ∷ cs) = suc (decisions cs)
decisions (approves req scope exp now ∷ cs) = suc (decisions cs)
decisions (_ ∷ cs) = decisions cs

-- A record that can be explained: what a default rule allowed is a file system or shell action,
-- what was denied would rewrite the git history and was denied by a default rule, and only a
-- default rule asks.
pub record IsExplained (r : DecisionRecord) : Type 0 where
  pub by_rule :
      r.outcome ≡ allowed
      → r.source ≡ default_rule
      → (r.category ≡ filesystem) ⊎ (r.category ≡ shell)
  pub by_denial :
      r.outcome ≡ denied → (r.source ≡ default_rule) × (r.category ≡ git_history_modification)
  pub by_question : r.outcome ≡ asked → r.source ≡ default_rule

auto_category :
    (m : PermissionMode) (req : PermissionRequest)
    → AutoAllowed m req
    → (req.category ≡ filesystem) ⊎ (req.category ≡ shell)
auto_category m req (inl (f, _)) = inl f
auto_category m req (inr (s, _)) = inr s

-- One engine's journal continues another's by `n` explained records.
pub record Continues (n : ℕ) (before after : List DecisionRecord) : Type 0 where
  pub added : List DecisionRecord
  pub split : after ≡ before ++ added
  pub count : length added ≡ n
  pub explained : All IsExplained added

Continues-none : (js : List DecisionRecord) → Continues 0 js js
Continues-none js = record { added = []; split = sym (append-nil js); count = refl; explained = tt }

Continues-one :
    (js : List DecisionRecord) (r : DecisionRecord) → IsExplained r → Continues 1 js (js ++ r ∷ [])
Continues-one js r h = record { added = r ∷ []; split = refl; count = refl; explained = (h, tt) }

Continues-trans :
    {m n : ℕ} {a b c : List DecisionRecord}
    → Continues m a b
    → Continues n b c
    → Continues (m + n) a c
Continues-trans {a} f g = record {
  added = f.added ++ g.added;
  split = g.split ∙ ap (λ js. js ++ g.added) f.split ∙ append_assoc a f.added g.added;
  count = omega (arith, length-append f.added g.added, f.count, g.count);
  explained = All-append IsExplained f.added g.added f.explained g.explained;
}

by_default-Continues :
    (e : PermissionEngine) (req : PermissionRequest) (now : ℕ) (d : DefaultDecision)
    → default_decision (effective_mode e req.task_id) req ≡ d
    → Continues 1 e.journal (by_default e req now d).0.journal
unfolding by_default
by_default-Continues e req now DefaultDecision.allow h = Continues-one e.journal _ (record {
  by_rule = λ _ _. auto_category _ req ((default_decision-AutoAllowed _ req).0 h);
  by_denial = λ p. cc;
  by_question = λ p. cc;
})
by_default-Continues e req now DefaultDecision.deny h = Continues-one e.journal _ (record {
  by_rule = λ p. cc;
  by_denial = λ _. (refl, (default_decision-deny _ req).0 h);
  by_question = λ p. cc;
})
by_default-Continues e req now DefaultDecision.ask h =
    Continues-one e.journal _
      (record { by_rule = λ p. cc; by_denial = λ p. cc; by_question = λ _. refl })

evaluate-Continues :
    (e : PermissionEngine) (req : PermissionRequest) (now : ℕ)
    → Continues 1 e.journal (evaluate e req now).0.journal
unfolding evaluate
evaluate-Continues e req now = elim (Option-cases (find_covering req e.session now e.grants)) [
  | inl none_covers ↦ rw (none_covers, by_grant) (by_default-Continues e req now _ refl)
  | inr (g, found) ↦
      rw (found, by_grant)
        (Continues-one e.journal _
          (record { by_rule = λ _ p. cc; by_denial = λ p. cc; by_question = λ p. cc }))
]

step-Continues :
    (e : PermissionEngine) (c : Call) → Continues (decisions (c ∷ [])) e.journal (step e c).journal
unfolding step approve set_mode set_task_mode clear_task_mode
step-Continues e (evaluates req now) = evaluate-Continues e req now
step-Continues e (approves req scope exp now) =
    Continues-one e.journal _
      (record { by_rule = λ _ p. cc; by_denial = λ p. cc; by_question = λ p. cc })
step-Continues e (sets_mode m) = Continues-none e.journal
step-Continues e (sets_task_mode t m) = Continues-none e.journal
step-Continues e (clears_task_mode t) = Continues-none e.journal

decisions-cons :
    (c : Call) (cs : List Call) → decisions (c ∷ cs) ≡ decisions (c ∷ []) + decisions cs
decisions-cons (evaluates req now) cs = omega arith
decisions-cons (approves req scope exp now) cs = omega arith
decisions-cons _ cs = omega arith

-- Over any sequence of calls the journal only grows, by one record for each `evaluate` and
-- `approve`, and each new record is explained: what a default rule allowed is a file system or
-- shell action, what was denied would rewrite the git history, and only a default rule asks.
pub run-Continues :
    (e : PermissionEngine) (cs : List Call) → Continues (decisions cs) e.journal (run e cs).journal
unfolding run
run-Continues e [] = Continues-none e.journal
run-Continues e (c ∷ cs) =
    rw (decisions-cons c cs) (Continues-trans (step-Continues e c) (run-Continues (step e c) cs))
