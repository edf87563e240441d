-- ===== src/Examples/Edit.antt =====
-- Edits of concrete texts. A text is its own hash.
use valyria.Common.{
  lookup, PartialEq, option_eq, string_eq, nat_eq, ℕ, String, ◌≡◌, refl, ◌↔◌, true, none, some,
  List, [], ◌∷◌, arith,
}
use valyria.Edit.Strategy.{
  Text, exact_replacement, precondition_failed, library, ok, err, count_from, count_matches,
  replace_first, existing, replace_exact, apply_strategy,
}
use valyria.Edit.Strategy.Exact.{Split, replace_exact-Split}
use valyria.Edit.Transaction.{
  must_exist_with_hash, EditRequest, EditOutcome, Workspace, EditTransaction, check_precondition,
  text_eqb, verify_change, check_no_syntax_regression, planned, commit, apply_at, apply,
}
use valyria.Edit.Transaction.Atomic.{apply_failed, Applied, apply-Applied}
use valyria.Ledger.Runs.{Call, World, start, run, step, writes, changes, baselines}
use valyria.Ledger.{Origin, Stamp, entry, rollback_entry, record_baseline}
use valyria.Ledger.{ok as restored}
use valyria.Edit.Transaction.Undo.{edit_rolled_back}

text_eqb_iff : (s t : Text) → (text_eqb s t ≡ true) ↔ (s ≡ t)
text_eqb_iff [] [] = (λ h. refl, λ h. refl)
text_eqb_iff [] (d ∷ t) = (λ h. cc, λ h. cc)
text_eqb_iff (c ∷ s) [] = (λ h. cc, λ h. cc)
text_eqb_iff (c ∷ s) (d ∷ t) =
    (λ h. ground (arith, (text_eqb_iff s t).0), λ h. ground (arith, (text_eqb_iff s t).1))

instance abbrev text_eq : PartialEq Text
text_eq = record { eq = text_eqb; eq_iff = text_eqb_iff }

-- No patch applies, and nothing can be parsed.
abbrev transaction : EditTransaction Text ℕ
transaction = record {
  of_bytes = λ text. text;
  resolve = some;
  create_patch = λ before after. after;
  libraries = record {
    apply_patch = λ diff text. err (library diff);
    replace_symbol = λ symbol replacement text. err (library symbol);
    apply_transform = λ t text. err (library []);
  };
  languages = none;
}

-- The text 1 2 3 2 with 2 3 replaced by 9.
abbrev workspace : Workspace Text
workspace = record {
  files = ("main.rs", 1 ∷ 2 ∷ 3 ∷ 2 ∷ []) ∷ [];
  hash_cache = ("main.rs", 1 ∷ 2 ∷ 3 ∷ 2 ∷ []) ∷ [];
}

abbrev request : EditRequest Text ℕ
request = record {
  path = "main.rs";
  precondition = must_exist_with_hash (1 ∷ 2 ∷ 3 ∷ 2 ∷ []);
  strategy = exact_replacement (2 ∷ 3 ∷ []) (9 ∷ []);
}

abbrev stale : EditRequest Text ℕ
stale = record request { precondition = must_exist_with_hash [] }

abbrev outcome : EditOutcome Text
outcome = record {
  path = "main.rs";
  before_hash = some (1 ∷ 2 ∷ 3 ∷ 2 ∷ []);
  after_hash = 1 ∷ 9 ∷ 2 ∷ [];
  diff = 1 ∷ 9 ∷ 2 ∷ [];
  before_content = some (1 ∷ 2 ∷ 3 ∷ 2 ∷ []);
  after_content = 1 ∷ 9 ∷ 2 ∷ [];
}

replaced : replace_exact {H = Text} (2 ∷ 3 ∷ []) (9 ∷ []) (1 ∷ 2 ∷ 3 ∷ 2 ∷ []) ≡ ok (1 ∷ 9 ∷ 2 ∷ [])
unfolding replace_exact count_matches count_from replace_first
replaced = refl

replace_exact-Split_example : Split (2 ∷ 3 ∷ []) (9 ∷ []) (1 ∷ 2 ∷ 3 ∷ 2 ∷ []) (1 ∷ 9 ∷ 2 ∷ []) 0
replace_exact-Split_example =
    replace_exact-Split {H = Text} 2 (3 ∷ []) (9 ∷ []) (1 ∷ 2 ∷ 3 ∷ 2 ∷ []) (1 ∷ 9 ∷ 2 ∷ [])
      replaced

refused :
    (apply transaction workspace stale).0
    ≡ err (precondition_failed (some []) (some (1 ∷ 2 ∷ 3 ∷ 2 ∷ [])))
unfolding apply apply_at planned commit check_precondition
refused = refl

apply_failed_example : (apply transaction workspace stale).1 ≡ workspace
apply_failed_example =
    apply_failed transaction workspace stale
      (precondition_failed (some []) (some (1 ∷ 2 ∷ 3 ∷ 2 ∷ []))) refused

done : (apply transaction workspace request).0 ≡ ok outcome
unfolding apply apply_at planned commit check_precondition verify_change check_no_syntax_regression
    apply_strategy existing replace_exact count_matches count_from replace_first
done = refl

apply-Applied_example :
    (resolved : String) × Applied transaction workspace request outcome
      (apply transaction workspace request).1
      resolved
apply-Applied_example = apply-Applied transaction workspace request outcome done

abbrev origin : Origin
origin = record { task_id = 1; step_id = 1; tool_invocation_id = none }

abbrev stamp : ℕ → Stamp
stamp id = record { id = id; timestamp = 100 }

abbrev earlier : List (Call Text Text)
earlier = baselines "main.rs" (some (1 ∷ 2 ∷ 3 ∷ 2 ∷ [])) ∷ []

-- What happens between the record of the edit and its rollback: a baseline, and the write itself.
abbrev later : List (Call Text Text)
later = baselines "lib.rs" none ∷ changes (("main.rs", 1 ∷ 9 ∷ 2 ∷ []) ∷ []) ∷ []

abbrev before_edit : World Text Text
before_edit = run transaction.of_bytes transaction.resolve (start workspace.files) earlier

no_entry : entry before_edit.ledger 2 ≡ none
unfolding run step record_baseline
no_entry = refl

abbrev world : World Text Text
world =
    run transaction.of_bytes transaction.resolve
      (step transaction.of_bytes transaction.resolve before_edit (
        writes origin (stamp 2) "main.rs" outcome.before_hash outcome.before_content
          outcome.after_hash))
      later

written_files : world.files ≡ (apply transaction workspace request).1.files
unfolding run step apply apply_at planned commit check_precondition verify_change
    check_no_syntax_regression apply_strategy existing replace_exact count_matches count_from
    replace_first
written_files = refl

edit_rolled_back_example :
    ((rollback_entry transaction.of_bytes transaction.resolve world.ledger world.files 2
        (some outcome.after_hash)
        origin
        (stamp 4)).0
      ≡ restored)
    × ((path : String)
        → lookup path
            (rollback_entry transaction.of_bytes transaction.resolve world.ledger world.files 2
              (some outcome.after_hash)
              origin
              (stamp 4)).2
          ≡ lookup path workspace.files)
edit_rolled_back_example =
    edit_rolled_back transaction (λ a b h. h) workspace request outcome (1 ∷ 2 ∷ 3 ∷ 2 ∷ []) earlier
      later origin origin (stamp 2) (stamp 4) world done refl no_entry refl written_files
