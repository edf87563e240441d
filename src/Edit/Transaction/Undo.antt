-- ===== src/Edit/Transaction/Undo.antt =====
-- An edit, its record in the ledger and its rollback: crates/valyria-edit/src/transaction.rs and
-- crates/valyria-ledger/src/ledger.rs.
use valyria.Common.{
  if◌then◌else◌, PartialEq, ◌==◌, option_eq, string_eq, nat_eq, lookup, insert, lookup-insert,
  String, ◌≡◌, sym, ap, ◌∙◌, none, some, List, arith,
}
use valyria.Edit.Strategy.{Text, ok}
use valyria.Edit.Transaction.{EditRequest, EditOutcome, Workspace, EditTransaction, hash_of, apply}
use valyria.Edit.Transaction.Atomic.{apply-Applied}
use valyria.Ledger.{ok as rolled_back, Origin, Stamp, entry, rollback_entry}
use valyria.Ledger.Runs.{start, World, Call, run, step, writes}
use valyria.Ledger.Rollback.{write_rolled_back}

module _ {H T : Type 0} ⦃e : PartialEq H⦄ (transaction : EditTransaction H T)
    (injective : (a b : Text) → transaction.of_bytes a ≡ transaction.of_bytes b → a ≡ b) where
  undone :
      (files files' : List (String × Text)) (resolved : String) (before after : Text)
      (path : String)
      → lookup resolved files ≡ some before
      → files' ≡ insert resolved after files
      → lookup path (insert resolved before files') ≡ lookup path files
  undone files files' resolved before after path was e =
      lookup-insert resolved path before files'
      ∙ ap (λ (m : List (String × Text)). if resolved == path then some before else lookup path m) e
      ∙ ap (λ o. if resolved == path then some before else o)
          (lookup-insert resolved path after files)
      ∙ ground (arith, was, string_eq.eq_iff resolved path)

  -- An edit of a file that exists succeeds, and is recorded in the ledger under an id that no entry
  -- has; other operations on the ledger come before and after it. If the files are then still those
  -- that the edit left, the rollback of the entry succeeds, and every file has again the text that
  -- it had before the edit.
  pub edit_rolled_back :
      (workspace : Workspace H) (request : EditRequest H T) (outcome : EditOutcome H)
      (before : Text) (earlier later : List (Call Text H)) (origin origin' : Origin)
      (stamp stamp' : Stamp) (w : World Text H)
      → (apply transaction workspace request).0 ≡ ok outcome
      → outcome.before_content ≡ some before
      → entry
          (run transaction.of_bytes transaction.resolve (start workspace.files) earlier).ledger
          stamp.id
        ≡ none
      → w
        ≡ run transaction.of_bytes transaction.resolve
            (step transaction.of_bytes transaction.resolve
              (run transaction.of_bytes transaction.resolve (start workspace.files) earlier)
              (writes origin stamp request.path outcome.before_hash outcome.before_content
                outcome.after_hash))
            later
      → w.files ≡ (apply transaction workspace request).1.files
      → ((rollback_entry transaction.of_bytes transaction.resolve w.ledger w.files stamp.id
            (some outcome.after_hash)
            origin'
            stamp').0
          ≡ rolled_back)
        × ((path : String)
            → lookup path
                (rollback_entry transaction.of_bytes transaction.resolve w.ledger w.files stamp.id
                  (some outcome.after_hash)
                  origin'
                  stamp').2
              ≡ lookup path workspace.files)
  edit_rolled_back workspace request outcome before earlier later origin origin' stamp stamp' w done
        had fresh is same =
      let (resolved, a) = apply-Applied transaction workspace request outcome done in
      let was : lookup resolved workspace.files ≡ some before = sym a.before_content ∙ had in
      let hash : outcome.before_hash ≡ some (transaction.of_bytes before) =
        a.before_hash ∙ ap (hash_of transaction.of_bytes) was in
      let r =
        write_rolled_back transaction.of_bytes injective transaction.resolve workspace.files earlier
          later origin origin' stamp stamp' request.path resolved before outcome.after_hash w fresh
          a.path (is ∙ rw (hash, had)) in
      (
        r.succeeds,
        λ path.
            ap (lookup path) r.restored_files
            ∙ undone workspace.files w.files resolved before outcome.after_content path was
                (same ∙ a.files),
      )
