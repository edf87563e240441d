-- ===== src/Edit/Transaction.antt =====
-- The edit transaction: crates/valyria-edit/src/transaction.rs. The workspace is a map from resolved
-- paths to texts, with the cache of hashes; input and output do not fail.
pub mod Atomic
pub mod Undo
use valyria.Common.{
  ◌&&◌, ℕ, String, Bool, true, false, not, Option, none, some, List, [], ◌∷◌, if◌then◌else◌, ◌==◌,
  PartialEq, string_eq, option_eq, nat_eq, is_some, lookup, insert, remove, unwrap_or, option_eqb,
}
use valyria.Edit.Strategy.{
  Text, EditStrategy, EditError, Result, ok, err, Libraries, vfs, precondition_failed,
  verification_failed, syntax_regression, ◌>>=◌, ◌>>◌, apply_strategy,
}

pub data Precondition (H : Type 0) : Type 0 where
  must_exist_with_hash : H → Precondition H
  must_not_exist : Precondition H
  any : Precondition H

pub record EditRequest (H T : Type 0) : Type 0 where
  pub path : String
  pub precondition : Precondition H
  pub strategy : EditStrategy T

pub record EditOutcome (H : Type 0) : Type 0 where
  pub path : String
  pub before_hash : Option H
  pub after_hash : H
  pub diff : Text
  pub before_content : Option Text
  pub after_content : Text

pub record Workspace (H : Type 0) : Type 0 where
  pub files : List (String × Text)
  pub hash_cache : List (String × H)

-- The hash, the resolution of a path, the library's diff, the strategies' libraries, and for a path
-- with a grammar, if there is a registry at all, whether a text of it has syntax errors; `none` if
-- it cannot be parsed.
pub record EditTransaction (H T : Type 0) : Type 0 where
  pub of_bytes : Text → H
  pub resolve : String → Option String
  pub create_patch : Text → Text → Text
  pub libraries : Libraries H T
  pub languages : Option (String → Option (Text → Option Bool))

module _ {H : Type 0} ⦃e : PartialEq H⦄ where
  unfoldable pub check_precondition : Precondition H → Option H → Result H (Unit {0})
  check_precondition any actual = ok tt
  check_precondition must_not_exist actual =
      if is_some actual then err (precondition_failed none actual) else ok tt
  check_precondition (must_exist_with_hash expected) actual =
      if actual == some expected then ok tt else err (precondition_failed (some expected) actual)

abbrev pub text_eqb : Text → Text → Bool
text_eqb [] [] = true
text_eqb (a ∷ as') (b ∷ bs) = a == b && text_eqb as' bs
text_eqb [] (b ∷ bs) = false
text_eqb (a ∷ as') [] = false

-- Whether the content is the one that the file has.
abbrev pub is_current : Option Text → Text → Bool
is_current none new_content = false
is_current (some text) new_content = text_eqb text new_content

module _ {H : Type 0} where
  unfoldable pub verify_change : Option Text → Text → Result H (Unit {0})
  verify_change current new_content =
      if is_current current new_content then err verification_failed else ok tt

  unfoldable pub check_parsed :
      Option (Text → Option Bool) → Option Text → Text → Result H (Unit {0})
  check_parsed none before after = ok tt
  check_parsed (some has_errors) none after = ok tt
  check_parsed (some has_errors) (some before) after =
      if unwrap_or true (has_errors before)
      then ok tt
      else if unwrap_or false (has_errors after)
      then err syntax_regression
      else ok tt

  unfoldable pub check_no_syntax_regression :
      Option (String → Option (Text → Option Bool))
      → String
      → Option Text
      → Text
      → Result H (Unit {0})
  unfolding check_parsed
  check_no_syntax_regression none path before after = ok tt
  check_no_syntax_regression (some for_path) path before after =
      check_parsed (for_path path) before after

  abbrev pub hash_of : (Text → H) → Option Text → Option H
  hash_of of_bytes none = none
  hash_of of_bytes (some text) = some (of_bytes text)

module _ {H T : Type 0} ⦃e : PartialEq H⦄ (transaction : EditTransaction H T) where
  -- The content to write, if every check passes.
  unfoldable pub planned : EditRequest H T → Option Text → Result H Text
  unfolding check_precondition verify_change check_no_syntax_regression apply_strategy
  planned request current = do
    check_precondition request.precondition (hash_of transaction.of_bytes current)
    new_content ← apply_strategy transaction.libraries current request.strategy
    verify_change current new_content
    check_no_syntax_regression transaction.languages request.path current new_content
    ok new_content

  -- The write, the invalidation of the cached hash, and the outcome.
  unfoldable pub commit :
      Workspace H
      → String
      → EditRequest H T
      → Option Text
      → Result H Text
      → Result H (EditOutcome H) × Workspace H
  commit workspace resolved request current (err error) = (err error, workspace)
  commit workspace resolved request current (ok new_content) = (
    ok (record {
      path = request.path;
      before_hash = hash_of transaction.of_bytes current;
      after_hash = transaction.of_bytes new_content;
      diff = transaction.create_patch (unwrap_or [] current) new_content;
      before_content = current;
      after_content = new_content;
    }),
    record {
      files = insert resolved new_content workspace.files;
      hash_cache = remove resolved workspace.hash_cache;
    },
  )

  unfoldable pub apply_at :
      Workspace H → EditRequest H T → Option String → Result H (EditOutcome H) × Workspace H
  unfolding planned commit
  apply_at workspace request none = (err vfs, workspace)
  apply_at workspace request (some resolved) =
      let current = lookup resolved workspace.files in
      commit workspace resolved request current (planned request current)

  unfoldable pub apply : Workspace H → EditRequest H T → Result H (EditOutcome H) × Workspace H
  unfolding apply_at
  apply workspace request = apply_at workspace request (transaction.resolve request.path)
