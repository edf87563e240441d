-- ===== src/Edit/Transaction/Atomic.antt =====
-- What an edit does to the workspace: crates/valyria-edit/src/transaction.rs.
use valyria.Common.{
  remove, inr, inl, ==_refl, Option-cases, lookup-remove, PartialEq, option_eq, string_eq, nat_eq,
  lookup, insert, String, ◌≡◌, refl, ap, ◌∙◌, subst, false, Option, none, some, arith,
}
use valyria.Edit.Strategy.{◌>>◌, Text, EditError, Result, ok, err, ◌>>=◌, apply_strategy}
use valyria.Edit.Transaction.{
  check_no_syntax_regression, Precondition, must_exist_with_hash, must_not_exist, any, EditRequest,
  EditOutcome, Workspace, EditTransaction, check_precondition, is_current, verify_change, hash_of,
  planned, commit, apply_at, apply,
}

module _ {H T : Type 0} ⦃e : PartialEq H⦄ (transaction : EditTransaction H T) where
  -- What the precondition says of the file.
  abbrev pub Holds : Precondition H → Option Text → Type 0
  Holds any current = Unit {0}
  Holds must_not_exist current = current ≡ none
  Holds (must_exist_with_hash h) current =
      (text : Text) × (current ≡ some text) × (transaction.of_bytes text ≡ h)

  commit_failed :
      (workspace : Workspace H) (resolved : String) (request : EditRequest H T)
      (current : Option Text) (r : Result H Text) (error : EditError H)
      → (commit transaction workspace resolved request current r).0 ≡ err error
      → (commit transaction workspace resolved request current r).1 ≡ workspace
  unfolding commit
  commit_failed workspace resolved request current (err x) error h = refl
  commit_failed workspace resolved request current (ok new_content) error h = cc

  at_failed :
      (workspace : Workspace H) (request : EditRequest H T) (at : Option String)
      (error : EditError H)
      → (apply_at transaction workspace request at).0 ≡ err error
      → (apply_at transaction workspace request at).1 ≡ workspace
  unfolding apply_at
  at_failed workspace request none error h = refl
  at_failed workspace request (some resolved) error h =
      let current = lookup resolved workspace.files in
      commit_failed workspace resolved request current (planned transaction request current) error h

  -- An edit that fails, for whatever reason, leaves the files and the cached hashes as they were.
  pub apply_failed :
      (workspace : Workspace H) (request : EditRequest H T) (error : EditError H)
      → (apply transaction workspace request).0 ≡ err error
      → (apply transaction workspace request).1 ≡ workspace
  unfolding apply
  apply_failed workspace request error h =
      at_failed workspace request (transaction.resolve request.path) error h

  check_precondition-Holds :
      (p : Precondition H) (current : Option Text)
      → check_precondition p (hash_of transaction.of_bytes current) ≡ ok tt
      → Holds p current
  unfolding check_precondition
  check_precondition-Holds any current h = tt
  check_precondition-Holds must_not_exist none h = refl
  check_precondition-Holds must_not_exist (some text) h = cc
  check_precondition-Holds (must_exist_with_hash hash) none h = cc
  check_precondition-Holds (must_exist_with_hash hash) (some text) h =
      (text, refl, ground (arith, e.eq_iff (transaction.of_bytes text) hash))

  -- The edit of the file at `resolved`.
  pub record Applied (workspace : Workspace H) (request : EditRequest H T) (outcome : EditOutcome H)
      (after : Workspace H) (resolved : String) : Type 0 where
    pub path : transaction.resolve request.path ≡ some resolved
    pub precondition : Holds request.precondition (lookup resolved workspace.files)
    pub before_content : outcome.before_content ≡ lookup resolved workspace.files
    pub before_hash :
        outcome.before_hash ≡ hash_of transaction.of_bytes (lookup resolved workspace.files)
    pub after_content :
        apply_strategy transaction.libraries (lookup resolved workspace.files) request.strategy
        ≡ ok outcome.after_content
    pub changed : is_current (lookup resolved workspace.files) outcome.after_content ≡ false
    pub after_hash : outcome.after_hash ≡ transaction.of_bytes outcome.after_content
    pub files : after.files ≡ insert resolved outcome.after_content workspace.files
    pub no_stale_hash : lookup resolved after.hash_cache ≡ none

  ok_eq : {A : Type 0} (a b : A) → ◌≡◌ {A = Result H A} (ok a) (ok b) → a ≡ b
  ok_eq a b h = cc

  >>=-ok :
      {A B : Type 0} (m : Result H A) (f : A → Result H B) (b : B)
      → (m >>= f) ≡ ok b
      → (a : A) × (m ≡ ok a) × (f a ≡ ok b)
  >>=-ok (ok a) f b h = (a, refl, h)
  >>=-ok (err x) f b h = cc

  verify_change-ok :
      (current : Option Text) (new_content : Text)
      → verify_change {H = H} current new_content ≡ ok tt
      → is_current current new_content ≡ false
  unfolding verify_change
  verify_change-ok current new_content h = ground arith

  planned-ok :
      (request : EditRequest H T) (current : Option Text) (new_content : Text)
      → planned transaction request current ≡ ok new_content
      → Holds request.precondition current
        × (apply_strategy transaction.libraries current request.strategy ≡ ok new_content)
        × (is_current current new_content ≡ false)
  unfolding planned
  planned-ok request current new_content h =
      let (u, p, rest) = >>=-ok _ _ new_content h in
      let (made, s, rest') = >>=-ok _ _ new_content rest in
      let (u', v, rest'') =
        >>=-ok {A = Unit {0}} (verify_change current made)
          (λ _.
            check_no_syntax_regression transaction.languages request.path current made >> ok made)
          new_content rest' in
      let (u'', c, last) =
        >>=-ok {A = Unit {0}}
          (check_no_syntax_regression transaction.languages request.path current made)
          (λ _. ok made) new_content rest'' in
      let same : made ≡ new_content = ok_eq made new_content last in
      (
        check_precondition-Holds request.precondition current p,
        s ∙ ap ok same,
        subst (λ t. is_current current t ≡ false) same (verify_change-ok current made v),
      )

  commit-Applied :
      (workspace : Workspace H) (resolved : String) (request : EditRequest H T) (r : Result H Text)
      (outcome : EditOutcome H)
      → transaction.resolve request.path ≡ some resolved
      → planned transaction request (lookup resolved workspace.files) ≡ r
      → (commit transaction workspace resolved request (lookup resolved workspace.files) r).0
        ≡ ok outcome
      → Applied workspace request outcome
          (commit transaction workspace resolved request (lookup resolved workspace.files) r).1
          resolved
  unfolding commit
  commit-Applied workspace resolved request (err x) outcome at plan h = cc
  commit-Applied workspace resolved request (ok new_content) outcome at plan h =
      let (holds, made, changed) =
        planned-ok request (lookup resolved workspace.files) new_content plan in
      subst
        (λ o.
          Applied workspace request o
            (record {
              files = insert resolved new_content workspace.files;
              hash_cache = remove resolved workspace.hash_cache;
            })
            resolved)
        (ok_eq _ outcome h)
        (record {
          path = at;
          precondition = holds;
          before_content = refl;
          before_hash = refl;
          after_content = made;
          changed = changed;
          after_hash = refl;
          files = refl;
          no_stale_hash =
              lookup-remove resolved resolved workspace.hash_cache
              ∙ ground (arith, ==_refl resolved);
        })

  -- An edit that succeeds found what its precondition names, writes what its strategy makes of the
  -- text that was there, which differs from it, and no other file; the outcome gives the text that
  -- was there and the one that is written, with their hashes; no hash of the old text stays cached.
  pub apply-Applied :
      (workspace : Workspace H) (request : EditRequest H T) (outcome : EditOutcome H)
      → (apply transaction workspace request).0 ≡ ok outcome
      → (resolved : String) × Applied workspace request outcome
          (apply transaction workspace request).1
          resolved
  unfolding apply apply_at
  apply-Applied workspace request outcome h =
      elim (Option-cases (transaction.resolve request.path)) [
        | inl f ↦ absurd (let k = rw f at h in cc)
        | inr (resolved, f) ↦ (
          resolved,
          rw f (commit-Applied workspace resolved request _ outcome f refl (rw f at h)),
        )
      ]
