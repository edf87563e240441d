-- ===== src/Ledger/Protection.antt =====
-- Protection of the user's changes: crates/valyria-ledger/src/ledger.rs.
use valyria.Common.{
  if◌then◌else◌, Bool-cases, Option-cases, is_some, PartialEq, ◌==◌, option_eq, string_eq, nat_eq,
  lookup, lookup-insert, ℕ, String, ◌≡◌, refl, inl, inr, not, ◌&&◌, Option, none, some, arith,
}
use valyria.Ledger.{
  untouched, written, agent_authored, pre_existing, concurrent_user_modification, LedgerEntry,
  Ledger, Origin, Stamp, LedgerError, Result, ok, err, Files, with_state, state_of,
  classify_baseline, record_baseline, entry, push_entry, record_write, classify, restore, reverted,
  roll_back, rollback_found, rollback_entry,
}

module _ {C H : Type 0} ⦃e : PartialEq H⦄ (of_bytes : C → H) where
  baselines-push_entry :
      (ledger : Ledger C H) (origin : Origin) (stamp : Stamp) (path : String) (before : Option H)
      (content : Option C) (after : Option H) (reverts : Option ℕ)
      → (push_entry of_bytes ledger origin stamp path before content after reverts).baselines
        ≡ ledger.baselines
  unfolding push_entry
  baselines-push_entry ledger origin stamp path before none after reverts = refl
  baselines-push_entry ledger origin stamp path before (some c) after reverts = refl

  state_given :
      (ledger : Ledger C H) (path other : String) (before : Option H) (after : H)
      (observed : Option H)
      → (let b =
            if path == other
            then some (with_state path before (written after) (lookup path ledger.baselines))
            else lookup other ledger.baselines in
          classify_baseline b (state_of b) observed)
        ≡ (if path == other
            then if some after == observed then agent_authored else concurrent_user_modification
            else classify_baseline
                (lookup other ledger.baselines)
                (state_of (lookup other ledger.baselines))
                observed)
  unfolding classify_baseline
  state_given ledger path other before after observed =
      elim (Option-cases (lookup path ledger.baselines)) [
        | inl f ↦ rw f (ground arith)
        | inr (b, f) ↦ rw f (ground arith)
      ]

  -- After the agent's write is recorded, a state of that file is the agent's own exactly if it is
  -- the hash that was written, and else a concurrent change by the user, whatever was recorded of
  -- the file before; the classification of every other file is as it was.
  classify-record_write :
      (ledger : Ledger C H) (origin : Origin) (stamp : Stamp) (path other : String)
      (before : Option H) (content : Option C) (after : H) (observed : Option H)
      → classify
          (record_write of_bytes ledger origin stamp path before content after)
          other
          observed
        ≡ (if path == other
            then if some after == observed then agent_authored else concurrent_user_modification
            else classify ledger other observed)
  unfolding record_write classify
  classify-record_write ledger origin stamp path other before content after observed =
      rw (baselines-push_entry ledger origin stamp path before content (some after) none) (
        rw
          (lookup-insert path other
            (with_state path before (written after) (lookup path ledger.baselines))
            ledger.baselines)
          (state_given ledger path other before after observed))

  -- The first baseline of a file counts. Before the agent touches it, a state of the file is what
  -- was there exactly if it is that of the baseline, and else a concurrent change by the user; a
  -- later baseline of the file, or one of another file, changes no classification.
  classify-record_baseline :
      (ledger : Ledger C H) (path other : String) (hash observed : Option H)
      → classify (record_baseline ledger path hash) other observed ≡ (
          if path == other && not (is_some (lookup path ledger.baselines))
          then if hash == observed then pre_existing else concurrent_user_modification
          else classify ledger other observed)
  unfolding record_baseline classify
  classify-record_baseline ledger path other hash observed =
      elim (Option-cases (lookup path ledger.baselines)) [
        | inr (b, known) ↦ rw known (ground (arith, known))
        | inl fresh ↦ rw fresh (
            ground (
              arith,
              lookup-insert path other
                  (record { path = path; hash_at_task_start = hash; agent_state = untouched })
                  ledger.baselines,
            ))
      ]

  module _ (resolve : String → Option String) where
    restore_failed :
        (ledger : Ledger C H) (q : LedgerEntry H) (files : Files C) (resolved : String)
        (before : Option H) (error : LedgerError)
        → (restore ledger q files resolved before).0 ≡ err error
        → (restore ledger q files resolved before).1 ≡ files
    unfolding restore
    restore_failed ledger q files resolved none error h = cc
    restore_failed ledger q files resolved (some b) error h = elim (Bool-cases q.content_retained) [
      | inr f ↦ rw f
      | inl t ↦ elim (Option-cases (lookup b ledger.blobs)) [
        | inl f ↦ rw (t, f)
        | inr (c, f) ↦ absurd (let k = rw (t, f) at h in cc)
      ]
    ]

    reverted-err :
        (ledger : Ledger C H) (origin : Origin) (stamp : Stamp) (q : LedgerEntry H)
        (r : Result × Files C) (error : LedgerError)
        → (reverted of_bytes ledger origin stamp q r).0 ≡ err error
        → r.0 ≡ err error
    unfolding reverted
    reverted-err ledger origin stamp q (ok, files) error h = h
    reverted-err ledger origin stamp q (err x, files) error h = h

    reverted_failed :
        (ledger : Ledger C H) (files : Files C) (origin : Origin) (stamp : Stamp)
        (q : LedgerEntry H) (r : Result × Files C) (error : LedgerError)
        → r.1 ≡ files
        → (reverted of_bytes ledger origin stamp q r).0 ≡ err error
        → reverted of_bytes ledger origin stamp q r ≡ (err error, ledger, files)
    unfolding reverted
    reverted_failed ledger files origin stamp q (ok, files') error same h = cc
    reverted_failed ledger files origin stamp q (err x, files') error same h =
        λ i. (h i, ledger, same i)

    roll_back_failed :
        (ledger : Ledger C H) (files : Files C) (current : Option H) (origin : Origin)
        (stamp : Stamp) (q : LedgerEntry H) (resolved : Option String) (error : LedgerError)
        → (roll_back of_bytes resolve ledger files current origin stamp q resolved).0 ≡ err error
        → roll_back of_bytes resolve ledger files current origin stamp q resolved
          ≡ (err error, ledger, files)
    unfolding roll_back
    roll_back_failed ledger files current origin stamp q none error h = λ i. (h i, ledger, files)
    roll_back_failed ledger files current origin stamp q (some r) error h =
        elim (Bool-cases (current == q.after_hash)) [
          | inr f ↦ rw f (let k = rw f at h in λ i. (k i, ledger, files))
          | inl t ↦ rw t (
              let k = rw t at h in
              reverted_failed ledger files origin stamp q (restore ledger q files r q.before_hash)
                error
                (restore_failed ledger q files r q.before_hash error (
                  reverted-err ledger origin stamp q (restore ledger q files r q.before_hash) error
                    k))
                k)
        ]

    -- A rollback that fails, for whatever reason, leaves the ledger and the files as they were.
    pub rollback_failed :
        (ledger : Ledger C H) (files : Files C) (id : ℕ) (current : Option H) (origin : Origin)
        (stamp : Stamp) (error : LedgerError)
        → (rollback_entry of_bytes resolve ledger files id current origin stamp).0 ≡ err error
        → rollback_entry of_bytes resolve ledger files id current origin stamp
          ≡ (err error, ledger, files)
    unfolding rollback_entry
    rollback_failed ledger files id current origin stamp error h = found (entry ledger id) h
      where
        found :
            (o : Option (LedgerEntry H))
            → (rollback_found of_bytes resolve ledger files id current origin stamp o).0 ≡ err error
            → rollback_found of_bytes resolve ledger files id current origin stamp o
              ≡ (err error, ledger, files)
        found none k = λ i. (k i, ledger, files)
        found (some q) k =
            roll_back_failed ledger files current origin stamp q (resolve q.path) error k
