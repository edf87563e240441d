-- ===== src/Ledger/Rollback.antt =====
-- A write that is rolled back: crates/valyria-ledger/src/ledger.rs.
use valyria.Common.{
  Option-cases, is_some, PartialEq, ◌==◌, ==_refl, option_eq, string_eq, nat_eq, findb-append,
  lookup, insert, lookup-insert, String, ◌≡◌, refl, sym, ap, ◌∙◌, subst, inl, inr, true, Option,
  none, some, List, arith,
}
use valyria.Ledger.{
  written, agent_authored, LedgerEntry, Ledger, Origin, Stamp, Result, ok, Files, entry, put,
  push_entry, record_write, classify, reverted, rollback_entry,
}
use valyria.Ledger.Stored.{Sound, Grows}
use valyria.Ledger.Runs.{start, World, Call, writes, step, run, run-Grows}

module _ {C H : Type 0} ⦃e : PartialEq H⦄ (of_bytes : C → H)
    (injective : (a b : C) → of_bytes a ≡ of_bytes b → a ≡ b)
    (resolve : String → Option String) where
  -- What a write leaves in the ledger.
  written_entry : Origin → Stamp → String → C → H → LedgerEntry H
  written_entry origin stamp path before after = record {
    id = stamp.id;
    task_id = origin.task_id;
    step_id = origin.step_id;
    tool_invocation_id = origin.tool_invocation_id;
    path = path;
    before_hash = some (of_bytes before);
    after_hash = some after;
    timestamp = stamp.timestamp;
    content_retained = true;
    reverts = none;
  }

  entry-record_write :
      (a : Ledger C H) (origin : Origin) (stamp : Stamp) (path : String) (before : C) (after : H)
      → entry a stamp.id ≡ none
      → entry
          (record_write of_bytes a origin stamp path (some (of_bytes before)) (some before) after)
          stamp.id
        ≡ some (written_entry origin stamp path before after)
  unfolding record_write written_entry
  entry-record_write a origin stamp path before after fresh =
      findb-append (λ (q : LedgerEntry H). q.id == stamp.id) a.entries _
      ∙ rw fresh (ground (arith, ==_refl stamp.id))

  blob-put :
      (a : Ledger C H) (before : C)
      → Sound of_bytes a
      → lookup (of_bytes before) (put of_bytes a before).blobs ≡ some before
  unfolding put Sound
  blob-put a before s = elim (Option-cases (lookup (of_bytes before) a.blobs)) [
    | inl f ↦ rw f (ground (arith, ==_refl (of_bytes before)))
    | inr (c, f) ↦ rw f (f ∙ ap some (injective c before (s (of_bytes before) c f)))
  ]

  rolled_back :
      (a : Ledger C H) (files : Files C) (origin origin' : Origin) (stamp stamp' : Stamp)
      (path resolved : String) (before : C) (after : H)
      → entry a stamp.id ≡ some (written_entry origin stamp path before after)
      → lookup (of_bytes before) a.blobs ≡ some before
      → resolve path ≡ some resolved
      → rollback_entry of_bytes resolve a files stamp.id (some after) origin' stamp'
        ≡ reverted of_bytes a origin' stamp'
            (written_entry origin stamp path before after)
            (ok, insert resolved before files)
  unfolding rollback_entry written_entry
  rolled_back a files origin origin' stamp stamp' path resolved before after found blob at =
      rw (found, at, ==_refl after, blob)

  reverted_lem :
      (a : Ledger C H) (files : Files C) (origin origin' : Origin) (stamp stamp' : Stamp)
      (path : String) (before : C) (after : H)
      → is_some (lookup path a.baselines) ≡ true
      → classify
          (reverted of_bytes a origin' stamp'
            (written_entry origin stamp path before after)
            (ok, files)).1
          path
          (some (of_bytes before))
        ≡ agent_authored
  unfolding reverted written_entry classify push_entry
  reverted_lem a files origin origin' stamp stamp' path before after known =
      elim (Option-cases (lookup path a.baselines)) [
        | inl f ↦ absurd (ground (arith, f, known))
        | inr (b, f) ↦ rw f (
            rw
              (lookup-insert path path (record b { agent_state = written (of_bytes before) })
                a.baselines)
              (ground (arith, ==_refl path, ==_refl (of_bytes before))))
      ]

  start-Sound : (files : Files C) → Sound of_bytes (start files).ledger
  unfolding Sound
  start-Sound files h c k = cc

  pub record Restored (path resolved : String) (before : C) (files : Files C)
      (result : Result × Ledger C H × Files C) : Type 0 where
    pub succeeds : result.0 ≡ ok
    pub restored_files : result.2 ≡ insert resolved before files
    pub authored : classify result.1 path (some (of_bytes before)) ≡ agent_authored

  reverted-Restored :
      (a : Ledger C H) (files : Files C) (origin origin' : Origin) (stamp stamp' : Stamp)
      (path resolved : String) (before : C) (after : H)
      → is_some (lookup path a.baselines) ≡ true
      → Restored path resolved before files (
          reverted of_bytes a origin' stamp'
            (written_entry origin stamp path before after)
            (ok, insert resolved before files))
  unfolding reverted
  reverted-Restored a files origin origin' stamp stamp' path resolved before after known = record {
    succeeds = refl;
    restored_files = refl;
    authored =
        reverted_lem a (insert resolved before files) origin origin' stamp stamp' path before after
          known;
  }

  rollback-Restored :
      (a b : Ledger C H) (files : Files C) (origin origin' : Origin) (stamp stamp' : Stamp)
      (path resolved : String) (before : C) (after : H)
      → Sound of_bytes a
      → entry a stamp.id ≡ none
      → resolve path ≡ some resolved
      → Grows of_bytes
          (record_write of_bytes a origin stamp path (some (of_bytes before)) (some before) after)
          b
      → Restored path resolved before files
          (rollback_entry of_bytes resolve b files stamp.id (some after) origin' stamp')
  unfolding record_write push_entry
  rollback-Restored a b files origin origin' stamp stamp' path resolved before after sound fresh at
        grows =
      let found =
        grows.entries stamp.id (written_entry origin stamp path before after)
          (entry-record_write a origin stamp path before after fresh) in
      let blob = grows.blobs (of_bytes before) before (blob-put a before sound) in
      let known = grows.known path (ground (arith, ==_refl path)) in
      subst (Restored path resolved before files)
        (sym (
          rolled_back b files origin origin' stamp stamp' path resolved before after found blob at))
        (reverted-Restored b files origin origin' stamp stamp' path resolved before after known)

  -- After any operations `earlier`, a write to `path` is recorded with its former content and its
  -- hash, under an id that no entry has; then there are any operations `later`, by others as well.
  -- If the file now has the hash that the write left, the rollback of the entry succeeds, puts the
  -- former content back, changes no other file, and the file then counts as the agent's own work.
  pub write_rolled_back :
      (files : Files C) (earlier later : List (Call C H)) (origin origin' : Origin)
      (stamp stamp' : Stamp) (path resolved : String) (before : C) (after : H) (w : World C H)
      → entry (run of_bytes resolve (start files) earlier).ledger stamp.id ≡ none
      → resolve path ≡ some resolved
      → w
        ≡ run of_bytes resolve
            (step of_bytes resolve
              (run of_bytes resolve (start files) earlier)
              (writes origin stamp path (some (of_bytes before)) (some before) after))
            later
      → Restored path resolved before w.files
          (rollback_entry of_bytes resolve w.ledger w.files stamp.id (some after) origin' stamp')
  unfolding step
  write_rolled_back files earlier later origin origin' stamp stamp' path resolved before after w
        fresh at is =
      let w0 = run of_bytes resolve (start files) earlier in
      let w1 =
        step of_bytes resolve w0
          (writes origin stamp path (some (of_bytes before)) (some before) after) in
      let w2 = run of_bytes resolve w1 later in
      subst
        (λ (v : World C H).
          Restored path resolved before v.files
            (rollback_entry of_bytes resolve v.ledger v.files stamp.id (some after) origin' stamp'))
        (sym is)
        (rollback-Restored w0.ledger w2.ledger w2.files origin origin' stamp stamp' path resolved
          before after
          ((run-Grows of_bytes resolve (start files) earlier).sound (start-Sound files)) fresh at
          (run-Grows of_bytes resolve w1 later))
