-- ===== src/Ledger/Runs.antt =====
-- Sequences of operations on the ledger and the files: crates/valyria-ledger/src/ledger.rs.
use valyria.Common.{
  Bool-cases, PartialEq, ◌==◌, option_eq, string_eq, nat_eq, ℕ, String, inl, inr, Option, none,
  some, List, [], ◌∷◌,
}
use valyria.Ledger.{
  new, written, deleted, LedgerEntry, Ledger, Origin, Stamp, Files, record_baseline, entry,
  record_write, record_delete, rehydrate_write, rehydrate_delete, restore, roll_back,
  rollback_found, rollback_entry,
}
use valyria.Ledger.Stored.{
  Grows, Grows-refl, Grows-trans, set_agent_state-Grows, record_baseline-Grows, append_entry-Grows,
  push_entry-Grows, reverted-Grows,
}

-- The ledger and the files of the workspace.
pub record World (C H : Type 0) : Type 0 where
  pub ledger : Ledger C H
  pub files : Files C

pub data Call (C H : Type 0) : Type 0 where
  baselines : String → Option H → Call C H
  writes : Origin → Stamp → String → Option H → Option C → H → Call C H
  deletes : Origin → Stamp → String → H → Option C → Call C H
  rehydrates_write : Origin → Stamp → String → Option H → H → Call C H
  rehydrates_delete : Origin → Stamp → String → H → Call C H
  rolls_back : ℕ → Option H → Origin → Stamp → Call C H
  -- Somebody changes the files.
  changes : Files C → Call C H

-- A ledger with nothing in it.
abbrev pub start : {C H : Type 0} → Files C → World C H
start files = record { ledger = new; files = files }

module _ {C H : Type 0} ⦃e : PartialEq H⦄ (of_bytes : C → H)
    (resolve : String → Option String) where
  unfoldable pub step : World C H → Call C H → World C H
  step w (baselines path hash) = record w { ledger = record_baseline w.ledger path hash }
  step w (writes origin stamp path before content after) = record w {
    ledger = record_write of_bytes w.ledger origin stamp path before content after;
  }
  step w (deletes origin stamp path before content) = record w {
    ledger = record_delete of_bytes w.ledger origin stamp path before content;
  }
  step w (rehydrates_write origin stamp path before after) = record w {
    ledger = rehydrate_write w.ledger origin stamp path before after;
  }
  step w (rehydrates_delete origin stamp path before) = record w {
    ledger = rehydrate_delete w.ledger origin stamp path before;
  }
  step w (rolls_back id current origin stamp) =
      let (result, ledger, files) =
        rollback_entry of_bytes resolve w.ledger w.files id current origin stamp in
      record { ledger = ledger; files = files }
  step w (changes files) = record w { files = files }

  unfoldable pub run : World C H → List (Call C H) → World C H
  run w [] = w
  run w (c ∷ cs) = run (step w c) cs

  roll_back-Grows :
      (a : Ledger C H) (files : Files C) (current : Option H) (origin : Origin) (stamp : Stamp)
      (q : LedgerEntry H) (resolved : Option String)
      → Grows of_bytes a (roll_back of_bytes resolve a files current origin stamp q resolved).1
  unfolding roll_back
  roll_back-Grows a files current origin stamp q none = Grows-refl of_bytes a
  roll_back-Grows a files current origin stamp q (some resolved) =
      elim (Bool-cases (current == q.after_hash)) [
        | inl t ↦
            rw t
              (reverted-Grows of_bytes a origin stamp q (restore a q files resolved q.before_hash))
        | inr f ↦ rw f (Grows-refl of_bytes a)
      ]

  rollback_found-Grows :
      (a : Ledger C H) (files : Files C) (id : ℕ) (current : Option H) (origin : Origin)
      (stamp : Stamp) (found : Option (LedgerEntry H))
      → Grows of_bytes a (rollback_found of_bytes resolve a files id current origin stamp found).1
  unfolding rollback_found
  rollback_found-Grows a files id current origin stamp none = Grows-refl of_bytes a
  rollback_found-Grows a files id current origin stamp (some q) =
      roll_back-Grows a files current origin stamp q (resolve q.path)

  step-Grows : (w : World C H) (c : Call C H) → Grows of_bytes w.ledger (step w c).ledger
  unfolding step record_write record_delete rehydrate_write rehydrate_delete rollback_entry
  step-Grows w (baselines path hash) = record_baseline-Grows of_bytes w.ledger path hash
  step-Grows w (writes origin stamp path before content after) =
      Grows-trans of_bytes w.ledger _ _
        (push_entry-Grows of_bytes w.ledger origin stamp path before content (some after) none)
        (set_agent_state-Grows of_bytes _ path before (written after))
  step-Grows w (deletes origin stamp path before content) =
      Grows-trans of_bytes w.ledger _ _
        (push_entry-Grows of_bytes w.ledger origin stamp path (some before) content none none)
        (set_agent_state-Grows of_bytes _ path (some before) deleted)
  step-Grows w (rehydrates_write origin stamp path before after) =
      Grows-trans of_bytes w.ledger _ _
        (append_entry-Grows of_bytes w.ledger origin stamp path before (some after) _ none)
        (set_agent_state-Grows of_bytes _ path before (written after))
  step-Grows w (rehydrates_delete origin stamp path before) =
      Grows-trans of_bytes w.ledger _ _
        (append_entry-Grows of_bytes w.ledger origin stamp path (some before) none _ none)
        (set_agent_state-Grows of_bytes _ path (some before) deleted)
  step-Grows w (rolls_back id current origin stamp) =
      rollback_found-Grows w.ledger w.files id current origin stamp (entry w.ledger id)
  step-Grows w (changes files) = Grows-refl of_bytes w.ledger

  pub run-Grows : (w : World C H) (cs : List (Call C H)) → Grows of_bytes w.ledger (run w cs).ledger
  unfolding run
  run-Grows w [] = Grows-refl of_bytes w.ledger
  run-Grows w (c ∷ cs) =
      Grows-trans of_bytes w.ledger _ _ (step-Grows w c) (run-Grows (step w c) cs)
