-- ===== src/Ledger.antt =====
-- The change ledger: crates/valyria-ledger/src/ledger.rs and types.rs, with the blob store of
-- crates/valyria-store/src/blob.rs. `C` is the type of file contents and `H` that of their hashes;
-- `of_bytes` is the hash and `resolve` the resolution of a path in the workspace. The files are a
-- map from resolved paths. Input and output do not fail.
pub mod Stored
pub mod Runs
pub mod Rollback
pub mod Protection
use valyria.Common.{
  ℕ, String, Bool, true, false, not, Option, none, some, List, [], ◌∷◌, ◌++◌, if◌then◌else◌, ◌==◌,
  PartialEq, string_eq, option_eq, nat_eq, findb, is_some, lookup, insert, remove,
}

pub data AgentFileState (H : Type 0) : Type 0 where
  untouched : AgentFileState H
  written : H → AgentFileState H
  deleted : AgentFileState H

pub data ChangeClassification : Type 0 where
  agent_authored pre_existing concurrent_user_modification unknown : ChangeClassification

pub record FileBaseline (H : Type 0) : Type 0 where
  pub path : String
  pub hash_at_task_start : Option H
  pub agent_state : AgentFileState H

pub record LedgerEntry (H : Type 0) : Type 0 where
  pub id : ℕ
  pub task_id : ℕ
  pub step_id : ℕ
  pub tool_invocation_id : Option ℕ
  pub path : String
  pub before_hash : Option H
  pub after_hash : Option H
  pub timestamp : ℕ
  pub content_retained : Bool
  pub reverts : Option ℕ

pub record Ledger (C H : Type 0) : Type 0 where
  pub baselines : List (String × FileBaseline H)
  pub entries : List (LedgerEntry H)
  pub blobs : List (H × C)

-- Who writes, and what `LedgerEntryId::new()` and the clock give.
pub record Origin : Type 0 where
  pub task_id : ℕ
  pub step_id : ℕ
  pub tool_invocation_id : Option ℕ

pub record Stamp : Type 0 where
  pub id : ℕ
  pub timestamp : ℕ

pub data LedgerError : Type 0 where
  unknown_entry : ℕ → LedgerError
  rollback_conflict content_not_retained vfs blob_not_found : LedgerError

pub data Result : Type 0 where
  ok : Result
  err : LedgerError → Result

abbrev pub Files : Type 0 → Type 0
Files C = List (String × C)

module _ {H : Type 0} where
  abbrev pub with_state :
      String → Option H → AgentFileState H → Option (FileBaseline H) → FileBaseline H
  with_state path hash state none = record {
    path = path;
    hash_at_task_start = hash;
    agent_state = state;
  }
  with_state path hash state (some b) = record b { agent_state = state }

  abbrev pub state_of : Option (FileBaseline H) → AgentFileState H
  state_of none = untouched
  state_of (some b) = b.agent_state

  abbrev pub restored_state : Option H → AgentFileState H
  restored_state none = deleted
  restored_state (some h) = written h

module _ {H : Type 0} ⦃e : PartialEq H⦄ where
  unfoldable pub classify_baseline :
      Option (FileBaseline H) → AgentFileState H → Option H → ChangeClassification
  classify_baseline none state observed = unknown
  classify_baseline (some b) untouched observed =
      if b.hash_at_task_start == observed then pre_existing else concurrent_user_modification
  classify_baseline (some b) (written last_write) observed =
      if some last_write == observed then agent_authored else concurrent_user_modification
  classify_baseline (some b) deleted observed =
      if is_some observed then concurrent_user_modification else agent_authored

module _ {C H : Type 0} where
  abbrev pub new : Ledger C H
  new = record { baselines = []; entries = []; blobs = [] }

  unfoldable pub record_baseline : Ledger C H → String → Option H → Ledger C H
  record_baseline ledger path hash_at_task_start = record ledger {
    baselines =
        if is_some (lookup path ledger.baselines)
        then ledger.baselines
        else insert path
            (record {
              path = path;
              hash_at_task_start = hash_at_task_start;
              agent_state = untouched;
            })
            ledger.baselines;
  }

  unfoldable pub set_agent_state : Ledger C H → String → Option H → AgentFileState H → Ledger C H
  set_agent_state ledger path hash_if_new state = record ledger {
    baselines =
        insert path (with_state path hash_if_new state (lookup path ledger.baselines))
          ledger.baselines;
  }

  abbrev pub entry : Ledger C H → ℕ → Option (LedgerEntry H)
  entry ledger id = findb (λ e. e.id == id) ledger.entries

module _ {C : Type 0} where
  -- The blob, written to the file.
  abbrev pub rewrite : Files C → String → Option C → Result × Files C
  rewrite files resolved none = (err blob_not_found, files)
  rewrite files resolved (some content) = (ok, insert resolved content files)

module _ {C H : Type 0} ⦃e : PartialEq H⦄ where
  -- A file is written once for a hash.
  unfoldable pub put : (C → H) → Ledger C H → C → Ledger C H
  put of_bytes ledger content = record ledger {
    blobs =
        if is_some (lookup (of_bytes content) ledger.blobs)
        then ledger.blobs
        else (of_bytes content, content) ∷ ledger.blobs;
  }

  unfoldable pub retain : (C → H) → Ledger C H → Option C → Ledger C H
  unfolding put
  retain of_bytes ledger none = ledger
  retain of_bytes ledger (some content) = put of_bytes ledger content

  unfoldable pub append_entry :
      Ledger C H → Origin → Stamp → String → Option H → Option H → Bool → Option ℕ → Ledger C H
  append_entry ledger origin stamp path before_hash after_hash content_retained reverts =
      record ledger {
        entries =
            ledger.entries
            ++ (record {
              id = stamp.id;
              task_id = origin.task_id;
              step_id = origin.step_id;
              tool_invocation_id = origin.tool_invocation_id;
              path = path;
              before_hash = before_hash;
              after_hash = after_hash;
              timestamp = stamp.timestamp;
              content_retained = content_retained;
              reverts = reverts;
            }
                ∷ []);
      }

  unfoldable pub push_entry :
      (C → H)
      → Ledger C H
      → Origin
      → Stamp
      → String
      → Option H
      → Option C
      → Option H
      → Option ℕ
      → Ledger C H
  unfolding retain append_entry
  push_entry of_bytes ledger origin stamp path before_hash before_content after_hash reverts =
      append_entry (retain of_bytes ledger before_content) origin stamp path before_hash after_hash
        (is_some before_content) reverts

  unfoldable pub record_write :
      (C → H) → Ledger C H → Origin → Stamp → String → Option H → Option C → H → Ledger C H
  unfolding push_entry set_agent_state
  record_write of_bytes ledger origin stamp path before_hash before_content after_hash =
      set_agent_state
        (push_entry of_bytes ledger origin stamp path before_hash before_content (some after_hash)
          none)
        path before_hash (written after_hash)

  unfoldable pub record_delete :
      (C → H) → Ledger C H → Origin → Stamp → String → H → Option C → Ledger C H
  unfolding push_entry set_agent_state
  record_delete of_bytes ledger origin stamp path before_hash before_content =
      set_agent_state
        (push_entry of_bytes ledger origin stamp path (some before_hash) before_content none none)
        path (some before_hash) deleted

  abbrev pub still_stored : Ledger C H → Option H → Bool
  still_stored ledger none = false
  still_stored ledger (some h) = is_some (lookup h ledger.blobs)

  unfoldable pub rehydrate_write : Ledger C H → Origin → Stamp → String → Option H → H → Ledger C H
  unfolding append_entry set_agent_state
  rehydrate_write ledger origin stamp path before_hash after_hash =
      set_agent_state
        (append_entry ledger origin stamp path before_hash (some after_hash)
          (still_stored ledger before_hash) none)
        path before_hash (written after_hash)

  unfoldable pub rehydrate_delete : Ledger C H → Origin → Stamp → String → H → Ledger C H
  unfolding append_entry set_agent_state
  rehydrate_delete ledger origin stamp path before_hash =
      set_agent_state
        (append_entry ledger origin stamp path (some before_hash) none
          (still_stored ledger (some before_hash)) none)
        path (some before_hash) deleted

  unfoldable pub classify : Ledger C H → String → Option H → ChangeClassification
  unfolding classify_baseline
  classify ledger path observed =
      let b = lookup path ledger.baselines in classify_baseline b (state_of b) observed

  -- `entry(path).and_modify(…)`: a path with no baseline gets none.
  unfoldable pub restate :
      Ledger C H → String → AgentFileState H → Option (FileBaseline H) → Ledger C H
  restate ledger path state none = ledger
  restate ledger path state (some b) = record ledger {
    baselines = insert path (record b { agent_state = state }) ledger.baselines;
  }

  -- The file as it was, or why it cannot be had.
  unfoldable pub restore :
      Ledger C H → LedgerEntry H → Files C → String → Option H → Result × Files C
  restore ledger entry files resolved none = (ok, remove resolved files)
  restore ledger entry files resolved (some before_hash) =
      if not entry.content_retained
      then (err content_not_retained, files)
      else rewrite files resolved (lookup before_hash ledger.blobs)

  unfoldable pub reverted :
      (C → H)
      → Ledger C H
      → Origin
      → Stamp
      → LedgerEntry H
      → Result × Files C
      → Result × Ledger C H × Files C
  unfolding push_entry restate
  reverted of_bytes ledger origin stamp entry (err error, files) = (err error, ledger, files)
  reverted of_bytes ledger origin stamp entry (ok, files) =
      let pushed =
        push_entry of_bytes ledger (record origin { tool_invocation_id = none }) stamp entry.path
          entry.after_hash none entry.before_hash (some entry.id) in
      (
        ok,
        restate pushed entry.path (restored_state entry.before_hash)
            (lookup entry.path pushed.baselines),
        files,
      )

  unfoldable pub roll_back :
      (C → H)
      → (String → Option String)
      → Ledger C H
      → Files C
      → Option H
      → Origin
      → Stamp
      → LedgerEntry H
      → Option String
      → Result × Ledger C H × Files C
  unfolding restore reverted
  roll_back of_bytes resolve ledger files current_hash origin stamp entry none =
      (if current_hash == entry.after_hash then err vfs else err rollback_conflict, ledger, files)
  roll_back of_bytes resolve ledger files current_hash origin stamp entry (some resolved) =
      if current_hash == entry.after_hash
      then reverted of_bytes ledger origin stamp entry
          (restore ledger entry files resolved entry.before_hash)
      else (err rollback_conflict, ledger, files)

  unfoldable pub rollback_found :
      (C → H)
      → (String → Option String)
      → Ledger C H
      → Files C
      → ℕ
      → Option H
      → Origin
      → Stamp
      → Option (LedgerEntry H)
      → Result × Ledger C H × Files C
  unfolding roll_back
  rollback_found of_bytes resolve ledger files id current_hash origin stamp none =
      (err (unknown_entry id), ledger, files)
  rollback_found of_bytes resolve ledger files id current_hash origin stamp (some entry) =
      roll_back of_bytes resolve ledger files current_hash origin stamp entry (resolve entry.path)

  unfoldable pub rollback_entry :
      (C → H)
      → (String → Option String)
      → Ledger C H
      → Files C
      → ℕ
      → Option H
      → Origin
      → Stamp
      → Result × Ledger C H × Files C
  unfolding rollback_found
  rollback_entry of_bytes resolve ledger files id current_hash origin stamp =
      rollback_found of_bytes resolve ledger files id current_hash origin stamp (entry ledger id)
