-- ===== src/Examples/Ledger.antt =====
-- The ledger at concrete files. A content is a number, and its own hash.
use valyria.Common.{
  option_eq, string_eq, nat_eq, ℕ, String, ◌≡◌, refl, Option, none, some, List, [], ◌∷◌,
}
use valyria.Ledger.{
  Ledger, Origin, Stamp, rollback_conflict, err, Files, new, record_baseline, set_agent_state,
  entry, put, retain, append_entry, push_entry, record_write, roll_back, rollback_found,
  rollback_entry,
}
use valyria.Ledger.Runs.{World, Call, baselines, writes, changes, start, step, run}
use valyria.Ledger.Rollback.{Restored, write_rolled_back}
use valyria.Ledger.Protection.{rollback_failed}

abbrev hash : ℕ → ℕ
hash c = c

abbrev resolve : String → Option String
resolve path = some path

abbrev origin : Origin
origin = record { task_id = 1; step_id = 1; tool_invocation_id = some 4 }

abbrev stamp : ℕ → Stamp
stamp id = record { id = id; timestamp = 100 }

abbrev files : Files ℕ
files = ("main.rs", 11) ∷ ("lib.rs", 12) ∷ []

abbrev earlier : List (Call ℕ ℕ)
earlier =
    baselines "main.rs" (some 11) ∷ writes origin (stamp 1) "lib.rs" (some 12) (some 12) 13 ∷ []

abbrev later : List (Call ℕ ℕ)
later =
    changes (("main.rs", 21) ∷ ("lib.rs", 13) ∷ [])
    ∷ writes origin (stamp 3) "lib.rs" (some 13) none 14
    ∷ []

abbrev before_write : World ℕ ℕ
before_write = run hash resolve (start files) earlier

no_entry : entry before_write.ledger 2 ≡ none
unfolding run step record_baseline record_write push_entry append_entry retain put set_agent_state
no_entry = refl

abbrev world : World ℕ ℕ
world =
    run hash resolve
      (step hash resolve before_write (writes origin (stamp 2) "main.rs" (some 11) (some 11) 21))
      later

write_rolled_back_example :
    Restored hash
      (λ a b h. h)
      resolve
      "main.rs"
      "main.rs"
      11
      world.files
      (rollback_entry hash resolve world.ledger world.files 2 (some 21) origin (stamp 4))
write_rolled_back_example =
    write_rolled_back hash (λ a b h. h) resolve files earlier later origin origin (stamp 2)
      (stamp 4) "main.rs" "main.rs" 11 21 world no_entry refl refl

abbrev empty_ledger : Ledger ℕ ℕ
empty_ledger = new

-- The file has changed since the write.
conflict :
    (rollback_entry hash resolve before_write.ledger files 1 (some 99) origin (stamp 5)).0
    ≡ err rollback_conflict
unfolding rollback_entry rollback_found roll_back run step record_baseline record_write push_entry
    append_entry retain put set_agent_state
conflict = refl

rollback_failed_example :
    rollback_entry hash resolve before_write.ledger files 1 (some 99) origin (stamp 5)
    ≡ (err rollback_conflict, before_write.ledger, files)
rollback_failed_example =
    rollback_failed hash resolve before_write.ledger files 1 (some 99) origin (stamp 5)
      rollback_conflict conflict
