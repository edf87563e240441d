-- ===== src/Task/Startup/Rest.antt =====
-- What `recover_incomplete_tasks` of crates/valyria-task/src/manager.rs leaves behind.
use valyria.Common.{
  ℕ, ◌+◌, String, true, false, none, some, List, [], ◌∷◌, map, ◌≡◌, ◌≢◌, refl, sym, ◌∙◌, subst,
  arith, inl, inr, Bool-cases, Option-cases, All, contains, nat_eq, ◌==◌, ==_iff, ==_refl,
}
use valyria.State.{AgentState}
use valyria.Task.Types.{Json, Task}
use valyria.Task.Codec.{state_from_text}
use valyria.Task.World.{Row, World, Result, ok, ◌>>=◌, find_row}
use valyria.Task.Rows.{Reads, decode, get, task_of}
use valyria.Task.Manager.{is_stable_without_a_driver, recover_task}
use valyria.Task.Manager.Recovery.{recovered, recover_task_done, recover_task_others}
use valyria.Task.Startup.{recover_row, recover_rows, recover_incomplete_tasks}

abbrev pub ids_of : List Row → List ℕ
ids_of rows = map (λ r. r.id) rows

-- No id stands twice in the table: it is the primary key.
abbrev pub Distinct : List Row → Type 0
Distinct [] = Unit
Distinct (r ∷ rs) = (contains (ids_of rs) r.id ≡ false) × Distinct rs

paused_is_stable :
    (task : Task) (note : String) (at : ℕ)
    → is_stable_without_a_driver (recovered task note at).state ≡ true
unfolding is_stable_without_a_driver
paused_is_stable task note at = refl

-- The row of an id is the one that has it.
abbrev IsFound : List Row → Row → Type 0
IsFound rows r = decode r.id (find_row r.id rows) ≡ decode r.id (some r)

IsFound-behind :
    (x : Row) (rows rs : List Row)
    → contains (ids_of rs) x.id ≡ false
    → All (IsFound rows) rs
    → All (IsFound (x ∷ rows)) rs
IsFound-behind x rows [] new h = tt
IsFound-behind x rows (r ∷ rs) new h =
    let differs : (x.id == r.id) ≡ false = ground (arith, ==_iff x.id r.id, ==_iff r.id x.id) in
    (rw differs h.0, IsFound-behind x rows rs (ground arith) h.1)

all-IsFound : (rows : List Row) → Distinct rows → All (IsFound rows) rows
all-IsFound [] d = tt
all-IsFound (r ∷ rs) d = (rw (==_refl r.id) refl, IsFound-behind r rs rs d.0 (all-IsFound rs d.1))

missing : (rows : List Row) (id : ℕ) → contains (ids_of rows) id ≡ false → find_row id rows ≡ none
missing [] id h = refl
missing (r ∷ rs) id h = ground (arith, missing rs id)

module _ {V : Type 0} ⦃j : Json V⦄ where
  -- The row is read from the table as it was when the loop began.
  abbrev Snapshot : World V → Row → Type 0
  Snapshot w r = (get r.id w).0 ≡ decode r.id (some r)

  -- What the loop over these rows does to the world.
  record IsRecovery (rs : List Row) (w : World V) (run : Result (List ℕ) × World V) : Type 0 where
    recovers : (ids : List ℕ) × (run.0 ≡ ok ids)
    others : (id : ℕ) → contains (ids_of rs) id ≡ false → (get id run.1).0 ≡ (get id w).0
    at_rest :
        (id : ℕ) (task : Task)
        → contains (ids_of rs) id ≡ true
        → Reads run.1 id task
        → is_stable_without_a_driver task.state ≡ true

  -- The first row needs nothing, and the loop goes on in the same world.
  skip_row :
      (r : Row) (rs : List Row) (w : World V) (run : Result (List ℕ) × World V)
      → contains (ids_of rs) r.id ≡ false
      → ((task : Task) → Reads w r.id task → is_stable_without_a_driver task.state ≡ true)
      → IsRecovery rs w run
      → IsRecovery (r ∷ rs) w run
  skip_row r rs w run new stable later = record {
    recovers = later.recovers;
    others = λ id outside. later.others id (ground arith);
    at_rest = λ id task inside h. elim (Bool-cases (contains (ids_of rs) id)) [
      | inl more ↦ later.at_rest id task more h
      | inr last ↦
          let same : r.id ≡ id = ground (arith, ==_iff r.id id) in
          let here : Reads w id task = sym (later.others id last) ∙ h in
          stable task (subst (λ k. Reads w k task) (sym same) here)
    ];
  }

  -- The first row's task is recovered, and the loop goes on from there.
  recovered_row :
      (r : Row) (rs : List Row) (w w' : World V) (run run' : Result (List ℕ) × World V)
      (task : Task)
      → contains (ids_of rs) r.id ≡ false
      → Reads w' r.id task
      → is_stable_without_a_driver task.state ≡ true
      → ((other : ℕ) → r.id ≢ other → (get other w').0 ≡ (get other w).0)
      → IsRecovery rs w' run
      → (run'.1 ≡ run.1)
      → ((ids : List ℕ) × (run'.0 ≡ ok ids))
      → IsRecovery (r ∷ rs) w run'
  recovered_row r rs w w' run run' task new reads stable untouched later same_world answer =
      record {
        recovers = answer;
        others = λ id outside.
            rw same_world
              (later.others id (ground arith) ∙ untouched id (λ e. ground (arith, ==_iff r.id id)));
        at_rest = λ id t inside h. elim (Bool-cases (contains (ids_of rs) id)) [
          | inl more ↦ later.at_rest id t more (rw same_world at h)
          | inr last ↦
              let same : r.id ≡ id = ground (arith, ==_iff r.id id) in
              let here : Reads w' id t = sym (later.others id last) ∙ (rw same_world at h) in
              let there : Reads w' r.id t = subst (λ k. Reads w' k t) (sym same) here in
              let equal : task ≡ t = ground arith in
              subst (λ (x : Task). is_stable_without_a_driver x.state ≡ true) equal stable
        ];
      }

  snapshots_after :
      (id : ℕ) (rs : List Row) (w w' : World V)
      → contains (ids_of rs) id ≡ false
      → ((other : ℕ) → id ≢ other → (get other w').0 ≡ (get other w).0)
      → All (Snapshot w) rs
      → All (Snapshot w') rs
  snapshots_after id [] w w' new untouched h = tt
  snapshots_after id (r ∷ rs) w w' new untouched h = (
    untouched r.id (λ e. ground (arith, ==_iff r.id id, sym e)) ∙ h.0,
    snapshots_after id rs w w' (ground arith) untouched h.1,
  )

  recover_rows-IsRecovery :
      (note : AgentState → String) (rs : List Row) (w : World V)
      → Distinct rs
      → All (Snapshot w) rs
      → IsRecovery rs w (recover_rows note rs w)
  unfolding recover_rows recover_row ◌>>=◌
  recover_rows-IsRecovery note [] w d h = record {
    recovers = ([], refl);
    others = λ id outside. refl;
    at_rest = λ id task inside g. cc;
  }
  recover_rows-IsRecovery note (r ∷ rs) w d h = elim (Option-cases (state_from_text r.state)) [
    | inl e ↦ rw e (
        skip_row r rs w _ d.0 (λ task reads. absurd (ground arith))
          (recover_rows-IsRecovery note rs w d.1 h.1))
    | inr (s, e) ↦ elim (Bool-cases (is_stable_without_a_driver s)) [
      | inl stable ↦
          rw (e, stable)
            (skip_row r rs w _ d.0
              (λ task reads.
                let same : task_of r s ≡ task = ground arith in
                subst (λ (x : Task). is_stable_without_a_driver x.state ≡ true) same stable)
              (recover_rows-IsRecovery note rs w d.1 h.1))
      | inr active ↦
          let reads : Reads w r.id (task_of r s) = h.0 ∙ rw e refl in
          let (done, after) = recover_task_done r.id (note s) w (task_of r s) reads active in
          let others =
            λ (other : ℕ). recover_task_others r.id other (note s) w (task_of r s) reads active in
          let w' = (recover_task r.id (note s) w).1 in
          let later =
            recover_rows-IsRecovery note rs w' d.1 (snapshots_after r.id rs w w' d.0 others h.1) in
          let (ids, answer) = later.recovers in
          rw (e, active, done, answer)
            (recovered_row r rs w w' (recover_rows note rs w') _ _ d.0 after
              (paused_is_stable (task_of r s) (note s) (w.env.clock (w.reads + 1))) others later
              refl (r.id ∷ ids, refl))
    ]
  ]

  -- If no id stands twice in the table, recovery at startup succeeds, and every task that can be
  -- read afterwards is at rest, where no driver is needed.
  pub recover_incomplete_tasks-at_rest :
      (note : AgentState → String) (w : World V) (id : ℕ) (task : Task)
      → Distinct w.tasks
      → Reads (recover_incomplete_tasks note w).1 id task
      → ((ids : List ℕ) × ((recover_incomplete_tasks note w).0 ≡ ok ids))
        × (is_stable_without_a_driver task.state ≡ true)
  unfolding recover_incomplete_tasks ◌>>=◌ get
  recover_incomplete_tasks-at_rest note w id task d h =
      let all = recover_rows-IsRecovery note w.tasks w d (all-IsFound w.tasks d) in
      (
        all.recovers,
        elim (Bool-cases (contains (ids_of w.tasks) id)) [
          | inl inside ↦ all.at_rest id task inside h
          | inr outside ↦
              let lost = missing w.tasks id outside in
              let same = all.others id outside in absurd (ground arith)
        ],
      )
