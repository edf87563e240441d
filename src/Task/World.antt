-- ===== src/Task/World.antt =====
-- What a task manager works on: the rows of the two tables of crates/valyria-task/src/migrations.rs,
-- the events handed to the bus, and the environment's clock and id generator. A statement of SQL
-- is one step; statements do not fail, so `TaskError::Store`, `Events` and `Json` do not arise.
use valyria.Common.{
  ℕ, ◌+◌, ◌≡◌, refl, ◌⊎◌, inl, inr, String, Option, none, some, List, [], ◌∷◌, arith, ◌==◌, nat_eq,
  findb, if◌then◌else◌,
}
use valyria.Task.Types.{Budget, JournalEntry, Event, TaskError}

-- A row of `tasks`. Ids and numbers are stored by value; states and signals as text.
pub record Row : Type 0 where
  pub id : ℕ
  pub workspace_id : ℕ
  pub parent_task : Option ℕ
  pub objective : String
  pub state : String
  pub paused_from : Option String
  pub plan_scope : List String
  pub budget : Budget
  pub index_generation_at_start : Option ℕ
  pub created_at_ms : ℕ
  pub updated_at_ms : ℕ
  pub completed_at_ms : Option ℕ
  pub recovery_note : Option String
  pub pending_signal : Option String

-- The n-th reading of the clock, the n-th id drawn and the text of an id.
pub record Environment : Type 0 where
  pub clock : ℕ → ℕ
  pub ids : ℕ → ℕ
  pub id_text : ℕ → String

pub record World (V : Type 0) : Type 0 where
  pub env : Environment
  pub tasks : List Row
  pub journal : List (JournalEntry V)
  pub events : List (Event V)
  pub reads : ℕ
  pub drawn : ℕ

pub data Result {ℓ} (A : Type ℓ) : Type ℓ where
  ok : A → Result A
  err : TaskError → Result A

pub Result-cases {ℓ} :
    {A : Type ℓ} (r : Result A) → ((e : TaskError) × (r ≡ err e)) ⊎ ((a : A) × (r ≡ ok a))
Result-cases (ok a) = inr (a, refl)
Result-cases (err e) = inl (e, refl)

-- What was written before an error stays written.
abbrev pub Exec : Type 0 → Type 0 → Type 0
Exec V A = World V → Result A × World V

module _ {V A : Type 0} where
  unfoldable pub pure : A → Exec V A
  pure a w = (ok a, w)

  unfoldable pub lift : Result A → Exec V A
  lift r w = (r, w)

  unfoldable pub gets : (World V → A) → Exec V A
  gets f w = (ok (f w), w)

module _ {V : Type 0} where
  unfoldable pub modify : (World V → World V) → Exec V (Unit {0})
  modify f w = (ok tt, f w)

  -- `clock.now()`
  unfoldable pub now : Exec V ℕ
  now w = (ok (w.env.clock w.reads), record w { reads = w.reads + 1 })

  -- `TaskId::new()`, `EffectId::new()`, `StepId::new()`
  unfoldable pub new_id : Exec V ℕ
  new_id w = (ok (w.env.ids w.drawn), record w { drawn = w.drawn + 1 })

-- The `?` operator: an error ends the method. Opening it opens the actions above.
module _ {V A B : Type 0} where
  abbrev pub resume : Result A → (A → Exec V B) → Exec V B
  resume (ok a) f w = f a w
  resume (err e) f w = (err e, w)

  infixl 5 ◌>>=◌ ◌>>◌
  unfoldable pub ◌>>=◌ : Exec V A → (A → Exec V B) → Exec V B
  unfolding pure lift gets modify now new_id
  ◌>>=◌ m f w = resume (m w).0 f (m w).1

  abbrev pub ◌>>◌ : Exec V A → Exec V B → Exec V B
  m >> n = m >>= λ _. n

-- `SELECT … WHERE id = ?`
abbrev pub find_row : ℕ → List Row → Option Row
find_row id = findb λ r. r.id == id

-- `UPDATE tasks SET … WHERE id = ?`
abbrev pub update_row : ℕ → (Row → Row) → List Row → List Row
update_row id f [] = []
update_row id f (r ∷ rs) = (if r.id == id then f r else r) ∷ update_row id f rs

abbrev pub on_row : (Row → Row) → Option Row → Option Row
on_row f none = none
on_row f (some r) = some (f r)

-- An update that keeps the ids changes the rows of that id and no other.
pub find_row-update_row :
    (id other : ℕ) (f : Row → Row) (rows : List Row)
    → ((r : Row) → (f r).id ≡ r.id)
    → find_row other (update_row id f rows)
      ≡ (if id == other then on_row f (find_row other rows) else find_row other rows)
find_row-update_row id other f [] keeps = ground arith
find_row-update_row id other f (r ∷ rs) keeps =
    ground (arith, find_row-update_row id other f rs keeps, keeps r)
