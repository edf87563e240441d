-- ===== src/Plan/FindCycle.antt =====
-- The search for a readable cycle: `find_cycle` and `dfs_cycle` of
-- crates/valyria-plan/src/validate.rs. The recursion runs on fuel, one more than there are steps:
-- each level of it colours another step grey.
pub mod Black
pub mod Complete
pub mod Agreement
use Prim.Native.String.{compare}
use text.Mathlib.Text.{is_lt}
use valyria.Common.{
  ℕ, zero, suc, Bool, true, false, Option, none, some, List, [], ◌∷◌, ◌++◌, string_eq, ◌==◌, nat_eq,
  lookup, insert, if◌then◌else◌, length, unwrap_or,
}
use valyria.Plan.Model.{PlanStepId, PlanStep, Plan}
use valyria.Plan.Waves.{Adjacency, adjacency, keys, topological_waves}

-- 0 is white, 1 is grey, 2 is black; the stack grows at its end.
pub record Search : Type 0 where
  pub colour : List (PlanStepId × ℕ)
  pub stack : List PlanStepId

abbrev pub colour_of : Search → PlanStepId → ℕ
colour_of st k = unwrap_or 0 (lookup k st.colour)

-- `stack[pos..]`, from the first occurrence, or all of it if there is none.
abbrev pub from_first : PlanStepId → List PlanStepId → List PlanStepId → List PlanStepId
from_first next whole [] = whole
from_first next whole (s ∷ ss) =
    let rest = from_first next whole ss in if s == next then s ∷ ss else rest

abbrev pub enter : PlanStepId → Search → Search
enter node st = record { colour = insert node 1 st.colour; stack = st.stack ++ node ∷ [] }

-- `Vec::pop`
abbrev pub pop : List PlanStepId → List PlanStepId
pop [] = []
pop (x ∷ []) = []
pop (x ∷ y ∷ ys) = x ∷ pop (y ∷ ys)

abbrev pub finish :
    PlanStepId → Option (List PlanStepId) × Search → Option (List PlanStepId) × Search
finish node (some cycle, st) = (some cycle, st)
finish node (none, st) = (none, record { colour = insert node 2 st.colour; stack = pop st.stack })

abbrev pub or_next :
    Option (List PlanStepId) × Search
    → (Search → Option (List PlanStepId) × Search)
    → Option (List PlanStepId) × Search
or_next (some cycle, st) next = (some cycle, st)
or_next (none, st) next = next st

-- The loop over the dependencies of a step.
abbrev pub visit :
    (PlanStepId → Search → Option (List PlanStepId) × Search)
    → List PlanStepId
    → Search
    → Option (List PlanStepId) × Search
visit dfs [] st = (none, st)
visit dfs (next ∷ others) st =
    if colour_of st next == 1
    then (some (from_first next st.stack st.stack ++ next ∷ []), st)
    else if colour_of st next == 0
    then or_next (dfs next st) (visit dfs others)
    else visit dfs others st

unfoldable pub dfs_cycle : ℕ → Adjacency → PlanStepId → Search → Option (List PlanStepId) × Search
dfs_cycle zero adj node st = (none, st)
dfs_cycle (suc fuel) adj node st =
    finish node (visit (dfs_cycle fuel adj) (unwrap_or [] (lookup node adj)) (enter node st))

-- The loop over the keys.
unfoldable pub scan : ℕ → Adjacency → List PlanStepId → Search → Option (List PlanStepId) × Search
unfolding dfs_cycle
scan fuel adj [] st = (none, st)
scan fuel adj (start ∷ starts) st =
    if colour_of st start == 0
    then or_next (dfs_cycle fuel adj start st) (scan fuel adj starts)
    else scan fuel adj starts st

-- A `BTreeMap` iterates over its keys in their order.
abbrev pub insert_key : PlanStepId → List PlanStepId → List PlanStepId
insert_key k [] = k ∷ []
insert_key k (x ∷ xs) =
    let rest = insert_key k xs in if is_lt (compare k x) then k ∷ x ∷ xs else x ∷ rest

abbrev pub sorted : List PlanStepId → List PlanStepId
sorted [] = []
sorted (k ∷ ks) = insert_key k (sorted ks)

abbrev pub or_search :
    Option (List (List PlanStepId)) → Option (List PlanStepId) → Option (List PlanStepId)
or_search (some waves) cycle = none
or_search none cycle = cycle

unfoldable pub find_cycle : Plan → Option (List PlanStepId)
unfolding scan
find_cycle plan =
    let adj = adjacency plan in
    let start : Search = record { colour = []; stack = [] } in
    let found = scan (suc (length plan.steps)) adj (sorted (keys adj)) start in
    or_search (topological_waves plan) found.0
