-- ===== src/Plan/FindCycle/Black.antt =====
-- What `dfs_cycle` of crates/valyria-plan/src/validate.rs leaves behind when it finds no cycle: the
-- black steps, each after the steps it depends on.
use valyria.Common.{
  ℕ, ◌≤◌, ◌<◌, Bool, true, false, not, ◌&&◌, some, List, [], ◌∷◌, ◌++◌, string_eq, ◌==◌, ==_iff,
  ==_refl, nat_eq, filterb, lookup, insert, lookup-insert, length, contains, contains-append, ◌≡◌,
  arith, Bool-cases, inl, inr,
}
use valyria.Plan.Model.{PlanStepId}
use valyria.Plan.Waves.{Adjacency}
use valyria.Plan.Waves.Order.{before, contains-before-append}
use valyria.Plan.FindCycle.{Search, colour_of, enter, pop}

abbrev pub is_white : Search → PlanStepId → Bool
is_white st k = colour_of st k == 0

abbrev pub is_grey : Search → PlanStepId → Bool
is_grey st k = colour_of st k == 1

-- How many of the steps are still white.
abbrev pub whites : List PlanStepId → Search → ℕ
whites ks st = length (filterb (is_white st) ks)

-- The black steps, in the order in which they were left.
pub record IsClosed (adj : Adjacency) (st : Search) (fin : List PlanStepId) : Type 0 where
  pub black : (k : PlanStepId) → contains fin k ≡ (not (is_white st k) && not (is_grey st k))
  pub closed :
      (k d : PlanStepId) (deps : List PlanStepId)
      → contains fin k ≡ true
      → lookup k adj ≡ some deps
      → contains deps d ≡ true
      → contains (before k fin) d ≡ true

-- A search that found nothing made some white steps black, and changed nothing else.
pub record IsAfter (adj : Adjacency) (st : Search) (fin : List PlanStepId) (st' : Search)
    : Type 0 where
  pub fin' : List PlanStepId
  pub is_closed : IsClosed adj st' fin'
  pub grey : (k : PlanStepId) → is_grey st' k ≡ is_grey st k
  pub more : (k : PlanStepId) → contains fin k ≡ true → contains fin' k ≡ true

pub whites-le :
    (ks : List PlanStepId) (st st' : Search)
    → ((k : PlanStepId) → is_white st' k ≡ true → is_white st k ≡ true)
    → whites ks st' ≤ whites ks st
whites-le [] st st' h = omega arith
whites-le (k ∷ ks) st st' h = ground (arith, whites-le ks st st' h, h k)

whites-enter-le :
    (ks : List PlanStepId) (node : PlanStepId) (st : Search)
    → whites ks (enter node st) ≤ whites ks st
whites-enter-le ks node st =
    whites-le ks st (enter node st) (λ k w. ground (arith, lookup-insert node k 1 st.colour))

-- Entering a white step leaves fewer white ones.
pub whites-enter :
    (ks : List PlanStepId) (node : PlanStepId) (st : Search)
    → contains ks node ≡ true
    → is_white st node ≡ true
    → whites ks (enter node st) < whites ks st
whites-enter [] node st c w = cc
whites-enter (k ∷ ks) node st c w = ground (
  arith,
  whites-enter ks node st,
  whites-enter-le ks node st,
  ==_iff k node,
  ==_iff node k,
  lookup-insert node k 1 st.colour,
)

pub enter-IsClosed :
    (adj : Adjacency) (node : PlanStepId) (st : Search) (fin : List PlanStepId)
    → IsClosed adj st fin
    → is_white st node ≡ true
    → IsClosed adj (enter node st) fin
enter-IsClosed adj node st fin c w = record {
  black = λ k. ground (arith, c.black k, lookup-insert node k 1 st.colour, ==_iff node k);
  closed = c.closed;
}

contains-before-append_in :
    (x d : PlanStepId) (xs ys : List PlanStepId)
    → contains xs x ≡ true
    → contains (before x (xs ++ ys)) d ≡ contains (before x xs) d
contains-before-append_in x d [] ys h = cc
contains-before-append_in x d (y ∷ xs) ys h = ground (arith, contains-before-append_in x d xs ys)

-- The search of one step, once its dependencies have been visited.
pub finish-IsAfter :
    (adj : Adjacency) (node : PlanStepId) (st st' : Search) (fin : List PlanStepId)
    → is_white st node ≡ true
    → (a : IsAfter adj (enter node st) fin st')
    → ((d : PlanStepId) (deps : List PlanStepId)
        → lookup node adj ≡ some deps
        → contains deps d ≡ true
        → contains a.fin' d ≡ true)
    → IsAfter adj st fin (record { colour = insert node 2 st'.colour; stack = pop st'.stack })
finish-IsAfter adj node st st' fin w a deps_black =
    let old = λ (k : PlanStepId). lookup-insert node k 1 st.colour in
    let new = λ (k : PlanStepId). lookup-insert node k 2 st'.colour in
    let open_node : contains a.fin' node ≡ false =
      ground (arith, a.is_closed.black node, a.grey node, old node, ==_refl node) in
    record {
      fin' = a.fin' ++ node ∷ [];
      is_closed = record {
        black = λ k. ground (
          arith,
          a.is_closed.black k,
          new k,
          contains-append a.fin' (node ∷ []) k,
          ==_iff node k,
        );
        closed = λ k d deps c e m. elim (Bool-cases (contains a.fin' k)) [
          | inl inside ↦ ground (
            arith,
            contains-before-append_in k d a.fin' (node ∷ []) inside,
            a.is_closed.closed k d deps,
          )
          | inr outside ↦
              let same : node ≡ k =
                ground (arith, contains-append a.fin' (node ∷ []) k, ==_iff node k) in
              ground (
                arith,
                contains-before-append k d a.fin' (node ∷ []) outside,
                deps_black d deps (rw same e) m,
              )
        ];
      };
      grey = λ k. ground (arith, a.grey k, old k, new k, ==_iff node k);
      more = λ k h. ground (arith, a.more k h, contains-append a.fin' (node ∷ []) k);
    }
