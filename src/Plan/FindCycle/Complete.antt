-- ===== src/Plan/FindCycle/Complete.antt =====
-- The search of `find_cycle` in crates/valyria-plan/src/validate.rs against the waves.
use valyria.Common.{
  ℕ, zero, suc, ◌≤◌, true, false, Option, none, some, List, [], ◌∷◌, string_eq, ==_iff, ==_refl,
  nat_eq, lookup, insert, lookup-insert, unwrap_or, contains, ◌≡◌, refl, arith, Bool-cases, inl,
  inr, ap, ◌∙◌, subst,
}
use valyria.Plan.Model.{PlanStepId}
use valyria.Plan.Waves.{Adjacency}
use valyria.Plan.FindCycle.{Search, enter, finish, or_next, visit, dfs_cycle, pop, scan}
use valyria.Plan.FindCycle.Black.{
  is_white, is_grey, whites, IsClosed, IsAfter, whites-le, whites-enter, enter-IsClosed,
  finish-IsAfter,
}

abbrev Found : Type 0
Found = Option (List PlanStepId) × Search

-- What a search that returns nothing has done, for steps among `ks` of which at most `n` are white.
abbrev IsSearch : ℕ → Adjacency → List PlanStepId → (PlanStepId → Search → Found) → Type 0
IsSearch n adj ks dfs =
    (node : PlanStepId) (st st' : Search) (fin : List PlanStepId)
    → IsClosed adj st fin
    → is_white st node ≡ true
    → contains ks node ≡ true
    → whites ks st ≤ n
    → dfs node st ≡ (none, st')
    → (a : IsAfter adj st fin st') × (contains a.fin' node ≡ true)

after_whites :
    (adj : Adjacency) (ks : List PlanStepId) (st st' : Search) (fin : List PlanStepId)
    → IsClosed adj st fin
    → IsAfter adj st fin st'
    → whites ks st' ≤ whites ks st
after_whites adj ks st st' fin c a =
    whites-le ks st st' (λ k w. ground (arith, c.black k, a.is_closed.black k, a.grey k, a.more k))

IsAfter-refl :
    (adj : Adjacency) (st : Search) (fin : List PlanStepId)
    → IsClosed adj st fin
    → IsAfter adj st fin st
IsAfter-refl adj st fin c = record { fin' = fin; is_closed = c; grey = λ k. refl; more = λ k h. h }

IsAfter-trans :
    (adj : Adjacency) (st mid st' : Search) (fin : List PlanStepId) (a : IsAfter adj st fin mid)
    → (b : IsAfter adj mid a.fin' st') → IsAfter adj st fin st'
IsAfter-trans adj st mid st' fin a b = record {
  fin' = b.fin';
  is_closed = b.is_closed;
  grey = λ k. b.grey k ∙ a.grey k;
  more = λ k h. b.more k (a.more k h);
}

none-or_next :
    (r : Found) (next : Search → Found) (st' : Search)
    → or_next r next ≡ (none, st')
    → (r ≡ (none, r.1)) × (next r.1 ≡ (none, st'))
none-or_next (none, st) next st' h = (refl, h)
none-or_next (some c, st) next st' h = absurd (ground arith)

also_in :
    (x : PlanStepId) (ns fin : List PlanStepId)
    → contains fin x ≡ true
    → ((d : PlanStepId) → contains ns d ≡ true → contains fin d ≡ true)
    → (d : PlanStepId) → contains (x ∷ ns) d ≡ true
    → contains fin d ≡ true
also_in x ns fin here rest d m = ground (arith, rest d, ==_iff x d)

visit-IsAfter :
    (n : ℕ) (adj : Adjacency) (ks : List PlanStepId) (dfs : PlanStepId → Search → Found)
    (ns : List PlanStepId) (st st' : Search) (fin : List PlanStepId)
    → IsSearch n adj ks dfs
    → ((d : PlanStepId) → contains ns d ≡ true → contains ks d ≡ true)
    → IsClosed adj st fin
    → whites ks st ≤ n
    → visit dfs ns st ≡ (none, st')
    → (a : IsAfter adj st fin st') × ((d : PlanStepId)
        → contains ns d ≡ true
        → contains a.fin' d ≡ true)
unfolding IsAfter-trans
visit-IsAfter n adj ks dfs [] st st' fin dfs_is among c w h =
    let same : st ≡ st' = ap (λ (r : Found). r.1) h in
    (subst (IsAfter adj st fin) same (IsAfter-refl adj st fin c), λ d m. cc)
visit-IsAfter n adj ks dfs (x ∷ ns) st st' fin dfs_is among c w h =
    elim (Bool-cases (is_grey st x)) [
      | inl grey ↦ absurd (ground arith)
      | inr not_grey ↦ elim (Bool-cases (is_white st x)) [
        | inl white ↦
            let (nothing, later) =
              none-or_next (dfs x st) (visit dfs ns) st' (rw (not_grey, white) at h) in
            let (a, here) =
              dfs_is x st (dfs x st).1 fin c white (among x (ground (arith, ==_refl x))) w
                nothing in
            let (b, rest) =
              visit-IsAfter n adj ks dfs ns (dfs x st).1 st' a.fin' dfs_is
                (λ d m. among d (ground arith)) a.is_closed
                (omega (arith, after_whites adj ks st (dfs x st).1 fin c a)) later in
            (
              IsAfter-trans adj st (dfs x st).1 st' fin a b,
              also_in x ns b.fin' (b.more x here) rest,
            )
        | inr white_not ↦
            let (a, rest) =
              visit-IsAfter n adj ks dfs ns st st' fin dfs_is (λ d m. among d (ground arith)) c w
                (rw (not_grey, white_not) at h) in
            (a, also_in x ns a.fin' (a.more x (c.black x ∙ rw (white_not, not_grey) refl)) rest)
      ]
    ]

none-finish :
    (node : PlanStepId) (r : Found) (st' : Search)
    → finish node r ≡ (none, st')
    → (r ≡ (none, r.1))
      × (record { colour = insert node 2 r.1.colour; stack = pop r.1.stack } ≡ st')
none-finish node (none, st) st' h = (refl, ap (λ (x : Found). x.1) h)
none-finish node (some c, st) st' h = absurd (ground arith)

-- With as much fuel as there are white steps the search of one step is complete.
dfs_cycle-IsSearch :
    (n : ℕ) (adj : Adjacency) (ks : List PlanStepId)
    → ((k d : PlanStepId) → contains (unwrap_or [] (lookup k adj)) d ≡ true → contains ks d ≡ true)
    → IsSearch n adj ks (dfs_cycle n adj)
unfolding dfs_cycle
dfs_cycle-IsSearch zero adj ks among node st st' fin c white is_key w h =
    absurd (omega (arith, whites-enter ks node st is_key white))
dfs_cycle-IsSearch (suc n) adj ks among node st st' fin c white is_key w h =
    let deps = unwrap_or [] (lookup node adj) in
    let r = visit (dfs_cycle n adj) deps (enter node st) in
    let (nothing, same) = none-finish node r st' h in
    let (a, visited) =
      visit-IsAfter n adj ks (dfs_cycle n adj) deps (enter node st) r.1 fin
        (dfs_cycle-IsSearch n adj ks among) (among node) (enter-IsClosed adj node st fin c white)
        (omega (arith, whites-enter ks node st is_key white)) nothing in
    let done = finish-IsAfter adj node st r.1 fin white a (λ d ds e m. visited d (rw e m)) in
    subst (λ s. (b : IsAfter adj st fin s) × (contains b.fin' node ≡ true)) same
      (
        done,
        ground
            (arith, done.is_closed.black node, lookup-insert node node 2 r.1.colour, ==_refl node),
      )

pub scan-IsAfter :
    (n : ℕ) (adj : Adjacency) (ks starts : List PlanStepId) (st st' : Search)
    (fin : List PlanStepId)
    → ((k d : PlanStepId) → contains (unwrap_or [] (lookup k adj)) d ≡ true → contains ks d ≡ true)
    → ((d : PlanStepId) → contains starts d ≡ true → contains ks d ≡ true)
    → ((k : PlanStepId) → is_grey st k ≡ false)
    → IsClosed adj st fin
    → whites ks st ≤ n
    → scan n adj starts st ≡ (none, st')
    → (a : IsAfter adj st fin st') × ((d : PlanStepId)
        → contains starts d ≡ true
        → contains a.fin' d ≡ true)
unfolding scan IsAfter-trans
scan-IsAfter n adj ks [] st st' fin deps_in among no_grey c w h =
    let same : st ≡ st' = ap (λ (r : Found). r.1) h in
    (subst (IsAfter adj st fin) same (IsAfter-refl adj st fin c), λ d m. cc)
scan-IsAfter n adj ks (x ∷ ns) st st' fin deps_in among no_grey c w h =
    elim (Bool-cases (is_white st x)) [
      | inl white ↦
          let mid = (dfs_cycle n adj x st).1 in
          let (nothing, later) =
            none-or_next (dfs_cycle n adj x st) (scan n adj ns) st' (rw white at h) in
          let (a, here) =
            dfs_cycle-IsSearch n adj ks deps_in x st mid fin c white
              (among x (ground (arith, ==_refl x))) w nothing in
          let (b, rest) =
            scan-IsAfter n adj ks ns mid st' a.fin' deps_in (λ d m. among d (ground arith))
              (λ k. a.grey k ∙ no_grey k) a.is_closed
              (omega (arith, after_whites adj ks st mid fin c a)) later in
          (IsAfter-trans adj st mid st' fin a b, also_in x ns b.fin' (b.more x here) rest)
      | inr white_not ↦
          let (a, rest) =
            scan-IsAfter n adj ks ns st st' fin deps_in (λ d m. among d (ground arith)) no_grey c w
              (rw white_not at h) in
          (a, also_in x ns a.fin' (a.more x (c.black x ∙ rw (white_not, no_grey x) refl)) rest)
    ]
