-- ===== src/Plan/FindCycle/Agreement.antt =====
-- `find_cycle` of crates/valyria-plan/src/validate.rs finds a cycle whenever there are no waves.
use valyria.Common.{
  suc, ◌≤◌, true, not, ◌||◌, Option, none, some, List, [], ◌∷◌, string_eq, ◌==◌, nat_eq, filterb,
  lookup, insert, lookup-insert, length, unwrap_or, contains, ◌≡◌, refl, arith, inl, inr,
  Option-cases, ap, ◌∙◌, sym, is_some, contains-filterb,
}
use valyria.Plan.Model.{PlanStepId, PlanStep, Plan, step_ids}
use valyria.Plan.Waves.{Adjacency, adjacency, keys, topological_waves, insert_all}
use valyria.Plan.Waves.Progress.{IsStuck, topological_waves-IsStuck, keys-known}
use valyria.Plan.Waves.Sets.{contains-keys}
use valyria.Plan.Waves.Cycles.{first_in}
use valyria.Plan.FindCycle.{Search, scan, find_cycle, sorted, insert_key}
use valyria.Plan.FindCycle.Black.{whites, IsClosed}
use valyria.Plan.FindCycle.Complete.{scan-IsAfter}

contains-insert_key :
    (k : PlanStepId) (xs : List PlanStepId) (x : PlanStepId)
    → contains (insert_key k xs) x ≡ (k == x || contains xs x)
contains-insert_key k [] x = refl
contains-insert_key k (y ∷ ys) x = ground (arith, contains-insert_key k ys x)

contains-sorted : (ks : List PlanStepId) (x : PlanStepId) → contains (sorted ks) x ≡ contains ks x
contains-sorted [] x = refl
contains-sorted (k ∷ ks) x =
    ground (arith, contains-insert_key k (sorted ks) x, contains-sorted ks x)

known_deps :
    (ids : List PlanStepId) (steps : List PlanStep) (adj : Adjacency)
    → ((k d : PlanStepId) → contains (unwrap_or [] (lookup k adj)) d ≡ true → contains ids d ≡ true)
    → (k d : PlanStepId) → contains (unwrap_or [] (lookup k (insert_all ids steps adj))) d ≡ true
    → contains ids d ≡ true
known_deps ids [] adj h = h
known_deps ids (s ∷ ss) adj h =
    let deps = filterb (contains ids) s.depends_on in
    known_deps ids ss (insert s.id deps adj) (λ k d m.
      ground (
        arith,
        h k d,
        lookup-insert s.id k deps adj,
        contains-filterb (contains ids) s.depends_on d,
      ))

abbrev start : Search
start = record { colour = []; stack = [] }

start-IsClosed : (adj : Adjacency) → IsClosed adj start []
start-IsClosed adj = record { black = λ k. refl; closed = λ k d deps c e m. cc }

length-whites : (steps : List PlanStep) → whites (step_ids steps) start ≤ length steps
length-whites [] = omega arith
length-whites (s ∷ ss) = ground (arith, length-whites ss)

never_closed :
    (adj : Adjacency) (stuck fin : List PlanStepId) (st : Search)
    → IsStuck adj stuck
    → IsClosed adj st fin
    → ((k : PlanStepId) → contains (keys adj) k ≡ true → contains fin k ≡ true)
    → ⊥
never_closed adj stuck fin st s c all =
    let in_fin = λ (k : PlanStepId) (h : contains stuck k ≡ true).
      let needs = s.waits k h in
      let here : contains (keys adj) k ≡ true = rw (contains-keys adj k, needs.entry) refl in
      all k here in
    let (y, is_in, free) = first_in stuck fin s.some_step s.is_in (in_fin s.some_step s.is_in) in
    let needs = s.waits y is_in in
    let early =
      c.closed y needs.dependency needs.deps (in_fin y is_in) needs.entry needs.is_dependency in
    cc (free needs.dependency early, needs.is_stuck)

-- A stalled plan has a cycle that the search finds.
found_if_stalled :
    (plan : Plan) (waves : Option (List (List PlanStepId)))
    → topological_waves plan ≡ waves
    → is_some (find_cycle plan) ≡ not (is_some waves)
unfolding find_cycle adjacency
found_if_stalled plan (some ws) e = rw e refl
found_if_stalled plan none e =
    let adj = adjacency plan in
    let r = scan (suc (length plan.steps)) adj (sorted (keys adj)) start in
    elim (Option-cases r.0) [
      | inr (cycle, f) ↦ rw (e, f) refl
      | inl f ↦
          let (stuck, s) = topological_waves-IsStuck plan e in
          let same : r ≡ (none, r.1) = ap (λ (o : Option (List PlanStepId)). (o, r.1)) f in
          let (a, all) =
            scan-IsAfter (suc (length plan.steps)) adj (step_ids plan.steps) (sorted (keys adj))
              start r.1 [] (known_deps (step_ids plan.steps) plan.steps [] (λ k d m. cc))
              (λ d m. sym (keys-known plan d) ∙ sym (contains-sorted (keys adj) d) ∙ m) (λ k. refl)
              (start-IsClosed adj) (omega (arith, length-whites plan.steps)) same in
          absurd (
            never_closed adj stuck a.fin' r.1 s a.is_closed
              (λ k m. all k (contains-sorted (keys adj) k ∙ m)))
    ]

-- The search finds a cycle exactly if there are no waves.
pub find_cycle-topological_waves :
    (plan : Plan) → is_some (find_cycle plan) ≡ not (is_some (topological_waves plan))
find_cycle-topological_waves plan = found_if_stalled plan (topological_waves plan) refl
