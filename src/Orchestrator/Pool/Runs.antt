-- ===== src/Orchestrator/Pool/Runs.antt =====
-- Sequences of calls of the pool: crates/valyria-orchestrator/src/pool.rs.
use valyria.Orchestrator.Pool.Evictions.{used-protected-le, gave_up, made, Ends}
use valyria.Orchestrator.Pool.Admissions.{used-append, room_for-Ends, admit_lem, ticked}
use valyria.Common.{
  ap, length, true, ==_sym, ◌∙◌, anyb-append, ltb, ℕ, zero, suc, ◌+◌, ◌≤◌, ◌≡◌, refl, false, String,
  List, [], ◌∷◌, ◌++◌, arith, anyb, ◌==◌, string_eq, Bool-cases, inl, inr, Option-cases,
}
use valyria.Orchestrator.Role.{ModelRole}
use valyria.Orchestrator.Pool.{
  priority, position, is_loaded, settle, room_for, resident_at, pick_victim, touch, ModelPool,
  Resident, PoolEvent, Room, make_room, remove_at, used, admit, evict, new,
}

-- No two residents have one id.
abbrev pub Distinct : List Resident → Type 0
Distinct [] = Unit
Distinct (r ∷ rs) = (anyb (λ q. q.id == r.id) rs ≡ false) × Distinct rs

pub record IsValid (pool : ModelPool) : Type 0 where
  pub within : used pool.residents ≤ pool.budget_bytes
  pub distinct : Distinct pool.residents

anyb-remove_at :
    (id : String) (i : ℕ) (rs : List Resident)
    → anyb (λ q. q.id == id) rs ≡ false
    → anyb (λ q. q.id == id) (remove_at i rs) ≡ false
anyb-remove_at id i [] h = refl
anyb-remove_at id zero (r ∷ rs) h = ground arith
anyb-remove_at id (suc i) (r ∷ rs) h = ground (arith, anyb-remove_at id i rs)

remove_at-Distinct : (i : ℕ) (rs : List Resident) → Distinct rs → Distinct (remove_at i rs)
remove_at-Distinct i [] d = tt
remove_at-Distinct zero (r ∷ rs) d = d.1
remove_at-Distinct (suc i) (r ∷ rs) d = (anyb-remove_at r.id i rs d.0, remove_at-Distinct i rs d.1)

used-remove_at-le : (i : ℕ) (rs : List Resident) → used (remove_at i rs) ≤ used rs
used-remove_at-le i [] = omega arith
used-remove_at-le zero (r ∷ rs) = omega arith
used-remove_at-le (suc i) (r ∷ rs) = omega (arith, used-remove_at-le i rs)

-- What a removal keeps, the loop keeps.
make_room-keeps :
    (P : List Resident → Type 0) (keep : (i : ℕ) (rs : List Resident) → P rs → P (remove_at i rs))
    (budget footprint ceiling fuel : ℕ) (rs : List Resident) (events : List PoolEvent)
    → P rs
    → P (make_room fuel budget footprint ceiling rs events).residents
unfolding make_room
make_room-keeps P keep budget footprint ceiling zero rs events p = p
make_room-keeps P keep budget footprint ceiling (suc fuel) rs events p =
    elim (Bool-cases (ltb budget (used rs + footprint))) [
      | inr f ↦ rw f p
      | inl t ↦ elim (Option-cases (pick_victim rs ceiling)) [
        | inl e ↦ rw (t, e) p
        | inr (i, e) ↦ elim (Option-cases (resident_at i rs)) [
          | inl at ↦ rw (t, e, at) p
          | inr (r, at) ↦
              rw (t, e, at)
                (make_room-keeps P keep budget footprint ceiling fuel (remove_at i rs) _
                  (keep i rs p))
        ]
      ]
    ]

used-touch :
    (id : String) (role : ModelRole) (tick : ℕ) (rs : List Resident)
    → used (touch id role tick rs) ≡ used rs
used-touch id role tick [] = refl
used-touch id role tick (r ∷ rs) = ground (arith, used-touch id role tick rs)

anyb-touch :
    (other id : String) (role : ModelRole) (tick : ℕ) (rs : List Resident)
    → anyb (λ q. q.id == other) (touch id role tick rs) ≡ anyb (λ q. q.id == other) rs
anyb-touch other id role tick [] = refl
anyb-touch other id role tick (r ∷ rs) = ground (arith, anyb-touch other id role tick rs)

touch-Distinct :
    (id : String) (role : ModelRole) (tick : ℕ) (rs : List Resident)
    → Distinct rs
    → Distinct (touch id role tick rs)
touch-Distinct id role tick [] d = tt
touch-Distinct id role tick (r ∷ rs) d = elim (Bool-cases (r.id == id)) [
  | inl t ↦ rw t d
  | inr f ↦ rw f (anyb-touch r.id id role tick rs ∙ d.0, touch-Distinct id role tick rs d.1)
]

append-Distinct :
    (rs : List Resident) (r : Resident)
    → Distinct rs
    → anyb (λ q. q.id == r.id) rs ≡ false
    → Distinct (rs ++ r ∷ [])
append-Distinct [] r d h = (refl, tt)
append-Distinct (q ∷ rs) r d h = (
  anyb-append (λ (s : Resident). s.id == q.id) rs (r ∷ []) ∙ ground (arith, d.0, ==_sym r.id q.id),
  append-Distinct rs r d.1 (ground arith),
)

abbrev Fresh : String → List Resident → Type 0
Fresh id rs = Distinct rs × (anyb (λ q. q.id == id) rs ≡ false)

room_for-Fresh :
    (pool : ModelPool) (id : String) (role : ModelRole) (footprint : ℕ)
    → Fresh id pool.residents
    → Fresh id (room_for (ticked pool) role footprint).residents
unfolding room_for ticked
room_for-Fresh pool id role footprint f =
    make_room-keeps (Fresh id) (λ i rs p. (remove_at-Distinct i rs p.0, anyb-remove_at id i rs p.1))
      pool.budget_bytes footprint (priority role) (suc (length pool.residents)) pool.residents [] f

settle-IsValid :
    (pool : ModelPool) (id : String) (role : ModelRole) (footprint : ℕ) (room : Room)
    → IsValid pool
    → Fresh id room.residents
    → Ends pool.budget_bytes footprint (priority role) pool.residents room
    → IsValid (settle (ticked pool) id role footprint room room.outcome).0
unfolding settle ticked
settle-IsValid pool id role footprint room v f (made o u p) = rw o (record {
  within = rw (used-append room.residents) (omega arith);
  distinct = append-Distinct room.residents _ f.0 f.1;
})
settle-IsValid pool id role footprint room v f (gave_up o u p) = rw o (record {
  within = omega (arith, ap used p, used-protected-le (priority role) pool.residents, v.within);
  distinct = f.0;
})

admit_loaded :
    (pool : ModelPool) (id : String) (role : ModelRole) (footprint : ℕ)
    → IsValid pool
    → is_loaded pool id ≡ true
    → IsValid (admit pool id role footprint).0
unfolding admit
admit_loaded pool id role footprint v there = rw there (record {
  within = omega (arith, used-touch id role (pool.tick + 1) pool.residents, v.within);
  distinct = touch-Distinct id role (pool.tick + 1) pool.residents v.distinct;
})

admit_large :
    (pool : ModelPool) (id : String) (role : ModelRole) (footprint : ℕ)
    → IsValid pool
    → is_loaded pool id ≡ false
    → ltb pool.budget_bytes footprint ≡ true
    → IsValid (admit pool id role footprint).0
unfolding admit
admit_large pool id role footprint v absent large =
    rw (absent, large) (record { within = v.within; distinct = v.distinct })

admit-IsValid :
    (pool : ModelPool) (id : String) (role : ModelRole) (footprint : ℕ)
    → IsValid pool
    → IsValid (admit pool id role footprint).0
admit-IsValid pool id role footprint v = elim (Bool-cases (is_loaded pool id)) [
  | inl there ↦ admit_loaded pool id role footprint v there
  | inr absent ↦ elim (Bool-cases (ltb pool.budget_bytes footprint)) [
    | inl large ↦ admit_large pool id role footprint v absent large
    | inr small ↦ rw (admit_lem pool id role footprint absent (ground arith)) (
        settle-IsValid pool id role footprint _ v
          (room_for-Fresh pool id role footprint (v.distinct, unfold is_loaded in absent))
          (room_for-Ends pool role footprint))
  ]
]

evict-IsValid : (pool : ModelPool) (id : String) → IsValid pool → IsValid (evict pool id).0
unfolding evict
evict-IsValid pool id v = elim (Option-cases (position id pool.residents)) [
  | inl e ↦ rw e v
  | inr (i, e) ↦ rw e (record {
    within = omega (arith, used-remove_at-le i pool.residents, v.within);
    distinct = remove_at-Distinct i pool.residents v.distinct;
  })
]

pub data Call : Type 0 where
  admits : String → ModelRole → ℕ → Call
  evicts : String → Call

unfoldable pub step : ModelPool → Call → ModelPool
step pool (admits id role footprint) = (admit pool id role footprint).0
step pool (evicts id) = (evict pool id).0

unfoldable pub run : ModelPool → List Call → ModelPool
run pool [] = pool
run pool (c ∷ cs) = run (step pool c) cs

step-IsValid : (pool : ModelPool) (c : Call) → IsValid pool → IsValid (step pool c)
unfolding step
step-IsValid pool (admits id role footprint) v = admit-IsValid pool id role footprint v
step-IsValid pool (evicts id) v = evict-IsValid pool id v

-- After any calls, failing ones included, the residents of a pool that starts empty take no more
-- bytes than its budget, and no two of them have one id.
pub run-IsValid : (budget : ℕ) (cs : List Call) → IsValid (run (new budget) cs)
unfolding new run
run-IsValid budget cs = from _ cs (record { within = omega arith; distinct = tt })
  where
    from : (pool : ModelPool) (cs : List Call) → IsValid pool → IsValid (run pool cs)
    from pool [] v = v
    from pool (c ∷ cs) v = from (step pool c) cs (step-IsValid pool c v)
