-- ===== src/Orchestrator/Pool/Admissions.antt =====
-- The results of admission, and the pools that calls lead to:
-- crates/valyria-orchestrator/src/pool.rs.
use valyria.Common.{
  ltb, ◌==◌, ==_refl, option_eq, string_eq, nat_eq, length, filterb-append, anyb-append, ℕ, suc,
  ◌+◌, ◌≤◌, ◌<◌, String, ◌≡◌, refl, ap, ◌∙◌, true, false, List, [], ◌∷◌, ◌++◌, append-nil, arith,
}
use valyria.Orchestrator.Role.{ModelRole, role_eq, priority}
use valyria.Orchestrator.Pool.{
  room_for, PoolEvent, loaded, wont_fit, Resident, ModelPool, new, used, used_bytes, is_loaded,
  fits, Room, Admission, ok, err, with_pressure, settle, admit,
}
use valyria.Orchestrator.Pool.Evictions.{
  used-protected-le, protected, Ends, made, gave_up, make_room-Ends,
}

-- The bytes that the model needs beside the residents that it cannot displace.
abbrev pub needed : ModelPool → ModelRole → ℕ → ℕ
needed pool role footprint = used (protected (priority role) pool.residents) + footprint

unfoldable pub ticked : ModelPool → ModelPool
ticked pool = record pool { tick = pool.tick + 1 }

pub admit_lem :
    (pool : ModelPool) (id : String) (role : ModelRole) (footprint : ℕ)
    → is_loaded pool id ≡ false
    → footprint ≤ pool.budget_bytes
    → admit pool id role footprint
      ≡ settle
          (ticked pool)
          id
          role
          footprint
          (room_for (ticked pool) role footprint)
          (room_for (ticked pool) role footprint).outcome
unfolding admit ticked
admit_lem pool id role footprint new small =
    let fits : ltb pool.budget_bytes footprint ≡ false = ground arith in rw (new, fits)

pub room_for-Ends :
    (pool : ModelPool) (role : ModelRole) (footprint : ℕ)
    → Ends pool.budget_bytes footprint
        (priority role)
        pool.residents
        (room_for (ticked pool) role footprint)
unfolding room_for ticked
room_for-Ends pool role footprint =
    make_room-Ends pool.budget_bytes footprint (priority role) (suc (length pool.residents))
      pool.residents [] (omega arith)

pub used-append : (rs qs : List Resident) → used (rs ++ qs) ≡ used rs + used qs
used-append [] qs = omega arith
used-append (r ∷ rs) qs = omega (arith, used-append rs qs)

-- What an admission leaves.
abbrev pub Admitted : ModelPool → String → ModelRole → ℕ → ModelPool × Admission → Type 0
Admitted pool id role footprint (after, result) =
    ((events : List PoolEvent) × (result ≡ ok (events ++ loaded id footprint ∷ [])))
    × (is_loaded after id ≡ true)
    × (protected (priority role) after.residents ≡ protected (priority role) pool.residents)
    × (used_bytes after ≤ pool.budget_bytes)

protected-append_self :
    (rs : List Resident) (r : Resident)
    → protected (priority r.role) (rs ++ r ∷ []) ≡ protected (priority r.role) rs
protected-append_self rs r =
    let e : ltb (priority r.role) (priority r.role) ≡ false = ground arith in
    filterb-append (λ (q : Resident). ltb (priority r.role) (priority q.role)) rs (r ∷ [])
    ∙ rw e (append-nil _)

settle-Admitted :
    (pool : ModelPool) (id : String) (role : ModelRole) (footprint : ℕ) (room : Room)
    → used room.residents + footprint ≤ pool.budget_bytes
    → protected (priority role) room.residents ≡ protected (priority role) pool.residents
    → Admitted pool id role footprint (settle (ticked pool) id role footprint room fits)
unfolding settle ticked used_bytes is_loaded
settle-Admitted pool id role footprint room u p = (
  (with_pressure footprint pool.budget_bytes room.events, refl),
  rw (anyb-append (λ (r : Resident). r.id == id) room.residents) (ground (arith, ==_refl id)),
  protected-append_self room.residents _ ∙ p,
  rw (used-append room.residents) (omega arith),
)

-- A model that is not resident and whose weights fit beside the residents of a higher priority is
-- admitted: it is resident after the call, the residents of a higher priority are the same as
-- before, and the pool is within its budget.
pub admit-ok :
    (pool : ModelPool) (id : String) (role : ModelRole) (footprint : ℕ)
    → is_loaded pool id ≡ false
    → needed pool role footprint ≤ pool.budget_bytes
    → Admitted pool id role footprint (admit pool id role footprint)
admit-ok pool id role footprint new fit = elim (room_for-Ends pool role footprint) [
  | made o u p ↦ rw (e, o) (settle-Admitted pool id role footprint _ u p)
  | gave_up o u p ↦ absurd (omega arith)
]
  where
    e :
        admit pool id role footprint
        ≡ settle
            (ticked pool)
            id
            role
            footprint
            (room_for (ticked pool) role footprint)
            (room_for (ticked pool) role footprint).outcome
    e = admit_lem pool id role footprint new (omega arith)

-- A model that is not resident and whose weights fit the budget, but not beside the residents of a
-- higher priority, is refused; and every other resident has left the pool, with no event for it.
pub admit-err :
    (pool : ModelPool) (id : String) (role : ModelRole) (footprint : ℕ)
    → is_loaded pool id ≡ false
    → footprint ≤ pool.budget_bytes
    → pool.budget_bytes < needed pool role footprint
    → ((admit pool id role footprint).1 ≡ err (wont_fit id footprint pool.budget_bytes))
      × ((admit pool id role footprint).0.residents ≡ protected (priority role) pool.residents)
unfolding settle ticked
admit-err pool id role footprint new small big = elim (room_for-Ends pool role footprint) [
  | made o u p ↦ absurd (
      omega (
        arith,
        used-protected-le (priority role) (room_for (ticked pool) role footprint).residents,
        ap used p,
      ))
  | gave_up o u p ↦ rw (admit_lem pool id role footprint new small, o) (refl, p)
]
