-- ===== src/Orchestrator/Pool/Evictions.antt =====
-- How the loop of `admit` makes room: crates/valyria-orchestrator/src/pool.rs.
use valyria.Common.{
  ltb, Bool-cases, Option-cases, option_eq, string_eq, nat_eq, length, filterb, length-append, All,
  min_by, All-filterb, min_by_lem, ℕ, zero, suc, ◌+◌, ◌≤◌, ◌<◌, ◌≡◌, refl, sym, ap, ◌∙◌, subst, inl,
  inr, true, Option, none, some, List, [], ◌∷◌, ◌++◌, append_assoc, arith,
}
use valyria.Orchestrator.Role.{role_eq, priority}
use valyria.Orchestrator.Pool.{
  memory_pressure, PoolEvent, evicted, Resident, used, enumerate_from, less, index_of, eligible,
  pick_victim, resident_at, remove_at, fits, no_victim, Room, make_room,
}

-- The residents that a model of priority `ceiling` cannot displace.
abbrev pub protected : ℕ → List Resident → List Resident
protected ceiling = filterb (λ r. ltb ceiling (priority r.role))

resident_at-append :
    (before : List Resident) (r : Resident) (rs : List Resident)
    → resident_at (length before) (before ++ r ∷ rs) ≡ some r
resident_at-append [] r rs = refl
resident_at-append (q ∷ before) r rs = resident_at-append before r rs

abbrev pub Stands : List Resident → ℕ × Resident → Type 0
Stands rs (i, r) = resident_at i rs ≡ some r

pub enumerate_from-Stands :
    (before rs : List Resident) → All (Stands (before ++ rs)) (enumerate_from (length before) rs)
enumerate_from-Stands before [] = tt
enumerate_from-Stands before (r ∷ rs) = (
  resident_at-append before r rs,
  subst (λ n. All (Stands (before ++ r ∷ rs)) (enumerate_from n rs)) l
      (subst (λ whole. All (Stands whole) (enumerate_from (length (before ++ r ∷ [])) rs)) e
        (enumerate_from-Stands (before ++ r ∷ []) rs)),
)
  where
    e : (before ++ r ∷ []) ++ rs ≡ before ++ r ∷ rs
    e = append_assoc before (r ∷ []) rs

    l : length (before ++ r ∷ []) ≡ suc (length before)
    l = omega (arith, length-append before (r ∷ []))

abbrev Victim : ℕ → List Resident → ℕ → Type 0
Victim ceiling rs i = (r : Resident) × (resident_at i rs ≡ some r) × (priority r.role ≤ ceiling)

index_of-Victim :
    (ceiling : ℕ) (rs : List Resident) (o : Option (ℕ × Resident)) (i : ℕ)
    → ((m : ℕ × Resident) → o ≡ some m → Stands rs m × (eligible ceiling m ≡ true))
    → index_of o ≡ some i
    → Victim ceiling rs i
index_of-Victim ceiling rs none i f h = cc
index_of-Victim ceiling rs (some (j, r)) i f h =
    let (stands, low) = f (j, r) refl in
    let same : j ≡ i = cc in (r, subst (λ k. resident_at k rs ≡ some r) same stands, ground arith)

pick_victim-some :
    (ceiling : ℕ) (rs : List Resident) (i : ℕ)
    → pick_victim rs ceiling ≡ some i
    → Victim ceiling rs i
unfolding pick_victim
pick_victim-some ceiling rs i h =
    index_of-Victim ceiling rs _ i
      (λ m e.
        min_by_lem (λ m. Stands rs m × (eligible ceiling m ≡ true)) less _ m
          (All-filterb (Stands rs) (eligible ceiling) _ (enumerate_from-Stands [] rs)) e)
      h

index_of-none : (o : Option (ℕ × Resident)) → index_of o ≡ none → o ≡ none
index_of-none none h = refl
index_of-none (some (i, r)) h = cc

min_by-none : (xs : List (ℕ × Resident)) → min_by less xs ≡ none → xs ≡ []
min_by-none [] h = refl
min_by-none (x ∷ xs) h = cc

eligible_none :
    (ceiling i : ℕ) (rs : List Resident)
    → filterb (eligible ceiling) (enumerate_from i rs) ≡ []
    → protected ceiling rs ≡ rs
eligible_none ceiling i [] h = refl
eligible_none ceiling i (r ∷ rs) h = ground (arith, eligible_none ceiling (suc i) rs)

-- If there is no victim, no resident can be displaced.
pub pick_victim-none :
    (ceiling : ℕ) (rs : List Resident) → pick_victim rs ceiling ≡ none → protected ceiling rs ≡ rs
unfolding pick_victim
pick_victim-none ceiling rs h = eligible_none ceiling 0 rs (min_by-none _ (index_of-none _ h))

-- What stays when a resident leaves.
protected-remove_at :
    (ceiling i : ℕ) (rs : List Resident) (r : Resident)
    → resident_at i rs ≡ some r
    → priority r.role ≤ ceiling
    → protected ceiling (remove_at i rs) ≡ protected ceiling rs
protected-remove_at ceiling i [] r h p = refl
protected-remove_at ceiling zero (q ∷ rs) r h p = ground arith
protected-remove_at ceiling (suc i) (q ∷ rs) r h p =
    ground (arith, protected-remove_at ceiling i rs r)

length-remove_at :
    (i : ℕ) (rs : List Resident) (r : Resident)
    → resident_at i rs ≡ some r
    → suc (length (remove_at i rs)) ≡ length rs
length-remove_at i [] r h = cc
length-remove_at zero (q ∷ rs) r h = refl
length-remove_at (suc i) (q ∷ rs) r h = ap suc (length-remove_at i rs r h)

pub used-protected-le : (ceiling : ℕ) (rs : List Resident) → used (protected ceiling rs) ≤ used rs
used-protected-le ceiling [] = omega arith
used-protected-le ceiling (r ∷ rs) = ground (arith, used-protected-le ceiling rs)

-- The end of the loop: it made room, or only protected residents are left and they take too much.
pub data Ends (budget footprint ceiling : ℕ) (rs : List Resident) (room : Room) : Type 0 where
  made :
      room.outcome ≡ fits
      → used room.residents + footprint ≤ budget
      → protected ceiling room.residents ≡ protected ceiling rs
      → Ends budget footprint ceiling rs room
  gave_up :
      room.outcome ≡ no_victim
      → budget < used (protected ceiling rs) + footprint
      → room.residents ≡ protected ceiling rs
      → Ends budget footprint ceiling rs room

module _ (budget footprint ceiling : ℕ) where
  Ends-next :
      (rs rs' : List Resident) (room : Room)
      → protected ceiling rs' ≡ protected ceiling rs
      → Ends budget footprint ceiling rs' room
      → Ends budget footprint ceiling rs room
  Ends-next rs rs' room same (made o u p) = made o u (p ∙ same)
  Ends-next rs rs' room same (gave_up o u p) = gave_up o (rw (← same) u) (p ∙ same)

  pub make_room-Ends :
      (fuel : ℕ) (rs : List Resident) (events : List PoolEvent)
      → length rs < fuel
      → Ends budget footprint ceiling rs (make_room fuel budget footprint ceiling rs events)
  unfolding make_room
  make_room-Ends zero rs events h = absurd (omega arith)
  make_room-Ends (suc fuel) rs events h = elim (Bool-cases (ltb budget (used rs + footprint))) [
    | inr f ↦ rw f (made refl (ground arith) refl)
    | inl t ↦ elim (Option-cases (pick_victim rs ceiling)) [
      | inl e ↦
          let same : protected ceiling rs ≡ rs = pick_victim-none ceiling rs e in
          rw (t, e) (gave_up refl (rw same (ground arith)) (sym same))
      | inr (i, e) ↦
          let (r, at, low) = pick_victim-some ceiling rs i e in
          let next =
            make_room-Ends fuel (remove_at i rs) (events ++ evicted r.id memory_pressure ∷ [])
              (omega (arith, length-remove_at i rs r at)) in
          rw (t, e, at)
            (Ends-next rs (remove_at i rs) _ (protected-remove_at ceiling i rs r at low) next)
    ]
  ]
