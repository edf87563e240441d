-- ===== src/Orchestrator/Pool/Victims.antt =====
-- Which resident is evicted first: `pick_victim` of crates/valyria-orchestrator/src/pool.rs.
use valyria.Orchestrator.Pool.Evictions.{enumerate_from-Stands, Stands}
use valyria.Orchestrator.Role.{priority}
use valyria.Common.{
  ltb, ltb→lt, inr, inl, All-filterb, Bool-cases, subst, min_by_lem, leb, filterb, true, false, ℕ,
  zero, suc, ◌≤◌, ◌<◌, ◌≡◌, ◌⊎◌, Option, none, some, List, [], ◌∷◌, arith, All, min_by_least,
}
use valyria.Orchestrator.Pool.{
  enumerate_from, eligible, index_of, Resident, resident_at, less, pick_victim,
}

-- `a` is evicted no later than `b`: it has a lower priority, or the same and no later use.
abbrev pub NoLater : Resident → Resident → Type 0
NoLater a b =
    (priority a.role < priority b.role)
    ⊎ ((priority a.role ≡ priority b.role) × (a.last_used ≤ b.last_used))

NoLater_lem : (a b : ℕ × Resident) → less a b ≡ false → NoLater a.1 b.1
unfolding less
NoLater_lem (i, a) (j, b) h = elim (Bool-cases (ltb (priority a.role) (priority b.role))) [
  | inl t ↦ inl (ltb→lt _ _ t)
  | inr f ↦ inr (ground arith, ground arith)
]

less_trans : (a b c : ℕ × Resident) → less a b ≡ false → less b c ≡ false → less a c ≡ false
unfolding less
less_trans (i, a) (j, b) (k, c) h g = ground arith

less_asym : (a b : ℕ × Resident) → less a b ≡ true → less b a ≡ false
unfolding less
less_asym (i, a) (j, b) h = ground arith

All-eligible :
    (P : ℕ × Resident → Type 0) (ceiling k j : ℕ) (rs : List Resident) (q : Resident)
    → All P (filterb (eligible ceiling) (enumerate_from k rs))
    → resident_at j rs ≡ some q
    → priority q.role ≤ ceiling
    → (n : ℕ) × P (n, q)
All-eligible P ceiling k j [] q h at low = cc
All-eligible P ceiling k zero (r ∷ rs) q h at low =
    let fits : leb (priority r.role) ceiling ≡ true = ground arith in
    let h' : P (k, r) = (rw fits at h).0 in
    let same : r ≡ q = cc in (k, subst (λ s. P (k, s)) same h')
All-eligible P ceiling k (suc j) (r ∷ rs) q h at low =
    elim (Bool-cases (leb (priority r.role) ceiling)) [
      | inl t ↦ All-eligible P ceiling (suc k) j rs q (rw t at h).1 at low
      | inr f ↦ All-eligible P ceiling (suc k) j rs q (rw f at h) at low
    ]

min_stands :
    (rs : List Resident) (ceiling i : ℕ)
    → (o : Option (ℕ × Resident)) → index_of o ≡ some i
    → (r : Resident) × (o ≡ some (i, r))
min_stands rs ceiling i none h = cc
min_stands rs ceiling i (some (j, r)) h = let e : j ≡ i = cc in (r, cc)

-- The victim is a resident that may be evicted, and every resident that may be evicted has a
-- higher priority, or the same priority and no earlier use.
pub pick_victim-NoLater :
    (rs : List Resident) (ceiling i j : ℕ) (q : Resident)
    → pick_victim rs ceiling ≡ some i
    → resident_at j rs ≡ some q
    → priority q.role ≤ ceiling
    → (r : Resident) × (resident_at i rs ≡ some r) × (priority r.role ≤ ceiling) × NoLater r q
unfolding pick_victim
pick_victim-NoLater rs ceiling i j q picked at low =
    let (r, m) = min_stands rs ceiling i _ picked in
    let (stands, fits) =
      min_by_lem (λ m. Stands rs m × (eligible ceiling m ≡ true)) less _ (i, r)
        (All-filterb (Stands rs) (eligible ceiling) _ (enumerate_from-Stands [] rs)) m in
    let (n, least) =
      All-eligible (λ x. less (i, r) x ≡ false) ceiling 0 j rs q
        (min_by_least less less_trans less_asym _ (i, r) m) at low in
    (r, stands, ground arith, NoLater_lem (i, r) (n, q) least)
