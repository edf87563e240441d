-- ===== src/Orchestrator/Pool.antt =====
-- The pool of resident models and its admission control: crates/valyria-orchestrator/src/pool.rs.
pub mod Evictions
pub mod Admissions
pub mod Runs
pub mod Victims
use valyria.Common.{
  ℕ, zero, suc, ◌+◌, String, Bool, true, false, Option, none, some, List, [], ◌∷◌, ◌++◌, ltb, leb,
  if◌then◌else◌, ◌&&◌, ◌||◌, ◌==◌, nat_eq, string_eq, anyb, filterb, min_by, length, map,
}
use valyria.Orchestrator.Role.{ModelRole, priority}

pub data EvictReason : Type 0 where
  memory_pressure manual : EvictReason

pub data PoolEvent : Type 0 where
  loaded : String → ℕ → PoolEvent
  evicted : String → EvictReason → PoolEvent
  resource_pressure : ℕ → ℕ → PoolEvent

pub data PoolError : Type 0 where
  wont_fit : String → ℕ → ℕ → PoolError

pub record Resident : Type 0 where
  pub id : String
  pub role : ModelRole
  pub footprint : ℕ
  pub last_used : ℕ

pub record ModelPool : Type 0 where
  pub budget_bytes : ℕ
  pub residents : List Resident
  pub tick : ℕ

unfoldable pub new : ℕ → ModelPool
new budget_bytes = record { budget_bytes = budget_bytes; residents = []; tick = 0 }

-- `residents.iter().map(|r| r.footprint).sum()`
abbrev pub used : List Resident → ℕ
used [] = 0
used (r ∷ rs) = r.footprint + used rs

unfoldable pub used_bytes : ModelPool → ℕ
used_bytes pool = used pool.residents

unfoldable pub is_loaded : ModelPool → String → Bool
is_loaded pool id = anyb (λ r. r.id == id) pool.residents

abbrev pub enumerate_from : ℕ → List Resident → List (ℕ × Resident)
enumerate_from i [] = []
enumerate_from i (r ∷ rs) = (i, r) ∷ enumerate_from (suc i) rs

-- The comparison of `min_by`: by priority, then by last use.
unfoldable pub less : ℕ × Resident → ℕ × Resident → Bool
unfolding priority
less (i, a) (j, b) =
    ltb (priority b.role) (priority a.role)
    || (priority b.role == priority a.role) && ltb b.last_used a.last_used

abbrev pub index_of : Option (ℕ × Resident) → Option ℕ
index_of none = none
index_of (some (i, r)) = some i

abbrev pub eligible : ℕ → ℕ × Resident → Bool
eligible ceiling (i, r) = leb (priority r.role) ceiling

unfoldable pub pick_victim : List Resident → ℕ → Option ℕ
unfolding less
pick_victim residents ceiling =
    index_of (min_by less (filterb (eligible ceiling) (enumerate_from 0 residents)))

abbrev pub resident_at : ℕ → List Resident → Option Resident
resident_at i [] = none
resident_at zero (r ∷ rs) = some r
resident_at (suc i) (r ∷ rs) = resident_at i rs

-- `residents.remove(i)`
abbrev pub remove_at : ℕ → List Resident → List Resident
remove_at i [] = []
remove_at zero (r ∷ rs) = rs
remove_at (suc i) (r ∷ rs) = r ∷ remove_at i rs

-- How the loop of `admit` ends; `panics` is an index out of range.
pub data RoomEnd : Type 0 where
  fits no_victim panics no_fuel : RoomEnd

pub record Room : Type 0 where
  pub residents : List Resident
  pub events : List PoolEvent
  pub outcome : RoomEnd

-- The body of the loop: the victim leaves, and the loop goes on.
unfoldable pub evict_at :
    (List Resident → List PoolEvent → Room)
    → List Resident
    → List PoolEvent
    → ℕ
    → Option Resident
    → Room
evict_at next residents events i none = record {
  residents = residents;
  events = events;
  outcome = panics;
}
evict_at next residents events i (some victim) =
    next (remove_at i residents) (events ++ evicted victim.id memory_pressure ∷ [])

unfoldable pub evict_victim :
    (List Resident → List PoolEvent → Room) → List Resident → List PoolEvent → Option ℕ → Room
unfolding evict_at
evict_victim next residents events none = record {
  residents = residents;
  events = events;
  outcome = no_victim;
}
evict_victim next residents events (some i) =
    evict_at next residents events i (resident_at i residents)

-- `while self.used_bytes() + footprint_bytes > self.budget_bytes`, with fuel.
unfoldable pub make_room :
    ℕ → (budget footprint ceiling : ℕ) → List Resident → List PoolEvent → Room
unfolding evict_victim
make_room zero budget footprint ceiling residents events = record {
  residents = residents;
  events = events;
  outcome = no_fuel;
}
make_room (suc fuel) budget footprint ceiling residents events =
    let evicting =
      evict_victim (make_room fuel budget footprint ceiling) residents events
        (pick_victim residents ceiling) in
    if ltb budget (used residents + footprint)
    then evicting
    else record { residents = residents; events = events; outcome = fits }

pub data Admission : Type 0 where
  ok : List PoolEvent → Admission
  err : PoolError → Admission
  fault : Admission

-- `find` on `iter_mut`: the first resident of that id is updated.
abbrev pub touch : String → ModelRole → ℕ → List Resident → List Resident
touch id role tick [] = []
touch id role tick (r ∷ rs) =
    let rest = touch id role tick rs in
    if r.id == id then record r { last_used = tick; role = role } ∷ rs else r ∷ rest

abbrev pub with_pressure : ℕ → ℕ → List PoolEvent → List PoolEvent
with_pressure footprint budget [] = []
with_pressure footprint budget (e ∷ es) = resource_pressure footprint budget ∷ e ∷ es

unfoldable pub settle : ModelPool → String → ModelRole → ℕ → Room → RoomEnd → ModelPool × Admission
settle pool id role footprint room fits = (
  record pool {
    residents =
        room.residents
        ++ (record { id = id; role = role; footprint = footprint; last_used = pool.tick } ∷ []);
  },
  ok (with_pressure footprint pool.budget_bytes room.events ++ loaded id footprint ∷ []),
)
settle pool id role footprint room no_victim =
    (record pool { residents = room.residents }, err (wont_fit id footprint pool.budget_bytes))
settle pool id role footprint room panics = (pool, fault)
settle pool id role footprint room no_fuel = (pool, fault)

-- The loop of `admit`. One round more than there are residents is fuel enough.
unfoldable pub room_for : ModelPool → ModelRole → ℕ → Room
unfolding make_room priority
room_for pool role footprint =
    make_room (suc (length pool.residents)) pool.budget_bytes footprint (priority role)
      pool.residents []

-- The part of `admit` for a model that is not resident.
unfoldable pub admit_new : ModelPool → String → ModelRole → ℕ → ModelPool × Admission
unfolding settle
admit_new pool id role footprint =
    if ltb pool.budget_bytes footprint
    then (pool, err (wont_fit id footprint pool.budget_bytes))
    else settle pool id role footprint (room_for pool role footprint)
        (room_for pool role footprint).outcome

unfoldable pub admit_ticked : ModelPool → String → ModelRole → ℕ → ModelPool × Admission
unfolding admit_new is_loaded
admit_ticked pool id role footprint =
    if is_loaded pool id
    then (record pool { residents = touch id role pool.tick pool.residents }, ok [])
    else admit_new pool id role footprint

unfoldable pub admit : ModelPool → String → ModelRole → ℕ → ModelPool × Admission
unfolding admit_ticked
admit pool id role footprint = admit_ticked (record pool { tick = pool.tick + 1 }) id role footprint

abbrev pub position : String → List Resident → Option ℕ
position id [] = none
position id (r ∷ rs) = if r.id == id then some 0 else map_suc (position id rs)
  where
    map_suc : Option ℕ → Option ℕ
    map_suc none = none
    map_suc (some i) = some (suc i)

unfoldable pub evict_position : ModelPool → String → Option ℕ → ModelPool × Option PoolEvent
evict_position pool id none = (pool, none)
evict_position pool id (some i) =
    (record pool { residents = remove_at i pool.residents }, some (evicted id manual))

unfoldable pub evict : ModelPool → String → ModelPool × Option PoolEvent
unfolding evict_position
evict pool id = evict_position pool id (position id pool.residents)
