-- ===== src/Agent/Repair/Bounds.antt =====
-- When the repair ledger of crates/valyria-agent/src/repair.rs stops the loop.
use valyria.Common.{
  u32_range, as_u32, as_u32-small, as_u32-next, ℕ, suc, ◌+◌, ◌≤◌, ◌<◌, ap, ◌∙◌, true, String,
  Option, some, List, [], ◌∷◌, ◌++◌, string_eq, leb, le→leb, leb→le, length, length-append,
  if◌then◌else◌, ◌≡◌, ◌↔◌, ◌⊎◌, inl, inr, refl, arith, Bool-cases, last?,
}
use valyria.Agent.LoopDetect.{LoopFinding, oscillation}
use valyria.Agent.Repair.{
  RepairAttempt, mark_escalated, mark_switched_role, give_up, ask_user, RepairLedger, new_ledger,
  count, record_attempt, decide, decide_rest, escalate_or_ask, has_regressed,
}

-- What is done to a ledger.
pub data RepairStep : Type 0 where
  records : RepairAttempt → RepairStep
  escalates switches_role : RepairStep

abbrev pub after : RepairLedger → RepairStep → RepairLedger
after l (records a) = record_attempt l a
after l escalates = mark_escalated l
after l switches_role = mark_switched_role l

-- The ledger after some steps, the oldest first.
abbrev pub run : RepairLedger → List RepairStep → RepairLedger
run l [] = l
run l (s ∷ steps) = run (after l s) steps

-- How many attempts the steps record.
abbrev pub recorded : List RepairStep → ℕ
recorded [] = 0
recorded (records a ∷ steps) = recorded steps + 1
recorded (escalates ∷ steps) = recorded steps
recorded (switches_role ∷ steps) = recorded steps

-- The attempts are numbered from the given number on.
abbrev pub NumberedFrom : ℕ → List RepairAttempt → Type 0
NumberedFrom n [] = Unit
NumberedFrom n (a ∷ more) = (a.attempt ≡ n) × NumberedFrom (suc n) more

numbered_snoc :
    (n : ℕ) (xs : List RepairAttempt) (a : RepairAttempt)
    → NumberedFrom n xs
    → a.attempt ≡ n + length xs
    → NumberedFrom n (xs ++ a ∷ [])
numbered_snoc n [] a h e = (omega arith, tt)
numbered_snoc n (x ∷ xs) a h e = (h.0, numbered_snoc (suc n) xs a h.1 (omega arith))

-- The ledger after the steps: its attempts are numbered, are as many as were recorded, and its bound is
-- kept.
abbrev Counted : RepairLedger → RepairLedger → ℕ → Type 0
Counted l l' n =
    NumberedFrom 1 l'.attempts
    × (length l'.attempts ≡ length l.attempts + n)
    × (l'.max_attempts ≡ l.max_attempts)

run-Counted :
    (l : RepairLedger) (steps : List RepairStep)
    → NumberedFrom 1 l.attempts
    → length l.attempts + recorded steps < u32_range
    → Counted l (run l steps) (recorded steps)
unfolding record_attempt mark_escalated mark_switched_role
run-Counted l [] h small = (h, omega arith, refl)
run-Counted l (records a ∷ steps) h small =
    let next : NumberedFrom 1 (record_attempt l a).attempts =
      numbered_snoc 1 l.attempts _ h
        (omega (arith, as_u32-next (length l.attempts) (omega (arith, small)))) in
    let one_more : length (record_attempt l a).attempts ≡ length l.attempts + 1 =
      length-append l.attempts _ in
    let (n, c, m) = run-Counted (record_attempt l a) steps next (omega (arith, one_more, small)) in
    (n, omega (arith, c, one_more), m)
run-Counted l (escalates ∷ steps) h small = run-Counted (mark_escalated l) steps h small
run-Counted l (switches_role ∷ steps) h small = run-Counted (mark_switched_role l) steps h small

rest_goes_on :
    (l : RepairLedger) (fp : String) (f : Option LoopFinding) → decide_rest l fp f ≡ give_up → ⊥
unfolding escalate_or_ask
rest_goes_on l fp f h = ground arith

decide-give_up :
    (l : RepairLedger) (fp : String) (f : Option LoopFinding)
    → (decide l fp f ≡ give_up) ↔ (l.max_attempts ≤ count l)
unfolding decide escalate_or_ask
decide-give_up l fp f = elim (Bool-cases (leb l.max_attempts (count l))) [
  | inl e ↦ (λ h. leb→le _ _ e, λ h. rw e refl)
  | inr e ↦ (λ h. absurd (goes_on (rw e at h)), λ h. cc (e, le→leb _ _ h))
]
  where
    goes_on :
        (if has_regressed (last? l.attempts) then escalate_or_ask l else decide_rest l fp f)
          ≡ give_up
        → ⊥
    goes_on h = elim (Bool-cases (has_regressed (last? l.attempts))) [
      | inl r ↦ absurd (ground arith)
      | inr r ↦ rest_goes_on l fp f (rw r at h)
    ]

-- Whatever is done to a new ledger, with fewer than 2 ^ 32 attempts recorded: they are numbered 1,
-- 2, 3, …, and it gives up exactly once there are as many as it allows, whether or not its strategy was
-- escalated and its role switched, and whatever the loop detector found.
pub run-decide :
    (max : ℕ) (steps : List RepairStep) (fp : String) (f : Option LoopFinding)
    → recorded steps < u32_range
    → let l = run (new_ledger max) steps in
      NumberedFrom 1 l.attempts × ((decide l fp f ≡ give_up) ↔ (max ≤ recorded steps))
unfolding new_ledger
run-decide max steps fp f small =
    let (numbered, counted, max_kept) =
      run-Counted (new_ledger max) steps tt (omega (arith, small)) in
    let as_many : length (run (new_ledger max) steps).attempts ≡ recorded steps =
      omega (arith, counted) in
    let kept : count (run (new_ledger max) steps) ≡ recorded steps =
      ap as_u32 as_many ∙ as_u32-small (recorded steps) small in
    let stops = decide-give_up (run (new_ledger max) steps) fp f in
    (
      numbered,
      (λ h. omega (arith, stops.0 h, kept, max_kept), λ h. stops.1 (omega (arith, kept, max_kept))),
    )

-- If the ledger asks the user, then about an oscillation, or once the strategy was escalated and
-- the role was switched.
decide-ask_user :
    (l : RepairLedger) (fp : String) (f : Option LoopFinding)
    → decide l fp f ≡ ask_user
    → ((p : ℕ) × (f ≡ some (oscillation p))) ⊎ ((l.escalated ≡ true) × (l.switched_role ≡ true))
unfolding decide escalate_or_ask
decide-ask_user l fp f h = ground arith
