-- ===== src/Agent/LoopDetect/Cycles.antt =====
-- What the oscillation detector of crates/valyria-agent/src/loop_detect.rs finds.
use valyria.Common.{
  ℕ, zero, suc, ◌+◌, ◌-◌, ◌*◌, ◌≤◌, ◌<◌, true, false, String, some, List, [], ◌∷◌, ◌++◌, map,
  string_eq, ==_iff, leb, take, drop, length, is_some, ◌≡◌, ◌↔◌, refl, arith, Bool-cases, inl, inr,
  ap, sym, ◌∙◌, subst, length-append, leb→le, le→leb,
}
use valyria.Agent.LoopDetect.{
  LoopDetector, LoopFinding, oscillation, key, list_eqb, is_constant, tail_of, oscillates,
  first_period, detect_oscillation,
}

list_eqb_iff : (xs ys : List String) → (list_eqb xs ys ≡ true) ↔ (xs ≡ ys)
list_eqb_iff [] [] = (λ h. refl, λ h. refl)
list_eqb_iff [] (y ∷ ys) = (λ h. cc, λ h. cc)
list_eqb_iff (x ∷ xs) [] = (λ h. cc, λ h. cc)
list_eqb_iff (x ∷ xs) (y ∷ ys) = (
  λ h. ground (arith, ==_iff x y, list_eqb_iff xs ys),
  λ h. ground (arith, ==_iff x y, list_eqb_iff xs ys),
)

take-drop : (n : ℕ) (xs : List String) → take n xs ++ drop n xs ≡ xs
take-drop zero xs = refl
take-drop (suc n) [] = refl
take-drop (suc n) (x ∷ xs) = ap (λ ys. x ∷ ys) (take-drop n xs)

length-drop : (n : ℕ) (xs : List String) → length (drop n xs) ≡ length xs - n
length-drop zero xs = omega arith
length-drop (suc n) [] = omega arith
length-drop (suc n) (x ∷ xs) = omega (arith, length-drop n xs)

length-take : (n : ℕ) (xs : List String) → n ≤ length xs → length (take n xs) ≡ n
length-take zero xs h = refl
length-take (suc n) [] h = absurd (omega arith)
length-take (suc n) (x ∷ xs) h = omega (arith, length-take n xs (omega arith))

drop-append : (xs ys : List String) → drop (length xs) (xs ++ ys) ≡ ys
drop-append [] ys = refl
drop-append (x ∷ xs) ys = drop-append xs ys

take-append : (xs ys : List String) → take (length xs) (xs ++ ys) ≡ xs
take-append [] ys = refl
take-append (x ∷ xs) ys = ap (λ zs. x ∷ zs) (take-append xs ys)

-- The keys end in three rounds of one cycle of `period` keys that are not all the same.
pub record EndsInCycle (period : ℕ) (keys : List String) : Type 0 where
  pub before : List String
  pub cycle : List String
  pub rounds : before ++ (cycle ++ (cycle ++ cycle)) ≡ keys
  pub length_of_cycle : length cycle ≡ period
  pub varies : is_constant cycle ≡ false

oscillates-EndsInCycle :
    (period : ℕ) (keys : List String) → oscillates period keys ≡ true → EndsInCycle period keys
oscillates-EndsInCycle period keys h =
    let tail = tail_of period keys in
    let cycle = take period tail in
    let fits : period * 3 ≤ length keys = leb→le _ _ (ground arith) in
    let long : length tail ≡ period * 3 =
      omega (arith, length-drop (length keys - period * 3) keys) in
    let second : take period (drop period tail) ≡ cycle = (list_eqb_iff _ _).0 (ground arith) in
    let third : drop period (drop period tail) ≡ cycle = (list_eqb_iff _ _).0 (ground arith) in
    record {
      before = take (length keys - period * 3) keys;
      cycle = cycle;
      rounds =
          ap (λ c. take (length keys - period * 3) keys ++ (cycle ++ c))
            (ap (λ c. c ++ cycle) (sym second)
              ∙ ap (λ c. take period (drop period tail) ++ c) (sym third)
              ∙ take-drop period (drop period tail))
          ∙ ap (λ c. take (length keys - period * 3) keys ++ c) (take-drop period tail)
          ∙ take-drop (length keys - period * 3) keys;
      length_of_cycle = length-take period tail (omega arith);
      varies = ground arith;
    }

tail_of_rounds :
    (before cycle : List String)
    → tail_of (length cycle) (before ++ (cycle ++ (cycle ++ cycle))) ≡ cycle ++ (cycle ++ cycle)
tail_of_rounds before cycle =
    let rounds = cycle ++ (cycle ++ cycle) in
    let short : length (before ++ rounds) - length cycle * 3 ≡ length before = omega (
      arith,
      length-append before rounds,
      length-append cycle (cycle ++ cycle),
      length-append cycle cycle,
    ) in
    ap (λ n. drop n (before ++ rounds)) short ∙ drop-append before rounds

rounds-oscillates :
    (before cycle : List String)
    → is_constant cycle ≡ false
    → oscillates (length cycle) (before ++ (cycle ++ (cycle ++ cycle))) ≡ true
rounds-oscillates before cycle varies =
    let rounds = cycle ++ (cycle ++ cycle) in
    let long : leb (length cycle * 3) (length (before ++ rounds)) ≡ true = le→leb _ _ (
      omega (
        arith,
        length-append before rounds,
        length-append cycle (cycle ++ cycle),
        length-append cycle cycle,
      )) in
    let first : take (length cycle) rounds ≡ cycle = take-append cycle (cycle ++ cycle) in
    let rest : drop (length cycle) rounds ≡ cycle ++ cycle = drop-append cycle (cycle ++ cycle) in
    rw
      (
        long,
        tail_of_rounds before cycle,
        first,
        varies,
        rest,
        take-append cycle cycle,
        drop-append cycle cycle,
      )
      (ground (arith, (list_eqb_iff cycle cycle).1 refl))

EndsInCycle-oscillates :
    (period : ℕ) (keys : List String) → EndsInCycle period keys → oscillates period keys ≡ true
EndsInCycle-oscillates period keys e =
    subst (λ p. oscillates p keys ≡ true) e.length_of_cycle
      (subst (λ ks. oscillates (length e.cycle) ks ≡ true) e.rounds
        (rounds-oscillates e.before e.cycle e.varies))

first_period_sound :
    (period left : ℕ) (keys : List String) (f : LoopFinding)
    → first_period period left keys ≡ some f
    → (p : ℕ) × (f ≡ oscillation p) × (p < period + left) × EndsInCycle p keys
first_period_sound period zero keys f h = cc
first_period_sound period (suc left) keys f h = elim (Bool-cases (oscillates period keys)) [
  | inl e ↦ (period, ground arith, omega arith, oscillates-EndsInCycle period keys e)
  | inr e ↦
      let (p, is_p, bound, cycle) = first_period_sound (suc period) left keys f (rw e at h) in
      (p, is_p, omega arith, cycle)
]

first_period_complete :
    (period left p : ℕ) (keys : List String)
    → period ≤ p
    → p < period + left
    → EndsInCycle p keys
    → is_some (first_period period left keys) ≡ true
first_period_complete period zero p keys low high e = absurd (omega arith)
first_period_complete period (suc left) p keys low high e =
    elim (Bool-cases (oscillates period keys)) [
      | inl found ↦ rw found refl
      | inr missed ↦ rw missed (
          first_period_complete (suc period) left p keys (omega (arith, period_differs missed))
            (omega arith) e)
    ]
  where
    period_differs : oscillates period keys ≡ false → period < p
    period_differs missed = elim (Bool-cases (leb (suc period) p)) [
      | inl more ↦ leb→le (suc period) p more
      | inr less ↦
          let same : p ≡ period = ground arith in
          let found : oscillates period keys ≡ true =
            EndsInCycle-oscillates period keys (subst (λ q. EndsInCycle q keys) same e) in
          absurd (ground arith)
    ]

empty-is_constant : (c : List String) → length c ≡ 0 → is_constant c ≡ true
empty-is_constant [] h = refl
empty-is_constant (x ∷ xs) h = absurd (omega arith)

-- Whatever the detector reports is an oscillation of a period within the bound, and the steps
-- really end in three rounds of a cycle of that period whose steps are not all the same.
pub detect_oscillation-EndsInCycle :
    (d : LoopDetector) (f : LoopFinding)
    → detect_oscillation d ≡ some f
    → (p : ℕ) × (f ≡ oscillation p)
      × (p ≤ d.config.max_oscillation_period)
      × EndsInCycle p (map key d.steps)
unfolding detect_oscillation
detect_oscillation-EndsInCycle d f h =
    let (p, is_p, bound, cycle) =
      first_period_sound 1 d.config.max_oscillation_period (map key d.steps) f h in
    (p, is_p, omega arith, cycle)

-- If the steps end in three rounds of a cycle, not all the same, whose period is within the bound,
-- then the detector reports.
EndsInCycle-detect_oscillation :
    (d : LoopDetector) (p : ℕ)
    → p ≤ d.config.max_oscillation_period
    → EndsInCycle p (map key d.steps)
    → is_some (detect_oscillation d) ≡ true
unfolding detect_oscillation
EndsInCycle-detect_oscillation d p bound cycle =
    first_period_complete 1 d.config.max_oscillation_period p (map key d.steps) (positive p cycle)
      (omega arith) cycle
  where
    positive : (q : ℕ) → EndsInCycle q (map key d.steps) → 1 ≤ q
    positive zero e = absurd (cc (e.varies, empty-is_constant e.cycle e.length_of_cycle))
    positive (suc q) e = omega arith
