-- ===== src/Orchestrator/Json.antt =====
-- The scan for the first JSON value in a text: `first_json_value` of
-- crates/valyria-orchestrator/src/structured.rs. A text is the list of its bytes.
pub mod Scanned
pub mod Complete
use valyria.Common.{
  ℕ, zero, suc, ◌+◌, ◌-◌, Bool, true, false, ◌||◌, Option, none, some, List, [], ◌∷◌, ◌==◌, nat_eq,
  if◌then◌else◌,
}

-- The bytes `"`, `\`, `{`, `}`, `[` and `]`.
abbrev pub quote : ℕ
quote = 34

abbrev pub backslash : ℕ
backslash = 92

abbrev pub is_open : ℕ → Bool
is_open b = b == 123 || b == 91

abbrev pub close_of : ℕ → ℕ
close_of opening = if opening == 123 then 125 else 93

-- The text from the byte on.
abbrev pub cons : ℕ → Option (List ℕ) → Option (List ℕ)
cons b none = none
cons b (some slice) = some (b ∷ slice)

module _ (opening closing : ℕ) where
  -- The loop, with the slice up to the byte where it ends. Within a string the depth stays.
  unfoldable pub scan : (depth : ℕ) → (in_str escaped : Bool) → List ℕ → Option (List ℕ)
  scan depth in_str escaped [] = none
  scan depth true true (b ∷ bs) = cons b (scan depth true false bs)
  scan depth true false (b ∷ bs) =
      let escaping = scan depth true true bs in
      let ended = scan depth false false bs in
      let inside = scan depth true false bs in
      cons b (if b == backslash then escaping else if b == quote then ended else inside)
  scan depth false escaped (b ∷ bs) =
      let string = scan depth true escaped bs in
      let deeper = scan (depth + 1) false escaped bs in
      let shallower = scan (depth - 1) false escaped bs in
      let same = scan depth false escaped bs in
      if b == quote
      then cons b string
      else if b == opening
      then cons b deeper
      else if b == closing
      then if depth - 1 == 0 then some (b ∷ []) else cons b shallower
      else cons b same

-- `position` of the first opening bracket, and the scan from there.
unfoldable pub first_json_value : List ℕ → Option (List ℕ)
unfolding scan
first_json_value [] = none
first_json_value (b ∷ bs) =
    let rest = first_json_value bs in
    if is_open b then scan b (close_of b) 0 false false (b ∷ bs) else rest
