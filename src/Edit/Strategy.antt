-- ===== src/Edit/Strategy.antt =====
-- The editing strategies: crates/valyria-edit/src/strategy.rs. A text is the list of its characters,
-- each a number; a length in bytes is that of an ASCII text. The library for patches and the
-- strategies that need a parser are arguments.
pub mod Exact
use valyria.Common.{
  ◌||◌, ℕ, zero, suc, ◌+◌, ◌-◌, ◌*◌, ◌/◌, Bool, true, false, not, ◌&&◌, Option, none, some, List,
  [], ◌∷◌, ◌++◌, ltb, leb, if◌then◌else◌, length, drop, allb, ◌==◌, nat_eq,
}

abbrev pub Text : Type 0
Text = List ℕ

-- `T` is the type of the typed operations on the syntax tree.
pub data EditStrategy (T : Type 0) : Type 0 where
  exact_replacement : Text → Text → EditStrategy T
  unified_diff : Text → EditStrategy T
  symbol_aware : Text → Text → EditStrategy T
  ast : T → EditStrategy T
  whole_file_replacement : Text → Text → Bool → EditStrategy T

pub data EditError (H : Type 0) : Type 0 where
  vfs no_existing_content anchor_not_found missing_reason : EditError H
  anchor_ambiguous size_guard_tripped : ℕ → EditError H
  precondition_failed : Option H → Option H → EditError H
  verification_failed syntax_regression : EditError H
  -- What the library for patches and the parsers report.
  library : Text → EditError H

pub data Result {ℓ} (H : Type 0) (A : Type ℓ) : Type ℓ where
  ok : A → Result H A
  err : EditError H → Result H A

infixl 5 ◌>>=◌
abbrev pub ◌>>=◌ : {H A B : Type 0} → Result H A → (A → Result H B) → Result H B
ok a >>= f = f a
err e >>= f = err e

infixl 5 ◌>>◌
abbrev pub ◌>>◌ : {H B : Type 0} → Result H (Unit {0}) → Result H B → Result H B
m >> k = m >>= λ _. k

-- What is not in this crate, or needs a parser: `diffy::apply` of a diff to a text, the replacement
-- of a symbol's definition, and `ast::apply`. Each is given the text that the file has now.
pub record Libraries (H T : Type 0) : Type 0 where
  pub apply_patch : Text → Text → Result H Text
  pub replace_symbol : Text → Text → Text → Result H Text
  pub apply_transform : T → Text → Result H Text

abbrev pub starts_with : Text → Text → Bool
starts_with [] text = true
starts_with (a ∷ anchor) [] = false
starts_with (a ∷ anchor) (c ∷ text) = a == c && starts_with anchor text

-- `matches(anchor).count()` for an anchor that is not empty: the matches do not overlap, so the
-- characters of a match are skipped.
unfoldable pub count_from : Text → ℕ → Text → ℕ
count_from anchor skip [] = 0
count_from anchor (suc skip) (c ∷ text) = count_from anchor skip text
count_from anchor zero (c ∷ text) =
    let matched = starts_with anchor (c ∷ text) in
    let rest = count_from anchor (if matched then length anchor - 1 else 0) text in
    if matched then suc rest else rest

-- An empty anchor matches before every character and at the end.
unfoldable pub count_matches : Text → Text → ℕ
unfolding count_from
count_matches [] text = length text + 1
count_matches (a ∷ anchor) text = count_from (a ∷ anchor) 0 text

-- `replacen(anchor, replacement, 1)`
unfoldable pub replace_first : Text → Text → Text → Text
replace_first anchor replacement [] = if starts_with anchor [] then replacement else []
replace_first anchor replacement (c ∷ text) =
    let rest = replace_first anchor replacement text in
    if starts_with anchor (c ∷ text)
    then replacement ++ drop (length anchor) (c ∷ text)
    else c ∷ rest

-- `char::is_whitespace`, on ASCII.
abbrev pub is_whitespace : ℕ → Bool
is_whitespace c = c == 32 || leb 9 c && leb c 13

-- `f64` division and the cast to `u32`, as whole percents rounded down.
unfoldable pub shrink_percent : ℕ → ℕ → ℕ
shrink_percent before after =
    if before == 0 then 0 else if leb before after then 0 else (before - after) * 100 / before

abbrev pub size_guard_min_original_bytes : ℕ
size_guard_min_original_bytes = 500

abbrev pub size_guard_shrink_threshold_pct : ℕ
size_guard_shrink_threshold_pct = 90

module _ {H : Type 0} where
  unfoldable pub existing : Option Text → Result H Text
  existing none = err no_existing_content
  existing (some text) = ok text

  unfoldable pub replace_exact : Text → Text → Text → Result H Text
  unfolding count_matches replace_first
  replace_exact anchor replacement current =
      let count = count_matches anchor current in
      if count == 0
      then err anchor_not_found
      else if count == 1
      then ok (replace_first anchor replacement current)
      else err (anchor_ambiguous count)

  unfoldable pub guard_size : Option Text → Text → Bool → Result H Text
  unfolding shrink_percent
  guard_size none content force = ok content
  guard_size (some current) content force =
      let shrink_pct = shrink_percent (length current) (length content) in
      if not force
        && (leb size_guard_min_original_bytes (length current)
            && leb size_guard_shrink_threshold_pct shrink_pct)
      then err (size_guard_tripped shrink_pct)
      else ok content

module _ {H T : Type 0} (libraries : Libraries H T) where
  unfoldable pub apply_strategy : Option Text → EditStrategy T → Result H Text
  unfolding existing replace_exact guard_size
  apply_strategy current (exact_replacement anchor replacement) = do
    text ← existing current
    replace_exact anchor replacement text
  apply_strategy current (unified_diff diff) = do
    text ← existing current
    libraries.apply_patch diff text
  apply_strategy current (symbol_aware symbol_path replacement) = do
    text ← existing current
    libraries.replace_symbol symbol_path replacement text
  apply_strategy current (ast transform) = do
    text ← existing current
    libraries.apply_transform transform text
  apply_strategy current (whole_file_replacement content reason force) =
      if allb is_whitespace reason then err missing_reason else guard_size current content force
