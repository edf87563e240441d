-- ===== src/Edit/Strategy/Exact.antt =====
-- Exact replacement: crates/valyria-edit/src/strategy.rs.
use valyria.Common.{
  ◌≢◌, if◌then◌else◌, Bool-cases, &&-true, ◌==◌, option_eq, string_eq, nat_eq, length, drop, ℕ,
  zero, suc, ◌<◌, ◌≡◌, refl, sym, ap, ◌∙◌, subst, inl, inr, true, false, [], ◌∷◌, ◌++◌, arith,
}
use valyria.Edit.Strategy.{
  EditError, Text, anchor_not_found, anchor_ambiguous, Result, ok, err, starts_with, count_from,
  count_matches, replace_first, replace_exact,
}

starts_with_lem :
    (anchor text : Text)
    → starts_with anchor text ≡ true
    → text ≡ anchor ++ drop (length anchor) text
starts_with_lem [] text h = refl
starts_with_lem (a ∷ anchor) [] h = cc
starts_with_lem (a ∷ anchor) (c ∷ text) h =
    ground (arith, &&-true (a == c) (starts_with anchor text), starts_with_lem anchor text)

count_from-skip :
    (anchor : Text) (k : ℕ) (text : Text)
    → count_from anchor k text ≡ count_from anchor 0 (drop k text)
unfolding count_from
count_from-skip anchor zero text = refl
count_from-skip anchor (suc k) [] = refl
count_from-skip anchor (suc k) (c ∷ text) = count_from-skip anchor k text

-- The text around the first match of the anchor, after which there are `n` matches.
pub record Split (anchor replacement text result : Text) (n : ℕ) : Type 0 where
  pub before : Text
  pub after : Text
  pub found : text ≡ before ++ (anchor ++ after)
  pub replaced : result ≡ before ++ (replacement ++ after)
  pub none_before : (i : ℕ) → i < length before → starts_with anchor (drop i text) ≡ false
  pub left : count_from anchor 0 after ≡ n

none_before_snoc :
    (anchor : Text) (c : ℕ) (before text : Text)
    → starts_with anchor (c ∷ text) ≡ false
    → ((i : ℕ) → i < length before → starts_with anchor (drop i text) ≡ false)
    → (i : ℕ) → i < suc (length before)
    → starts_with anchor (drop i (c ∷ text)) ≡ false
none_before_snoc anchor c before text first rest zero h = first
none_before_snoc anchor c before text first rest (suc i) h = rest i (omega arith)

count_after :
    (anchor text : Text) (k k' n : ℕ)
    → k ≡ k'
    → suc (count_from anchor k text) ≡ suc n
    → count_from anchor 0 (drop k' text) ≡ n
count_after anchor text k k' n same h =
    sym (count_from-skip anchor k' text)
    ∙ ap (λ j. count_from anchor j text) (sym same)
    ∙ omega (arith, h)

first_match :
    (a : ℕ) (anchor replacement text : Text) (n : ℕ)
    → count_from (a ∷ anchor) 0 text ≡ suc n
    → Split (a ∷ anchor) replacement text (replace_first (a ∷ anchor) replacement text) n
unfolding count_from replace_first
first_match a anchor replacement [] n h = cc
first_match a anchor replacement (c ∷ text) n h =
    elim (Bool-cases (starts_with (a ∷ anchor) (c ∷ text))) [
      | inl t ↦ rw t (record {
        before = [];
        after = drop (length anchor) text;
        found = starts_with_lem (a ∷ anchor) (c ∷ text) t;
        replaced = refl;
        none_before = λ i lt. absurd (omega arith);
        left = count_after (a ∷ anchor) text _ (length anchor) n (omega arith) (rw t at h);
      })
      | inr f ↦
          let s = first_match a anchor replacement text n (rw f at h) in
          rw f (record {
            before = c ∷ s.before;
            after = s.after;
            found = ap (λ (r : Text). c ∷ r) s.found;
            replaced = ap (λ (r : Text). c ∷ r) s.replaced;
            none_before = none_before_snoc (a ∷ anchor) c s.before text f s.none_before;
            left = s.left;
          })
    ]

err-ok : {H : Type 0} (e : EditError H) (t : Text) → ◌≢◌ {A = Result H Text} (err e) (ok t)
err-ok e t h = cc

exact_result :
    {H : Type 0} (a : ℕ) (anchor replacement text result : Text) (count : ℕ)
    → count_from (a ∷ anchor) 0 text ≡ count
    → ◌≡◌ {A = Result H Text}
        (if count == 0
          then err anchor_not_found
          else if count == 1
          then ok (replace_first (a ∷ anchor) replacement text)
          else err (anchor_ambiguous count))
        (ok result)
    → Split (a ∷ anchor) replacement text result 0
exact_result a anchor replacement text result zero found h = absurd (err-ok _ result h)
exact_result a anchor replacement text result (suc zero) found h =
    let same : replace_first (a ∷ anchor) replacement text ≡ result = cc in
    subst (λ r. Split (a ∷ anchor) replacement text r 0) same
      (first_match a anchor replacement text 0 found)
exact_result a anchor replacement text result (suc (suc n)) found h =
    let not_0 : (suc (suc n) == 0) ≡ false = ground arith in
    let not_1 : (suc (suc n) == 1) ≡ false = ground arith in
    absurd (err-ok _ result (rw (not_0, not_1) at h))

-- An exact replacement that succeeds, of an anchor that is not empty, replaces the anchor where it
-- stands first in the text, and leaves what is before and after it as it is; the anchor does not
-- stand again in what is after it.
pub replace_exact-Split :
    {H : Type 0} (a : ℕ) (anchor replacement text result : Text)
    → replace_exact {H = H} (a ∷ anchor) replacement text ≡ ok result
    → Split (a ∷ anchor) replacement text result 0
unfolding replace_exact count_matches
replace_exact-Split a anchor replacement text result h =
    exact_result a anchor replacement text result _ refl h
