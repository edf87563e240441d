-- ===== src/Orchestrator/Json/Complete.antt =====
-- The scan finds the first JSON value: crates/valyria-orchestrator/src/structured.rs.
use valyria.Common.{
  ◌↔◌, ◌≡◌, refl, ap, sym, ◌∙◌, arith, allb, not, ==_refl, ℕ, suc, ◌+◌, ◌-◌, true, false, Option,
  some, List, [], ◌∷◌, ◌++◌, append_assoc, ◌==◌, nat_eq, if◌then◌else◌,
}
use valyria.Orchestrator.Json.{quote, backslash, is_open, close_of, cons, scan, first_json_value}
use valyria.Orchestrator.Json.Scanned.{
  FirstValue, first_json_value-FirstValue, Quoted, ends, escape, char, Inner, nothing, byte, string,
  nested, Value, brackets,
}

-- The result of a scan with the bytes before it.
prepend : List ℕ → Option (List ℕ) → Option (List ℕ)
prepend [] o = o
prepend (b ∷ bs) o = cons b (prepend bs o)

prepend-append :
    (xs ys : List ℕ) (o : Option (List ℕ)) → prepend (xs ++ ys) o ≡ prepend xs (prepend ys o)
unfolding prepend
prepend-append [] ys o = refl
prepend-append (x ∷ xs) ys o = ap (cons x) (prepend-append xs ys o)

prepend-some : (xs ys : List ℕ) → prepend xs (some ys) ≡ some (xs ++ ys)
unfolding prepend
prepend-some [] ys = refl
prepend-some (x ∷ xs) ys = ap (cons x) (prepend-some xs ys)

module _ (opening closing : ℕ) where
  scan-Quoted :
      (depth : ℕ) (q u : List ℕ)
      → Quoted q
      → scan opening closing depth true false (q ++ u)
        ≡ prepend q (scan opening closing depth false false u)
  unfolding scan prepend
  scan-Quoted depth _ u ends = refl
  scan-Quoted depth _ u (escape c t k) =
      ap (λ o. cons backslash (cons c o)) (scan-Quoted depth t u k)
  scan-Quoted depth _ u (char c t q b k) = rw (b, q) (ap (cons c) (scan-Quoted depth t u k))

  module _ (apart : (closing == opening) ≡ false) (opening_bare : (opening == quote) ≡ false)
      (closing_bare : (closing == quote) ≡ false) where
    scan_opening :
        (depth : ℕ) (u : List ℕ)
        → scan opening closing depth false false (opening ∷ u)
          ≡ cons opening (scan opening closing (depth + 1) false false u)
    unfolding scan
    scan_opening depth u = rw (opening_bare, ==_refl opening)

    scan_closing :
        (depth : ℕ) (u : List ℕ)
        → scan opening closing depth false false (closing ∷ u) ≡ (
            if depth - 1 == 0
            then some (closing ∷ [])
            else cons closing (scan opening closing (depth - 1) false false u))
    unfolding scan
    scan_closing depth u = rw (closing_bare, apart, ==_refl closing)

    scan_byte :
        (depth c : ℕ) (u : List ℕ)
        → (c == quote) ≡ false
        → (c == opening) ≡ false
        → (c == closing) ≡ false
        → scan opening closing depth false false (c ∷ u)
          ≡ cons c (scan opening closing depth false false u)
    unfolding scan
    scan_byte depth c u q o e = rw (q, o, e)

    scan_string :
        (depth : ℕ) (u : List ℕ)
        → scan opening closing depth false false (quote ∷ u)
          ≡ cons quote (scan opening closing depth true false u)
    unfolding scan
    scan_string depth u = refl

    -- A closing bracket that is not the last one.
    scan_closing_inner :
        (depth d : ℕ) (u : List ℕ)
        → depth ≡ suc d
        → scan opening closing (depth + 1) false false (closing ∷ u)
          ≡ cons closing (scan opening closing depth false false u)
    scan_closing_inner depth d u sum =
        let less : depth + 1 - 1 ≡ depth = omega arith in
        let deep : (depth == 0) ≡ false = ground arith in
        rw (scan_closing (depth + 1) u, less, deep)

    -- A sequence within the brackets is passed over.
    scan-Inner :
        (depth d : ℕ) (i u : List ℕ)
        → depth ≡ suc d
        → Inner opening closing i
        → scan opening closing depth false false (i ++ u)
          ≡ prepend i (scan opening closing depth false false u)
    unfolding prepend
    scan-Inner depth d _ u sum nothing = refl
    scan-Inner depth d _ u sum (byte c t q o e k) =
        scan_byte depth c (t ++ u) q o e ∙ ap (cons c) (scan-Inner depth d t u sum k)
    scan-Inner depth d _ u sum (string q t k n) =
        scan_string depth ((q ++ t) ++ u)
        ∙ ap (cons quote) (
            ap (scan opening closing depth true false) (append_assoc q t u)
            ∙ scan-Quoted depth q (t ++ u) k
            ∙ ap (prepend q) (scan-Inner depth d t u sum n)
            ∙ sym (prepend-append q t (scan opening closing depth false false u)))
    scan-Inner depth d _ u sum (nested i t k n) =
        scan_opening depth (((i ++ closing ∷ []) ++ t) ++ u)
        ∙ ap (cons opening) (
            ap (scan opening closing (depth + 1) false false)
              (ap (λ l. l ++ u) (append_assoc i (closing ∷ []) t) ∙ append_assoc i (closing ∷ t) u)
            ∙ scan-Inner (depth + 1) (suc d) i (closing ∷ t ++ u) (omega (arith, sum)) k
            ∙ ap (prepend i) (
                scan_closing_inner depth d (t ++ u) sum
                ∙ ap (cons closing) (scan-Inner depth d t u sum n))
            ∙ sym (
                prepend-append (i ++ closing ∷ []) t (scan opening closing depth false false u)
                ∙ prepend-append i (closing ∷ [])
                    (prepend t (scan opening closing depth false false u))))

    scan_last :
        (u : List ℕ) → scan opening closing 1 false false (closing ∷ u) ≡ some (closing ∷ [])
    scan_last u = scan_closing 1 u

    scan-Value :
        (v u : List ℕ)
        → Value opening closing v
        → scan opening closing 0 false false (v ++ u) ≡ some v
    scan-Value _ u (brackets i k) =
        scan_opening 0 ((i ++ closing ∷ []) ++ u)
        ∙ ap (cons opening) (
            ap (scan opening closing (0 + 1) false false) (append_assoc i (closing ∷ []) u)
            ∙ scan-Inner (0 + 1) 0 i (closing ∷ u) (omega arith) k
            ∙ ap (prepend i) (scan_last u)
            ∙ prepend-some i (closing ∷ []))

close_apart : (b : ℕ) → is_open b ≡ true → (close_of b == b) ≡ false
close_apart b h = ground arith

close_bare : (b : ℕ) → (close_of b == quote) ≡ false
close_bare b = ground arith

open_bare : (b : ℕ) → is_open b ≡ true → (b == quote) ≡ false
open_bare b h = ground arith

first_of_value :
    (opening : ℕ) (v u : List ℕ)
    → is_open opening ≡ true
    → Value opening (close_of opening) v
    → first_json_value (v ++ u) ≡ some v
unfolding first_json_value
first_of_value opening _ u o (brackets i k) = rw o (
    scan-Value opening (close_of opening) (close_apart opening o) (open_bare opening o)
      (close_bare opening) _ u (brackets i k))

first_json_value-Value :
    (before v after : List ℕ) (opening : ℕ)
    → allb (λ b. not (is_open b)) before ≡ true
    → is_open opening ≡ true
    → Value opening (close_of opening) v
    → first_json_value (before ++ (v ++ after)) ≡ some v
unfolding first_json_value
first_json_value-Value [] v after opening none_open o k = first_of_value opening v after o k
first_json_value-Value (b ∷ before) v after opening none_open o k =
    let closed : is_open b ≡ false = ground arith in
    rw closed (first_json_value-Value before v after opening (ground arith) o k)

-- The scan returns a text exactly if it is the first value in brackets of the text that is given:
-- no bracket is opened before it, it begins with an opening bracket and ends with the closing one,
-- and the brackets of this kind within it are balanced where they stand outside of strings.
pub first_json_value_iff :
    (s slice : List ℕ) → (first_json_value s ≡ some slice) ↔ FirstValue s slice
first_json_value_iff s slice = (first_json_value-FirstValue s slice, back)
  where
    back : FirstValue s slice → first_json_value s ≡ some slice
    back r =
        ap first_json_value r.found
        ∙ first_json_value-Value r.before slice r.after r.opening r.no_earlier r.is_opening r.value
