-- ===== src/Orchestrator/Json/Scanned.antt =====
-- What the scan for a JSON value returns: crates/valyria-orchestrator/src/structured.rs.
use valyria.Common.{
  ==_refl, ◌+◌, not, allb, ◌-◌, zero, if◌then◌else◌, true, false, Bool, none, some, Option, inl,
  inr, Bool-cases, sym, refl, arith, subst, ◌≡◌, ap, ◌∙◌, ℕ, suc, List, [], ◌∷◌, ◌++◌, append_assoc,
  ◌==◌, nat_eq,
}
use valyria.Orchestrator.Json.{close_of, is_open, first_json_value, cons, scan, quote, backslash}

-- What follows the opening quote of a string, up to its closing quote.
pub data Quoted : List ℕ → Type 0 where
  ends : Quoted (quote ∷ [])
  escape : (c : ℕ) (t : List ℕ) → Quoted t → Quoted (backslash ∷ c ∷ t)
  char :
      (c : ℕ) (t : List ℕ)
      → (c == quote) ≡ false
      → (c == backslash) ≡ false
      → Quoted t
      → Quoted (c ∷ t)

module _ (opening closing : ℕ) where
  -- A sequence of bytes, strings and bracketed values.
  pub data Inner : List ℕ → Type 0 where
    nothing : Inner []
    byte :
        (c : ℕ) (t : List ℕ)
        → (c == quote) ≡ false
        → (c == opening) ≡ false
        → (c == closing) ≡ false
        → Inner t
        → Inner (c ∷ t)
    string : (q t : List ℕ) → Quoted q → Inner t → Inner (quote ∷ q ++ t)
    nested : (i t : List ℕ) → Inner i → Inner t → Inner ((opening ∷ i ++ closing ∷ []) ++ t)

  -- Such a sequence between its brackets.
  pub data Value : List ℕ → Type 0 where
    brackets : (t : List ℕ) → Inner t → Value (opening ∷ t ++ closing ∷ [])

  -- What is left to read below `depth` more brackets than one.
  data Stack : ℕ → List ℕ → Type 0 where
    bottom : (i : List ℕ) → Inner i → Stack 0 (i ++ closing ∷ [])
    layer : (d : ℕ) (i t : List ℕ) → Inner i → Stack d t → Stack (suc d) (i ++ closing ∷ t)

  push_byte :
      (d c : ℕ) (t : List ℕ)
      → (c == quote) ≡ false
      → (c == opening) ≡ false
      → (c == closing) ≡ false
      → Stack d t
      → Stack d (c ∷ t)
  push_byte d c t q o e (bottom i k) = bottom (c ∷ i) (byte c i q o e k)
  push_byte d c t q o e (layer d' i t' k st) = layer d' (c ∷ i) t' (byte c i q o e k) st

  push_string : (d : ℕ) (q t : List ℕ) → Quoted q → Stack d t → Stack d (quote ∷ q ++ t)
  push_string d q t k (bottom i n) =
      subst (λ l. Stack 0 (quote ∷ l)) (append_assoc q i (closing ∷ []))
        (bottom (quote ∷ q ++ i) (string q i k n))
  push_string d q t k (layer d' i t' n st) =
      subst (λ l. Stack (suc d') (quote ∷ l)) (append_assoc q i (closing ∷ t'))
        (layer d' (quote ∷ q ++ i) t' (string q i k n) st)

  regroup :
      (i t : List ℕ) (u : List ℕ)
      → (opening ∷ i ++ closing ∷ []) ++ (t ++ u) ≡ opening ∷ i ++ closing ∷ (t ++ u)
  regroup i t u = ap (λ l. opening ∷ l) (append_assoc i (closing ∷ []) (t ++ u))

  nest : (d : ℕ) (t : List ℕ) → Stack (suc d) t → Stack d (opening ∷ t)
  nest d t (layer d' i t' n (bottom j m)) =
      subst (Stack 0)
        (append_assoc (opening ∷ i ++ closing ∷ []) j (closing ∷ []) ∙ regroup i j (closing ∷ []))
        (bottom ((opening ∷ i ++ closing ∷ []) ++ j) (nested i j n m))
  nest d t (layer d' i t' n (layer d'' j u m st)) =
      subst (Stack (suc d''))
        (append_assoc (opening ∷ i ++ closing ∷ []) j (closing ∷ u) ∙ regroup i j (closing ∷ u))
        (layer d'' ((opening ∷ i ++ closing ∷ []) ++ j) u (nested i j n m) st)

Prefix : List ℕ → List ℕ → Type 0
Prefix slice s = (after : List ℕ) × (s ≡ slice ++ after)

Prefix-cons :
    (b : ℕ) (s slice rest : List ℕ) → slice ≡ b ∷ rest → Prefix rest s → Prefix slice (b ∷ s)
unfolding Prefix
Prefix-cons b s slice rest e (after, f) = (after, ap (λ l. b ∷ l) f ∙ sym (ap (λ l. l ++ after) e))

cons-some :
    (b : ℕ) (o : Option (List ℕ)) (slice : List ℕ)
    → cons b o ≡ some slice
    → (rest : List ℕ) × (o ≡ some rest) × (slice ≡ b ∷ rest)
cons-some b none slice h = cc
cons-some b (some rest) slice h = (rest, refl, cc)

module _ (opening closing : ℕ) where
  -- What the scan has read, by where it stood: outside of a string, within one, after a backslash.
  abbrev Reads : ℕ → (in_str escaped : Bool) → List ℕ → Type 0
  Reads d false escaped slice = Stack opening closing d slice
  Reads d true false slice =
      (q : List ℕ) × (t : List ℕ) × (slice ≡ q ++ t) × Quoted q × Stack opening closing d t
  Reads d true true slice =
      (c : ℕ) × (q : List ℕ) × (t : List ℕ) × (slice ≡ c ∷ q ++ t)
      × Quoted q
      × Stack opening closing d t

  -- The bytes of the scan: outside of a string none is escaped.
  abbrev Found : ℕ → (in_str escaped : Bool) → List ℕ → List ℕ → Type 0
  Found d false true s slice = Unit
  Found d false false s slice = Stack opening closing d slice × Prefix slice s
  Found d true escaped s slice = Reads d true escaped slice × Prefix slice s

  closes_at :
      (d b : ℕ) (s slice : List ℕ) (o : Option (List ℕ))
      → b ≡ closing
      → (if d == 0 then some (b ∷ []) else cons b o) ≡ some slice
      → ((d' : ℕ) (rest : List ℕ) → d ≡ suc d' → o ≡ some rest → Found d' false false s rest)
      → Found d false false (b ∷ s) slice
  unfolding Prefix
  closes_at zero b s slice o same h next =
      let f : b ∷ [] ≡ slice = cc in
      (
        subst (Stack opening closing 0) (ap (λ x. x ∷ []) (sym same) ∙ f) (bottom [] nothing),
        (s, ap (λ l. l ++ s) f),
      )
  closes_at (suc d) b s slice o same h next =
      let deep : (suc d == 0) ≡ false = ground arith in
      let (rest, e, f) = cons-some b o slice (rw deep at h) in
      let (st, p) = next d rest refl e in
      (
        subst (Stack opening closing (suc d)) (sym (f ∙ ap (λ x. x ∷ rest) same))
            (layer d [] rest nothing st),
        Prefix-cons b s slice rest f p,
      )

  scan-Found :
      (depth d : ℕ) (in_str escaped : Bool) (s slice : List ℕ)
      → depth ≡ suc d
      → scan opening closing depth in_str escaped s ≡ some slice
      → Found d in_str escaped s slice
  unfolding scan
  scan-Found depth d false true s slice sum h = tt
  scan-Found depth d false false [] slice sum h = cc
  scan-Found depth d true true [] slice sum h = cc
  scan-Found depth d true false [] slice sum h = cc
  scan-Found depth d true true (b ∷ s) slice sum h =
      let (rest, e, f) = cons-some b _ slice h in
      let ((q, t, split, k, st), p) = scan-Found depth d true false s rest sum e in
      ((b, q, t, f ∙ ap (λ l. b ∷ l) split, k, st), Prefix-cons b s slice rest f p)
  scan-Found depth d true false (b ∷ s) slice sum h = elim (Bool-cases (b == backslash)) [
    | inl hit ↦
        let (rest, e, f) = cons-some b _ slice (rw hit at h) in
        let ((c, q, t, split, k, st), p) = scan-Found depth d true true s rest sum e in
        let same : b ≡ backslash = ground arith in
        (
          (
            backslash ∷ c ∷ q,
            t,
            f ∙ ap (λ l. b ∷ l) split ∙ ap (λ x. x ∷ c ∷ q ++ t) same,
            escape c q k,
            st,
          ),
          Prefix-cons b s slice rest f p,
        )
    | inr miss ↦ elim (Bool-cases (b == quote)) [
      | inl hit ↦
          let (rest, e, f) = cons-some b _ slice (rw (miss, hit) at h) in
          let (st, p) = scan-Found depth d false false s rest sum e in
          let same : b ≡ quote = ground arith in
          (
            (quote ∷ [], rest, f ∙ ap (λ x. x ∷ rest) same, ends, st),
            Prefix-cons b s slice rest f p,
          )
      | inr plain ↦
          let (rest, e, f) = cons-some b _ slice (rw (miss, plain) at h) in
          let ((q, t, split, k, st), p) = scan-Found depth d true false s rest sum e in
          (
            (b ∷ q, t, f ∙ ap (λ l. b ∷ l) split, char b q plain miss k, st),
            Prefix-cons b s slice rest f p,
          )
    ]
  ]
  scan-Found depth d false false (b ∷ s) slice sum h = elim (Bool-cases (b == quote)) [
    | inl hit ↦
        let (rest, e, f) = cons-some b _ slice (rw hit at h) in
        let ((q, t, split, k, st), p) = scan-Found depth d true false s rest sum e in
        let same : b ≡ quote = ground arith in
        (
          subst (Stack opening closing d)
              (sym (f ∙ ap (λ l. b ∷ l) split ∙ ap (λ x. x ∷ q ++ t) same))
              (push_string opening closing d q t k st),
          Prefix-cons b s slice rest f p,
        )
    | inr no_quote ↦ elim (Bool-cases (b == opening)) [
      | inl hit ↦
          let (rest, e, f) = cons-some b _ slice (rw (no_quote, hit) at h) in
          let (st, p) = scan-Found (depth + 1) (suc d) false false s rest (omega (arith, sum)) e in
          let same : b ≡ opening = ground arith in
          (
            subst (Stack opening closing d) (sym (f ∙ ap (λ x. x ∷ rest) same))
                (nest opening closing d rest st),
            Prefix-cons b s slice rest f p,
          )
      | inr no_opening ↦ elim (Bool-cases (b == closing)) [
        | inr no_closing ↦
            let (rest, e, f) = cons-some b _ slice (rw (no_quote, no_opening, no_closing) at h) in
            let (st, p) = scan-Found depth d false false s rest sum e in
            (
              subst (Stack opening closing d) (sym f)
                  (push_byte opening closing d b rest no_quote no_opening no_closing st),
              Prefix-cons b s slice rest f p,
            )
        | inl hit ↦
            let less : depth - 1 ≡ d = omega (arith, sum) in
            closes_at d b s slice (scan opening closing d false false s) (ground arith)
              (rw (no_quote, no_opening, hit, less) at h)
              (λ d' rest deep e. scan-Found d d' false false s rest deep e)
      ]
    ]
  ]

Stack-Value :
    (opening closing : ℕ) (t : List ℕ)
    → Stack opening closing 0 t
    → Value opening closing (opening ∷ t)
Stack-Value opening closing t (bottom i n) = brackets i n

-- The value of a text, and where it stands.
pub record FirstValue (s slice : List ℕ) : Type 0 where
  pub before : List ℕ
  pub after : List ℕ
  pub opening : ℕ
  pub found : s ≡ before ++ (slice ++ after)
  pub no_earlier : allb (λ b. not (is_open b)) before ≡ true
  pub is_opening : is_open opening ≡ true
  pub value : Value opening (close_of opening) slice

pub first_json_value-FirstValue :
    (s slice : List ℕ) → first_json_value s ≡ some slice → FirstValue s slice
unfolding first_json_value scan Prefix
first_json_value-FirstValue [] slice h = cc
first_json_value-FirstValue (b ∷ s) slice h = elim (Bool-cases (is_open b)) [
  | inr miss ↦
      let r = first_json_value-FirstValue s slice (rw miss at h) in
      record {
        before = b ∷ r.before;
        after = r.after;
        opening = r.opening;
        found = ap (λ l. b ∷ l) r.found;
        no_earlier = ground (arith, r.no_earlier);
        is_opening = r.is_opening;
        value = r.value;
      }
  | inl hit ↦
      let no_quote : (b == quote) ≡ false = ground arith in
      let opens : (b == b) ≡ true = ==_refl b in
      let (rest, e, f) = cons-some b _ slice (rw (hit, no_quote, opens) at h) in
      let (st, (after, p)) =
        scan-Found b (close_of b) (0 + 1) 0 false false s rest (omega arith) e in
      record {
        before = [];
        after = after;
        opening = b;
        found = ap (λ l. b ∷ l) p ∙ ap (λ l. l ++ after) (sym f);
        no_earlier = refl;
        is_opening = hit;
        value = subst (Value b (close_of b)) (sym f) (Stack-Value b (close_of b) rest st);
      }
]
