-- ===== src/Events/Bus/Ascent.antt =====
-- Logs whose numbers ascend, and the subscriber's last number: crates/valyria-events/src/bus.rs.
use valyria.Common.{
  subst, ltb, Bool-cases, option_eq, string_eq, nat_eq, filterb, ℕ, ◌≤◌, ◌<◌, ◌≡◌, refl, sym, ◌∙◌,
  inl, inr, false, List, [], ◌∷◌, ◌++◌, arith,
}
use valyria.Events.Bus.{EventEnvelope}

module _ {E : Type 0} where
  -- The numbers ascend, from above `b`.
  abbrev pub Ascending : ℕ → List (EventEnvelope E) → Type 0
  Ascending b [] = Unit
  Ascending b (e ∷ es) = (b < e.seq) × Ascending e.seq es

  abbrev pub since_filter : ℕ → List (EventEnvelope E) → List (EventEnvelope E)
  since_filter since = filterb λ e. ltb since e.seq

  abbrev pub last_seq : ℕ → List (EventEnvelope E) → ℕ
  last_seq since [] = since
  last_seq since (e ∷ es) = last_seq e.seq es

  pub since_filter_all :
      (b c : ℕ) (es : List (EventEnvelope E)) → Ascending b es → c ≤ b → since_filter c es ≡ es
  since_filter_all b c [] a h = refl
  since_filter_all b c (e ∷ es) a h =
      ground (arith, since_filter_all e.seq c es a.1 (omega (arith, a.0)), a.0)

  pub last_seq_lower :
      (b c : ℕ) (es : List (EventEnvelope E)) → Ascending b es → c ≤ b → c ≤ last_seq c es
  last_seq_lower b c [] a h = omega arith
  last_seq_lower b c (e ∷ es) a h =
      omega (arith, last_seq_lower e.seq e.seq es a.1 (omega arith), a.0)

  pub Ascending-append :
      (b : ℕ) (xs ys : List (EventEnvelope E))
      → Ascending b (xs ++ ys)
      → Ascending b xs × Ascending (last_seq b xs) ys
  Ascending-append b [] ys a = (tt, a)
  Ascending-append b (x ∷ xs) ys a =
      let (here, rest) = Ascending-append x.seq xs ys a.1 in ((a.0, here), rest)

  -- After the number `m`, nothing of `xs` is left, and of `ys` what was asked for.
  abbrev pub Seen : ℕ → List (EventEnvelope E) → List (EventEnvelope E) → ℕ → Type 0
  Seen since xs ys m =
      (since ≤ m) × (since_filter m xs ≡ []) × (since_filter m ys ≡ since_filter since ys)

  pub after_delivery :
      (b since : ℕ) (xs ys : List (EventEnvelope E))
      → Ascending b (xs ++ ys)
      → Seen since xs ys (last_seq since (since_filter since xs))
  after_delivery b since [] ys a = (omega arith, refl, refl)
  after_delivery b since (x ∷ xs) ys a = elim (Bool-cases (ltb since x.seq)) [
    | inr f ↦
        let (h, gone, rest) = after_delivery x.seq since xs ys a.1 in
        let low : ltb (last_seq since (since_filter since xs)) x.seq ≡ false = ground arith in
        let e : last_seq since (since_filter since (x ∷ xs))
            ≡ last_seq since (since_filter since xs) =
          rw f in
        subst (Seen since (x ∷ xs) ys) (sym e) (h, rw low gone, rest)
    | inl t ↦
        let (h, gone, rest) = after_delivery x.seq x.seq xs ys a.1 in
        let (xs_up, ys_up) = Ascending-append x.seq xs ys a.1 in
        let whole : since_filter since xs ≡ xs =
          since_filter_all x.seq since xs xs_up (ground arith) in
        let same : since_filter x.seq xs ≡ xs =
          since_filter_all x.seq x.seq xs xs_up (omega arith) in
        let seen : x.seq ≤ last_seq x.seq xs = last_seq_lower x.seq x.seq xs xs_up (omega arith) in
        let low : ltb (last_seq x.seq xs) x.seq ≡ false = ground arith in
        let e : last_seq since (since_filter since (x ∷ xs)) ≡ last_seq x.seq xs = rw (t, whole) in
        let gone' : since_filter (last_seq x.seq xs) xs ≡ [] =
          subst (λ zs. since_filter (last_seq x.seq zs) xs ≡ []) same gone in
        subst (Seen since (x ∷ xs) ys) (sym e) (
          ground arith,
          rw low gone',
          since_filter_all (last_seq x.seq xs) (last_seq x.seq xs) ys ys_up (omega arith)
              ∙ sym (since_filter_all (last_seq x.seq xs) since ys ys_up (ground arith)),
        )
  ]
