-- ===== src/Events/Bus/Replay.antt =====
-- A subscriber sees every event once and in order: crates/valyria-events/src/bus.rs.
use valyria.Common.{
  ltb, leb, if◌then◌else◌, Bool-cases, option_eq, string_eq, nat_eq, length, length-filterb-le,
  filterb-append, ℕ, zero, suc, ◌+◌, ◌<◌, ◌≡◌, refl, sym, ap, ◌∙◌, subst, inl, inr, true, false,
  List, [], ◌∷◌, ◌++◌, map, append_assoc, arith,
}
use valyria.Events.Bus.{
  EventEnvelope, EventBus, Received, message, missed, closed, Delivery, lagged, shut_down, waits,
  subscribe_since, recv_all,
}
use valyria.Events.Bus.Ascent.{
  Ascending, since_filter, last_seq, since_filter_all, Ascending-append, after_delivery,
}

module _ {E : Type 0} where
  -- What the receiver returns after its messages: nothing, or the news that it missed some, or
  -- that the channel is closed.
  pub data Quiet : List (Received E) → Type 0 where
    empty : Quiet []
    after_missed : {more : List (Received E)} → Quiet (missed ∷ more)
    after_closed : {more : List (Received E)} → Quiet (closed ∷ more)

  abbrev pub answer : ℕ → List (Received E) → Delivery E
  answer last [] = waits
  answer last (message e ∷ more) = waits
  answer last (missed ∷ more) = lagged last
  answer last (closed ∷ more) = shut_down

  -- The messages that are not skipped.
  abbrev pub unseen : ℕ → List (EventEnvelope E) → List (EventEnvelope E)
  unseen last [] = []
  unseen last (e ∷ es) =
      let rest = unseen last es in
      let more = unseen e.seq es in if leb e.seq last then rest else e ∷ more

  unseen-since_filter :
      (b last : ℕ) (es : List (EventEnvelope E))
      → Ascending b es
      → unseen last es ≡ since_filter last es
  unseen-since_filter b last [] a = refl
  unseen-since_filter b last (e ∷ es) a = elim (Bool-cases (leb e.seq last)) [
    | inl t ↦
        let low : ltb last e.seq ≡ false = ground arith in
        rw (t, low) (unseen-since_filter e.seq last es a.1)
    | inr f ↦
        let high : ltb last e.seq ≡ true = ground arith in
        rw (f, high)
          (ap (λ (r : List (EventEnvelope E)). e ∷ r)
            (unseen-since_filter e.seq e.seq es a.1
              ∙ since_filter_all e.seq e.seq es a.1 (omega arith)
              ∙ sym (since_filter_all e.seq last es a.1 (ground arith))))
  ]

  recv_all_live :
      (fuel last : ℕ) (es : List (EventEnvelope E)) (tail : List (Received E))
      → Quiet tail
      → length es < fuel
      → recv_all fuel (record { backlog = []; last_delivered = last }) (map message es ++ tail)
        ≡ (unseen last es, answer (last_seq last (unseen last es)) tail)
  unfolding recv_all
  recv_all_live zero last es tail q h = absurd (omega arith)
  recv_all_live (suc fuel) last [] tail empty h = refl
  recv_all_live (suc fuel) last [] tail after_missed h = refl
  recv_all_live (suc fuel) last [] tail after_closed h = refl
  recv_all_live (suc fuel) last (e ∷ es) tail q h = elim (Bool-cases (leb e.seq last)) [
    | inl t ↦ rw t (recv_all_live (suc fuel) last es tail q (omega (arith, h)))
    | inr f ↦ rw f (
        ap (λ (p : List (EventEnvelope E) × Delivery E). (e ∷ p.0, p.1))
          (recv_all_live fuel e.seq es tail q (omega (arith, h))))
  ]

  pub recv_all_backlog :
      (fuel last : ℕ) (bs es : List (EventEnvelope E)) (tail : List (Received E))
      → Quiet tail
      → length bs + length es < fuel
      → recv_all fuel (record { backlog = bs; last_delivered = last }) (map message es ++ tail) ≡ (
        bs ++ unseen (last_seq last bs) es,
        answer (last_seq last (bs ++ unseen (last_seq last bs) es)) tail,
      )
  unfolding recv_all
  recv_all_backlog fuel last [] es tail q h = recv_all_live fuel last es tail q (omega (arith, h))
  recv_all_backlog zero last (b ∷ bs) es tail q h = absurd (omega arith)
  recv_all_backlog (suc fuel) last (b ∷ bs) es tail q h =
      ap (λ (p : List (EventEnvelope E) × Delivery E). (b ∷ p.0, p.1))
        (recv_all_backlog fuel b.seq bs es tail q (omega (arith, h)))

  nil_of_append : (xs ys : List (EventEnvelope E)) → xs ++ ys ≡ [] → ys ≡ []
  nil_of_append [] ys h = h
  nil_of_append (x ∷ xs) ys h = cc

  caught_up :
      (since : ℕ) (before between later : List (EventEnvelope E))
      → Ascending 0 ((before ++ between) ++ later)
      → unseen (last_seq since (since_filter since (before ++ between))) (between ++ later)
        ≡ since_filter since later
  caught_up since before between later up =
      let m = last_seq since (since_filter since (before ++ between)) in
      let (h, gone, rest) = after_delivery 0 since (before ++ between) later up in
      let split : Ascending 0 (before ++ (between ++ later)) =
        subst (Ascending 0) (append_assoc before between later) up in
      let none_between : since_filter m between ≡ [] =
        nil_of_append (since_filter m before) (since_filter m between)
          (sym (filterb-append (λ (e : EventEnvelope E). ltb m e.seq) before between) ∙ gone) in
      unseen-since_filter _ m (between ++ later)
        (Ascending-append 0 before (between ++ later) split).1
      ∙ filterb-append (λ (e : EventEnvelope E). ltb m e.seq) between later
      ∙ rw none_between rest

  -- The log was `before ++ between` when the backlog was read, and the channel brings `between` and
  -- `later`, in the order of their numbers, before `tail`. Then the subscriber is given the events
  -- of the three with a number above `since`, each once and in order, and then the answer of
  -- `tail`: that there is nothing yet, that the channel is closed, or that it missed messages, with
  -- the number of the last event that it was given, or `since` if there is none.
  pub recv_all-subscribe_since :
      (fuel since : ℕ) (bus : EventBus E) (before between later : List (EventEnvelope E))
      (tail : List (Received E))
      → bus.log ≡ before ++ between
      → Ascending 0 ((before ++ between) ++ later)
      → Quiet tail
      → length bus.log + length (between ++ later) < fuel
      → recv_all fuel (subscribe_since bus since) (map message (between ++ later) ++ tail) ≡ (
        since_filter since ((before ++ between) ++ later),
        answer (last_seq since (since_filter since ((before ++ between) ++ later))) tail,
      )
  unfolding subscribe_since
  recv_all-subscribe_since fuel since bus before between later tail log up q h =
      let enough : length (since_filter since (before ++ between)) + length (between ++ later)
          < fuel =
        omega (
          arith,
          h,
          ap (length {A = EventEnvelope E}) log,
          length-filterb-le (λ (e : EventEnvelope E). ltb since e.seq) (before ++ between),
        ) in
      let all : since_filter since (before ++ between)
            ++ unseen (last_seq since (since_filter since (before ++ between))) (between ++ later)
          ≡ since_filter since ((before ++ between) ++ later) =
        ap (λ r. since_filter since (before ++ between) ++ r)
          (caught_up since before between later up)
        ∙ sym
            (filterb-append (λ (e : EventEnvelope E). ltb since e.seq) (before ++ between) later) in
      rw log (
        recv_all_backlog fuel since (since_filter since (before ++ between)) (between ++ later) tail
          q enough
        ∙ ap (λ (zs : List (EventEnvelope E)). (zs, answer (last_seq since zs) tail)) all)
