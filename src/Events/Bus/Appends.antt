-- ===== src/Events/Bus/Appends.antt =====
-- Appends in turn, appends that overlap, and a subscriber that fell behind:
-- crates/valyria-events/src/bus.rs.
use valyria.Common.{
  length-append, ◌≤◌, ltb, leb, option_eq, string_eq, nat_eq, length, drop, length-filterb-le,
  filterb-append, ℕ, ◌+◌, ◌<◌, leb→le, Bool-cases, inl, inr, if◌then◌else◌, ◌≡◌, refl, sym, ap, ◌∙◌,
  subst, true, false, List, [], ◌∷◌, ◌++◌, map, append-nil, append_assoc, arith,
}
use valyria.Events.Bus.{
  live_channel_capacity, EventEnvelope, EventBus, Received, message, missed, lagged, waits,
  next_seq, persist, append, replay_since, subscribe_since, recv_all,
}
use valyria.Events.Bus.Ascent.{
  Ascending, since_filter, last_seq, since_filter_all, Ascending-append, after_delivery,
}
use valyria.Events.Bus.Replay.{
  Quiet, answer, recv_all_backlog, empty, after_missed, recv_all-subscribe_since,
}

module _ {E : Type 0} where
  Ascending-snoc :
      (b : ℕ) (xs : List (EventEnvelope E)) (e : EventEnvelope E)
      → Ascending b xs
      → last_seq b xs < e.seq
      → Ascending b (xs ++ e ∷ [])
  Ascending-snoc b [] e a h = (h, tt)
  Ascending-snoc b (x ∷ xs) e a h = (a.0, Ascending-snoc x.seq xs e a.1 h)

  next_seq_lem : (xs : List (EventEnvelope E)) → next_seq xs ≡ last_seq 0 xs + 1
  unfolding next_seq
  next_seq_lem [] = omega arith
  next_seq_lem (x ∷ xs) = from x xs
    where
      from :
          (x : EventEnvelope E) (xs : List (EventEnvelope E))
          → next_seq (x ∷ xs) ≡ last_seq x.seq xs + 1
      from x [] = refl
      from x (y ∷ ys) = from y ys

  last_seq-snoc :
      (b : ℕ) (xs : List (EventEnvelope E)) (e : EventEnvelope E)
      → last_seq b (xs ++ e ∷ []) ≡ e.seq
  last_seq-snoc b [] e = refl
  last_seq-snoc b (x ∷ xs) e = last_seq-snoc x.seq xs e

  replayed :
      (fuel since : ℕ) (bus : EventBus E)
      → length bus.log < fuel
      → recv_all fuel (subscribe_since bus since) [] ≡ (since_filter since bus.log, waits)
  unfolding subscribe_since
  replayed fuel since bus h =
      let kept = length-filterb-le (λ (e : EventEnvelope E). ltb since e.seq) bus.log in
      recv_all_backlog fuel since (since_filter since bus.log) [] [] empty (omega (arith, h, kept))
      ∙ rw (append-nil (since_filter since bus.log))

  -- What the log gained after a subscriber's last number is what it still lacks.
  resumed :
      (since : ℕ) (all more : List (EventEnvelope E))
      → Ascending 0 (all ++ more)
      → since_filter since all
          ++ since_filter (last_seq since (since_filter since all)) (all ++ more)
        ≡ since_filter since (all ++ more)
  resumed since all more up =
      let m = last_seq since (since_filter since all) in
      let (low, gone, new) = after_delivery 0 since all more up in
      ap (λ t. since_filter since all ++ t)
        (filterb-append (λ (e : EventEnvelope E). ltb m e.seq) all more ∙ rw gone new)
      ∙ sym (filterb-append (λ (e : EventEnvelope E). ltb since e.seq) all more)

  -- A subscriber whose backlog is the log, and which the channel brings what the log gains.
  recv_all-gain :
      (fuel since : ℕ) (bus : EventBus E) (gain : List (EventEnvelope E)) (tail : List (Received E))
      → Ascending 0 (bus.log ++ gain)
      → Quiet tail
      → length bus.log + length gain < fuel
      → recv_all fuel (subscribe_since bus since) (map message gain ++ tail) ≡ (
        since_filter since (bus.log ++ gain),
        answer (last_seq since (since_filter since (bus.log ++ gain))) tail,
      )
  recv_all-gain fuel since bus gain tail up q h =
      let nothing : bus.log ++ [] ≡ bus.log = append-nil bus.log in
      recv_all-subscribe_since fuel since bus bus.log [] gain tail (sym nothing)
        (subst (Ascending 0) (sym (ap (λ l. l ++ gain) nothing)) up) q h
      ∙ ap
          (λ (l : List (EventEnvelope E)).
            (since_filter since l, answer (last_seq since (since_filter since l)) tail))
          (ap (λ l. l ++ gain) nothing)

  unfoldable pub append_all : EventBus E → List E → EventBus E
  unfolding append
  append_all bus [] = bus
  append_all bus (e ∷ es) = append_all (append bus e).0 es

  abbrev pub empty_bus : EventBus E
  empty_bus = record { log = []; live = [] }

  -- Appends in turn: the log ascends, and the channel carries what the log gains.
  append_all_lem :
      (bus : EventBus E) (es : List E)
      → Ascending 0 bus.log
      → (gain : List (EventEnvelope E)) × ((append_all bus es).log ≡ bus.log ++ gain)
        × ((append_all bus es).live ≡ bus.live ++ gain)
        × (length gain ≡ length es)
        × Ascending 0 (bus.log ++ gain)
  unfolding append_all
  append_all_lem bus [] up =
      ([], sym (append-nil bus.log), sym (append-nil bus.live), refl, rw (append-nil bus.log) up)
  append_all_lem bus (e ∷ es) up =
      let envelope : EventEnvelope E = record { seq = next_seq bus.log; event = e } in
      let (gain, log, live, many, up') =
        append_all_lem (append bus e).0 es
          (Ascending-snoc 0 bus.log envelope up (omega (arith, next_seq_lem bus.log))) in
      (
        envelope ∷ gain,
        log ∙ append_assoc bus.log (envelope ∷ []) gain,
        live ∙ append_assoc bus.live (envelope ∷ []) gain,
        omega (arith, many),
        subst (Ascending 0) (append_assoc bus.log (envelope ∷ []) gain) up',
      )

  drop_self : (xs ys : List (EventEnvelope E)) → drop (length xs) (xs ++ ys) ≡ ys
  drop_self [] ys = refl
  drop_self (x ∷ xs) ys = drop_self xs ys

  -- The appends are made in turn, and `receive` gives what a receiver of the channel returns for the
  -- messages that were sent since it was made: all of them up to the capacity of the channel, and if
  -- there are more, first that it missed some. A subscriber comes between `es1` and `es2`, asks for
  -- the events with a number above `since`, and then reads everything. If `es2` has no more events
  -- than the channel holds, it is given exactly the events with such a number that the log has in
  -- the end, in order. If it has more, it is given those that the log had when it came, and is told
  -- that it missed some, with the number to go on from. A new subscription from there brings exactly
  -- those that it lacks.
  pub appended_in_turn :
      (receive : List (EventEnvelope E) → List (Received E))
      (keeps : (unread : List (EventEnvelope E))
        → length unread ≤ live_channel_capacity
        → receive unread ≡ map message unread)
      (lags : (unread : List (EventEnvelope E))
        → live_channel_capacity < length unread
        → (rest : List (Received E)) × (receive unread ≡ missed ∷ rest))
      (fuel since : ℕ) (es1 es2 : List E)
      → length (append_all (append_all empty_bus es1) es2).log < fuel
      → let bus1 = append_all empty_bus es1 in
        let bus2 = append_all bus1 es2 in
        (recv_all fuel (subscribe_since bus1 since) (receive (drop (length bus1.live) bus2.live))
          ≡ (if leb (length es2) live_channel_capacity
              then (replay_since bus2 since, waits)
              else (replay_since bus1 since, lagged (last_seq since (replay_since bus1 since)))))
        × (replay_since bus1 since
              ++ (recv_all fuel
                  (subscribe_since bus2 (last_seq since (replay_since bus1 since)))
                  []).0
            ≡ replay_since bus2 since)
  unfolding replay_since
  appended_in_turn receive keeps lags fuel since es1 es2 h =
      let bus1 = append_all empty_bus es1 in
      let bus2 = append_all bus1 es2 in
      let (gain1, log1, live1, many1, up1) = append_all_lem empty_bus es1 tt in
      let (gain, log, live, many, up) =
        append_all_lem bus1 es2 (subst (Ascending 0) (sym log1) up1) in
      let unread : drop (length bus1.live) bus2.live ≡ gain =
        ap (drop (length bus1.live)) live ∙ drop_self bus1.live gain in
      let enough : length bus1.log + length gain < fuel =
        omega (arith, h, ap (length {A = EventEnvelope E}) log, length-append bus1.log gain) in
      let resume = last_seq since (since_filter since bus1.log) in
      (
        elim (Bool-cases (leb (length es2) live_channel_capacity)) [
          | inl t ↦
              let few : length gain ≤ live_channel_capacity = omega (arith, many, leb→le _ _ t) in
              let carried : receive gain ≡ map message gain ++ [] =
                keeps gain few ∙ sym (append-nil (map message gain)) in
              rw (unread, carried, t, log) (recv_all-gain fuel since bus1 gain [] up empty enough)
          | inr f ↦
              let many_more : live_channel_capacity < length gain = ground (arith, many) in
              let (rest, first) = lags gain many_more in
              rw (unread, first, f)
                (recv_all-gain fuel since bus1 [] (missed ∷ rest)
                    (subst (Ascending 0) (sym (append-nil bus1.log))
                      (Ascending-append 0 bus1.log gain up).0)
                    after_missed (omega (arith, enough))
                  ∙ rw (append-nil bus1.log))
        ],
        rw (replayed fuel resume bus2 h, log) (resumed since bus1.log gain up),
      )

  out_of_order :
      (fuel since : ℕ) (bus : EventBus E) (low high : EventEnvelope E)
      → since_filter since bus.log ≡ []
      → since < low.seq
      → low.seq < high.seq
      → 2 < fuel
      → recv_all fuel (subscribe_since bus since) (message high ∷ message low ∷ [])
        ≡ (high ∷ [], waits)
  unfolding subscribe_since
  out_of_order fuel since bus low high spent a b h =
      let first : leb high.seq since ≡ false = ground arith in
      let next : leb low.seq high.seq ≡ true = ground arith in
      rw spent (
        recv_all_backlog fuel since [] (high ∷ low ∷ []) [] empty (omega (arith, h))
        ∙ rw (first, next))

  -- Two appends that overlap: `first` is inserted first, and broadcast last. A subscriber that was
  -- up to date with the log before them, and reads what the channel carries, is given `second`
  -- only, though the log holds both.
  pub overtaken :
      (fuel : ℕ) (bus : EventBus E) (first second : E)
      → Ascending 0 bus.log
      → 2 < fuel
      → (recv_all fuel
            (subscribe_since bus (last_seq 0 bus.log))
            (message (persist (persist bus first).0 second).1 ∷ message (persist bus first).1 ∷ [])
          ≡ ((persist (persist bus first).0 second).1 ∷ [], waits))
        × ((persist (persist bus first).0 second).0.log
            ≡ bus.log ++ (persist bus first).1 ∷ (persist (persist bus first).0 second).1 ∷ [])
  unfolding persist
  overtaken fuel bus first second up h =
      let last = last_seq 0 bus.log in
      let env1 : EventEnvelope E = record { seq = next_seq bus.log; event = first } in
      let env2 : EventEnvelope E = record {
        seq = next_seq (bus.log ++ env1 ∷ []);
        event = second;
      } in
      let one : env1.seq ≡ last + 1 = next_seq_lem bus.log in
      let two : env2.seq ≡ env1.seq + 1 =
        next_seq_lem (bus.log ++ env1 ∷ []) ∙ ap (λ n. n + 1) (last_seq-snoc 0 bus.log env1) in
      (
        out_of_order fuel last bus env1 env2 (spent bus.log up) (omega (arith, one))
            (omega (arith, two)) h,
        append_assoc bus.log (env1 ∷ []) (env2 ∷ []),
      )
    where
      spent :
          (log : List (EventEnvelope E)) → Ascending 0 log → since_filter (last_seq 0 log) log ≡ []
      spent log a =
          let all : since_filter 0 log ≡ log = since_filter_all 0 0 log a (omega arith) in
          let seen = after_delivery 0 0 log [] (rw (append-nil log) a) in
          subst (λ l. since_filter (last_seq 0 l) log ≡ []) all seen.1
