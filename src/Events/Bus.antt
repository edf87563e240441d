-- ===== src/Events/Bus.antt =====
-- The durable log of events and its subscriptions: crates/valyria-events/src/bus.rs. An event with
-- the id and the time that `append` gives it is a value of `E`. The broadcast channel is a library:
-- what its receiver returns is an argument of `recv`, and what the receiver makes of more messages
-- than the channel holds is a matter of the library.
pub mod Ascent
pub mod Replay
pub mod Appends
use valyria.Common.{
  ℕ, zero, suc, ◌+◌, Bool, Option, none, some, List, [], ◌∷◌, ◌++◌, ltb, leb, if◌then◌else◌,
  filterb, last?,
}

unfoldable pub live_channel_capacity : ℕ
live_channel_capacity = 4096

module _ (E : Type 0) where
  pub record EventEnvelope : Type 0 where
    pub seq : ℕ
    pub event : E

  -- The table of events, and all messages that were ever sent to the live channel: a receiver that is
  -- too far behind does not get them all.
  pub record EventBus : Type 0 where
    pub log : List EventEnvelope
    pub live : List EventEnvelope

  pub record Subscription : Type 0 where
    pub backlog : List EventEnvelope
    pub last_delivered : ℕ

  -- What `live.recv()` returns: a message, `RecvError::Lagged` or `RecvError::Closed`.
  pub data Received : Type 0 where
    message : EventEnvelope → Received
    missed : Received
    closed : Received

  -- What `recv` returns; `waits` if the channel has nothing yet.
  pub data Delivery : Type 0 where
    delivered : EventEnvelope → Delivery
    lagged : ℕ → Delivery
    shut_down : Delivery
    waits : Delivery

module _ {E : Type 0} where
  -- `AUTOINCREMENT`: one more than the last row; rows are never deleted.
  abbrev pub next_after : Option (EventEnvelope E) → ℕ
  next_after none = 1
  next_after (some e) = e.seq + 1

  unfoldable pub next_seq : List (EventEnvelope E) → ℕ
  next_seq log = next_after (last? log)

  -- The two halves of `append`: the insertion, and the broadcast of the envelope.
  unfoldable pub persist : EventBus E → E → EventBus E × EventEnvelope E
  unfolding next_seq
  persist bus event =
      let envelope : EventEnvelope E = record { seq = next_seq bus.log; event = event } in
      (record bus { log = bus.log ++ envelope ∷ [] }, envelope)

  unfoldable pub send : EventBus E → EventEnvelope E → EventBus E
  send bus envelope = record bus { live = bus.live ++ envelope ∷ [] }

  unfoldable pub append : EventBus E → E → EventBus E × EventEnvelope E
  unfolding persist send
  append bus event = let (bus', envelope) = persist bus event in (send bus' envelope, envelope)

  -- `SELECT … WHERE seq > ?1 ORDER BY seq ASC`: the rows stand in the order of their numbers.
  unfoldable pub replay_since : EventBus E → ℕ → List (EventEnvelope E)
  replay_since bus since = filterb (λ e. ltb since e.seq) bus.log

  unfoldable pub subscribe_since : EventBus E → ℕ → Subscription E
  unfolding replay_since
  subscribe_since bus since = record { backlog = replay_since bus since; last_delivered = since }

  -- The loop of `recv` over what the channel returns, and what the channel has left.
  unfoldable pub recv_live : ℕ → List (Received E) → Delivery E × ℕ × List (Received E)
  recv_live last [] = (waits, last, [])
  recv_live last (message e ∷ live) =
      let next = recv_live last live in if leb e.seq last then next else (delivered e, e.seq, live)
  recv_live last (missed ∷ live) = (lagged last, last, live)
  recv_live last (closed ∷ live) = (shut_down, last, live)

  unfoldable pub recv_from :
      List (EventEnvelope E)
      → ℕ
      → List (Received E)
      → Delivery E × Subscription E × List (Received E)
  unfolding recv_live
  recv_from [] last live =
      let (delivery, last', rest) = recv_live last live in
      (delivery, record { backlog = []; last_delivered = last' }, rest)
  recv_from (e ∷ backlog) last live =
      (delivered e, record { backlog = backlog; last_delivered = e.seq }, live)

  unfoldable pub recv :
      Subscription E → List (Received E) → Delivery E × Subscription E × List (Received E)
  unfolding recv_from
  recv subscription live = recv_from subscription.backlog subscription.last_delivered live

  -- A subscriber that calls `recv` until it returns no event, with fuel: the events, and the last
  -- answer.
  pub take_event :
      (Subscription E → List (Received E) → List (EventEnvelope E) × Delivery E)
      → Delivery E
      → Subscription E
      → List (Received E)
      → List (EventEnvelope E) × Delivery E
  take_event more (delivered e) sub live = let (events, last) = more sub live in (e ∷ events, last)
  take_event more answer sub live = ([], answer)

  unfoldable pub recv_all :
      ℕ → Subscription E → List (Received E) → List (EventEnvelope E) × Delivery E
  unfolding take_event recv
  recv_all zero sub live = ([], waits)
  recv_all (suc fuel) sub live =
      let (delivery, sub', live') = recv sub live in take_event (recv_all fuel) delivery sub' live'
