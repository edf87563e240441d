-- ===== src/Examples/Events.antt =====
-- The event bus with concrete events and subscribers.
use valyria.Common.{
  option_eq, string_eq, nat_eq, length, drop, ◌≤◌, ◌-◌, leb, le→leb, if◌then◌else◌, false, ℕ, ◌<◌,
  String, ◌≡◌, refl, List, [], ◌∷◌, ◌++◌, map, arith,
}
use valyria.Events.Bus.{
  live_channel_capacity, EventEnvelope, EventBus, Received, message, missed, lagged, waits, persist,
  send, append, replay_since, subscribe_since, recv_all,
}
use valyria.Events.Bus.Ascent.{Ascending, since_filter, last_seq}
use valyria.Events.Bus.Replay.{after_missed, answer, recv_all-subscribe_since}
use valyria.Events.Bus.Appends.{append_all, empty_bus, appended_in_turn, overtaken}

abbrev envelope : ℕ → String → EventEnvelope String
envelope seq event = record { seq = seq; event = event }

abbrev a : EventEnvelope String
a = envelope 1 "task_started"

abbrev b : EventEnvelope String
b = envelope 2 "tool_called"

abbrev c : EventEnvelope String
c = envelope 3 "task_completed"

-- `b` is in the log before the backlog is read, and in the channel as well.
abbrev bus : EventBus String
bus = record { log = a ∷ b ∷ []; live = a ∷ b ∷ [] }

ascending : Ascending 0 (a ∷ b ∷ c ∷ [])
ascending = (omega arith, (omega arith, (omega arith, tt)))

recv_all-subscribe_since_example :
    recv_all 9 (subscribe_since bus 0) (map message (b ∷ c ∷ []) ++ missed ∷ []) ≡ (
      since_filter 0 (a ∷ b ∷ c ∷ []),
      answer (last_seq 0 (since_filter 0 (a ∷ b ∷ c ∷ []))) (missed ∷ []),
    )
recv_all-subscribe_since_example =
    recv_all-subscribe_since 9 0 bus (a ∷ []) (b ∷ []) (c ∷ []) (missed ∷ []) refl ascending
      after_missed (omega arith)

abbrev early : List String
early = "x" ∷ "y" ∷ []

abbrev late : List String
late = "z" ∷ []

room : length (append_all (append_all empty_bus early) late).log < 9
unfolding append_all append persist send
room = omega arith

-- A receiver of the channel: the latest messages are kept.
receive : List (EventEnvelope String) → List (Received String)
receive unread =
    if leb (length unread) live_channel_capacity
    then map message unread
    else missed ∷ map message (drop (length unread - live_channel_capacity) unread)

receive-keeps :
    (unread : List (EventEnvelope String))
    → length unread ≤ live_channel_capacity
    → receive unread ≡ map message unread
unfolding receive
receive-keeps unread h = rw (le→leb _ _ h) refl

receive-lags :
    (unread : List (EventEnvelope String))
    → live_channel_capacity < length unread
    → (rest : List (Received String)) × (receive unread ≡ missed ∷ rest)
unfolding receive
receive-lags unread h =
    let over : leb (length unread) live_channel_capacity ≡ false = ground arith in
    (map message (drop (length unread - live_channel_capacity) unread), rw over refl)

abbrev early_bus : EventBus String
early_bus = append_all empty_bus early

abbrev late_bus : EventBus String
late_bus = append_all early_bus late

appended_in_turn_example :
    (recv_all 9 (subscribe_since early_bus 1) (receive (drop (length early_bus.live) late_bus.live))
      ≡ (if leb (length late) live_channel_capacity
          then (replay_since late_bus 1, waits)
          else (replay_since early_bus 1, lagged (last_seq 1 (replay_since early_bus 1)))))
    × (replay_since early_bus 1
          ++ (recv_all 9 (subscribe_since late_bus (last_seq 1 (replay_since early_bus 1))) []).0
        ≡ replay_since late_bus 1)
appended_in_turn_example = appended_in_turn receive receive-keeps receive-lags 9 1 early late room

overtaken_example :
    (recv_all 9
        (subscribe_since bus (last_seq 0 bus.log))
        (message (persist (persist bus "low").0 "high").1 ∷ message (persist bus "low").1 ∷ [])
      ≡ ((persist (persist bus "low").0 "high").1 ∷ [], waits))
    × ((persist (persist bus "low").0 "high").0.log
        ≡ bus.log ++ (persist bus "low").1 ∷ (persist (persist bus "low").0 "high").1 ∷ [])
overtaken_example = overtaken 9 bus "low" "high" (omega arith, (omega arith, tt)) (omega arith)
