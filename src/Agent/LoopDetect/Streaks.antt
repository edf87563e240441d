-- ===== src/Agent/LoopDetect/Streaks.antt =====
-- When the failure and the progress detectors of crates/valyria-agent/src/loop_detect.rs fire. A
-- history is listed with its newest observation first.
use valyria.Common.{
  ℕ, suc, ◌+◌, Bool, true, false, String, Option, none, some, List, [], ◌∷◌, reverse, reverse-snoc,
  string_eq, ◌==◌, ==_refl, leb, last?-append, prefix_run, if◌then◌else◌, ◌≡◌, refl, arith,
}
use valyria.Agent.LoopDetect.{
  DetectorConfig, LoopDetector, ProgressMetric, repeated_failure, frontier_stalled, new_detector,
  observe_failure, observe_progress, advanced_since,
}

-- The detector after a history of verification runs.
abbrev pub after_failures : LoopDetector → List (Option String) → LoopDetector
after_failures d [] = d
after_failures d (o ∷ older) = (observe_failure (after_failures d older) o).0

-- How many of the newest runs failed with this fingerprint, one after the other.
abbrev pub streak : String → List (Option String) → ℕ
streak fp [] = 0
streak fp (none ∷ older) = 0
streak fp (some f ∷ older) = let n = streak fp older in if f == fp then suc n else 0

-- The detector after a history of progress snapshots.
abbrev pub after_progress : LoopDetector → List ProgressMetric → LoopDetector
after_progress d [] = d
after_progress d (m ∷ older) = (observe_progress (after_progress d older) m).0

-- How many of the newest snapshots, one after the other, are no advance over the one before.
abbrev pub stall : List ProgressMetric → ℕ
stall [] = 0
stall (m ∷ []) = 0
stall (m ∷ prev ∷ older) =
    let n = stall (prev ∷ older) in if advanced_since m prev then 0 else suc n

one_more : (b : Bool) (r n : ℕ) → r ≡ n → (if b then 0 else r + 1) ≡ (if b then 0 else suc n)
one_more true r n h = refl
one_more false r n h = omega arith

module _ (config : DetectorConfig) where
  failures_streak :
      (fp : String) (history : List (Option String))
      → prefix_run (λ f. f == fp) (reverse (after_failures (new_detector config) history).failures)
        ≡ streak fp history
  unfolding observe_failure new_detector
  failures_streak fp [] = refl
  failures_streak fp (none ∷ older) = refl
  failures_streak fp (some f ∷ older) =
      rw (reverse-snoc (after_failures (new_detector config) older).failures f)
        (ground (arith, failures_streak fp older))

  -- The failure detector reports a failure exactly if the newest runs, this one included, failed
  -- with its fingerprint at least as often as the threshold says, and it counts them all.
  observe_failure-streak :
      (fp : String) (older : List (Option String))
      → (observe_failure (after_failures (new_detector config) older) (some fp)).1 ≡ (
          if leb config.repeated_failure_at (streak fp (some fp ∷ older))
          then some (repeated_failure fp (streak fp (some fp ∷ older)))
          else none)
  unfolding observe_failure new_detector
  observe_failure-streak fp older =
      let before = failures_streak fp older in
      rw
        (
          reverse-snoc (after_failures (new_detector config) older).failures fp,
          before,
          ==_refl fp,
          kept older,
        )
        refl
    where
      kept :
          (history : List (Option String))
          → (after_failures (new_detector config) history).config ≡ config
      kept [] = refl
      kept (none ∷ history) = kept history
      kept (some f ∷ history) = kept history

  stalled_run-stall :
      (history : List ProgressMetric)
      → (after_progress (new_detector config) history).stalled_run ≡ stall history
  unfolding observe_progress new_detector
  stalled_run-stall [] = refl
  stalled_run-stall (m ∷ []) = refl
  stalled_run-stall (m ∷ prev ∷ older) =
      rw (last?-append (after_progress (new_detector config) older).progress prev)
        (one_more (advanced_since m prev) _ _ (stalled_run-stall (prev ∷ older)))

  -- The progress detector fires exactly if the newest snapshots, this one included, are no advance
  -- for at least as many as the threshold says, and it counts them all.
  observe_progress-stall :
      (m : ProgressMetric) (older : List ProgressMetric)
      → (observe_progress (after_progress (new_detector config) older) m).1 ≡ (
          if leb config.stall_at (stall (m ∷ older))
          then some (frontier_stalled (stall (m ∷ older)))
          else none)
  unfolding observe_progress new_detector
  observe_progress-stall m older =
      let run = stalled_run-stall (m ∷ older) in rw (run, kept older) refl
    where
      kept :
          (history : List ProgressMetric)
          → (after_progress (new_detector config) history).config ≡ config
      kept [] = refl
      kept (p ∷ history) = kept history
