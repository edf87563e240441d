-- ===== src/Examples/Process.antt =====
-- The capture of a process's output at concrete chunks.
use valyria.Common.{option_eq, string_eq, nat_eq, ℕ, ◌≡◌, List, [], ◌∷◌}
use valyria.Process.OutputCap.{new, into_output, push_all}
use valyria.Process.OutputCap.Window.{concat, captured, into_output-push_all}

-- Seven bytes in three chunks, for a cap of five.
abbrev chunks : List (List ℕ)
chunks = (1 ∷ 2 ∷ 3 ∷ []) ∷ (4 ∷ []) ∷ (5 ∷ 6 ∷ 7 ∷ []) ∷ []

into_output-push_all_example : into_output (push_all (new 5) chunks) ≡ captured 5 (concat chunks)
into_output-push_all_example = into_output-push_all 5 chunks
