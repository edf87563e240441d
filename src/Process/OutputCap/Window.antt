-- ===== src/Process/OutputCap/Window.antt =====
-- The capture keeps the first and the last bytes of the output, whatever the chunks are:
-- crates/valyria-process/src/output_cap.rs.
use valyria.Common.{
  ℕ, suc, ◌+◌, ◌-◌, ◌/◌, ◌≤◌, ◌<◌, ◌≡◌, ap, sym, ◌∙◌, true, false, List, [], ◌∷◌, ◌++◌, ltb, leb,
  if◌then◌else◌, length, take, drop, arith, length-append, length-take, length-drop, drop-drop,
  drop-append, take-append, append-nil, append_assoc, Bool-cases, inl, inr,
}
use valyria.Process.OutputCap.{
  CapturedOutput, CappedOutput, new, pop_front_to, push_buffered, push_counted, push, push_all,
  marker, into_output,
}

pub concat : List (List ℕ) → List ℕ
concat [] = []
concat (chunk ∷ chunks) = chunk ++ concat chunks

abbrev within : ℕ → List ℕ → CappedOutput
within max bytes = record {
  head_cap = max / 2;
  tail_cap = max - max / 2;
  buf = bytes;
  head = [];
  tail = [];
  total_bytes = length bytes;
  truncated = false;
}

abbrev beyond : ℕ → List ℕ → CappedOutput
beyond max bytes = record {
  head_cap = max / 2;
  tail_cap = max - max / 2;
  buf = [];
  head = take (max / 2) bytes;
  tail = drop (length bytes - (max - max / 2)) bytes;
  total_bytes = length bytes;
  truncated = true;
}

-- The state after the bytes, from the bytes alone.
abbrev window : ℕ → List ℕ → CappedOutput
window max bytes = if leb (length bytes) max then within max bytes else beyond max bytes

-- What the capture is to return for the bytes of the process.
pub captured : ℕ → List ℕ → CapturedOutput
captured max bytes =
    if leb (length bytes) max
    then record { text = bytes; truncated = false; total_bytes = length bytes }
    else record {
      text =
          take (max / 2) bytes
          ++ (marker (length bytes - max) ++ drop (length bytes - (max - max / 2)) bytes);
      truncated = true;
      total_bytes = length bytes;
    }

pop_front_to-drop : (limit : ℕ) (bs : List ℕ) → pop_front_to limit bs ≡ drop (length bs - limit) bs
unfolding pop_front_to
pop_front_to-drop limit [] = ground arith
pop_front_to-drop limit (b ∷ bs) = elim (Bool-cases (ltb limit (length (b ∷ bs)))) [
  | inl t ↦ rw t (
      pop_front_to-drop limit bs
      ∙ ap (λ k. drop k (b ∷ bs))
          (let e : suc (length bs - limit) ≡ suc (length bs) - limit = ground arith in e))
  | inr f ↦
      rw f (ap (λ k. drop k (b ∷ bs)) (let e : 0 ≡ suc (length bs) - limit = ground arith in e))
]

-- The last bytes of a list that grows.
drop_last-append :
    (limit : ℕ) (bytes chunk : List ℕ)
    → limit ≤ length bytes
    → pop_front_to limit (drop (length bytes - limit) bytes ++ chunk)
      ≡ drop (length (bytes ++ chunk) - limit) (bytes ++ chunk)
drop_last-append limit bytes chunk h =
    pop_front_to-drop limit _
    ∙ ap (λ t. drop (length t - limit) t)
        (sym (drop-append (length bytes - limit) bytes chunk (omega arith)))
    ∙ drop-drop _ (length bytes - limit) (bytes ++ chunk)
    ∙ ap (λ k. drop k (bytes ++ chunk)) (omega (arith, length-drop {0}, length-append {0}))

push-beyond :
    (max : ℕ) (bytes chunk : List ℕ)
    → max < length bytes
    → push (beyond max bytes) chunk ≡ beyond max (bytes ++ chunk)
unfolding push push_counted
push-beyond max bytes chunk h = λ i. record {
  head_cap = max / 2;
  tail_cap = max - max / 2;
  buf = [];
  head = sym (take-append (max / 2) bytes chunk (omega arith)) i;
  tail = drop_last-append (max - max / 2) bytes chunk (omega arith) i;
  total_bytes = sym (length-append bytes chunk) i;
  truncated = true;
}

-- The step that crosses the threshold.
push_buffered-beyond :
    (max : ℕ) (bytes full : List ℕ)
    → leb (length full) max ≡ false
    → push_buffered (record (within max bytes) { total_bytes = length full }) full ≡ beyond max full
unfolding push_buffered
push_buffered-beyond max bytes full h =
    let caps : max / 2 + (max - max / 2) ≡ max = omega arith in
    let more : leb (max / 2) (length full) ≡ true = ground arith in
    let split : length (drop (max / 2) full) ≡ length full - max / 2 = length-drop _ full in
    let sum : max / 2 + (length (drop (max / 2) full) - (max - max / 2))
        ≡ length full - (max - max / 2) =
      ground arith in
    rw (caps, h, more)
      (λ i. record {
        head_cap = max / 2;
        tail_cap = max - max / 2;
        buf = [];
        head = take (max / 2) full;
        tail =
            (pop_front_to-drop (max - max / 2) (drop (max / 2) full)
                ∙ drop-drop _ (max / 2) full
                ∙ ap (λ k. drop k full) sum)
              i;
        total_bytes = length full;
        truncated = true;
      })

push_buffered-window :
    (max : ℕ) (bytes full : List ℕ)
    → push_buffered (record (within max bytes) { total_bytes = length full }) full ≡ window max full
push_buffered-window max bytes full = elim (Bool-cases (leb (length full) max)) [
  | inl small ↦
      let caps : max / 2 + (max - max / 2) ≡ max = omega arith in
      rw small (unfold push_buffered in rw (caps, small))
  | inr large ↦ rw large (push_buffered-beyond max bytes full large)
]

push-window :
    (max : ℕ) (bytes chunk : List ℕ) → push (window max bytes) chunk ≡ window max (bytes ++ chunk)
unfolding push push_counted
push-window max bytes chunk = elim (Bool-cases (leb (length bytes) max)) [
  | inl small ↦
      rw (small, ← length-append bytes chunk) (push_buffered-window max bytes (bytes ++ chunk))
  | inr large ↦
      let still : leb (length (bytes ++ chunk)) max ≡ false =
        ground (arith, length-append bytes chunk) in
      rw (large, still) (push-beyond max bytes chunk (ground arith))
]

push_all-window :
    (max : ℕ) (bytes : List ℕ) (chunks : List (List ℕ))
    → push_all (window max bytes) chunks ≡ window max (bytes ++ concat chunks)
unfolding push_all concat
push_all-window max bytes [] = rw (append-nil bytes)
push_all-window max bytes (chunk ∷ chunks) =
    rw (push-window max bytes chunk, ← append_assoc bytes chunk (concat chunks))
      (push_all-window max (bytes ++ chunk) chunks)

into_output-window :
    (max : ℕ) (bytes : List ℕ) → into_output (window max bytes) ≡ captured max bytes
unfolding into_output captured
into_output-window max bytes = elim (Bool-cases (leb (length bytes) max)) [
  | inl small ↦ rw small
  | inr large ↦
      let elided : length bytes
            - length (take (max / 2) bytes)
            - length (drop (length bytes - (max - max / 2)) bytes)
          ≡ length bytes - max =
        ground (
          arith,
          length-take (max / 2) bytes (ground arith),
          length-drop (length bytes - (max - max / 2)) bytes,
        ) in
      rw (large, elided)
]

push_all_lem :
    (max : ℕ) (chunks : List (List ℕ)) → push_all (new max) chunks ≡ window max (concat chunks)
unfolding new
push_all_lem max chunks =
    let start : new max ≡ window max [] = ground arith in rw start (push_all-window max [] chunks)

-- However the output of a process is cut into chunks, the capture of a cap of `max` bytes returns
-- all of it, not marked as truncated, if it has at most `max` bytes. Otherwise it returns the
-- first `max / 2` bytes, a marker with the number of bytes that are left out, and the last
-- `max - max / 2` bytes, marked as truncated. The total is the number of bytes of the output.
pub into_output-push_all :
    (max : ℕ) (chunks : List (List ℕ))
    → into_output (push_all (new max) chunks) ≡ captured max (concat chunks)
into_output-push_all max chunks =
    ap into_output (push_all_lem max chunks) ∙ into_output-window max (concat chunks)

abbrev pub held : CappedOutput → ℕ
held c = length c.buf + length c.head + length c.tail

held-window :
    (max : ℕ) (bytes : List ℕ)
    → held (window max bytes) ≡ (if leb (length bytes) max then length bytes else max)
held-window max bytes = elim (Bool-cases (leb (length bytes) max)) [
  | inl small ↦ rw small (omega arith)
  | inr large ↦ rw large (
      ground (
        arith,
        length-take (max / 2) bytes (ground arith),
        length-drop (length bytes - (max - max / 2)) bytes,
      ))
]

-- After any chunks, the capture of a cap of `max` bytes holds as many bytes as it was given, or
-- `max` if it was given more; and it counts every byte that it was given.
held-push_all :
    (max : ℕ) (chunks : List (List ℕ))
    → (held (push_all (new max) chunks)
        ≡ (if leb (length (concat chunks)) max then length (concat chunks) else max))
      × ((push_all (new max) chunks).total_bytes ≡ length (concat chunks))
held-push_all max chunks =
    rw (push_all_lem max chunks)
      (held-window max (concat chunks), ground (arith, length-append (concat chunks) []))
