-- ===== src/Process/OutputCap.antt =====
-- Bounded capture of a process's output: crates/valyria-process/src/output_cap.rs. A byte is a
-- number. `from_utf8_lossy` is left out: `text` holds the bytes that are handed to it.
pub mod Window
use valyria.Common.{
  ℕ, zero, suc, ◌+◌, ◌-◌, ◌/◌, ◌%◌, Bool, true, false, not, List, [], ◌∷◌, ◌++◌, ltb, leb,
  if◌then◌else◌, length, take, drop, ◌==◌, nat_eq,
}

pub record CapturedOutput : Type 0 where
  pub text : List ℕ
  pub truncated : Bool
  pub total_bytes : ℕ

pub record CappedOutput : Type 0 where
  pub head_cap : ℕ
  pub tail_cap : ℕ
  pub buf : List ℕ
  pub head : List ℕ
  pub tail : List ℕ
  pub total_bytes : ℕ
  pub truncated : Bool

unfoldable pub new : ℕ → CappedOutput
new max_bytes =
    let head_cap = max_bytes / 2 in
    record {
      head_cap = head_cap;
      tail_cap = max_bytes - head_cap;
      buf = [];
      head = [];
      tail = [];
      total_bytes = 0;
      truncated = false;
    }

-- `while tail.len() > cap { tail.pop_front(); }`
unfoldable pub pop_front_to : ℕ → List ℕ → List ℕ
pop_front_to limit [] = []
pop_front_to limit (b ∷ bs) =
    let rest = pop_front_to limit bs in if ltb limit (length (b ∷ bs)) then rest else b ∷ bs

-- The mode in which nothing has been dropped yet.
unfoldable pub push_buffered : CappedOutput → List ℕ → CappedOutput
unfolding pop_front_to
push_buffered c full =
    if leb (length full) (c.head_cap + c.tail_cap)
    then record c { buf = full }
    else let split = if leb c.head_cap (length full) then c.head_cap else length full in
      record c {
        truncated = true;
        buf = [];
        head = take split full;
        tail = pop_front_to c.tail_cap (drop split full);
      }

unfoldable pub push_counted : CappedOutput → List ℕ → CappedOutput
unfolding push_buffered
push_counted c chunk =
    if not c.truncated
    then push_buffered c (c.buf ++ chunk)
    else record c { tail = pop_front_to c.tail_cap (c.tail ++ chunk) }

unfoldable pub push : CappedOutput → List ℕ → CappedOutput
unfolding push_counted
push c chunk = push_counted (record c { total_bytes = c.total_bytes + length chunk }) chunk

-- The decimal digits of a number, as bytes; a number has at most as many digits as its value, and
-- one more.
unfoldable pub digits : ℕ → ℕ → List ℕ → List ℕ
digits zero n acc = acc
digits (suc fuel) n acc =
    let rest = digits fuel (n / 10) (((n % 10) + b'0') ∷ acc) in
    if ltb n 10 then (n + b'0') ∷ acc else rest

-- `"\n... [{elided} bytes elided] ...\n"`
unfoldable pub marker : ℕ → List ℕ
unfolding digits
marker elided =
    (10 ∷ b'.' ∷ b'.' ∷ b'.' ∷ b' ' ∷ b'[' ∷ [])
    ++ (digits (suc elided) elided []
        ++ (b' ' ∷ b'b' ∷ b'y' ∷ b't' ∷ b'e' ∷ b's' ∷ b' ' ∷ b'e' ∷ b'l' ∷ b'i' ∷ b'd' ∷ b'e' ∷ b'd'
            ∷ b']' ∷ b' ' ∷ b'.' ∷ b'.' ∷ b'.' ∷ 10 ∷ []))

unfoldable pub into_output : CappedOutput → CapturedOutput
unfolding marker
into_output c =
    if not c.truncated
    then record { text = c.buf; truncated = false; total_bytes = c.total_bytes }
    else record {
      text = c.head ++ (marker (c.total_bytes - length c.head - length c.tail) ++ c.tail);
      truncated = true;
      total_bytes = c.total_bytes;
    }

unfoldable pub push_all : CappedOutput → List (List ℕ) → CappedOutput
push_all c [] = c
push_all c (chunk ∷ chunks) = push_all (push c chunk) chunks
