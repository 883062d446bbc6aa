-- ===== src/Unix/Spawn/System.antt =====
-- What src/unix/pty_unix_spawn.c does to memory and to the descriptors, and how the system answers.
-- As in the session's model an answer is a function of all calls so far, the log.
use flutter_pty.Prelude.{ℕ, ◌+◌, ◌≡◌, List, [], ◌∷◌, ◌==◌, if◌then◌else◌}
use flutter_pty.Prelude.Int.{ℤ}

-- The latest call comes first in a log. An address is never 0, which is NULL.
pub data Call : Type 0 where
  allocated : (address : ℕ) → Call
  freed : (address : ℕ) → Call
  opened : (fd : ℤ) → Call
  closed : (fd : ℤ) → Call
  killed : (target : ℤ) (signal : ℕ) → Call
  looked_up : (path : List ℕ) → Call

-- Whether a number is the other, as a number.
pub one : ℕ → ℕ → ℕ
one a b = if a == b then 1 else 0

-- How often the address was given by the allocator, and how often it was freed.
abbrev pub allocs : ℕ → List Call → ℕ
allocs a [] = 0
allocs a (allocated b ∷ log) = one a b + allocs a log
allocs a (_ ∷ log) = allocs a log

abbrev pub frees : ℕ → List Call → ℕ
frees a [] = 0
frees a (freed b ∷ log) = one a b + frees a log
frees a (_ ∷ log) = frees a log

-- From one log to a later one, each address was given as often as it was freed, but for the blocks
-- that are held and were not before.
abbrev pub Balanced : (a : ℕ) → List Call → (before : ℕ) → List Call → (after : ℕ) → Type 0
Balanced a log before log' after =
    allocs a log' + frees a log + before ≡ allocs a log + frees a log' + after
