-- ===== src/Windows/Console/Invariant.antt =====
-- What holds of the pseudo console in every interleaving, in src/windows/pty_windows_session.c.
use flutter_pty.Prelude.{ℕ, ◌+◌, ◌≤◌, ◌≡◌, Bool, true, false, arith, ◌==◌, ◌||◌, if◌then◌else◌}
use flutter_pty.Windows.World.{ConsoleState, owned, released, releasing, closing, closed}
use flutter_pty.Windows.Closing.{is_state}
use flutter_pty.Windows.Console.{
  Console, in_state, ConsoleStep, release_late, release_by_close, release_begin, release_done,
  release_failed, start_late, start_reserve, launch, close_late, close_wait, close_reserve, call,
  mark, wait_over, start_sleep, close_sleep, wait_sleep, wake_other, is_fresh_console, ConsoleReach,
  here, next,
}

abbrev pub bit : Bool → ℕ
bit true = 1
bit false = 0

abbrev pub at : ConsoleState → Console → ℕ
at st s = bit (in_state st s)

-- The console is in one state.
pub one_state :
    (s : Console) → at owned s + at released s + at releasing s + at closing s + at closed s ≡ 1
one_state s = of_state s.console_state
  where
    of_state :
        (st : ConsoleState)
        → bit (is_state st owned)
            + bit (is_state st released)
            + bit (is_state st releasing)
            + bit (is_state st closing)
            + bit (is_state st closed)
          ≡ 1
    of_state st = ground arith

-- The threads inside the release, or at the close they reserved, against the state.
pub record ConsoleInv (asked : ℕ) (s : Console) : Type 0 where
  pub release_exact : s.in_release ≡ at releasing s
  pub close_exact : s.launching + s.calling + s.marking ≡ at closing s
  pub closes_exact : s.closes + s.launching + s.calling ≡ at closing s + at closed s
  pub released_once : s.releases + at owned s + at releasing s ≤ 1
  pub done_closed : bit s.close_done ≡ at closed s
  -- `asked` is 1 when some thread was to close the console, and else 0
  pub one_at_most : asked ≤ 1
  pub asked_for :
      asked
      ≤ s.starters
        + s.sleeping_starters
        + s.closers
        + s.sleeping_closers
        + at closing s
        + at closed s
  -- who sleeps, sleeps for a release or for a close that somebody is at
  pub release_awaited :
      (s.sleeping_starters + s.sleeping_closers == 0 || in_state releasing s) ≡ true
  pub close_awaited : (s.sleeping_waiters == 0 || in_state closing s) ≡ true

Step-Inv : {asked : ℕ} {s t : Console} → ConsoleInv asked s → ConsoleStep s t → ConsoleInv asked t
Step-Inv {s} v (release_late h e) = grind (arith, one_state s)
Step-Inv {s} v (release_by_close h e f) = grind (arith, one_state s)
Step-Inv {s} v (release_begin h e f) = grind (arith, one_state s)
Step-Inv {s} v (release_done h) = grind (arith, one_state s)
Step-Inv {s} v (release_failed h) = grind (arith, one_state s)
Step-Inv {s} v (start_late h e) = grind (arith, one_state s)
Step-Inv {s} v (start_reserve h e) = grind (arith, one_state s)
Step-Inv {s} v (launch h) = grind (arith, one_state s)
Step-Inv {s} v (close_late h e) = grind (arith, one_state s)
Step-Inv {s} v (close_wait h e) = grind (arith, one_state s)
Step-Inv {s} v (close_reserve h e) = grind (arith, one_state s)
Step-Inv {s} v (call h) = grind (arith, one_state s)
Step-Inv {s} v (mark h) = grind (arith, one_state s)
Step-Inv {s} v (wait_over h e) = grind (arith, one_state s)
Step-Inv {s} v (start_sleep h e) = grind (arith, one_state s)
Step-Inv {s} v (close_sleep h e) = grind (arith, one_state s)
Step-Inv {s} v (wait_sleep h e) = grind (arith, one_state s)
Step-Inv {s} v (wake_other h) = grind (arith, one_state s)

abbrev pub asked_of : Console → ℕ
asked_of a = if a.starters + a.closers == 0 then 0 else 1

pub Reach-Inv :
    {a s : Console} → is_fresh_console a ≡ true → ConsoleReach a s → ConsoleInv (asked_of a) s
Reach-Inv {s} f here = grind (arith, one_state s)
Reach-Inv f (next reach st) = Step-Inv (Reach-Inv f reach) st

-- In every interleaving of any number of threads that release, close and await the console:
-- `ClosePseudoConsole` is called at most once, `ReleasePseudoConsole` succeeds at most once, and no
-- thread is inside one of them while another thread is inside or has reserved one.
pub console_closed_once :
    {a s : Console}
    → is_fresh_console a ≡ true
    → ConsoleReach a s
    → (s.closes ≤ 1) × (s.releases ≤ 1) × (s.in_release + s.launching + s.calling + s.marking ≤ 1)
console_closed_once {s} f reach = let v = Reach-Inv f reach in grind (arith, one_state s)

-- In every interleaving, once the state is closed, `ClosePseudoConsole` was called exactly once, and
-- no thread is on its way to it.
pub console_closed_exact :
    {a s : Console}
    → is_fresh_console a ≡ true
    → ConsoleReach a s
    → in_state closed s ≡ true
    → (s.closes ≡ 1) × (s.launching + s.calling + s.marking ≡ 0)
console_closed_exact {s} f reach e = let v = Reach-Inv f reach in grind (arith, one_state s)
