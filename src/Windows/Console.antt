-- ===== src/Windows/Console.antt =====
-- The pseudo console of a running session of src/windows/pty_windows_session.c, and the threads that
-- release, close and await it, interleaved in any order. A step is one block under the platform's mutex
-- or one call of the system. Threads at the same place in the code are alike, so they are counted. A
-- thread that sleeps on the platform's condition variable takes no step until something wakes it.
pub mod Invariant
pub mod Settling
pub mod Calls
use flutter_pty.Prelude.{ℕ, ◌+◌, ◌-◌, ◌≤◌, ◌≡◌, Bool, true, false, not, ◌&&◌, ◌||◌, ◌==◌}
use flutter_pty.Windows.World.{ConsoleState, owned, released, releasing, closing, closed}
use flutter_pty.Windows.Closing.{is_state}

pub record Console : Type 0 where
  -- `pseudo_console_state`, `pseudo_console_close_done`, and whether `release_pseudo_console` is there
  pub console_state : ConsoleState
  pub close_done : Bool
  pub can_release : Bool
  -- the threads that enter `windows_release_pseudo_console_ownership`,
  -- `windows_start_pseudo_console_close_worker`, `windows_close_pseudo_console_now` and
  -- `windows_wait_for_pseudo_console_close`
  pub releasers : ℕ
  pub starters : ℕ
  pub closers : ℕ
  pub waiters : ℕ
  -- those of them asleep in `SleepConditionVariableCS`, and how often they will be woken from
  -- elsewhere, for another's sake or for no reason
  pub sleeping_starters : ℕ
  pub sleeping_closers : ℕ
  pub sleeping_waiters : ℕ
  pub other_wakes : ℕ
  -- those inside `ReleasePseudoConsole`
  pub in_release : ℕ
  -- those that have reserved the close and create the worker, those, worker or not, that come to
  -- `ClosePseudoConsole`, and those that have left it
  pub launching : ℕ
  pub calling : ℕ
  pub marking : ℕ
  -- the calls of `ClosePseudoConsole`, and of `ReleasePseudoConsole` with success
  pub closes : ℕ
  pub releases : ℕ

abbrev pub in_state : ConsoleState → Console → Bool
in_state st s = is_state s.console_state st

abbrev pub is_pending : Console → Bool
is_pending s = in_state closing s && not s.close_done

-- `WakeAllConditionVariable`: who slept tests the condition of its loop again.
abbrev pub awake : Console → Console
awake s = record s {
  starters = s.starters + s.sleeping_starters;
  closers = s.closers + s.sleeping_closers;
  waiters = s.waiters + s.sleeping_waiters;
  sleeping_starters = 0;
  sleeping_closers = 0;
  sleeping_waiters = 0;
}

pub data ConsoleStep (s : Console) : Console → Type 0 where
  -- `windows_release_pseudo_console_ownership`
  release_late :
      1 ≤ s.releasers
      → in_state owned s ≡ false
      → ConsoleStep s (record s { releasers = s.releasers - 1 })
  release_by_close :
      1 ≤ s.releasers
      → in_state owned s ≡ true
      → s.can_release ≡ false
      → ConsoleStep s (record s { releasers = s.releasers - 1; starters = s.starters + 1 })
  release_begin :
      1 ≤ s.releasers
      → in_state owned s ≡ true
      → s.can_release ≡ true
      → ConsoleStep s (record s {
        console_state = releasing;
        releasers = s.releasers - 1;
        in_release = s.in_release + 1;
      })
  release_done :
      1 ≤ s.in_release
      → ConsoleStep s (
          awake (record s {
            console_state = released;
            in_release = s.in_release - 1;
            releases = s.releases + 1;
          }))
  release_failed :
      1 ≤ s.in_release
      → ConsoleStep s (
          awake (record s {
            console_state = owned;
            in_release = s.in_release - 1;
            starters = s.starters + 1;
          }))
  -- `windows_start_pseudo_console_close_worker`, which sleeps during a release
  start_sleep :
      1 ≤ s.starters
      → in_state releasing s ≡ true
      → ConsoleStep s
          (record s { starters = s.starters - 1; sleeping_starters = s.sleeping_starters + 1 })
  start_late :
      1 ≤ s.starters
      → (in_state closed s || in_state closing s) ≡ true
      → ConsoleStep s (record s { starters = s.starters - 1 })
  start_reserve :
      1 ≤ s.starters
      → (in_state releasing s || in_state closed s || in_state closing s) ≡ false
      → ConsoleStep s (record s {
        console_state = closing;
        starters = s.starters - 1;
        launching = s.launching + 1;
      })
  -- the worker goes on from here, or the same thread when there is none
  launch :
      1 ≤ s.launching
      → ConsoleStep s (record s { launching = s.launching - 1; calling = s.calling + 1 })
  -- `windows_close_pseudo_console_now`, which sleeps during a release
  close_sleep :
      1 ≤ s.closers
      → in_state releasing s ≡ true
      → ConsoleStep s
          (record s { closers = s.closers - 1; sleeping_closers = s.sleeping_closers + 1 })
  close_late :
      1 ≤ s.closers
      → in_state closed s ≡ true
      → ConsoleStep s (record s { closers = s.closers - 1 })
  close_wait :
      1 ≤ s.closers
      → in_state closing s ≡ true
      → ConsoleStep s (record s { closers = s.closers - 1; waiters = s.waiters + 1 })
  close_reserve :
      1 ≤ s.closers
      → (in_state releasing s || in_state closed s || in_state closing s) ≡ false
      → ConsoleStep s
          (record s { console_state = closing; closers = s.closers - 1; calling = s.calling + 1 })
  -- `ClosePseudoConsole` and `windows_mark_pseudo_console_closed`
  call :
      1 ≤ s.calling
      → ConsoleStep s
          (record s { calling = s.calling - 1; marking = s.marking + 1; closes = s.closes + 1 })
  mark :
      1 ≤ s.marking
      → ConsoleStep s
          (awake (record s { console_state = closed; close_done = true; marking = s.marking - 1 }))
  -- `windows_wait_for_pseudo_console_close`, which sleeps while the close is pending
  wait_sleep :
      1 ≤ s.waiters
      → is_pending s ≡ true
      → ConsoleStep s
          (record s { waiters = s.waiters - 1; sleeping_waiters = s.sleeping_waiters + 1 })
  wait_over :
      1 ≤ s.waiters → is_pending s ≡ false → ConsoleStep s (record s { waiters = s.waiters - 1 })
  -- a wake-up from elsewhere
  wake_other :
      1 ≤ s.other_wakes → ConsoleStep s (awake (record s { other_wakes = s.other_wakes - 1 }))

-- A console that nobody has released or begun to close, and any number of threads that will, all of
-- them awake.
abbrev pub is_fresh_console : Console → Bool
is_fresh_console s =
    in_state owned s
    && not s.close_done
    && s.in_release + s.launching + s.calling + s.marking + s.closes + s.releases == 0
    && s.sleeping_starters + s.sleeping_closers + s.sleeping_waiters == 0

pub data ConsoleReach (a : Console) : Console → Type 0 where
  here : ConsoleReach a a
  next : {s t : Console} → ConsoleReach a s → ConsoleStep s t → ConsoleReach a t
