-- ===== src/Windows/Console/Calls.antt =====
-- The functions of src/windows/pty_windows_session.c around the pseudo console, as runs of the steps.
use flutter_pty.Prelude.{
  ℕ, ◌+◌, ◌^◌, ◌≤◌, ◌<◌, ◌≡◌, Bool, true, false, ◌||◌, arith, inl, inr, Bool-cases, List, [], ◌∷◌,
  ◌==◌,
}
use flutter_pty.Windows.World.{
  owned, released, releasing, closing, closed, WindowsEffect, console_closed, console_released,
  WindowsWorld, WindowsOs, is_null, did, on_stats, on_session, on_platform, thread, console_closer,
  woke,
}
use flutter_pty.Windows.Closing.{
  is_state, Progress, returned, asleep, windows_close_pseudo_console_now,
  windows_wait_for_pseudo_console_close, close_console, reserve_console,
  windows_mark_pseudo_console_closed, launch_console_closer,
  windows_start_pseudo_console_close_worker, release_console_now,
  windows_release_pseudo_console_ownership,
}
use flutter_pty.Session.{retain}
use flutter_pty.Stats.{worker_started, worker_finished, pseudo_console_release}
use flutter_pty.Stats
use flutter_pty.Windows.Kept.{windows_release-kept}
use flutter_pty.Windows.Console.{
  Console, release_late, release_by_close, release_begin, release_done, release_failed, start_late,
  start_reserve, launch, close_late, close_wait, close_reserve, call, mark, wait_over, ConsoleReach,
  here, next,
}

-- How often `ClosePseudoConsole` was called, and how often `ReleasePseudoConsole` succeeded.
abbrev pub count_closes : List WindowsEffect → ℕ
count_closes [] = 0
count_closes (console_closed ∷ log) = count_closes log + 1
count_closes (_ ∷ log) = count_closes log

abbrev pub count_releases : List WindowsEffect → ℕ
count_releases [] = 0
count_releases (console_released true ∷ log) = count_releases log + 1
count_releases (_ ∷ log) = count_releases log

-- The console of a session, with no thread around it.
abbrev pub view : WindowsWorld → Console
view w = record {
  console_state = w.platform.console_state;
  close_done = w.platform.console_close_done;
  can_release = w.platform.can_release;
  releasers = 0;
  starters = 0;
  closers = 0;
  waiters = 0;
  sleeping_starters = 0;
  sleeping_closers = 0;
  sleeping_waiters = 0;
  other_wakes = 0;
  in_release = 0;
  launching = 0;
  calling = 0;
  marking = 0;
  closes = count_closes w.log;
  releases = count_releases w.log;
}

abbrev pub result_of : Progress → WindowsWorld
result_of (returned w) = w
result_of (asleep w) = w

abbrev pub is_returned : Progress → Bool
is_returned (returned _) = true
is_returned (asleep _) = false

-- A call of `windows_close_pseudo_console_now` that returns is a run of the steps of one closing thread.
pub windows_close_pseudo_console_now-ConsoleReach :
    (w : WindowsWorld)
    → (is_null w.session.platform || w.platform.pseudo_console == 0) ≡ false
    → is_returned (windows_close_pseudo_console_now w) ≡ true
    → ConsoleReach
        (record (view w) { closers = 1 })
        (view (result_of (windows_close_pseudo_console_now w)))
unfolding windows_close_pseudo_console_now windows_wait_for_pseudo_console_close close_console
    reserve_console windows_mark_pseudo_console_closed
windows_close_pseudo_console_now-ConsoleReach w there back =
    elim (Bool-cases (is_state w.platform.console_state closed)) [
      | inl e ↦
          let same : windows_close_pseudo_console_now w ≡ returned w = ground arith in
          rw same (next here (close_late (omega arith) e))
      | inr e ↦ elim (Bool-cases (is_state w.platform.console_state closing)) [
        | inl f ↦
            let same : windows_close_pseudo_console_now w ≡ returned w = ground arith in
            rw same (
              next (next here (close_wait (omega arith) f))
                (wait_over (omega arith) (ground arith)))
        | inr f ↦
            let g : is_state w.platform.console_state releasing ≡ false = ground arith in
            let same : windows_close_pseudo_console_now w
                ≡ returned (close_console (reserve_console w)) =
              ground arith in
            rw same (
              next
                (next (next here (close_reserve (omega arith) (ground arith))) (call (omega arith)))
                (mark (omega arith)))
      ]
    ]

Reach-trans : {a b c : Console} → ConsoleReach a b → ConsoleReach b c → ConsoleReach a c
Reach-trans f here = f
Reach-trans f (next g st) = next (Reach-trans f g) st

-- A run of the steps that leaves the worker, if there is one, on its way to the close.
abbrev pub Run : Console → WindowsWorld → Type 0
Run a w = (workers : ℕ) × ConsoleReach a (record (view w) { calling = workers })

module _ (os : WindowsOs) where
  launch-Run :
      (w : WindowsWorld)
      → 1 ≤ w.session.ref_count
      → w.session.ref_count + 1 < 2 ^ 32
      → Run (record (view w) { launching = 1 }) (launch_console_closer os w)
  unfolding launch_console_closer close_console windows_mark_pseudo_console_closed retain
  launch-Run w h k =
      let w1 = on_session retain (on_stats (worker_started Stats.pseudo_console) w) in
      let handle = os.create_thread w1.log console_closer in
      let w2 =
        on_stats (worker_finished Stats.pseudo_console) (did (thread console_closer handle) w1) in
      let kept = windows_release-kept w2 (ground arith) (ground arith) in
      elim (Bool-cases (handle == 0)) [
        | inl failed ↦
            rw (failed, kept)
              (
                0,
                next (next (next here (launch (omega arith))) (call (omega arith)))
                    (mark (omega arith)),
              )
        | inr made ↦ rw made (1, next here (launch (omega arith)))
      ]

  start-Run :
      (w : WindowsWorld)
      → (is_null w.session.platform || w.platform.pseudo_console == 0) ≡ false
      → 1 ≤ w.session.ref_count
      → w.session.ref_count + 1 < 2 ^ 32
      → is_returned (windows_start_pseudo_console_close_worker os w) ≡ true
      → Run
          (record (view w) { starters = 1 })
          (result_of (windows_start_pseudo_console_close_worker os w))
  unfolding windows_start_pseudo_console_close_worker reserve_console
  start-Run w there h k back =
      elim (Bool-cases
        (is_state w.platform.console_state closed || is_state w.platform.console_state closing)) [
          | inl e ↦
              let same : windows_start_pseudo_console_close_worker os w ≡ returned w =
                ground arith in
              rw same (0, next here (start_late (omega arith) e))
          | inr e ↦
              let same : windows_start_pseudo_console_close_worker os w
                  ≡ returned (launch_console_closer os (reserve_console w)) =
                ground arith in
              let f : is_state w.platform.console_state releasing ≡ false = ground arith in
              let (n, run) = launch-Run (reserve_console w) h k in
              rw same (n, Reach-trans (next here (start_reserve (omega arith) (ground arith))) run)
        ]

  -- From the call of `ReleasePseudoConsole` on.
  release_console_now-Run :
      (w : WindowsWorld)
      → (is_null w.session.platform || w.platform.pseudo_console == 0) ≡ false
      → 1 ≤ w.session.ref_count
      → w.session.ref_count + 1 < 2 ^ 32
      → is_returned (release_console_now os w) ≡ true
      → Run (record (view w) { in_release = 1 }) (result_of (release_console_now os w))
  unfolding release_console_now
  release_console_now-Run w there h k back = elim (Bool-cases (os.release_console w.log)) [
    | inl ok ↦
        let gone = did woke (
          on_platform (λ p. record p { console_state = released })
            (on_stats pseudo_console_release (did (console_released true) w))) in
        let same : release_console_now os w ≡ returned gone = ground arith in
        rw same (0, next here (release_done (omega arith)))
    | inr bad ↦
        let kept = did woke (
          on_platform (λ p. record p { console_state = owned }) (did (console_released false) w)) in
        let same : release_console_now os w ≡ windows_start_pseudo_console_close_worker os kept =
          ground arith in
        let (n, run) = start-Run kept there h k (rw (← same) back) in
        rw same (n, Reach-trans (next here (release_failed (omega arith))) run)
  ]

  -- A call of `windows_release_pseudo_console_ownership` that returns, made by a thread that holds a
  -- reference, is a run of the steps of one releasing thread, up to the worker that it may leave.
  pub windows_release_pseudo_console_ownership-Run :
      (w : WindowsWorld)
      → (is_null w.session.platform || w.platform.pseudo_console == 0) ≡ false
      → 1 ≤ w.session.ref_count
      → w.session.ref_count + 1 < 2 ^ 32
      → is_returned (windows_release_pseudo_console_ownership os w) ≡ true
      → Run
          (record (view w) { releasers = 1 })
          (result_of (windows_release_pseudo_console_ownership os w))
  unfolding windows_release_pseudo_console_ownership
  windows_release_pseudo_console_ownership-Run w there h k back =
      elim (Bool-cases (is_state w.platform.console_state owned)) [
        | inr e ↦
            let same : windows_release_pseudo_console_ownership os w ≡ returned w = ground arith in
            rw same (0, next here (release_late (omega arith) e))
        | inl e ↦ elim (Bool-cases w.platform.can_release) [
          | inr f ↦
              let same : windows_release_pseudo_console_ownership os w
                  ≡ windows_start_pseudo_console_close_worker os w =
                ground arith in
              let (n, run) = start-Run w there h k (rw (← same) back) in
              rw same (n, Reach-trans (next here (release_by_close (omega arith) e f)) run)
          | inl f ↦
              let v = on_platform (λ p. record p { console_state = releasing }) w in
              let same : windows_release_pseudo_console_ownership os w ≡ release_console_now os v =
                ground arith in
              let (n, run) = release_console_now-Run v there h k (rw (← same) back) in
              rw same (n, Reach-trans (next here (release_begin (omega arith) e f)) run)
        ]
      ]
