-- ===== src/Tests/Threads.antt =====
-- The interleavings of src/unix/pty_unix_session.c at one run.
use flutter_pty.Prelude.{◌+◌, ◌*◌, ◌≤◌, ◌≡◌, refl, true, ◌&&◌, arith}
use flutter_pty.Unix.Threads.{Threads, session_running}
use flutter_pty.Unix.Threads.Steps.{
  ThreadReach, here, next, call_begin, begin_first, retain_first, retain_second, create,
  release_creator, begin_stop, end_close, closer_check_not, closer_leave, end_reactor,
  main_check_not, end_waiter, main_check, main_post, main_send, main_leave,
}
use flutter_pty.Unix.Threads.Invariant.{bit}
use flutter_pty.Unix.Threads.Safety.{closed_at_most_once, closed_when_over}

one_there : 1 ≤ 1
one_there = omega arith

two_there : 1 ≤ 2
two_there = omega arith

-- The close worker is created and stops the session.
closing-Reach : ThreadReach (record session_running {
  stopping = true;
  close_started = true;
  close_done = true;
  closers = 1;
  closer_checks = 1;
  ref_count = 4;
})
closing-Reach =
    let begun = next (next here call_begin) (begin_first one_there refl) in
    let kept = next (next begun (retain_first one_there)) (retain_second one_there) in
    let made = next (next kept (create one_there)) (release_creator one_there) in
    next (next made (begin_stop one_there)) (end_close one_there)

-- Then the close worker, the reactor and the waiter leave, and the last one posts.
abbrev session_over : Threads
session_over = record session_running {
  stopping = true;
  reactor_done = true;
  waiter_done = true;
  close_started = true;
  close_done = true;
  session_closed_posted = true;
  ref_count = 1;
  closed_events = 1;
  closers = 1;
  reactor_loop = 0;
  waiter_loop = 0;
}

session_over-Reach : ThreadReach session_over
session_over-Reach =
    let unclosed = next closing-Reach (closer_check_not one_there refl) in
    let reactor_ends = next (next unclosed (closer_leave one_there)) (end_reactor one_there) in
    let waiter_ends =
      next (next reactor_ends (main_check_not one_there refl)) (end_waiter one_there) in
    let posting = next (next waiter_ends (main_check one_there refl)) (main_post one_there refl) in
    let posted = next posting (main_send one_there) in
    next (next posted (main_leave two_there)) (main_leave one_there)

-- At last the Dart side abandons the session, which is freed.
abbrev session_freed : Threads
session_freed = record session_over { abandoned = true; ref_count = 0; frees = 1 }

closed_at_most_once_example :
    (session_over.closed_events ≤ 1)
    × (session_over.closers ≤ 1)
    × (3 * session_over.closed_events
        ≤ bit session_over.reactor_done
          + bit session_over.waiter_done
          + bit session_over.close_done)
closed_at_most_once_example = closed_at_most_once {s = session_over} session_over-Reach

closed_when_over_example :
    ((session_over.stopping && session_over.close_done && session_over.session_closed_posted)
      ≡ true)
    × (1 ≤ session_over.closed_events + bit session_over.abandoned)
    × (session_over.closed_events ≤ 1)
    × (bit session_over.abandoned ≤ session_over.frees)
closed_when_over_example = closed_when_over {s = session_over} session_over-Reach refl refl
