-- ===== src/Unix/Threads/Safety.antt =====
-- The end of a session in every interleaving of the threads of src/unix/pty_unix_session.c.
use flutter_pty.Prelude.{ℕ, ◌+◌, ◌*◌, ◌≤◌, ◌≡◌, true, ◌&&◌, arith}
use flutter_pty.Unix.Threads.{Threads}
use flutter_pty.Unix.Threads.Steps.{ThreadReach}
use flutter_pty.Unix.Threads.Invariant.{
  bit, main_threads, closer_threads, owing, on_post, Reach-Inv,
}

-- In every interleaving, with any number of calls of `pty_session_begin_close` and
-- `pty_session_abandon` at any time: the port takes SESSION_CLOSED at most once, and at most one close
-- worker is created; and when it takes the event, the reactor, the waiter and the close have recorded
-- their ends.
pub closed_at_most_once :
    {s : Threads}
    → ThreadReach s
    → (s.closed_events ≤ 1)
      × (s.closers ≤ 1)
      × (3 * s.closed_events ≤ bit s.reactor_done + bit s.waiter_done + bit s.close_done)
closed_at_most_once {s} reach = let v = Reach-Inv reach in grind arith

-- All threads that were inside the session's calls and its workers have left.
abbrev pub all_left : Threads → ℕ
all_left s =
    s.begin_calls
    + s.abandon_calls
    + s.drops
    + owing s
    + s.created
    + s.call_checks
    + on_post s
    + main_threads s
    + closer_threads s

-- In every interleaving, once the close was started and no thread is left in a call or a worker: the
-- close is done, the port took SESSION_CLOSED exactly once unless the session was abandoned, and in
-- that case the session was freed.
pub closed_when_over :
    {s : Threads}
    → ThreadReach s
    → s.close_started ≡ true
    → all_left s ≡ 0
    → ((s.stopping && s.close_done && s.session_closed_posted) ≡ true)
      × (1 ≤ s.closed_events + bit s.abandoned)
      × (s.closed_events ≤ 1)
      × (bit s.abandoned ≤ s.frees)
closed_when_over {s} reach started over = let v = Reach-Inv reach in grind arith
