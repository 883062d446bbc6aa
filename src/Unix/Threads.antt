-- ===== src/Unix/Threads.antt =====
-- The closing of a running session of src/unix/pty_unix_session.c, whose threads are interleaved in any
-- order. A step is one atomic access, one block under the platform's mutex, or one call out of the
-- library. Threads at the same place in the code are counted. Any thread may call
-- `pty_session_begin_close` and `pty_session_abandon` at any time, a worker whose event was refused
-- among them, and the loops of the reactor and of the waiter may end at any time. A call is counted by
-- itself: that a worker waits for a call that it makes, and an abandon for its close, is left out, so
-- there are more interleavings here than in the code.
pub mod Steps
pub mod Invariant
pub mod Safety
use flutter_pty.Prelude.{ℕ, ◌+◌, ◌-◌, ◌%◌, ◌^◌, Bool, true, false, not, ◌&&◌, ◌==◌, if◌then◌else◌}

pub record Threads : Type 0 where
  -- the flags of the platform and of the session
  pub stopping : Bool
  pub reactor_done : Bool
  pub waiter_done : Bool
  pub close_started : Bool
  pub close_done : Bool
  pub session_closed_posted : Bool
  pub abandoned : Bool
  -- the count of references, how often it fell to 0, the SESSION_CLOSED events that the port took, and
  -- the close workers created
  pub ref_count : ℕ
  pub frees : ℕ
  pub closed_events : ℕ
  pub closers : ℕ
  -- the threads that come to the test of `pty_session_begin_close`, and to that of
  -- `pty_session_abandon`, and those still to release the Dart-owned reference
  pub begin_calls : ℕ
  pub abandon_calls : ℕ
  pub drops : ℕ
  -- the threads inside `pty_session_begin_close`, once `close_started` is set
  pub reserved : ℕ
  pub retained_once : ℕ
  pub retained : ℕ
  pub created : ℕ
  pub refused : ℕ
  pub refused_again : ℕ
  pub marking : ℕ
  -- its `maybe_post_session_closed`: at the test, before the test for an abandoned session, and at the
  -- port
  pub call_checks : ℕ
  pub call_posts : ℕ
  pub call_sends : ℕ
  -- the reactor and the waiter: in their loops, at their ends, and before their last release
  pub reactor_loop : ℕ
  pub waiter_loop : ℕ
  pub main_checks : ℕ
  pub main_posts : ℕ
  pub main_sends : ℕ
  pub main_leaves : ℕ
  -- the close worker: before its first block, before its second one, and from there on
  pub closer_first : ℕ
  pub closer_second : ℕ
  pub closer_checks : ℕ
  pub closer_posts : ℕ
  pub closer_sends : ℕ
  pub closer_leaves : ℕ

-- `pty_session_retain` and `pty_session_release`
abbrev pub retain_shared : Threads → Threads
retain_shared s = record s { ref_count = (s.ref_count + 1) % 2 ^ 32 }

abbrev pub release_shared : Threads → Threads
release_shared s = record s {
  ref_count = (s.ref_count + 2 ^ 32 - 1) % 2 ^ 32;
  frees = s.frees + (if s.ref_count == 1 then 1 else 0);
}

-- The test of `maybe_post_session_closed`.
abbrev pub is_all_done : Threads → Bool
is_all_done s =
    s.stopping && s.reactor_done && s.waiter_done && s.close_done && not s.session_closed_posted

-- A session that runs with its reactor and its waiter, which both hold a reference as the Dart side
-- does, and which nobody has begun to close.
abbrev pub session_running : Threads
session_running = record {
  stopping = false;
  reactor_done = false;
  waiter_done = false;
  close_started = false;
  close_done = false;
  session_closed_posted = false;
  abandoned = false;
  ref_count = 3;
  frees = 0;
  closed_events = 0;
  closers = 0;
  begin_calls = 0;
  abandon_calls = 0;
  drops = 0;
  reserved = 0;
  retained_once = 0;
  retained = 0;
  created = 0;
  refused = 0;
  refused_again = 0;
  marking = 0;
  call_checks = 0;
  call_posts = 0;
  call_sends = 0;
  reactor_loop = 1;
  waiter_loop = 1;
  main_checks = 0;
  main_posts = 0;
  main_sends = 0;
  main_leaves = 0;
  closer_first = 0;
  closer_second = 0;
  closer_checks = 0;
  closer_posts = 0;
  closer_sends = 0;
  closer_leaves = 0;
}
