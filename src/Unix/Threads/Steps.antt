-- ===== src/Unix/Threads/Steps.antt =====
-- The steps of the threads of a running session of src/unix/pty_unix_session.c.
use flutter_pty.Prelude.{◌+◌, ◌-◌, ◌≤◌, ◌≡◌, true, false, ◌||◌}
use flutter_pty.Unix.Threads.{Threads, retain_shared, release_shared, is_all_done, session_running}

pub data ThreadStep (s : Threads) : Threads → Type 0 where
  -- any thread, at any time
  call_begin : ThreadStep s (record s { begin_calls = s.begin_calls + 1 })
  call_abandon : ThreadStep s (record s { abandon_calls = s.abandon_calls + 1 })
  -- `pty_session_abandon`
  abandon_again :
      1 ≤ s.abandon_calls
      → s.abandoned ≡ true
      → ThreadStep s (record s { abandon_calls = s.abandon_calls - 1 })
  abandon_first :
      1 ≤ s.abandon_calls
      → s.abandoned ≡ false
      → ThreadStep s (record s {
        abandoned = true;
        abandon_calls = s.abandon_calls - 1;
        begin_calls = s.begin_calls + 1;
        drops = s.drops + 1;
      })
  drop : 1 ≤ s.drops → ThreadStep s (release_shared (record s { drops = s.drops - 1 }))
  -- `pty_session_begin_close`
  begin_late :
      1 ≤ s.begin_calls
      → (s.close_started || s.close_done) ≡ true
      → ThreadStep s (record s { begin_calls = s.begin_calls - 1 })
  begin_first :
      1 ≤ s.begin_calls
      → (s.close_started || s.close_done) ≡ false
      → ThreadStep s (record s {
        close_started = true;
        begin_calls = s.begin_calls - 1;
        reserved = s.reserved + 1;
      })
  retain_first :
      1 ≤ s.reserved
      → ThreadStep s (
          retain_shared
            (record s { reserved = s.reserved - 1; retained_once = s.retained_once + 1 }))
  retain_second :
      1 ≤ s.retained_once
      → ThreadStep s (
          retain_shared
            (record s { retained_once = s.retained_once - 1; retained = s.retained + 1 }))
  create :
      1 ≤ s.retained
      → ThreadStep s (record s {
        closers = s.closers + 1;
        retained = s.retained - 1;
        created = s.created + 1;
        closer_first = s.closer_first + 1;
      })
  release_creator :
      1 ≤ s.created → ThreadStep s (release_shared (record s { created = s.created - 1 }))
  create_refused :
      1 ≤ s.retained
      → ThreadStep s (record s { retained = s.retained - 1; refused = s.refused + 1 })
  release_first :
      1 ≤ s.refused
      → ThreadStep s (
          release_shared
            (record s { refused = s.refused - 1; refused_again = s.refused_again + 1 }))
  release_second :
      1 ≤ s.refused_again
      → ThreadStep s (
          release_shared
            (record s { refused_again = s.refused_again - 1; marking = s.marking + 1 }))
  mark :
      1 ≤ s.marking
      → ThreadStep s (record s {
        stopping = true;
        close_done = true;
        marking = s.marking - 1;
        call_checks = s.call_checks + 1;
      })
  -- the ends of `reactor_worker` and `waiter_worker`
  end_reactor :
      1 ≤ s.reactor_loop
      → ThreadStep s (record s {
        reactor_done = true;
        reactor_loop = s.reactor_loop - 1;
        main_checks = s.main_checks + 1;
      })
  end_waiter :
      1 ≤ s.waiter_loop
      → ThreadStep s (record s {
        waiter_done = true;
        waiter_loop = s.waiter_loop - 1;
        main_checks = s.main_checks + 1;
      })
  -- `close_worker`
  begin_stop :
      1 ≤ s.closer_first
      → ThreadStep s (record s {
        stopping = true;
        closer_first = s.closer_first - 1;
        closer_second = s.closer_second + 1;
      })
  end_close :
      1 ≤ s.closer_second
      → ThreadStep s (record s {
        close_done = true;
        closer_second = s.closer_second - 1;
        closer_checks = s.closer_checks + 1;
      })
  -- `maybe_post_session_closed` at the end of `pty_session_begin_close`
  call_check :
      1 ≤ s.call_checks
      → is_all_done s ≡ true
      → ThreadStep s (record s {
        session_closed_posted = true;
        call_checks = s.call_checks - 1;
        call_posts = s.call_posts + 1;
      })
  call_check_not :
      1 ≤ s.call_checks
      → is_all_done s ≡ false
      → ThreadStep s (record s { call_checks = s.call_checks - 1 })
  call_post :
      1 ≤ s.call_posts
      → s.abandoned ≡ false
      → ThreadStep s (record s { call_posts = s.call_posts - 1; call_sends = s.call_sends + 1 })
  call_post_not :
      1 ≤ s.call_posts
      → s.abandoned ≡ true
      → ThreadStep s (record s { call_posts = s.call_posts - 1 })
  call_send :
      1 ≤ s.call_sends
      → ThreadStep s
          (record s { closed_events = s.closed_events + 1; call_sends = s.call_sends - 1 })
  call_send_refused :
      1 ≤ s.call_sends
      → ThreadStep s
          (record s { abandon_calls = s.abandon_calls + 1; call_sends = s.call_sends - 1 })
  -- `maybe_post_session_closed` at the end of the reactor and of the waiter
  main_check :
      1 ≤ s.main_checks
      → is_all_done s ≡ true
      → ThreadStep s (record s {
        session_closed_posted = true;
        main_checks = s.main_checks - 1;
        main_posts = s.main_posts + 1;
      })
  main_check_not :
      1 ≤ s.main_checks
      → is_all_done s ≡ false
      → ThreadStep s (record s { main_checks = s.main_checks - 1; main_leaves = s.main_leaves + 1 })
  main_post :
      1 ≤ s.main_posts
      → s.abandoned ≡ false
      → ThreadStep s (record s { main_posts = s.main_posts - 1; main_sends = s.main_sends + 1 })
  main_post_not :
      1 ≤ s.main_posts
      → s.abandoned ≡ true
      → ThreadStep s (record s { main_posts = s.main_posts - 1; main_leaves = s.main_leaves + 1 })
  main_send :
      1 ≤ s.main_sends
      → ThreadStep s (record s {
        closed_events = s.closed_events + 1;
        main_sends = s.main_sends - 1;
        main_leaves = s.main_leaves + 1;
      })
  main_send_refused :
      1 ≤ s.main_sends
      → ThreadStep s (record s {
        abandon_calls = s.abandon_calls + 1;
        main_sends = s.main_sends - 1;
        main_leaves = s.main_leaves + 1;
      })
  main_leave :
      1 ≤ s.main_leaves
      → ThreadStep s (release_shared (record s { main_leaves = s.main_leaves - 1 }))
  -- `maybe_post_session_closed` at the end of the close worker
  closer_check :
      1 ≤ s.closer_checks
      → is_all_done s ≡ true
      → ThreadStep s (record s {
        session_closed_posted = true;
        closer_checks = s.closer_checks - 1;
        closer_posts = s.closer_posts + 1;
      })
  closer_check_not :
      1 ≤ s.closer_checks
      → is_all_done s ≡ false
      → ThreadStep s
          (record s { closer_checks = s.closer_checks - 1; closer_leaves = s.closer_leaves + 1 })
  closer_post :
      1 ≤ s.closer_posts
      → s.abandoned ≡ false
      → ThreadStep s
          (record s { closer_posts = s.closer_posts - 1; closer_sends = s.closer_sends + 1 })
  closer_post_not :
      1 ≤ s.closer_posts
      → s.abandoned ≡ true
      → ThreadStep s
          (record s { closer_posts = s.closer_posts - 1; closer_leaves = s.closer_leaves + 1 })
  closer_send :
      1 ≤ s.closer_sends
      → ThreadStep s (record s {
        closed_events = s.closed_events + 1;
        closer_sends = s.closer_sends - 1;
        closer_leaves = s.closer_leaves + 1;
      })
  closer_send_refused :
      1 ≤ s.closer_sends
      → ThreadStep s (record s {
        abandon_calls = s.abandon_calls + 1;
        closer_sends = s.closer_sends - 1;
        closer_leaves = s.closer_leaves + 1;
      })
  closer_leave :
      1 ≤ s.closer_leaves
      → ThreadStep s (release_shared (record s { closer_leaves = s.closer_leaves - 1 }))

pub data ThreadReach : Threads → Type 0 where
  here : ThreadReach session_running
  next : {s t : Threads} → ThreadReach s → ThreadStep s t → ThreadReach t
