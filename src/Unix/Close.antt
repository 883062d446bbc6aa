-- ===== src/Unix/Close.antt =====
-- Ending a session in src/unix/pty_unix_session.c: posting, abandoning, closing, stopping the
-- process, and freeing. A block between a lock and its unlock is one update of the platform.
pub mod Once
pub mod Final
use flutter_pty.Prelude.{
  ℕ, zero, suc, ◌+◌, Bool, true, false, not, ◌&&◌, ◌||◌, List, [], ◌∷◌, Option, none, some, ltb,
  ◌==◌, if◌then◌else◌,
}
use flutter_pty.Prelude.Int.{ℤ, pos, neg, leb_ℤ, ltb_ℤ}
use flutter_pty.Events.{Event, session_closed}
use flutter_pty.Queue
use flutter_pty.Session.{
  Session, Lifecycle, starting, running, closing, closed, retain, drop_reference, mark_abandoned,
  mark_closed,
}
use flutter_pty.Stats.{session_finished, worker_started, worker_finished}
use flutter_pty.Stats
use flutter_pty.Unix.World.{
  Platform, Os, World, Worker, closer, posted, killed, closed_fd, woke, thread, released, freed,
  did, on_session, on_platform, put_platform, on_stats, no_fd, sigkill,
}

abbrev pub close_fd : ℤ → World → World
close_fd fd w = if leb_ℤ (pos 0) fd then did (closed_fd fd) w else w

-- `wake_reactor`. Its loop ends at the first call that no signal interrupts.
abbrev pub wake_reactor : World → World
wake_reactor w = did woke w

-- The platform of `free_unix_session`: its descriptors and its queue.
free_platform : Platform → World → World
free_platform p w =
    let w1 = close_fd p.slave_fd (close_fd p.master_fd w) in
    let w2 = close_fd p.release_fd (close_fd p.exit_fd w1) in
    let w3 = close_fd p.wake_write_fd (close_fd p.wake_read_fd w2) in
    let (q, s) = Queue.dispose p.write_queue w3.stats in
    record w3 { session = record (w3.session) { platform = none }; stats = s }

-- `free_unix_session`
unfoldable pub free_unix_session : World → World
unfolding free_platform
free_unix_session w = elim w.session.platform [
  | none ↦ did freed w
  | some p ↦ did freed (free_platform p w)
]

-- `pty_session_release`. With no free function set, only the object itself is freed.
unfoldable pub release : World → World
release w =
    let (s, last) = drop_reference w.session in
    let w1 = record w { session = s } in
    let w2 = on_stats session_finished w1 in
    if not last then w1 else if s.has_free_function then free_unix_session w2 else did freed w2

-- The test of `maybe_post_session_closed`.
abbrev pub all_done : Platform → Bool
all_done p =
    p.stopping && p.reactor_done && p.waiter_done && p.close_done && not p.session_closed_posted

module _ (os : Os) where
  -- `stop_process`: the foreground group of the terminal, the program's group, the program.
  unfoldable pub kill_all : Platform → World → World
  kill_all p w =
      let foreground =
        if leb_ℤ (pos 0) p.master_fd then os.foreground w.log p.master_fd else no_fd in
      let w1 = if ltb_ℤ (pos 0) foreground then did (killed (neg foreground) sigkill) w else w in
      did (killed p.process_id sigkill) (did (killed (neg p.process_id) sigkill) w1)

  unfoldable pub stop_process : World → World
  stop_process w = elim w.session.platform [
    | none ↦ w
    | some p ↦
        if leb_ℤ p.process_id (pos 0)
        then w
        else if p.process_released || w.session.process_exited
        then w
        else kill_all p w
  ]

  -- The flag, the counter and the two references that come before the close worker.
  unfoldable pub reserve_close : Platform → World → World
  reserve_close p w =
      on_session (λ s. retain (retain s))
        (on_stats (worker_started Stats.close) (put_platform (record p { close_started = true }) w))

  unfoldable pub launch_closer : Platform → World → World
  launch_closer p w =
      let w1 = reserve_close p w in did (thread closer (os.create_thread w1.log closer == 0)) w1

  module _ (post : Event → World → World × Bool) where
    -- `maybe_post_session_closed`
    unfoldable pub maybe_post_session_closed_by : World → World
    maybe_post_session_closed_by w = elim w.session.platform [
      | none ↦ w
      | some p ↦
          if all_done p
          then (post session_closed (
              on_session mark_closed
                (put_platform (record p { session_closed_posted = true }) w))).0
          else w
    ]

    -- The end of `pty_session_begin_close` when the close worker cannot be created.
    unfoldable pub close_here_by : World → World
    close_here_by w =
        let failed = release (release (on_stats (worker_finished Stats.close) w)) in
        let stopped = on_platform (λ q. record q { stopping = true; close_done = true }) failed in
        maybe_post_session_closed_by (wake_reactor (stop_process stopped))

    -- `pty_session_begin_close` once the session is closing and the platform is there.
    unfoldable pub start_close_worker : Platform → World → World
    start_close_worker p w =
        if p.close_started || p.close_done
        then w
        else if os.create_thread (reserve_close p w).log closer == 0
        then release (launch_closer p w)
        else close_here_by (launch_closer p w)

    -- `pty_session_begin_close` after its loop.
    unfoldable pub close_platform_by : World → World
    close_platform_by w = elim w.session.platform [ none ↦ w | some p ↦ start_close_worker p w ]

    -- `pty_session_begin_close`. Its loop repeats a compare-and-exchange until none interferes, so it
    -- is one transition of the life cycle.
    unfoldable pub begin_close_by : World → World
    begin_close_by w = elim w.session.lifecycle [
      | starting ↦ on_session (λ s. record s { lifecycle = closing }) w
      | running ↦ close_platform_by (on_session (λ s. record s { lifecycle = closing }) w)
      | closing ↦ close_platform_by w
      | closed ↦ w
    ]

    -- `pty_session_abandon`
    unfoldable pub abandon_by : World → World
    abandon_by w =
        let (s, first) = mark_abandoned w.session in
        let w1 = record w { session = s } in if first then release (begin_close_by w1) else w1

  -- `post_session_event`, with the calls that may stand one inside the other: a refused event
  -- abandons the session, and closing it may post again.
  unfoldable pub post_at : ℕ → Event → World → World × Bool
  post_at zero e w = (w, false)
  post_at (suc depth) e w =
      let ok = os.post w.log e in
      let w1 = did (posted e ok) w in
      let abandoned = abandon_by (λ e' w'. post_at depth e' w') w1 in
      if w.session.abandoned then (w, false) else if ok then (w1, true) else (abandoned, false)

  unfoldable pub post_session_event : Event → World → World × Bool
  unfolding post_at
  post_session_event e w = post_at 1 e w

  abbrev pub maybe_post_session_closed : World → World
  maybe_post_session_closed = maybe_post_session_closed_by post_session_event

  abbrev pub begin_close : World → World
  begin_close = begin_close_by post_session_event

  abbrev pub abandon : World → World
  abandon = abandon_by post_session_event
