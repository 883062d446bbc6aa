-- ===== src/Unix/Workers.antt =====
-- The worker threads of src/unix/pty_unix_session.c: the reactor, the waiter and the close worker.
use flutter_pty.Prelude.{
  ℕ, zero, suc, Bool, true, false, not, ◌&&◌, ◌||◌, Option, none, some, ltb, ◌==◌, if◌then◌else◌,
}
use flutter_pty.Prelude.Int.{ℤ, pos, ltb_ℤ}
use flutter_pty.Prelude.Text.{codes}
use flutter_pty.Errors.{io}
use flutter_pty.Events.{process_exit}
use flutter_pty.Queue.{queued_bytes}
use flutter_pty.Stats.{worker_finished}
use flutter_pty.Stats
use flutter_pty.Unix.World.{
  Platform, Os, World, Interest, ready, poll_failed, ExitAnswer, reported, no_report, exit_failed,
  released, did, on_session, on_platform, put_platform, on_stats, no_fd, epipe,
}
use flutter_pty.Unix.Close.{
  close_fd, wake_reactor, release, stop_process, post_session_event, maybe_post_session_closed,
}
use flutter_pty.Unix.Input.{
  kept, failed, unfinished, flush_write_queue, discard_pending_writes, mark_input_closed,
}
use flutter_pty.Unix.Output.{
  ReadResult, closed, empty, some_data, credit_exhausted, interrupted, read_output,
  mark_output_closed, post_child_error,
}

-- `close_slave`
unfoldable pub close_slave : World → World
close_slave w = elim w.session.platform [
  | none ↦ w
  | some p ↦ close_fd p.slave_fd (put_platform (record p { slave_fd = no_fd }) w)
]

-- `release_process`, with `pty_unix_release_process`, after which the supervisor reaps the program.
unfoldable pub release_process : World → World
release_process w = elim w.session.platform [
  | none ↦ w
  | some p ↦
      let w1 =
        put_platform (record p { exit_fd = no_fd; release_fd = no_fd; process_released = true })
          w in
      close_fd p.exit_fd (close_fd p.release_fd (did (released p.process_id) w1))
]

abbrev pub master_of : Option Platform → ℤ
master_of none = no_fd
master_of (some p) = p.master_fd

-- What a round of the reactor leads to: the next round, or the end of its loop.
pub data Round : Type 0 where
  again : World → Round
  stop : World → Round

abbrev is_stopping : World → Bool
is_stopping w = elim w.session.platform [ none ↦ true | some p ↦ p.stopping ]

-- What the reactor sees of the platform at the head of a round.
pub record Snapshot : Type 0 where
  pub stopping : Bool
  pub discard : Bool
  pub output_hung_up : Bool
  pub has_writes : Bool
  pub credit : ℕ
  pub master_fd : ℤ

abbrev pub snapshot : Platform → World → Snapshot
snapshot p w = record {
  stopping = p.stopping;
  discard = p.discard_output;
  output_hung_up = p.output_hung_up;
  has_writes = not (queued_bytes p.write_queue == 0);
  credit = w.session.output_credit;
  master_fd = p.master_fd;
}

-- The events that the reactor waits for, and whether it watches the master at all.
abbrev pub interest : Snapshot → Interest
interest s = record {
  readable = s.discard || ltb 0 s.credit;
  writable = s.has_writes && not s.output_hung_up;
}

abbrev pub watches_master : Snapshot → Bool
watches_master s = not s.output_hung_up || (interest s).readable || (interest s).writable

module _ (os : Os) (fuel : ℕ) where
  -- Reading on after the program has exited. The flag says whether the output is closed.
  unfoldable pub drain_output : ℕ → World → World × Bool
  drain_output zero w = (w, false)
  drain_output (suc rounds) w =
      let w1 = (read_output os fuel w).0 in
      elim (read_output os fuel w).1 [
        | some_data ↦ drain_output rounds w1
        | empty ↦ (close_slave w1, false)
        | closed ↦ (w1, true)
        | credit_exhausted ↦ (w1, false)
        | interrupted ↦ (w1, false)
      ]

  -- POLLERR, POLLHUP or POLLNVAL, after the read of this round gave `r`.
  hang_up : ReadResult → World → Round
  hang_up r w =
      let w1 =
        discard_pending_writes fuel
          (mark_input_closed os none (on_platform (λ p. record p { output_hung_up = true }) w)) in
      let reread = read_output os fuel w1 in
      elim r [
        | some_data ↦ again w1
        | credit_exhausted ↦ again w1
        | _ ↦ elim reread.1 [ closed ↦ stop reread.0 | empty ↦ stop reread.0 | _ ↦ again reread.0 ]
      ]

  -- A round once its read is made, if POLLIN asked for one.
  after_read : Bool → Bool → ReadResult → World → Round
  unfolding hang_up
  after_read hung_up attempted r w = if hung_up then hang_up r w else elim r [
    | empty ↦ if attempted && w.session.process_exited then again (close_slave w) else again w
    | _ ↦ again w
  ]

  read_phase : Bool → Bool → World → Round
  unfolding after_read
  read_phase hung_up readable w =
      let r = read_output os fuel w in
      if readable
      then elim r.1 [ closed ↦ stop r.0 | other ↦ after_read hung_up true other r.0 ]
      else after_read hung_up false empty w

  write_phase : Interest → Bool → World → Round
  unfolding read_phase
  write_phase ev hung_up w =
      let f = flush_write_queue os fuel w in
      let w1 = discard_pending_writes fuel f.0 in
      if ev.writable
      then elim f.1 [
        | kept ↦ read_phase hung_up ev.readable f.0
        | failed ↦ if is_stopping w1 then stop w1 else again w1
        | unfinished ↦ again f.0
      ]
      else read_phase hung_up ev.readable w

  -- The round after `poll`; the wake pipe has been drained.
  after_poll : Snapshot → Interest → Bool → Bool → World → Round
  unfolding write_phase
  after_poll s ev hung_up wake w =
      let drained = drain_output fuel w in
      if is_stopping w
      then stop w
      else if wake && w.session.process_exited && (s.discard || ltb 0 s.credit)
      then if drained.1 then stop drained.0 else write_phase ev hung_up drained.0
      else write_phase ev hung_up w

  -- One round of the loop of `reactor_worker`.
  unfoldable pub reactor_round : World → Round
  unfolding after_poll
  reactor_round w = elim w.session.platform [
    | none ↦ stop w
    | some p ↦
        let s = snapshot p w in
        if s.stopping || ltb_ℤ s.master_fd (pos 0)
        then stop w
        else elim (os.poll w.log (watches_master s) (interest s)) [
          | poll_failed errno ↦ stop (post_child_error os io errno (codes "polling PTY failed") w)
          | ready ev hung_up wake ↦ after_poll s ev hung_up wake w
        ]
  ]

  -- The end of `reactor_worker`.
  unfoldable pub reactor_end : World → World
  reactor_end w =
      let w1 = mark_input_closed os none (mark_output_closed os w) in
      let fd = master_of w1.session.platform in
      let w2 = on_platform (λ p. record p { master_fd = no_fd; reactor_done = true }) w1 in
      let w3 = on_stats (worker_finished Stats.read) (close_fd fd w2) in
      release (maybe_post_session_closed os w3)

  -- `reactor_worker` for at most so many rounds.
  unfoldable pub reactor_worker : ℕ → World → World
  reactor_worker zero w = w
  reactor_worker (suc rounds) w = elim (reactor_round w) [
    | again w1 ↦ reactor_worker rounds w1
    | stop w1 ↦ reactor_end w1
  ]

module _ (os : Os) where
  -- What the waiter posts of its answer.
  post_exit : ExitAnswer → World → World
  post_exit (reported signaled value) w = (post_session_event os (process_exit signaled value) w).0
  post_exit no_report w = post_child_error os io epipe (codes "waiting for PTY process failed") w
  post_exit (exit_failed errno) w =
      post_child_error os io errno (codes "waiting for PTY process failed") w

  -- With no report the program may still run.
  stop_unreported : ExitAnswer → World → World
  stop_unreported (reported _ _) w = w
  stop_unreported no_report w = stop_process os w
  stop_unreported (exit_failed _) w = stop_process os w

  -- `waiter_worker`, once `pty_unix_read_exit` has answered
  unfoldable pub waiter_worker : ExitAnswer → World → World
  unfolding post_exit stop_unreported
  waiter_worker answer w =
      let w1 = on_session (λ s. record s { process_exited = true }) (stop_unreported answer w) in
      let w2 = post_exit answer (wake_reactor (release_process w1)) in
      let w3 =
        on_stats (worker_finished Stats.wait)
          (on_platform (λ p. record p { waiter_done = true }) w2) in
      release (maybe_post_session_closed os w3)

  -- `close_worker`
  unfoldable pub close_worker : World → World
  close_worker w =
      let w1 = stop_process os (on_platform (λ p. record p { stopping = true }) w) in
      let w2 = on_platform (λ p. record p { close_done = true }) (wake_reactor w1) in
      release (maybe_post_session_closed os (on_stats (worker_finished Stats.close) w2))
