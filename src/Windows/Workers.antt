-- ===== src/Windows/Workers.antt =====
-- The reader, the writer and the waiter of src/windows/pty_windows_session.c. A round of a loop goes on,
-- leaves the loop, or sleeps on the condition variable.
use flutter_pty.Prelude.{
  ℕ, zero, suc, ◌+◌, ◌-◌, ◌*◌, Bool, true, false, not, ◌&&◌, ◌||◌, List, [], ◌∷◌, Option, none,
  some, ltb, leb, ◌==◌, if◌then◌else◌, length, take, drop,
}
use flutter_pty.Prelude.Int.{pos}
use flutter_pty.Prelude.Text.{codes}
use flutter_pty.Errors.{io}
use flutter_pty.Events.{output, write_complete, process_exit}
use flutter_pty.Queue.{Chunk, queued_bytes}
use flutter_pty.Stats.{worker_finished}
use flutter_pty.Stats
use flutter_pty.Windows.World.{
  WindowsOs, WindowsWorld, took, rejected, ReadAnswer, gave, broke, WaitAnswer, ended, wait_odd,
  wait_failed, woke, wrote, write_failed, got, read_failed, did, on_session, on_platform, on_stats,
  no_data, write_fault, invalid_data,
}
use flutter_pty.Windows.Closing.{
  Progress, returned, win32_error, windows_release, windows_release_pseudo_console_ownership,
}
use flutter_pty.Windows.Posting.{
  windows_post_session_event, windows_post_error, windows_mark_output_closed,
  windows_mark_input_closed, windows_maybe_post_closed, windows_maybe_post_writable,
  windows_take_chunk, windows_finish_chunk, windows_discard_pending_writes,
}

-- `PTY_WINDOWS_IO_BUFFER_SIZE`
abbrev pub io_buffer_size : ℕ
io_buffer_size = 64 * 1024

pub data LoopStep : Type 0 where
  again : WindowsWorld → LoopStep
  leave : WindowsWorld → LoopStep
  sleep : LoopStep
  -- the fuel ran out, which enough of it excludes
  out_of_fuel : LoopStep

-- How much `windows_reader` asks for.
abbrev pub windows_read_capacity : Bool → ℕ → ℕ
windows_read_capacity discard credit =
    if discard then io_buffer_size else if ltb credit io_buffer_size then credit else io_buffer_size

-- The credit after `count` bytes.
abbrev pub windows_charge : ℕ → ℕ → ℕ
windows_charge credit count = if leb count credit then credit - count else 0

module _ (os : WindowsOs) where
  -- A read that failed or gave nothing.
  unfoldable pub reader_failure : ℕ → WindowsWorld → WindowsWorld
  reader_failure error_code w =
      if w.platform.stopping
        || w.platform.termination_requested
        || w.session.process_exited
        || os.process_over w.log
      then w
      else windows_post_error os io error_code (codes "reading ConPTY output failed") w

  -- What `windows_reader` does with bytes that it read.
  unfoldable pub reader_deliver : List ℕ → WindowsWorld → LoopStep
  reader_deliver bytes w =
      let charged =
        on_session (λ s. record s { output_credit = windows_charge s.output_credit (length bytes) })
          w in
      let (w1, ok) = windows_post_session_event os (output bytes) charged in
      if w.platform.discard_output then again w else if ok then again w1 else leave w1

  -- What follows the answer of `ReadFile`.
  unfoldable pub reader_answer : ReadAnswer → WindowsWorld → LoopStep
  reader_answer (gave []) w = leave (reader_failure no_data (did (got []) w))
  reader_answer (broke error_code) w =
      leave (reader_failure error_code (did (read_failed error_code) w))
  reader_answer (gave (b ∷ bs)) w = reader_deliver (b ∷ bs) (did (got (b ∷ bs)) w)

  -- One round of the loop of `windows_reader`.
  unfoldable pub reader_round : WindowsWorld → LoopStep
  reader_round w =
      let p = w.platform in
      let capacity = windows_read_capacity p.discard_output w.session.output_credit in
      if w.session.output_credit == 0 && not p.discard_output && not p.stopping
      then sleep
      else if p.stopping
      then leave w
      else reader_answer (os.read w.log capacity) w

  -- The end of `windows_reader`.
  unfoldable pub reader_end : WindowsWorld → WindowsWorld
  reader_end w =
      let w1 =
        on_platform (λ p. record p { reader_done = true }) (windows_mark_output_closed os w) in
      windows_release (windows_maybe_post_closed os (on_stats (worker_finished Stats.read) w1))

-- How the inner loop of `windows_writer` ends: with the chunk written, with an error code, or not yet
-- when the fuel is out.
pub data WriteOutcome : Type 0 where
  written : WindowsWorld → WriteOutcome
  failed : (error_code : ℕ) → WindowsWorld → WriteOutcome
  unfinished : WindowsWorld → WriteOutcome

-- `UINT32_MAX`
abbrev pub uint32_max : ℕ
uint32_max = 0xffffffff

-- The bytes that `WriteFile` is asked to write.
abbrev pub requested : Chunk → ℕ → List ℕ
requested c offset =
    let remaining = c.size - offset in
    take (if ltb uint32_max remaining then uint32_max else remaining) (drop offset c.bytes)

module _ (os : WindowsOs) where
  -- The inner loop of `windows_writer`.
  unfoldable pub write_bytes : ℕ → Chunk → ℕ → WindowsWorld → WriteOutcome
  write_bytes zero c offset w = unfinished w
  write_bytes (suc fuel) c offset w =
      if ltb offset c.size
      then elim (os.write w.log (requested c offset)) [
        | took zero ↦ failed write_fault (did (wrote []) w)
        | took (suc n) ↦
            write_bytes fuel c (offset + suc n) (did (wrote (take (suc n) (requested c offset))) w)
        | rejected error_code ↦ failed error_code (did (write_failed error_code) w)
      ]
      else written w

  -- What follows the inner loop.
  unfoldable pub writer_finish : ℕ → Chunk → WriteOutcome → LoopStep
  writer_finish rounds c (written w) = again (
      windows_maybe_post_writable os
        (windows_finish_chunk c (windows_post_session_event os (write_complete c.request_id) w).0))
  writer_finish rounds c (failed error_code w) = leave (
      windows_finish_chunk c (
        windows_discard_pending_writes rounds (
          windows_mark_input_closed os
            (win32_error io error_code (codes "writing ConPTY input failed")) w)))
  writer_finish rounds c (unfinished w) = out_of_fuel

  -- `windows_writer` once it may take a chunk. The fuel is that of both inner loops.
  unfoldable pub writer_take : ℕ → WindowsWorld → LoopStep
  writer_take fuel w =
      let w1 = (windows_take_chunk w).0 in
      elim (windows_take_chunk w).1 [
        | none ↦ again w1
        | some c ↦ writer_finish fuel c (write_bytes fuel c 0 (windows_maybe_post_writable os w1))
      ]

  -- One round of the loop of `windows_writer`.
  unfoldable pub writer_round : ℕ → WindowsWorld → LoopStep
  writer_round fuel w =
      let p = w.platform in
      let queue_empty = queued_bytes p.write_queue == 0 in
      if not p.stopping && not w.session.process_exited && queue_empty
      then sleep
      else if p.stopping || (w.session.process_exited && queue_empty)
      then leave w
      else writer_take fuel w

  -- The end of `windows_writer`.
  unfoldable pub writer_end : WindowsWorld → WindowsWorld
  writer_end w =
      let w1 =
        on_platform (λ p. record p { writer_done = true }) (windows_mark_input_closed os none w) in
      windows_release (windows_maybe_post_closed os (on_stats (worker_finished Stats.write) w1))

  abbrev exited : WindowsWorld → WindowsWorld
  exited w = on_session (λ s. record s { process_exited = true }) w

  -- What the waiter posts of the exit code.
  unfoldable pub report_exit : Option ℕ → WindowsWorld → WindowsWorld
  report_exit (some code) w = (windows_post_session_event os (process_exit false (pos code)) w).0
  report_exit none w =
      windows_post_error os io (os.last_error w.log) (codes "reading ConPTY process exit failed") w

  -- `windows_waiter` after the program's end: the exit code, and the console's ownership.
  unfoldable pub waiter_exit : WindowsWorld → Progress
  waiter_exit w =
      let w1 = did woke (exited w) in
      windows_release_pseudo_console_ownership os (report_exit (os.exit_code w1.log) w1)

  -- `windows_waiter` from its wait to its end.
  unfoldable pub waiter_answer : WaitAnswer → WindowsWorld → Progress
  waiter_answer ended w = waiter_exit w
  waiter_answer (wait_failed error_code) w =
      returned
        (exited (windows_post_error os io error_code (codes "waiting for ConPTY process failed") w))
  waiter_answer wait_odd w = returned (
      exited (
        windows_post_error os io invalid_data
          (codes "waiting for ConPTY process returned an invalid status") w))

  unfoldable pub waiter_end : WindowsWorld → WindowsWorld
  waiter_end w =
      let w1 = on_platform (λ p. record p { waiter_done = true }) (did woke w) in
      windows_release (windows_maybe_post_closed os (on_stats (worker_finished Stats.wait) w1))
