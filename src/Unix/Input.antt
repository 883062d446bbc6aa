-- ===== src/Unix/Input.antt =====
-- Input in src/unix/pty_unix_session.c: accepting writes, flushing the queue to the master, and
-- closing the input.
pub mod Steady
pub mod Flush
pub mod Rounds
pub mod Drain
pub mod Discard
pub mod Accept
use flutter_pty.Prelude.{
  ℕ, zero, suc, ◌+◌, ◌-◌, ◌/◌, Bool, true, false, not, ◌&&◌, ◌||◌, List, [], ◌∷◌, Option, none,
  some, ltb, leb, ◌==◌, if◌then◌else◌, is_some, length, take, drop,
}
use flutter_pty.Prelude.Int.{ℤ, pos, ltb_ℤ}
use flutter_pty.Prelude.Text.{codes}
use flutter_pty.Prelude.Words.{add64, sub64}
use flutter_pty.Errors.{
  PtyError, Kind, io, invalid_argument, out_of_memory, internal_domain, set_errno,
}
use flutter_pty.Errors
use flutter_pty.Events.{Event, input_closed, writable, write_complete}
use flutter_pty.Queue.{
  Chunk, Queue, WriteResult, accepted, backpressured, closed, error, try_enqueue, dequeue,
  requeue_front, complete_chunk, pending_bytes,
}
use flutter_pty.Session.{lifecycle_code}
use flutter_pty.Unix.World.{
  Platform, Os, World, WriteAnswer, took, rejected, wrote, write_failed, did, on_session,
  put_platform, fresh_error, eintr, eagain, einval, enomem, epipe, enobufs,
}
use flutter_pty.Unix.Close.{wake_reactor, post_session_event}

-- The queue operations on the queue of the session's platform.
unfoldable pub take_chunk : World → World × Option Chunk
take_chunk w = elim w.session.platform [
  | none ↦ (w, none)
  | some p ↦
      let (q, s, c) = dequeue p.write_queue w.stats in
      (record (put_platform (record p { write_queue = q }) w) { stats = s }, c)
]

unfoldable pub finish_chunk : Chunk → World → World
finish_chunk c w = elim w.session.platform [
  | none ↦ w
  | some p ↦
      let (q, s) = complete_chunk p.write_queue w.stats c in
      record (put_platform (record p { write_queue = q }) w) { stats = s }
]

unfoldable pub return_chunk : Chunk → World → World × WriteResult
return_chunk c w = elim w.session.platform [
  | none ↦ (w, error)
  | some p ↦
      let (q, s, r) = requeue_front p.write_queue w.stats c in
      (record (put_platform (record p { write_queue = q }) w) { stats = s }, r)
]

-- `discard_pending_writes`, with the number of rounds as fuel.
unfoldable pub discard_pending_writes : ℕ → World → World
discard_pending_writes zero w = w
discard_pending_writes (suc rounds) w =
    let w1 = (take_chunk w).0 in
    elim (take_chunk w).1 [ none ↦ w1 | some c ↦ discard_pending_writes rounds (finish_chunk c w1) ]

pub data FlushResult : Type 0 where
  -- the function returned 1, returned 0, or is still in its loop when the fuel is out
  kept failed unfinished : FlushResult

pub data FlushStep : Type 0 where
  proceed : Option Chunk → World → FlushStep
  leave : FlushResult → World → FlushStep

module _ (os : Os) where
  unfoldable pub errno_error : Kind → ℕ → List ℕ → Option PtyError
  errno_error kind error_number text =
      set_errno os.strerror (some fresh_error) kind error_number (some text)

  -- With no error given, the input is closed by a broken pipe.
  unfoldable pub closing_reason : Option PtyError → Option PtyError
  unfolding errno_error
  closing_reason none = errno_error Errors.closed epipe (codes "PTY input closed")
  closing_reason (some given) = some given

  -- `mark_input_closed`; `none` is a NULL error.
  unfoldable pub mark_input_closed : Option PtyError → World → World
  unfolding closing_reason
  mark_input_closed e w = elim w.session.platform [
    | none ↦ w
    | some p ↦
        let w1 =
          on_session (λ s. record s { input_closed = true })
            (put_platform (record p { input_closed = true }) w) in
        if p.input_closed then w else (post_session_event os (input_closed (closing_reason e)) w1).0
  ]

  -- `maybe_post_writable`
  unfoldable pub maybe_post_writable : World → World
  maybe_post_writable w = elim w.session.platform [
    | none ↦ w
    | some p ↦
        let w1 = put_platform (record p { write_backpressured = false }) w in
        if p.write_backpressured
          && leb (pending_bytes p.write_queue) (w.session.input_buffer_limit / 2)
        then (post_session_event os writable w1).0
        else w
  ]

  -- A write that would block: the chunk goes back to the front of the queue.
  unfoldable pub put_back : Chunk → World → FlushStep
  put_back c w =
      let w1 = (return_chunk c w).0 in
      elim (return_chunk c w).1 [
        | accepted ↦ leave kept (maybe_post_writable w1)
        | _ ↦ leave failed (
            mark_input_closed (errno_error io enobufs (codes "requeuing partial write failed"))
              (finish_chunk c w1))
      ]

  -- A write that failed.
  unfoldable pub give_up : ℕ → Chunk → World → FlushStep
  give_up error_number c w = leave failed (
      mark_input_closed (errno_error io error_number (codes "writing PTY input failed"))
        (finish_chunk c w))

  -- One call of `write` on the rest of a chunk, and what the answer leads to.
  unfoldable pub write_chunk : ℤ → Chunk → World → FlushStep
  write_chunk master_fd c w =
      elim (os.write w.log master_fd (take (sub64 c.size c.offset) (drop c.offset c.bytes))) [
        | took zero ↦ give_up (os.errno w.log) c (did (wrote []) w)
        | took (suc n) ↦
            proceed (some (record c { offset = add64 c.offset (suc n) }))
              (did (wrote (take (suc n) (drop c.offset c.bytes))) w)
        | rejected errno ↦
            let w1 = did (write_failed errno) w in
            if errno == eintr
            then proceed (some c) w1
            else if errno == eagain
            then put_back c w1
            else give_up errno c w1
      ]

  -- A chunk that is written to its end.
  unfoldable pub complete_write : Chunk → World → World
  complete_write c w =
      maybe_post_writable (finish_chunk c (post_session_event os (write_complete c.request_id) w).0)

  -- One round of `pty_unix_flush_write_queue`: of the outer loop with no chunk at hand, of the inner
  -- loop with one.
  unfoldable pub flush_step : ℤ → Option Chunk → World → FlushStep
  flush_step master_fd none w =
      let w1 = (take_chunk w).0 in
      elim (take_chunk w).1 [ none ↦ leave kept w1 | some c ↦ proceed (some c) w1 ]
  flush_step master_fd (some c) w =
      if ltb c.offset c.size then write_chunk master_fd c w else proceed none (complete_write c w)

  unfoldable pub flush_loop : ℤ → ℕ → Option Chunk → World → World × FlushResult
  flush_loop master_fd zero chunk w = (w, unfinished)
  flush_loop master_fd (suc fuel) chunk w = elim (flush_step master_fd chunk w) [
    | proceed next w1 ↦ flush_loop master_fd fuel next w1
    | leave r w1 ↦ (w1, r)
  ]

  -- `pty_unix_flush_write_queue`
  unfoldable pub flush_write_queue : ℕ → World → World × FlushResult
  flush_write_queue fuel w = elim w.session.platform [
    | none ↦ (w, failed)
    | some p ↦ if ltb_ℤ p.master_fd (pos 0) then (w, failed) else flush_loop p.master_fd fuel none w
  ]

  -- What follows the unlock in `pty_session_try_write`.
  unfoldable pub after_enqueue :
      WriteResult → Option PtyError → World → World × Option PtyError × WriteResult
  after_enqueue accepted e w = (wake_reactor w, e, accepted)
  after_enqueue error e w = (
    w,
    Errors.set e internal_domain out_of_memory (pos enomem)
        (some (codes "queueing PTY input failed")),
    error,
  )
  after_enqueue r e w = (w, e, r)

  -- `write_backpressured` is raised by a refusal for lack of room.
  unfoldable pub raise : WriteResult → Platform → Platform
  raise backpressured p = record p { write_backpressured = true }
  raise _ p = p

  invalid_write : Option PtyError → Option PtyError
  invalid_write e =
      Errors.set e internal_domain invalid_argument (pos einval)
        (some (codes "invalid PTY input write"))

  -- `pty_session_try_write`: the world, the error that the caller sees, and the result. The flag says
  -- whether the queue gets its memory.
  unfoldable pub try_write :
      Bool
      → ℕ
      → Option (List ℕ)
      → ℕ
      → Option PtyError
      → World
      → World × Option PtyError × WriteResult
  unfolding after_enqueue raise invalid_write
  try_write allocated request_id bytes size out_error w =
      let e = Errors.clear out_error in
      if not (is_some bytes) || size == 0
      then (w, invalid_write e, error)
      else elim w.session.platform [
        | none ↦ (w, e, closed)
        | some p ↦
            let (q, s, r) = try_enqueue allocated p.write_queue w.stats bytes size request_id in
            let w1 = record (put_platform (raise r (record p { write_queue = q })) w) {
              stats = s;
            } in
            if p.stopping || p.input_closed || leb 2 (lifecycle_code w.session.lifecycle)
            then (w, e, closed)
            else after_enqueue r e w1
      ]
