-- ===== src/Unix/Input/Flush.antt =====
-- The state of `pty_unix_flush_write_queue` of src/unix/pty_unix_session.c between two rounds, and the
-- ways in which a round leaves a chunk.
use flutter_pty.Prelude.{
  ℕ, ◌+◌, ◌*◌, ◌<◌, ◌≡◌, refl, ◌∙◌, true, false, List, ◌++◌, Option, none, some, arith, ltb, ◌==◌,
  length,
}
use flutter_pty.Prelude.Int.{ℤ}
use flutter_pty.Queue.{Chunk, Queue, dequeue, requeue_front, complete_chunk}
use flutter_pty.Queue.Invariant.{IsValid, requeue_front-accepted, complete_chunk-IsValid}
use flutter_pty.Queue.Consumer.{rest, stream, held_chunks, accounted, MayHold}
use flutter_pty.Queue.Streams.{rest_written}
use flutter_pty.Unix.World.{Os, World, Effect, rejected, eintr}
use flutter_pty.Unix.Close.{post_session_event}
use flutter_pty.Events.{write_complete}
use flutter_pty.Unix.Frames.{written, HasRefs}
use flutter_pty.Unix.Input.{
  kept, failed, unfinished, FlushStep, proceed, leave, take_chunk, finish_chunk, return_chunk,
  maybe_post_writable, put_back, give_up, complete_write,
}
use flutter_pty.Unix.Input.Steady.{
  queue_at, Steady, post-Steady, maybe_post_writable-Steady, mark_input_closed-Steady,
}

-- The reactor holds `chunk`, if any, and the queue's accounting is exact.
pub record Flushing (chunk : Option Chunk) (w : World) : Type 0 where
  pub queue : Queue
  pub is_at : queue_at w ≡ some queue
  pub valid : IsValid queue (accounted chunk)
  pub holds : MayHold chunk
  pub refs : HasRefs w

-- The bytes that have not been written.
abbrev pub left : {chunk : Option Chunk} {w : World} → Flushing chunk w → List ℕ
left {chunk} f = stream (held_chunks chunk ++ f.queue.chunks)

-- From `w` to `w1` the bytes written so far and the bytes left stay the same together.
abbrev pub Moves :
    {chunk next : Option Chunk} {w w1 : World} → Flushing chunk w → Flushing next w1 → Type 0
Moves {w} {w1} f g = written w1.log ++ left g ≡ written w.log ++ left f

Steady-Flushing :
    {chunk : Option Chunk} {w w1 : World} → Steady w w1 → Flushing chunk w → Flushing chunk w1
Steady-Flushing s f = record {
  queue = f.queue;
  is_at = s.queue_kept ∙ f.is_at;
  valid = f.valid;
  holds = f.holds;
  refs = s.refs;
}

-- The three operations on the queue of the platform.
pub take_chunk-dequeue :
    (w : World) (q : Queue)
    → queue_at w ≡ some q
    → ((take_chunk w).1 ≡ (dequeue q w.stats).2)
      × (queue_at (take_chunk w).0 ≡ some (dequeue q w.stats).0)
      × ((take_chunk w).0.log ≡ w.log)
      × (HasRefs w → HasRefs (take_chunk w).0)
unfolding take_chunk
take_chunk-dequeue w q e = (ground arith, ground arith, ground arith, λ r. ground arith)

pub finish_chunk-complete_chunk :
    (c : Chunk) (w : World) (q : Queue)
    → queue_at w ≡ some q
    → (queue_at (finish_chunk c w) ≡ some (complete_chunk q w.stats c).0)
      × ((finish_chunk c w).log ≡ w.log)
      × (HasRefs w → HasRefs (finish_chunk c w))
unfolding finish_chunk
finish_chunk-complete_chunk c w q e = (ground arith, ground arith, λ r. ground arith)

return_chunk-requeue :
    (c : Chunk) (w : World) (q : Queue)
    → queue_at w ≡ some q
    → ((return_chunk c w).1 ≡ (requeue_front q w.stats c).2)
      × (queue_at (return_chunk c w).0 ≡ some (requeue_front q w.stats c).0)
      × ((return_chunk c w).0.log ≡ w.log)
      × (HasRefs w → HasRefs (return_chunk c w).0)
unfolding return_chunk
return_chunk-requeue c w q e = (ground arith, ground arith, ground arith, λ r. ground arith)

-- `write` does not answer EINTR.
abbrev pub Calm : Os → Type 0
Calm os =
    (log : List Effect) (fd : ℤ) (bytes : List ℕ) (errno : ℕ)
    → os.write log fd bytes ≡ rejected errno
    → (errno == eintr) ≡ false

-- What the loop has still to do, in rounds.
abbrev pub cost : {chunk : Option Chunk} {w : World} → Flushing chunk w → ℕ
cost {chunk} f = length (held_chunks chunk) + 2 * length f.queue.chunks + length (left f)

-- What a round may lead to.
unfoldable pub StepOk :
    {chunk : Option Chunk} {w : World} → Os → Flushing chunk w → FlushStep → Type 0
StepOk os f (proceed next w1) = (g : Flushing next w1) × Moves f g × (Calm os → cost g < cost f)
StepOk os f (leave kept w1) = (g : Flushing none w1) × Moves f g
StepOk {w} os f (leave failed w1) =
    (g : Flushing none w1) × (dropped : List ℕ) × (written w1.log ++ (dropped ++ left g)
      ≡ written w.log ++ left f)
StepOk os f (leave unfinished w1) = ⊥

module _ (os : Os) where
  -- The chunk is taken back by the queue with all that is left of it.
  pub put_back-StepOk :
      (c : Chunk) (w : World) (f : Flushing (some c) w) → StepOk os f (put_back os c w)
  unfolding put_back StepOk Steady-Flushing
  put_back-StepOk c w f =
      let (result, is_at, log, refs) = return_chunk-requeue c w f.queue f.is_at in
      let (ok, valid, front) = requeue_front-accepted f.queue w.stats c f.valid f.holds in
      let back : Flushing none (return_chunk c w).0 = record {
        queue = (requeue_front f.queue w.stats c).0;
        is_at = is_at;
        valid = valid;
        holds = tt;
        refs = refs f.refs;
      } in
      let s = maybe_post_writable-Steady os (return_chunk c w).0 back.refs in
      let same : put_back os c w ≡ leave kept (maybe_post_writable os (return_chunk c w).0) =
        ground arith in
      rw same (Steady-Flushing s back, rw (s.nothing_written, log, front) refl)

  finished : (c : Chunk) (w : World) → Flushing (some c) w → Flushing none (finish_chunk c w)
  finished c w f =
      let (is_at, log, refs) = finish_chunk-complete_chunk c w f.queue f.is_at in
      record {
        queue = (complete_chunk f.queue w.stats c).0;
        is_at = is_at;
        valid = (complete_chunk-IsValid f.queue w.stats c f.valid).0;
        holds = tt;
        refs = refs f.refs;
      }

  pub give_up-StepOk :
      (errno : ℕ) (c : Chunk) (w : World) (f : Flushing (some c) w)
      → StepOk os f (give_up os errno c w)
  unfolding give_up StepOk Steady-Flushing finished
  give_up-StepOk errno c w f =
      let g = finished c w f in
      let s = mark_input_closed-Steady os _ (finish_chunk c w) g.refs in
      (
        Steady-Flushing s g,
        rest c,
        rw
            (
              s.nothing_written,
              (finish_chunk-complete_chunk c w f.queue f.is_at).1,
              (complete_chunk-IsValid f.queue w.stats c f.valid).1,
            )
            refl,
      )

  pub complete_write-StepOk :
      (c : Chunk) (w : World) (f : Flushing (some c) w)
      → ltb c.offset c.size ≡ false
      → (g : Flushing none (complete_write os c w)) × Moves f g × (Calm os → cost g < cost f)
  unfolding complete_write Steady-Flushing finished
  complete_write-StepOk c w f whole = (
    Steady-Flushing s2 g,
    rw
        (
          s2.nothing_written,
          (finish_chunk-complete_chunk c w1 f.queue f1.is_at).1,
          s1.nothing_written,
          (complete_chunk-IsValid f.queue w1.stats c f.valid).1,
          rest_written f.holds all_written,
        )
        refl,
    λ calm.
        rw ((complete_chunk-IsValid f.queue w1.stats c f.valid).1, rest_written f.holds all_written)
          (omega arith),
  )
    where
      w1 : World
      w1 = (post_session_event os (write_complete c.request_id) w).0

      s1 : Steady w w1
      s1 = post-Steady os (write_complete c.request_id) w f.refs

      f1 : Flushing (some c) w1
      f1 = Steady-Flushing s1 f

      g : Flushing none (finish_chunk c w1)
      g = finished c w1 f1

      s2 : Steady (finish_chunk c w1) (complete_write os c w)
      s2 = maybe_post_writable-Steady os (finish_chunk c w1) g.refs

      all_written : (c.offset == c.size) ≡ true
      all_written = ground (arith, f.holds.chunk.inside)
