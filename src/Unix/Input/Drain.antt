-- ===== src/Unix/Input/Drain.antt =====
-- `pty_unix_flush_write_queue` of src/unix/pty_unix_session.c as a whole.
use flutter_pty.Prelude.{
  ℕ, zero, suc, ◌+◌, ◌*◌, ◌≤◌, ◌<◌, ◌≡◌, ◌≢◌, refl, ap, ◌∙◌, List, [], ◌++◌, Option, none, some,
  ◌⊎◌, inl, inr, arith, length, Bool-cases,
}
use flutter_pty.Prelude.Int.{ℤ, pos, ltb_ℤ}
use flutter_pty.Queue.{Queue}
use flutter_pty.Queue.Invariant.{IsValid}
use flutter_pty.Queue.Consumer.{stream}
use flutter_pty.Unix.World.{Platform, Os, World, Effect, took}
use flutter_pty.Unix.Frames.{written, HasRefs}
use flutter_pty.Queue.{Chunk}
use flutter_pty.Unix.Input.{
  FlushResult, kept, failed, unfinished, FlushStep, proceed, leave, flush_step, flush_loop,
  flush_write_queue,
}
use flutter_pty.Unix.Input.Steady.{queue_at}
use flutter_pty.Unix.Input.Rounds.{flush_step-StepOk}
use flutter_pty.Unix.Input.Flush.{Flushing, left, Calm, cost, StepOk}

-- What `write` documents: it takes no more bytes than it is given.
abbrev pub Bounded : Os → Type 0
Bounded os =
    (log : List Effect) (fd : ℤ) (bytes : List ℕ) (n : ℕ)
    → os.write log fd bytes ≡ took n
    → n ≤ length bytes

-- The queue's accounting is exact, and the bytes written, those dropped and those that still wait
-- are, in this order, the bytes written before and those that waited.
pub record Flushed (before : List ℕ) (r : FlushResult) (w : World) : Type 0 where
  pub queue : Queue
  pub dropped : List ℕ
  pub is_at : queue_at w ≡ some queue
  pub valid : IsValid queue 0
  pub refs : HasRefs w
  pub in_order : written w.log ++ (dropped ++ stream queue.chunks) ≡ before
  pub none_dropped : r ≡ kept → dropped ≡ []

kept≢unfinished : kept ≢ unfinished
kept≢unfinished e = ground arith

failed≢unfinished : failed ≢ unfinished
failed≢unfinished e = ground arith

failed≢kept : failed ≢ kept
failed≢kept e = ground arith

module _ (os : Os) (bounded : Bounded os) where
  flush_loop-Flushed :
      (fd : ℤ) (fuel : ℕ) (chunk : Option Chunk) (w : World) (f : Flushing chunk w)
      → ((flush_loop os fd fuel chunk w).1 ≡ unfinished)
        ⊎ Flushed
            (written w.log ++ left f)
            (flush_loop os fd fuel chunk w).1
            (flush_loop os fd fuel chunk w).0
  unfolding flush_loop StepOk
  flush_loop-Flushed fd zero chunk w f = inl refl
  flush_loop-Flushed fd (suc fuel) chunk w f =
      after (flush_step os fd chunk w) refl (flush_step-StepOk os bounded fd chunk w f)
        (flush_loop-Flushed fd fuel)
    where
      after :
          (s : FlushStep)
          → flush_step os fd chunk w ≡ s
          → StepOk os f s
          → ((next : Option Chunk) (w1 : World) (g : Flushing next w1)
              → ((flush_loop os fd fuel next w1).1 ≡ unfinished)
                ⊎ Flushed
                    (written w1.log ++ left g)
                    (flush_loop os fd fuel next w1).1
                    (flush_loop os fd fuel next w1).0)
          → ((flush_loop os fd (suc fuel) chunk w).1 ≡ unfinished)
            ⊎ Flushed
                (written w.log ++ left f)
                (flush_loop os fd (suc fuel) chunk w).1
                (flush_loop os fd (suc fuel) chunk w).0
      after (proceed next w1) e (g, moves, less) further =
          let same : flush_loop os fd (suc fuel) chunk w ≡ flush_loop os fd fuel next w1 =
            ground arith in
          rw (same, ← moves) (further next w1 g)
      after (leave kept w1) e (g, moves) further =
          let same : flush_loop os fd (suc fuel) chunk w ≡ (w1, kept) = ground arith in
          rw same (
            inr (record {
              queue = g.queue;
              dropped = [];
              is_at = g.is_at;
              valid = g.valid;
              refs = g.refs;
              in_order = moves;
              none_dropped = λ same. refl;
            }))
      after (leave failed w1) e (g, dropped, moves) further =
          let same : flush_loop os fd (suc fuel) chunk w ≡ (w1, failed) = ground arith in
          rw same (
            inr (record {
              queue = g.queue;
              dropped = dropped;
              is_at = g.is_at;
              valid = g.valid;
              refs = g.refs;
              in_order = moves;
              none_dropped = λ same. elim (failed≢kept same) [ ];
            }))
      after (leave unfinished w1) e ok further = elim ok [ ]

  flush_loop-ends :
      (calm : Calm os) (fd : ℤ) (fuel : ℕ) (chunk : Option Chunk) (w : World) (f : Flushing chunk w)
      → cost f < fuel
      → (flush_loop os fd fuel chunk w).1 ≢ unfinished
  unfolding flush_loop StepOk
  flush_loop-ends calm fd zero chunk w f enough = λ e. omega arith
  flush_loop-ends calm fd (suc fuel) chunk w f enough =
      after (flush_step os fd chunk w) refl (flush_step-StepOk os bounded fd chunk w f)
        (flush_loop-ends calm fd fuel)
    where
      after :
          (s : FlushStep)
          → flush_step os fd chunk w ≡ s
          → StepOk os f s
          → ((next : Option Chunk) (w1 : World) (g : Flushing next w1)
              → cost g < fuel
              → (flush_loop os fd fuel next w1).1 ≢ unfinished)
          → (flush_loop os fd (suc fuel) chunk w).1 ≢ unfinished
      after (proceed next w1) e (g, moves, less) further =
          let same : flush_loop os fd (suc fuel) chunk w ≡ flush_loop os fd fuel next w1 =
            ground arith in
          rw same (further next w1 g (omega (arith, less calm)))
      after (leave kept w1) e ok further =
          let same : flush_loop os fd (suc fuel) chunk w ≡ (w1, kept) = ground arith in
          rw same kept≢unfinished
      after (leave failed w1) e ok further =
          let same : flush_loop os fd (suc fuel) chunk w ≡ (w1, failed) = ground arith in
          rw same failed≢unfinished
      after (leave unfinished w1) e ok further = elim ok [ ]

  -- When a flush starts with exact accounting, no chunk out and the caller's reference, `write`
  -- takes no more bytes than it is given, and the flush returns, then the accounting is exact
  -- again, and the bytes written by now, those it dropped and those that still wait are, in this
  -- order, the bytes written before and those that waited. If it returns 1, it dropped none.
  pub flush_write_queue-Flushed :
      (fuel : ℕ) (w : World) (q : Queue)
      → queue_at w ≡ some q
      → IsValid q 0
      → HasRefs w
      → (flush_write_queue os fuel w).1 ≢ unfinished
      → Flushed
          (written w.log ++ stream q.chunks)
          (flush_write_queue os fuel w).1
          (flush_write_queue os fuel w).0
  unfolding flush_write_queue
  flush_write_queue-Flushed fuel w q at valid refs done = on w.session.platform refl
    where
      f : Flushing none w
      f = record { queue = q; is_at = at; valid = valid; holds = tt; refs = refs }

      unmoved : Flushed (written w.log ++ stream q.chunks) failed w
      unmoved = record {
        queue = q;
        dropped = [];
        is_at = at;
        valid = valid;
        refs = refs;
        in_order = refl;
        none_dropped = λ same. refl;
      }

      on :
          (pl : Option Platform)
          → w.session.platform ≡ pl
          → Flushed
              (written w.log ++ stream q.chunks)
              (flush_write_queue os fuel w).1
              (flush_write_queue os fuel w).0
      on none e =
          let same : flush_write_queue os fuel w ≡ (w, failed) = ground arith in rw same unmoved
      on (some p) e = elim (Bool-cases (ltb_ℤ p.master_fd (pos 0))) [
        | inl unset ↦
            let same : flush_write_queue os fuel w ≡ (w, failed) = ground arith in rw same unmoved
        | inr set ↦
            let same : flush_write_queue os fuel w ≡ flush_loop os p.master_fd fuel none w =
              ground arith in
            rw same (elim (flush_loop-Flushed p.master_fd fuel none w f) [
              | inl out ↦ elim (done (ap (λ d. d.1) same ∙ out)) [ ]
              | inr h ↦ h
            ])
      ]

  -- A flush that starts with exact accounting, no chunk out and the caller's reference returns,
  -- when `write` takes no more bytes than it is given and is not interrupted: one round more than
  -- the bytes that wait and twice the chunks that hold them is enough.
  pub flush_write_queue-ends :
      (calm : Calm os) (fuel : ℕ) (w : World) (q : Queue)
      → queue_at w ≡ some q
      → IsValid q 0
      → HasRefs w
      → 2 * length q.chunks + length (stream q.chunks) < fuel
      → (flush_write_queue os fuel w).1 ≢ unfinished
  unfolding flush_write_queue
  flush_write_queue-ends calm fuel w q at valid refs enough = on w.session.platform refl
    where
      f : Flushing none w
      f = record { queue = q; is_at = at; valid = valid; holds = tt; refs = refs }

      on :
          (pl : Option Platform)
          → w.session.platform ≡ pl
          → (flush_write_queue os fuel w).1 ≢ unfinished
      on none e =
          let same : flush_write_queue os fuel w ≡ (w, failed) = ground arith in
          rw same failed≢unfinished
      on (some p) e = elim (Bool-cases (ltb_ℤ p.master_fd (pos 0))) [
        | inl unset ↦
            let same : flush_write_queue os fuel w ≡ (w, failed) = ground arith in
            rw same failed≢unfinished
        | inr set ↦
            let same : flush_write_queue os fuel w ≡ flush_loop os p.master_fd fuel none w =
              ground arith in
            rw same (flush_loop-ends calm p.master_fd fuel none w f (omega arith))
      ]
