-- ===== src/Unix/Input/Discard.antt =====
-- `discard_pending_writes` of src/unix/pty_unix_session.c.
use flutter_pty.Prelude.{ℕ, zero, suc, ◌<◌, ◌≡◌, refl, ap, ◌∙◌, List, [], ◌∷◌, some, arith, length}
use flutter_pty.Queue.{Chunk, Queue, take_first, complete_chunk}
use flutter_pty.Queue.Invariant.{
  IsValid, dequeue_empty, dequeue_first, take_first-IsValid, complete_chunk-IsValid,
}
use flutter_pty.Unix.World.{World}
use flutter_pty.Unix.Input.{take_chunk, finish_chunk, discard_pending_writes}
use flutter_pty.Unix.Input.Steady.{queue_at}
use flutter_pty.Unix.Input.Flush.{take_chunk-dequeue, finish_chunk-complete_chunk}

-- The queue is empty, and its accounting is exact.
abbrev pub Emptied : World → Type 0
Emptied w = (q : Queue) × (queue_at w ≡ some q) × IsValid q 0 × (q.chunks ≡ [])

-- When a discard starts with exact accounting and no chunk out, it ends, and leaves the queue empty
-- with exact accounting: one round more than there are chunks is enough.
pub discard_pending_writes-Emptied :
    (rounds : ℕ) (w : World) (q : Queue)
    → queue_at w ≡ some q
    → IsValid q 0
    → length q.chunks < rounds
    → Emptied (discard_pending_writes rounds w)
unfolding discard_pending_writes
discard_pending_writes-Emptied zero w q at valid enough = ground arith
discard_pending_writes-Emptied (suc rounds) w q at valid enough =
    taken q.chunks refl (discard_pending_writes-Emptied rounds)
  where
    taken :
        (cs : List Chunk)
        → q.chunks ≡ cs
        → ((v : World) (p : Queue)
            → queue_at v ≡ some p
            → IsValid p 0
            → length p.chunks < rounds
            → Emptied (discard_pending_writes rounds v))
        → Emptied (discard_pending_writes (suc rounds) w)
    taken [] e further =
        let (answer, is_at, log, refs) = take_chunk-dequeue w q at in
        let nothing = dequeue_empty q w.stats valid.live e in
        let same : discard_pending_writes (suc rounds) w ≡ (take_chunk w).0 = ground arith in
        rw same (q, is_at ∙ ap some (ap (λ d. d.0) nothing), valid, e)
    taken (c ∷ cs) e further =
        let (answer, is_at, log, refs) = take_chunk-dequeue w q at in
        let first = dequeue_first q w.stats c cs valid.live e in
        let q1 = (take_first q c cs).0 in
        let c1 = (take_first q c cs).1 in
        let w1 = (take_chunk w).0 in
        let same : discard_pending_writes (suc rounds) w
            ≡ discard_pending_writes rounds (finish_chunk c1 w1) =
          ground arith in
        let (done_at, done_log, done_refs) =
          finish_chunk-complete_chunk c1 w1 q1 (is_at ∙ ap some (ap (λ d. d.0) first)) in
        let (done_valid, left_over) =
          complete_chunk-IsValid q1 w1.stats c1 (take_first-IsValid q c cs valid e) in
        let fewer : suc (length cs) < suc rounds = rw e at enough in
        rw same (
          further (finish_chunk c1 w1) (complete_chunk q1 w1.stats c1).0 done_at done_valid
            (rw left_over (omega arith)))
