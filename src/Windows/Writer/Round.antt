-- ===== src/Windows/Writer/Round.antt =====
-- A round of `windows_writer` in src/windows/pty_windows_session.c.
use flutter_pty.Prelude.{
  ℕ, ◌≤◌, ◌<◌, ◌≡◌, refl, ◌∙◌, sym, ap, subst, not, ◌&&◌, ◌||◌, arith, List, [], ◌∷◌, ◌++◌, none,
  some, inl, inr, Bool-cases, length, drop, drop_all, ◌==◌, append-nil,
}
use flutter_pty.Queue.{Chunk, take_first, queued_bytes}
use flutter_pty.Queue.Invariant.{
  AreChunks, total, first_small, take_first-IsValid, dequeue_empty, dequeue_first,
}
use flutter_pty.Queue.Consumer.{stream}
use flutter_pty.Windows.World.{WindowsEffect, WindowsOs, WindowsWorld, took}
use flutter_pty.Windows.Posting.{windows_maybe_post_writable, windows_take_chunk}
use flutter_pty.Windows.Workers.{
  again, leave, sleep, write_bytes, writer_finish, writer_take, writer_round,
}
use flutter_pty.Windows.Kept.{sent}
use flutter_pty.Windows.Writer.{write_bytes-Wrote}
use flutter_pty.Windows.Writer.Finish.{
  AreWhole, Writing, RoundOk, windows_maybe_post_writable-Kept, Taken, Taken-Kept, finish-RoundOk,
}

module _ (os : WindowsOs) where
  -- The queue after the writer took its first chunk.
  take-Taken :
      (w : WindowsWorld) (c : Chunk) (cs : List Chunk)
      → Writing w
      → w.platform.write_queue.chunks ≡ c ∷ cs
      → let c' = (take_first w.platform.write_queue c cs).1 in
        ((windows_take_chunk w).1 ≡ some c')
        × Taken os c' cs (windows_take_chunk w).0
        × (sent (windows_take_chunk w).0.log ≡ sent w.log)
  unfolding windows_take_chunk
  take-Taken w c cs v e =
      let q = w.platform.write_queue in
      let whole : AreWhole (c ∷ cs) = subst AreWhole e v.whole in
      rw (dequeue_first q w.stats c cs v.valid.live e) (
        refl,
        record {
          valid = take_first-IsValid q c cs v.valid e;
          behind = refl;
          whole = whole.1;
          held = record { mine = v.held.mine; owned = v.held.owned; few = v.held.few };
        },
        refl,
      )

  take_nothing :
      (w : WindowsWorld)
      → Writing w
      → w.platform.write_queue.chunks ≡ []
      → windows_take_chunk w ≡ (w, none)
  unfolding windows_take_chunk
  take_nothing w v e = rw (dequeue_empty w.platform.write_queue w.stats v.valid.live e) refl

  module _
      (bounded : (log : List WindowsEffect) (bytes : List ℕ) (n : ℕ)
        → os.write log bytes ≡ took n
        → n ≤ length bytes) where
    taken-RoundOk :
        (fuel : ℕ) (w : WindowsWorld) (c : Chunk) (cs : List Chunk)
        → Writing w
        → w.platform.write_queue.limit < fuel
        → w.platform.write_queue.chunks ≡ c ∷ cs
        → RoundOk w (writer_take os fuel w)
    unfolding writer_take
    taken-RoundOk fuel w c cs v h e =
        let c1 = (take_first w.platform.write_queue c cs).1 in
        let w1 = (windows_take_chunk w).0 in
        let (some_chunk, t, quiet) = take-Taken w c cs v e in
        let (k, ks, queued_is) = first_small v.valid c cs e in
        let whole : AreWhole (c ∷ cs) = subst AreWhole e v.whole in
        let w2 = windows_maybe_post_writable os w1 in
        let (kept, held) = windows_maybe_post_writable-Kept os w1 t.held in
        let t2 = Taken-Kept os {c = c1} {cs = cs} {w = w1} {w' = w2} t kept held in
        let same : writer_take os fuel w ≡ writer_finish os fuel c1 (write_bytes os fuel c1 0 w2) =
          rw (some_chunk, writer_take) refl in
        let front : stream w.platform.write_queue.chunks ≡ c1.bytes ++ stream cs =
          ap stream e ∙ ap (λ n. drop n c.bytes ++ stream cs) whole.0 in
        rw same (
          finish-RoundOk os fuel c1 cs w w2 (write_bytes os fuel c1 0 w2) k.size_is
            (kept.quiet ∙ quiet) front t2
            (write_bytes-Wrote os bounded fuel c1 0 w2 k.size_is
              (omega (arith, queued_is, whole.0, v.valid.within))))

    writer_take-RoundOk :
        (fuel : ℕ) (w : WindowsWorld)
        → Writing w
        → w.platform.write_queue.limit < fuel
        → RoundOk w (writer_take os fuel w)
    unfolding writer_take RoundOk
    writer_take-RoundOk fuel w v h = at w.platform.write_queue.chunks refl
      where
        at :
            (chunks : List Chunk)
            → w.platform.write_queue.chunks ≡ chunks
            → RoundOk w (writer_take os fuel w)
        at [] e =
            let same : writer_take os fuel w ≡ again w =
              rw (ap (λ r. r.1) (take_nothing w v e), writer_take)
                (ap (λ r. again r.0) (take_nothing w v e)) in
            rw same (v, refl)
        at (c ∷ cs) e = taken-RoundOk fuel w c cs v h e

    nothing_waits : (cs : List Chunk) → AreChunks cs → total cs ≡ 0 → stream cs ≡ []
    nothing_waits [] k e = refl
    nothing_waits (c ∷ cs) k e =
        let front : drop c.offset c.bytes ≡ [] =
          drop_all c.offset c.bytes (omega (arith, k.0.size_is, k.0.inside)) in
        rw front (nothing_waits cs k.1 (omega arith))

    -- A round of the writer whose fuel exceeds the queue's limit never runs out of it, for a `WriteFile`
    -- that takes no more than it is given. A round that goes on keeps the queue's accounting and the
    -- references, and what was sent and what waits are together the same bytes in the same order. A
    -- round that leaves has sent a part of what waited, in order, and one that sleeps had nothing to
    -- send.
    pub writer_round-RoundOk :
        (fuel : ℕ) (w : WindowsWorld)
        → Writing w
        → w.platform.write_queue.limit < fuel
        → RoundOk w (writer_round os fuel w)
    unfolding writer_round RoundOk queued_bytes
    writer_round-RoundOk fuel w v h =
        let p = w.platform in
        let queue_empty = queued_bytes p.write_queue == 0 in
        elim (Bool-cases (not p.stopping && not w.session.process_exited && queue_empty)) [
          | inl e ↦
              let same : writer_round os fuel w ≡ sleep = ground arith in
              rw same (
                nothing_waits p.write_queue.chunks v.valid.chunks_valid
                  (ground (arith, v.valid.queued_exact, v.valid.live)))
          | inr e ↦ elim (Bool-cases (p.stopping || (w.session.process_exited && queue_empty))) [
            | inl f ↦
                let same : writer_round os fuel w ≡ leave w = ground arith in
                rw same (0, sym (append-nil (sent w.log)))
            | inr f ↦
                let same : writer_round os fuel w ≡ writer_take os fuel w = ground arith in
                rw same (writer_take-RoundOk fuel w v h)
          ]
        ]
