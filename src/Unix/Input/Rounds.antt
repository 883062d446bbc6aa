-- ===== src/Unix/Input/Rounds.antt =====
-- The rounds of `pty_unix_flush_write_queue` of src/unix/pty_unix_session.c: `write` and its
-- answers, the next chunk, and the chunk that is written.
use flutter_pty.Prelude.{
  ℕ, zero, suc, ◌+◌, ◌≤◌, ◌<◌, ◌≡◌, refl, ap, sym, subst, ◌∙◌, true, false, List, [], ◌∷◌, ◌++◌,
  Option, none, some, inl, inr, arith, ltb, ◌==◌, length, length-drop, take, drop, drop-drop,
  take_all, append-nil, length-append, Bool-cases,
}
use flutter_pty.Prelude.Int.{ℤ}
use flutter_pty.Prelude.Words.{sub64, add64}
use flutter_pty.Queue.{Chunk, take_first}
use flutter_pty.Queue.Invariant.{
  IsChunk, IsHeld, take_first-IsValid, first-IsHeld, first_small, dequeue_empty, dequeue_first,
}
use flutter_pty.Queue.Consumer.{rest, stream}
use flutter_pty.Queue.Streams.{split_rest}
use flutter_pty.Unix.World.{
  Os, World, Effect, WriteAnswer, took, rejected, wrote, write_failed, did, eintr, eagain,
}
use flutter_pty.Unix.Frames.{written}
use flutter_pty.Unix.Input.{
  kept, failed, unfinished, FlushStep, proceed, leave, take_chunk, put_back, give_up, write_chunk,
  complete_write, flush_step,
}
use flutter_pty.Unix.Input.Flush.{
  Flushing, left, Moves, cost, StepOk, take_chunk-dequeue, put_back-StepOk, give_up-StepOk,
  complete_write-StepOk,
}

module _ (os : Os) where
  -- `bounded` is what `write` documents: it takes no more bytes than it is given.
  module _
      (bounded : (log : List Effect) (fd : ℤ) (bytes : List ℕ) (n : ℕ)
        → os.write log fd bytes ≡ took n
        → n ≤ length bytes) where
    -- What is still to be written of a chunk is what `write` is given.
    given : (c : Chunk) → IsChunk c → take (sub64 c.size c.offset) (rest c) ≡ rest c
    given c k =
        take_all (sub64 c.size c.offset) (rest c)
          (omega (arith, length-drop c.offset c.bytes, k.size_is, k.inside, k.small))

    advanced :
        (n : ℕ) (c : Chunk)
        → IsHeld c
        → n ≤ length (rest c)
        → IsHeld (record c { offset = add64 c.offset n })
    advanced n c k h = record {
      chunk = record {
        size_is = k.chunk.size_is;
        inside =
            omega
              (arith, length-drop c.offset c.bytes, k.chunk.size_is, k.chunk.inside, k.chunk.small);
        small = k.chunk.small;
      };
      covers = omega (
        arith,
        length-drop c.offset c.bytes,
        k.chunk.size_is,
        k.chunk.inside,
        k.chunk.small,
        k.covers,
      );
    }

    -- The same queue and chunk with one more effect in the log.
    logged :
        (a : Effect) (c : Chunk) (w : World) → Flushing (some c) w → Flushing (some c) (did a w)
    logged a c w f = record {
      queue = f.queue;
      is_at = f.is_at;
      valid = f.valid;
      holds = f.holds;
      refs = record { enough = f.refs.enough; small = f.refs.small };
    }

    interrupted {ℓ} :
        {A : Type ℓ} (errno : ℕ) → (errno == eintr) ≡ true → (errno == eintr) ≡ false → A
    interrupted errno e k = ground arith

    from_failed :
        (errno : ℕ) (c : Chunk) (w : World) (f : Flushing (some c) w) (s : FlushStep)
        → StepOk os (logged (write_failed errno) c w f) s
        → StepOk os f s
    unfolding logged StepOk
    from_failed errno c w f (proceed next w1) h = h
    from_failed errno c w f (leave kept w1) h = h
    from_failed errno c w f (leave failed w1) h = h
    from_failed errno c w f (leave unfinished w1) h = h

    moved :
        (n : ℕ) (c : Chunk) (w : World) (f : Flushing (some c) w)
        → n ≤ length (rest c)
        → (g : Flushing
            (some (record c { offset = add64 c.offset n }))
            (did (wrote (take n (rest c))) w))
          × Moves f g
          × (0 < n → cost g < cost f)
    moved n c w f fits = (
      record {
        queue = f.queue;
        is_at = f.is_at;
        valid = f.valid;
        holds = advanced n c f.holds fits;
        refs = record { enough = f.refs.enough; small = f.refs.small };
      },
      rw (next, ← drop-drop c.offset n c.bytes)
          (sym (split_rest n (written w.log) (rest c) (stream f.queue.chunks))),
      λ some_written. omega (
        arith,
        length-append (drop (add64 c.offset n) c.bytes) (stream f.queue.chunks),
        length-append (rest c) (stream f.queue.chunks),
        length-drop (add64 c.offset n) c.bytes,
        length-drop c.offset c.bytes,
        next,
        f.holds.chunk.size_is,
        f.holds.chunk.inside,
      ),
    )
      where
        next : add64 c.offset n ≡ c.offset + n
        next = omega (
          arith,
          length-drop c.offset c.bytes,
          f.holds.chunk.size_is,
          f.holds.chunk.inside,
          f.holds.chunk.small,
        )

    write_chunk-StepOk :
        (fd : ℤ) (c : Chunk) (w : World) (f : Flushing (some c) w)
        → ltb c.offset c.size ≡ true
        → StepOk os f (write_chunk os fd c w)
    unfolding write_chunk StepOk logged give_up
    write_chunk-StepOk fd c w f some_left =
        answered (os.write w.log fd (take (sub64 c.size c.offset) (rest c))) refl
      where
        answered :
            (a : WriteAnswer)
            → os.write w.log fd (take (sub64 c.size c.offset) (rest c)) ≡ a
            → StepOk os f (write_chunk os fd c w)
        answered (took zero) e =
            let same : write_chunk os fd c w ≡ give_up os (os.errno w.log) c (did (wrote []) w) =
              ground arith in
            let (g, dropped, k) =
              give_up-StepOk os (os.errno w.log) c (did (wrote []) w) (logged (wrote []) c w f) in
            rw same (g, dropped, k ∙ ap (λ l. l ++ left f) (append-nil (written w.log)))
        answered (took (suc n)) e =
            let given_it = given c f.holds.chunk in
            let fits : suc n ≤ length (rest c) =
              subst (λ bytes. suc n ≤ length bytes) given_it
                (bounded w.log fd (take (sub64 c.size c.offset) (rest c)) (suc n) e) in
            let c1 : Chunk = record c { offset = add64 c.offset (suc n) } in
            let same : write_chunk os fd c w
                ≡ proceed (some c1) (did (wrote (take (suc n) (rest c))) w) =
              ground arith in
            let (g, k, less) = moved (suc n) c w f fits in
            rw same (g, k, λ calm. less (omega arith))
        answered (rejected errno) e =
            let w1 = did (write_failed errno) w in
            let f1 = logged (write_failed errno) c w f in
            elim (Bool-cases (errno == eintr)) [
              | inl again ↦
                  let same : write_chunk os fd c w ≡ proceed (some c) w1 = ground arith in
                  rw same (f1, refl, λ calm. interrupted errno again (calm w.log fd _ errno e))
              | inr not_again ↦ elim (Bool-cases (errno == eagain)) [
                | inl full ↦
                    let same : write_chunk os fd c w ≡ put_back os c w1 = ground arith in
                    rw same
                      (from_failed errno c w f (put_back os c w1) (put_back-StepOk os c w1 f1))
                | inr broken ↦
                    let same : write_chunk os fd c w ≡ give_up os errno c w1 = ground arith in
                    rw same (
                      from_failed errno c w f (give_up os errno c w1)
                        (give_up-StepOk os errno c w1 f1))
              ]
            ]

    take_chunk-StepOk :
        (fd : ℤ) (w : World) (f : Flushing none w) → StepOk os f (flush_step os fd none w)
    unfolding flush_step StepOk
    take_chunk-StepOk fd w f = fetched f.queue.chunks refl
      where
        fetched : (cs : List Chunk) → f.queue.chunks ≡ cs → StepOk os f (flush_step os fd none w)
        fetched [] e =
            let (answer, is_at, log, refs) = take_chunk-dequeue w f.queue f.is_at in
            let nothing = dequeue_empty f.queue w.stats f.valid.live e in
            let same : flush_step os fd none w ≡ leave kept (take_chunk w).0 = ground arith in
            let g : Flushing none (take_chunk w).0 = record {
              queue = f.queue;
              is_at = is_at ∙ ap some (ap (λ d. d.0) nothing);
              valid = f.valid;
              holds = tt;
              refs = refs f.refs;
            } in
            rw same (g, rw log refl)
        fetched (c ∷ cs) e =
            let (answer, is_at, log, refs) = take_chunk-dequeue w f.queue f.is_at in
            let first = dequeue_first f.queue w.stats c cs f.valid.live e in
            let c1 = (take_first f.queue c cs).1 in
            let same : flush_step os fd none w ≡ proceed (some c1) (take_chunk w).0 =
              ground arith in
            let g : Flushing (some c1) (take_chunk w).0 = record {
              queue = (take_first f.queue c cs).0;
              is_at = is_at ∙ ap some (ap (λ d. d.0) first);
              valid = take_first-IsValid f.queue c cs f.valid e;
              holds = first-IsHeld f.queue c cs (first_small f.valid c cs e).0;
              refs = refs f.refs;
            } in
            rw same (g, rw (log, e) refl, λ calm. rw e (omega arith))

    pub flush_step-StepOk :
        (fd : ℤ) (chunk : Option Chunk) (w : World) (f : Flushing chunk w)
        → StepOk os f (flush_step os fd chunk w)
    unfolding flush_step StepOk
    flush_step-StepOk fd none w f = take_chunk-StepOk fd w f
    flush_step-StepOk fd (some c) w f = elim (Bool-cases (ltb c.offset c.size)) [
      | inl more ↦
          let same : flush_step os fd (some c) w ≡ write_chunk os fd c w = ground arith in
          rw same (write_chunk-StepOk fd c w f more)
      | inr whole ↦
          let same : flush_step os fd (some c) w ≡ proceed none (complete_write os c w) =
            ground arith in
          rw same (complete_write-StepOk os c w f whole)
    ]
