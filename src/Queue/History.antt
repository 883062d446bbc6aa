-- ===== src/Queue/History.antt =====
-- The invariant of the write queue of src/common/pty_write_queue.c along its histories.
use flutter_pty.Prelude.{
  ℕ, ◌<◌, ◌≡◌, refl, sym, ◌∙◌, Bool, List, [], ◌∷◌, ◌++◌, Option, none, some, arith, ◌==◌, length,
  drop-drop, append_assoc, ltb, Bool-cases, inl, inr,
}
use flutter_pty.Prelude.Words.{u64_mod}
use flutter_pty.Stats.{Stats}
use flutter_pty.Queue.{Chunk, init, try_enqueue}
use flutter_pty.Queue.Invariant.{
  IsValid, remaining, init-IsValid, try_enqueue-IsValid, take_first-IsValid, first-IsHeld,
  first_small, dequeue_empty, dequeue_first, requeue_front-accepted, complete_chunk-IsValid,
}
use flutter_pty.Queue.Consumer.{
  System, Op, offer, fetch, write, give_back, finish, is_accepted, rest, stream, ids, held_chunks,
  ticket, do_offer, do_fetch, advance, do_write, do_give_back, do_finish, step, run, start,
  accounted, MayHold, Inv,
}
use flutter_pty.Queue.Streams.{
  stream-offered_chunks, ids-offered_chunks, split_rest, rest_written, try_enqueue_grown,
  try_enqueue_kept,
}

start-Inv : (limit : ℕ) (s : Stats) → limit < u64_mod → Inv (start limit s)
unfolding start init
start-Inv limit s h = record {
  valid = unfold init in init-IsValid limit h;
  holds = tt;
  bytes_kept = refl;
  ids_kept = refl;
}

module _ (y : System) (inv : Inv y) where
  do_offer-Inv : (a : Bool) (bytes : List ℕ) (id : ℕ) → Inv (do_offer a bytes id y)
  unfolding do_offer
  do_offer-Inv a bytes id =
      elim (Bool-cases
        (is_accepted (try_enqueue a y.queue y.stats (some bytes) (length bytes) id).2)) [
          | inl e ↦ rw e (record {
            valid = valid;
            holds = inv.holds;
            bytes_kept =
                rw
                  (
                    try_enqueue_grown a y.queue y.stats id bytes e,
                    stream-offered_chunks hs y.queue.chunks bytes id,
                    inv.bytes_kept,
                  )
                  (append_assoc y.sent (stream (hs ++ y.queue.chunks)) bytes);
            ids_kept =
                rw
                  (
                    try_enqueue_grown a y.queue y.stats id bytes e,
                    ids-offered_chunks hs y.queue.chunks bytes id,
                    inv.ids_kept,
                  )
                  (append_assoc y.finished (ids (hs ++ y.queue.chunks)) (ticket bytes id));
          })
          | inr e ↦ rw e (record {
            valid = valid;
            holds = inv.holds;
            bytes_kept = rw (try_enqueue_kept a y.queue y.stats id bytes e) inv.bytes_kept;
            ids_kept = rw (try_enqueue_kept a y.queue y.stats id bytes e) inv.ids_kept;
          })
        ]
    where
      hs : List Chunk
      hs = held_chunks y.held

      valid :
          IsValid
            (try_enqueue a y.queue y.stats (some bytes) (length bytes) id).0
            (accounted y.held)
      valid =
          try_enqueue-IsValid a y.queue y.stats bytes (length bytes) id _ inv.valid (omega arith)

  -- The invariant where the consumer's chunk is known.
  record At (h : Option Chunk) : Type 0 where
    valid : IsValid y.queue (accounted h)
    holds : MayHold h
    bytes_kept : y.offered ≡ y.sent ++ stream (held_chunks h ++ y.queue.chunks)
    ids_kept : y.tickets ≡ y.finished ++ ids (held_chunks h ++ y.queue.chunks)

  at : (h : Option Chunk) → y.held ≡ h → At h
  at h e = record {
    valid = rw e at inv.valid;
    holds = rw e at inv.holds;
    bytes_kept = rw e at inv.bytes_kept;
    ids_kept = rw e at inv.ids_kept;
  }

  do_fetch-Inv : (h : Option Chunk) → y.held ≡ h → Inv (do_fetch h y)
  unfolding do_fetch
  do_fetch-Inv none e = fetched y.queue.chunks refl
    where
      now : At none
      now = at none e

      fetched : (cs : List Chunk) → y.queue.chunks ≡ cs → Inv (do_fetch none y)
      fetched [] k = rw (dequeue_empty y.queue y.stats now.valid.live k) (record {
        valid = now.valid;
        holds = tt;
        bytes_kept = now.bytes_kept;
        ids_kept = now.ids_kept;
      })
      fetched (c ∷ cs) k = rw (dequeue_first y.queue y.stats c cs now.valid.live k) (record {
        valid = take_first-IsValid y.queue c cs now.valid k;
        holds = first-IsHeld y.queue c cs (first_small now.valid c cs k).0;
        bytes_kept = rw k at now.bytes_kept;
        ids_kept = rw k at now.ids_kept;
      })
  do_fetch-Inv (some c) e = inv

  do_write-Inv : (n : ℕ) (h : Option Chunk) → y.held ≡ h → Inv (do_write n h y)
  unfolding do_write advance
  do_write-Inv n none e = inv
  do_write-Inv n (some c) e = elim (Bool-cases (ltb (remaining c) n)) [
    | inl over ↦ rw over inv
    | inr fits ↦ rw fits (record {
      valid = now.valid;
      holds = record {
        chunk = record {
          size_is = now.holds.chunk.size_is;
          inside = ground (arith, now.holds.chunk.inside);
          small = now.holds.chunk.small;
        };
        covers = ground (arith, now.holds.covers);
      };
      bytes_kept =
          rw (now.bytes_kept, ← drop-drop c.offset n c.bytes)
            (split_rest n y.sent (rest c) (stream y.queue.chunks));
      ids_kept = now.ids_kept;
    })
  ]
    where
      now : At (some c)
      now = at (some c) e

  do_give_back-Inv : (h : Option Chunk) → y.held ≡ h → Inv (do_give_back h y)
  unfolding do_give_back
  do_give_back-Inv none e = inv
  do_give_back-Inv (some c) e =
      let now : At (some c) = at (some c) e in
      let (ok, valid, front) = requeue_front-accepted y.queue y.stats c now.valid now.holds in
      rw ok (record {
        valid = valid;
        holds = tt;
        bytes_kept = rw front now.bytes_kept;
        ids_kept = rw front now.ids_kept;
      })

  do_finish-Inv : (h : Option Chunk) → y.held ≡ h → Inv (do_finish h y)
  unfolding do_finish
  do_finish-Inv none e = inv
  do_finish-Inv (some c) e = elim (Bool-cases (c.offset == c.size)) [
    | inl whole ↦
        let now : At (some c) = at (some c) e in
        let (valid, same) = complete_chunk-IsValid y.queue y.stats c now.valid in
        rw whole (record {
          valid = valid;
          holds = tt;
          bytes_kept = rw same (rw (rest_written now.holds whole) at now.bytes_kept);
          ids_kept = rw same (
              now.ids_kept
              ∙ sym (append_assoc y.finished (c.request_id ∷ []) (ids y.queue.chunks)));
        })
    | inr part ↦ rw part inv
  ]

step-Inv : (o : Op) (y : System) → Inv y → Inv (step o y)
unfolding step
step-Inv (offer a bytes id) y inv = do_offer-Inv y inv a bytes id
step-Inv fetch y inv = do_fetch-Inv y inv y.held refl
step-Inv (write n) y inv = do_write-Inv y inv n y.held refl
step-Inv give_back y inv = do_give_back-Inv y inv y.held refl
step-Inv finish y inv = do_finish-Inv y inv y.held refl

run-Inv : (os : List Op) (y : System) → Inv y → Inv (run os y)
unfolding run
run-Inv [] y inv = inv
run-Inv (o ∷ os) y inv = run-Inv os (step o y) (step-Inv o y inv)

-- After any history of a new queue with a limit that fits its word, the counters are exact and
-- within the limit, and the accepted bytes are those written, then those the consumer holds, then
-- those that wait, in the order of the writes: none is lost, repeated or moved. The request ids of
-- the completed writes, of the one held and of those that wait are in the same way those of the
-- accepted writes.
pub run-start-Inv :
    (os : List Op) (limit : ℕ) (s : Stats) → limit < u64_mod → Inv (run os (start limit s))
run-start-Inv os limit s h = run-Inv os (start limit s) (start-Inv limit s h)
