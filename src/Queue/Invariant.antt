-- ===== src/Queue/Invariant.antt =====
-- The byte accounting of the write queue of src/common/pty_write_queue.c, for one consumer that
-- holds at most one dequeued chunk.
use flutter_pty.Prelude.{
  ℕ, ◌+◌, ◌-◌, ◌≤◌, ◌<◌, ◌≡◌, ap, subst, ◌∙◌, Bool, true, false, List, [], ◌∷◌, ◌++◌, Option, none,
  some, ◌↔◌, ◌≢◌, arith, length, length-take,
}
use flutter_pty.Prelude.Words.{u64_mod, sub64}
use flutter_pty.Stats.{Stats, pending_write_started}
use flutter_pty.Queue.{
  Chunk, Queue, accepted, init, is_full, new_chunk, append_chunk, take_first, try_enqueue, dequeue,
  requeue_front, complete_chunk, pending_bytes,
}

-- A chunk holds the bytes that it says, and the offset lies inside.
pub record IsChunk (c : Chunk) : Type 0 where
  pub size_is : c.size ≡ length c.bytes
  pub inside : c.offset ≤ c.size
  pub small : c.size < u64_mod

abbrev pub remaining : Chunk → ℕ
remaining c = c.size - c.offset

abbrev pub total : List Chunk → ℕ
total [] = 0
total (c ∷ cs) = remaining c + total cs

abbrev pub AreChunks : List Chunk → Type 0
AreChunks [] = Unit {0}
AreChunks (c ∷ cs) = IsChunk c × AreChunks cs

-- The counters of a live queue are exact, `held` being what the consumer's chunk accounts for,
-- and together they keep to the limit.
pub record IsValid (q : Queue) (held : ℕ) : Type 0 where
  pub live : q.initialized ≡ true
  pub bounded : q.limit < u64_mod
  pub chunks_valid : AreChunks q.chunks
  pub queued_exact : q.queued_bytes ≡ total q.chunks
  pub inflight_exact : q.inflight_bytes ≡ held
  pub within : q.queued_bytes + q.inflight_bytes ≤ q.limit

pub init-IsValid : (limit : ℕ) → limit < u64_mod → IsValid (init limit) 0
unfolding init
init-IsValid limit h = ground arith

total-append : (xs ys : List Chunk) → total (xs ++ ys) ≡ total xs + total ys
total-append [] ys = omega arith
total-append (x ∷ xs) ys = omega (arith, total-append xs ys)

AreChunks-append : (xs ys : List Chunk) → AreChunks xs → AreChunks ys → AreChunks (xs ++ ys)
AreChunks-append [] ys h k = k
AreChunks-append (x ∷ xs) ys h k = (h.0, AreChunks-append xs ys h.1 k)

new_chunk-IsChunk :
    (bytes : List ℕ) (size id : ℕ)
    → size ≤ length bytes
    → size < u64_mod
    → IsChunk (new_chunk bytes size id)
new_chunk-IsChunk bytes size id h k = record {
  size_is = omega (arith, length-take size bytes);
  inside = omega arith;
  small = k;
}

append_chunk-IsValid :
    (q : Queue) (held : ℕ) (source : List ℕ) (size id : ℕ)
    → IsValid q held
    → size ≤ length source
    → is_full q size ≡ false
    → IsValid (append_chunk q (new_chunk source size id)) held
append_chunk-IsValid q held source size id v h room = record {
  live = v.live;
  bounded = v.bounded;
  chunks_valid =
      AreChunks-append q.chunks _ v.chunks_valid
        (new_chunk-IsChunk source size id h (ground arith), tt);
  queued_exact = ground (arith, total-append q.chunks (new_chunk source size id ∷ []));
  inflight_exact = v.inflight_exact;
  within = ground arith;
}

-- On a queue with exact accounting, a write of no more bytes than its source has keeps the
-- accounting exact and within the limit, whatever it returns.
pub try_enqueue-IsValid :
    (a : Bool) (q : Queue) (s : Stats) (source : List ℕ) (size id held : ℕ)
    → IsValid q held
    → size ≤ length source
    → IsValid (try_enqueue a q s (some source) size id).0 held
unfolding try_enqueue
try_enqueue-IsValid a q s source size id held v h =
    ground (arith, append_chunk-IsValid q held source size id v h)

-- On a queue with exact accounting and with memory at hand, a write of at least one byte is
-- accepted exactly when the bytes that wait, those in flight and its own fit into the limit
-- together.
pub try_enqueue-accepted :
    (q : Queue) (s : Stats) (source : List ℕ) (size id held : ℕ)
    → IsValid q held
    → 0 < size
    → ((try_enqueue true q s (some source) size id).2 ≡ accepted)
      ↔ (total q.chunks + held + size ≤ q.limit)
unfolding try_enqueue
try_enqueue-accepted q s source size id held v h = (λ e. ground arith, λ fits. ground arith)

-- A write that is refused leaves the queue and the counters as they were.
pub try_enqueue_refused :
    (a : Bool) (q : Queue) (s : Stats) (bytes : Option (List ℕ)) (size id : ℕ)
    → (try_enqueue a q s bytes size id).2 ≢ accepted
    → (try_enqueue a q s bytes size id).0 ≡ q
unfolding try_enqueue
try_enqueue_refused a q s bytes size id h = ground arith

-- What the consumer's chunk satisfies: `dequeue` accounted for at least what is left of it.
pub record IsHeld (c : Chunk) : Type 0 where
  pub chunk : IsChunk c
  pub covers : remaining c ≤ c.accounted_bytes

pub first-IsHeld :
    (q : Queue) (c : Chunk) (cs : List Chunk) → IsChunk c → IsHeld (take_first q c cs).1
first-IsHeld q c cs k = record {
  chunk = record { size_is = k.size_is; inside = k.inside; small = k.small };
  covers = omega (arith, k.inside, k.small);
}

pub first_small :
    {q : Queue} {held : ℕ}
    → IsValid q held
    → (c : Chunk) (cs : List Chunk) → q.chunks ≡ c ∷ cs
    → IsChunk c × AreChunks cs × (q.queued_bytes ≡ remaining c + total cs)
first_small {q} v c cs e = (valid.0, valid.1, v.queued_exact ∙ ap total e)
  where
    valid : AreChunks (c ∷ cs)
    valid = subst AreChunks e v.chunks_valid

-- Taking a chunk out moves exactly its remaining bytes from the queued to the in-flight side.
pub take_first-IsValid :
    (q : Queue) (c : Chunk) (cs : List Chunk)
    → IsValid q 0
    → q.chunks ≡ c ∷ cs
    → IsValid (take_first q c cs).0 (take_first q c cs).1.accounted_bytes
take_first-IsValid q c cs v e =
    let (k, ks, total_is) = first_small v c cs e in
    record {
      live = v.live;
      bounded = v.bounded;
      chunks_valid = ks;
      queued_exact = omega (arith, k.inside, k.small);
      inflight_exact = omega (arith, k.inside, k.small);
      within = omega (arith, k.inside, k.small);
    }

pub dequeue_empty :
    (q : Queue) (s : Stats) → q.initialized ≡ true → q.chunks ≡ [] → dequeue q s ≡ (q, s, none)
unfolding dequeue
dequeue_empty q s live e = ground arith

pub dequeue_first :
    (q : Queue) (s : Stats) (c : Chunk) (cs : List Chunk)
    → q.initialized ≡ true
    → q.chunks ≡ c ∷ cs
    → dequeue q s ≡ (
      (take_first q c cs).0,
      pending_write_started (sub64 c.size c.offset) s,
      some (take_first q c cs).1,
    )
unfolding dequeue
dequeue_first q s c cs live e = ground arith

-- When the accounting is exact for a chunk that its consumer holds and may have advanced, giving it
-- back is accepted, puts it first with all that is left of it, and leaves exact accounting with no
-- chunk out.
pub requeue_front-accepted :
    (q : Queue) (s : Stats) (c : Chunk)
    → IsValid q c.accounted_bytes
    → IsHeld c
    → ((requeue_front q s c).2 ≡ accepted)
      × IsValid (requeue_front q s c).0 0
      × ((requeue_front q s c).0.chunks ≡ record c { accounted_bytes = remaining c } ∷ q.chunks)
unfolding requeue_front
requeue_front-accepted q s c v h = (ground arith, ground arith, ground arith)

-- When the accounting is exact for the chunk that the consumer holds, completing it leaves exact
-- accounting with no chunk out, and the waiting chunks as they were.
pub complete_chunk-IsValid :
    (q : Queue) (s : Stats) (c : Chunk)
    → IsValid q c.accounted_bytes
    → IsValid (complete_chunk q s c).0 0 × ((complete_chunk q s c).0.chunks ≡ q.chunks)
unfolding complete_chunk
complete_chunk-IsValid q s c v = (ground arith, ground arith)

-- On a queue with exact accounting, the pending bytes that it reports are those of its chunks and
-- those accounted for the consumer's.
pub pending_bytes-exact :
    (q : Queue) (held : ℕ) → IsValid q held → pending_bytes q ≡ total q.chunks + held
unfolding pending_bytes
pending_bytes-exact q held v = ground arith
