-- ===== src/Queue.antt =====
-- The bounded write queue of src/common/pty_write_queue.c. The chunks that `head`, `next` and
-- `tail` link are a list, first to last; each operation runs between its lock and its unlock. The
-- queue is a field of its session's platform, so its address is never NULL; a chunk is passed by
-- value, and belongs to the queue or to the caller that dequeued it.
pub mod Invariant
pub mod Consumer
pub mod Streams
pub mod History
use flutter_pty.Prelude.{
  ℕ, ◌-◌, Bool, true, false, not, ◌&&◌, ◌||◌, List, [], ◌∷◌, ◌++◌, Option, none, some, ltb, ◌==◌,
  if◌then◌else◌, is_some, take,
}
use flutter_pty.Prelude.Words.{add64, sub64, size_max}
use flutter_pty.Stats.{
  Stats, pending_write_enqueued, pending_write_started, pending_write_requeued,
  pending_write_completed, pending_write_discarded,
}

-- `PtyTryWriteResult`
pub data WriteResult : Type 0 where
  accepted backpressured closed error : WriteResult

-- `PtyWriteChunk`; `size` is its `length`.
pub record Chunk : Type 0 where
  pub bytes : List ℕ
  pub size : ℕ
  pub offset : ℕ
  pub request_id : ℕ
  pub accounted_bytes : ℕ

-- `PtyWriteQueue`
pub record Queue : Type 0 where
  pub chunks : List Chunk
  pub limit : ℕ
  pub queued_bytes : ℕ
  pub inflight_bytes : ℕ
  pub initialized : Bool

unfoldable pub init : ℕ → Queue
init limit = record {
  chunks = [];
  limit = limit;
  queued_bytes = 0;
  inflight_bytes = 0;
  initialized = true;
}

-- The loop of `dispose` over the chunks that it took out.
pub discard_chunks : List Chunk → Stats → Stats
discard_chunks [] s = s
discard_chunks (c ∷ cs) s = discard_chunks cs (pending_write_discarded (sub64 c.size c.offset) s)

unfoldable pub dispose : Queue → Stats → Queue × Stats
dispose q s = if not q.initialized then (q, s) else (
  record q { chunks = []; queued_bytes = 0; initialized = false },
  discard_chunks q.chunks s,
)

-- The test under the lock: the bytes that wait and those in flight leave no room for `size` more.
abbrev pub is_full : Queue → ℕ → Bool
is_full q size =
    ltb q.limit q.queued_bytes
    || ltb (q.limit - q.queued_bytes) q.inflight_bytes
    || ltb (q.limit - q.queued_bytes - q.inflight_bytes) size

abbrev pub new_chunk : List ℕ → ℕ → ℕ → Chunk
new_chunk bytes size request_id = record {
  bytes = take size bytes;
  size = size;
  offset = 0;
  request_id = request_id;
  accounted_bytes = 0;
}

-- What an accepted chunk does to the queue.
abbrev pub append_chunk : Queue → Chunk → Queue
append_chunk q c = record q {
  chunks = q.chunks ++ c ∷ [];
  queued_bytes = add64 q.queued_bytes c.size;
}

-- The flag says whether both calls of `malloc` succeed; `none` is a null pointer.
unfoldable pub try_enqueue :
    Bool → Queue → Stats → Option (List ℕ) → ℕ → ℕ → Queue × Stats × WriteResult
try_enqueue allocated q s bytes size request_id =
    if not q.initialized || (not (size == 0) && not (is_some bytes))
    then (q, s, error)
    else if size == 0
    then (q, s, accepted)
    else if ltb size_max size || ltb q.limit size
    then (q, s, backpressured)
    else if not allocated
    then (q, s, error)
    else elim bytes [
      | none ↦ (q, s, error)
      | some source ↦ if is_full q size then (q, s, backpressured) else (
        append_chunk q (new_chunk source size request_id),
        pending_write_enqueued size s,
        accepted,
      )
    ]

-- What taking the first chunk does to the queue, and the chunk that the caller gets.
abbrev pub take_first : Queue → Chunk → List Chunk → Queue × Chunk
take_first q c cs =
    let remaining = sub64 c.size c.offset in
    (
      record q {
        chunks = cs;
        queued_bytes = sub64 q.queued_bytes remaining;
        inflight_bytes = add64 q.inflight_bytes remaining;
      },
      record c { accounted_bytes = remaining },
    )

unfoldable pub dequeue : Queue → Stats → Queue × Stats × Option Chunk
dequeue q s = if not q.initialized then (q, s, none) else elim q.chunks [
  | [] ↦ (q, s, none)
  | c ∷ cs ↦ (
    (take_first q c cs).0,
    pending_write_started (sub64 c.size c.offset) s,
    some (take_first q c cs).1,
  )
]

-- On acceptance the queue owns the chunk again, else the caller keeps it.
unfoldable pub requeue_front : Queue → Stats → Chunk → Queue × Stats × WriteResult
requeue_front q s c =
    if not q.initialized || ltb c.size c.offset
    then (q, s, error)
    else let remaining = c.size - c.offset in
      if ltb c.accounted_bytes remaining || ltb q.inflight_bytes c.accounted_bytes
      then (q, s, backpressured)
      else (
        record q {
          chunks = record c { accounted_bytes = remaining } ∷ q.chunks;
          inflight_bytes = sub64 q.inflight_bytes c.accounted_bytes;
          queued_bytes = add64 q.queued_bytes remaining;
        },
        pending_write_requeued c.accounted_bytes remaining s,
        accepted,
      )

-- Never more than what is in flight.
abbrev pub clamp : ℕ → ℕ → ℕ
clamp accounted inflight = if ltb inflight accounted then inflight else accounted

-- The chunk is freed.
unfoldable pub complete_chunk : Queue → Stats → Chunk → Queue × Stats
complete_chunk q s c =
    if q.initialized
    then (
      record q {
        inflight_bytes = sub64 q.inflight_bytes (clamp c.accounted_bytes q.inflight_bytes);
      },
      pending_write_completed (clamp c.accounted_bytes q.inflight_bytes) s,
    )
    else (q, pending_write_completed c.accounted_bytes s)

unfoldable pub pending_bytes : Queue → ℕ
pending_bytes q = if not q.initialized then 0 else add64 q.queued_bytes q.inflight_bytes

unfoldable pub queued_bytes : Queue → ℕ
queued_bytes q = if not q.initialized then 0 else q.queued_bytes

unfoldable pub inflight_bytes : Queue → ℕ
inflight_bytes q = if not q.initialized then 0 else q.inflight_bytes
