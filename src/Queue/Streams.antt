-- ===== src/Queue/Streams.antt =====
-- The bytes and the request ids of a list of chunks of src/common/pty_write_queue.c.
use flutter_pty.Prelude.{
  ℕ, ◌≡◌, refl, sym, Bool, true, false, List, [], ◌∷◌, ◌++◌, some, arith, ◌==◌, length, take, drop,
  take_all, drop_all, take-append-drop, append_assoc, append-nil,
}
use flutter_pty.Stats.{Stats}
use flutter_pty.Queue.{Chunk, Queue, new_chunk, try_enqueue}
use flutter_pty.Queue.Invariant.{IsHeld}
use flutter_pty.Queue.Consumer.{is_accepted, rest, stream, ids, ticket}

pub stream-append : (xs ys : List Chunk) → stream (xs ++ ys) ≡ stream xs ++ stream ys
stream-append [] ys = refl
stream-append (x ∷ xs) ys = simp (stream-append xs ys, append_assoc)

pub ids-append : (xs ys : List Chunk) → ids (xs ++ ys) ≡ ids xs ++ ids ys
ids-append [] ys = refl
ids-append (x ∷ xs) ys = rw (ids-append xs ys)

pub stream_offer :
    (hs cs : List Chunk) (bytes : List ℕ) (id : ℕ)
    → stream (hs ++ (cs ++ new_chunk bytes (length bytes) id ∷ [])) ≡ stream (hs ++ cs) ++ bytes
stream_offer hs cs bytes id =
    let whole : take (length bytes) bytes ≡ bytes = take_all (length bytes) bytes (omega arith) in
    simp (stream-append, append_assoc, append-nil, whole)

pub ids_offer :
    (hs cs : List Chunk) (bytes : List ℕ) (id : ℕ)
    → ids (hs ++ (cs ++ new_chunk bytes (length bytes) id ∷ [])) ≡ ids (hs ++ cs) ++ id ∷ []
ids_offer hs cs bytes id = simp (ids-append, append_assoc)

-- What an accepted write leaves behind: a write of no bytes leaves no chunk.
abbrev pub offered_chunks : List Chunk → List ℕ → ℕ → List Chunk
offered_chunks cs [] id = cs
offered_chunks cs (b ∷ bs) id = cs ++ new_chunk (b ∷ bs) (length (b ∷ bs)) id ∷ []

pub stream-offered_chunks :
    (hs cs : List Chunk) (bytes : List ℕ) (id : ℕ)
    → stream (hs ++ offered_chunks cs bytes id) ≡ stream (hs ++ cs) ++ bytes
stream-offered_chunks hs cs [] id = sym (append-nil (stream (hs ++ cs)))
stream-offered_chunks hs cs (b ∷ bs) id = stream_offer hs cs (b ∷ bs) id

pub ids-offered_chunks :
    (hs cs : List Chunk) (bytes : List ℕ) (id : ℕ)
    → ids (hs ++ offered_chunks cs bytes id) ≡ ids (hs ++ cs) ++ ticket bytes id
ids-offered_chunks hs cs [] id = sym (append-nil (ids (hs ++ cs)))
ids-offered_chunks hs cs (b ∷ bs) id = ids_offer hs cs (b ∷ bs) id

pub split_rest :
    (n : ℕ) (xs ys zs : List ℕ) → xs ++ (ys ++ zs) ≡ (xs ++ take n ys) ++ (drop n ys ++ zs)
split_rest n xs ys zs = rw (
  append_assoc xs (take n ys) (drop n ys ++ zs),
  ← append_assoc (take n ys) (drop n ys) zs,
  take-append-drop n ys,
)

module _ (a : Bool) (q : Queue) (s : Stats) (id : ℕ) where
  pub try_enqueue_grown :
      (bytes : List ℕ)
      → is_accepted (try_enqueue a q s (some bytes) (length bytes) id).2 ≡ true
      → (try_enqueue a q s (some bytes) (length bytes) id).0.chunks
        ≡ offered_chunks q.chunks bytes id
  unfolding try_enqueue
  try_enqueue_grown [] e = ground arith
  try_enqueue_grown (b ∷ bs) e = ground arith

  pub try_enqueue_kept :
      (bytes : List ℕ)
      → is_accepted (try_enqueue a q s (some bytes) (length bytes) id).2 ≡ false
      → (try_enqueue a q s (some bytes) (length bytes) id).0.chunks ≡ q.chunks
  unfolding try_enqueue
  try_enqueue_kept bytes e = ground arith

-- Nothing is left of a chunk that is written to its end.
pub rest_written : {c : Chunk} → IsHeld c → (c.offset == c.size) ≡ true → rest c ≡ []
rest_written {c} k whole = drop_all c.offset c.bytes (ground (arith, k.chunk.size_is))
