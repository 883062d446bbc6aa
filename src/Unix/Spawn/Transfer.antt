-- ===== src/Unix/Spawn/Transfer.antt =====
-- The loops of src/unix/pty_unix_spawn.c that write and read a number of bytes however a pipe splits
-- them up. The system answers by the number of calls so far, and a read also by what came before.
use flutter_pty.Prelude.{
  ℕ, zero, suc, ◌+◌, ◌-◌, ◌≤◌, ◌<◌, ◌≡◌, refl, sym, ◌∙◌, ap, true, false, arith, List, [], ◌∷◌,
  ◌++◌, inl, inr, Bool-cases, ◌==◌, if◌then◌else◌, length, length-append, length-drop, take, drop,
  append-nil, append_assoc, take-append-drop,
}
use flutter_pty.Prelude.{ltb, leb, take-then}
use flutter_pty.Unix.World.{WriteAnswer, took, rejected, ReadAnswer, gave, broke, eintr}

-- How `write_fully` ends: with 1, with 0, or not yet when the fuel is out.
pub data Sending : Type 0 where
  all_sent : (sent : List ℕ) → Sending
  cut_off : (sent : List ℕ) → Sending
  sending : Sending

-- How `read_fully` ends: with 1, with 0, with -1, or not yet when the fuel is out.
pub data Receiving : Type 0 where
  all_received : (bytes : List ℕ) → Receiving
  at_end : Receiving
  broken_off : Receiving
  receiving : Receiving

module _ (write : (calls : ℕ) → List ℕ → WriteAnswer) where
  -- The loop of `write_fully`.
  unfoldable pub write_fully : ℕ → (calls : ℕ) → (left sent : List ℕ) → Sending
  write_fully zero calls left sent = sending
  write_fully (suc fuel) calls [] sent = all_sent sent
  write_fully (suc fuel) calls (b ∷ bs) sent = elim (write calls (b ∷ bs)) [
    | took zero ↦ cut_off sent
    | took (suc n) ↦
        write_fully fuel (calls + 1) (drop (suc n) (b ∷ bs)) (sent ++ take (suc n) (b ∷ bs))
    | rejected errno ↦
        let again = write_fully fuel (calls + 1) (b ∷ bs) sent in
        if errno == eintr then again else cut_off sent
  ]

module _ (read : (calls : ℕ) → (got : List ℕ) → (wanted : ℕ) → ReadAnswer) where
  -- The loop of `read_fully`, with the bytes so far.
  unfoldable pub read_fully : ℕ → (calls : ℕ) → (size : ℕ) → (got : List ℕ) → Receiving
  read_fully zero calls size got = receiving
  read_fully (suc fuel) calls size got =
      if ltb (length got) size
      then elim (read calls got (size - length got)) [
        | gave [] ↦ if length got == 0 then at_end else broken_off
        | gave (b ∷ bs) ↦ read_fully fuel (calls + 1) size (got ++ b ∷ bs)
        | broke errno ↦
            let again = read_fully fuel (calls + 1) size got in
            if errno == eintr then again else broken_off
      ]
      else all_received got

  -- `read_child_error` and `pty_unix_read_exit`: two 32-bit numbers each.
  unfoldable pub read_child_error : ℕ → Receiving
  read_child_error fuel = read_fully fuel 0 8 []

  unfoldable pub read_exit_report : ℕ → Receiving
  read_exit_report fuel = read_fully fuel 0 8 []

-- What `write_fully` has sent of what was left.
pub SentOk : (left sent : List ℕ) → Sending → Type 0
SentOk left sent (all_sent s) = s ≡ sent ++ left
SentOk left sent (cut_off s) = (n : ℕ) × (s ≡ sent ++ take n left) × (n < length left)
SentOk left sent sending = true ≡ false

module _ (write : (calls : ℕ) → List ℕ → WriteAnswer) (patience : ℕ)
    (bounded : (calls : ℕ) (bytes : List ℕ) (n : ℕ) → write calls bytes ≡ took n → n ≤ length bytes)
    (uninterrupted : (calls : ℕ) (bytes : List ℕ) (errno : ℕ)
      → patience ≤ calls
      → write calls bytes ≡ rejected errno
      → (errno == eintr) ≡ false) where
  after_some :
      (n : ℕ) (left sent : List ℕ) (o : Sending)
      → n ≤ length left
      → SentOk (drop n left) (sent ++ take n left) o
      → SentOk left sent o
  unfolding SentOk
  after_some n left sent (all_sent s) h k =
      k
      ∙ (append_assoc sent (take n left) (drop n left)
          ∙ ap (λ b. sent ++ b) (take-append-drop n left))
  after_some n left sent (cut_off s) h (m, k, short) = (
    n + m,
    k
        ∙ (append_assoc sent (take n left) (take m (drop n left))
            ∙ ap (λ b. sent ++ b) (take-then n m left)),
    omega (arith, short, length-drop n left),
  )
  after_some n left sent sending h k = k

  -- Where `write` takes no more bytes than it is given and is interrupted only by the first `patience`
  -- calls: with one round more than there are bytes and such calls left, the loop ends. It answers 1
  -- when all the bytes went out in order, and else 0 when a proper part of them did.
  pub write_fully-SentOk :
      (fuel calls : ℕ) (left sent : List ℕ)
      → length left + (patience - calls) < fuel
      → SentOk left sent (write_fully write fuel calls left sent)
  unfolding write_fully SentOk
  write_fully-SentOk zero calls left sent h = absurd (omega arith)
  write_fully-SentOk (suc fuel) calls [] sent h = sym (append-nil sent)
  write_fully-SentOk (suc fuel) calls (b ∷ bs) sent h =
      answered
        (λ n k.
          write_fully-SentOk fuel (calls + 1) (drop n (b ∷ bs)) (sent ++ take n (b ∷ bs))
            (omega (arith, k, length-drop n (b ∷ bs))))
        (λ k. write_fully-SentOk fuel (calls + 1) (b ∷ bs) sent (omega (arith, k)))
        (write calls (b ∷ bs)) refl
    where
      answered :
          ((n : ℕ)
            → 1 ≤ n
            → SentOk
                (drop n (b ∷ bs))
                (sent ++ take n (b ∷ bs))
                (write_fully write fuel (calls + 1) (drop n (b ∷ bs)) (sent ++ take n (b ∷ bs))))
          → (calls < patience
              → SentOk (b ∷ bs) sent (write_fully write fuel (calls + 1) (b ∷ bs) sent))
          → (a : WriteAnswer) → write calls (b ∷ bs) ≡ a
          → SentOk (b ∷ bs) sent (write_fully write (suc fuel) calls (b ∷ bs) sent)
      answered further again (took zero) e =
          let same : write_fully write (suc fuel) calls (b ∷ bs) sent ≡ cut_off sent =
            ground arith in
          rw same (0, sym (append-nil sent), omega arith)
      answered further again (took (suc n)) e =
          let same : write_fully write (suc fuel) calls (b ∷ bs) sent
              ≡ write_fully write fuel (calls + 1) (drop (suc n) (b ∷ bs))
                  (sent ++ take (suc n) (b ∷ bs)) =
            ground arith in
          rw same (
            after_some (suc n) (b ∷ bs) sent
              (write_fully write fuel (calls + 1) (drop (suc n) (b ∷ bs))
                (sent ++ take (suc n) (b ∷ bs)))
              (bounded calls (b ∷ bs) (suc n) e) (further (suc n) (omega arith)))
      answered further again (rejected errno) e = elim (Bool-cases (errno == eintr)) [
        | inl interrupted ↦
            let same : write_fully write (suc fuel) calls (b ∷ bs) sent
                ≡ write_fully write fuel (calls + 1) (b ∷ bs) sent =
              ground arith in
            rw same (elim (Bool-cases (ltb calls patience)) [
              | inl early ↦ again (ground arith)
              | inr late ↦ ground (arith, uninterrupted calls (b ∷ bs) errno (ground arith) e)
            ])
        | inr failed ↦
            let same : write_fully write (suc fuel) calls (b ∷ bs) sent ≡ cut_off sent =
              ground arith in
            rw same (0, sym (append-nil sent), omega arith)
      ]

-- What reading `size` bytes from a pipe comes to when it carries `content` until its end.
abbrev pub received_of : (size : ℕ) → (content : List ℕ) → Receiving
received_of size content =
    if leb size (length content)
    then all_received (take size content)
    else if length content == 0
    then at_end
    else broken_off

module _ (read : (calls : ℕ) → (got : List ℕ) → (wanted : ℕ) → ReadAnswer) (content : List ℕ)
    (patience : ℕ)
    (piped : (calls : ℕ) (got : List ℕ) (wanted : ℕ) (bytes tail : List ℕ)
      → content ≡ got ++ tail
      → 1 ≤ wanted
      → read calls got wanted ≡ gave bytes
      → (length bytes ≤ wanted)
        × (bytes ≡ [] → content ≡ got)
        × ((rest : List ℕ) × (content ≡ got ++ bytes ++ rest)))
    (only_interrupted : (calls : ℕ) (got : List ℕ) (wanted errno : ℕ)
      → read calls got wanted ≡ broke errno
      → (errno ≡ eintr) × (calls < patience)) where
  take-length : (xs ys : List ℕ) → take (length xs) (xs ++ ys) ≡ xs
  take-length [] ys = refl
  take-length (x ∷ xs) ys = ap (◌∷◌ x) (take-length xs ys)

  -- Where a pipe carries `content` and then its end, each read giving some bytes that come next, and
  -- only some of the first `patience` calls are interrupted: with one round more than there are bytes
  -- and such calls left, the loop ends, and it answers as a read in one piece would: 1 with the first
  -- `size` bytes, 0 when there are none at all, and -1 when there are too few.
  pub read_fully-received_of :
      (fuel calls size : ℕ) (got rest : List ℕ)
      → content ≡ got ++ rest
      → length got ≤ size
      → size - length got + (patience - calls) < fuel
      → read_fully read fuel calls size got ≡ received_of size content
  unfolding read_fully
  read_fully-received_of zero calls size got rest e l h = absurd (omega arith)
  read_fully-received_of (suc fuel) calls size got rest e l h =
      elim (Bool-cases (ltb (length got) size)) [
        | inr full ↦
            let same : read_fully read (suc fuel) calls size got ≡ all_received got =
              ground arith in
            let whole : size ≡ length got = ground arith in
            rw (same, e, whole) (ground (arith, take-length got rest, length-append got rest))
        | inl more ↦
            answered more (ground arith)
              (λ b bs rest1 e1 k.
                read_fully-received_of fuel (calls + 1) size (got ++ b ∷ bs) rest1 e1
                  (omega (arith, k, length-append got (b ∷ bs)))
                  (omega (arith, k, length-append got (b ∷ bs))))
              (λ k. read_fully-received_of fuel (calls + 1) size got rest e l (omega (arith, k)))
              (read calls got (size - length got)) refl
      ]
    where
      answered :
          ltb (length got) size ≡ true
          → 1 ≤ size - length got
          → ((b : ℕ) (bs rest1 : List ℕ)
              → content ≡ (got ++ b ∷ bs) ++ rest1
              → length (b ∷ bs) + length got ≤ size
              → read_fully read fuel (calls + 1) size (got ++ b ∷ bs) ≡ received_of size content)
          → (calls < patience
              → read_fully read fuel (calls + 1) size got ≡ received_of size content)
          → (a : ReadAnswer) → read calls got (size - length got) ≡ a
          → read_fully read (suc fuel) calls size got ≡ received_of size content
      answered more some_left further again (gave []) k =
          let (small, eof, further_on) =
            piped calls got (size - length got) [] rest e some_left k in
          let all_read : content ≡ got = eof refl in
          let same : read_fully read (suc fuel) calls size got
              ≡ (if length got == 0 then at_end else broken_off) =
            ground arith in
          rw (same, all_read) (ground arith)
      answered more some_left further again (gave (b ∷ bs)) k =
          let (small, eof, (rest1, next)) =
            piped calls got (size - length got) (b ∷ bs) rest e some_left k in
          let same : read_fully read (suc fuel) calls size got
              ≡ read_fully read fuel (calls + 1) size (got ++ b ∷ bs) =
            ground arith in
          rw same (further b bs rest1 next (omega (arith, small, l)))
      answered more some_left further again (broke errno) k =
          let (is, early) = only_interrupted calls got (size - length got) errno k in
          let same : read_fully read (suc fuel) calls size got
              ≡ read_fully read fuel (calls + 1) size got =
            ground arith in
          rw same (again early)
