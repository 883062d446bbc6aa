-- ===== src/Tests/SpawnProcess.antt =====
-- The pipes and the descriptors of a spawn at concrete inputs.
use flutter_pty.Prelude.{
  ℕ, zero, suc, ◌≤◌, ◌<◌, ◌≡◌, refl, sym, ◌∙◌, ap, false, List, [], ◌∷◌, ◌++◌, none, some, arith,
  length, length-take, take, drop, take-append-drop, append_assoc, append-nil, subst, ◌==◌,
}
use flutter_pty.Unix.World.{
  WriteAnswer, took, rejected, ReadAnswer, gave, broke, eintr, fresh_error,
}
use flutter_pty.Unix.Spawn.Transfer.{
  write_fully, read_fully, SentOk, received_of, write_fully-SentOk, read_fully-received_of,
}
use flutter_pty.Unix.Spawn.Process.{SpawnSystem, runs, spawn_process}
use flutter_pty.Unix.Spawn.Process.Accounting.{Settled, spawn_process-Settled}
use flutter_pty.Tests.Data.{take_two, take_two-le}

-- A pipe that takes two bytes at a time, its first call interrupted.
abbrev slow_write : (calls : ℕ) → List ℕ → WriteAnswer
slow_write zero bytes = rejected eintr
slow_write (suc calls) bytes = took (take_two bytes)

slow_write-bounded :
    (calls : ℕ) (bytes : List ℕ) (n : ℕ) → slow_write calls bytes ≡ took n → n ≤ length bytes
slow_write-bounded zero bytes n e = ground arith
slow_write-bounded (suc calls) bytes n e = ground (arith, take_two-le bytes)

slow_write-later :
    (calls : ℕ) (bytes : List ℕ) (errno : ℕ)
    → 1 ≤ calls
    → slow_write calls bytes ≡ rejected errno
    → (errno == eintr) ≡ false
slow_write-later zero bytes errno h e = absurd (omega arith)
slow_write-later (suc calls) bytes errno h e = ground arith

write_fully-SentOk_example :
    SentOk (1 ∷ 2 ∷ 3 ∷ []) [] (write_fully slow_write 5 0 (1 ∷ 2 ∷ 3 ∷ []) [])
write_fully-SentOk_example =
    write_fully-SentOk slow_write 1 slow_write-bounded slow_write-later 5 0 (1 ∷ 2 ∷ 3 ∷ []) []
      (omega arith)

-- A pipe with three bytes, its first call interrupted.
abbrev three : List ℕ
three = 1 ∷ 2 ∷ 3 ∷ []

abbrev slow_read : (calls : ℕ) → (got : List ℕ) → (wanted : ℕ) → ReadAnswer
slow_read zero got wanted = broke eintr
slow_read (suc calls) got wanted = gave (take wanted (drop (length got) three))

drop-length : (xs ys : List ℕ) → drop (length xs) (xs ++ ys) ≡ ys
drop-length [] ys = refl
drop-length (x ∷ xs) ys = drop-length xs ys

nothing_taken : (n : ℕ) (xs : List ℕ) → 1 ≤ n → take n xs ≡ [] → xs ≡ []
nothing_taken n [] h e = refl
nothing_taken zero (x ∷ xs) h e = absurd (omega arith)
nothing_taken (suc n) (x ∷ xs) h e = ground arith

abbrev Next : List ℕ → ℕ → List ℕ → Type 0
Next got wanted bytes =
    (length bytes ≤ wanted)
    × (bytes ≡ [] → three ≡ got)
    × ((rest : List ℕ) × (three ≡ got ++ bytes ++ rest))

take-Next :
    (got tail : List ℕ) (wanted : ℕ)
    → three ≡ got ++ tail
    → 1 ≤ wanted
    → Next got wanted (take wanted tail)
take-Next got tail wanted e h = (
  omega (arith, length-take wanted tail),
  λ z. e ∙ (ap (λ b. got ++ b) (nothing_taken wanted tail h z) ∙ append-nil got),
  (
    drop wanted tail,
    e
        ∙ sym (
            append_assoc got (take wanted tail) (drop wanted tail)
            ∙ ap (λ b. got ++ b) (take-append-drop wanted tail)),
  ),
)

slow_read-piped :
    (calls : ℕ) (got : List ℕ) (wanted : ℕ) (bytes tail : List ℕ)
    → three ≡ got ++ tail
    → 1 ≤ wanted
    → slow_read calls got wanted ≡ gave bytes
    → Next got wanted bytes
slow_read-piped zero got wanted bytes tail e h k = ground arith
slow_read-piped (suc calls) got wanted bytes tail e h k =
    let left : drop (length got) three ≡ tail =
      ap (λ b. drop (length got) b) e ∙ drop-length got tail in
    let read : bytes ≡ take wanted (drop (length got) three) = ground arith in
    let same : bytes ≡ take wanted tail = read ∙ ap (λ b. take wanted b) left in
    subst (λ b. Next got wanted b) (sym same) (take-Next got tail wanted e h)

slow_read-early :
    (calls : ℕ) (got : List ℕ) (wanted errno : ℕ)
    → slow_read calls got wanted ≡ broke errno
    → (errno ≡ eintr) × (calls < 1)
slow_read-early zero got wanted errno e = (ground arith, omega arith)
slow_read-early (suc calls) got wanted errno e = ground arith

-- Three of four bytes are there.
read_fully-received_of_example : read_fully slow_read 6 0 4 [] ≡ received_of 4 three
read_fully-received_of_example =
    read_fully-received_of slow_read three 1 slow_read-piped slow_read-early 6 0 4 [] three refl
      (omega arith) (omega arith)

-- A spawn whose program cannot be told from the exit pipe.
abbrev spawn_system : SpawnSystem
spawn_system = record {
  open_terminal = none;
  get_attributes = none;
  set_attributes = none;
  move_above = λ i. none;
  close_on_exec = λ i. none;
  open_pipe = λ i. none;
  copy_status = none;
  empty_mask = none;
  fork = none;
  child_status = runs;
  program_id = none;
  set_nonblocking = none;
  strerror = λ errno. b'E' ∷ [];
}

spawn_process-Settled_example : Settled (spawn_process spawn_system (some fresh_error))
spawn_process-Settled_example = spawn_process-Settled spawn_system (some fresh_error)
