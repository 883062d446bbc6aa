-- ===== src/Unix/Spawn/Strings.antt =====
-- Copies of strings and of string vectors in src/unix/pty_unix_spawn.c. A C string is the list of
-- its bytes before the terminator.
use flutter_pty.Prelude.{
  ℕ, ◌+◌, ◌-◌, List, [], ◌∷◌, ◌++◌, Option, none, some, ◌*◌, ltb, ◌==◌, ◌||◌, if◌then◌else◌, length,
  take, replicate,
}
use flutter_pty.Prelude.Int.{ℤ, pos, pos_part, ltb_ℤ}
use flutter_pty.Prelude.Text.{codes}
use flutter_pty.Errors.{PtyError, internal_domain, invalid_argument, out_of_memory, set}
use flutter_pty.Unix.World.{einval, enomem}
use flutter_pty.Unix.Spawn.System.{Call, allocated, freed}

-- A block that holds a string.
pub record Text : Type 0 where
  pub address : ℕ
  pub bytes : List ℕ

-- A block of pointers to strings; the entries that were never set are NULL, and the last ones of
-- these are left out.
pub record Vector : Type 0 where
  pub address : ℕ
  pub entries : List (Option Text)

unfoldable pub free_address : ℕ → List Call → List Call
free_address a log = if a == 0 then log else freed a ∷ log

-- `free` of a string; `none` is NULL.
unfoldable pub free_text : Option Text → List Call → List Call
unfolding free_address
free_text none log = log
free_text (some t) log = free_address t.address log

-- The loop of `free_string_vector`.
unfoldable pub free_entries : List (Option Text) → List Call → List Call
free_entries [] log = log
free_entries (t ∷ ts) log = free_entries ts (free_text t log)

-- `free_string_vector`, of the first `count` entries.
unfoldable pub free_string_vector : Option Vector → ℕ → List Call → List Call
free_string_vector none count log = log
free_string_vector (some v) count log =
    free_address v.address (free_entries (take count v.entries) log)

-- The entries that the loop of `copy_string_vector` reads; a NULL vector has none.
abbrev pub read_entries : Option (List (Option (List ℕ))) → ℕ → List (Option (List ℕ))
read_entries none count = replicate count none
read_entries (some values) count = take count values

-- How the loop ends: with all copied, at a NULL entry, or without memory for a copy.
pub data Copying : Type 0 where
  all_copied null_entry no_memory : Copying

abbrev pub vector_error : Option PtyError → Copying → Option PtyError
vector_error e all_copied = e
vector_error e null_entry =
    set e internal_domain invalid_argument (pos einval)
      (some (codes "spawn string vector contains a null entry"))
vector_error e no_memory =
    set e internal_domain out_of_memory (pos enomem) (some (codes "copying spawn string failed"))

-- `malloc` and `calloc` answer with an address, or 0 for NULL.
module _ (malloc : List Call → (size : ℕ) → ℕ) where
  -- `copy_string`
  unfoldable pub copy_string : Option (List ℕ) → List Call → List Call × Option Text
  copy_string none log = (log, none)
  copy_string (some value) log =
      let a = malloc log (length value + 1) in
      if a == 0
      then (log, none)
      else (allocated a ∷ log, some (record { address = a; bytes = value }))

  -- The loop of `copy_string_vector`, with the copies so far.
  unfoldable pub copy_entries :
      List (Option (List ℕ))
      → List (Option Text)
      → List Call
      → List Call × List (Option Text) × Copying
  copy_entries [] done log = (log, done, all_copied)
  copy_entries (none ∷ values) done log = (log, done, null_entry)
  copy_entries (some value ∷ values) done log = elim (copy_string (some value) log).1 [
    | none ↦ (log, done, no_memory)
    | some t ↦ copy_entries values (done ++ some t ∷ []) (copy_string (some value) log).0
  ]

  -- After the loop: the vector, or everything freed.
  unfoldable pub finish_vector :
      ℕ → List Call × List (Option Text) × Copying → List Call × Option Vector
  finish_vector a (log, done, all_copied) = (log, some (record { address = a; entries = done }))
  finish_vector a (log, done, null_entry) = (free_address a (free_entries done log), none)
  finish_vector a (log, done, no_memory) = (free_address a (free_entries done log), none)

  -- `copy_string_vector`: the log, the vector, and the error that the caller sees.
  unfoldable pub copy_string_vector :
      Option (List (Option (List ℕ)))
      → ℤ
      → ℕ
      → Option PtyError
      → List Call
      → List Call × Option Vector × Option PtyError
  copy_string_vector values count extra e log =
      let n = pos_part count in
      let a = malloc log ((n + extra) * 8) in
      let copied = copy_entries (read_entries values n) [] (allocated a ∷ log) in
      let made = finish_vector a copied in
      if ltb_ℤ count (pos 0) || ltb (0x7fffffff - extra) n
      then (
        log,
        none,
        set e internal_domain invalid_argument (pos einval)
            (some (codes "invalid string vector length")),
      )
      else if a == 0
      then (
        log,
        none,
        set e internal_domain out_of_memory (pos enomem)
            (some (codes "allocating spawn string vector failed")),
      )
      else (made.0, made.1, vector_error e copied.2)
