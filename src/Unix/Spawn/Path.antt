-- ===== src/Unix/Spawn/Path.antt =====
-- Finding the program in src/unix/pty_unix_spawn.c: the environment, the search path, and the
-- permission to run.
pub mod Ownership
pub mod Entries
pub mod Search
use flutter_pty.Prelude.{
  ℕ, zero, suc, ◌+◌, ◌*◌, Bool, true, false, not, ◌&&◌, ◌||◌, List, [], ◌∷◌, ◌++◌, Option, none,
  some, is_some, ltb, ◌==◌, if◌then◌else◌, length,
}
use flutter_pty.Prelude.Int.{pos}
use flutter_pty.Prelude.Text.{codes}
use flutter_pty.Prelude.Words.{size_max, sub64, u64_mod}
use flutter_pty.Errors.{
  PtyError, internal_domain, not_found, out_of_memory, permission_denied, set, set_errno,
}
use flutter_pty.Unix.World.{enomem}
use flutter_pty.Unix.Spawn.System.{Call, allocated, freed, looked_up}
use flutter_pty.Unix.Spawn.Strings.{Text, free_text, copy_string}

abbrev pub eacces : ℕ
eacces = 13

abbrev pub enoent : ℕ
enoent = 2

abbrev pub enametoolong : ℕ
enametoolong = 36

-- `strncmp(entry, key, strlen(key)) == 0`, and what of the entry follows the key.
unfoldable pub after_key : List ℕ → List ℕ → Option (List ℕ)
after_key [] entry = some entry
after_key (k ∷ ks) [] = none
after_key (k ∷ ks) (c ∷ cs) = if k == c then after_key ks cs else none

-- What follows the first byte, if that is `=`.
abbrev pub after_equals : Option (List ℕ) → Option (List ℕ)
after_equals none = none
after_equals (some []) = none
after_equals (some (c ∷ cs)) = if c == b'=' then some cs else none

-- `environment_value`, over the entries that its loop reads.
unfoldable pub environment_value : List (Option (List ℕ)) → List ℕ → Option (List ℕ)
unfolding after_key
environment_value [] key = none
environment_value (none ∷ entries) key = environment_value entries key
environment_value (some entry ∷ entries) key =
    let later = environment_value entries key in
    elim (after_equals (after_key key entry)) [ none ↦ later | some value ↦ some value ]

-- `is_absolute_path`
abbrev pub is_absolute_path : List ℕ → Bool
is_absolute_path [] = false
is_absolute_path (c ∷ cs) = c == b'/'

abbrev pub ends_in_slash : List ℕ → Bool
ends_in_slash [] = false
ends_in_slash (c ∷ []) = c == b'/'
ends_in_slash (c ∷ d ∷ ds) = ends_in_slash (d ∷ ds)

-- `needs_separator`
abbrev pub needs_separator : List ℕ → Bool
needs_separator [] = false
needs_separator (c ∷ cs) = not (ends_in_slash (c ∷ cs))

-- The bytes of a joined path.
abbrev pub joined : List ℕ → List ℕ → List ℕ
joined directory name = directory ++ (if needs_separator directory then b'/' ∷ name else name)

-- A string in memory, or an error number.
pub data Result (A : Type 0) : Type 0 where
  ok : A → Result A
  failed : (errno : ℕ) → Result A

-- `access(path, X_OK)`
pub data Access : Type 0 where
  allowed : Access
  denied : (errno : ℕ) → Access

-- `strchr(start, ':')`: what stands before it, and what follows it, if it is there.
pub until_colon : List ℕ → List ℕ × Option (List ℕ)
until_colon [] = ([], none)
until_colon (c ∷ cs) =
    let (segment, more) = until_colon cs in if c == b':' then ([], some cs) else (c ∷ segment, more)

-- How a candidate fares: it cannot be built, it may run, or not, with the error number of `access`.
pub data Try : Type 0 where
  unbuilt : List Call → (errno : ℕ) → Try
  found : List Call → Text → Try
  missed : List Call → Text → (errno : ℕ) → Try

-- A round of the loop: the result, or the next entry.
pub data Round : Type 0 where
  stop : List Call → Option Text → Option PtyError → Round
  next : List Call → (errno : ℕ) → Round

-- The log, the executable's path, and the error that the caller sees.
abbrev pub Resolved : Type 0
Resolved = List Call × Option Text × Option PtyError

abbrev pub contains_slash : List ℕ → Bool
contains_slash [] = false
contains_slash (c ∷ cs) = c == b'/' || contains_slash cs

-- PTY_DEFAULT_PATH where the environment has no PATH
abbrev pub search_path : Option (List ℕ) → List ℕ
search_path none = codes "/usr/local/bin:/usr/bin:/bin"
search_path (some path) = path

module _ (strerror : ℕ → List ℕ) where
  abbrev pub denied_error : Option PtyError → ℕ → List ℕ → Option PtyError
  denied_error e errno message =
      set_errno strerror e (if errno == eacces then permission_denied else not_found) errno
        (some message)

  abbrev pub unbuilt_error : Option PtyError → ℕ → Option PtyError
  unbuilt_error e errno =
      set_errno strerror e (if errno == enametoolong then not_found else out_of_memory) errno
        (some (codes "building executable PATH candidate failed"))

  -- After the last entry, with the error number that its `access` gave.
  abbrev pub search_error : Option PtyError → Bool → ℕ → Option PtyError
  search_error e saw errno =
      denied_error e (if saw then eacces else if errno == 0 then enoent else errno)
        (codes "resolving executable failed")

module _ (strerror : ℕ → List ℕ) (malloc : List Call → (size : ℕ) → ℕ)
    (access : List Call → (path : List ℕ) → Access) where
  -- `join_path`, with its check of the length.
  unfoldable pub join_path : List ℕ → List ℕ → List Call → List Call × Result Text
  join_path directory name log =
      let separator : ℕ = if needs_separator directory then 1 else 0 in
      let size = length directory + length name + separator + 1 in
      let a = malloc log size in
      if ltb (sub64 (sub64 (sub64 size_max (length name)) separator) 1) (length directory)
      then (log, failed enametoolong)
      else if a == 0
      then (log, failed enomem)
      else (allocated a ∷ log, ok (record { address = a; bytes = joined directory name }))

  -- `access_path`: relative to the working directory, if there is one.
  access_joined : List Call × Result Text → List Call × Access
  access_joined (log, failed errno) = (log, denied errno)
  access_joined (log, ok t) = (free_text (some t) (looked_up t.bytes ∷ log), access log t.bytes)

  unfoldable pub access_path : List ℕ → Option (List ℕ) → List Call → List Call × Access
  unfolding access_joined
  access_path path none log = (looked_up path ∷ log, access log path)
  access_path path (some []) log = (looked_up path ∷ log, access log path)
  access_path path (some (c ∷ cs)) log =
      if is_absolute_path path
      then (looked_up path ∷ log, access log path)
      else access_joined (join_path (c ∷ cs) path log)

  -- The directory of one segment: a copy of the segment, or of "." if it is empty. An empty segment
  -- has been copied, and freed again. The text is the message of a failure.
  unfoldable pub directory_text : List ℕ → List Call → List Call × Option Text × List ℕ
  directory_text [] log =
      let (log1, first) = copy_string malloc (some []) log in
      let (log2, second) = copy_string malloc (some (b'.' ∷ [])) (free_text first log1) in
      if is_some first
      then (log2, second, codes "allocating empty PATH entry failed")
      else (log1, none, codes "allocating PATH entry failed")
  directory_text (c ∷ cs) log =
      let (log1, copy) = copy_string malloc (some (c ∷ cs)) log in
      (log1, copy, codes "allocating PATH entry failed")

  unfoldable pub answer_candidate : Text → List Call × Access → Try
  answer_candidate t (log, allowed) = found log t
  answer_candidate t (log, denied errno) = missed log t errno

  -- The candidate, once it is joined: whether it may run.
  unfoldable pub try_candidate : Option (List ℕ) → List Call × Result Text → Try
  unfolding answer_candidate
  try_candidate working_directory (log, failed errno) = unbuilt log errno
  try_candidate working_directory (log, ok t) =
      answer_candidate t (access_path t.bytes working_directory log)

  unfoldable pub end_round : Option PtyError → Text → Try → Round
  end_round e d (unbuilt log errno) =
      stop (free_text (some d) log) none (unbuilt_error strerror e errno)
  end_round e d (found log t) = stop (free_text (some d) log) (some t) e
  end_round e d (missed log t errno) = next (free_text (some t) (free_text (some d) log)) errno

  unfoldable pub try_directory :
      List ℕ → Option (List ℕ) → Option PtyError → List Call × Option Text × List ℕ → Round
  unfolding end_round
  try_directory executable working_directory e (log, none, message) =
      stop log none (set e internal_domain out_of_memory (pos enomem) (some message))
  try_directory executable working_directory e (log, some d, message) =
      end_round e d (try_candidate working_directory (join_path d.bytes executable log))

  -- One round of the loop of `resolve_executable`.
  unfoldable pub try_segment :
      List ℕ → Option (List ℕ) → Option PtyError → List ℕ → List Call → Round
  unfolding try_directory
  try_segment executable working_directory e segment log =
      try_directory executable working_directory e (directory_text segment log)

  -- What follows a round, `further` being the next rounds.
  unfoldable pub after_round :
      (List ℕ → Bool → List Call → Resolved)
      → Option PtyError
      → Bool
      → Option (List ℕ)
      → Round
      → Resolved
  after_round further e saw more (stop log t e1) = (log, t, e1)
  after_round further e saw none (next log errno) =
      (log, none, search_error strerror e (saw || errno == eacces) errno)
  after_round further e saw (some rest) (next log errno) = further rest (saw || errno == eacces) log

  -- The loop of `resolve_executable`. The flag says whether an entry was denied so far; the fuel
  -- bounds the entries.
  unfoldable pub search :
      ℕ → List ℕ → Option (List ℕ) → Option PtyError → List ℕ → Bool → List Call → Resolved
  unfolding after_round
  search zero executable working_directory e start saw log = (log, none, e)
  search (suc fuel) executable working_directory e start saw log =
      let further = λ (rest : List ℕ) (saw1 : Bool) (log1 : List Call).
        search fuel executable working_directory e rest saw1 log1 in
      let (segment, more) = until_colon start in
      after_round further e saw more (try_segment executable working_directory e segment log)

  unfoldable pub answer_path : List ℕ → Option PtyError → List Call × Access → Resolved
  answer_path executable e (log, denied errno) =
      (log, none, denied_error strerror e errno (codes "checking executable failed"))
  answer_path executable e (log, allowed) =
      let (log1, copy) = copy_string malloc (some executable) log in
      (
        log1,
        copy,
        if is_some copy
            then e
            else set e internal_domain out_of_memory (pos enomem)
                (some (codes "copying executable path failed")),
      )

  -- An executable that is named by a path is taken as it is.
  unfoldable pub resolve_path : List ℕ → Option (List ℕ) → Option PtyError → List Call → Resolved
  unfolding answer_path
  resolve_path executable working_directory e log =
      answer_path executable e (access_path executable working_directory log)

  -- `resolve_executable`
  unfoldable pub resolve_executable :
      List ℕ → Option (List ℕ) → List (Option (List ℕ)) → Option PtyError → List Call → Resolved
  resolve_executable executable working_directory environment e log =
      let path = search_path (environment_value environment (codes "PATH")) in
      if contains_slash executable
      then resolve_path executable working_directory e log
      else search (length path + 1) executable working_directory e path false log
