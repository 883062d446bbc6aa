-- ===== src/Unix/Spawn/Path/Ownership.antt =====
-- Which blocks the search for the program leaves to its caller, in src/unix/pty_unix_spawn.c.
use flutter_pty.Prelude.{
  ℕ, zero, suc, ◌+◌, ap, Bool, false, List, [], ◌∷◌, Option, none, some, inl, inr, arith, ◌==◌,
  ◌||◌, length, Option-cases, Bool-cases,
}
use flutter_pty.Prelude.Text.{codes}
use flutter_pty.Errors.{PtyError}
use flutter_pty.Unix.Spawn.System.{Call, looked_up, Balanced}
use flutter_pty.Unix.Spawn.Strings.{Text, free_text, copy_string}
use flutter_pty.Unix.Spawn.Options.Balance.{
  held_address, held_text, free_text-Frees, copy_string-Balanced,
}
use flutter_pty.Unix.Spawn.Path.{
  Result, ok, failed, Access, allowed, denied, Try, unbuilt, found, missed, Round, stop, next,
  until_colon, join_path, access_joined, access_path, directory_text, answer_candidate,
  try_candidate, answer_path, end_round, try_directory, after_round, Resolved, eacces, try_segment,
  search, resolve_path, resolve_executable, environment_value, search_path, is_absolute_path,
  contains_slash,
}

module _ (a : ℕ) (strerror : ℕ → List ℕ) (malloc : List Call → (size : ℕ) → ℕ)
    (access : List Call → (path : List ℕ) → Access) where
  abbrev held_result : Result Text → ℕ
  held_result (ok t) = held_address a t.address
  held_result (failed errno) = 0

  join_path-Balanced :
      (directory name : List ℕ) (log : List Call)
      → let r = join_path strerror malloc access directory name log in
        Balanced a log 0 r.0 (held_result r.1)
  unfolding join_path
  join_path-Balanced directory name log = ground arith

  access_path-Balanced :
      (path : List ℕ) (working_directory : Option (List ℕ)) (log : List Call)
      → Balanced a log 0 (access_path strerror malloc access path working_directory log).0 0
  unfolding access_path access_joined
  access_path-Balanced path none log = omega arith
  access_path-Balanced path (some []) log = omega arith
  access_path-Balanced path (some (c ∷ cs)) log = elim (Bool-cases (is_absolute_path path)) [
    | inl e ↦ rw e (omega arith)
    | inr e ↦ rw e (
        joined_case (join_path strerror malloc access (c ∷ cs) path log)
          (join_path-Balanced (c ∷ cs) path log))
  ]
    where
      joined_case :
          (r : List Call × Result Text)
          → Balanced a log 0 r.0 (held_result r.1)
          → Balanced a log 0 (access_joined strerror malloc access r).0 0
      joined_case (log1, failed errno) h = omega (arith, h)
      joined_case (log1, ok t) h =
          omega (arith, h, free_text-Frees a (some t) (looked_up t.bytes ∷ log1))

  directory_text-Balanced :
      (segment : List ℕ) (log : List Call)
      → let r = directory_text strerror malloc access segment log in
        Balanced a log 0 r.0 (held_text a r.1)
  unfolding directory_text
  directory_text-Balanced [] log =
      let first = copy_string malloc (some []) log in
      let made = copy_string-Balanced a malloc (some []) log in
      elim (Option-cases first.1) [
        | inl e ↦ rw (e, directory_text) (omega (arith, made, ap (held_text a) e))
        | inr (t, e) ↦
            rw (e, directory_text)
              (omega (
                arith,
                made,
                ap (held_text a) e,
                free_text-Frees a (some t) first.0,
                copy_string-Balanced a malloc (some (b'.' ∷ [])) (free_text (some t) first.0),
              ))
      ]
  directory_text-Balanced (c ∷ cs) log = copy_string-Balanced a malloc (some (c ∷ cs)) log

  -- What a try and a round hold, from `log` with `h` held.
  abbrev Tries : List Call → ℕ → Try → Type 0
  Tries log h (unbuilt log1 errno) = Balanced a log h log1 0
  Tries log h (found log1 t) = Balanced a log h log1 (held_address a t.address)
  Tries log h (missed log1 t errno) = Balanced a log h log1 (held_address a t.address)

  abbrev Rounds : List Call → ℕ → Round → Type 0
  Rounds log h (stop log1 t e) = Balanced a log h log1 (held_text a t)
  Rounds log h (next log1 errno) = Balanced a log h log1 0

  try_candidate-Tries :
      (working_directory : Option (List ℕ)) (r : List Call × Result Text)
      → Tries r.0 (held_result r.1) (try_candidate strerror malloc access working_directory r)
  unfolding try_candidate
  try_candidate-Tries working_directory (log, failed errno) = omega arith
  try_candidate-Tries working_directory (log, ok t) =
      answered (access_path strerror malloc access t.bytes working_directory log)
        (access_path-Balanced t.bytes working_directory log)
    where
      answered :
          (b : List Call × Access)
          → Balanced a log 0 b.0 0
          → Tries log (held_address a t.address) (answer_candidate strerror malloc access t b)
      answered (log1, allowed) h = omega (arith, h)
      answered (log1, denied errno) h = omega (arith, h)

  end_round-Rounds :
      (e : Option PtyError) (d : Text) (log : List Call) (h : ℕ) (t : Try)
      → Tries log h t
      → Rounds log (h + held_address a d.address) (end_round strerror malloc access e d t)
  unfolding end_round
  end_round-Rounds e d log h (unbuilt log1 errno) k =
      omega (arith, k, free_text-Frees a (some d) log1)
  end_round-Rounds e d log h (found log1 t) k = omega (arith, k, free_text-Frees a (some d) log1)
  end_round-Rounds e d log h (missed log1 t errno) k = omega (
    arith,
    k,
    free_text-Frees a (some d) log1,
    free_text-Frees a (some t) (free_text (some d) log1),
  )

  Rounds-trans :
      (log log1 : List Call) (h k : ℕ) (r : Round)
      → Balanced a log h log1 k
      → Rounds log1 k r
      → Rounds log h r
  Rounds-trans log log1 h k (stop log2 t e) b c = omega arith
  Rounds-trans log log1 h k (next log2 errno) b c = omega arith

  try_segment-Rounds :
      (executable : List ℕ) (working_directory : Option (List ℕ)) (e : Option PtyError)
      (segment : List ℕ) (log : List Call)
      → Rounds log 0 (try_segment strerror malloc access executable working_directory e segment log)
  unfolding try_segment
  try_segment-Rounds executable working_directory e segment log =
      tried (directory_text strerror malloc access segment log)
        (directory_text-Balanced segment log)
    where
      tried :
          (r : List Call × Option Text × List ℕ)
          → Balanced a log 0 r.0 (held_text a r.1)
          → Rounds log 0 (try_directory strerror malloc access executable working_directory e r)
      tried (log1, none, message) h = omega (arith, h)
      tried (log1, some d, message) h =
          let candidate = join_path strerror malloc access d.bytes executable log1 in
          let t = try_candidate strerror malloc access working_directory candidate in
          let joined_it = join_path-Balanced d.bytes executable log1 in
          let k : Balanced a log1 (held_address a d.address) candidate.0
              (held_result candidate.1 + held_address a d.address) =
            omega (arith, joined_it) in
          Rounds-trans log log1 0 (held_address a d.address) _ h (
            Rounds-trans log1 candidate.0 (held_address a d.address)
              (held_result candidate.1 + held_address a d.address) _ k
              (end_round-Rounds e d candidate.0 (held_result candidate.1) t
                (try_candidate-Tries working_directory candidate)))

  abbrev Holds : List Call → Resolved → Type 0
  Holds log r = Balanced a log 0 r.0 (held_text a r.1)

  after_round-Holds :
      (further : List ℕ → Bool → List Call → Resolved) (e : Option PtyError) (saw : Bool)
      (more : Option (List ℕ)) (log : List Call) (r : Round)
      → ((rest : List ℕ) (saw1 : Bool) (log1 : List Call) → Holds log1 (further rest saw1 log1))
      → Rounds log 0 r
      → Holds log (after_round strerror malloc access further e saw more r)
  unfolding after_round
  after_round-Holds further e saw more log (stop log1 t e1) k h = h
  after_round-Holds further e saw none log (next log1 errno) k h = h
  after_round-Holds further e saw (some rest) log (next log1 errno) k h =
      omega (arith, h, k rest (saw || errno == eacces) log1)

  search-Holds :
      (fuel : ℕ) (executable : List ℕ) (working_directory : Option (List ℕ)) (e : Option PtyError)
      (start : List ℕ) (saw : Bool) (log : List Call)
      → Holds log (search strerror malloc access fuel executable working_directory e start saw log)
  unfolding search
  search-Holds zero executable working_directory e start saw log = omega arith
  search-Holds (suc fuel) executable working_directory e start saw log =
      after_round-Holds
        (λ (rest : List ℕ) (saw1 : Bool) (log1 : List Call).
          search strerror malloc access fuel executable working_directory e rest saw1 log1)
        e saw (until_colon start).1 log
        (try_segment strerror malloc access executable working_directory e (until_colon start).0
          log)
        (λ rest saw1 log1. search-Holds fuel executable working_directory e rest saw1 log1)
        (try_segment-Rounds executable working_directory e (until_colon start).0 log)

  answer_path-Holds :
      (executable : List ℕ) (e : Option PtyError) (log : List Call) (r : List Call × Access)
      → Balanced a log 0 r.0 0
      → Holds log (answer_path strerror malloc access executable e r)
  unfolding answer_path
  answer_path-Holds executable e log (log1, denied errno) h = h
  answer_path-Holds executable e log (log1, allowed) h =
      omega (arith, h, copy_string-Balanced a malloc (some executable) log1)

  -- Whatever memory and the file system answer, resolving the executable leaves its caller the block
  -- of the path that it returns, and no other: since before the call each other address was freed
  -- as often as it was given.
  pub resolve_executable-Holds :
      (executable : List ℕ) (working_directory : Option (List ℕ))
      (environment : List (Option (List ℕ))) (e : Option PtyError) (log : List Call)
      → let r =
          resolve_executable strerror malloc access executable working_directory environment e
            log in
        Balanced a log 0 r.0 (held_text a r.1)
  unfolding resolve_executable resolve_path
  resolve_executable-Holds executable working_directory environment e log =
      elim (Bool-cases (contains_slash executable)) [
        | inl direct ↦ rw direct (
            answer_path-Holds executable e log
              (access_path strerror malloc access executable working_directory log)
              (access_path-Balanced executable working_directory log))
        | inr searched ↦ rw searched (
            let path = search_path (environment_value environment (codes "PATH")) in
            search-Holds (length path + 1) executable working_directory e path false log)
      ]
