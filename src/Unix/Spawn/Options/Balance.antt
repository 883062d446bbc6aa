-- ===== src/Unix/Spawn/Options/Balance.antt =====
-- Who owns the copies of the options in src/unix/pty_unix_spawn.c: which blocks each call leaves to
-- its caller.
use flutter_pty.Prelude.{
  ℕ, ◌+◌, ◌*◌, ◌≤◌, ◌≡◌, refl, ap, true, false, List, [], ◌∷◌, ◌++◌, Option, none, some, inl, inr,
  arith, ◌==◌, ◌&&◌, not, is_some, if◌then◌else◌, length, take, replicate, length-take,
  length-append, length-replicate, take_all, Bool-cases, Option-cases,
}
use flutter_pty.Prelude.Int.{ℤ, pos_part}
use flutter_pty.Errors.{PtyError}
use flutter_pty.Unix.Spawn.System.{Call, allocated, one, allocs, frees, Balanced}
use flutter_pty.Unix.Spawn.Strings.{
  Text, Vector, free_address, free_text, free_entries, free_string_vector, read_entries, Copying,
  all_copied, null_entry, no_memory, copy_string, copy_entries, finish_vector, copy_string_vector,
}
use flutter_pty.Unix.Spawn.Options.{
  Options, Owned, no_options, free_options, clone_directory, clone_environment, clone_arguments,
  clone_options,
}

-- How often the address is among those that freeing would free.
abbrev pub held_address : ℕ → ℕ → ℕ
held_address a b = if b == 0 then 0 else one a b

abbrev pub held_text : ℕ → Option Text → ℕ
held_text a none = 0
held_text a (some t) = held_address a t.address

abbrev pub held_entries : ℕ → List (Option Text) → ℕ
held_entries a [] = 0
held_entries a (t ∷ ts) = held_text a t + held_entries a ts

abbrev pub held_vector : ℕ → Option Vector → ℕ → ℕ
held_vector a none count = 0
held_vector a (some v) count = held_address a v.address + held_entries a (take count v.entries)

abbrev pub held : ℕ → Owned → ℕ
held a o =
    held_text a o.executable
    + held_vector a o.arguments (pos_part o.options.argument_count)
    + held_vector a o.environment (pos_part o.options.environment_count)
    + held_text a o.working_directory

-- What was given and freed in all, after `log`, with `h` blocks held.
abbrev pub Frees : ℕ → List Call → ℕ → List Call → Type 0
Frees a log h log' = (allocs a log' ≡ allocs a log) × (frees a log' ≡ frees a log + h)

module _ (a : ℕ) where
  pub free_address-Frees :
      (b : ℕ) (log : List Call) → Frees a log (held_address a b) (free_address b log)
  unfolding free_address
  free_address-Frees b log = (ground arith, ground arith)

  pub free_text-Frees :
      (t : Option Text) (log : List Call) → Frees a log (held_text a t) (free_text t log)
  unfolding free_text
  free_text-Frees none log = (refl, omega arith)
  free_text-Frees (some t) log = free_address-Frees t.address log

  pub free_entries-Frees :
      (ts : List (Option Text)) (log : List Call)
      → Frees a log (held_entries a ts) (free_entries ts log)
  unfolding free_entries
  free_entries-Frees [] log = (refl, omega arith)
  free_entries-Frees (t ∷ ts) log =
      omega (arith, free_text-Frees t log, free_entries-Frees ts (free_text t log))

  pub free_string_vector-Frees :
      (v : Option Vector) (count : ℕ) (log : List Call)
      → Frees a log (held_vector a v count) (free_string_vector v count log)
  unfolding free_string_vector
  free_string_vector-Frees none count log = (refl, omega arith)
  free_string_vector-Frees (some v) count log = omega (
    arith,
    free_entries-Frees (take count v.entries) log,
    free_address-Frees v.address (free_entries (take count v.entries) log),
  )

  pub free_options-Frees :
      (o : Owned) (log : List Call) → Frees a log (held a o) (free_options o log).0
  unfolding free_options
  free_options-Frees o log =
      let l1 = free_text o.executable log in
      let l2 = free_string_vector o.arguments (pos_part o.options.argument_count) l1 in
      let l3 = free_string_vector o.environment (pos_part o.options.environment_count) l2 in
      omega (
        arith,
        free_text-Frees o.executable log,
        free_string_vector-Frees o.arguments (pos_part o.options.argument_count) l1,
        free_string_vector-Frees o.environment (pos_part o.options.environment_count) l2,
        free_text-Frees o.working_directory l3,
      )

  held_entries-append :
      (ts us : List (Option Text))
      → held_entries a (ts ++ us) ≡ held_entries a ts + held_entries a us
  held_entries-append [] us = omega arith
  held_entries-append (t ∷ ts) us = omega (arith, held_entries-append ts us)

  pub no_text :
      {A : Type 0} (source : Option A) (copy : Option Text)
      → (is_some source && not (is_some copy)) ≡ true
      → held_text a copy ≡ 0
  no_text none copy e = ground arith
  no_text (some value) none e = refl
  no_text (some value) (some t) e = ground arith

  module _ (malloc : List Call → (size : ℕ) → ℕ) where
    pub copy_string-Balanced :
        (value : Option (List ℕ)) (log : List Call)
        → Balanced a log 0
            (copy_string malloc value log).0
            (held_text a (copy_string malloc value log).1)
    unfolding copy_string
    copy_string-Balanced none log = omega arith
    copy_string-Balanced (some value) log = ground arith

    pub copy_entries-Balanced :
        (values : List (Option (List ℕ))) (done : List (Option Text)) (log : List Call)
        → Balanced a log
            (held_entries a done)
            (copy_entries malloc values done log).0
            (held_entries a (copy_entries malloc values done log).1)
    unfolding copy_entries
    copy_entries-Balanced [] done log = omega arith
    copy_entries-Balanced (none ∷ values) done log = omega arith
    copy_entries-Balanced (some value ∷ values) done log =
        elim (Option-cases (copy_string malloc (some value) log).1) [
          | inl k ↦
              let same : copy_entries malloc (some value ∷ values) done log
                  ≡ (log, done, no_memory) =
                ground arith in
              rw same (omega arith)
          | inr (t, k) ↦
              let log1 = (copy_string malloc (some value) log).0 in
              let same : copy_entries malloc (some value ∷ values) done log
                  ≡ copy_entries malloc values (done ++ some t ∷ []) log1 =
                ground arith in
              rw same (
                omega (
                  arith,
                  copy_entries-Balanced values (done ++ some t ∷ []) log1,
                  held_entries-append done (some t ∷ []),
                  copy_string-Balanced (some value) log,
                  ap (held_text a) k,
                ))
        ]

    pub copy_entries-length :
        (values : List (Option (List ℕ))) (done : List (Option Text)) (log : List Call)
        → length (copy_entries malloc values done log).1 ≤ length done + length values
    unfolding copy_entries
    copy_entries-length [] done log = omega arith
    copy_entries-length (none ∷ values) done log = omega arith
    copy_entries-length (some value ∷ values) done log =
        elim (Option-cases (copy_string malloc (some value) log).1) [
          | inl k ↦
              let same : copy_entries malloc (some value ∷ values) done log
                  ≡ (log, done, no_memory) =
                ground arith in
              rw same (omega arith)
          | inr (t, k) ↦
              let log1 = (copy_string malloc (some value) log).0 in
              let same : copy_entries malloc (some value ∷ values) done log
                  ≡ copy_entries malloc values (done ++ some t ∷ []) log1 =
                ground arith in
              rw same (
                omega (
                  arith,
                  copy_entries-length values (done ++ some t ∷ []) log1,
                  length-append done (some t ∷ []),
                ))
        ]

    -- Nothing that was copied is left out where only the first `count` entries are freed.
    pub copied_all :
        (values : Option (List (Option (List ℕ)))) (count : ℕ) (log : List Call)
        → take count (copy_entries malloc (read_entries values count) [] log).1
          ≡ (copy_entries malloc (read_entries values count) [] log).1
    copied_all none count log =
        take_all count (copy_entries malloc (replicate count none) [] log).1 (
          omega (
            arith,
            copy_entries-length (replicate count none) [] log,
            length-replicate {A = Option (List ℕ)} count none,
          ))
    copied_all (some values) count log =
        take_all count (copy_entries malloc (take count values) [] log).1
          (omega (arith, copy_entries-length (take count values) [] log, length-take count values))

    pub finish_vector-Balanced :
        (b count : ℕ) (log : List Call) (d : List Call × List (Option Text) × Copying)
        → (b == 0) ≡ false
        → take count d.1 ≡ d.1
        → Balanced a (allocated b ∷ log) 0 d.0 (held_entries a d.1)
        → Balanced a log 0
            (finish_vector malloc b d).0
            (held_vector a (finish_vector malloc b d).1 count)
    unfolding finish_vector
    finish_vector-Balanced b count log (log', done, all_copied) there whole h =
        rw whole (ground arith)
    finish_vector-Balanced b count log (log', done, null_entry) there whole h =
        ground (arith, free_entries-Frees done log', free_address-Frees b (free_entries done log'))
    finish_vector-Balanced b count log (log', done, no_memory) there whole h =
        ground (arith, free_entries-Frees done log', free_address-Frees b (free_entries done log'))

    pub copy_string_vector-Balanced :
        (values : Option (List (Option (List ℕ)))) (count : ℤ) (extra : ℕ) (e : Option PtyError)
        (log : List Call)
        → Balanced a log 0
            (copy_string_vector malloc values count extra e log).0
            (held_vector a (copy_string_vector malloc values count extra e log).1 (pos_part count))
    unfolding copy_string_vector
    copy_string_vector-Balanced values count extra e log = ground (
      arith,
      finish_vector-Balanced b n log copied,
      copied_all values n (allocated b ∷ log),
      copy_entries-Balanced (read_entries values n) [] (allocated b ∷ log),
    )
      where
        n : ℕ
        n = pos_part count

        b : ℕ
        b = malloc log ((n + extra) * 8)

        copied : List Call × List (Option Text) × Copying
        copied = copy_entries malloc (read_entries values n) [] (allocated b ∷ log)

    -- A failure that frees what is there leaves as many blocks as before.
    free_options-Balanced :
        (o : Owned) (log log1 : List Call) (h : ℕ)
        → Balanced a log h log1 (held a o)
        → Balanced a log h (free_options o log1).0 0
    free_options-Balanced o log log1 h b = omega (arith, free_options-Frees o log1)

    clone_directory-Balanced :
        (source : Options) (o : Owned) (e : Option PtyError) (log : List Call)
        → o.working_directory ≡ none
        → let c = clone_directory malloc source o e log in
          Balanced a log (held a o) c.log (held a c.owned)
    unfolding clone_directory free_options
    clone_directory-Balanced source o e log no_directory =
        let copy = copy_string malloc source.working_directory log in
        elim (Bool-cases (is_some source.working_directory && not (is_some copy.1))) [
          | inl out ↦ rw out (
              omega (
                arith,
                free_options-Frees o copy.0,
                copy_string-Balanced source.working_directory log,
                no_text source.working_directory copy.1 out,
              ))
          | inr kept ↦ rw kept (
              omega (
                arith,
                copy_string-Balanced source.working_directory log,
                ap (held_text a) no_directory,
              ))
        ]

    clone_environment-Balanced :
        (source : Options) (o : Owned) (e : Option PtyError) (log : List Call)
        → o.options ≡ source
        → o.environment ≡ none
        → o.working_directory ≡ none
        → let c = clone_environment malloc source o e log in
          Balanced a log (held a o) c.log (held a c.owned)
    unfolding clone_environment free_options
    clone_environment-Balanced source o e log options no_environment no_directory =
        let copy = copy_string_vector malloc source.environment source.environment_count 1 e log in
        let made =
          copy_string_vector-Balanced source.environment source.environment_count 1 e log in
        elim (Option-cases copy.1) [
          | inl out ↦ rw out (
              omega (
                arith,
                free_options-Frees o copy.0,
                made,
                ap (λ v. held_vector a v (pos_part source.environment_count)) out,
              ))
          | inr (v, kept) ↦
              let rest =
                clone_directory-Balanced source (record o { environment = some v }) copy.2 copy.0
                  no_directory in
              rw kept (
                omega (
                  arith,
                  rest,
                  made,
                  ap (λ v. held_vector a v (pos_part source.environment_count)) kept,
                  ap (λ v. held_vector a v (pos_part o.options.environment_count)) no_environment,
                  ap (λ (p : Options). held_vector a (some v) (pos_part p.environment_count))
                      options,
                ))
        ]

    clone_arguments-Balanced :
        (source : Options) (o : Owned) (e : Option PtyError) (log : List Call)
        → o.options ≡ source
        → o.arguments ≡ none
        → o.environment ≡ none
        → o.working_directory ≡ none
        → let c = clone_arguments malloc source o e log in
          Balanced a log (held a o) c.log (held a c.owned)
    unfolding clone_arguments free_options
    clone_arguments-Balanced source o e log options no_arguments no_environment no_directory =
        let copy = copy_string_vector malloc source.arguments source.argument_count 1 e log in
        let made = copy_string_vector-Balanced source.arguments source.argument_count 1 e log in
        elim (Option-cases copy.1) [
          | inl out ↦ rw out (
              omega (
                arith,
                free_options-Frees o copy.0,
                made,
                ap (λ v. held_vector a v (pos_part source.argument_count)) out,
              ))
          | inr (v, kept) ↦
              let rest =
                clone_environment-Balanced source (record o { arguments = some v }) copy.2 copy.0
                  options no_environment no_directory in
              rw kept (
                omega (
                  arith,
                  rest,
                  made,
                  ap (λ v. held_vector a v (pos_part source.argument_count)) kept,
                  ap (λ v. held_vector a v (pos_part o.options.argument_count)) no_arguments,
                  ap (λ (p : Options). held_vector a (some v) (pos_part p.argument_count)) options,
                ))
        ]

    clone_options-Balanced :
        (source : Options) (e : Option PtyError) (log : List Call)
        → let c = clone_options malloc (some source) no_options e log in
          Balanced a log 0 c.log (held a c.owned)
    unfolding clone_options
    clone_options-Balanced source e log =
        let copy = copy_string malloc source.executable log in
        let made = copy_string-Balanced source.executable log in
        elim (Bool-cases (is_some source.executable && not (is_some copy.1))) [
          | inl out ↦ rw out (omega (arith, made, no_text source.executable copy.1 out))
          | inr kept ↦
              let o = record no_options { options = source; executable = copy.1 } in
              let rest = clone_arguments-Balanced source o e copy.0 refl refl refl refl in
              rw kept (omega (arith, rest, made))
        ]

    -- However many of the allocations fail, and whatever the options are, freeing the options after
    -- they were cloned, as the caller does also when cloning failed, leaves no block behind and
    -- frees none twice: since before the clone each address was freed as often as it was given.
    pub free_options-clone_options :
        (source : Options) (e : Option PtyError) (log : List Call)
        → let c = clone_options malloc (some source) no_options e log in
          Balanced a log 0 (free_options c.owned c.log).0 0
    free_options-clone_options source e log =
        let c = clone_options malloc (some source) no_options e log in
        free_options-Balanced c.owned log c.log 0 (clone_options-Balanced source e log)
