-- ===== src/Unix/Spawn/Options/Copies.antt =====
-- What `pty_unix_clone_options` of src/unix/pty_unix_spawn.c copies.
use flutter_pty.Prelude.{
  ℕ, ◌+◌, ◌-◌, ◌≡◌, refl, ap, sym, true, false, not, ◌&&◌, ◌||◌, List, [], ◌∷◌, ◌++◌, map, Option,
  none, some, is_some, inl, inr, arith, ltb, ◌==◌, ◌*◌, length, Option-cases, Bool-cases,
  append_assoc, append-nil, ◌∙◌,
}
use mathlib.Core.List.{map-append}
use flutter_pty.Prelude.Int.{ℤ, pos, pos_part, ltb_ℤ}
use flutter_pty.Errors.{PtyError}
use flutter_pty.Unix.Spawn.System.{Call, allocated}
use flutter_pty.Unix.Spawn.Strings.{
  Text, Vector, Copying, all_copied, null_entry, no_memory, read_entries, vector_error, copy_string,
  copy_entries, finish_vector, copy_string_vector,
}
use flutter_pty.Unix.Spawn.Options.{
  Options, Owned, Cloned, no_options, view_text, view_vector, clone_directory, clone_environment,
  clone_arguments, clone_options,
}

-- A copy of the options, as its reader sees it: of each vector the entries that its count names.
abbrev pub copied_options : Options → Options
copied_options source = record source {
  arguments = some (read_entries source.arguments (pos_part source.argument_count));
  environment = some (read_entries source.environment (pos_part source.environment_count));
}

module _ (malloc : List Call → (size : ℕ) → ℕ) where
  -- A copy shows what was copied, unless memory for it was missing.
  copy_string-view :
      (value : Option (List ℕ)) (log : List Call)
      → (is_some value && not (is_some (copy_string malloc value log).1)) ≡ false
      → view_text (copy_string malloc value log).1 ≡ value
  unfolding copy_string
  copy_string-view none log e = refl
  copy_string-view (some value) log e = elim (Bool-cases (malloc log (length value + 1) == 0)) [
    | inl z ↦ ground arith
    | inr z ↦ rw z
  ]

  -- After the loop, if it copied everything, the copies show what was there before and the values.
  abbrev Shows : List (Option (List ℕ)) → List Call × List (Option Text) × Copying → Type 0
  Shows shown r = r.2 ≡ all_copied → map view_text r.1 ≡ shown

  copy_entries-Shows :
      (values : List (Option (List ℕ))) (done : List (Option Text)) (log : List Call)
      → Shows (map view_text done ++ values) (copy_entries malloc values done log)
  unfolding copy_entries
  copy_entries-Shows [] done log = λ e. sym (append-nil (map view_text done))
  copy_entries-Shows (none ∷ values) done log = λ e. ground arith
  copy_entries-Shows (some value ∷ values) done log =
      elim (Option-cases (copy_string malloc (some value) log).1) [
        | inl z ↦ rw (z, copy_entries) (λ e. ground arith)
        | inr (t, z) ↦
            rw (z, copy_entries)
              (next
                (copy_entries malloc values (done ++ some t ∷ [])
                  (copy_string malloc (some value) log).0)
                t (shown t z)
                (copy_entries-Shows values (done ++ some t ∷ [])
                  (copy_string malloc (some value) log).0))
      ]
    where
      shown :
          (t : Text) → (copy_string malloc (some value) log).1 ≡ some t → some t.bytes ≡ some value
      shown t z = ap view_text (sym z) ∙ copy_string-view (some value) log (rw z)

      next :
          (r : List Call × List (Option Text) × Copying) (t : Text)
          → some t.bytes ≡ some value
          → Shows (map view_text (done ++ some t ∷ []) ++ values) r
          → Shows (map view_text done ++ some value ∷ values) r
      next r t z h e = h e ∙ simp (map-append, append_assoc, z)

  -- A vector that was made shows the entries that were read, and leaves the caller's error alone.
  abbrev Vectors :
      Option (List (Option (List ℕ)))
      → Option PtyError
      → List Call × Option Vector × Option PtyError
      → Type 0
  Vectors shown e r = is_some r.1 ≡ true → (view_vector r.1 ≡ shown) × (r.2 ≡ e)

  finish_vector-Vectors :
      (a : ℕ) (shown : List (Option (List ℕ))) (e : Option PtyError)
      (r : List Call × List (Option Text) × Copying)
      → Shows shown r
      → let made = finish_vector malloc a r in
        Vectors (some shown) e (made.0, made.1, vector_error e r.2)
  unfolding finish_vector
  finish_vector-Vectors a shown e (log, done, all_copied) h = λ made. (ap some (h refl), refl)
  finish_vector-Vectors a shown e (log, done, null_entry) h = λ made. ground arith
  finish_vector-Vectors a shown e (log, done, no_memory) h = λ made. ground arith

  copy_string_vector-Vectors :
      (values : Option (List (Option (List ℕ)))) (count : ℤ) (e : Option PtyError) (log : List Call)
      → Vectors
          (some (read_entries values (pos_part count)))
          e
          (copy_string_vector malloc values count 1 e log)
  unfolding copy_string_vector
  copy_string_vector-Vectors values count e log =
      elim (Bool-cases (ltb_ℤ count (pos 0) || ltb (0x7fffffff - 1) (pos_part count))) [
        | inl bad ↦ rw bad (λ h. ground arith)
        | inr good ↦ rw good (elim (Bool-cases (malloc log ((pos_part count + 1) * 8) == 0)) [
          | inl z ↦ rw z (λ h. ground arith)
          | inr z ↦ rw z (
              let a = malloc log ((pos_part count + 1) * 8) in
              let entries = read_entries values (pos_part count) in
              finish_vector-Vectors a entries e (copy_entries malloc entries [] (allocated a ∷ log))
                (copy_entries-Shows entries [] (allocated a ∷ log)))
        ])
      ]

  -- The last step, with the vectors in place.
  abbrev Succeeds : Options → Option PtyError → Cloned → Type 0
  Succeeds shown e c = c.ok ≡ true → (c.owned.options ≡ shown) × (c.error ≡ e)

  Succeeds-as :
      {shown shown' : Options} {e e' : Option PtyError} (c : Cloned)
      → shown ≡ shown'
      → e ≡ e'
      → Succeeds shown e c
      → Succeeds shown' e' c
  Succeeds-as c p q h ok = ((h ok).0 ∙ p, (h ok).1 ∙ q)

  clone_directory-Succeeds :
      (source : Options) (o : Owned) (e : Option PtyError) (log : List Call)
      → Succeeds
          (record (o.options) {
            executable = view_text o.executable;
            arguments = view_vector o.arguments;
            environment = view_vector o.environment;
            working_directory = source.working_directory;
          })
          e
          (clone_directory malloc source o e log)
  unfolding clone_directory
  clone_directory-Succeeds source o e log =
      elim (Bool-cases (
        is_some source.working_directory
        && not (is_some (copy_string malloc source.working_directory log).1))) [
          | inl bad ↦ rw bad (λ h. ground arith)
          | inr good ↦
              rw good (λ h. (rw (copy_string-view source.working_directory log good) refl, refl))
        ]

  clone_environment-Succeeds :
      (source : Options) (o : Owned) (e : Option PtyError) (log : List Call)
      → Succeeds
          (record (o.options) {
            executable = view_text o.executable;
            arguments = view_vector o.arguments;
            environment =
                some (read_entries source.environment (pos_part source.environment_count));
            working_directory = source.working_directory;
          })
          e
          (clone_environment malloc source o e log)
  unfolding clone_environment
  clone_environment-Succeeds source o e log =
      let r = copy_string_vector malloc source.environment source.environment_count 1 e log in
      elim (Bool-cases (is_some r.1)) [
        | inl made ↦
            rw (made, clone_environment)
              (let v =
                  copy_string_vector-Vectors source.environment source.environment_count e log
                    made in
                let o1 = record o { environment = r.1 } in
                Succeeds-as (clone_directory malloc source o1 r.2 r.0) (rw (v.0) refl) v.1
                  (clone_directory-Succeeds source o1 r.2 r.0))
        | inr bad ↦ rw (bad, clone_environment) (λ h. ground arith)
      ]

  clone_arguments-Succeeds :
      (source : Options) (o : Owned) (e : Option PtyError) (log : List Call)
      → Succeeds
          (record (o.options) {
            executable = view_text o.executable;
            arguments = some (read_entries source.arguments (pos_part source.argument_count));
            environment =
                some (read_entries source.environment (pos_part source.environment_count));
            working_directory = source.working_directory;
          })
          e
          (clone_arguments malloc source o e log)
  unfolding clone_arguments
  clone_arguments-Succeeds source o e log =
      let r = copy_string_vector malloc source.arguments source.argument_count 1 e log in
      elim (Bool-cases (is_some r.1)) [
        | inl made ↦
            rw (made, clone_arguments)
              (let v =
                  copy_string_vector-Vectors source.arguments source.argument_count e log made in
                let o1 = record o { arguments = r.1 } in
                Succeeds-as (clone_environment malloc source o1 r.2 r.0) (rw (v.0) refl) v.1
                  (clone_environment-Succeeds source o1 r.2 r.0))
        | inr bad ↦ rw (bad, clone_arguments) (λ h. ground arith)
      ]

  -- If cloning options reports success, the clone shows the executable, the directory, the size, the
  -- limits and the port of the source, and of each vector the entries that its count names; and the
  -- caller's error is as before.
  pub clone_options-copies :
      (source : Options) (destination : Owned) (e : Option PtyError) (log : List Call)
      → let c = clone_options malloc (some source) destination e log in
        c.ok ≡ true → (c.owned.options ≡ copied_options source) × (c.error ≡ e)
  unfolding clone_options
  clone_options-copies source destination e log =
      let copy = copy_string malloc source.executable log in
      let o = record no_options { options = source; executable = copy.1 } in
      elim (Bool-cases (is_some source.executable && not (is_some copy.1))) [
        | inl bad ↦ rw bad (λ h. ground arith)
        | inr good ↦ rw good (
            Succeeds-as (clone_arguments malloc source o e copy.0)
              (rw (copy_string-view source.executable log good) refl) refl
              (clone_arguments-Succeeds source o e copy.0))
      ]
