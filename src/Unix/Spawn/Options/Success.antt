-- ===== src/Unix/Spawn/Options/Success.antt =====
-- When `pty_unix_clone_options` of src/unix/pty_unix_spawn.c succeeds.
use flutter_pty.Prelude.{
  ℕ, ◌+◌, ◌-◌, ◌≡◌, ◌≢◌, refl, ap, sym, Bool, true, false, not, ◌&&◌, ◌||◌, List, [], ◌∷◌, ◌++◌,
  Option, none, some, is_some, inl, inr, arith, ltb, ◌==◌, if◌then◌else◌, ◌*◌, length, Option-cases,
  Bool-cases, ◌∙◌,
}
use flutter_pty.Prelude.Int.{ℤ, pos, pos_part, ltb_ℤ}
use flutter_pty.Errors.{PtyError}
use flutter_pty.Unix.Spawn.System.{Call, allocated}
use flutter_pty.Unix.Spawn.Strings.{
  Text, Copying, all_copied, null_entry, no_memory, read_entries, copy_string, copy_entries,
  finish_vector, copy_string_vector,
}
use flutter_pty.Unix.Spawn.Options.{
  Options, Owned, no_options, clone_directory, clone_environment, clone_arguments, clone_options,
}

abbrev pub all_some : List (Option (List ℕ)) → Bool
all_some [] = true
all_some (value ∷ values) = is_some value && all_some values

-- A vector that can be copied: its count is not negative, leaves room for one entry more in an
-- `int32_t`, and names no NULL entry.
abbrev pub is_vector : Option (List (Option (List ℕ))) → ℤ → Bool
is_vector values count =
    not (ltb_ℤ count (pos 0) || ltb (0x7fffffff - 1) (pos_part count))
    && all_some (read_entries values (pos_part count))

module _ (malloc : List Call → (size : ℕ) → ℕ) where
  copy_string-made :
      ((log : List Call) (size : ℕ) → malloc log size ≢ 0)
      → (value : List ℕ) (log : List Call) → is_some (copy_string malloc (some value) log).1 ≡ true
  unfolding copy_string
  copy_string-made enough value log = elim (Bool-cases (malloc log (length value + 1) == 0)) [
    | inl z ↦ absurd (enough log (length value + 1) (ground arith))
    | inr z ↦ rw z
  ]

  -- Without a lack of memory the loop ends by the values alone.
  copy_entries-ends :
      ((log : List Call) (size : ℕ) → malloc log size ≢ 0)
      → (values : List (Option (List ℕ))) (done : List (Option Text)) (log : List Call)
      → (copy_entries malloc values done log).2
        ≡ (if all_some values then all_copied else null_entry)
  unfolding copy_entries
  copy_entries-ends enough [] done log = refl
  copy_entries-ends enough (none ∷ values) done log = refl
  copy_entries-ends enough (some value ∷ values) done log =
      elim (Option-cases (copy_string malloc (some value) log).1) [
        | inl z ↦ absurd (missing z)
        | inr (t, z) ↦
            rw (z, copy_entries)
              (copy_entries-ends enough values (done ++ some t ∷ [])
                (copy_string malloc (some value) log).0)
      ]
    where
      missing : (copy_string malloc (some value) log).1 ≢ none
      missing z = ground (arith, copy_string-made enough value log, ap is_some z)

  module _ (enough : (log : List Call) (size : ℕ) → malloc log size ≢ 0) where
    finish_vector-made :
        (a : ℕ) (values : List (Option (List ℕ))) (r : List Call × List (Option Text) × Copying)
        → r.2 ≡ (if all_some values then all_copied else null_entry)
        → is_some (finish_vector malloc a r).1 ≡ all_some values
    unfolding finish_vector
    finish_vector-made a values (log, done, all_copied) h = ground arith
    finish_vector-made a values (log, done, null_entry) h = ground arith
    finish_vector-made a values (log, done, no_memory) h = ground arith

    copy_string_vector-made :
        (values : Option (List (Option (List ℕ)))) (count : ℤ) (e : Option PtyError)
        (log : List Call)
        → is_some (copy_string_vector malloc values count 1 e log).1 ≡ is_vector values count
    unfolding copy_string_vector
    copy_string_vector-made values count e log =
        elim (Bool-cases (ltb_ℤ count (pos 0) || ltb (0x7fffffff - 1) (pos_part count))) [
          | inl bad ↦ rw bad refl
          | inr good ↦ rw good (elim (Bool-cases (malloc log ((pos_part count + 1) * 8) == 0)) [
            | inl z ↦ absurd (enough log ((pos_part count + 1) * 8) (ground arith))
            | inr z ↦ rw z (
                let a = malloc log ((pos_part count + 1) * 8) in
                let entries = read_entries values (pos_part count) in
                finish_vector-made a entries (copy_entries malloc entries [] (allocated a ∷ log))
                  (copy_entries-ends enough entries [] (allocated a ∷ log)))
          ])
        ]

    copy_string-there :
        (value : Option (List ℕ)) (log : List Call)
        → (is_some value && not (is_some (copy_string malloc value log).1)) ≡ false
    copy_string-there none log = refl
    copy_string-there (some value) log = rw (copy_string-made enough value log) refl

    clone_directory-ok :
        (source : Options) (o : Owned) (e : Option PtyError) (log : List Call)
        → (clone_directory malloc source o e log).ok ≡ true
    unfolding clone_directory
    clone_directory-ok source o e log = rw (copy_string-there source.working_directory log) refl

    clone_environment-ok :
        (source : Options) (o : Owned) (e : Option PtyError) (log : List Call)
        → (clone_environment malloc source o e log).ok
          ≡ is_vector source.environment source.environment_count
    unfolding clone_environment
    clone_environment-ok source o e log =
        let r = copy_string_vector malloc source.environment source.environment_count 1 e log in
        let made = copy_string_vector-made source.environment source.environment_count e log in
        elim (Bool-cases (is_some r.1)) [
          | inl there ↦
              rw (there, clone_environment)
                (clone_directory-ok source (record o { environment = r.1 }) r.2 r.0
                  ∙ sym there
                  ∙ made)
          | inr bad ↦ rw (bad, clone_environment) (sym bad ∙ made)
        ]

    clone_arguments-ok :
        (source : Options) (o : Owned) (e : Option PtyError) (log : List Call)
        → (clone_arguments malloc source o e log).ok ≡ (
            is_vector source.arguments source.argument_count
            && is_vector source.environment source.environment_count)
    unfolding clone_arguments
    clone_arguments-ok source o e log =
        let r = copy_string_vector malloc source.arguments source.argument_count 1 e log in
        let made = copy_string_vector-made source.arguments source.argument_count e log in
        elim (Bool-cases (is_some r.1)) [
          | inl there ↦
              rw (sym made, there, clone_arguments)
                (clone_environment-ok source (record o { arguments = r.1 }) r.2 r.0)
          | inr bad ↦ rw (sym made, bad, clone_arguments) refl
        ]

    -- Where memory never runs out, cloning options that are not NULL succeeds exactly when both
    -- vectors can be copied: their counts are not negative, leave room for one entry more in an
    -- `int32_t`, and name no NULL entry.
    pub clone_options-ok :
        (source : Options) (destination : Owned) (e : Option PtyError) (log : List Call)
        → (clone_options malloc (some source) destination e log).ok ≡ (
            is_vector source.arguments source.argument_count
            && is_vector source.environment source.environment_count)
    unfolding clone_options
    clone_options-ok source destination e log =
        let copy = copy_string malloc source.executable log in
        let o = record no_options { options = source; executable = copy.1 } in
        rw (copy_string-there source.executable log) (clone_arguments-ok source o e copy.0)
