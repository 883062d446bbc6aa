-- ===== src/Windows/Options/Balance.antt =====
-- Who owns the copies of the options in src/windows/pty_windows_spawn.c.
use flutter_pty.Prelude.{
  ℕ, ◌+◌, ◌*◌, ◌≡◌, refl, ap, List, [], ◌∷◌, Option, none, inl, inr, arith, is_some, ◌&&◌, not,
  Bool-cases,
}
use flutter_pty.Prelude.Int.{ℤ, pos_part}
use flutter_pty.Errors.{PtyError}
use flutter_pty.Unix.Spawn.System.{Call, allocated, Balanced}
use flutter_pty.Unix.Spawn.Strings.{read_entries, copy_string, copy_entries}
use flutter_pty.Unix.Spawn.Options.{Options, Owned, no_options, free_options}
use flutter_pty.Unix.Spawn.Options.Balance.{
  held_text, held_vector, held, Frees, free_options-Frees, copy_string-Balanced,
  copy_entries-Balanced, finish_vector-Balanced, copied_all,
}
use flutter_pty.Windows.Options.{
  windows_free_vector, windows_free_options, windows_copy_string, windows_copy_vector,
  windows_clone_directory, windows_clone_environment, windows_clone_arguments,
  windows_clone_options,
}

module _ (a : ℕ) (malloc : List Call → (size : ℕ) → ℕ) where
  windows_free_options-Frees :
      (o : Owned) (log : List Call) → Frees a log (held a o) (windows_free_options o log).0
  unfolding windows_free_options windows_free_vector free_options
  windows_free_options-Frees o log = free_options-Frees a o log

  windows_copy_vector-Balanced :
      (values : Option (List (Option (List ℕ)))) (count : ℤ) (e : Option PtyError) (log : List Call)
      → Balanced a log 0
          (windows_copy_vector malloc values count e log).0
          (held_vector a (windows_copy_vector malloc values count e log).1 (pos_part count))
  unfolding windows_copy_vector
  windows_copy_vector-Balanced values count e log =
      let n = pos_part count in
      let b = malloc log ((n + 1) * 8) in
      let copied = copy_entries malloc (read_entries values n) [] (allocated b ∷ log) in
      ground (
        arith,
        finish_vector-Balanced a malloc b n log copied,
        copied_all a malloc values n (allocated b ∷ log),
        copy_entries-Balanced a malloc (read_entries values n) [] (allocated b ∷ log),
      )

  clone_directory-Balanced :
      (source : Options) (o : Owned) (e : Option PtyError) (log : List Call)
      → o.working_directory ≡ none
      → let c = windows_clone_directory malloc source o e log in
        Balanced a log (held a o) c.log (held a c.owned)
  unfolding windows_clone_directory windows_copy_string
  clone_directory-Balanced source o e log no_directory =
      let copy = copy_string malloc source.working_directory log in
      let made = copy_string-Balanced a malloc source.working_directory log in
      elim (Bool-cases (is_some source.working_directory && not (is_some copy.1))) [
        | inl out ↦ rw out (omega (arith, made, ap (held_text a) no_directory))
        | inr kept ↦ rw kept (omega (arith, made, ap (held_text a) no_directory))
      ]

  clone_environment-Balanced :
      (source : Options) (o : Owned) (e : Option PtyError) (log : List Call)
      → o.options ≡ source
      → o.environment ≡ none
      → o.working_directory ≡ none
      → let c = windows_clone_environment malloc source o e log in
        Balanced a log (held a o) c.log (held a c.owned)
  unfolding windows_clone_environment
  clone_environment-Balanced source o e log options no_environment no_directory =
      let copy = windows_copy_vector malloc source.environment source.environment_count e log in
      let made = windows_copy_vector-Balanced source.environment source.environment_count e log in
      let o1 = record o { environment = copy.1 } in
      let rest = clone_directory-Balanced source o1 copy.2 copy.0 no_directory in
      let counts =
        ap (λ (p : Options). held_vector a copy.1 (pos_part p.environment_count)) options in
      let before =
        ap (λ v. held_vector a v (pos_part o.options.environment_count)) no_environment in
      elim (Bool-cases (is_some copy.1)) [
        | inl kept ↦ rw kept (omega (arith, rest, made, counts, before))
        | inr out ↦ rw out (omega (arith, made, counts, before))
      ]

  clone_arguments-Balanced :
      (source : Options) (o : Owned) (e : Option PtyError) (log : List Call)
      → o.options ≡ source
      → o.arguments ≡ none
      → o.environment ≡ none
      → o.working_directory ≡ none
      → let c = windows_clone_arguments malloc source o e log in
        Balanced a log (held a o) c.log (held a c.owned)
  unfolding windows_clone_arguments
  clone_arguments-Balanced source o e log options no_arguments no_environment no_directory =
      let copy = windows_copy_vector malloc source.arguments source.argument_count e log in
      let made = windows_copy_vector-Balanced source.arguments source.argument_count e log in
      let o1 = record o { arguments = copy.1 } in
      let rest =
        clone_environment-Balanced source o1 copy.2 copy.0 options no_environment no_directory in
      let counts = ap (λ (p : Options). held_vector a copy.1 (pos_part p.argument_count)) options in
      let before = ap (λ v. held_vector a v (pos_part o.options.argument_count)) no_arguments in
      elim (Bool-cases (is_some copy.1)) [
        | inl kept ↦ rw kept (omega (arith, rest, made, counts, before))
        | inr out ↦ rw out (omega (arith, made, counts, before))
      ]

  clone_options-Balanced :
      (source : Options) (e : Option PtyError) (log : List Call)
      → let c = windows_clone_options malloc source e log in Balanced a log 0 c.log (held a c.owned)
  unfolding windows_clone_options windows_copy_string
  clone_options-Balanced source e log =
      let copy = copy_string malloc source.executable log in
      let made = copy_string-Balanced a malloc source.executable log in
      let o = record no_options { options = source; executable = copy.1 } in
      let rest = clone_arguments-Balanced source o e copy.0 refl refl refl refl in
      elim (Bool-cases (is_some copy.1)) [
        | inl kept ↦ rw kept (omega (arith, rest, made))
        | inr out ↦ rw out (omega (arith, made))
      ]

  -- However many of the allocations fail, and whatever the options are, freeing the options after
  -- they were cloned, as the caller does also when cloning failed, leaves no block behind and
  -- frees none twice: since before the clone each address was freed as often as it was given.
  pub windows_free_options-windows_clone_options :
      (source : Options) (e : Option PtyError) (log : List Call)
      → let c = windows_clone_options malloc source e log in
        Balanced a log 0 (windows_free_options c.owned c.log).0 0
  windows_free_options-windows_clone_options source e log =
      let c = windows_clone_options malloc source e log in
      omega (arith, clone_options-Balanced source e log, windows_free_options-Frees c.owned c.log)
