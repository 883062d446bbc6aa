-- ===== src/Windows/CommandLine.antt =====
-- src/windows/pty_windows_commandline.c. A command is the list of the units written into its buffer
-- so far, so `offset` is its length. `convert` stands for `utf8_to_wide`; `none` is its NULL.
pub mod Reader
pub mod RoundTrip
pub mod Bounds
use flutter_pty.Prelude.{
  ℕ, suc, ◌+◌, ◌-◌, ◌*◌, ◌/◌, ◌%◌, Bool, true, false, not, ◌&&◌, ◌||◌, List, [], ◌∷◌, ◌++◌, Option,
  none, some, ltb, ◌==◌, if◌then◌else◌, is_some, length, replicate, take,
}
use flutter_pty.Windows.Wide.{System, utf8_to_wide}
use flutter_pty.Prelude.Words.{u64_mod, size_max, add64, sub64}
use flutter_pty.Prelude.Int.{ℤ, pos, pos_part, ltb_ℤ}

abbrev pub backslash : ℕ
backslash = b'\\'

abbrev pub quote : ℕ
quote = b'"'

-- The loop of `append_quoted_argument`, with its count of backslashes not yet written, and what
-- follows the loop.
unfoldable pub quote_loop : List ℕ → ℕ → List ℕ → List ℕ
quote_loop command backslashes [] = (command ++ replicate (backslashes * 2) backslash) ++ quote ∷ []
quote_loop command backslashes (c ∷ cs) =
    let skip = quote_loop command (backslashes + 1) cs in
    let escaped =
      quote_loop ((command ++ replicate (backslashes * 2 + 1) backslash) ++ quote ∷ []) 0 cs in
    let plain = quote_loop ((command ++ replicate backslashes backslash) ++ c ∷ []) 0 cs in
    if c == backslash then skip else if c == quote then escaped else plain

unfoldable pub append_quoted_argument : List ℕ → List ℕ → List ℕ
append_quoted_argument command argument = quote_loop (command ++ quote ∷ []) 0 argument

-- `(SIZE_MAX - capacity - margin) / 2`, on `size_t`.
abbrev pub room : ℕ → ℕ → ℕ
room capacity margin = sub64 (sub64 size_max capacity) margin / 2

-- The first loop: the capacity after the arguments; `none` is the early return of NULL.
unfoldable pub add_capacities : ℕ → List (Option (List ℕ)) → Option ℕ
add_capacities capacity [] = some capacity
add_capacities capacity (none ∷ args) = none
add_capacities capacity (some a ∷ args) =
    let more = add_capacities (add64 capacity (add64 (length a * 2 % u64_mod) 4)) args in
    if ltb (room capacity 4) (length a) then none else more

-- The capacity that the two lengths and the loop compute.
unfoldable pub command_capacity : List ℕ → List (Option (List ℕ)) → Option ℕ
command_capacity executable args =
    if ltb (room 1 3) (length executable)
    then none
    else add_capacities (add64 1 (add64 (length executable * 2 % u64_mod) 3)) args

-- The units that `malloc(capacity * sizeof(wchar_t))` gives room for.
abbrev pub buffer_units : ℕ → ℕ
buffer_units capacity = capacity * 2 % u64_mod / 2

module _ (convert : List ℕ → Option (List ℕ)) where
  -- The second loop.
  unfoldable pub append_arguments : List ℕ → List (Option (List ℕ)) → Option (List ℕ)
  append_arguments command [] = some command
  append_arguments command (none ∷ args) = none
  append_arguments command (some a ∷ args) = elim (convert a) [
    | none ↦ none
    | some w ↦ append_arguments (append_quoted_argument (command ++ b' ' ∷ []) w) args
  ]

  -- The command from the executable on, once the buffer is there.
  unfoldable pub write_command : List ℕ → List (Option (List ℕ)) → Option (List ℕ)
  write_command executable args = elim (convert executable) [
    | none ↦ none
    | some w ↦ append_arguments (append_quoted_argument [] w) args
  ]

-- The flag says whether `malloc` succeeds. The result is what stands before the terminator.
unfoldable pub build_command_line :
    System → Bool → Option (List ℕ) → Option (List (Option (List ℕ))) → ℤ → Option (List ℕ)
build_command_line y allocated none arguments argument_count = none
build_command_line y allocated (some executable) arguments argument_count =
    if ltb_ℤ argument_count (pos 0) || not (pos_part argument_count == 0) && not (is_some arguments)
    then none
    else build (take (pos_part argument_count) (entries arguments))
  where
    entries : Option (List (Option (List ℕ))) → List (Option (List ℕ))
    entries none = []
    entries (some args) = args

    build : List (Option (List ℕ)) → Option (List ℕ)
    build args = elim (command_capacity executable args) [
      | none ↦ none
      | some capacity ↦
          if allocated
          then write_command (λ text. utf8_to_wide y (some text)) executable args
          else none
    ]
