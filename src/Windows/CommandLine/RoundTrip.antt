-- ===== src/Windows/CommandLine/RoundTrip.antt =====
-- A command line of src/windows/pty_windows_commandline.c read back by the convention's reader.
use flutter_pty.Prelude.Int.{pos}
use flutter_pty.Windows.Wide.{System, utf8_to_wide}
use flutter_pty.Prelude.{
  take, length-take, true, ◌>>=◌, ℕ, zero, suc, ◌<◌, ◌≡◌, refl, sym, ◌∙◌, ap, List, [], ◌∷◌, ◌++◌,
  Option, none, some, arith, ◌==◌, if◌then◌else◌, append_assoc, append-nil, length, Option-cases,
  inl, inr,
}
use flutter_pty.Windows.CommandLine.{
  quote, command_capacity, build_command_line, append_quoted_argument, append_arguments,
  write_command,
}
use flutter_pty.Windows.CommandLine.Reader.{
  read_quoted, quoted, quote_loop-quoted, read_quoted-quoted,
}

-- What follows an argument: the end, or a blank and the remaining arguments, read by `more`.
after : (List ℕ → Option (List (List ℕ))) → List ℕ × List ℕ → Option (List (List ℕ))
after more (w, []) = some (w ∷ [])
after more (w, c ∷ cs) = if c == b' ' then (do ws ← more cs; some (w ∷ ws)) else none

-- An opening quote, and what the reader makes of the rest.
opened : (List ℕ → Option (List (List ℕ))) → List ℕ → Option (List (List ℕ))
unfolding after
opened more [] = none
opened more (c ∷ cs) = if c == quote then (do a ← read_quoted 0 [] cs; after more a) else none

-- Quoted arguments with a blank between two. The fuel bounds their number.
pub read_args : ℕ → List ℕ → Option (List (List ℕ))
unfolding opened
read_args zero input = none
read_args (suc fuel) input = opened (λ rest. read_args fuel rest) input

-- All arguments converted, or none if one is NULL or fails.
pub all_converted : (List ℕ → Option (List ℕ)) → List (Option (List ℕ)) → Option (List (List ℕ))
all_converted convert [] = some []
all_converted convert (none ∷ args) = none
all_converted convert (some a ∷ args) = do
  w ← convert a
  ws ← all_converted convert args
  some (w ∷ ws)

-- What the second loop appends for the arguments.
tail : List (List ℕ) → List ℕ
tail [] = []
tail (w ∷ ws) = b' ' ∷ quote ∷ (quoted 0 w ++ tail ws)

read_args-tail :
    (fuel : ℕ) (w : List ℕ) (ws : List (List ℕ))
    → length ws < fuel
    → read_args fuel (quote ∷ (quoted 0 w ++ tail ws)) ≡ some (w ∷ ws)
unfolding read_args tail
read_args-tail zero w ws h = elim h [ ]
read_args-tail (suc fuel) w [] h = rw (read_quoted-quoted 0 [] w [])
read_args-tail (suc fuel) w (v ∷ vs) h =
    rw (read_quoted-quoted 0 [] w (tail (v ∷ vs)), read_args-tail fuel v vs (omega arith))

append_quoted_argument-quoted :
    (command w : List ℕ) → append_quoted_argument command w ≡ command ++ quote ∷ quoted 0 w
unfolding append_quoted_argument
append_quoted_argument-quoted command w =
    rw (quote_loop-quoted (command ++ quote ∷ []) 0 w)
      (append_assoc command (quote ∷ []) (quoted 0 w))

-- The same after a blank, and before what the later arguments append.
blank-quoted :
    (command w more : List ℕ)
    → append_quoted_argument (command ++ b' ' ∷ []) w ++ more
      ≡ command ++ b' ' ∷ quote ∷ (quoted 0 w ++ more)
blank-quoted command w more =
    rw
      (
        append_quoted_argument-quoted (command ++ b' ' ∷ []) w,
        append_assoc (command ++ b' ' ∷ []) (quote ∷ quoted 0 w) more,
      )
      (append_assoc command (b' ' ∷ []) (quote ∷ (quoted 0 w ++ more)))

module _ (convert : List ℕ → Option (List ℕ)) where
  append_arguments-tail :
      (command : List ℕ) (args : List (Option (List ℕ)))
      → append_arguments convert command args
        ≡ (all_converted convert args >>= λ ws. some (command ++ tail ws))
  unfolding append_arguments all_converted tail
  append_arguments-tail command [] = ap some (sym (append-nil command))
  append_arguments-tail command (none ∷ args) = refl
  append_arguments-tail command (some a ∷ args) = elim (Option-cases (convert a)) [
    | inl e ↦ rw (e, append_arguments, all_converted)
    | inr (w, e) ↦
        rw (e, append_arguments, all_converted)
          (append_arguments-tail (append_quoted_argument (command ++ b' ' ∷ []) w) args
            ∙ regrouped w (all_converted convert args))
  ]
    where
      regrouped :
          (w : List ℕ) (r : Option (List (List ℕ)))
          → (r >>= λ ws. some (append_quoted_argument (command ++ b' ' ∷ []) w ++ tail ws))
            ≡ ((r >>= λ ws. some (w ∷ ws)) >>= λ ws. some (command ++ tail ws))
      regrouped w none = refl
      regrouped w (some ws) = ap some (blank-quoted command w (tail ws))

  all_converted-length :
      (args : List (Option (List ℕ))) (ws : List (List ℕ))
      → all_converted convert args ≡ some ws
      → length ws ≡ length args
  unfolding all_converted
  all_converted-length [] ws e = ground arith
  all_converted-length (none ∷ args) ws e = cc
  all_converted-length (some a ∷ args) ws e = grind (arith, all_converted-length args)

  -- What the loop over the arguments writes after the executable is read back, with enough fuel
  -- for the number of arguments, as the executable and its arguments, in order and as converted;
  -- it fails exactly when one of these is NULL or cannot be converted.
  pub write_command-read_args :
      (fuel : ℕ) (executable : List ℕ) (args : List (Option (List ℕ)))
      → length args < fuel
      → (write_command convert executable args >>= read_args fuel)
        ≡ all_converted convert (some executable ∷ args)
  unfolding write_command all_converted
  write_command-read_args fuel executable args h = elim (Option-cases (convert executable)) [
    | inl e ↦ rw (e, write_command, all_converted)
    | inr (w, e) ↦
        rw
          (
            e,
            write_command,
            all_converted,
            append_arguments-tail (append_quoted_argument [] w) args,
          )
          (read_back w (all_converted convert args) (all_converted-length args))
  ]
    where
      read_back :
          (w : List ℕ) (r : Option (List (List ℕ)))
          → ((ws : List (List ℕ)) → r ≡ some ws → length ws ≡ length args)
          → ((r >>= λ ws. some (append_quoted_argument [] w ++ tail ws)) >>= read_args fuel)
            ≡ (r >>= λ ws. some (w ∷ ws))
      read_back w none k = refl
      read_back w (some ws) k =
          rw (append_quoted_argument-quoted [] w)
            (read_args-tail fuel w ws (omega (arith, k ws refl)))

-- When the capacity can be computed and the buffer's memory is at hand, the command line that is
-- built of an executable and the first `n` of the arguments is read back as these, in order and as
-- converted; nothing is built exactly when one of them is NULL or cannot be converted.
pub build_command_line-read_args :
    (y : System) (executable : List ℕ) (args : List (Option (List ℕ))) (n : ℕ) {capacity : ℕ}
    → command_capacity executable (take n args) ≡ some capacity
    → (build_command_line y true (some executable) (some args) (pos n) >>= read_args (suc n))
      ≡ all_converted (λ text. utf8_to_wide y (some text)) (some executable ∷ take n args)
unfolding build_command_line
build_command_line-read_args y executable args n {capacity} sized =
    let convert : List ℕ → Option (List ℕ) = λ text. utf8_to_wide y (some text) in
    let same : build_command_line y true (some executable) (some args) (pos n)
        ≡ write_command convert executable (take n args) =
      ground arith in
    rw same (
      write_command-read_args convert (suc n) executable (take n args)
        (omega (arith, length-take n args)))
