-- ===== src/Windows/CommandLine/Bounds.antt =====
-- The buffer of src/windows/pty_windows_commandline.c, and what the loops write into it.
use flutter_pty.Prelude.{
  ℕ, ◌+◌, ◌*◌, ◌^◌, ◌≤◌, ◌<◌, ◌≡◌, List, [], ◌∷◌, ◌++◌, Option, none, some, arith, ◌==◌, length,
  length-append, length-replicate, replicate, Option-cases, Bool-cases, inl, inr,
}
use flutter_pty.Windows.CommandLine.{
  backslash, quote, quote_loop, append_quoted_argument, append_arguments, write_command,
  add_capacities, command_capacity, buffer_units,
}

length-quote_loop :
    (command : List ℕ) (n : ℕ) (arg : List ℕ)
    → length (quote_loop command n arg) ≤ length command + n * 2 + length arg * 2 + 1
unfolding quote_loop
length-quote_loop command n [] = omega (
  arith,
  length-append (command ++ replicate (n * 2) backslash) (quote ∷ []),
  length-append command (replicate (n * 2) backslash),
  length-replicate (n * 2) backslash,
)
length-quote_loop command n (c ∷ cs) = elim (Bool-cases (c == backslash)) [
  | inl e ↦ rw e (omega (arith, length-quote_loop command (n + 1) cs))
  | inr e ↦ rw e (elim (Bool-cases (c == quote)) [
    | inl q ↦ rw q (
        omega (
          arith,
          length-quote_loop ((command ++ replicate (n * 2 + 1) backslash) ++ quote ∷ []) 0 cs,
          longer (n * 2 + 1) quote,
        ))
    | inr q ↦ rw q (
        omega (
          arith,
          length-quote_loop ((command ++ replicate n backslash) ++ c ∷ []) 0 cs,
          longer n c,
        ))
  ])
]
  where
    longer :
        (k b : ℕ) → length ((command ++ replicate k backslash) ++ b ∷ []) ≡ length command + k + 1
    longer k b = omega (
      arith,
      length-append (command ++ replicate k backslash) (b ∷ []),
      length-append command (replicate k backslash),
      length-replicate k backslash,
    )

length-append_quoted_argument :
    (command arg : List ℕ)
    → length (append_quoted_argument command arg) ≤ length command + length arg * 2 + 2
unfolding append_quoted_argument
length-append_quoted_argument command arg =
    omega
      (arith, length-quote_loop (command ++ quote ∷ []) 0 arg, length-append command (quote ∷ []))

-- The capacity that the arguments need.
abbrev pub required : List (Option (List ℕ)) → ℕ
required [] = 0
required (none ∷ args) = required args
required (some a ∷ args) = length a * 2 + 4 + required args

add_capacities-required :
    (capacity : ℕ) (args : List (Option (List ℕ))) {r : ℕ}
    → capacity + required args < 2 ^ 63
    → add_capacities capacity args ≡ some r
    → r ≡ capacity + required args
unfolding add_capacities
add_capacities-required capacity [] h e = ground arith
add_capacities-required capacity (none ∷ args) h e = cc
add_capacities-required capacity (some a ∷ args) {r} h e =
    ground (arith, add_capacities-required (capacity + (length a * 2 + 4)) args {r = r})

command_capacity-required :
    (executable : List ℕ) (args : List (Option (List ℕ))) {r : ℕ}
    → 4 + length executable * 2 + required args < 2 ^ 63
    → command_capacity executable args ≡ some r
    → r ≡ 4 + length executable * 2 + required args
unfolding command_capacity
command_capacity-required executable args {r} h e =
    ground (arith, add_capacities-required (4 + length executable * 2) args {r = r})

none-ne-some {ℓ} : {A : Type ℓ} {a : A} → ◌≡◌ {A = Option A} none (some a) → ⊥
none-ne-some e = cc

-- `narrow` is what the documentation of `MultiByteToWideChar` gives: a text in UTF-8 has no more
-- UTF-16 units than bytes.
module _ (convert : List ℕ → Option (List ℕ))
    (narrow : (s w : List ℕ) → convert s ≡ some w → length w ≤ length s) where
  length-append_arguments :
      (command : List ℕ) (args : List (Option (List ℕ))) {out : List ℕ}
      → append_arguments convert command args ≡ some out
      → length out ≤ length command + required args
  unfolding append_arguments
  length-append_arguments command [] e = ground arith
  length-append_arguments command (none ∷ args) e = cc
  length-append_arguments command (some a ∷ args) {out} e = elim (Option-cases (convert a)) [
    | inl k ↦ absurd (none-ne-some (rw (k, append_arguments) at e))
    | inr (w, k) ↦ omega (
      arith,
      narrow a w k,
      length-append command (b' ' ∷ []),
      length-append_quoted_argument (command ++ b' ' ∷ []) w,
      length-append_arguments (append_quoted_argument (command ++ b' ' ∷ []) w) args {out = out}
          (rw (k, append_arguments) at e),
    )
  ]

  length-write_command :
      (executable : List ℕ) (args : List (Option (List ℕ))) {out : List ℕ}
      → write_command convert executable args ≡ some out
      → length out ≤ length executable * 2 + 2 + required args
  unfolding write_command
  length-write_command executable args {out} e = elim (Option-cases (convert executable)) [
    | inl k ↦ absurd (none-ne-some (rw (k, write_command) at e))
    | inr (w, k) ↦ omega (
      arith,
      narrow executable w k,
      length-append_quoted_argument [] w,
      length-append_arguments (append_quoted_argument [] w) args {out = out}
          (rw (k, write_command) at e),
    )
  ]

  -- When a conversion gives no more units than there were bytes, and the strings together are far
  -- from filling the address space, the command that is written and its terminator fit into the
  -- buffer that was sized for them.
  pub write_command-fits :
      (executable : List ℕ) (args : List (Option (List ℕ))) {capacity : ℕ} {out : List ℕ}
      → 4 + length executable * 2 + required args < 2 ^ 63
      → command_capacity executable args ≡ some capacity
      → write_command convert executable args ≡ some out
      → length out + 1 ≤ buffer_units capacity
  write_command-fits executable args {capacity} {out} h c e = omega (
    arith,
    command_capacity-required executable args {r = capacity} h c,
    length-write_command executable args {out = out} e,
  )
