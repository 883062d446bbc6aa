-- ===== src/Tests/Windows.antt =====
-- The parts of src/windows at concrete inputs, with a conversion that keeps a text without a zero.
use flutter_pty.Prelude.Int.{pos}
use flutter_pty.Windows.Wide.{System, utf8_to_wide}
use flutter_pty.Prelude.{
  take, true, ◌>>=◌, ℕ, zero, suc, ◌+◌, ◌≤◌, ◌≡◌, refl, List, [], ◌∷◌, Option, none, some, arith,
  length, Option-cases, inl, inr,
}
use flutter_pty.Windows.CommandLine.{
  build_command_line, write_command, command_capacity, add_capacities, append_arguments,
  append_quoted_argument, quote_loop, buffer_units,
}
use flutter_pty.Windows.CommandLine.RoundTrip.{
  read_args, all_converted, build_command_line-read_args,
}
use flutter_pty.Windows.CommandLine.Bounds.{write_command-fits}
use flutter_pty.Windows.Environment.{build_environment, add_lengths, copy_entries}
use flutter_pty.Windows.Environment.Block.{
  read_block, all_wide, Keeps, NoneEmpty, build_environment-read_block, copy_entries-fits,
}

abbrev checked : List ℕ → Option (List ℕ)
checked [] = some []
checked (zero ∷ s) = none
checked (suc c ∷ s) = checked s >>= λ w. some (suc c ∷ w)

checked-Keeps : Keeps checked
checked-Keeps [] w e = let same : w ≡ [] = ground arith in rw same (tt, λ k. k)
checked-Keeps (zero ∷ s) w e = ground arith
checked-Keeps (suc c ∷ s) w e = elim (Option-cases (checked s)) [
  | inl k ↦ ground arith
  | inr (v, k) ↦
      let same : w ≡ suc c ∷ v = ground arith in
      rw same ((ground arith, (checked-Keeps s v k).0), λ kept. ground arith)
]

checked-length : (s w : List ℕ) → checked s ≡ some w → length w ≤ length s
checked-length [] w e = let same : w ≡ [] = ground arith in rw same (omega arith)
checked-length (zero ∷ s) w e = ground arith
checked-length (suc c ∷ s) w e = elim (Option-cases (checked s)) [
  | inl k ↦ ground arith
  | inr (v, k) ↦
      let same : w ≡ suc c ∷ v = ground arith in rw same (omega (arith, checked-length s v k))
]

-- The program `a` with the argument `b c`.
abbrev program : List ℕ
program = b'a' ∷ []

abbrev arguments : List (Option (List ℕ))
arguments = some (b'b' ∷ b' ' ∷ b'c' ∷ []) ∷ some (b'\\' ∷ b'"' ∷ []) ∷ []

-- A system that converts with `checked` and has all the memory asked for.
abbrev system : System
system = record {
  count = λ text. pos (suc (length text));
  write = λ text units. checked text;
  allocated = λ units. true;
}

sized : command_capacity program (take 2 arguments) ≡ some 24
unfolding command_capacity add_capacities
sized = refl

build_command_line-read_args_example :
    (build_command_line system true (some program) (some arguments) (pos 2) >>= read_args 3)
    ≡ all_converted (λ text. utf8_to_wide system (some text)) (some program ∷ take 2 arguments)
build_command_line-read_args_example = build_command_line-read_args system program arguments 2 sized

abbrev written_command : List ℕ
written_command =
    b'"' ∷ b'a' ∷ b'"' ∷ b' ' ∷ b'"' ∷ b'b' ∷ b' ' ∷ b'c' ∷ b'"' ∷ b' ' ∷ b'"' ∷ b'\\' ∷ b'\\'
    ∷ b'\\' ∷ b'"' ∷ b'"' ∷ []

written_is : write_command checked program arguments ≡ some written_command
unfolding write_command append_arguments append_quoted_argument quote_loop
written_is = refl

capacity_is : command_capacity program arguments ≡ some 24
unfolding command_capacity add_capacities
capacity_is = refl

write_command-fits_example : length written_command + 1 ≤ buffer_units 24
write_command-fits_example =
    write_command-fits checked checked-length program arguments (ground arith) capacity_is
      written_is

abbrev entries : List (Option (List ℕ))
entries = some (b'A' ∷ b'=' ∷ b'1' ∷ []) ∷ some (b'B' ∷ b'=' ∷ []) ∷ []

entries-NoneEmpty : NoneEmpty entries
entries-NoneEmpty = ground arith

system-Keeps : Keeps (λ text. utf8_to_wide system (some text))
unfolding utf8_to_wide
system-Keeps s w e =
    let converted : checked s ≡ some w = ground arith in checked-Keeps s w converted

measured : add_lengths (λ text. utf8_to_wide system (some text)) 1 (take 2 entries) ≡ some 8
unfolding add_lengths utf8_to_wide
measured = refl

build_environment-read_block_example :
    (build_environment system system true (some entries) (pos 2) >>= read_block [])
    ≡ all_wide (λ text. utf8_to_wide system (some text)) (take 2 entries)
build_environment-read_block_example =
    build_environment-read_block system system entries 2 measured system-Keeps entries-NoneEmpty

lengths_are : add_lengths checked 1 entries ≡ some 8
unfolding add_lengths
lengths_are = refl

abbrev block : List ℕ
block = b'A' ∷ b'=' ∷ b'1' ∷ 0 ∷ b'B' ∷ b'=' ∷ 0 ∷ 0 ∷ []

block_is : copy_entries checked [] entries ≡ some block
unfolding copy_entries
block_is = refl

copy_entries-fits_example : length block ≡ 8
copy_entries-fits_example = copy_entries-fits checked entries (omega arith) lengths_are block_is
