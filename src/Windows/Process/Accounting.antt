-- ===== src/Windows/Process/Accounting.antt =====
-- Who owns what after `pty_windows_create_process` of src/windows/pty_windows_spawn.c.
use flutter_pty.Prelude.{
  ℕ, ◌≡◌, Bool, true, false, not, ◌&&◌, ◌||◌, List, [], ◌∷◌, Option, is_some, ◌==◌, arith,
}
use flutter_pty.Errors.{PtyError}
use flutter_pty.Stats.{Stats}
use flutter_pty.Unix.Spawn.Options.{Options}
use flutter_pty.Windows.Process.{
  Item, read_in, write_in, read_out, write_out, console, job_object, attribute_memory,
  attribute_list, wide_command, wide_environment, wide_directory, process_handle, thread_handle,
  Act, acquired, released, process_ended, ProcessSystem, Creation, free_texts, failure,
  process_failure, success, create_suspended, check_directory, build_texts, update_attributes,
  make_attributes, close_ends, make_job, make_console, make_output, windows_create_process,
}

abbrev number : Item → ℕ
number read_in = 0
number write_in = 1
number read_out = 2
number write_out = 3
number console = 4
number job_object = 5
number attribute_memory = 6
number attribute_list = 7
number wide_command = 8
number wide_environment = 9
number wide_directory = 10
number process_handle = 11
number thread_handle = 12

abbrev is_item : Item → Item → Bool
is_item i j = number i == number j

-- Whether it was acquired and not released since.
abbrev pub holds : Item → List Act → Bool
holds i [] = false
holds i (acquired j ∷ acts) = is_item i j || holds i acts
holds i (released j ∷ acts) = not (is_item i j) && holds i acts
holds i (process_ended ∷ acts) = holds i acts

-- Nothing is acquired while it is held, or released when it is not; the attribute list goes before its
-- memory, and the program is ended only while there is one.
abbrev pub is_sound : List Act → Bool
is_sound [] = true
is_sound (acquired i ∷ acts) = not (holds i acts) && is_sound acts
is_sound (released attribute_memory ∷ acts) =
    holds attribute_memory acts && not (holds attribute_list acts) && is_sound acts
is_sound (released i ∷ acts) = holds i acts && is_sound acts
is_sound (process_ended ∷ acts) = holds process_handle acts && is_sound acts

-- What the caller gets of a success.
abbrev pub is_output : Item → Bool
is_output write_in = true
is_output read_out = true
is_output console = true
is_output job_object = true
is_output process_handle = true
is_output thread_handle = true
is_output _ = false

pub record Accounted (c : Creation) : Type 0 where
  pub sound : is_sound c.acts ≡ true
  pub held : (i : Item) → holds i c.acts ≡ (c.ok && is_output i)
  pub outputs :
      (is_some c.input_write ≡ c.ok)
      × (is_some c.output_read ≡ c.ok)
      × (is_some c.pseudo_console ≡ c.ok)
      × (is_some c.job ≡ c.ok)
      × (is_some c.process ≡ c.ok)
      × (is_some c.process_thread ≡ c.ok)

-- Wherever the creation of the program fails, and also where it does not: nothing is acquired twice or
-- released twice, the attribute list is deleted before its memory is freed, and a program is ended only
-- while its handle is held. After a failure nothing is held, and all outputs are NULL. After a success
-- exactly the outputs are held: the two ends of the pipes, the console, the job, and the handles of
-- the program and its thread.
pub windows_create_process-Accounted :
    (y : ProcessSystem) (o : Options) (e : Option PtyError) (s : Stats)
    → Accounted (windows_create_process y o e s)
unfolding windows_create_process make_output make_console make_job close_ends make_attributes
    update_attributes build_texts check_directory create_suspended success process_failure failure
    free_texts
windows_create_process-Accounted y o e s = record {
  sound = ground arith;
  held = λ i. ground arith;
  outputs = ground arith;
}
