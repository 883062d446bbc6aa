-- ===== src/Unix/Spawn/Process/Accounting.antt =====
-- Who owns what after `pty_unix_spawn` of src/unix/pty_unix_spawn.c.
use flutter_pty.Prelude.{
  ℕ, ◌≡◌, Bool, true, false, not, ◌&&◌, ◌||◌, List, [], ◌∷◌, Option, arith, ◌==◌,
}
use flutter_pty.Errors.{PtyError}
use flutter_pty.Unix.Spawn.Process.{
  Item, program_path, argv_block, envp_block, master_end, slave_end, status_read, status_write,
  status_copy, exit_read, exit_write, release_read, release_write, Act, acquired, released, stopped,
  SpawnSystem, Spawn, cleanup_failed_child, configure_master, read_program, read_status, fork_child,
  place_pipe, open_release_pipe, open_exit_pipe, place_status, open_status_pipe, prepare_terminal,
  spawn_process,
}

abbrev number : Item → ℕ
number program_path = 0
number argv_block = 1
number envp_block = 2
number master_end = 3
number slave_end = 4
number status_read = 5
number status_write = 6
number status_copy = 7
number exit_read = 8
number exit_write = 9
number release_read = 10
number release_write = 11

-- Whether it was acquired and not released since.
abbrev pub holds : Item → List Act → Bool
holds i [] = false
holds i (acquired j ∷ acts) = number i == number j || holds i acts
holds i (released j ∷ acts) = not (number i == number j) && holds i acts
holds i (stopped _ ∷ acts) = holds i acts

-- Nothing is acquired while it is held, or released when it is not.
abbrev pub is_sound : List Act → Bool
is_sound [] = true
is_sound (acquired i ∷ acts) = not (holds i acts) && is_sound acts
is_sound (released i ∷ acts) = holds i acts && is_sound acts
is_sound (stopped _ ∷ acts) = is_sound acts

-- What the caller gets of a success.
abbrev pub is_output : Item → Bool
is_output master_end = true
is_output slave_end = true
is_output exit_read = true
is_output release_write = true
is_output _ = false

pub record Settled (s : Spawn) : Type 0 where
  pub sound : is_sound s.acts ≡ true
  pub held : (i : Item) → holds i s.acts ≡ (s.ok && is_output i)

-- Wherever the spawn fails from the opening of the terminal on, and also where it does not: no
-- descriptor is closed twice and no block freed twice. After a failure no descriptor is open and no
-- block left; after a success exactly the terminal's two ends, the end of the exit pipe to read and
-- the end of the release pipe to write are.
pub spawn_process-Settled : (y : SpawnSystem) (e : Option PtyError) → Settled (spawn_process y e)
unfolding spawn_process prepare_terminal open_status_pipe place_status open_exit_pipe
    open_release_pipe place_pipe fork_child read_status read_program configure_master
    cleanup_failed_child
spawn_process-Settled y e = record { sound = ground arith; held = λ i. ground arith }
