-- ===== src/Unix/Spawn/Process.antt =====
-- `pty_unix_spawn` of src/unix/pty_unix_spawn.c in the calling process, from `pty_open_serialized` on: the
-- program's path, its arguments and its environment are there. Each call is made at most once, so its
-- answer is a field: `none`, or the error number, which is not 0. The log names what was acquired and released; a
-- descriptor that `move_fd_above` moves keeps its name, and one that it cannot move it closes.
pub mod Accounting
use flutter_pty.Prelude.{
  ℕ, Bool, true, false, not, ◌||◌, List, [], ◌∷◌, Option, none, some, is_some, ◌==◌, if◌then◌else◌,
}
use flutter_pty.Prelude.Int.{ℤ, pos, negsuc, ltb_ℤ}
use flutter_pty.Prelude.Text.{codes}
use flutter_pty.Errors.{
  PtyError, Kind, internal_domain, spawn_failed, working_directory, permission_denied, not_found,
  set, set_errno,
}

pub data Item : Type 0 where
  program_path argv_block envp_block master_end slave_end status_read status_write status_copy
        exit_read exit_write release_read release_write :
      Item

pub data Act : Type 0 where
  acquired : Item → Act
  released : Item → Act
  -- both signals of `cleanup_failed_child`
  stopped : (program : ℤ) → Act

-- What `read_child_error` finds: the end of the pipe once the program runs, a report of the stage and
-- the error number, or neither.
pub data ChildStatus : Type 0 where
  runs : ChildStatus
  reported : (changing_directory : Bool) (errno : ℕ) → ChildStatus
  invalid : ChildStatus

pub record SpawnSystem : Type 0 where
  pub open_terminal : Option ℕ
  pub get_attributes : Option ℕ
  pub set_attributes : Option ℕ
  pub move_above : Item → Option ℕ
  pub close_on_exec : Item → Option ℕ
  -- of the pipe with this end to read
  pub open_pipe : Item → Option ℕ
  pub copy_status : Option ℕ
  pub empty_mask : Option ℕ
  pub fork : Option ℕ
  pub child_status : ChildStatus
  -- the process id that the supervisor reported, if `read_fully` got it
  pub program_id : Option ℤ
  pub set_nonblocking : Option ℕ
  pub strerror : ℕ → List ℕ

-- The error that the caller sees, the log, the process id, and the result.
pub record Spawn : Type 0 where
  pub error : Option PtyError
  pub acts : List Act
  pub process_id : ℤ
  pub ok : Bool

abbrev pub release_all : List Item → List Act → List Act
release_all [] acts = acts
release_all (i ∷ is) acts = release_all is (released i ∷ acts)

-- The blocks, in the order in which they are freed.
abbrev pub blocks : List Item
blocks = argv_block ∷ envp_block ∷ program_path ∷ []

abbrev pub release_if : Bool → Item → List Act → List Act
release_if there i acts = if there then released i ∷ acts else acts

-- `error_number` after two calls that may fail, the later one counting: EIO for none.
abbrev pub last_error : Option ℕ → Option ℕ → ℕ
last_error _ (some e) = if e == 0 then 5 else e
last_error (some e) none = if e == 0 then 5 else e
last_error none none = 5

abbrev pub first_error : Option ℕ → Option ℕ → Option ℕ
first_error (some e) _ = some e
first_error none e = e

module _ (y : SpawnSystem) where
  -- A way out: the items are closed in order, and then the blocks freed.
  abbrev pub quit : Option PtyError → ℕ → List ℕ → List Item → List Act → Spawn
  quit e errno message items acts = record {
    error = set_errno y.strerror e spawn_failed errno (some message);
    acts = release_all blocks (release_all items acts);
    process_id = negsuc 0;
    ok = false;
  }

  -- `cleanup_failed_child`, of which the master is closed first.
  unfoldable pub cleanup_failed_child : Option ℤ → List Act → List Act
  cleanup_failed_child none acts = released master_end ∷ acts
  cleanup_failed_child (some program) acts =
      if ltb_ℤ (pos 0) program
      then stopped program ∷ released master_end ∷ acts
      else released master_end ∷ acts

  abbrev failed_spawn : Option PtyError → List Act → Spawn
  failed_spawn e acts = record { error = e; acts = acts; process_id = negsuc 0; ok = false }

  -- The program runs, and its process id is there.
  unfoldable pub configure_master : ℤ → Option PtyError → List Act → Spawn
  configure_master program e acts = elim y.set_nonblocking [
    | some errno ↦
        failed_spawn
          (set_errno y.strerror e spawn_failed errno (some (codes "configuring PTY master failed")))
          (release_all (exit_read ∷ release_write ∷ slave_end ∷ [])
            (cleanup_failed_child (some program) acts))
    | none ↦ record { error = e; acts = acts; process_id = program; ok = true }
  ]

  abbrev id_missing : Option PtyError → List Act → Spawn
  id_missing e acts =
      failed_spawn
        (set e internal_domain spawn_failed (pos 5)
          (some (codes "reading the spawned process id failed")))
        (released slave_end
          ∷ cleanup_failed_child none (release_all (exit_read ∷ release_write ∷ []) acts))

  unfoldable pub read_program : Option PtyError → List Act → Spawn
  read_program e acts = elim y.program_id [
    | none ↦ id_missing e acts
    | some program ↦
        if ltb_ℤ (pos 0) program then configure_master program e acts else id_missing e acts
  ]

  abbrev child_kind : Bool → ℕ → Kind
  child_kind true errno = working_directory
  child_kind false errno =
      if errno == 13 then permission_denied else if errno == 2 then not_found else spawn_failed

  abbrev abort_child : Option ℤ → List Act → List Act
  abort_child program acts =
      released slave_end
      ∷ cleanup_failed_child program (release_all (exit_read ∷ release_write ∷ []) acts)

  -- What the status pipe says, once it and the blocks are gone.
  unfoldable pub read_status : Option PtyError → List Act → Spawn
  read_status e acts = elim y.child_status [
    | runs ↦ read_program e acts
    | reported changing errno ↦
        failed_spawn
          (set_errno y.strerror e (child_kind changing errno) errno
            (some (codes "Unix child setup failed")))
          (abort_child none acts)
    | invalid ↦
        failed_spawn
          (set e internal_domain spawn_failed (pos 5) (some (codes "invalid exec status response")))
          (abort_child y.program_id acts)
  ]

  -- The ends that a failure from here on closes.
  abbrev all_ends : List Item
  all_ends =
      release_read ∷ release_write ∷ exit_read ∷ exit_write ∷ status_read ∷ status_copy ∷ master_end
      ∷ slave_end ∷ []

  -- The signal mask and the fork; the parent gives up the child's ends.
  unfoldable pub fork_child : Option PtyError → List Act → Spawn
  fork_child e acts = elim y.empty_mask [
    | some errno ↦ quit e errno (codes "preparing child signal mask failed") all_ends acts
    | none ↦ elim y.fork [
      | some errno ↦ quit e errno (codes "fork failed") all_ends acts
      | none ↦
          let given = release_all (status_copy ∷ exit_write ∷ release_read ∷ []) acts in
          read_status e (release_all blocks (released status_read ∷ given))
    ]
  ]

  -- A pipe whose ends are moved and marked, with the items to close if that fails.
  unfoldable pub place_pipe :
      (reading writing : Item)
      → (opening placing : List ℕ) → (others : List Item) → (Option PtyError → List Act → Spawn)
      → Option PtyError
      → List Act
      → Spawn
  place_pipe reading writing opening placing others further e acts = elim (y.open_pipe reading) [
    | some errno ↦ quit e errno opening others acts
    | none ↦
        let opened = acquired writing ∷ acquired reading ∷ acts in
        let r = y.move_above reading in
        let w = y.move_above writing in
        let moved = release_if (is_some w) writing (release_if (is_some r) reading opened) in
        let marked = first_error (y.close_on_exec reading) (y.close_on_exec writing) in
        if is_some r || is_some w
        then quit e (last_error r w) placing others
            (release_if (not (is_some w)) writing (release_if (not (is_some r)) reading moved))
        else elim marked [
          | some errno ↦ quit e errno placing (reading ∷ writing ∷ others) moved
          | none ↦ further e moved
        ]
  ]

  unfoldable pub open_release_pipe : Option PtyError → List Act → Spawn
  unfolding place_pipe
  open_release_pipe e acts =
      place_pipe release_read release_write (codes "creating process release pipe failed")
        (codes "placing process release pipe failed")
        (exit_read ∷ exit_write ∷ status_read ∷ status_copy ∷ master_end ∷ slave_end ∷ [])
        fork_child e acts

  unfoldable pub open_exit_pipe : Option PtyError → List Act → Spawn
  unfolding place_pipe
  open_exit_pipe e acts =
      place_pipe exit_read exit_write (codes "creating exit status pipe failed")
        (codes "placing exit status pipe failed")
        (status_read ∷ status_copy ∷ master_end ∷ slave_end ∷ []) open_release_pipe e acts

  -- The status pipe is there: its end to read is moved, and the other one copied.
  unfoldable pub place_status : Option PtyError → List Act → Spawn
  place_status e acts = elim (y.move_above status_read) [
    | some errno ↦
        quit e (last_error none (some errno)) (codes "moving exec status pipe failed")
          (status_write ∷ master_end ∷ slave_end ∷ []) (released status_read ∷ acts)
    | none ↦ elim y.copy_status [
      | some errno ↦
          quit e errno (codes "placing exec status pipe failed")
            (status_read ∷ status_write ∷ master_end ∷ slave_end ∷ []) acts
      | none ↦ elim (y.close_on_exec status_copy) [
        | some errno ↦
            quit e errno (codes "placing exec status pipe failed")
              (status_read ∷ status_write ∷ status_copy ∷ master_end ∷ slave_end ∷ [])
              (acquired status_copy ∷ acts)
        | none ↦ open_exit_pipe e (released status_write ∷ acquired status_copy ∷ acts)
      ]
    ]
  ]

  unfoldable pub open_status_pipe : Option PtyError → List Act → Spawn
  open_status_pipe e acts = elim (y.open_pipe status_read) [
    | some errno ↦
        quit e errno (codes "creating exec status pipe failed") (master_end ∷ slave_end ∷ []) acts
    | none ↦
        let opened = acquired status_write ∷ acquired status_read ∷ acts in
        elim (first_error (y.close_on_exec status_read) (y.close_on_exec status_write)) [
          | some errno ↦
              quit e errno (codes "configuring exec status pipe failed")
                (status_read ∷ status_write ∷ master_end ∷ slave_end ∷ []) opened
          | none ↦ place_status e opened
        ]
  ]

  -- Both ends of the terminal are moved and marked.
  unfoldable pub prepare_terminal : Option PtyError → List Act → Spawn
  prepare_terminal e acts =
      let m = y.move_above master_end in
      let s = y.move_above slave_end in
      let moved = release_if (is_some s) slave_end (release_if (is_some m) master_end acts) in
      let message = codes "preparing PTY descriptors failed" in
      if is_some m || is_some s
      then quit e (last_error m s) message []
          (release_if (not (is_some s)) slave_end (release_if (not (is_some m)) master_end moved))
      else elim (first_error (y.close_on_exec master_end) (y.close_on_exec slave_end)) [
        | some errno ↦
            quit e (last_error none (some errno)) message (master_end ∷ slave_end ∷ []) moved
        | none ↦ open_status_pipe e moved
      ]

  -- The terminal with its attributes, the blocks being there.
  unfoldable pub spawn_process : Option PtyError → Spawn
  spawn_process e =
      let start = acquired envp_block ∷ acquired argv_block ∷ acquired program_path ∷ [] in
      let opened = acquired slave_end ∷ acquired master_end ∷ start in
      let ends = master_end ∷ slave_end ∷ [] in
      elim y.open_terminal [
        | some errno ↦ quit e errno (codes "openpty failed") [] start
        | none ↦ elim y.get_attributes [
          | some errno ↦ quit e errno (codes "reading PTY terminal attributes failed") ends opened
          | none ↦ elim y.set_attributes [
            | some errno ↦ quit e errno (codes "setting PTY terminal attributes failed") ends opened
            | none ↦ prepare_terminal e opened
          ]
        ]
      ]
