-- ===== src/Events.antt =====
-- The messages of src/common/pty_event.c, as `Dart_PostCObject` receives them.
pub mod Decode
use flutter_pty.Prelude.{
  ℕ, ◌-◌, ◌^◌, Bool, true, false, List, [], ◌∷◌, Option, none, some, ltb, if◌then◌else◌,
}
use flutter_pty.Prelude.Int.{ℤ, pos, negsuc}
use flutter_pty.Errors.{PtyError, domain_code, kind_code}

-- The kinds of `Dart_CObject` that the library posts.
pub data CObject : Type 0 where
  int32 : ℤ → CObject
  int64 : ℤ → CObject
  string : List ℕ → CObject
  uint8_list : List ℕ → CObject

-- One constructor for each `pty_post_…`, and `simple` events by name. `none` is a NULL error.
pub data Event : Type 0 where
  spawned : (pid : ℤ) (capabilities : ℕ) → Event
  spawn_failed : Option PtyError → Event
  output : (bytes : List ℕ) → Event
  output_closed : Event
  write_complete : (request_id : ℕ) → Event
  writable : Event
  input_closed : Option PtyError → Event
  process_exit : (signal_exit : Bool) (value : ℤ) → Event
  async_error : Option PtyError → Event
  session_closed : Event

-- `PtyEventType`
abbrev pub event_type : Event → ℕ
event_type (spawned _ _) = 1
event_type (spawn_failed _) = 2
event_type (output _) = 3
event_type output_closed = 4
event_type (write_complete _) = 5
event_type writable = 6
event_type (input_closed _) = 7
event_type (process_exit _ _) = 8
event_type (async_error _) = 9
event_type session_closed = 10

-- `(int64_t)value` of a `uint64_t`: the same 64 bits.
abbrev pub to_int64 : ℕ → ℤ
to_int64 n = if ltb n (2 ^ 63) then pos n else negsuc (2 ^ 64 - 1 - n)

-- The four fields of an error; zeros and an empty text for NULL.
abbrev pub error_fields : Option PtyError → List CObject
error_fields none = int32 (pos 0) ∷ int32 (pos 0) ∷ int64 (pos 0) ∷ string [] ∷ []
error_fields (some e) =
    int32 (pos (domain_code e.domain))
    ∷ int32 (pos (kind_code e.kind))
    ∷ int64 e.os_code
    ∷ string e.message
    ∷ []

abbrev fields : Event → List CObject
fields (spawned pid capabilities) = int64 pid ∷ int64 (to_int64 capabilities) ∷ []
fields (spawn_failed e) = error_fields e
fields (output bytes) = uint8_list bytes ∷ []
fields output_closed = []
fields (write_complete request_id) = int64 (to_int64 request_id) ∷ []
fields writable = []
fields (input_closed e) = error_fields e
fields (process_exit signal_exit value) =
    int32 (pos (if signal_exit then 1 else 0)) ∷ int64 value ∷ []
fields (async_error e) = error_fields e
fields session_closed = []

-- The array that `post_array` posts: the type, then the fields.
unfoldable pub message : Event → List CObject
message e = int32 (pos (event_type e)) ∷ fields e
