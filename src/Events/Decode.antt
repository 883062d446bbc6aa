-- ===== src/Events/Decode.antt =====
-- `NativeEvent.parse` of lib/src/internal/native_event.dart, which reads the messages that
-- src/common/pty_event.c posts. `none` stands for its `FormatException`.
use flutter_pty.Prelude.{
  ◌>>=◌, ◌>>◌, ℕ, zero, suc, ◌+◌, ◌≡◌, refl, Bool, true, false, List, [], ◌∷◌, Option, none, some,
  ◌==◌, if◌then◌else◌, length,
}
use flutter_pty.Prelude.Int.{ℤ, pos, negsuc}
use flutter_pty.Errors.{PtyError, Domain, Kind, domain_code, kind_code}
use flutter_pty.Events.{
  CObject, int32, int64, string, uint8_list, Event, to_int64, error_fields, message,
}

-- The enumerations of lib/src/pty_exception.dart, which have no value for "no error".
pub data DartDomain : Type 0 where
  posix win32 hresult internal : DartDomain

pub data DartKind : Type 0 where
  invalid_argument not_found permission_denied spawn_failed working_directory_failed io : DartKind
  closed unsupported out_of_memory internal : DartKind

-- `PtyNativeError`
pub record NativeError : Type 0 where
  pub domain : DartDomain
  pub kind : DartKind
  pub code : ℤ
  pub message : List ℕ

-- `PtyExit`
pub data PtyExit : Type 0 where
  exit_code : ℤ → PtyExit
  signal_exit : ℤ → PtyExit

pub data NativeEvent : Type 0 where
  spawned : (pid : ℤ) (capabilities : ℤ) → NativeEvent
  spawn_failed : NativeError → NativeEvent
  output : List ℕ → NativeEvent
  output_closed : NativeEvent
  write_complete : ℤ → NativeEvent
  writable : NativeEvent
  input_closed : NativeError → NativeEvent
  process_exit : PtyExit → NativeEvent
  async_error : NativeError → NativeEvent
  session_closed : NativeEvent

abbrev get_elem? {ℓ} : {A : Type ℓ} → List A → ℕ → Option A
get_elem? [] i = none
get_elem? (x ∷ xs) zero = some x
get_elem? (x ∷ xs) (suc i) = get_elem? xs i

-- An integer of either width is a Dart `int`.
int_of : Option CObject → Option ℤ
int_of (some (int32 n)) = some n
int_of (some (int64 n)) = some n
int_of _ = none

read_int : List CObject → ℕ → Option ℤ
unfolding int_of
read_int message index = int_of (get_elem? message index)

bytes_of : Option CObject → Option (List ℕ)
bytes_of (some (uint8_list b)) = some b
bytes_of _ = none

read_bytes : List CObject → ℕ → Option (List ℕ)
unfolding bytes_of
read_bytes message index = bytes_of (get_elem? message index)

expect_length : List CObject → ℕ → Option (Unit {0})
expect_length message expected = if length message == expected then some tt else none

-- `_enumValue`: the values count from 1.
enum_value : {T : Type 0} → List T → ℤ → Option T
enum_value values (pos zero) = none
enum_value values (pos (suc n)) = get_elem? values n
enum_value values (negsuc n) = none

abbrev domain_values : List DartDomain
domain_values = posix ∷ win32 ∷ hresult ∷ DartDomain.internal ∷ []

abbrev kind_values : List DartKind
kind_values =
    invalid_argument ∷ not_found ∷ permission_denied ∷ DartKind.spawn_failed
    ∷ working_directory_failed ∷ io ∷ closed ∷ unsupported ∷ out_of_memory ∷ DartKind.internal ∷ []

text_of : Option CObject → Option (List ℕ)
text_of (some (string t)) = some t
text_of _ = none

read_error : List CObject → ℕ → Option NativeError
unfolding read_int text_of
read_error message index = do
  domain ← read_int message index
  kind ← read_int message (index + 1)
  code ← read_int message (index + 2)
  text ← text_of (get_elem? message (index + 3))
  d ← enum_value domain_values domain
  k ← enum_value kind_values kind
  some (record { domain = d; kind = k; code = code; message = text })

exit_of : ℤ → ℤ → Option PtyExit
exit_of (pos zero) value = some (exit_code value)
exit_of (pos (suc zero)) value = some (signal_exit value)
exit_of _ value = none

read_exit : List CObject → ℕ → Option PtyExit
unfolding exit_of read_int
read_exit message index = do
  kind ← read_int message index
  value ← read_int message (index + 1)
  exit_of kind value

-- The `_parse…` function that the event type selects.
parse_fields : ℕ → List CObject → Option NativeEvent
unfolding read_int read_bytes expect_length read_error read_exit
parse_fields n m =
    if n == 1
    then (do expect_length m 3; pid ← read_int m 1; c ← read_int m 2; some (spawned pid c))
    else if n == 2
    then (do expect_length m 5; e ← read_error m 1; some (NativeEvent.spawn_failed e))
    else if n == 3
    then (do expect_length m 2; b ← read_bytes m 1; some (output b))
    else if n == 4
    then (do expect_length m 1; some output_closed)
    else if n == 5
    then (do expect_length m 2; i ← read_int m 1; some (write_complete i))
    else if n == 6
    then (do expect_length m 1; some writable)
    else if n == 7
    then (do expect_length m 5; e ← read_error m 1; some (input_closed e))
    else if n == 8
    then (do expect_length m 3; x ← read_exit m 1; some (process_exit x))
    else if n == 9
    then (do expect_length m 5; e ← read_error m 1; some (async_error e))
    else if n == 10
    then (do expect_length m 1; some session_closed)
    else none

parse_type : Option ℤ → List CObject → Option NativeEvent
unfolding parse_fields
parse_type (some (pos n)) m = parse_fields n m
parse_type _ m = none

pub parse : List CObject → Option NativeEvent
unfolding parse_type
parse [] = none
parse (c ∷ cs) = parse_type (read_int (c ∷ cs) 0) (c ∷ cs)

-- What the reader should see of an event: an error only where its domain and kind are set.
domain_view : Domain → Option DartDomain
domain_view Domain.no_domain = none
domain_view Domain.posix = some posix
domain_view Domain.win32 = some win32
domain_view Domain.hresult = some hresult
domain_view Domain.internal_domain = some DartDomain.internal

kind_view : Kind → Option DartKind
kind_view Kind.no_error = none
kind_view Kind.invalid_argument = some invalid_argument
kind_view Kind.not_found = some not_found
kind_view Kind.permission_denied = some permission_denied
kind_view Kind.spawn_failed = some DartKind.spawn_failed
kind_view Kind.working_directory = some working_directory_failed
kind_view Kind.io = some io
kind_view Kind.closed = some closed
kind_view Kind.unsupported = some unsupported
kind_view Kind.out_of_memory = some out_of_memory
kind_view Kind.internal = some DartKind.internal

error_view : Option PtyError → Option NativeError
error_view none = none
error_view (some e) = do
  d ← domain_view e.domain
  k ← kind_view e.kind
  some (record { domain = d; kind = k; code = e.os_code; message = e.message })

exit_view : Bool → ℤ → PtyExit
exit_view true value = signal_exit value
exit_view false value = exit_code value

pub view : Event → Option NativeEvent
unfolding error_view exit_view
view (Event.spawned pid c) = some (spawned pid (to_int64 c))
view (Event.spawn_failed e) = do x ← error_view e; some (NativeEvent.spawn_failed x)
view (Event.output b) = some (output b)
view Event.output_closed = some output_closed
view (Event.write_complete id) = some (write_complete (to_int64 id))
view Event.writable = some writable
view (Event.input_closed e) = do x ← error_view e; some (input_closed x)
view (Event.process_exit s v) = some (process_exit (exit_view s v))
view (Event.async_error e) = do x ← error_view e; some (async_error x)
view Event.session_closed = some session_closed

enum_value-domain : (d : Domain) → enum_value domain_values (pos (domain_code d)) ≡ domain_view d
unfolding enum_value domain_view
enum_value-domain Domain.no_domain = refl
enum_value-domain _ = refl

enum_value-kind : (k : Kind) → enum_value kind_values (pos (kind_code k)) ≡ kind_view k
unfolding enum_value kind_view
enum_value-kind Kind.no_error = refl
enum_value-kind _ = refl

read_error-error_fields :
    (t : CObject) (x : Option PtyError) → read_error (t ∷ error_fields x) 1 ≡ error_view x
unfolding read_error error_view enum_value
read_error-error_fields t none = refl
read_error-error_fields t (some e) = simp (enum_value-domain, enum_value-kind)

expect_error : (t : CObject) (x : Option PtyError) → expect_length (t ∷ error_fields x) 5 ≡ some tt
unfolding expect_length
expect_error t none = refl
expect_error t (some e) = refl

exit_of-exit_view : (s : Bool) (v : ℤ) → exit_of (pos (if s then 1 else 0)) v ≡ some (exit_view s v)
unfolding exit_of exit_view
exit_of-exit_view true v = refl
exit_of-exit_view false v = refl

-- For every event, the Dart side reads back from the posted message exactly the event's view: all
-- fields of an event without an error, and an error exactly when it is given with its domain and
-- kind set.
pub parse-message : (e : Event) → parse (message e) ≡ view e
unfolding parse message view
parse-message (Event.spawn_failed x) = simp (expect_error, read_error-error_fields)
parse-message (Event.input_closed x) = simp (expect_error, read_error-error_fields)
parse-message (Event.async_error x) = simp (expect_error, read_error-error_fields)
parse-message (Event.process_exit s v) = simp exit_of-exit_view
parse-message e = refl
