-- ===== src/Unix/Spawn/Path/Search.antt =====
-- Which program the search of src/unix/pty_unix_spawn.c finds.
use flutter_pty.Prelude.{
  ℕ, zero, suc, ◌+◌, ◌≤◌, ◌<◌, ◌^◌, ◌≡◌, ◌≢◌, refl, ap, ◌∙◌, Bool, true, false, ◌||◌, List, [], ◌∷◌,
  Option, none, some, ◌⊎◌, inl, inr, arith, ltb, ◌==◌, if◌then◌else◌, length, length-append,
  Option-cases, Bool-cases,
}
use flutter_pty.Prelude.Words.{sub64, size_max}
use flutter_pty.Prelude.Text.{codes}
use flutter_pty.Errors.{PtyError}
use flutter_pty.Unix.Spawn.System.{Call}
use flutter_pty.Unix.Spawn.Strings.{Text, free_text, copy_string}
use flutter_pty.Unix.Spawn.Options.{view_text}
use flutter_pty.Unix.Spawn.Path.{
  Result, ok, failed, Access, allowed, denied, Try, unbuilt, found, missed, Round, stop, next,
  until_colon, join_path, access_joined, access_path, directory_text, answer_candidate,
  try_candidate, end_round, try_directory, after_round, Resolved, eacces, try_segment, search,
  resolve_executable, is_absolute_path, contains_slash, environment_value, search_path, joined,
  needs_separator,
}
use flutter_pty.Unix.Spawn.Path.Entries.{
  split, entries, split-until_colon, Shorter, until_colon-Shorter,
}

-- An empty entry is the directory the program starts in.
abbrev pub entry_directory : List ℕ → List ℕ
entry_directory [] = b'.' ∷ []
entry_directory (c ∷ cs) = c ∷ cs

-- What a path names, seen from the working directory.
abbrev pub seen_from : Option (List ℕ) → List ℕ → List ℕ
seen_from none path = path
seen_from (some []) path = path
seen_from (some (c ∷ cs)) path = if is_absolute_path path then path else joined (c ∷ cs) path

abbrev pub is_allowed : Access → Bool
is_allowed allowed = true
is_allowed (denied errno) = false

-- The first candidate that may run.
abbrev pub first_allowed :
    (look : List ℕ → Access) → Option (List ℕ) → List ℕ → List (List ℕ) → Option (List ℕ)
first_allowed look wd executable [] = none
first_allowed look wd executable (e ∷ es) =
    let candidate = joined (entry_directory e) executable in
    let later = first_allowed look wd executable es in
    if is_allowed (look (seen_from wd candidate)) then some candidate else later

abbrev answer : List ℕ → Access → Option (List ℕ) ⊎ ℕ
answer candidate allowed = inl (some candidate)
answer candidate (denied errno) = inr errno

abbrev view_round : Round → Option (List ℕ) ⊎ ℕ
view_round (stop log t e) = inl (view_text t)
view_round (next log errno) = inr errno

abbrev view_try : Try → Option (List ℕ) ⊎ ℕ
view_try (unbuilt log errno) = inl none
view_try (found log t) = inl (some t.bytes)
view_try (missed log t errno) = inr errno

abbrev pub wd_length : Option (List ℕ) → ℕ
wd_length none = 0
wd_length (some path) = length path

length-joined : (d n : List ℕ) → length (joined d n) ≤ length d + length n + 1
length-joined d n = elim (Bool-cases (needs_separator d)) [
  | inl e ↦ rw e (omega (arith, length-append d (b'/' ∷ n)))
  | inr e ↦ rw e (omega (arith, length-append d n))
]

stop_answer :
    (shown : Option (List ℕ)) (candidate : List ℕ) (b : Access) (later : Option (List ℕ))
    → ◌≡◌ {A = Option (List ℕ) ⊎ ℕ} (inl shown) (answer candidate b)
    → shown ≡ (if is_allowed b then some candidate else later)
stop_answer shown candidate allowed later h = ground arith
stop_answer shown candidate (denied errno) later h = ground arith

next_answer :
    (errno : ℕ) (candidate : List ℕ) (b : Access) (later : Option (List ℕ))
    → ◌≡◌ {A = Option (List ℕ) ⊎ ℕ} (inr errno) (answer candidate b)
    → later ≡ (if is_allowed b then some candidate else later)
next_answer errno candidate allowed later h = ground arith
next_answer errno candidate (denied errno1) later h = refl

module _ (strerror : ℕ → List ℕ) (malloc : List Call → (size : ℕ) → ℕ)
    (access : List Call → (path : List ℕ) → Access) (look : List ℕ → Access)
    (enough : (log : List Call) (size : ℕ) → malloc log size ≢ 0)
    (steady : (log : List Call) (path : List ℕ) → access log path ≡ look path) where
  view_result : Result Text → Option (List ℕ)
  view_result (ok t) = some t.bytes
  view_result (failed errno) = none

  join_path-joined :
      (d n : List ℕ) (log : List Call)
      → length d + length n + 2 < 2 ^ 63
      → view_result (join_path strerror malloc access d n log).1 ≡ some (joined d n)
  unfolding join_path view_result
  join_path-joined d n log h =
      let separator : ℕ = if needs_separator d then 1 else 0 in
      let size = length d + length n + separator + 1 in
      elim (Bool-cases (ltb (sub64 (sub64 (sub64 size_max (length n)) separator) 1) (length d))) [
        | inl bad ↦ ground arith
        | inr good ↦ rw good (elim (Bool-cases (malloc log size == 0)) [
          | inl out ↦ absurd (enough log size (ground arith))
          | inr there ↦ rw there refl
        ])
      ]

  access_joined-seen :
      (r : List Call × Result Text) (path : List ℕ)
      → view_result r.1 ≡ some path
      → (access_joined strerror malloc access r).1 ≡ look path
  unfolding access_joined view_result
  access_joined-seen (log, ok t) path e = steady log t.bytes ∙ ap look (ground arith)
  access_joined-seen (log, failed errno) path e = ground arith

  access_path-seen :
      (wd : Option (List ℕ)) (path : List ℕ) (log : List Call)
      → length path + wd_length wd + 2 < 2 ^ 63
      → (access_path strerror malloc access path wd log).1 ≡ look (seen_from wd path)
  unfolding access_path access_joined
  access_path-seen none path log h = steady log path
  access_path-seen (some []) path log h = steady log path
  access_path-seen (some (c ∷ cs)) path log h = elim (Bool-cases (is_absolute_path path)) [
    | inl e ↦ rw e (steady log path)
    | inr e ↦ rw e (
        access_joined-seen (join_path strerror malloc access (c ∷ cs) path log)
          (joined (c ∷ cs) path) (join_path-joined (c ∷ cs) path log (omega (arith, h))))
  ]

  copy_string-bytes :
      (value : List ℕ) (log : List Call)
      → view_text (copy_string malloc (some value) log).1 ≡ some value
  unfolding copy_string
  copy_string-bytes value log = elim (Bool-cases (malloc log (length value + 1) == 0)) [
    | inl z ↦ absurd (enough log (length value + 1) (ground arith))
    | inr z ↦ rw z refl
  ]

  directory_text-entry :
      (segment : List ℕ) (log : List Call)
      → view_text (directory_text strerror malloc access segment log).1
        ≡ some (entry_directory segment)
  unfolding directory_text
  directory_text-entry [] log =
      let first = copy_string malloc (some []) log in
      elim (Option-cases first.1) [
        | inl e ↦ absurd (ground (arith, copy_string-bytes [] log, ap view_text e))
        | inr (t, e) ↦
            rw (e, directory_text) (copy_string-bytes (b'.' ∷ []) (free_text (some t) first.0))
      ]
  directory_text-entry (c ∷ cs) log = copy_string-bytes (c ∷ cs) log

  answer_candidate-answer :
      (t : Text) (r : List Call × Access)
      → view_try (answer_candidate strerror malloc access t r) ≡ answer t.bytes r.1
  unfolding answer_candidate
  answer_candidate-answer t (log, allowed) = refl
  answer_candidate-answer t (log, denied errno) = refl

  try_candidate-answer :
      (wd : Option (List ℕ)) (r : List Call × Result Text) (path : List ℕ)
      → length path + wd_length wd + 2 < 2 ^ 63
      → view_result r.1 ≡ some path
      → view_try (try_candidate strerror malloc access wd r)
        ≡ answer path (look (seen_from wd path))
  unfolding try_candidate view_result
  try_candidate-answer wd (log, failed errno) path h e = ground arith
  try_candidate-answer wd (log, ok t) path h e =
      let same : t.bytes ≡ path = ground arith in
      answer_candidate-answer t (access_path strerror malloc access t.bytes wd log)
      ∙ ap (answer t.bytes) (access_path-seen wd t.bytes log (rw same h))
      ∙ ap (λ (p : List ℕ). answer p (look (seen_from wd p))) same

  end_round-view :
      (e : Option PtyError) (d : Text) (t : Try)
      → view_round (end_round strerror malloc access e d t) ≡ view_try t
  unfolding end_round
  end_round-view e d (unbuilt log errno) = refl
  end_round-view e d (found log t) = refl
  end_round-view e d (missed log t errno) = refl

  try_directory-answer :
      (executable : List ℕ) (wd : Option (List ℕ)) (e : Option PtyError)
      (r : List Call × Option Text × List ℕ) (directory : List ℕ)
      → length directory + length executable + wd_length wd + 3 < 2 ^ 63
      → view_text r.1 ≡ some directory
      → let candidate = joined directory executable in
        view_round (try_directory strerror malloc access executable wd e r)
        ≡ answer candidate (look (seen_from wd candidate))
  unfolding try_directory
  try_directory-answer executable wd e (log, none, message) directory h k = ground arith
  try_directory-answer executable wd e (log, some d, message) directory h k =
      let same : d.bytes ≡ directory = ground arith in
      let candidate = joined directory executable in
      let r = join_path strerror malloc access d.bytes executable log in
      end_round-view e d (try_candidate strerror malloc access wd r)
      ∙ try_candidate-answer wd r candidate (omega (arith, h, length-joined directory executable)) (
          join_path-joined d.bytes executable log (rw same (omega (arith, h)))
          ∙ ap (λ (p : List ℕ). some (joined p executable)) same)

  -- After a round: the candidate of this entry, or what the next rounds find.
  after_round-first :
      (further : List ℕ → Bool → List Call → Resolved) (e : Option PtyError) (saw : Bool)
      (executable : List ℕ) (wd : Option (List ℕ)) (split_path : List ℕ × Option (List ℕ))
      (r : Round)
      → let candidate = joined (entry_directory split_path.0) executable in
        view_round r ≡ answer candidate (look (seen_from wd candidate))
        → ((rest : List ℕ) (saw1 : Bool) (log1 : List Call)
            → split_path.1 ≡ some rest
            → view_text (further rest saw1 log1).1 ≡ first_allowed look wd executable (split rest))
        → view_text (after_round strerror malloc access further e saw split_path.1 r).1
          ≡ first_allowed look wd executable (entries split_path)
  unfolding after_round entries
  after_round-first further e saw executable wd (segment, none) (stop log1 t e1) h k =
      let candidate = joined (entry_directory segment) executable in
      stop_answer (view_text t) candidate (look (seen_from wd candidate)) none h
  after_round-first further e saw executable wd (segment, some rest) (stop log1 t e1) h k =
      let candidate = joined (entry_directory segment) executable in
      stop_answer (view_text t) candidate (look (seen_from wd candidate))
        (first_allowed look wd executable (split rest)) h
  after_round-first further e saw executable wd (segment, none) (next log1 errno) h k =
      let candidate = joined (entry_directory segment) executable in
      next_answer errno candidate (look (seen_from wd candidate)) none h
  after_round-first further e saw executable wd (segment, some rest) (next log1 errno) h k =
      let candidate = joined (entry_directory segment) executable in
      k rest (saw || errno == eacces) log1 refl
      ∙ next_answer errno candidate (look (seen_from wd candidate))
          (first_allowed look wd executable (split rest)) h

  search-first :
      (fuel : ℕ) (executable : List ℕ) (wd : Option (List ℕ)) (e : Option PtyError) (start : List ℕ)
      (saw : Bool) (log : List Call)
      → length start < fuel
      → length start + length executable + wd_length wd + 4 < 2 ^ 63
      → view_text (search strerror malloc access fuel executable wd e start saw log).1
        ≡ first_allowed look wd executable (split start)
  unfolding search try_segment Shorter
  search-first zero executable wd e start saw log h small = absurd (omega arith)
  search-first (suc fuel) executable wd e start saw log h small = rw (split-until_colon start) (
      after_round-first further e saw executable wd parts
        (try_segment strerror malloc access executable wd e parts.0 log)
        (try_directory-answer executable wd e (directory_text strerror malloc access parts.0 log)
          (entry_directory parts.0) (omega (arith, small, fits parts shorter))
          (directory_text-entry parts.0 log))
        (λ rest saw1 log1 more.
          search-first fuel executable wd e rest saw1 log1
            (omega (arith, h, smaller parts shorter rest more))
            (omega (arith, small, smaller parts shorter rest more))))
    where
      further : List ℕ → Bool → List Call → Resolved
      further rest saw1 log1 = search strerror malloc access fuel executable wd e rest saw1 log1

      parts : List ℕ × Option (List ℕ)
      parts = until_colon start

      shorter : Shorter (length start) parts
      shorter = until_colon-Shorter start

      fits :
          (r : List ℕ × Option (List ℕ))
          → Shorter (length start) r
          → length (entry_directory r.0) ≤ length start + 1
      fits ([], none) k = omega arith
      fits ([], some rest) k = omega arith
      fits (c ∷ cs, none) k = omega (arith, k)
      fits (c ∷ cs, some rest) k = omega (arith, k)

      smaller :
          (r : List ℕ × Option (List ℕ))
          → Shorter (length start) r
          → (rest : List ℕ) → r.1 ≡ some rest
          → length rest + 1 ≤ length start
      smaller (segment, none) k rest more = ground arith
      smaller (segment, some rest1) k rest more =
          let same : rest1 ≡ rest = ground arith in
          omega (arith, k, ap (λ (l : List ℕ). length l) same)

  -- Where memory never runs out, `access` answers by the path alone, and the strings together are far
  -- from filling the address space, the search for a program that is named without a slash returns the
  -- first candidate that may run: of the entries of PATH, or of the default path, in their order, each
  -- with the name behind it, an empty one being ".", and seen from the working directory.
  pub resolve_executable-first_allowed :
      (executable : List ℕ) (wd : Option (List ℕ)) (environment : List (Option (List ℕ)))
      (e : Option PtyError) (log : List Call)
      → contains_slash executable ≡ false
      → let path = search_path (environment_value environment (codes "PATH")) in
        length path + length executable + wd_length wd + 4 < 2 ^ 63
        → view_text (resolve_executable strerror malloc access executable wd environment e log).1
          ≡ first_allowed look wd executable (split path)
  unfolding resolve_executable
  resolve_executable-first_allowed executable wd environment e log searched small =
      let path = search_path (environment_value environment (codes "PATH")) in
      rw searched
        (search-first (length path + 1) executable wd e path false log (omega arith) small)
