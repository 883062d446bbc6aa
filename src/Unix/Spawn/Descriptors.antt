-- ===== src/Unix/Spawn/Descriptors.antt =====
-- The descriptors that the supervisor closes, in src/unix/pty_unix_spawn.c. The state says of each
-- descriptor whether it is open.
use flutter_pty.Prelude.{
  ℕ, zero, suc, ◌+◌, ◌-◌, ◌≤◌, ◌<◌, ◌≡◌, refl, Bool, true, false, ◌&&◌, ◌||◌, List, [], ◌∷◌, arith,
  inl, inr, ltb, leb, ◌==◌, if◌then◌else◌, Bool-cases, subst, sym, ap, ◌∙◌,
}

abbrev close_one : ℕ → (ℕ → Bool) → ℕ → Bool
close_one fd is_open x = if x == fd then false else is_open x

-- The loop of `close_fd_range`, over so many descriptors from the first on.
close_each : (count : ℕ) → (first : ℕ) → (ℕ → Bool) → ℕ → Bool
close_each zero first is_open = is_open
close_each (suc count) first is_open = close_each count (first + 1) (close_one first is_open)

-- `close_fd_range`. `at_once` says whether the call of `close_range` succeeds.
unfoldable pub close_fd_range : (at_once : Bool) → ℕ → ℕ → (is_last : Bool) → (ℕ → Bool) → ℕ → Bool
unfolding close_each
close_fd_range at_once first last is_last is_open =
    if ltb last first
    then is_open
    else if at_once
    then (λ (x : ℕ). if leb first x && (is_last || leb x last) then false else is_open x)
    else close_each (last - first + 1) first is_open

-- The inner loop of `close_fds_except`: the next kept descriptor, from `first` on, or `next`.
unfoldable pub next_kept : ℕ → List ℕ → (next : ℕ) → ℕ
next_kept first [] next = next
next_kept first (k ∷ ks) next = next_kept first ks (if leb first k && ltb k next then k else next)

-- The outer loop of `close_fds_except`; the fuel bounds the kept descriptors that it passes.
unfoldable pub close_from : Bool → ℕ → ℕ → List ℕ → ℕ → (ℕ → Bool) → ℕ → Bool
close_from at_once zero first keep maximum is_open = is_open
close_from at_once (suc fuel) first keep maximum is_open =
    let kept = next_kept first keep maximum in
    let closed = close_fd_range at_once first (kept - 1) (kept == maximum) is_open in
    let rest = close_from at_once fuel (kept + 1) keep maximum closed in
    if kept == maximum then closed else rest

-- `close_fds_except`
unfoldable pub close_fds_except : Bool → List ℕ → ℕ → (ℕ → Bool) → ℕ → Bool
close_fds_except at_once keep maximum is_open =
    close_from at_once (maximum + 1) 3 keep maximum is_open

abbrev pub elem : ℕ → List ℕ → Bool
elem x [] = false
elem x (k ∷ ks) = x == k || elem x ks

close_each-range :
    (count first : ℕ) (is_open : ℕ → Bool) (x : ℕ)
    → close_each count first is_open x
      ≡ (if leb first x && ltb x (first + count) then false else is_open x)
unfolding close_each
close_each-range zero first is_open x = ground arith
close_each-range (suc count) first is_open x =
    ground (arith, close_each-range count (first + 1) (close_one first is_open) x)

-- Below the end, a range closes what lies in it.
close_fd_range-below :
    (at_once : Bool) (first next : ℕ) (is_last : Bool) (is_open : ℕ → Bool) (x maximum : ℕ)
    → 1 ≤ first
    → first ≤ next
    → (is_last ≡ true → next ≡ maximum)
    → x < maximum
    → close_fd_range at_once first (next - 1) is_last is_open x
      ≡ (if leb first x && ltb x next then false else is_open x)
unfolding close_fd_range
close_fd_range-below true first next true is_open x maximum pos le h lt = ground (arith, h refl)
close_fd_range-below true first next false is_open x maximum pos le h lt = ground arith
close_fd_range-below false first next is_last is_open x maximum pos le h lt =
    ground (arith, close_each-range (next - 1 - first + 1) first is_open x)

next_kept-range :
    (first : ℕ) (ks : List ℕ) (next : ℕ)
    → first ≤ next
    → (first ≤ next_kept first ks next) × (next_kept first ks next ≤ next)
unfolding next_kept
next_kept-range first [] next h = (h, omega arith)
next_kept-range first (k ∷ ks) next h =
    ground (arith, next_kept-range first ks (if leb first k && ltb k next then k else next))

next_kept-le : (first : ℕ) (ks : List ℕ) (next : ℕ) → next_kept first ks next ≤ next
unfolding next_kept
next_kept-le first [] next = omega arith
next_kept-le first (k ∷ ks) next =
    ground (arith, next_kept-le first ks (if leb first k && ltb k next then k else next))

or_same :
    (x k : ℕ) (ks : List ℕ) → ((x == k) ≡ false → elem x ks ≡ true) → (x == k || elem x ks) ≡ true
or_same x k ks h = elim (Bool-cases (x == k)) [ inl e ↦ rw e refl | inr e ↦ rw e (h e) ]

-- No kept descriptor lies between, and the next one is kept or the end.
next_kept-none :
    (first : ℕ) (ks : List ℕ) (next x : ℕ)
    → first ≤ x
    → x < next_kept first ks next
    → elem x ks ≡ false
unfolding next_kept
next_kept-none first [] next x h k = refl
next_kept-none first (k1 ∷ ks) next x h k = elim (Bool-cases (leb first k1 && ltb k1 next)) [
  | inl e ↦
      let k' : x < next_kept first ks k1 =
        subst (λ (b : Bool). x < next_kept first ks (if b then k1 else next)) e k in
      ground (arith, next_kept-none first ks k1 x h k', next_kept-le first ks k1)
  | inr e ↦
      let k' : x < next_kept first ks next =
        subst (λ (b : Bool). x < next_kept first ks (if b then k1 else next)) e k in
      ground (arith, next_kept-none first ks next x h k', next_kept-le first ks next)
]

next_kept-elem :
    (first : ℕ) (ks : List ℕ) (next : ℕ)
    → (next_kept first ks next == next) ≡ false
    → elem (next_kept first ks next) ks ≡ true
unfolding next_kept
next_kept-elem first [] next h = ground arith
next_kept-elem first (k1 ∷ ks) next h = elim (Bool-cases (leb first k1 && ltb k1 next)) [
  | inl e ↦
      let same : next_kept first (k1 ∷ ks) next ≡ next_kept first ks k1 =
        ap (λ (b : Bool). next_kept first ks (if b then k1 else next)) e in
      subst (λ (n : ℕ). (n == k1 || elem n ks) ≡ true) (sym same)
        (or_same (next_kept first ks k1) k1 ks (next_kept-elem first ks k1))
  | inr e ↦
      let h' : (next_kept first ks next == next) ≡ false =
        subst (λ (b : Bool). (next_kept first ks (if b then k1 else next) == next) ≡ false) e h in
      let same : next_kept first (k1 ∷ ks) next ≡ next_kept first ks next =
        ap (λ (b : Bool). next_kept first ks (if b then k1 else next)) e in
      subst (λ (n : ℕ). (n == k1 || elem n ks) ≡ true) (sym same)
        (or_same (next_kept first ks next) k1 ks (λ n. next_kept-elem first ks next h'))
]

abbrev kept_or_below : ℕ → List ℕ → ℕ → (ℕ → Bool) → Bool
kept_or_below first keep x is_open = (ltb x first || elem x keep) && is_open x

close_from-keeps :
    (at_once : Bool) (fuel first : ℕ) (keep : List ℕ) (maximum : ℕ) (is_open : ℕ → Bool) (x : ℕ)
    → 1 ≤ first
    → first ≤ maximum
    → maximum + 1 ≤ fuel + first
    → x < maximum
    → close_from at_once fuel first keep maximum is_open x ≡ kept_or_below first keep x is_open
unfolding close_from
close_from-keeps at_once zero first keep maximum is_open x pos le enough lt = absurd (omega arith)
close_from-keeps at_once (suc fuel) first keep maximum is_open x pos le enough lt =
    let kept = next_kept first keep maximum in
    let range = next_kept-range first keep maximum le in
    elim (Bool-cases (kept == maximum)) [
      | inl e ↦ rw e (
          close_fd_range-below at_once first kept true is_open x maximum pos range.0
            (λ t. ground arith) lt
          ∙ last_range x kept e range.0 lt (next_kept-none first keep maximum x))
      | inr e ↦
          let closed = close_fd_range at_once first (kept - 1) false is_open in
          rw e (
            close_from-keeps at_once fuel (kept + 1) keep maximum closed x (omega arith)
              (ground (arith, range)) (omega (arith, range, enough)) lt
            ∙ ap (λ (b : Bool). (ltb x (kept + 1) || elem x keep) && b)
                (close_fd_range-below at_once first kept false is_open x maximum pos range.0
                  (λ t. ground arith) lt)
            ∙ inner_range x kept range.0 (next_kept-none first keep maximum x) (λ same.
              subst (λ (n : ℕ). elem n keep ≡ true) (sym same)
                (next_kept-elem first keep maximum e)))
    ]
  where
    last_range :
        (y kept : ℕ)
        → (kept == maximum) ≡ true
        → first ≤ kept
        → y < maximum
        → (first ≤ y → y < kept → elem y keep ≡ false)
        → (if leb first y && ltb y kept then false else is_open y)
          ≡ kept_or_below first keep y is_open
    last_range y kept e h small none_there = elim (Bool-cases (ltb y first)) [
      | inl before ↦ ground arith
      | inr after ↦ ground (arith, none_there (ground arith) (ground arith))
    ]

    inner_range :
        (y kept : ℕ)
        → first ≤ kept
        → (first ≤ y → y < kept → elem y keep ≡ false)
        → (y ≡ kept → elem y keep ≡ true)
        → ((ltb y (kept + 1) || elem y keep)
            && (if leb first y && ltb y kept then false else is_open y))
          ≡ kept_or_below first keep y is_open
    inner_range y kept h none_there there = elim (Bool-cases (ltb y first)) [
      | inl before ↦ ground arith
      | inr after ↦ elim (Bool-cases (ltb y kept)) [
        | inl between ↦ ground (arith, none_there (ground arith) (ground arith))
        | inr beyond ↦ elim (Bool-cases (y == kept)) [
          | inl same ↦ ground (arith, there (ground arith))
          | inr other ↦ ground arith
        ]
      ]
    ]

-- Below the limit that it is given, which is 3 at least, `close_fds_except` leaves open exactly the
-- standard descriptors and those to keep, of those that were open, whether or not the system can close
-- a range at once.
pub close_fds_except-keeps :
    (at_once : Bool) (keep : List ℕ) (maximum : ℕ) (is_open : ℕ → Bool) (x : ℕ)
    → 3 ≤ maximum
    → x < maximum
    → close_fds_except at_once keep maximum is_open x ≡ ((ltb x 3 || elem x keep) && is_open x)
unfolding close_fds_except
close_fds_except-keeps at_once keep maximum is_open x large small =
    close_from-keeps at_once (maximum + 1) 3 keep maximum is_open x (omega arith) large
      (omega arith) small
