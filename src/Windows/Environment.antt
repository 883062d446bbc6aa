-- ===== src/Windows/Environment.antt =====
-- src/windows/pty_windows_environment.c. The two loops convert each entry anew: `measured` and
-- `copied` stand for `utf8_to_wide` in the first and in the second loop; `none` is its NULL.
pub mod Block
use flutter_pty.Prelude.{
  ℕ, suc, ◌+◌, ◌≤◌, ◌<◌, ◌≡◌, refl, sym, ap, ◌∙◌, Bool, true, false, not, ◌&&◌, ◌||◌, List, [], ◌∷◌,
  ◌++◌, Option, none, some, ltb, ◌==◌, if◌then◌else◌, is_some, length, length-append, append_assoc,
  take, arith, Option-cases, Bool-cases, inl, inr,
}
use flutter_pty.Windows.Wide.{System, utf8_to_wide}
use flutter_pty.Prelude.Words.{u64_mod, size_max, add64, sub64}
use flutter_pty.Prelude.Int.{ℤ, pos, pos_part, ltb_ℤ}

-- A NULL entry is not converted.
abbrev pub wide : (List ℕ → Option (List ℕ)) → Option (List ℕ) → Option (List ℕ)
wide convert none = none
wide convert (some entry) = convert entry

module _ (measured : List ℕ → Option (List ℕ)) where
  -- The first loop: the units of the entries with their terminators, added to `length`.
  unfoldable pub add_lengths : ℕ → List (Option (List ℕ)) → Option ℕ
  add_lengths total [] = some total
  add_lengths total (e ∷ es) = elim (wide measured e) [
    | none ↦ none
    | some w ↦
        if ltb (sub64 (sub64 size_max total) 1) (length w + 1)
        then none
        else add_lengths (add64 total (length w + 1)) es
  ]

module _ (copied : List ℕ → Option (List ℕ)) where
  -- The second loop, and the last terminator; the block so far is `block[0 .. offset]`.
  unfoldable pub copy_entries : List ℕ → List (Option (List ℕ)) → Option (List ℕ)
  copy_entries block [] = some (block ++ 0 ∷ [])
  copy_entries block (e ∷ es) = elim (wide copied e) [
    | none ↦ none
    | some w ↦ copy_entries (block ++ (w ++ 0 ∷ [])) es
  ]

-- The system answers each loop on its own. The flag says whether `calloc` succeeds; `none` for the
-- vector is a null pointer.
unfoldable pub build_environment :
    (measured copied : System) → Bool → Option (List (Option (List ℕ))) → ℤ → Option (List ℕ)
build_environment measured copied allocated environment environment_count =
    if ltb_ℤ environment_count (pos 0)
      || not (pos_part environment_count == 0) && not (is_some environment)
    then none
    else build (take (pos_part environment_count) (entries environment))
  where
    entries : Option (List (Option (List ℕ))) → List (Option (List ℕ))
    entries none = []
    entries (some es) = es

    build : List (Option (List ℕ)) → Option (List ℕ)
    build es = elim (add_lengths (λ text. utf8_to_wide measured (some text)) 1 es) [
      | none ↦ none
      | some total ↦
          if allocated then copy_entries (λ text. utf8_to_wide copied (some text)) [] es else none
    ]
