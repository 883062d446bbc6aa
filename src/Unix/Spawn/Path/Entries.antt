-- ===== src/Unix/Spawn/Path/Entries.antt =====
-- The entries of the search path in src/unix/pty_unix_spawn.c.
use flutter_pty.Prelude.{
  ℕ, suc, ◌+◌, ◌≤◌, ◌≡◌, refl, ap, ◌∙◌, List, [], ◌∷◌, Option, none, some, inl, inr, arith, ◌==◌,
  if◌then◌else◌, length, Bool-cases,
}
use flutter_pty.Unix.Spawn.Path.{until_colon}

-- The entries of a search path.
prepend : ℕ → List (List ℕ) → List (List ℕ)
prepend d [] = (d ∷ []) ∷ []
prepend d (e ∷ es) = (d ∷ e) ∷ es

unfoldable pub split : List ℕ → List (List ℕ)
unfolding prepend
split [] = [] ∷ []
split (c ∷ cs) = if c == b':' then [] ∷ split cs else prepend c (split cs)

unfoldable pub entries : List ℕ × Option (List ℕ) → List (List ℕ)
entries (segment, none) = segment ∷ []
entries (segment, some rest) = segment ∷ split rest

prepend-entries :
    (c : ℕ) (r : List ℕ × Option (List ℕ)) → prepend c (entries r) ≡ entries (c ∷ r.0, r.1)
unfolding prepend entries
prepend-entries c (segment, none) = refl
prepend-entries c (segment, some rest) = refl

pub split-until_colon : (path : List ℕ) → split path ≡ entries (until_colon path)
unfolding split until_colon entries
split-until_colon [] = refl
split-until_colon (c ∷ cs) = elim (Bool-cases (c == b':')) [
  | inl e ↦ rw (e, until_colon) refl
  | inr e ↦
      rw (e, until_colon)
        (ap (prepend c) (split-until_colon cs) ∙ prepend-entries c (until_colon cs))
]

-- How long the entry before a colon and what follows it are.
unfoldable pub Shorter : ℕ → List ℕ × Option (List ℕ) → Type 0
Shorter n (segment, none) = length segment ≤ n
Shorter n (segment, some rest) = (length segment ≤ n) × (length rest + 1 ≤ n)

pub until_colon-Shorter : (path : List ℕ) → Shorter (length path) (until_colon path)
unfolding until_colon Shorter
until_colon-Shorter [] = omega arith
until_colon-Shorter (c ∷ cs) = elim (Bool-cases (c == b':')) [
  | inl e ↦ rw (e, until_colon) (omega arith, omega arith)
  | inr e ↦ rw (e, until_colon) (longer (until_colon cs) (until_colon-Shorter cs))
]
  where
    longer :
        (r : List ℕ × Option (List ℕ))
        → Shorter (length cs) r
        → Shorter (suc (length cs)) (c ∷ r.0, r.1)
    longer (segment, none) h = omega (arith, h)
    longer (segment, some rest) h = (omega (arith, h), omega (arith, h))
