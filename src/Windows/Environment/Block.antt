-- ===== src/Windows/Environment/Block.antt =====
-- The environment block of src/windows/pty_windows_environment.c read back, and its size.
use flutter_pty.Prelude.Int.{pos}
use flutter_pty.Windows.Wide.{System, utf8_to_wide}
use flutter_pty.Prelude.{
  take, true, ◌>>=◌, ℕ, ◌+◌, ◌<◌, ◌^◌, ◌≡◌, ◌≢◌, refl, sym, ap, ◌∙◌, false, List, [], ◌∷◌, ◌++◌,
  ltb, Option, none, some, ◌==◌, if◌then◌else◌, length, length-append, append_assoc, append-nil,
  arith, Option-cases, inl, inr,
}
use flutter_pty.Prelude.Words.{size_max, add64, sub64}
use flutter_pty.Windows.Environment.{build_environment, wide, add_lengths, copy_entries}

-- At a terminator the entry read so far ends; an empty one ends the block.
end_entry : List ℕ → Option (List (List ℕ)) → Option (List (List ℕ))
end_entry [] rest = some []
end_entry (c ∷ cs) rest = rest >>= λ es. some ((c ∷ cs) ∷ es)

-- A reader of the block, with the entry read so far.
pub read_block : List ℕ → List ℕ → Option (List (List ℕ))
unfolding end_entry
read_block entry [] = none
read_block entry (c ∷ cs) =
    let next = read_block [] cs in
    let more = read_block (entry ++ c ∷ []) cs in if c == 0 then end_entry entry next else more

-- All entries converted, or none if one is NULL or fails.
pub all_wide : (List ℕ → Option (List ℕ)) → List (Option (List ℕ)) → Option (List (List ℕ))
all_wide convert [] = some []
all_wide convert (e ∷ es) = wide convert e >>= λ w. all_wide convert es >>= λ ws. some (w ∷ ws)

abbrev NoZero : List ℕ → Type 0
NoZero [] = Unit {0}
NoZero (c ∷ cs) = ((c == 0) ≡ false) × NoZero cs

-- No entry is the empty string.
abbrev pub NoneEmpty : List (Option (List ℕ)) → Type 0
NoneEmpty [] = Unit {0}
NoneEmpty (none ∷ es) = NoneEmpty es
NoneEmpty (some s ∷ es) = (s ≢ []) × NoneEmpty es

-- What a converter of C strings keeps: no terminator inside, and text where there was text.
abbrev pub Keeps : (List ℕ → Option (List ℕ)) → Type 0
Keeps convert = (s w : List ℕ) → convert s ≡ some w → NoZero w × (s ≢ [] → w ≢ [])

read_entry :
    (entry w rest : List ℕ)
    → NoZero w
    → read_block entry (w ++ 0 ∷ rest) ≡ end_entry (entry ++ w) (read_block [] rest)
unfolding read_block
read_entry entry [] rest h = ap (λ e. end_entry e (read_block [] rest)) (sym (append-nil entry))
read_entry entry (c ∷ cs) rest h = rw h.0 (
    read_entry (entry ++ c ∷ []) cs rest h.1
    ∙ ap (λ e. end_entry e (read_block [] rest)) (append_assoc entry (c ∷ []) cs))

blocks : List (List ℕ) → List ℕ
blocks [] = 0 ∷ []
blocks (w ∷ ws) = w ++ 0 ∷ blocks ws

Clean : List (List ℕ) → Type 0
Clean [] = Unit {0}
Clean (w ∷ ws) = NoZero w × (w ≢ []) × Clean ws

end_entry_full :
    (w : List ℕ) (r : Option (List (List ℕ))) → w ≢ [] → end_entry w r ≡ (r >>= λ es. some (w ∷ es))
unfolding end_entry
end_entry_full [] r h = absurd (h refl)
end_entry_full (c ∷ cs) r h = refl

read_block-blocks : (ws : List (List ℕ)) → Clean ws → read_block [] (blocks ws) ≡ some ws
unfolding blocks Clean
read_block-blocks [] h = unfold read_block in refl
read_block-blocks (w ∷ ws) h = rw (
  read_entry [] w (blocks ws) h.0,
  end_entry_full w (read_block [] (blocks ws)) h.1,
  read_block-blocks ws h.2,
)

abbrev AllClean : Option (List (List ℕ)) → Type 0
AllClean none = Unit {0}
AllClean (some ws) = Clean ws

AllClean-cons :
    (w : List ℕ)
    → NoZero w
    → w ≢ []
    → (r : Option (List (List ℕ))) → AllClean r
    → AllClean (r >>= λ ws. some (w ∷ ws))
AllClean-cons w z t none c = tt
AllClean-cons w z t (some ws) c = unfold Clean in (z, t, c)

module _ (convert : List ℕ → Option (List ℕ)) where
  copy_entries-blocks :
      (block : List ℕ) (es : List (Option (List ℕ)))
      → copy_entries convert block es ≡ (all_wide convert es >>= λ ws. some (block ++ blocks ws))
  unfolding copy_entries all_wide blocks
  copy_entries-blocks block [] = refl
  copy_entries-blocks block (e ∷ es) = elim (Option-cases (wide convert e)) [
    | inl k ↦ rw (k, copy_entries, all_wide)
    | inr (w, k) ↦
        rw (k, copy_entries, all_wide)
          (copy_entries-blocks (block ++ (w ++ 0 ∷ [])) es ∙ regrouped w (all_wide convert es))
  ]
    where
      regrouped :
          (w : List ℕ) (r : Option (List (List ℕ)))
          → (r >>= λ ws. some ((block ++ (w ++ 0 ∷ [])) ++ blocks ws))
            ≡ ((r >>= λ ws. some (w ∷ ws)) >>= λ ws. some (block ++ blocks ws))
      regrouped w none = refl
      regrouped w (some ws) = ap some (
          append_assoc block (w ++ 0 ∷ []) (blocks ws)
          ∙ ap (◌++◌ block) (append_assoc w (0 ∷ []) (blocks ws)))

  all_wide-AllClean :
      Keeps convert → (es : List (Option (List ℕ))) → NoneEmpty es → AllClean (all_wide convert es)
  unfolding all_wide
  all_wide-AllClean keeps [] h = unfold Clean in tt
  all_wide-AllClean keeps (none ∷ es) h = tt
  all_wide-AllClean keeps (some s ∷ es) h = elim (Option-cases (convert s)) [
    | inl k ↦ rw (k, all_wide) tt
    | inr (w, k) ↦
        let (zero_free, text) = keeps s w k in
        rw (k, all_wide)
          (AllClean-cons w zero_free (text h.0) (all_wide convert es)
            (all_wide-AllClean keeps es h.1))
  ]

  -- When the conversion gives text without a terminator inside, and some for some, and no entry
  -- is empty, the block that the second loop writes is read back as the entries, in order and as
  -- converted; the loop fails exactly when one of these is NULL or cannot be converted.
  pub copy_entries-read_block :
      Keeps convert
      → (es : List (Option (List ℕ))) → NoneEmpty es
      → (copy_entries convert [] es >>= read_block []) ≡ all_wide convert es
  copy_entries-read_block keeps es h =
      rw (copy_entries-blocks [] es)
        (read_back (all_wide convert es) (all_wide-AllClean keeps es h))
    where
      read_back :
          (r : Option (List (List ℕ)))
          → AllClean r
          → ((r >>= λ ws. some (◌++◌ {A = ℕ} [] (blocks ws))) >>= read_block []) ≡ r
      read_back none k = refl
      read_back (some ws) k = read_block-blocks ws k

none-ne-some {ℓ} : {A : Type ℓ} {a : A} → ◌≡◌ {A = Option A} none (some a) → ⊥
none-ne-some e = cc

-- The units that the entries take with their terminators.
abbrev width : Option (List ℕ) → ℕ
width none = 0
width (some w) = length w + 1

abbrev pub units : (List ℕ → Option (List ℕ)) → List (Option (List ℕ)) → ℕ
units convert [] = 0
units convert (e ∷ es) = width (wide convert e) + units convert es

module _ (convert : List ℕ → Option (List ℕ)) where
  add_lengths-units :
      (total : ℕ) (es : List (Option (List ℕ))) {r : ℕ}
      → total + units convert es + 1 < 2 ^ 64
      → add_lengths convert total es ≡ some r
      → r ≡ total + units convert es
  unfolding add_lengths
  add_lengths-units total [] h e = ground arith
  add_lengths-units total (c ∷ es) {r} h e = elim (Option-cases (wide convert c)) [
    | inl k ↦ absurd (none-ne-some (rw (k, add_lengths) at e))
    | inr (w, k) ↦
        let wider : total + (length w + 1 + units convert es) + 1 < 2 ^ 64 = rw k at h in
        let e' : (if ltb (sub64 (sub64 size_max total) 1) (length w + 1)
              then none
              else add_lengths convert (add64 total (length w + 1)) es)
            ≡ some r =
          rw (k, add_lengths) at e in
        rw k (ground (arith, add_lengths-units (total + (length w + 1)) es {r = r}))
  ]

  length-copy_entries :
      (block : List ℕ) (es : List (Option (List ℕ))) {out : List ℕ}
      → copy_entries convert block es ≡ some out
      → length out ≡ length block + units convert es + 1
  unfolding copy_entries
  length-copy_entries block [] e = ground (arith, length-append block (0 ∷ []))
  length-copy_entries block (c ∷ es) {out} e = elim (Option-cases (wide convert c)) [
    | inl k ↦ absurd (none-ne-some (rw (k, copy_entries) at e))
    | inr (w, k) ↦ rw k (
        omega (
          arith,
          length-append block (w ++ 0 ∷ []),
          length-append w (0 ∷ []),
          length-copy_entries (block ++ (w ++ 0 ∷ [])) es {out = out} (rw (k, copy_entries) at e),
        ))
  ]

  -- Where both loops convert the entries alike, and these are not as long as an address space,
  -- the second loop writes exactly as many units as the first loop counted.
  pub copy_entries-fits :
      (es : List (Option (List ℕ))) {total : ℕ} {out : List ℕ}
      → units convert es + 2 < 2 ^ 64
      → add_lengths convert 1 es ≡ some total
      → copy_entries convert [] es ≡ some out
      → length out ≡ total
  copy_entries-fits es {total} {out} h a e = omega (
    arith,
    add_lengths-units 1 es {r = total} (omega arith) a,
    length-copy_entries [] es {out = out} e,
  )

-- When the first loop can add up the lengths and the block's memory is at hand, the conversion of the
-- second loop gives text without a terminator inside, and some for some, and no entry is empty, the
-- block that is built of the first `n` entries is read back as these, in order and as converted;
-- nothing is built exactly when one of them is NULL or cannot be converted.
pub build_environment-read_block :
    (measured copied : System) (es : List (Option (List ℕ))) (n : ℕ) {total : ℕ}
    → add_lengths (λ text. utf8_to_wide measured (some text)) 1 (take n es) ≡ some total
    → Keeps (λ text. utf8_to_wide copied (some text))
    → NoneEmpty (take n es)
    → (build_environment measured copied true (some es) (pos n) >>= read_block [])
      ≡ all_wide (λ text. utf8_to_wide copied (some text)) (take n es)
unfolding build_environment
build_environment-read_block measured copied es n {total} sized keeps texts =
    let convert : List ℕ → Option (List ℕ) = λ text. utf8_to_wide copied (some text) in
    let same : build_environment measured copied true (some es) (pos n)
        ≡ copy_entries convert [] (take n es) =
      ground arith in
    rw same (copy_entries-read_block convert keeps (take n es) texts)
