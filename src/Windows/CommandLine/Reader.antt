-- ===== src/Windows/CommandLine/Reader.antt =====
-- The convention that the quoting of src/windows/pty_windows_commandline.c serves, as a reader: in a
-- quoted argument, a run of backslashes before a quote stands for half as many, and the quote closes
-- the argument if the run is even; any other run stands for itself.
use flutter_pty.Prelude.{
  ℕ, zero, suc, ◌+◌, ◌*◌, ◌/◌, ◌%◌, ◌≡◌, refl, ◌∙◌, ap, List, [], ◌∷◌, ◌++◌, Option, none, some,
  arith, ◌==◌, if◌then◌else◌, replicate, append_assoc, append-nil, Bool-cases, inl, inr, ==_iff,
  false,
}
use flutter_pty.Windows.CommandLine.{backslash, quote, quote_loop}

-- The reader inside the quotes: the backslashes of the current run, the argument so far, the input.
-- It gives the argument and what follows its closing quote.
pub read_quoted : ℕ → List ℕ → List ℕ → Option (List ℕ × List ℕ)
read_quoted run arg [] = none
read_quoted run arg (c ∷ cs) =
    let longer = read_quoted (run + 1) arg cs in
    let literal = read_quoted 0 ((arg ++ replicate (run / 2) backslash) ++ quote ∷ []) cs in
    let plain = read_quoted 0 ((arg ++ replicate run backslash) ++ c ∷ []) cs in
    if c == backslash
    then longer
    else if c == quote
    then (if run % 2 == 0 then some (arg ++ replicate (run / 2) backslash, cs) else literal)
    else plain

read_run :
    (n run : ℕ) (arg cs : List ℕ)
    → read_quoted run arg (replicate n backslash ++ cs) ≡ read_quoted (run + n) arg cs
unfolding read_quoted
read_run zero run arg cs = let e : run + zero ≡ run = omega arith in rw e
read_run (suc n) run arg cs =
    let e : run + suc n ≡ run + 1 + n = omega arith in rw e (read_run n (run + 1) arg cs)

pub zero_add : (n : ℕ) → 0 + n ≡ n
zero_add n = omega arith

-- What the quoting of one argument appends.
pub quoted : ℕ → List ℕ → List ℕ
quoted n [] = replicate (n * 2) backslash ++ quote ∷ []
quoted n (c ∷ cs) =
    let skip = quoted (n + 1) cs in
    let escaped = replicate (n * 2 + 1) backslash ++ quote ∷ quoted 0 cs in
    let plain = replicate n backslash ++ c ∷ quoted 0 cs in
    if c == backslash then skip else if c == quote then escaped else plain

regroup :
    (command tail : List ℕ) (k b : ℕ)
    → ((command ++ replicate k backslash) ++ b ∷ []) ++ tail
      ≡ command ++ (replicate k backslash ++ b ∷ tail)
regroup command tail k b =
    rw (append_assoc (command ++ replicate k backslash) (b ∷ []) tail)
      (append_assoc command (replicate k backslash) (b ∷ tail))

pub quote_loop-quoted :
    (command : List ℕ) (n : ℕ) (arg : List ℕ) → quote_loop command n arg ≡ command ++ quoted n arg
unfolding quote_loop quoted
quote_loop-quoted command n [] = append_assoc command (replicate (n * 2) backslash) (quote ∷ [])
quote_loop-quoted command n (c ∷ cs) = elim (Bool-cases (c == backslash)) [
  | inl e ↦ rw e (quote_loop-quoted command (n + 1) cs)
  | inr e ↦ rw e (elim (Bool-cases (c == quote)) [
    | inl q ↦ rw q (
        quote_loop-quoted ((command ++ replicate (n * 2 + 1) backslash) ++ quote ∷ []) 0 cs
        ∙ regroup command (quoted 0 cs) (n * 2 + 1) quote)
    | inr q ↦ rw q (
        quote_loop-quoted ((command ++ replicate n backslash) ++ c ∷ []) 0 cs
        ∙ regroup command (quoted 0 cs) n c)
  ])
]

replicate-shift :
    (n : ℕ) (xs : List ℕ)
    → replicate (n + 1) backslash ++ xs ≡ replicate n backslash ++ backslash ∷ xs
replicate-shift zero xs = refl
replicate-shift (suc n) xs =
    let e : suc n + 1 ≡ suc (n + 1) = omega arith in
    rw e (ap (◌∷◌ backslash) (replicate-shift n xs))

read_close :
    (n : ℕ) (arg rest : List ℕ)
    → read_quoted (n * 2) arg (quote ∷ rest) ≡ some (arg ++ replicate n backslash, rest)
unfolding read_quoted
read_close n arg rest =
    let even : n * 2 % 2 ≡ 0 = omega arith in
    let half : n * 2 / 2 ≡ n = omega arith in rw (even, half)

read_escaped :
    (n : ℕ) (arg cs : List ℕ)
    → read_quoted (n * 2 + 1) arg (quote ∷ cs)
      ≡ read_quoted 0 ((arg ++ replicate n backslash) ++ quote ∷ []) cs
unfolding read_quoted
read_escaped n arg cs =
    let odd : (n * 2 + 1) % 2 ≡ 1 = omega arith in
    let half : (n * 2 + 1) / 2 ≡ n = omega arith in rw (odd, half)

read_plain :
    (n c : ℕ) (arg cs : List ℕ)
    → (c == backslash) ≡ false
    → (c == quote) ≡ false
    → read_quoted n arg (c ∷ cs) ≡ read_quoted 0 ((arg ++ replicate n backslash) ++ c ∷ []) cs
unfolding read_quoted
read_plain n c arg cs e q = rw (e, q)

step_escaped :
    (n : ℕ) (arg cs rest : List ℕ)
    → read_quoted 0 ((arg ++ replicate n backslash) ++ quote ∷ []) (quoted 0 cs ++ rest)
      ≡ some (((arg ++ replicate n backslash) ++ quote ∷ []) ++ cs, rest)
    → read_quoted 0 arg ((replicate (n * 2 + 1) backslash ++ quote ∷ quoted 0 cs) ++ rest)
      ≡ some (arg ++ (replicate n backslash ++ quote ∷ cs), rest)
step_escaped n arg cs rest ih = rw (
  append_assoc (replicate (n * 2 + 1) backslash) (quote ∷ quoted 0 cs) rest,
  read_run (n * 2 + 1) 0 arg (quote ∷ quoted 0 cs ++ rest),
  zero_add (n * 2 + 1),
  read_escaped n arg (quoted 0 cs ++ rest),
  ih,
  regroup arg cs n quote,
)

step_plain :
    (n c : ℕ) (arg cs rest : List ℕ)
    → (c == backslash) ≡ false
    → (c == quote) ≡ false
    → read_quoted 0 ((arg ++ replicate n backslash) ++ c ∷ []) (quoted 0 cs ++ rest)
      ≡ some (((arg ++ replicate n backslash) ++ c ∷ []) ++ cs, rest)
    → read_quoted 0 arg ((replicate n backslash ++ c ∷ quoted 0 cs) ++ rest)
      ≡ some (arg ++ (replicate n backslash ++ c ∷ cs), rest)
step_plain n c arg cs rest e q ih = rw (
  append_assoc (replicate n backslash) (c ∷ quoted 0 cs) rest,
  read_run n 0 arg (c ∷ quoted 0 cs ++ rest),
  zero_add n,
  read_plain n c arg (quoted 0 cs ++ rest) e q,
  ih,
  regroup arg cs n c,
)

-- The reader takes back what the quoting of one argument appends.
pub read_quoted-quoted :
    (n : ℕ) (arg cs rest : List ℕ)
    → read_quoted 0 arg (quoted n cs ++ rest) ≡ some (arg ++ (replicate n backslash ++ cs), rest)
unfolding quoted
read_quoted-quoted n arg [] rest = rw (
  append_assoc (replicate (n * 2) backslash) (quote ∷ []) rest,
  read_run (n * 2) 0 arg (quote ∷ rest),
  zero_add (n * 2),
  read_close n arg rest,
  append-nil (replicate n backslash),
)
read_quoted-quoted n arg (c ∷ cs) rest = elim (Bool-cases (c == backslash)) [
  | inl e ↦
      rw (e, (==_iff c backslash).0 e)
        (read_quoted-quoted (n + 1) arg cs rest
          ∙ ap (λ xs. some (arg ++ xs, rest)) (replicate-shift n cs))
  | inr e ↦ rw e (elim (Bool-cases (c == quote)) [
    | inl q ↦
        rw (q, (==_iff c quote).0 q)
          (step_escaped n arg cs rest
            (read_quoted-quoted 0 ((arg ++ replicate n backslash) ++ quote ∷ []) cs rest))
    | inr q ↦ rw q (
        step_plain n c arg cs rest e q
          (read_quoted-quoted 0 ((arg ++ replicate n backslash) ++ c ∷ []) cs rest))
  ])
]
