-- ===== src/Interpreter/Words.antt =====
-- The arguments of a command: words between blanks.
use eltex_systems.Base.{
  ℕ, zero, suc, ◌≤◌, ◌≡◌, refl, ap, sym, ◌∙◌, true, false, List, [], ◌∷◌, ◌++◌, Option, none, some,
  arith, ◌==◌, length, take, replicate, All, Bool-cases, inl, inr, append-nil,
}
use eltex_systems.Interpreter.{skip, until, behind, token_of, strtok, parse_from}

-- Not empty, and without the delimiter.
abbrev pub IsWord : ℕ → List ℕ → Type 0
IsWord d w = (1 ≤ length w) × All (λ b. (b == d) ≡ false) w

-- What may stand behind a token.
abbrev pub closing : ℕ → Option (List ℕ) → List ℕ
closing d none = []
closing d (some r) = d ∷ r

abbrev pub left_over : Option (List ℕ) → List ℕ
left_over none = []
left_over (some r) = r

pub until-closing :
    (d : ℕ) (w : List ℕ) (r : Option (List ℕ))
    → All (λ b. (b == d) ≡ false) w
    → (until d (w ++ closing d r) ≡ w) × (behind d (w ++ closing d r) ≡ left_over r)
unfolding until behind
until-closing d [] none h = (refl, refl)
until-closing d [] (some r) h =
    let same : (d == d) ≡ true = ground arith in (rw same refl, rw same refl)
until-closing d (b ∷ w) r h =
    let (u, v) = until-closing d w r h.1 in (rw h.0 (ap (λ bs. b ∷ bs) u), rw h.0 v)

pub strtok-closing :
    (d : ℕ) (w : List ℕ) (r : Option (List ℕ))
    → IsWord d w
    → strtok d (w ++ closing d r) ≡ some (w, left_over r)
unfolding strtok skip
strtok-closing d [] r h = absurd (omega (arith, h.0))
strtok-closing d (b ∷ w) r h =
    let (u, v) = until-closing d (b ∷ w) r h.1 in rw (strtok, h.1.0, u, v) refl

strtok-skip : (d : ℕ) (s : List ℕ) → strtok d (d ∷ s) ≡ strtok d s
unfolding strtok skip
strtok-skip d s = let same : (d == d) ≡ true = ground arith in rw (strtok, same) refl

strtok-gap : (d g : ℕ) (s : List ℕ) → strtok d (replicate g d ++ s) ≡ strtok d s
strtok-gap d zero s = refl
strtok-gap d (suc g) s = strtok-skip d (replicate g d ++ s) ∙ strtok-gap d g s

-- Words, each with some blanks in front of it, at least one between two, and blanks at the end.
abbrev pub spaced : List (ℕ × List ℕ) → ℕ → List ℕ
spaced [] t = replicate t b' '
spaced ((g, w) ∷ []) t = replicate g b' ' ++ (w ++ replicate t b' ')
spaced ((g, w) ∷ x ∷ xs) t = replicate g b' ' ++ (w ++ (b' ' ∷ spaced (x ∷ xs) t))

abbrev pub words : List (ℕ × List ℕ) → List (List ℕ)
words [] = []
words ((g, w) ∷ xs) = w ∷ words xs

blanks : ℕ → Option (List ℕ)
blanks zero = none
blanks (suc t) = some (replicate t b' ')

blanks-closing : (t : ℕ) → replicate t b' ' ≡ closing b' ' (blanks t)
unfolding blanks
blanks-closing zero = refl
blanks-closing (suc t) = refl

strtok_blanks : (d t : ℕ) → strtok d (replicate t d) ≡ none
unfolding strtok skip
strtok_blanks d t = ap (strtok d) (sym (append-nil (replicate t d))) ∙ strtok-gap d t []

parse_blanks : (n t : ℕ) → parse_from n (replicate t b' ') ≡ []
unfolding parse_from
parse_blanks zero t = refl
parse_blanks (suc n) t = rw (parse_from, strtok_blanks b' ' t) refl

parse-strtok :
    (n : ℕ) (s t rest : List ℕ)
    → strtok b' ' s ≡ some (t, rest)
    → parse_from (suc n) s ≡ t ∷ parse_from n rest
unfolding parse_from
parse-strtok n s t rest e = rw (parse_from, e) refl

blanks-parse : (n t : ℕ) → parse_from n (left_over (blanks t)) ≡ []
unfolding blanks
blanks-parse n zero = parse_blanks n 0
blanks-parse n (suc t) = parse_blanks n t

-- The arguments of a command are its words, the first of them when there are more than there is room for,
-- with any number of blanks around them.
pub parse-words :
    (n : ℕ) (ws : List (ℕ × List ℕ)) (t : ℕ)
    → All (IsWord b' ') (words ws)
    → parse_from n (spaced ws t) ≡ take n (words ws)
unfolding parse_from
parse-words zero ws t h = refl
parse-words (suc n) [] t h = parse_blanks (suc n) t
parse-words (suc n) ((g, w) ∷ []) t h =
    let word : strtok b' ' (spaced ((g, w) ∷ []) t) ≡ some (w, left_over (blanks t)) =
      strtok-gap b' ' g (w ++ replicate t b' ')
      ∙ ap (λ r. strtok b' ' (w ++ r)) (blanks-closing t)
      ∙ strtok-closing b' ' w (blanks t) h.0 in
    parse-strtok n (spaced ((g, w) ∷ []) t) w (left_over (blanks t)) word
    ∙ ap (λ r. w ∷ r) (blanks-parse n t ∙ nothing n)
  where
    nothing : (n : ℕ) → ◌≡◌ {A = List (List ℕ)} [] (take n [])
    nothing zero = refl
    nothing (suc n) = refl
parse-words (suc n) ((g, w) ∷ x ∷ xs) t h =
    let word =
      strtok-gap b' ' g (w ++ (b' ' ∷ spaced (x ∷ xs) t))
      ∙ strtok-closing b' ' w (some (spaced (x ∷ xs) t)) h.0 in
    parse-strtok n (spaced ((g, w) ∷ x ∷ xs) t) w (spaced (x ∷ xs) t) word
    ∙ ap (λ r. w ∷ r) (parse-words n (x ∷ xs) t h.1)

until-All : (d : ℕ) (s : List ℕ) → All (λ b. (b == d) ≡ false) (until d s)
unfolding until
until-All d [] = tt
until-All d (b ∷ s) = elim (Bool-cases (b == d)) [
  | inl at ↦ rw at tt
  | inr off ↦ rw off (off, until-All d s)
]

skip-IsWord : (d : ℕ) (s t rest : List ℕ) → token_of d (skip d s) ≡ some (t, rest) → IsWord d t
unfolding skip until
skip-IsWord d [] t rest e = absurd (cc)
skip-IsWord d (b ∷ s) t rest e = elim (Bool-cases (b == d)) [
  | inl at ↦ skip-IsWord d s t rest (rw at at e)
  | inr off ↦
      let found = rw off at e in
      let same : t ≡ b ∷ until d s = cc in rw same (omega arith, (off, until-All d s))
]

parse_some :
    (n : ℕ) (s : List ℕ) (r : Option (List ℕ × List ℕ))
    → ((t : List ℕ) → (length (parse_from n t) ≤ n) × All (IsWord b' ') (parse_from n t))
    → strtok b' ' s ≡ r
    → (length (parse_from (suc n) s) ≤ suc n) × All (IsWord b' ') (parse_from (suc n) s)
unfolding parse_from strtok
parse_some n s none ih e = rw (parse_from, e) (omega arith, tt)
parse_some n s (some (t, rest)) ih e =
    let (l, all) = ih rest in rw (parse_from, e) (omega arith, (skip-IsWord b' ' s t rest e, all))

-- Whatever the text, there are at most as many arguments as there is room for, and each of them is not empty
-- and has no blank in it.
parse-IsWord :
    (n : ℕ) (s : List ℕ) → (length (parse_from n s) ≤ n) × All (IsWord b' ') (parse_from n s)
unfolding parse_from
parse-IsWord zero s = (omega arith, tt)
parse-IsWord (suc n) s = parse_some n s (strtok b' ' s) (parse-IsWord n) refl
