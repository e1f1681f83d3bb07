-- ===== src/Pointers/Search.antt =====
-- What the search finds.
use eltex_systems.Base.{
  ℕ, zero, suc, ◌-◌, ◌<◌, ◌≡◌, refl, ap, ◌∙◌, Bool, true, false, ◌||◌, List, [], ◌∷◌, ◌++◌, some,
  arith, ◌==◌, if◌then◌else◌, length, replicate, All, Bool-cases, inl, inr, append_assoc,
}
use eltex_systems.Base.Text.{starts_with}
use eltex_systems.Pointers.{string_size, buffer, match_from, check_string}

-- Whether the text stands somewhere in the other.
abbrev pub occurs : List ℕ → List ℕ → Bool
occurs p [] = starts_with p []
occurs p (b ∷ bs) = starts_with p (b ∷ bs) || occurs p bs

-- A byte that is neither NUL nor a line end.
abbrev pub IsPlain : ℕ → Type 0
IsPlain b = ((b == 0) ≡ false) × ((b == 10) ≡ false)

match_zeros :
    (n y : ℕ) (ys : List ℕ) → (y == 0) ≡ false → match_from (replicate n 0) (y ∷ ys) ≡ some false
unfolding match_from
match_zeros zero y ys h = refl
match_zeros (suc n) y ys h = let off : (0 == y) ≡ false = ground arith in rw off refl

match_from-starts_with :
    (t : List ℕ) (n y : ℕ) (p r : List ℕ)
    → All IsPlain (y ∷ p)
    → match_from (t ++ replicate n 0) (y ∷ (p ++ (b'\n' ∷ r))) ≡ some (starts_with (y ∷ p) t)
unfolding match_from starts_with
match_from-starts_with [] n y p r h = match_zeros n y (p ++ (b'\n' ∷ r)) h.0.0
match_from-starts_with (x ∷ t) n y [] r h = ground arith
match_from-starts_with (x ∷ t) n y (z ∷ p) r h =
    let ih = match_from-starts_with t n z p r h.1 in let on = h.1.0.1 in ground arith

check_zeros :
    (n y : ℕ) (ys : List ℕ) → (y == 0) ≡ false → check_string (replicate n 0) (y ∷ ys) ≡ some false
unfolding check_string
check_zeros zero y ys h = refl
check_zeros (suc n) y ys h =
    let off : (0 == y) ≡ false = ground arith in rw off (check_zeros n y ys h)

no_text : (y : ℕ) (p : List ℕ) → some false ≡ some (starts_with (y ∷ p) [])
unfolding starts_with
no_text y p = refl

either : (a b : Bool) → (if a then some true else some b) ≡ some (a || b)
either true b = refl
either false b = refl

check_string-occurs :
    (t : List ℕ) (n y : ℕ) (p r : List ℕ)
    → All IsPlain (y ∷ p)
    → check_string (t ++ replicate n 0) (y ∷ (p ++ (b'\n' ∷ r))) ≡ some (occurs (y ∷ p) t)
unfolding check_string
check_string-occurs [] n y p r h = check_zeros n y (p ++ (b'\n' ∷ r)) h.0.0 ∙ no_text y p
check_string-occurs (x ∷ t) n y p r h =
    let ih = check_string-occurs t n y p r h in
    let here = match_from-starts_with (x ∷ t) n y p r h in
    elim (Bool-cases (x == y)) [
      | inl same ↦ rw (same, here, ih) (either (starts_with (y ∷ p) (x ∷ t)) (occurs (y ∷ p) t))
      | inr differs ↦
          let off : starts_with (y ∷ p) (x ∷ t) ≡ false = unfold starts_with in ground arith in
          rw (differs, off, ih) refl
    ]

-- For a text and a line that is not empty, both of which fit their buffers, the search finds the
-- line just when it stands somewhere in the text, and reads nothing behind the buffers.
pub search-occurs :
    (t : List ℕ) (y : ℕ) (p : List ℕ)
    → length t < string_size
    → length p < 98
    → All IsPlain (y ∷ p)
    → check_string (buffer t) (buffer ((y ∷ p) ++ (b'\n' ∷ []))) ≡ some (occurs (y ∷ p) t)
search-occurs t y p fits short h =
    let zeros = replicate (string_size - length ((y ∷ p) ++ (b'\n' ∷ []))) 0 in
    ap (λ q. check_string (buffer t) (y ∷ q)) (append_assoc p (b'\n' ∷ []) zeros)
    ∙ check_string-occurs t (string_size - length t) y p zeros h
