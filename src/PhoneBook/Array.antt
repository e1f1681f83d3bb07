-- ===== src/PhoneBook/Array.antt =====
-- The loops of the phone book over its array, as functions of the entries in use.
use eltex_systems.Base.{
  ℕ, zero, suc, ◌+◌, ◌-◌, ◌≤◌, ◌<◌, ◌≡◌, refl, ap, ◌∙◌, List, [], ◌∷◌, arith, if◌then◌else◌, length,
  get_or, set, take, drop, length-set, some, get_elem?-eq-get_or,
}
use eltex_systems.Base.Text.{same_bytes}
use eltex_systems.PhoneBook.{
  Abonent, blank, Said, entry, store, shift_from, search_from, print_from,
}

-- The list without the entry at an index.
abbrev pub remove_at : ℕ → List Abonent → List Abonent
remove_at n [] = []
remove_at zero (b ∷ bs) = bs
remove_at (suc n) (b ∷ bs) = b ∷ remove_at n bs

-- The entries with a name, each with its index counted from `i`, and how many they are.
abbrev pub matches : ℕ → List ℕ → List Abonent → List Said
matches i name [] = []
matches i name (a ∷ bs) =
    if same_bytes a.name name then entry i a ∷ matches (suc i) name bs else matches (suc i) name bs

abbrev pub entries : ℕ → List Abonent → List Said
entries i [] = []
entries i (a ∷ bs) = entry i a ∷ entries (suc i) bs

-- The array behind the loop of `remove_abonent`, when all its rounds are inside.
abbrev pub shifted : (rounds i : ℕ) → List Abonent → List Abonent
shifted zero i bs = bs
shifted (suc n) i bs = shifted n (suc i) (set bs i (get_or bs (suc i) blank))

shifted-cons :
    (k i : ℕ) (b : Abonent) (bs : List Abonent) → shifted k (suc i) (b ∷ bs) ≡ b ∷ shifted k i bs
shifted-cons zero i b bs = refl
shifted-cons (suc k) i b bs = shifted-cons k (suc i) b (set bs i (get_or bs (suc i) blank))

take-shifted :
    (k : ℕ) (b : Abonent) (bs : List Abonent)
    → k ≤ length bs
    → take k (shifted k 0 (b ∷ bs)) ≡ take k bs
take-shifted zero b bs h = refl
take-shifted (suc k) b [] h = absurd (omega arith)
take-shifted (suc k) b (c ∷ bs) h =
    rw (shifted-cons k 0 c (c ∷ bs)) (ap (λ r. c ∷ r) (take-shifted k c bs (omega arith)))

take-shifted-remove_at :
    (n m k : ℕ) (bs : List Abonent)
    → m ≡ n + k
    → m < length bs
    → take m (shifted k n bs) ≡ remove_at n (take (suc m) bs)
take-shifted-remove_at n m k [] e h = absurd (omega arith)
take-shifted-remove_at zero m k (b ∷ bs) e h =
    let same : k ≡ m = omega arith in rw same (take-shifted m b bs (omega arith))
take-shifted-remove_at (suc n) zero k (b ∷ bs) e h = absurd (omega arith)
take-shifted-remove_at (suc n) (suc m) k (b ∷ bs) e h =
    rw (shifted-cons k n b bs)
      (ap (λ r. b ∷ r) (take-shifted-remove_at n m k bs (omega arith) (omega arith)))

-- Moving the entries behind index `n` one place down removes the entry at `n` from those in use.
pub shifted-remove_at :
    (n count : ℕ) (bs : List Abonent)
    → n < count
    → count ≤ length bs
    → take (count - 1) (shifted (count - 1 - n) n bs) ≡ remove_at n (take count bs)
shifted-remove_at n count bs h full =
    let whole : suc (count - 1) ≡ count = omega arith in
    take-shifted-remove_at n (count - 1) (count - 1 - n) bs (omega arith) (omega arith)
    ∙ ap (λ m. remove_at n (take m bs)) whole

pub length-shifted : (k i : ℕ) (bs : List Abonent) → length (shifted k i bs) ≡ length bs
length-shifted zero i bs = refl
length-shifted (suc k) i bs =
    length-shifted k (suc i) (set bs i (get_or bs (suc i) blank)) ∙ length-set bs i _

pub store-fits :
    (bs : List Abonent) (i : ℕ) (a : Abonent) → i < length bs → store bs i a ≡ some (set bs i a)
unfolding store
store-fits bs i a h = ground arith

pub shift_from-shifted :
    (k i : ℕ) (bs : List Abonent) → i + k < length bs → shift_from k i bs ≡ some (shifted k i bs)
unfolding shift_from
shift_from-shifted zero i bs h = refl
shift_from-shifted (suc k) i bs h =
    let next = get_or bs (suc i) blank in
    rw
      (
        shift_from,
        get_elem?-eq-get_or bs (suc i) blank (omega arith),
        store-fits bs i next (omega arith),
      )
      (shift_from-shifted k (suc i) (set bs i next) (omega (arith, length-set bs i next)))

drop-get_or :
    (i : ℕ) (bs : List Abonent) → i < length bs → drop i bs ≡ get_or bs i blank ∷ drop (suc i) bs
drop-get_or i [] h = absurd (omega arith)
drop-get_or zero (b ∷ bs) h = refl
drop-get_or (suc i) (b ∷ bs) h = drop-get_or i bs (omega arith)

module _ (name : List ℕ) where
  pub search_from_lem :
      (k i : ℕ) (bs : List Abonent)
      → i + k ≤ length bs
      → search_from k i name bs
        ≡ some (matches i name (take k (drop i bs)), length (matches i name (take k (drop i bs))))
  unfolding search_from
  search_from_lem zero i bs h = refl
  search_from_lem (suc k) i bs h =
      rw
        (
          search_from,
          drop-get_or i bs (omega arith),
          get_elem?-eq-get_or bs i blank (omega arith),
          search_from_lem k (suc i) bs (omega arith),
        )
        (ground arith)

pub print_from-entries :
    (k i : ℕ) (bs : List Abonent)
    → i + k ≤ length bs
    → print_from k i bs ≡ some (entries i (take k (drop i bs)))
unfolding print_from
print_from-entries zero i bs h = refl
print_from-entries (suc k) i bs h =
    rw
      (
        print_from,
        drop-get_or i bs (omega arith),
        get_elem?-eq-get_or bs i blank (omega arith),
        print_from-entries k (suc i) bs (omega arith),
      )
      refl
