-- ===== src/DynMem/Layout.antt =====
-- The heap that a list of entries at given addresses stands for, and how it changes with the list.
use eltex_systems.Base.{
  ℕ, ◌≡◌, refl, Bool, true, false, not, ◌&&◌, ◌||◌, List, [], ◌∷◌, ◌++◌, Option, none, some, arith,
  ◌==◌, if◌then◌else◌, Bool-cases, inl, inr,
}
use eltex_systems.PhoneBook.{Abonent}
use eltex_systems.DynMem.{Node, Heap, Store}

-- The entries in their order, each with the address of its node.
abbrev pub Cells : Type 0
Cells = List (ℕ × Abonent)

abbrev pub has : ℕ → Cells → Bool
has b [] = false
has b ((a, x) ∷ cs) = (a == b) || has b cs

abbrev pub distinct : Cells → Bool
distinct [] = true
distinct ((a, x) ∷ cs) = not (has a cs) && distinct cs

-- The first and the last address, or what stands before and behind the cells.
abbrev pub first : Cells → Option ℕ → Option ℕ
first [] stop = stop
first ((a, x) ∷ cs) stop = some a

abbrev pub last : Option ℕ → Cells → Option ℕ
last before [] = before
last before ((a, x) ∷ cs) = last (some a) cs

abbrev pub layout : (before : Option ℕ) → Cells → (stop : Option ℕ) → Heap
layout before [] stop b = none
layout before ((a, x) ∷ cs) stop b =
    if a == b
    then some (record { abonent = x; next = first cs stop; prev = before })
    else layout (some a) cs stop b

-- The store holds exactly the nodes of the list, linked both ways.
pub record IsBook (s : Store) (cs : Cells) : Type 0 where
  pub holds : (b : ℕ) → s.heap b ≡ layout none cs none b
  pub head : s.head ≡ first cs none
  pub tail : s.tail ≡ last none cs
  pub apart : distinct cs ≡ true

abbrev pub points_to : Option ℕ → ℕ → Bool
points_to none b = false
points_to (some a) b = a == b

abbrev pub relink : Option ℕ → Option Node → Option Node
relink q none = none
relink q (some n) = some (record n { next = q })

has-append : (b : ℕ) (xs ys : Cells) → has b (xs ++ ys) ≡ (has b xs || has b ys)
has-append b [] ys = refl
has-append b ((a, x) ∷ xs) ys = ground (arith, has-append b xs ys)

pub first-append :
    (xs ys : Cells) (stop : Option ℕ) → first (xs ++ ys) stop ≡ first xs (first ys stop)
first-append [] ys stop = refl
first-append (x ∷ xs) ys stop = refl

pub last-append :
    (before : Option ℕ) (xs ys : Cells) → last before (xs ++ ys) ≡ last (last before xs) ys
last-append before [] ys = refl
last-append before ((a, x) ∷ xs) ys = last-append (some a) xs ys

pub layout-append :
    (before : Option ℕ) (xs ys : Cells) (stop : Option ℕ) (b : ℕ)
    → layout before (xs ++ ys) stop b
      ≡ (if has b xs then layout before xs (first ys stop) b else layout (last before xs) ys stop b)
layout-append before [] ys stop b = refl
layout-append before ((a, x) ∷ xs) ys stop b =
    ground (arith, layout-append (some a) xs ys stop b, first-append xs ys stop)

pub layout_outside :
    (before : Option ℕ) (xs : Cells) (stop : Option ℕ) (b : ℕ)
    → has b xs ≡ false
    → layout before xs stop b ≡ none
layout_outside before [] stop b h = refl
layout_outside before ((a, x) ∷ xs) stop b h = ground (arith, layout_outside (some a) xs stop b)

has-last :
    (before : Option ℕ) (xs : Cells) (b : ℕ)
    → points_to (last before xs) b ≡ true
    → (points_to before b || has b xs) ≡ true
has-last before [] b h = ground arith
has-last before ((a, x) ∷ xs) b h = ground (arith, has-last (some a) xs b)

-- Another address behind the cells changes the link of the last node, and of no other.
pub layout-relink :
    (before : Option ℕ) (xs : Cells) (stop stop' : Option ℕ) (b : ℕ)
    → distinct xs ≡ true
    → layout before xs stop' b ≡ (
        if points_to (last none xs) b
        then relink stop' (layout before xs stop b)
        else layout before xs stop b)
layout-relink before [] stop stop' b h = refl
layout-relink before ((a, x) ∷ []) stop stop' b h = ground arith
layout-relink before ((a, x) ∷ (c, y) ∷ xs) stop stop' b h =
    ground (arith, layout-relink (some a) ((c, y) ∷ xs) stop stop' b, has-last none ((c, y) ∷ xs) b)

-- What stands before the cells is the link of the first node, and of no other.
layout_before :
    (before before' : Option ℕ) (a : ℕ) (x : Abonent) (xs : Cells) (stop : Option ℕ) (b : ℕ)
    → (a == b) ≡ false
    → layout before' ((a, x) ∷ xs) stop b ≡ layout before ((a, x) ∷ xs) stop b
layout_before before before' a x xs stop b h = rw h refl

-- A cell in the middle of distinct cells stands in neither part, and the parts have no address in
-- common.
pub distinct-middle :
    (xs : Cells) (a : ℕ) (x : Abonent) (ys : Cells)
    → distinct (xs ++ ((a, x) ∷ ys)) ≡ true
    → (has a xs ≡ false)
      × (has a ys ≡ false)
      × (distinct xs ≡ true)
      × (distinct ys ≡ true)
      × (distinct (xs ++ ys) ≡ true)
distinct-middle [] a x ys h = ground arith
distinct-middle ((c, y) ∷ xs) a x ys h =
    ground (arith, distinct-middle xs a x ys, has-append c xs ((a, x) ∷ ys), has-append c xs ys)

distinct-disjoint :
    (xs ys : Cells) (b : ℕ) → distinct (xs ++ ys) ≡ true → has b xs ≡ true → has b ys ≡ false
distinct-disjoint [] ys b h i = cc
distinct-disjoint ((a, x) ∷ xs) ys b h i =
    ground (arith, distinct-disjoint xs ys b, has-append a xs ys, has-append b xs ys)

pub distinct-apart :
    (xs ys : Cells) (b : ℕ) → distinct (xs ++ ys) ≡ true → has b ys ≡ true → has b xs ≡ false
distinct-apart xs ys b h i = elim (Bool-cases (has b xs)) [
  | inr off ↦ off
  | inl on ↦ let out = distinct-disjoint xs ys b h on in cc
]

pub distinct-snoc :
    (xs : Cells) (a : ℕ) (x : Abonent)
    → distinct xs ≡ true
    → has a xs ≡ false
    → distinct (xs ++ ((a, x) ∷ [])) ≡ true
distinct-snoc [] a x h i = refl
distinct-snoc ((c, y) ∷ xs) a x h i =
    ground (arith, distinct-snoc xs a x, has-append c xs ((a, x) ∷ []))
