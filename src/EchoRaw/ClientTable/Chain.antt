-- ===== src/EchoRaw/ClientTable/Chain.antt =====
-- One chain: the counter that a key finds, and how the two searches change it.
use eltex_systems.Base.{
  ℕ, ◌+◌, ◌≤◌, ◌≡◌, refl, ap, true, List, [], ◌∷◌, Option, none, some, arith, if◌then◌else◌,
  Bool-cases, Option-cases, inl, inr,
}
use eltex_systems.EchoRaw.ClientTable.{Key, Node, key_eq, u32, bump, unlink}

pub key_eq_iff : (a b : Key) → key_eq a b ≡ true → a ≡ b
unfolding key_eq
key_eq_iff a b h = ground arith

key_eq_refl : (a : Key) → key_eq a a ≡ true
unfolding key_eq
key_eq_refl a = ground arith

key_eq_symm : (a b : Key) → key_eq a b ≡ key_eq b a
unfolding key_eq
key_eq_symm a b = ground arith

-- The counter of the first node with the key.
unfoldable pub find : Key → List Node → Option ℕ
find q [] = none
find q (n ∷ ns) = if key_eq n.key q then some n.counter else find q ns

-- How many nodes have the key.
unfoldable pub count : Key → List Node → ℕ
count q [] = 0
count q (n ∷ ns) = (if key_eq n.key q then 1 else 0) + count q ns

find-eq-none : (q : Key) (ns : List Node) → count q ns ≡ 0 → find q ns ≡ none
unfolding find count
find-eq-none q [] h = refl
find-eq-none q (n ∷ ns) h = ground (arith, find-eq-none q ns)

-- What the increment does, found or not: it returns the incremented counter of the key, changes
-- that one alone, and misses only a key that is not there.
abbrev pub BumpSpec : Key → List Node → Option (List Node × ℕ) → Type 0
BumpSpec key ns none = (find key ns ≡ none) × (count key ns ≡ 0)
BumpSpec key ns (some (ns', c)) =
    (m : ℕ) × (find key ns ≡ some m)
    × (c ≡ u32 (m + 1))
    × ((q : Key) → find q ns' ≡ (if key_eq key q then some c else find q ns))
    × ((q : Key) → count q ns' ≡ count q ns)

pub bump-BumpSpec : (key : Key) (ns : List Node) → BumpSpec key ns (bump key ns)
unfolding bump find count
bump-BumpSpec key [] = (refl, refl)
bump-BumpSpec key (n ∷ ns) =
    let ih = bump-BumpSpec key ns in
    elim (Bool-cases (key_eq n.key key)) [
      | inl hit ↦
          let same = key_eq_iff n.key key hit in
          rw hit (n.counter, rw hit, refl, (λ q. ground (arith, same)), λ q. refl)
      | inr miss ↦ elim (Option-cases (bump key ns)) [
        | inl e ↦
            let (absent, zero) = rw e at ih in rw (miss, e) (rw miss absent, rw miss (omega arith))
        | inr ((ns', c), e) ↦
            let (m, was, now, found, counts) = rw e at ih in
            rw (miss, e)
              (
                m,
                rw miss was,
                now,
                (λ q.
                    ground
                      (arith, found q, key_eq_iff n.key q, key_eq_iff key q, key_eq_refl q, miss)),
                λ q. ap (λ k. (if key_eq n.key q then 1 else 0) + k) (counts q),
              )
      ]
    ]

-- Without the first match: where a key occurs at most once, it is gone and the others stay.
pub find-unlink :
    (key q : Key) (ns : List Node)
    → count q ns ≤ 1
    → find q (unlink key ns) ≡ (if key_eq key q then none else find q ns)
unfolding unlink find count
find-unlink key q [] h = ground arith
find-unlink key q (n ∷ ns) h = ground (
  arith,
  find-unlink key q ns,
  find-eq-none q ns,
  key_eq_iff n.key q,
  key_eq_iff n.key key,
  key_eq_iff key q,
  key_eq_refl q,
  key_eq_refl key,
)

pub count-unlink-le : (key q : Key) (ns : List Node) → count q (unlink key ns) ≤ count q ns
unfolding unlink count
count-unlink-le key q [] = omega arith
count-unlink-le key q (n ∷ ns) = ground (arith, count-unlink-le key q ns)
