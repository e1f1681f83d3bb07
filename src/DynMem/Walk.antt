-- ===== src/DynMem/Walk.antt =====
-- The loops of the list, from a node to the end, as functions of the entries on the way.
use eltex_systems.Base.{
  ℕ, zero, suc, ◌-◌, ◌≤◌, ◌≡◌, refl, ap, sym, ◌∙◌, true, false, List, [], ◌∷◌, ◌++◌, Option, none,
  some, arith, ltb, if◌then◌else◌, length, drop, Bool-cases, inl, inr, append_assoc,
}
use eltex_systems.Base.Text.{same_bytes}
use eltex_systems.PhoneBook.{Abonent}
use eltex_systems.DynMem.{
  Node, Heap, ok, write, load, free, Said, entry, print_from, search_from, find, free_from,
}
use eltex_systems.DynMem.Layout.{
  Cells, has, distinct, first, last, layout, layout-append, distinct-middle,
}

-- The pointers lead from `p` through the cells to the end.
abbrev pub Chain : Heap → Option ℕ → Cells → Type 0
Chain h p [] = p ≡ none
Chain h p ((a, x) ∷ cs) =
    (p ≡ some a) × (n : Node) × (h a ≡ some n) × (n.abonent ≡ x) × Chain h n.next cs

abbrev pub abonents : Cells → List Abonent
abonents [] = []
abonents ((a, x) ∷ cs) = x ∷ abonents cs

abbrev pub entries : ℕ → List Abonent → List Said
entries i [] = []
entries i (x ∷ xs) = entry i x ∷ entries (suc i) xs

abbrev pub matches : ℕ → List ℕ → List Abonent → List Said
matches i name [] = []
matches i name (x ∷ xs) =
    if same_bytes x.name name then entry i x ∷ matches (suc i) name xs else matches (suc i) name xs

-- The node of a cell in the middle.
pub node_at :
    (h : Heap) (front back : Cells) (a : ℕ) (x : Abonent)
    → ((b : ℕ) → h b ≡ layout none (front ++ ((a, x) ∷ back)) none b)
    → distinct (front ++ ((a, x) ∷ back)) ≡ true
    → h a ≡ some (record { abonent = x; next = first back none; prev = last none front })
node_at h front back a x holds apart =
    let out = (distinct-middle front a x back apart).0 in
    ground (arith, holds a, layout-append none front ((a, x) ∷ back) none a, out)

pub layout-Chain :
    (h : Heap) (front back : Cells)
    → ((b : ℕ) → h b ≡ layout none (front ++ back) none b)
    → distinct (front ++ back) ≡ true
    → Chain h (first back none) back
layout-Chain h front [] holds apart = refl
layout-Chain h front ((a, x) ∷ back) holds apart =
    let shift = append_assoc front ((a, x) ∷ []) back in
    (
      refl,
      record { abonent = x; next = first back none; prev = last none front },
      node_at h front back a x holds apart,
      refl,
      layout-Chain h (front ++ ((a, x) ∷ [])) back
          (λ b. holds b ∙ ap (λ cs. layout none cs none b) (sym shift)) (ap distinct shift ∙ apart),
    )

pub load_ok : (p : ℕ) (n : Node) (h : Heap) → h p ≡ some n → load p h ≡ ok n
unfolding load
load_ok p n h e = rw (load, e) refl

pub free_ok : (p : ℕ) (n : Node) (h : Heap) → h p ≡ some n → free p h ≡ ok (write p none h)
unfolding free
free_ok p n h e = rw (free, e) refl

pub print_from-entries :
    (f : ℕ) (h : Heap) (p : Option ℕ) (i : ℕ) (cs : Cells)
    → length cs ≤ f
    → Chain h p cs
    → print_from f h p i ≡ ok (entries i (abonents cs))
unfolding print_from
print_from-entries f h p i [] fuel c = rw c (cases f)
  where
    cases : (f : ℕ) → print_from f h none i ≡ ok []
    cases zero = refl
    cases (suc f) = refl
print_from-entries zero h p i ((a, x) ∷ cs) fuel c = absurd (omega arith)
print_from-entries (suc f) h p i ((a, x) ∷ cs) fuel (start, n, at, same, rest) =
    rw
      (
        start,
        print_from,
        load_ok a n h at,
        print_from-entries f h n.next (suc i) cs (omega arith) rest,
        same,
      )
      refl

pub search_from-matches :
    (f : ℕ) (name : List ℕ) (h : Heap) (p : Option ℕ) (i : ℕ) (cs : Cells)
    → length cs ≤ f
    → Chain h p cs
    → search_from f name h p i
      ≡ ok (matches i name (abonents cs), length (matches i name (abonents cs)))
unfolding search_from
search_from-matches f name h p i [] fuel c = rw c (cases f)
  where
    cases : (f : ℕ) → search_from f name h none i ≡ ok ([], 0)
    cases zero = refl
    cases (suc f) = refl
search_from-matches zero name h p i ((a, x) ∷ cs) fuel c = absurd (omega arith)
search_from-matches (suc f) name h p i ((a, x) ∷ cs) fuel (start, n, at, same, rest) =
    rw
      (
        start,
        search_from,
        load_ok a n h at,
        search_from-matches f name h n.next (suc i) cs (omega arith) rest,
        same,
      )
      (ground arith)

-- The loop stops at the cell with the number, counted from `i`, or at the end.
pub find-drop :
    (f : ℕ) (h : Heap) (p : Option ℕ) (i n : ℕ) (cs : Cells)
    → length cs ≤ f
    → Chain h p cs
    → find f h p i n ≡ ok (first (drop (n - i) cs) none)
unfolding find
find-drop f h p i n [] fuel c = rw c (cases f (n - i))
  where
    cases : (f k : ℕ) → find f h none i n ≡ ok (first (drop k []) none)
    cases zero zero = refl
    cases (suc f) zero = refl
    cases zero (suc k) = refl
    cases (suc f) (suc k) = refl
find-drop zero h p i n ((a, x) ∷ cs) fuel c = absurd (omega arith)
find-drop (suc f) h p i n ((a, x) ∷ cs) fuel (start, node, at, same, rest) =
    elim (Bool-cases (ltb i n)) [
      | inl below ↦
          let more : n - i ≡ suc (n - suc i) = ground arith in
          rw
            (
              start,
              find,
              below,
              load_ok a node h at,
              find-drop f h node.next (suc i) n cs (omega arith) rest,
              more,
            )
            refl
      | inr there ↦ let stop : n - i ≡ 0 = ground arith in rw (start, find, there, stop) refl
    ]

Chain-free :
    (h : Heap) (a : ℕ) (p : Option ℕ) (cs : Cells)
    → has a cs ≡ false
    → Chain h p cs
    → Chain (write a none h) p cs
unfolding write
Chain-free h a p [] out c = c
Chain-free h a p ((b, x) ∷ cs) out (start, n, at, same, rest) =
    (start, n, ground arith, same, Chain-free h a n.next cs (ground arith) rest)

-- The loop of `free_all` frees the nodes on the way, each once, and no other.
pub free_from-frees :
    (f : ℕ) (h : Heap) (p : Option ℕ) (cs : Cells)
    → length cs ≤ f
    → distinct cs ≡ true
    → Chain h p cs
    → (h' : Heap) × (free_from f h p ≡ ok h') × ((b : ℕ) → h' b ≡ (if has b cs then none else h b))
unfolding free_from
free_from-frees f h p [] fuel apart c = (h, rw c (cases f), λ b. refl)
  where
    cases : (f : ℕ) → free_from f h none ≡ ok h
    cases zero = refl
    cases (suc f) = refl
free_from-frees zero h p ((a, x) ∷ cs) fuel apart c = absurd (omega arith)
free_from-frees (suc f) h p ((a, x) ∷ cs) fuel apart (start, n, at, same, rest) =
    let out : has a cs ≡ false = ground arith in
    let freed = free_ok a n h at in
    let (h', run, gone) =
      free_from-frees f (write a none h) n.next cs (omega arith) (ground arith)
        (Chain-free h a n.next cs out rest) in
    (
      h',
      rw (start, free_from, load_ok a n h at, freed, run) refl,
      λ b. gone b ∙ (unfold write in ground arith),
    )
