-- ===== src/DynMem/Change.antt =====
-- How adding and removing an entry, and freeing all of them, change the list.
use eltex_systems.Base.{
  ℕ, ◌≡◌, refl, sym, ◌∙◌, true, false, [], ◌∷◌, ◌++◌, Option, none, some, arith, ◌==◌, Bool-cases,
  inl, inr,
}
use eltex_systems.PhoneBook.{Abonent}
use eltex_systems.DynMem.{Node, Heap, Store, ok, write, set_next, set_prev, added, link_last}
use eltex_systems.DynMem.Layout.{
  Cells, has, distinct, first, last, layout, IsBook, last-append, layout-append, layout_outside,
  layout-relink, distinct-snoc,
}

-- The last of some cells is a node of theirs, and is found in the heap.
pub last-cell :
    (a : ℕ) (x : Abonent) (cs : Cells)
    → (t : ℕ) × (last none ((a, x) ∷ cs) ≡ some t) × (has t ((a, x) ∷ cs) ≡ true)
last-cell a x [] = (a, refl, ground arith)
last-cell a x ((c, y) ∷ cs) = let (t, e, i) = last-cell c y cs in (t, e, ground arith)

pub layout_inside :
    (before : Option ℕ) (cs : Cells) (stop : Option ℕ) (b : ℕ)
    → has b cs ≡ true
    → (n : Node) × (layout before cs stop b ≡ some n)
layout_inside before [] stop b i = absurd (cc)
layout_inside before ((a, x) ∷ cs) stop b i = elim (Bool-cases (a == b)) [
  | inl here ↦ (record { abonent = x; next = first cs stop; prev = before }, rw here refl)
  | inr on ↦ let (n, e) = layout_inside (some a) cs stop b (ground arith) in (n, rw on e)
]

pub set_next_ok :
    (p : ℕ) (q : Option ℕ) (n : Node) (h : Heap)
    → h p ≡ some n
    → set_next p q h ≡ ok (write p (some (record n { next = q })) h)
unfolding set_next
set_next_ok p q n h e = rw (set_next, e) refl

pub set_prev_ok :
    (p : ℕ) (q : Option ℕ) (n : Node) (h : Heap)
    → h p ≡ some n
    → set_prev p q h ≡ ok (write p (some (record n { prev = q })) h)
unfolding set_prev
set_prev_ok p q n h e = rw (set_prev, e) refl

-- The link of the last node, set in the heap, is another address behind the cells.
pub write-relink :
    (h : Heap) (cs : Cells) (stop stop' : Option ℕ) (t : ℕ) (n : Node) (b : ℕ)
    → distinct cs ≡ true
    → last none cs ≡ some t
    → h t ≡ some n
    → h b ≡ layout none cs stop b
    → write t (some (record n { next = stop' })) h b ≡ layout none cs stop' b
unfolding write
write-relink h cs stop stop' t n b apart e at here =
    ground (arith, layout-relink none cs stop stop' b apart, e)

not-has : (s : Store) (cs : Cells) (p : ℕ) → IsBook s cs → s.heap p ≡ none → has p cs ≡ false
not-has s cs p book fresh = elim (Bool-cases (has p cs)) [
  | inr out ↦ out
  | inl is_in ↦
      let (n, e) = layout_inside none cs none p is_in in
      let both : none ≡ some n = sym fresh ∙ book.holds p ∙ e in cc
]

pub apart_from : (p b : ℕ) (cs : Cells) → has p cs ≡ false → has b cs ≡ true → (p == b) ≡ false
apart_from p b cs out is_in = elim (Bool-cases (p == b)) [
  | inr off ↦ off
  | inl hit ↦ let same : p ≡ b = ground arith in let both : has b cs ≡ false = rw (← same) out in cc
]

pub sym_apart : (t b : ℕ) (cs : Cells) → has t cs ≡ true → has b cs ≡ false → (t == b) ≡ false
sym_apart t b cs is_in out = let e = apart_from b t cs out is_in in ground arith

link_last_at_start :
    (s : Store) (h : Heap) (p : ℕ)
    → s.tail ≡ none
    → link_last p s h ≡ ok (record { heap = h; head = some p; tail = some p }, added ∷ [])
unfolding link_last
link_last_at_start s h p e = simp (link_last, e)

link_last_behind :
    (s : Store) (h h' : Heap) (p t : ℕ)
    → s.tail ≡ some t
    → set_next t (some p) h ≡ ok h'
    → link_last p s h ≡ ok (record { heap = h'; head = s.head; tail = some p }, added ∷ [])
unfolding link_last
link_last_behind s h h' p t e run = simp (link_last, e, run)

pub append_in :
    (xs ys : Cells) (b : ℕ)
    → has b xs ≡ true
    → layout none (xs ++ ys) none b ≡ layout none xs (first ys none) b
append_in xs ys b i = let e = layout-append none xs ys none b in rw i at e

pub append_out :
    (xs ys : Cells) (b : ℕ)
    → has b xs ≡ false
    → layout none (xs ++ ys) none b ≡ layout (last none xs) ys none b
append_out xs ys b i = let e = layout-append none xs ys none b in rw i at e

-- `link_last` on a new node behind the list: the list with the entry at its end.
pub link_last-IsBook :
    (s : Store) (cs : Cells) (p : ℕ) (x : Abonent)
    → IsBook s cs
    → s.heap p ≡ none
    → (s' : Store) × (link_last p s
          (write p (some (record { abonent = x; next = none; prev = s.tail })) s.heap)
        ≡ ok (s', added ∷ []))
      × IsBook s' (cs ++ ((p, x) ∷ []))
link_last-IsBook s [] p x book fresh =
    let h : Heap = write p (some (record { abonent = x; next = none; prev = s.tail })) s.heap in
    (
      record { heap = h; head = some p; tail = some p },
      link_last_at_start s h p book.tail,
      record {
        holds = λ b. unfold write in ground (arith, book.holds b, book.tail);
        head = refl;
        tail = refl;
        apart = refl;
      },
    )
link_last-IsBook s ((a, y) ∷ cs) p x book fresh =
    let all : Cells = (a, y) ∷ cs in
    let (t, e, i) = last-cell a y cs in
    let (n, inside) = layout_inside none all none t i in
    let new : Node = record { abonent = x; next = none; prev = s.tail } in
    let h : Heap = write p (some new) s.heap in
    let out = not-has s all p book fresh in
    let differs : (p == t) ≡ false = apart_from p t all out i in
    let at : h t ≡ some n = unfold write in rw differs (book.holds t ∙ inside) in
    let tail_is : s.tail ≡ some t = book.tail ∙ e in
    (
      record { heap = write t (some (record n { next = some p })) h; head = s.head; tail = some p },
      link_last_behind s h (write t (some (record n { next = some p })) h) p t tail_is
          (set_next_ok t (some p) n h at),
      record {
        holds = λ b. elim (Bool-cases (has b all)) [
          | inl is_in ↦
              let old : h b ≡ layout none all none b =
                unfold write in rw (apart_from p b all out is_in) (book.holds b) in
              write-relink h all none (some p) t n b book.apart e at old
              ∙ sym (append_in all ((p, x) ∷ []) b is_in)
          | inr is_out ↦
              let off : (t == b) ≡ false = sym_apart t b all i is_out in
              let old = layout_outside none all none b is_out in
              let added_node : write t (some (record n { next = some p })) h b
                  ≡ layout (last none all) ((p, x) ∷ []) none b =
                unfold write in ground (arith, book.holds b, old, off, tail_is, e) in
              added_node ∙ sym (append_out all ((p, x) ∷ []) b is_out)
        ];
        head = book.head;
        tail = sym (last-append none all ((p, x) ∷ []));
        apart = distinct-snoc all p x book.apart out;
      },
    )
