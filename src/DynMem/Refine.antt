-- ===== src/DynMem/Refine.antt =====
-- The linked list as the list of its entries: what each choice does to it and prints, for a whole
-- session.
use eltex_systems.Base.{
  ℕ, suc, ◌+◌, ◌≤◌, ◌≡◌, refl, List, [], ◌∷◌, ◌++◌, Option, none, some, arith, ltb, if◌then◌else◌,
  length, take, drop, Bool-cases, inl, inr, All, length-append, length-take, length-drop,
}
use eltex_systems.PhoneBook.{Abonent}
use eltex_systems.DynMem.{
  Heap, Store, ok, Said, bound, Choice, add, remove, search, print_all, leave, other, goes_on,
  session,
}
use eltex_systems.DynMem.Layout.{Cells, layout, IsBook}
use eltex_systems.DynMem.Steps.{list_add, list_step, IsTyped, handle_choice-Handles}

-- A step makes the list longer by one entry at most.
length-list_step :
    (malloc : Heap → Option ℕ) (c : Choice) (cs : Cells)
    → length (list_step malloc c cs).0 ≤ suc (length cs)
length-list_step malloc (add name second_name tel) cs =
    let x : Abonent = record { name = name; second_name = second_name; tel = tel } in
    one_more (malloc (layout none cs none)) x
  where
    one_more : (m : Option ℕ) (x : Abonent) → length (list_add m x cs).0 ≤ suc (length cs)
    one_more none x = omega arith
    one_more (some p) x = omega (arith, length-append cs ((p, x) ∷ []))
length-list_step malloc (remove number) [] = omega arith
length-list_step malloc (remove number) (c ∷ cs) =
    let n = bound number in
    elim (Bool-cases (ltb n (length (c ∷ cs)))) [
      | inl there ↦ rw there (
          omega (
            arith,
            length-append (take n (c ∷ cs)) (drop (suc n) (c ∷ cs)),
            length-take n (c ∷ cs),
            length-drop (suc n) (c ∷ cs),
          ))
      | inr behind ↦ rw behind (omega arith)
    ]
length-list_step malloc (search name) [] = omega arith
length-list_step malloc (search name) (c ∷ cs) = omega arith
length-list_step malloc print_all [] = omega arith
length-list_step malloc print_all (c ∷ cs) = omega arith
length-list_step malloc leave cs = omega arith
length-list_step malloc other cs = omega arith

-- A whole session, on the list.
abbrev pub book_session : (Heap → Option ℕ) → List Choice → Cells → Cells × List Said
book_session malloc [] cs = (cs, [])
book_session malloc (c ∷ rest) cs =
    let (cs', said) = list_step malloc c cs in
    let (cs'', said') = book_session malloc rest cs' in
    if goes_on c then (cs'', said ++ said') else (cs', said)

-- From a store that holds the nodes of a list, with a `malloc` that returns null or an address that
-- is not allocated, and with fuel for the entries and one more for each choice, any session in which each
-- word fits its field runs to its end without an access through a null pointer or to memory that
-- is not allocated. It prints what the same session prints on the list, and at the end the store
-- holds exactly the nodes of the entries that are left: after the choice to leave no node at all.
pub session-book_session :
    (malloc : Heap → Option ℕ) (fuel : ℕ) (choices : List Choice) (s : Store) (cs : Cells)
    → ((h : Heap) (p : ℕ) → malloc h ≡ some p → h p ≡ none)
    → length cs + length choices ≤ fuel
    → All IsTyped choices
    → IsBook s cs
    → (s' : Store) × (session malloc fuel choices s ≡ ok (s', (book_session malloc choices cs).1))
      × IsBook s' (book_session malloc choices cs).0
unfolding session
session-book_session malloc fuel [] s cs fresh enough typed book = (s, refl, book)
session-book_session malloc fuel (c ∷ rest) s cs fresh enough typed book =
    let h = handle_choice-Handles malloc fuel fresh c s cs typed.0 (omega arith) book in
    let (s', run, next) =
      session-book_session malloc fuel rest h.store (list_step malloc c cs).0 fresh
        (omega (arith, length-list_step malloc c cs)) typed.1 h.book in
    elim (Bool-cases (goes_on c)) [
      | inl on ↦ (s', rw (session, h.run, on, run) refl, rw on next)
      | inr off ↦ (h.store, rw (session, h.run, off) refl, rw off h.book)
    ]
