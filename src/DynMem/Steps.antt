-- ===== src/DynMem/Steps.antt =====
-- What each choice does to the linked list, as a step of the list of its entries.
use eltex_systems.Base.{
  ℕ, zero, suc, ◌≤◌, ◌<◌, ◌≡◌, refl, ap, ◌∙◌, false, List, [], ◌∷◌, ◌++◌, Option, none, some, arith,
  ltb, ◌==◌, if◌then◌else◌, length, take, drop, Bool-cases, inl, inr, fun_ext, subst,
}
use eltex_systems.Base.Int.{ℤ}
use eltex_systems.PhoneBook.{Abonent, max_len, scan_field}
use eltex_systems.PhoneBook.Steps.{scan_field-fits, scan_abonent-fits}
use eltex_systems.DynMem.{
  Heap, Store, ok, Said, no_memory, added, book_empty, not_found, removed, bye, bad_choice,
  list_header, nobody, matches_found, add_abonent, print_book, search_from, search_abonent, find,
  bound, remove_abonent, Choice, add, remove, search, print_all, leave, other, handle_choice,
}
use eltex_systems.DynMem.Layout.{Cells, first, layout, IsBook}
use eltex_systems.DynMem.Walk.{
  Chain, abonents, entries, matches, layout-Chain, print_from-entries, search_from-matches,
  find-drop,
}
use eltex_systems.DynMem.Change.{link_last-IsBook}
use eltex_systems.DynMem.Unlink.{unlink-IsBook, free_all-IsBook}

-- The lines of a search.
abbrev pub found : List ℕ → List Said → List Said
found name lines =
    lines ++ ((if length lines == 0 then nobody name else matches_found (length lines)) ∷ [])

abbrev pub list_add : Option ℕ → Abonent → Cells → Cells × List Said
list_add none x cs = (cs, no_memory ∷ [])
list_add (some p) x cs = (cs ++ ((p, x) ∷ []), added ∷ [])

-- What a choice does to the list of the entries, and what is printed. An entry is added behind the
-- others where `malloc` has room; the number of an entry is its place, and a number below 0 is
-- taken for 0.
abbrev pub list_step : (Heap → Option ℕ) → Choice → Cells → Cells × List Said
list_step malloc (add name second_name tel) cs =
    let x : Abonent = record { name = name; second_name = second_name; tel = tel } in
    list_add (malloc (layout none cs none)) x cs
list_step malloc (remove number) [] = ([], book_empty ∷ [])
list_step malloc (remove number) (c ∷ cs) =
    let n = bound number in
    if ltb n (length (c ∷ cs))
    then (take n (c ∷ cs) ++ drop (suc n) (c ∷ cs), removed ∷ [])
    else (c ∷ cs, not_found ∷ [])
list_step malloc (search name) [] = ([], book_empty ∷ [])
list_step malloc (search name) (c ∷ cs) = (c ∷ cs, found name (matches 0 name (abonents (c ∷ cs))))
list_step malloc print_all [] = ([], book_empty ∷ [])
list_step malloc print_all (c ∷ cs) = (c ∷ cs, list_header ∷ entries 0 (abonents (c ∷ cs)))
list_step malloc leave cs = ([], bye ∷ [])
list_step malloc other cs = (cs, bad_choice ∷ [])

-- Every word that is typed fits its field.
abbrev pub IsTyped : Choice → Type 0
IsTyped (add name second_name tel) =
    (length name < max_len) × (length second_name < max_len) × (length tel < max_len)
IsTyped (search name) = length name < max_len
IsTyped _ = Unit

-- A handled choice: the store holds the new list, and nothing else was printed.
pub record Handles (malloc : Heap → Option ℕ) (fuel : ℕ) (c : Choice) (s : Store) (cs : Cells)
    : Type 0 where
  pub store : Store
  pub run : handle_choice malloc fuel c s ≡ ok (store, (list_step malloc c cs).1)
  pub book : IsBook store (list_step malloc c cs).0

heap-layout : (s : Store) (cs : Cells) → IsBook s cs → s.heap ≡ layout none cs none
heap-layout s cs book = fun_ext book.holds

book-Chain : (s : Store) (cs : Cells) → IsBook s cs → Chain s.heap (first cs none) cs
book-Chain s cs book = layout-Chain s.heap [] cs book.holds book.apart

drop-split :
    (n : ℕ) (cs : Cells)
    → n < length cs
    → (a : ℕ) × (x : Abonent) × (cs ≡ take n cs ++ ((a, x) ∷ drop (suc n) cs))
      × (first (drop n cs) none ≡ some a)
drop-split n [] h = absurd (omega arith)
drop-split zero ((a, x) ∷ cs) h = (a, x, refl, refl)
drop-split (suc n) (c ∷ cs) h =
    let (a, x, e, f) = drop-split n cs (omega arith) in (a, x, ap (λ r. c ∷ r) e, f)

drop_behind : (n : ℕ) (cs : Cells) → ltb n (length cs) ≡ false → first (drop n cs) none ≡ none
drop_behind zero [] h = refl
drop_behind (suc n) [] h = refl
drop_behind zero (c ∷ cs) h = ground arith
drop_behind (suc n) (c ∷ cs) h = drop_behind n cs (ground arith)

module _ (malloc : Heap → Option ℕ) (fuel : ℕ)
    (fresh : (h : Heap) (p : ℕ) → malloc h ≡ some p → h p ≡ none) where
  pub add-Handles :
      (name second_name tel : List ℕ) (s : Store) (cs : Cells)
      → IsTyped (add name second_name tel)
      → IsBook s cs
      → (m : Option ℕ) → malloc s.heap ≡ m
      → Handles malloc fuel (add name second_name tel) s cs
  unfolding handle_choice add_abonent
  add-Handles name second_name tel s cs typed book none e =
      let e' : malloc (layout none cs none) ≡ none = rw (← heap-layout s cs book) e in
      record { store = s; run = rw (e, e') refl; book = rw e' book }
  add-Handles name second_name tel s cs typed book (some p) e =
      let e' : malloc (layout none cs none) ≡ some p = rw (← heap-layout s cs book) e in
      let x : Abonent = record { name = name; second_name = second_name; tel = tel } in
      let (s', run, next) = link_last-IsBook s cs p x book (fresh s.heap p e) in
      record {
        store = s';
        run = rw (e, e', add_abonent, scan_abonent-fits name second_name tel typed) run;
        book = rw e' next;
      }

  pub remove-Handles :
      (number : ℤ) (s : Store) (cs : Cells)
      → length cs ≤ fuel
      → IsBook s cs
      → Handles malloc fuel (remove number) s cs
  unfolding handle_choice remove_abonent
  remove-Handles number s [] enough book = record {
    store = s;
    run = simp (remove_abonent, book.head);
    book = book;
  }
  remove-Handles number s ((a, x) ∷ r) enough book =
      let cs : Cells = (a, x) ∷ r in
      let n = bound number in
      let at : find fuel s.heap (some a) 0 n ≡ ok (first (drop n cs) none) =
        find-drop fuel s.heap (some a) 0 n cs enough (book-Chain s cs book)
        ∙ ap (λ k. ok (first (drop k cs) none)) (omega arith) in
      elim (Bool-cases (ltb n (length cs))) [
        | inl there ↦
            let (c, y, split, here) = drop-split n cs (ground arith) in
            let (s', run, next) =
              unlink-IsBook s (take n cs) (drop (suc n) cs) c y (subst (IsBook s) split book) in
            record {
              store = s';
              run = simp (remove_abonent, book.head, at, here, run, there);
              book = rw there next;
            }
        | inr behind ↦ record {
          store = s;
          run = simp (remove_abonent, book.head, at, drop_behind n cs behind, behind);
          book = rw behind book;
        }
      ]

  searched :
      (word name : List ℕ) (s : Store) (p : ℕ) (r : List Said × ℕ)
      → s.head ≡ some p
      → scan_field word ≡ some name
      → search_from fuel name s.heap (some p) 0 ≡ ok r
      → search_abonent fuel word s
        ≡ ok (s, r.0 ++ ((if r.1 == 0 then nobody name else matches_found r.1) ∷ []))
  unfolding search_abonent
  searched word name s p r e fits run = simp (search_abonent, e, fits, run)

  look_up :
      (name : List ℕ) (s : Store) (cs : Cells)
      → length name < max_len
      → length cs ≤ fuel
      → IsBook s cs
      → Handles malloc fuel (search name) s cs
  unfolding handle_choice search_abonent
  look_up name s [] typed enough book = record {
    store = s;
    run = simp (search_abonent, book.head);
    book = book;
  }
  look_up name s ((a, x) ∷ r) typed enough book =
      let cs : Cells = (a, x) ∷ r in
      let head : s.head ≡ some a = book.head in
      let lines =
        search_from-matches fuel name s.heap (some a) 0 cs enough (book-Chain s cs book) in
      record {
        store = s;
        run =
            searched name name s a
              (matches 0 name (abonents cs), length (matches 0 name (abonents cs))) head
              (scan_field-fits name typed) lines;
        book = book;
      }

  list_all :
      (s : Store) (cs : Cells) → length cs ≤ fuel → IsBook s cs → Handles malloc fuel print_all s cs
  unfolding handle_choice print_book
  list_all s [] enough book = record { store = s; run = simp (print_book, book.head); book = book }
  list_all s ((a, x) ∷ r) enough book =
      let cs : Cells = (a, x) ∷ r in
      let head : s.head ≡ some a = book.head in
      let lines = print_from-entries fuel s.heap (some a) 0 cs enough (book-Chain s cs book) in
      record { store = s; run = simp (print_book, head, lines); book = book }

  pub handle_choice-Handles :
      (c : Choice) (s : Store) (cs : Cells)
      → IsTyped c
      → length cs ≤ fuel
      → IsBook s cs
      → Handles malloc fuel c s cs
  unfolding handle_choice
  handle_choice-Handles (add name second_name tel) s cs typed enough book =
      add-Handles name second_name tel s cs typed book (malloc s.heap) refl
  handle_choice-Handles (remove number) s cs typed enough book =
      remove-Handles number s cs enough book
  handle_choice-Handles (search name) s cs typed enough book = look_up name s cs typed enough book
  handle_choice-Handles print_all s cs typed enough book = list_all s cs enough book
  handle_choice-Handles leave s cs typed enough book =
      let (s', run, empty) = free_all-IsBook fuel s cs enough book in
      record { store = s'; run = rw (handle_choice, run) refl; book = empty }
  handle_choice-Handles other s cs typed enough book = record { store = s; run = refl; book = book }
