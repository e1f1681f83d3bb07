-- ===== src/Tests/Books.antt =====
-- A session of the phone book on a linked list, in a memory of two nodes.
use eltex_systems.Base.{ℕ, ◌≡◌, refl, List, [], ◌∷◌, Option, none, some, arith}
use eltex_systems.Base.Int.{pos, negsuc}
use eltex_systems.Base.Text.{codes}
use eltex_systems.DynMem.{
  Node, Heap, Store, ok, Choice, add, remove, search, print_all, leave, session,
}
use eltex_systems.DynMem.Layout.{IsBook}
use eltex_systems.DynMem.Refine.{book_session, session-book_session}

-- The first of two addresses that is free.
abbrev pick : Option Node → Option Node → Option ℕ
pick none n = some 1
pick (some m) none = some 2
pick (some m) (some n) = none

abbrev malloc : Heap → Option ℕ
malloc h = pick (h 1) (h 2)

pick_fresh :
    (m n : Option Node) (h : Heap) (p : ℕ) → h 1 ≡ m → h 2 ≡ n → pick m n ≡ some p → h p ≡ none
pick_fresh none n h p e f g = let at : p ≡ 1 = ground arith in rw at e
pick_fresh (some m) none h p e f g = let at : p ≡ 2 = ground arith in rw at f
pick_fresh (some m) (some n) h p e f g = absurd (cc)

abbrev empty : Store
empty = record { heap = λ b. none; head = none; tail = none }

empty-IsBook : IsBook empty []
empty-IsBook = record { holds = λ b. refl; head = refl; tail = refl; apart = refl }

abbrev choices : List Choice
choices =
    add (codes "ann") (codes "lee") (codes "123")
    ∷ add (codes "bob") (codes "ray") (codes "456")
    ∷ add (codes "cat") (codes "may") (codes "789")
    ∷ print_all
    ∷ remove (negsuc 0)
    ∷ remove (pos 7)
    ∷ search (codes "bob")
    ∷ leave
    ∷ []

session-book_session_example :
    (s' : Store) × (session malloc 8 choices empty ≡ ok (s', (book_session malloc choices []).1))
    × IsBook s' (book_session malloc choices []).0
session-book_session_example =
    session-book_session malloc 8 choices empty [] (λ h p e. pick_fresh (h 1) (h 2) h p refl refl e)
      (omega arith) (ground arith) empty-IsBook
