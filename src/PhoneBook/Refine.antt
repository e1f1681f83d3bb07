-- ===== src/PhoneBook/Refine.antt =====
-- The phone book as a list: what each choice does to it and prints, and that the array does that.
use eltex_systems.Base.{
  ◌≡◌, refl, List, [], ◌∷◌, ◌++◌, some, if◌then◌else◌, Bool-cases, inl, inr, All,
}
use eltex_systems.PhoneBook.{Abonent, Book, Said, Choice, goes_on, session}
use eltex_systems.PhoneBook.Steps.{contents, IsValid, list_step, IsTyped, handle_choice-Handles}

-- A whole session, on the list.
abbrev pub list_session : List Choice → List Abonent → List Abonent × List Said
list_session [] bs = (bs, [])
list_session (c ∷ cs) bs =
    let (bs', said) = list_step c bs in
    let (bs'', said') = list_session cs bs' in
    if goes_on c then (bs'', said ++ said') else (bs', said)

-- From a valid book, any session in which each word fits its field runs to its end without an
-- access outside an array, keeps the book valid, and prints and stores what the same session does
-- to the list of the entries.
pub session-list_session :
    (cs : List Choice) (b : Book)
    → All IsTyped cs
    → IsValid b
    → (b' : Book) × (said : List Said) × (session cs b ≡ some (b', said))
      × IsValid b'
      × (list_session cs (contents b) ≡ (contents b', said))
unfolding session
session-list_session [] b typed v = (b, [], refl, v, refl)
session-list_session (c ∷ cs) b typed v =
    let h = handle_choice-Handles c b typed.0 v in
    let (b', said, run, valid, refines) = session-list_session cs h.book typed.1 h.valid in
    elim (Bool-cases (goes_on c)) [
      | inl on ↦ (
        b',
        h.said ++ said,
        rw (session, h.run, on, run) refl,
        valid,
        rw (h.refines, refines, on) refl,
      )
      | inr off ↦ (h.book, h.said, rw (session, h.run, off) refl, h.valid, rw (h.refines, off) refl)
    ]
