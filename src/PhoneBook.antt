-- ===== src/PhoneBook.antt =====
-- `functions/functions.c`: the phone book, an array of 100 entries of which the first
-- `abonent_count` are in use, and the menu that works on it.
pub mod Array
pub mod Steps
pub mod Refine
use eltex_systems.Base.{
  ℕ, zero, suc, ◌+◌, ◌-◌, Bool, true, false, List, [], ◌∷◌, ◌++◌, Option, none, some, ltb, ◌==◌,
  if◌then◌else◌, length, get_elem?, set,
}
use eltex_systems.Base.Int.{ℤ, pos, negsuc}
use eltex_systems.Base.Text.{same_bytes}

abbrev pub max_abonents : ℕ
max_abonents = 100

abbrev pub max_len : ℕ
max_len = 10

pub record Abonent : Type 0 where
  pub name : List ℕ
  pub second_name : List ℕ
  pub tel : List ℕ

-- An entry that was never written: the array is all zero at the start.
abbrev pub blank : Abonent
blank = record { name = []; second_name = []; tel = [] }

pub record Book : Type 0 where
  pub abonent_book : List Abonent
  pub abonent_count : ℕ

-- What is printed, without the prompts.
pub data Said : Type 0 where
  book_full bad_number removed nobody_found book_empty bye bad_choice : Said
  found_total book_total : ℕ → Said
  entry : ℕ → Abonent → Said

-- A choice of the menu with what the user types next.
pub data Choice : Type 0 where
  add : (name second_name tel : List ℕ) → Choice
  remove : ℤ → Choice
  search : List ℕ → Choice
  print_all leave other : Choice

-- `scanf ("%s", field)` into 10 bytes; `none` where the word and its NUL do not fit, which
-- writes behind the field.
unfoldable pub scan_field : List ℕ → Option (List ℕ)
scan_field word = if ltb (length word) max_len then some word else none

-- A result of `none` is an access outside an array.
abbrev pub Result : Type 0
Result = Option (Book × List Said)

-- The three `scanf` of `add_abonent`.
unfoldable pub scan_abonent : List ℕ → List ℕ → List ℕ → Option Abonent
scan_abonent name second_name tel = elim (scan_field name) [
  | none ↦ none
  | some name' ↦ elim (scan_field second_name) [
    | none ↦ none
    | some second_name' ↦ elim (scan_field tel) [
      | none ↦ none
      | some tel' ↦ some (record { name = name'; second_name = second_name'; tel = tel' })
    ]
  ]
]

-- An array with another entry at an index; none behind its end.
unfoldable pub store : List Abonent → ℕ → Abonent → Option (List Abonent)
store bs i a = if ltb i (length bs) then some (set bs i a) else none

unfoldable pub add_abonent : List ℕ → List ℕ → List ℕ → Book → Result
add_abonent name second_name tel b =
    if ltb b.abonent_count max_abonents
    then elim (scan_abonent name second_name tel) [
      | none ↦ none
      | some a ↦ elim (store b.abonent_book b.abonent_count a) [
        | none ↦ none
        | some book ↦ some (record { abonent_book = book; abonent_count = b.abonent_count + 1 }, [])
      ]
    ]
    else some (b, book_full ∷ [])

-- The loop of `remove_abonent` from `i`, for the rounds that are left.
unfoldable pub shift_from : (rounds i : ℕ) → List Abonent → Option (List Abonent)
shift_from zero i bs = some bs
shift_from (suc n) i bs = elim (get_elem? bs (suc i)) [
  | none ↦ none
  | some next ↦ elim (store bs i next) [ none ↦ none | some bs' ↦ shift_from n (suc i) bs' ]
]

unfoldable pub remove_abonent : ℤ → Book → Result
remove_abonent (negsuc n) b = some (b, bad_number ∷ [])
remove_abonent (pos n) b =
    if ltb n b.abonent_count
    then (elim (shift_from (b.abonent_count - 1 - n) n b.abonent_book) [
      | none ↦ none
      | some book ↦
          some (record { abonent_book = book; abonent_count = b.abonent_count - 1 }, removed ∷ [])
    ])
    else some (b, bad_number ∷ [])

-- The loop of `search_abonent` from `i`: what it prints and what it adds to `counter`.
unfoldable pub search_from : (rounds i : ℕ) → List ℕ → List Abonent → Option (List Said × ℕ)
search_from zero i name bs = some ([], 0)
search_from (suc n) i name bs =
    let rest = search_from n (suc i) name bs in
    elim (get_elem? bs i) [
      | none ↦ none
      | some a ↦ elim rest [
        | none ↦ none
        | some (lines, counter) ↦
            if same_bytes a.name name
            then some (entry i a ∷ lines, counter + 1)
            else some (lines, counter)
      ]
    ]

unfoldable pub search_abonent : List ℕ → Book → Result
search_abonent word b = elim (scan_field word) [
  | none ↦ none
  | some name ↦ elim (search_from b.abonent_count 0 name b.abonent_book) [
    | none ↦ none
    | some (lines, counter) ↦
        some (b, lines ++ ((if counter == 0 then nobody_found else found_total counter) ∷ []))
  ]
]

unfoldable pub print_from : (rounds i : ℕ) → List Abonent → Option (List Said)
print_from zero i bs = some []
print_from (suc n) i bs =
    let rest = print_from n (suc i) bs in
    elim (get_elem? bs i) [
      | none ↦ none
      | some a ↦ elim rest [ none ↦ none | some lines ↦ some (entry i a ∷ lines) ]
    ]

unfoldable pub print_book : Book → Result
print_book b =
    if b.abonent_count == 0
    then some (b, book_empty ∷ [])
    else elim (print_from b.abonent_count 0 b.abonent_book) [
      | none ↦ none
      | some lines ↦ some (b, book_total b.abonent_count ∷ lines)
    ]

unfoldable pub handle_choice : Choice → Book → Result
handle_choice (add name second_name tel) b = add_abonent name second_name tel b
handle_choice (remove number) b = remove_abonent number b
handle_choice (search name) b = search_abonent name b
handle_choice print_all b = print_book b
handle_choice leave b = some (b, bye ∷ [])
handle_choice other b = some (b, bad_choice ∷ [])

abbrev pub goes_on : Choice → Bool
goes_on leave = false
goes_on _ = true

-- The loop of `main`, for the choices that are made; it ends behind the choice to leave.
unfoldable pub session : List Choice → Book → Result
session [] b = some (b, [])
session (c ∷ cs) b = elim (handle_choice c b) [
  | none ↦ none
  | some (b', said) ↦
      if goes_on c
      then (elim (session cs b') [ none ↦ none | some (b'', said') ↦ some (b'', said ++ said') ])
      else some (b', said)
]
