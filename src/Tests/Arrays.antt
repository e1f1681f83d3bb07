-- ===== src/Tests/Arrays.antt =====
-- A session of the phone book, and small arrays.
use eltex_systems.Base.{
  ℕ, ◌<◌, ◌≡◌, refl, List, [], ◌∷◌, some, arith, length, replicate, length-replicate, All,
}
use eltex_systems.Base.Int.{pos, negsuc}
use eltex_systems.Base.Text.{codes}
use eltex_systems.PhoneBook.{
  Book, Said, Choice, add, remove, search, print_all, leave, session, blank,
}
use eltex_systems.PhoneBook.Steps.{IsValid, contents}
use eltex_systems.PhoneBook.Refine.{list_session, session-list_session}
use eltex_systems.Massives.{reverse_output, reverse_from}
use eltex_systems.Massives.Spiral.{
  Write, matrix, to_right, to_bottom, to_left, to_top, not_all, spiral, fill, read_cell, print_row,
  print_rows, ulitka, ulitka-IsFilled,
}
use eltex_systems.Base.Int.{ℤ}
use eltex_systems.BitsOperations.{bit_at, bits_from, to_direct, negative_to_bits}
use eltex_systems.BitsOperations.Masks.{IsBinary, reads, bits_from-sign}
use eltex_systems.BitsOperations.Direct.{to_direct-magnitude}

abbrev empty_book : Book
empty_book = record { abonent_book = replicate 100 blank; abonent_count = 0 }

empty_book-IsValid : IsValid empty_book
empty_book-IsValid = record { size = length-replicate 100 blank; bound = omega arith }

abbrev choices : List Choice
choices =
    add (codes "ann") (codes "lee") (codes "123")
    ∷ add (codes "bob") (codes "ray") (codes "456")
    ∷ remove (pos 0)
    ∷ remove (negsuc 0)
    ∷ search (codes "bob")
    ∷ print_all
    ∷ leave
    ∷ []

session-list_session_example :
    (b' : Book) × (said : List Said) × (session choices empty_book ≡ some (b', said))
    × IsValid b'
    × (list_session choices (contents empty_book) ≡ (contents b', said))
session-list_session_example =
    session-list_session choices empty_book (ground arith) empty_book-IsValid

abbrev numbers : List ℕ
numbers = 3 ∷ 1 ∷ 4 ∷ 1 ∷ 5 ∷ []

reverse_output_runs :
    reverse_output (pos 5) numbers ≡ some (5 ∷ 1 ∷ 4 ∷ 1 ∷ 3 ∷ [], 5 ∷ 1 ∷ 4 ∷ 1 ∷ 3 ∷ [])
unfolding reverse_output reverse_from
reverse_output_runs = refl

ulitka-IsFilled_example :
    (ws : List Write) × (fill 3 ≡ some ws)
    × (length ws ≡ 9)
    × All (λ w. (w.row < 3) × (w.column < 3)) ws
    × (ulitka (pos 3) ≡ matrix (print_rows 3 3 0 ws))
ulitka-IsFilled_example = ulitka-IsFilled 2 (omega arith)

ulitka_runs : ulitka (pos 3) ≡ matrix ((1 ∷ 2 ∷ 3 ∷ []) ∷ (8 ∷ 9 ∷ 4 ∷ []) ∷ (7 ∷ 6 ∷ 5 ∷ []) ∷ [])
unfolding ulitka fill spiral not_all to_right to_bottom to_left to_top print_rows print_row
    read_cell
ulitka_runs = refl

bits_from-sign_example :
    (ds : List ℤ) × (bits_from 32 4294967291 ≡ negsuc 0 ∷ ds)
    × (length ds ≡ 31)
    × All IsBinary ds
    × (reads 0 ds ≡ 2147483643)
bits_from-sign_example = bits_from-sign 4294967291 (omega arith)

to_direct-magnitude_example :
    (to_direct 31 0 4294967284 ≡ 12) × ((negative_to_bits 4294967284).1 ≡ some (bits_from 32 12))
to_direct-magnitude_example = to_direct-magnitude 4294967284 (omega arith) (omega arith)

to_direct_int_min : to_direct 31 0 2147483648 ≡ 4294967295
unfolding to_direct bit_at
to_direct_int_min = refl
