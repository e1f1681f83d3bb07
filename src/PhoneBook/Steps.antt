-- ===== src/PhoneBook/Steps.antt =====
-- What each choice does to the phone book, as a step of the list of its entries.
use eltex_systems.Base.{
  ℕ, zero, suc, ◌+◌, ◌-◌, ◌≤◌, ◌<◌, ◌≡◌, refl, ap, ◌∙◌, List, [], ◌∷◌, ◌++◌, some, arith,
  if◌then◌else◌, ltb, ◌==◌, length, set, take, length-set, Bool-cases, inl, inr, length-take,
}
use eltex_systems.Base.Int.{pos, negsuc}
use eltex_systems.PhoneBook.{
  max_abonents, max_len, Abonent, Book, Said, book_full, bad_number, removed, nobody_found,
  book_empty, bye, bad_choice, found_total, book_total, Choice, add, remove, search, print_all,
  leave, other, scan_field, scan_abonent, add_abonent, remove_abonent, search_abonent, print_book,
  handle_choice,
}
use eltex_systems.PhoneBook.Array.{
  remove_at, matches, entries, store-fits, shift_from-shifted, shifted, shifted-remove_at,
  length-shifted, search_from_lem, print_from-entries,
}

-- The entries in use.
abbrev pub contents : Book → List Abonent
contents b = take b.abonent_count b.abonent_book

-- The array has its 100 entries, and the count does not exceed them.
pub record IsValid (b : Book) : Type 0 where
  pub size : length b.abonent_book ≡ max_abonents
  pub bound : b.abonent_count ≤ max_abonents

abbrev pub found : List Said → List Said
found lines =
    lines ++ ((if length lines == 0 then nobody_found else found_total (length lines)) ∷ [])

-- What a choice does to the list of the entries, and what is printed.
abbrev pub list_step : Choice → List Abonent → List Abonent × List Said
list_step (add name second_name tel) bs =
    if ltb (length bs) max_abonents
    then (bs ++ (record { name = name; second_name = second_name; tel = tel } ∷ []), [])
    else (bs, book_full ∷ [])
list_step (remove (pos n)) bs =
    if ltb n (length bs) then (remove_at n bs, removed ∷ []) else (bs, bad_number ∷ [])
list_step (remove (negsuc n)) bs = (bs, bad_number ∷ [])
list_step (search name) bs = (bs, found (matches 0 name bs))
list_step print_all bs =
    if length bs == 0 then (bs, book_empty ∷ []) else (bs, book_total (length bs) ∷ entries 0 bs)
list_step leave bs = (bs, bye ∷ [])
list_step other bs = (bs, bad_choice ∷ [])

-- Every word that is typed fits its field.
abbrev pub IsTyped : Choice → Type 0
IsTyped (add name second_name tel) =
    (length name < max_len) × (length second_name < max_len) × (length tel < max_len)
IsTyped (search name) = length name < max_len
IsTyped _ = Unit

-- A handled choice: the book stays valid, and it is the step of the list.
pub record Handles (c : Choice) (b : Book) : Type 0 where
  pub book : Book
  pub said : List Said
  pub run : handle_choice c b ≡ some (book, said)
  pub valid : IsValid book
  pub refines : list_step c (contents b) ≡ (contents book, said)

length-contents : (b : Book) → IsValid b → length (contents b) ≡ b.abonent_count
length-contents b v = omega (arith, length-take b.abonent_count b.abonent_book, v.size, v.bound)

pub scan_field-fits : (word : List ℕ) → length word < max_len → scan_field word ≡ some word
unfolding scan_field
scan_field-fits word h = ground arith

pub scan_abonent-fits :
    (name second_name tel : List ℕ)
    → IsTyped (add name second_name tel)
    → scan_abonent name second_name tel
      ≡ some (record { name = name; second_name = second_name; tel = tel })
unfolding scan_abonent
scan_abonent-fits name second_name tel (p, q, r) =
    rw (scan_abonent, scan_field-fits name p, scan_field-fits second_name q, scan_field-fits tel r)
      refl

take-set_next :
    (n : ℕ) (bs : List Abonent) (a : Abonent)
    → n < length bs
    → take (suc n) (set bs n a) ≡ take n bs ++ (a ∷ [])
take-set_next n [] a h = absurd (omega arith)
take-set_next zero (b ∷ bs) a h = refl
take-set_next (suc n) (b ∷ bs) a h = ap (λ r. b ∷ r) (take-set_next n bs a (omega arith))

pub add-Handles :
    (name second_name tel : List ℕ) (b : Book)
    → IsTyped (add name second_name tel)
    → IsValid b
    → Handles (add name second_name tel) b
unfolding handle_choice add_abonent
add-Handles name second_name tel b typed v =
    let same = length-contents b v in
    elim (Bool-cases (ltb b.abonent_count max_abonents)) [
      | inl room ↦
          let a : Abonent = record { name = name; second_name = second_name; tel = tel } in
          let next : b.abonent_count + 1 ≡ suc b.abonent_count = omega arith in
          let more : take (b.abonent_count + 1) (set b.abonent_book b.abonent_count a)
              ≡ contents b ++ (a ∷ []) =
            rw next (take-set_next b.abonent_count b.abonent_book a (ground (arith, v.size))) in
          record {
            book = record {
              abonent_book = set b.abonent_book b.abonent_count a;
              abonent_count = b.abonent_count + 1;
            };
            said = [];
            run = simp (
              room,
              scan_abonent-fits name second_name tel typed,
              store-fits b.abonent_book b.abonent_count a (ground (arith, v.size)),
            );
            valid = record {
              size = length-set b.abonent_book b.abonent_count a ∙ v.size;
              bound = ground arith;
            };
            refines = simp (same, room, more);
          }
      | inr full ↦ record {
        book = b;
        said = book_full ∷ [];
        run = simp full;
        valid = v;
        refines = simp (same, full);
      }
    ]

pub remove-Handles : (n : ℕ) (b : Book) → IsValid b → Handles (remove (pos n)) b
unfolding handle_choice remove_abonent
remove-Handles n b v =
    let same = length-contents b v in
    elim (Bool-cases (ltb n b.abonent_count)) [
      | inl there ↦
          let moved =
            shift_from-shifted (b.abonent_count - 1 - n) n b.abonent_book
              (ground (arith, v.size, v.bound)) in
          let fewer =
            shifted-remove_at n b.abonent_count b.abonent_book (ground arith)
              (omega (arith, v.size, v.bound)) in
          record {
            book = record {
              abonent_book = shifted (b.abonent_count - 1 - n) n b.abonent_book;
              abonent_count = b.abonent_count - 1;
            };
            said = removed ∷ [];
            run = simp (there, moved);
            valid = record {
              size = length-shifted (b.abonent_count - 1 - n) n b.abonent_book ∙ v.size;
              bound = omega (arith, v.bound);
            };
            refines = simp (same, there, fewer);
          }
      | inr off ↦ record {
        book = b;
        said = bad_number ∷ [];
        run = simp off;
        valid = v;
        refines = simp (same, off);
      }
    ]

search-Handles :
    (name : List ℕ) (b : Book) → length name < max_len → IsValid b → Handles (search name) b
unfolding handle_choice search_abonent
search-Handles name b typed v = record {
  book = b;
  said = found (matches 0 name (contents b));
  run =
      rw
        (
          search_abonent,
          scan_field-fits name typed,
          search_from_lem name b.abonent_count 0 b.abonent_book (omega (arith, v.size, v.bound)),
        )
        refl;
  valid = v;
  refines = refl;
}

print_all-Handles : (b : Book) → IsValid b → Handles print_all b
unfolding handle_choice print_book
print_all-Handles b v =
    let same = length-contents b v in
    elim (Bool-cases (b.abonent_count == 0)) [
      | inl empty ↦ record {
        book = b;
        said = book_empty ∷ [];
        run = simp empty;
        valid = v;
        refines = simp (same, empty);
      }
      | inr some_there ↦ record {
        book = b;
        said = book_total b.abonent_count ∷ entries 0 (contents b);
        run = simp (
          some_there,
          print_from-entries b.abonent_count 0 b.abonent_book (omega (arith, v.size, v.bound)),
        );
        valid = v;
        refines = simp (same, some_there);
      }
    ]

pub handle_choice-Handles : (c : Choice) (b : Book) → IsTyped c → IsValid b → Handles c b
unfolding handle_choice remove_abonent
handle_choice-Handles (add name second_name tel) b typed v =
    add-Handles name second_name tel b typed v
handle_choice-Handles (remove (pos n)) b typed v = remove-Handles n b v
handle_choice-Handles (remove (negsuc n)) b typed v = record {
  book = b;
  said = bad_number ∷ [];
  run = refl;
  valid = v;
  refines = refl;
}
handle_choice-Handles (search name) b typed v = search-Handles name b typed v
handle_choice-Handles print_all b typed v = print_all-Handles b v
handle_choice-Handles leave b typed v = record {
  book = b;
  said = bye ∷ [];
  run = refl;
  valid = v;
  refines = refl;
}
handle_choice-Handles other b typed v = record {
  book = b;
  said = bad_choice ∷ [];
  run = refl;
  valid = v;
  refines = refl;
}
