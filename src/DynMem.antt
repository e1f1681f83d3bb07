-- ===== src/DynMem.antt =====
-- `dynmem/dynmem.c`: the phone book as a doubly linked list of allocated nodes. The store maps the
-- address of each allocated node to what it holds; a null pointer is `none`. The first three
-- fields of a node, and what `scanf` does with them, are those of `functions/functions.c`.
pub mod Layout
pub mod Walk
pub mod Change
pub mod Skips
pub mod Unlink
pub mod Steps
pub mod Refine
use eltex_systems.Base.{
  ℕ, zero, suc, ◌+◌, Bool, true, false, List, [], ◌∷◌, ◌++◌, Option, none, some, ltb, ◌==◌,
  if◌then◌else◌,
}
use eltex_systems.Base.Int.{ℤ, pos, negsuc}
use eltex_systems.Base.Text.{same_bytes}
use eltex_systems.PhoneBook.{Abonent, scan_field, scan_abonent}

pub record Node : Type 0 where
  pub abonent : Abonent
  pub next : Option ℕ
  pub prev : Option ℕ

abbrev pub Heap : Type 0
Heap = ℕ → Option Node

-- The heap, with `head` and `tail`.
pub record Store : Type 0 where
  pub heap : Heap
  pub head : Option ℕ
  pub tail : Option ℕ

-- `fault` is an access through a null pointer, or to memory that is not allocated, or behind the
-- end of an array.
pub data Run {ℓ} (A : Type ℓ) : Type ℓ where
  ok : A → Run A
  fault : Run A
  out_of_fuel : Run A

infixl 5 ◌>>=◌
abbrev pub ◌>>=◌ {ℓ κ} : {A : Type ℓ} {B : Type κ} → Run A → (A → Run B) → Run B
ok a >>= f = f a
fault >>= f = fault
out_of_fuel >>= f = out_of_fuel

unfoldable pub write : ℕ → Option Node → Heap → Heap
write p n h b = if p == b then n else h b

unfoldable pub load : ℕ → Heap → Run Node
load p h = elim (h p) [ none ↦ fault | some n ↦ ok n ]

-- `p->next = q`, `p->prev = q` and `free (p)`.
unfoldable pub set_next : ℕ → Option ℕ → Heap → Run Heap
set_next p q h = elim (h p) [
  | none ↦ fault
  | some n ↦ ok (write p (some (record n { next = q })) h)
]

unfoldable pub set_prev : ℕ → Option ℕ → Heap → Run Heap
set_prev p q h = elim (h p) [
  | none ↦ fault
  | some n ↦ ok (write p (some (record n { prev = q })) h)
]

unfoldable pub free : ℕ → Heap → Run Heap
free p h = elim (h p) [ none ↦ fault | some n ↦ ok (write p none h) ]

-- What is printed, without the prompts.
pub data Said : Type 0 where
  no_memory added book_empty not_found removed bye bad_choice : Said
  list_header : Said
  entry : ℕ → Abonent → Said
  nobody : List ℕ → Said
  matches_found : ℕ → Said

unfoldable pub link_last : ℕ → Store → Heap → Run (Store × List Said)
link_last p s h = elim s.tail [
  | none ↦ ok (record { heap = h; head = some p; tail = some p }, added ∷ [])
  | some t ↦ set_next t (some p) h >>= λ h'.
      ok (record { heap = h'; head = s.head; tail = some p }, added ∷ [])
]

-- `address` is what `malloc` returns.
unfoldable pub add_abonent :
    Option ℕ → (name second_name tel : List ℕ) → Store → Run (Store × List Said)
add_abonent none name second_name tel s = ok (s, no_memory ∷ [])
add_abonent (some p) name second_name tel s = elim (scan_abonent name second_name tel) [
  | none ↦ fault
  | some a ↦
      let node : Node = record { abonent = a; next = none; prev = s.tail } in
      link_last p s (write p (some node) s.heap)
]

-- The loop of `print_book`, from a node with an index.
unfoldable pub print_from : (fuel : ℕ) → Heap → Option ℕ → ℕ → Run (List Said)
print_from f h none i = ok []
print_from zero h (some p) i = out_of_fuel
print_from (suc f) h (some p) i =
    load p h >>= λ n. print_from f h n.next (suc i) >>= λ lines. ok (entry i n.abonent ∷ lines)

unfoldable pub print_book : ℕ → Store → Run (Store × List Said)
print_book fuel s = elim s.head [
  | none ↦ ok (s, book_empty ∷ [])
  | some p ↦ print_from fuel s.heap (some p) 0 >>= λ lines. ok (s, list_header ∷ lines)
]

-- The loop of `search_abonent`: the lines, and what it adds to `found`.
unfoldable pub search_from : (fuel : ℕ) → List ℕ → Heap → Option ℕ → ℕ → Run (List Said × ℕ)
search_from f name h none i = ok ([], 0)
search_from zero name h (some p) i = out_of_fuel
search_from (suc f) name h (some p) i = load p h >>= λ n.
    search_from f name h n.next (suc i) >>= λ r.
    ok (if same_bytes n.abonent.name name then (entry i n.abonent ∷ r.0, r.1 + 1) else r)

unfoldable pub search_abonent : ℕ → List ℕ → Store → Run (Store × List Said)
search_abonent fuel word s = elim s.head [
  | none ↦ ok (s, book_empty ∷ [])
  | some p ↦ elim (scan_field word) [
    | none ↦ fault
    | some name ↦ search_from fuel name s.heap (some p) 0 >>= λ r.
        ok (s, r.0 ++ ((if r.1 == 0 then nobody name else matches_found r.1) ∷ []))
  ]
]

-- The loop of `remove_abonent`, from a node with an index, to the node with the number.
unfoldable pub find : (fuel : ℕ) → Heap → Option ℕ → (index number : ℕ) → Run (Option ℕ)
find f h none i n = ok none
find zero h (some p) i n = if ltb i n then out_of_fuel else ok (some p)
find (suc f) h (some p) i n =
    let further = load p h >>= λ node. find f h node.next (suc i) n in
    if ltb i n then further else ok (some p)

-- How far the loop goes: at a negative number not at all.
abbrev pub bound : ℤ → ℕ
bound (pos n) = n
bound (negsuc n) = 0

-- `current` out of the list: the node before it, or `head`, and the heap.
unfoldable pub unlink_prev : ℕ → Store → Run Store
unlink_prev p s = load p s.heap >>= λ n. elim n.prev [
  | none ↦ ok (record s { head = n.next })
  | some q ↦ set_next q n.next s.heap >>= λ h. ok (record s { heap = h })
]

-- The node behind it, or `tail`.
unfoldable pub unlink_next : ℕ → Store → Run Store
unlink_next p s = load p s.heap >>= λ n. elim n.next [
  | none ↦ ok (record s { tail = n.prev })
  | some q ↦ set_prev q n.prev s.heap >>= λ h. ok (record s { heap = h })
]

unfoldable pub unlink : ℕ → Store → Run Store
unlink p s = unlink_prev p s >>= λ s'.
    unlink_next p s' >>= λ s''. free p s''.heap >>= λ h. ok (record s'' { heap = h })

unfoldable pub remove_abonent : ℕ → ℤ → Store → Run (Store × List Said)
remove_abonent fuel number s = elim s.head [
  | none ↦ ok (s, book_empty ∷ [])
  | some p ↦ find fuel s.heap (some p) 0 (bound number) >>= λ current. elim current [
    | none ↦ ok (s, not_found ∷ [])
    | some c ↦ unlink c s >>= λ s'. ok (s', removed ∷ [])
  ]
]

-- The loop of `free_all`.
unfoldable pub free_from : (fuel : ℕ) → Heap → Option ℕ → Run Heap
free_from f h none = ok h
free_from zero h (some p) = out_of_fuel
free_from (suc f) h (some p) = load p h >>= λ n. free p h >>= λ h'. free_from f h' n.next

unfoldable pub free_all : ℕ → Store → Run Store
free_all fuel s =
    free_from fuel s.heap s.head >>= λ h. ok (record { heap = h; head = none; tail = none })

-- A choice of the menu with what the user types next.
pub data Choice : Type 0 where
  add : (name second_name tel : List ℕ) → Choice
  remove : ℤ → Choice
  search : List ℕ → Choice
  print_all leave other : Choice

abbrev pub goes_on : Choice → Bool
goes_on leave = false
goes_on _ = true

-- The `switch` of `main`.
unfoldable pub handle_choice : (Heap → Option ℕ) → ℕ → Choice → Store → Run (Store × List Said)
handle_choice malloc fuel (add name second_name tel) s =
    add_abonent (malloc s.heap) name second_name tel s
handle_choice malloc fuel (remove number) s = remove_abonent fuel number s
handle_choice malloc fuel (search name) s = search_abonent fuel name s
handle_choice malloc fuel print_all s = print_book fuel s
handle_choice malloc fuel leave s = free_all fuel s >>= λ s'. ok (s', bye ∷ [])
handle_choice malloc fuel other s = ok (s, bad_choice ∷ [])

-- The loop of `main`, for the choices that are made; it ends behind the choice to leave.
unfoldable pub session : (Heap → Option ℕ) → ℕ → List Choice → Store → Run (Store × List Said)
session malloc fuel [] s = ok (s, [])
session malloc fuel (c ∷ cs) s = handle_choice malloc fuel c s >>= λ r.
    if goes_on c then (session malloc fuel cs r.0 >>= λ r'. ok (r'.0, r.1 ++ r'.1)) else ok r
