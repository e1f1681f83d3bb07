-- ===== src/SharedMemory/Chat/Views.antt =====
-- What a client of the chat shows, under any interleaving of the clients.
use eltex_systems.Base.{
  ℕ, zero, suc, ◌+◌, ◌≤◌, ◌<◌, ◌≡◌, refl, ap, sym, ◌∙◌, true, List, [], ◌∷◌, ◌++◌, some, arith, ltb,
  leb, length, get_elem?, take, Bool-cases, inl, inr,
}
use eltex_systems.SharedMemory.Chat.{
  max_messages, ChatMessage, Drawn, cleared, line, user, Viewer, add_message_line, show_from,
  draw_names,
}

-- The messages among what was drawn.
unfoldable pub shown : List Drawn → List ChatMessage
shown [] = []
shown (cleared ∷ ds) = shown ds
shown (line row m ∷ ds) = m ∷ shown ds
shown (user row name ∷ ds) = shown ds

pub shown-append : (a b : List Drawn) → shown (a ++ b) ≡ shown a ++ shown b
unfolding shown
shown-append [] b = refl
shown-append (cleared ∷ a) b = shown-append a b
shown-append (line row m ∷ a) b = ap (λ r. m ∷ r) (shown-append a b)
shown-append (user row name ∷ a) b = shown-append a b

pub shown-draw_names : (i : ℕ) (names : List (List ℕ)) → shown (draw_names i names) ≡ []
unfolding shown draw_names
shown-draw_names i [] = refl
shown-draw_names i (name ∷ names) = ground (arith, shown-draw_names (i + 1) names)

-- The viewer has shown the first `last_seen` messages, each once, in their order.
pub record IsAt (messages : List ChatMessage) (v : Viewer) : Type 0 where
  pub bound : v.last_seen ≤ length messages
  pub texts : shown v.drawn ≡ take v.last_seen messages

take-next :
    {A : Type 0} (n : ℕ) (xs : List A) (x : A)
    → get_elem? xs n ≡ some x
    → take (suc n) xs ≡ take n xs ++ (x ∷ [])
take-next n [] x h = absurd (cc)
take-next zero (y ∷ ys) x h = ground arith
take-next (suc n) (y ∷ ys) x h = ap (λ r. y ∷ r) (take-next n ys x h)

pub take-front :
    {A : Type 0} (n : ℕ) (xs ys : List A) → n ≤ length xs → take n (xs ++ ys) ≡ take n xs
take-front zero xs ys h = refl
take-front (suc n) [] ys h = absurd (omega arith)
take-front (suc n) (x ∷ xs) ys h = ap (λ r. x ∷ r) (take-front n xs ys (omega arith))

some-get_elem? :
    {A : Type 0} (xs : List A) (n : ℕ) → n < length xs → (x : A) × (get_elem? xs n ≡ some x)
some-get_elem? [] n h = absurd (omega arith)
some-get_elem? (x ∷ xs) zero h = (x, refl)
some-get_elem? (x ∷ xs) (suc n) h = some-get_elem? xs n (omega arith)

add_message_line-shown :
    (rows : ℕ) (m : ChatMessage) (v : Viewer)
    → (shown (add_message_line rows m v).drawn ≡ shown v.drawn ++ (m ∷ []))
      × ((add_message_line rows m v).last_seen ≡ suc v.last_seen)
unfolding add_message_line
add_message_line-shown rows m v = elim (Bool-cases (leb rows (v.msg_row + 2))) [
  | inl full ↦ simp full (shown-append v.drawn _ ∙ (unfold shown in refl), omega arith)
  | inr room ↦ simp room (shown-append v.drawn _ ∙ (unfold shown in refl), omega arith)
]

add_message_line-IsAt :
    (rows : ℕ) (messages : List ChatMessage) (m : ChatMessage) (v : Viewer)
    → IsAt messages v
    → v.last_seen < length messages
    → get_elem? messages v.last_seen ≡ some m
    → IsAt messages (add_message_line rows m v)
add_message_line-IsAt rows messages m v at more e =
    let (texts, seen) = add_message_line-shown rows m v in
    record {
      bound = omega (arith, seen);
      texts =
          texts
          ∙ ap (λ r. r ++ (m ∷ [])) at.texts
          ∙ sym (take-next v.last_seen messages m e)
          ∙ ap (λ n. take n messages) (sym seen);
    }

-- With fuel for the messages that are left, the loop reads inside the array, and shows them all.
pub show_from-IsAt :
    (f rows : ℕ) (messages : List ChatMessage) (v : Viewer)
    → length messages ≤ max_messages
    → IsAt messages v
    → length messages < f + v.last_seen
    → (v' : Viewer) × (show_from f rows messages v ≡ some v')
      × IsAt messages v'
      × (v'.last_seen ≡ length messages)
unfolding show_from
show_from-IsAt zero rows messages v few at fuel = absurd (omega (arith, at.bound))
show_from-IsAt (suc f) rows messages v few at fuel =
    elim (Bool-cases (ltb v.last_seen (length messages))) [
      | inl more ↦
          let below : v.last_seen < length messages = ground arith in
          let in_array : ltb v.last_seen max_messages ≡ true = ground arith in
          let (m, e) = some-get_elem? messages v.last_seen below in
          let (v', run, at', all_seen) =
            show_from-IsAt f rows messages (add_message_line rows m v) few
              (add_message_line-IsAt rows messages m v at below e)
              (omega (arith, (add_message_line-shown rows m v).1)) in
          (v', rw (show_from, more, in_array, e, run) refl, at', all_seen)
      | inr nothing ↦ (v, rw (show_from, nothing) refl, at, ground (arith, at.bound))
    ]
