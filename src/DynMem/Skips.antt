-- ===== src/DynMem/Skips.antt =====
-- The links around a node, set past it.
use eltex_systems.Base.{
  ℕ, ◌≡◌, refl, ◌∙◌, true, false, [], ◌∷◌, ◌++◌, none, some, arith, ◌==◌, if◌then◌else◌, Bool-cases,
  inl, inr, append_assoc,
}
use eltex_systems.PhoneBook.{Abonent}
use eltex_systems.DynMem.{
  Node, Heap, Store, ok, write, set_next, set_prev, unlink_prev, unlink_next,
}
use eltex_systems.DynMem.Layout.{
  Cells, has, first, last, layout, IsBook, last-append, distinct-middle, distinct-apart,
}
use eltex_systems.DynMem.Walk.{node_at, load_ok}
use eltex_systems.DynMem.Change.{
  last-cell, layout_inside, set_next_ok, set_prev_ok, write-relink, apart_from, sym_apart,
  append_in, append_out,
}

module _ (s : Store) (front back : Cells) (a : ℕ) (x : Abonent)
    (book : IsBook s (front ++ ((a, x) ∷ back))) where
  abbrev pub own : Node
  own = record { abonent = x; next = first back none; prev = last none front }

  -- The store without the link from the front.
  pub record Skips (s' : Store) : Type 0 where
    pub heap :
        (b : ℕ)
        → s'.heap b ≡ (if has b front then layout none front (first back none) b else s.heap b)
    pub head : s'.head ≡ first front (first back none)
    pub tail : s'.tail ≡ s.tail

  -- The store without the links from both sides.
  pub record Joins (s' : Store) : Type 0 where
    pub in_front : (b : ℕ) → has b front ≡ true → s'.heap b ≡ layout none front (first back none) b
    pub in_back : (b : ℕ) → has b back ≡ true → s'.heap b ≡ layout (last none front) back none b
    pub elsewhere : (b : ℕ) → has b front ≡ false → has b back ≡ false → s'.heap b ≡ s.heap b
    pub head : s'.head ≡ first front (first back none)
    pub tail : s'.tail ≡ last (last none front) back

  pub own_at : s.heap a ≡ some own
  own_at = node_at s.heap front back a x book.holds book.apart

  pub out_front : has a front ≡ false
  out_front = (distinct-middle front a x back book.apart).0

  pub out_back : has a back ≡ false
  out_back = (distinct-middle front a x back book.apart).1

load_prev :
    (s : Store) (a : ℕ) (n : Node)
    → s.heap a ≡ some n
    → n.prev ≡ none
    → unlink_prev a s ≡ ok (record s { head = n.next })
unfolding unlink_prev
load_prev s a n at e = rw (unlink_prev, load_ok a n s.heap at, e) refl

load_prev_some :
    (s : Store) (a q : ℕ) (n : Node) (h : Heap)
    → s.heap a ≡ some n
    → n.prev ≡ some q
    → set_next q n.next s.heap ≡ ok h
    → unlink_prev a s ≡ ok (record s { heap = h })
unfolding unlink_prev
load_prev_some s a q n h at e run = rw (unlink_prev, load_ok a n s.heap at, e, run) refl

load_next :
    (s : Store) (a : ℕ) (n : Node)
    → s.heap a ≡ some n
    → n.next ≡ none
    → unlink_next a s ≡ ok (record s { tail = n.prev })
unfolding unlink_next
load_next s a n at e = rw (unlink_next, load_ok a n s.heap at, e) refl

load_next_some :
    (s : Store) (a q : ℕ) (n : Node) (h : Heap)
    → s.heap a ≡ some n
    → n.next ≡ some q
    → set_prev q n.prev s.heap ≡ ok h
    → unlink_next a s ≡ ok (record s { heap = h })
unfolding unlink_next
load_next_some s a q n h at e run = rw (unlink_next, load_ok a n s.heap at, e, run) refl

pub unlink_prev-Skips :
    (s : Store) (front back : Cells) (a : ℕ) (x : Abonent)
    (book : IsBook s (front ++ ((a, x) ∷ back)))
    → (s' : Store) × (unlink_prev a s ≡ ok s') × Skips s front back a x book s'
unlink_prev-Skips s [] back a x book = (
  record s { head = first back none },
  load_prev s a (own s [] back a x book) (own_at s [] back a x book) refl,
  record { heap = λ b. refl; head = refl; tail = refl },
)
unlink_prev-Skips s ((c, y) ∷ r) back a x book =
    let front : Cells = (c, y) ∷ r in
    let next = first back none in
    let (t, e, i) = last-cell c y r in
    let (n, inside) = layout_inside none front (some a) t i in
    let at : s.heap t ≡ some n = book.holds t ∙ append_in front ((a, x) ∷ back) t i ∙ inside in
    let apart = (distinct-middle front a x back book.apart).2 in
    let h : Heap = write t (some (record n { next = next })) s.heap in
    (
      record s { heap = h },
      load_prev_some s a t (own s front back a x book) h (own_at s front back a x book) e
          (set_next_ok t next n s.heap at),
      record {
        heap = λ b. elim (Bool-cases (has b front)) [
          | inl is_in ↦ rw is_in (
              write-relink s.heap front (some a) next t n b apart e at
                (book.holds b ∙ append_in front ((a, x) ∷ back) b is_in))
          | inr is_out ↦
              let off = sym_apart t b front i is_out in rw is_out (unfold write in rw off refl)
        ];
        head = book.head;
        tail = refl;
      },
    )

pub unlink_next-Joins :
    (s : Store) (front back : Cells) (a : ℕ) (x : Abonent)
    (book : IsBook s (front ++ ((a, x) ∷ back))) (s' : Store)
    → Skips s front back a x book s'
    → (s'' : Store) × (unlink_next a s' ≡ ok s'') × Joins s front back a x book s''
unlink_next-Joins s front [] a x book s' skips =
    let out = out_front s front [] a x book in
    let at : s'.heap a ≡ some (own s front [] a x book) =
      skips.heap a ∙ rw out (own_at s front [] a x book) in
    (
      record s' { tail = last none front },
      load_next s' a (own s front [] a x book) at refl,
      record {
        in_front = λ b i. let e = skips.heap b in rw i at e;
        in_back = λ b i. absurd (cc);
        elsewhere = λ b i j. let e = skips.heap b in rw i at e;
        head = skips.head;
        tail = refl;
      },
    )
unlink_next-Joins s front ((c, y) ∷ r) a x book s' skips =
    let back : Cells = (c, y) ∷ r in
    let before = last none front in
    let out = out_front s front back a x book in
    let at : s'.heap a ≡ some (own s front back a x book) =
      skips.heap a ∙ rw out (own_at s front back a x book) in
    let shift = append_assoc front ((a, x) ∷ []) back in
    let out_c : has c front ≡ false =
      distinct-apart front ((a, x) ∷ back) c book.apart (ground arith) in
    let out_a : (c == a) ≡ false =
      sym_apart c a back (ground arith) (out_back s front back a x book) in
    let node_c : Node = record { abonent = y; next = first r none; prev = some a } in
    let at_c : s'.heap c ≡ some node_c =
      skips.heap c
      ∙ rw out_c (book.holds c ∙ append_out front ((a, x) ∷ back) c out_c ∙ ground arith) in
    let h : Heap = write c (some (record node_c { prev = before })) s'.heap in
    (
      record s' { heap = h },
      load_next_some s' a c (own s front back a x book) h at refl
          (set_prev_ok c before node_c s'.heap at_c),
      record {
        in_front = λ b i.
            let off = apart_from c b front out_c i in
            let e = skips.heap b in unfold write in rw off (rw i at e);
        in_back = λ b i. elim (Bool-cases (c == b)) [
          | inl here ↦ unfold write in rw here refl
          | inr off ↦
              let out_b : has b front ≡ false =
                distinct-apart front ((a, x) ∷ back) b book.apart (ground arith) in
              let off_a : (a == b) ≡ false =
                apart_from a b back (out_back s front back a x book) i in
              let e = skips.heap b in
              let old : s.heap b ≡ layout before back none b =
                book.holds b ∙ append_out front ((a, x) ∷ back) b out_b ∙ rw off_a (rw off refl) in
              unfold write in rw off (rw out_b at e ∙ old ∙ rw off refl)
        ];
        elsewhere = λ b i j. let e = skips.heap b in unfold write in ground arith;
        head = skips.head;
        tail = skips.tail ∙ book.tail ∙ last-append none front ((a, x) ∷ back);
      },
    )
