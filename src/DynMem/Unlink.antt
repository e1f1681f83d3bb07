-- ===== src/DynMem/Unlink.antt =====
-- A node taken out of the list, and the freeing of the whole list.
use eltex_systems.Base.{
  ℕ, ◌≤◌, ◌≡◌, refl, sym, ◌∙◌, [], ◌∷◌, ◌++◌, none, some, arith, length, Bool-cases, inl, inr,
}
use eltex_systems.PhoneBook.{Abonent}
use eltex_systems.DynMem.{Store, ok, write, unlink, free_all}
use eltex_systems.DynMem.Layout.{
  Cells, has, last, IsBook, first-append, last-append, layout_outside, distinct-middle,
}
use eltex_systems.DynMem.Walk.{Chain, layout-Chain, free_ok, free_from-frees}
use eltex_systems.DynMem.Change.{apart_from, append_in, append_out}
use eltex_systems.DynMem.Skips.{
  own, own_at, out_front, out_back, unlink_prev-Skips, unlink_next-Joins,
}

-- `unlink` and `free` of the node of an entry: the list without the entry, and the memory of the
-- node, of no other, is given back.
pub unlink-IsBook :
    (s : Store) (front back : Cells) (a : ℕ) (x : Abonent)
    → IsBook s (front ++ ((a, x) ∷ back))
    → (s' : Store) × (unlink a s ≡ ok s') × IsBook s' (front ++ back)
unfolding unlink
unlink-IsBook s front back a x book =
    let (s1, run1, skips) = unlink_prev-Skips s front back a x book in
    let (s2, run2, joins) = unlink_next-Joins s front back a x book s1 skips in
    let out = out_front s front back a x book in
    let at =
      joins.elsewhere a out (out_back s front back a x book) ∙ own_at s front back a x book in
    let parts = distinct-middle front a x back book.apart in
    (
      record s2 { heap = write a none s2.heap },
      rw (unlink, run1, run2, free_ok a (own s front back a x book) s2.heap at) refl,
      record {
        holds = λ b. elim (Bool-cases (has b front)) [
          | inl i ↦
              unfold write in
              rw (apart_from a b front out i) (joins.in_front b i ∙ sym (append_in front back b i))
          | inr i ↦ elim (Bool-cases (has b back)) [
            | inl j ↦
                unfold write in
                rw (apart_from a b back (out_back s front back a x book) j)
                  (joins.in_back b j ∙ sym (append_out front back b i))
            | inr j ↦
                let gone =
                  append_out front back b i ∙ layout_outside (last none front) back none b j in
                let old =
                  joins.elsewhere b i j ∙ book.holds b ∙ append_out front ((a, x) ∷ back) b i in
                let behind = layout_outside (some a) back none b j in unfold write in ground arith
          ]
        ];
        head = joins.head ∙ sym (first-append front back none);
        tail = joins.tail ∙ sym (last-append none front back);
        apart = parts.4;
      },
    )

-- `free_all`: nothing of the list stays allocated.
pub free_all-IsBook :
    (fuel : ℕ) (s : Store) (cs : Cells)
    → length cs ≤ fuel
    → IsBook s cs
    → (s' : Store) × (free_all fuel s ≡ ok s') × IsBook s' []
unfolding free_all
free_all-IsBook fuel s cs enough book =
    let chain : Chain s.heap s.head cs =
      rw book.head (layout-Chain s.heap [] cs book.holds book.apart) in
    let (h, run, frees) = free_from-frees fuel s.heap s.head cs enough book.apart chain in
    (
      record { heap = h; head = none; tail = none },
      rw (free_all, run) refl,
      record {
        holds = λ b.
            let none_left = layout_outside none cs none b in
            let old = book.holds b in frees b ∙ ground arith;
        head = refl;
        tail = refl;
        apart = refl;
      },
    )
