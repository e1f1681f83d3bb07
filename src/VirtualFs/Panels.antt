-- ===== src/VirtualFs/Panels.antt =====
-- The panels of the file manager stay whole, as long as the directories open.
use eltex_systems.Base.{
  ℕ, zero, suc, ◌-◌, ◌<◌, ◌≡◌, ◌≢◌, ◌⊎◌, Bool, true, false, List, [], ◌∷◌, none, some, arith,
  if◌then◌else◌, length, get_elem?, All, Bool-cases, inl, inr,
}
use eltex_systems.Base.Text.{codes, same_bytes}
use eltex_systems.VirtualFs.{
  Entry, Panel, FileSystem, load_dir, Line, draw_from, draw_panel, join_path, reload, enter, Key,
  new_line, press, Manager, turned, handle, draw, free_both, quits, run,
}
use eltex_systems.VirtualFs.Keys.{IsPanel, free_files_ok, draw_from_ok, entry_at, press-IsPanel}

pub record IsManager (m : Manager) : Type 0 where
  pub left : IsPanel m.left
  pub right : IsPanel m.right

-- All the names of the panel have been freed.
abbrev pub Freed : Panel → Type 0
Freed p = All (λ e. e.freed ≡ true) p.files

draw_ok :
    (h : ℕ) (m : Manager) → IsManager m → (lines : List Line × List Line) × (draw h m ≡ some lines)
unfolding draw draw_panel
draw_ok h m v =
    let (l, left) =
      draw_from_ok (h - 2) 0 m.left.files m.left.selected (if m.active then false else true)
        v.left.whole in
    let (r, right) = draw_from_ok (h - 2) 0 m.right.files m.right.selected m.active v.right.whole in
    ((l, r), simp (draw, draw_panel, left, right))

free_both-Freed :
    (m : Manager)
    → IsManager m
    → (m' : Manager) × (free_both m ≡ some m') × Freed m'.left × Freed m'.right
unfolding free_both
free_both-Freed m v =
    let (l, left, all_left, len_left) = free_files_ok m.left.files v.left.whole in
    let (r, right, all_right, len_right) = free_files_ok m.right.files v.right.whole in
    (
      record {
        left = record m.left { files = l };
        right = record m.right { files = r };
        active = m.active;
      },
      simp (free_both, left, right),
      all_left,
      all_right,
    )

module _ (fs : FileSystem) (opens : (path : List ℕ) → fs.opendir path ≢ none) where
  handle-IsManager :
      (k : Key) (m : Manager)
      → IsManager m
      → (m' : Manager) × (handle fs k m ≡ some m') × IsManager m'
  unfolding handle
  handle-IsManager k m v =
      let (l, left, vl) = press-IsPanel fs opens k m.left v.left in
      let (r, right, vr) = press-IsPanel fs opens k m.right v.right in
      elim (Bool-cases m.active) [
        | inl on_right ↦ (
          record { left = m.left; right = r; active = turned k true },
          simp (on_right, right),
          record { left = v.left; right = vr },
        )
        | inr on_left ↦ (
          record { left = l; right = m.right; active = turned k false },
          simp (on_left, left),
          record { left = vl; right = v.right },
        )
      ]

-- What has become of a manager: it goes on with whole panels, or it has ended and freed every name.
abbrev pub Stands : Manager → Type 0
Stands m = IsManager m ⊎ (Freed m.left × Freed m.right)

-- As long as every directory opens, the file manager runs for any keys, on a screen of any height,
-- without touching a freed name, freeing one twice, or reading behind the entries, whatever text
-- `realpath` leaves when it writes over its own argument. Its panels stay whole:
-- at most 1024 entries, and the selected one is among them; or it has ended, with every name
-- of both panels freed.
pub run-Stands :
    (fs : FileSystem) (h : ℕ) (ks : List Key) (m : Manager)
    → ((path : List ℕ) → fs.opendir path ≢ none)
    → IsManager m
    → (m' : Manager) × (run fs h ks m ≡ some m') × Stands m'
unfolding run
run-Stands fs h [] m opens v = let (lines, drawn) = draw_ok h m v in (m, simp (run, drawn), inl v)
run-Stands fs h (k ∷ ks) m opens v =
    let (lines, drawn) = draw_ok h m v in
    elim (Bool-cases (quits k)) [
      | inl stop ↦
          let (m', freed, left, right) = free_both-Freed m v in
          (m', simp (run, drawn, stop, freed), inr (left, right))
      | inr on ↦
          let (m1, handled, v1) = handle-IsManager fs opens k m v in
          let (m2, ran, v2) = run-Stands fs h ks m1 opens v1 in
          (m2, simp (run, drawn, on, handled, ran), v2)
    ]

draw_freed :
    (n i : ℕ) (es : List Entry) (selected : ℕ) (active : Bool)
    → 0 < n
    → 0 < length es
    → All (λ e. e.freed ≡ true) es
    → draw_from n i es selected active ≡ none
unfolding draw_from
draw_freed zero i es selected active rows there freed = absurd (omega arith)
draw_freed (suc n) i [] selected active rows there freed = absurd (omega arith)
draw_freed (suc n) i (e ∷ es) selected active rows there freed = simp freed.0

-- Where a directory does not open: the key for a new line frees the names of the panel and leaves
-- them in it, so that the next drawing, on a screen of three rows or more, reads a freed name.
pub enter_unreadable :
    (fs : FileSystem) (h : ℕ) (p : Panel) (e : Entry)
    → IsPanel p
    → get_elem? p.files p.selected ≡ some e
    → same_bytes e.file (codes "..") ≡ false
    → e.is_dir ≡ true
    → fs.opendir (join_path p.path e.file) ≡ none
    → 2 < h
    → (p' : Panel) × (press fs new_line p ≡ some p')
      × Freed p'
      × ((active : Bool) → draw_panel h p' active ≡ none)
unfolding press enter reload load_dir draw_panel
enter_unreadable fs h p e v at name dir closed rows =
    let (here, at', whole) = entry_at p.files p.selected v.chosen v.whole in
    let live : e.freed ≡ false = let same : here ≡ e = cc in rw (← same) whole in
    let (es, freed, all, len) = free_files_ok p.files v.whole in
    (
      record p { files = es },
      simp (enter, reload, load_dir, at, live, name, dir, freed, closed),
      all,
      λ active.
          draw_freed (h - 2) 0 es p.selected active (omega arith) (omega (arith, len, v.chosen))
            all,
    )
