-- ===== src/VirtualFs/Keys.antt =====
-- What the keys do to a whole panel of the file manager.
use eltex_systems.Base.{
  ℕ, zero, suc, ◌+◌, ◌-◌, ◌≤◌, ◌<◌, ◌≡◌, ◌≢◌, refl, ap, Bool, true, false, ◌&&◌, ◌||◌, List, [],
  ◌∷◌, ◌++◌, Option, none, some, arith, ltb, ◌==◌, if◌then◌else◌, length, get_elem?, All,
  Bool-cases, inl, inr,
}
use eltex_systems.Base.Text.{codes, same_bytes}
use eltex_systems.VirtualFs.{
  max_files, Entry, Panel, FileSystem, load_items, load_dir, free_files, Line, draw_from,
  parent_path, join_path, reload, enter, Key, quit, tab, up, down, new_line, other, press, run,
}

abbrev Whole : List Entry → Type 0
Whole es = All (λ e. e.freed ≡ false) es

pub record IsPanel (p : Panel) : Type 0 where
  pub bound : length p.files ≤ max_files
  pub chosen : p.selected < length p.files
  pub whole : Whole p.files

load_items-Whole :
    (fs : FileSystem) (path : List ℕ) (names : List (List ℕ)) (n : ℕ)
    → n ≤ max_files
    → Whole (load_items fs path names n) × (length (load_items fs path names n) + n ≤ max_files)
unfolding load_items
load_items-Whole fs path [] n h = (tt, omega arith)
load_items-Whole fs path (name ∷ names) n h = elim (Bool-cases (ltb n max_files)) [
  | inr full ↦ rw full (tt, omega arith)
  | inl room ↦ elim (Bool-cases (same_bytes name (codes ".") || same_bytes name (codes ".."))) [
    | inl dots ↦ rw (room, dots) (load_items-Whole fs path names n h)
    | inr listed ↦
        let (w, b) = load_items-Whole fs path names (suc n) (ground arith) in
        rw (room, listed) ((refl, w), omega (arith, b))
  ]
]

load_dir-IsPanel :
    (fs : FileSystem) (same : Bool) (path : List ℕ) (p : Panel)
    → fs.opendir path ≢ none
    → IsPanel (load_dir fs same path p)
unfolding load_dir
load_dir-IsPanel fs same path p opens = by_names (fs.opendir path) refl
  where
    by_names :
        (names : Option (List (List ℕ)))
        → fs.opendir path ≡ names
        → IsPanel (load_dir fs same path p)
    by_names none e = absurd (opens e)
    by_names (some names) e =
        let base = if same then fs.realpath_over path else path in
        let (w, b) = load_items-Whole fs base names 1 (omega arith) in
        rw (load_dir, e)
          (record { bound = omega (arith, b); chosen = omega arith; whole = (refl, w) })

pub free_files_ok :
    (es : List Entry)
    → Whole es
    → (es' : List Entry) × (free_files es ≡ some es')
      × All (λ e. e.freed ≡ true) es'
      × (length es' ≡ length es)
unfolding free_files
free_files_ok [] w = ([], refl, tt, refl)
free_files_ok (e ∷ es) w =
    let (es', run, all, len) = free_files_ok es w.1 in
    (record e { freed = true } ∷ es', simp (w.0, run), (refl, all), ap suc len)

pub draw_from_ok :
    (n i : ℕ) (es : List Entry) (selected : ℕ) (active : Bool)
    → Whole es
    → (lines : List Line) × (draw_from n i es selected active ≡ some lines)
unfolding draw_from
draw_from_ok zero i es selected active w = ([], refl)
draw_from_ok (suc n) i [] selected active w = ([], refl)
draw_from_ok (suc n) i (e ∷ es) selected active w =
    let (lines, run) = draw_from_ok n (suc i) es selected active w.1 in
    (
      record {
        row = i + 1;
        reverse = (i == selected) && active;
        bold = e.is_dir;
        text = if e.is_dir then e.file ++ codes "/" else e.file;
      }
          ∷ lines,
      simp (w.0, run),
    )

pub entry_at :
    (es : List Entry) (n : ℕ)
    → n < length es
    → Whole es
    → (e : Entry) × (get_elem? es n ≡ some e) × (e.freed ≡ false)
entry_at [] n h w = absurd (omega arith)
entry_at (e ∷ es) zero h w = (e, refl, w.0)
entry_at (e ∷ es) (suc n) h w = entry_at es n (omega arith) w.1

module _ (fs : FileSystem) (opens : (path : List ℕ) → fs.opendir path ≢ none) where
  reload-IsPanel :
      (same : Bool) (path : List ℕ) (p : Panel)
      → Whole p.files
      → (p' : Panel) × (reload fs same path p ≡ some p') × IsPanel p'
  unfolding reload
  reload-IsPanel same path p w =
      let (es, freed, all, len) = free_files_ok p.files w in
      (
        load_dir fs same path (record p { files = es }),
        simp (reload, freed),
        load_dir-IsPanel fs same path (record p { files = es }) (opens path),
      )

  enter-IsPanel : (p : Panel) → IsPanel p → (p' : Panel) × (enter fs p ≡ some p') × IsPanel p'
  unfolding enter
  enter-IsPanel p v =
      let (e, at, whole) = entry_at p.files p.selected v.chosen v.whole in
      elim (Bool-cases (same_bytes e.file (codes ".."))) [
        | inl above ↦
            let (p', run, v') =
              reload-IsPanel true (parent_path p.path) (record p { path = parent_path p.path })
                v.whole in
            (p', simp (enter, at, whole, above, run), v')
        | inr name ↦ elim (Bool-cases e.is_dir) [
          | inl dir ↦
              let (p', run, v') = reload-IsPanel false (join_path p.path e.file) p v.whole in
              (p', simp (enter, at, whole, name, dir, run), v')
          | inr plain ↦ (p, simp (enter, at, whole, name, plain), v)
        ]
      ]

  pub press-IsPanel :
      (k : Key) (p : Panel) → IsPanel p → (p' : Panel) × (press fs k p ≡ some p') × IsPanel p'
  unfolding press
  press-IsPanel quit p v = (p, refl, v)
  press-IsPanel tab p v = (p, refl, v)
  press-IsPanel other p v = (p, refl, v)
  press-IsPanel new_line p v = enter-IsPanel p v
  press-IsPanel up p v = elim (Bool-cases (ltb 0 p.selected)) [
    | inl lower ↦ (
      record p { selected = p.selected - 1 },
      simp lower,
      record { bound = v.bound; chosen = omega (arith, v.chosen); whole = v.whole },
    )
    | inr top ↦ (p, simp top, v)
  ]
  press-IsPanel down p v = elim (Bool-cases (ltb p.selected (length p.files - 1))) [
    | inl higher ↦ (
      record p { selected = p.selected + 1 },
      simp higher,
      record { bound = v.bound; chosen = ground arith; whole = v.whole },
    )
    | inr bottom ↦ (p, simp bottom, v)
  ]
