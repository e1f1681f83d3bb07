-- ===== src/VirtualFs/Listing.antt =====
-- What a panel lists of a directory.
use eltex_systems.Base.{
  ℕ, zero, suc, ◌-◌, ◌≤◌, ◌≡◌, refl, ap, true, false, ◌||◌, List, [], ◌∷◌, some, arith, ltb,
  if◌then◌else◌, map, take, get_elem?, Bool-cases, inl, inr,
}
use eltex_systems.Base.Text.{codes, same_bytes}
use eltex_systems.VirtualFs.{
  max_files, Entry, Panel, FileSystem, parent_entry, load_items, load_dir, join_path, reload, enter,
  new_line, press,
}
use eltex_systems.VirtualFs.Keys.{IsPanel, free_files_ok, entry_at}

-- The names that are neither `.` nor `..`, in their order.
abbrev pub visible : List (List ℕ) → List (List ℕ)
visible [] = []
visible (name ∷ names) =
    if same_bytes name (codes ".") || same_bytes name (codes "..")
    then visible names
    else name ∷ visible names

abbrev pub entry_of : FileSystem → (path : List ℕ) → List ℕ → Entry
entry_of fs path name = record {
  file = name;
  is_dir = fs.is_directory (join_path path name);
  freed = false;
}

take-nil : (n : ℕ) → take {A = List ℕ} n [] ≡ []
take-nil zero = refl
take-nil (suc n) = refl

load_items-visible :
    (fs : FileSystem) (path : List ℕ) (names : List (List ℕ)) (n : ℕ)
    → n ≤ max_files
    → load_items fs path names n ≡ map (entry_of fs path) (take (max_files - n) (visible names))
unfolding load_items
load_items-visible fs path [] n h = rw (take-nil (max_files - n)) refl
load_items-visible fs path (name ∷ names) n h = elim (Bool-cases (ltb n max_files)) [
  | inr full ↦
      let none_left : max_files - n ≡ 0 = ground arith in rw (load_items, full, none_left) refl
  | inl room ↦ elim (Bool-cases (same_bytes name (codes ".") || same_bytes name (codes ".."))) [
    | inl dots ↦ rw (load_items, room, dots) (load_items-visible fs path names n h)
    | inr seen ↦
        let one_more : max_files - n ≡ suc (max_files - suc n) = ground arith in
        rw (load_items, room, seen, one_more)
          (ap (λ es. entry_of fs path name ∷ es)
            (load_items-visible fs path names (suc n) (ground arith)))
  ]
]

-- The key for a new line on a directory other than `..` that opens: the panel shows `..` and then
-- the first 1023 of its names that are neither `.` nor `..`, in the order of `readdir`, each
-- marked as `stat` says of its full path; the first entry is selected, and the path is the one
-- that `realpath` gives.
pub enter-visible :
    (fs : FileSystem) (p : Panel) (e : Entry) (names : List (List ℕ))
    → IsPanel p
    → get_elem? p.files p.selected ≡ some e
    → same_bytes e.file (codes "..") ≡ false
    → e.is_dir ≡ true
    → fs.opendir (join_path p.path e.file) ≡ some names
    → press fs new_line p
      ≡ some (record {
        files =
            parent_entry ∷ map (entry_of fs (join_path p.path e.file)) (take 1023 (visible names));
        selected = 0;
        path = fs.realpath (join_path p.path e.file);
      })
unfolding press enter reload load_dir
enter-visible fs p e names v at name dir opens =
    let (here, at', whole) = entry_at p.files p.selected v.chosen v.whole in
    let live : e.freed ≡ false = let same : here ≡ e = cc in rw (← same) whole in
    let (es, freed, all, len) = free_files_ok p.files v.whole in
    let shown = load_items-visible fs (join_path p.path e.file) names 1 (omega arith) in
    simp (enter, reload, load_dir, at, live, name, dir, freed, opens, shown)
