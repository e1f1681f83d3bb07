-- ===== src/VirtualFs.antt =====
-- `virtual_fs/nedomc.c`: the file manager with two panels. An entry of a panel remembers whether the
-- memory of its name was freed; what the file system and the size of the screen are is given.
pub mod Keys
pub mod Panels
pub mod Listing
use eltex_systems.Base.{
  ℕ, zero, suc, ◌+◌, ◌-◌, Bool, true, false, ◌&&◌, ◌||◌, List, [], ◌∷◌, ◌++◌, Option, none, some,
  ltb, ◌==◌, if◌then◌else◌, length, take, get_elem?,
}
use eltex_systems.Base.Text.{codes, same_bytes}

abbrev pub max_files : ℕ
max_files = 1024

pub record Entry : Type 0 where
  pub file : List ℕ
  pub is_dir : Bool
  pub freed : Bool

-- `Panel`, with the entries below `count`.
pub record Panel : Type 0 where
  pub files : List Entry
  pub selected : ℕ
  pub path : List ℕ

-- The names that `opendir` and `readdir` give for a path, none when the directory does not open;
-- whether `stat` says that a path is a directory; what `realpath` leaves in its second argument;
-- and what it leaves there when that is the first argument too. The documentation gives the last
-- one no meaning: it is any text.
pub record FileSystem : Type 0 where
  pub opendir : List ℕ → Option (List (List ℕ))
  pub is_directory : List ℕ → Bool
  pub realpath : List ℕ → List ℕ
  pub realpath_over : List ℕ → List ℕ

abbrev pub parent_entry : Entry
parent_entry = record { file = codes ".."; is_dir = true; freed = false }

-- `snprintf` of a path and a name into the 4096 bytes of `fullpath` or `newpath`.
abbrev pub join_path : List ℕ → List ℕ → List ℕ
join_path path name = take 4095 (path ++ (b'/' ∷ name))

-- The loop of `load_dir`, with `path` and `count`.
unfoldable pub load_items : FileSystem → (path : List ℕ) → List (List ℕ) → (count : ℕ) → List Entry
load_items fs path [] n = []
load_items fs path (name ∷ names) n =
    let same = load_items fs path names n in
    let more = load_items fs path names (suc n) in
    if ltb n max_files
    then (if same_bytes name (codes ".") || same_bytes name (codes "..")
        then same
        else record { file = name; is_dir = fs.is_directory (join_path path name); freed = false }
          ∷ more)
    else []

-- `same` says that `path` is `p->path`, which `realpath` then writes over: the loop reads what it
-- left.
unfoldable pub load_dir : FileSystem → (same : Bool) → List ℕ → Panel → Panel
load_dir fs same path p = elim (fs.opendir path) [
  | none ↦ p
  | some names ↦
      let read_from = if same then fs.realpath_over path else path in
      record {
        files = parent_entry ∷ load_items fs read_from names 1;
        selected = 0;
        path = if same then fs.realpath_over path else fs.realpath path;
      }
]

-- `free_panel`; none is a name that is freed twice.
unfoldable pub free_files : List Entry → Option (List Entry)
free_files [] = some []
free_files (e ∷ es) =
    let rest = free_files es in
    if e.freed
    then none
    else elim rest [ none ↦ none | some es' ↦ some (record e { freed = true } ∷ es') ]

-- A line of a panel: where it is, whether it is highlighted and bold, and the text.
pub record Line : Type 0 where
  pub row : ℕ
  pub reverse : Bool
  pub bold : Bool
  pub text : List ℕ

-- The loop of `draw_panel` from `i`, for the rows that are left; none is the reading of a freed name.
unfoldable pub draw_from :
    (rows i : ℕ) → List Entry → (selected : ℕ) → (active : Bool) → Option (List Line)
draw_from zero i es selected active = some []
draw_from (suc n) i [] selected active = some []
draw_from (suc n) i (e ∷ es) selected active =
    let rest = draw_from n (suc i) es selected active in
    if e.freed then none else elim rest [
      | none ↦ none
      | some lines ↦ some (
          record {
            row = i + 1;
            reverse = (i == selected) && active;
            bold = e.is_dir;
            text = if e.is_dir then e.file ++ codes "/" else e.file;
          }
          ∷ lines)
    ]

-- Without the line with the path.
unfoldable pub draw_panel : (h : ℕ) → Panel → (active : Bool) → Option (List Line)
draw_panel h p active = draw_from (h - 2) 0 p.files p.selected active

-- The path up to the last `/` that is not at the front, or `/`.
unfoldable pub last_slash : List ℕ → Option ℕ
last_slash [] = none
last_slash (b ∷ bs) = elim (last_slash bs) [
  | some n ↦ some (suc n)
  | none ↦ if b == b'/' then some 0 else none
]

unfoldable pub parent_path : List ℕ → List ℕ
parent_path path = elim (last_slash path) [
  | none ↦ codes "/"
  | some n ↦ if n == 0 then codes "/" else take n path
]

-- The panel with its names freed, then the directory loaded into it.
unfoldable pub reload : FileSystem → (same : Bool) → List ℕ → Panel → Option Panel
reload fs same path p = elim (free_files p.files) [
  | none ↦ none
  | some es ↦ some (load_dir fs same path (record p { files = es }))
]

-- What the key for a new line does to the panel; none is an access to freed memory or behind the
-- entries. A file is shown by `less`, which leaves the panel alone.
unfoldable pub enter : FileSystem → Panel → Option Panel
enter fs p = elim (get_elem? p.files p.selected) [
  | none ↦ none
  | some e ↦
      if e.freed
      then none
      else if same_bytes e.file (codes "..")
      then reload fs true (parent_path p.path) (record p { path = parent_path p.path })
      else if e.is_dir
      then reload fs false (join_path p.path e.file) p
      else some p
]

pub data Key : Type 0 where
  quit tab up down new_line other : Key

-- What a key does to the active panel.
unfoldable pub press : FileSystem → Key → Panel → Option Panel
press fs up p = some (if ltb 0 p.selected then record p { selected = p.selected - 1 } else p)
press fs down p =
    some (if ltb p.selected (length p.files - 1) then record p { selected = p.selected + 1 } else p)
press fs new_line p = enter fs p
press fs quit p = some p
press fs tab p = some p
press fs other p = some p

pub record Manager : Type 0 where
  pub left : Panel
  pub right : Panel
  pub active : Bool

abbrev pub turned : Key → Bool → Bool
turned tab active = if active then false else true
turned _ active = active

-- A key that is not `q`, for the active panel.
unfoldable pub handle : FileSystem → Key → Manager → Option Manager
handle fs key m =
    if m.active
    then (elim (press fs key m.right) [
      | none ↦ none
      | some p ↦ some (record { left = m.left; right = p; active = turned key true })
    ])
    else elim (press fs key m.left) [
      | none ↦ none
      | some p ↦ some (record { left = p; right = m.right; active = turned key false })
    ]

-- The drawing of both panels on a screen of `h` rows.
unfoldable pub draw : (h : ℕ) → Manager → Option (List Line × List Line)
draw h m = elim (draw_panel h m.left (if m.active then false else true)) [
  | none ↦ none
  | some l ↦ elim (draw_panel h m.right m.active) [ none ↦ none | some r ↦ some (l, r) ]
]

-- The end of `main`.
unfoldable pub free_both : Manager → Option Manager
free_both m = elim (free_files m.left.files) [
  | none ↦ none
  | some l ↦ elim (free_files m.right.files) [
    | none ↦ none
    | some r ↦ some (record {
      left = record m.left { files = l };
      right = record m.right { files = r };
      active = m.active;
    })
  ]
]

abbrev pub quits : Key → Bool
quits quit = true
quits _ = false

-- The loop of `main` for some keys: in each round both panels are drawn and a key is read.
unfoldable pub run : FileSystem → (h : ℕ) → List Key → Manager → Option Manager
run fs h [] m = elim (draw h m) [ none ↦ none | some lines ↦ some m ]
run fs h (k ∷ ks) m = elim (draw h m) [
  | none ↦ none
  | some lines ↦
      if quits k
      then free_both m
      else elim (handle fs k m) [ none ↦ none | some m' ↦ run fs h ks m' ]
]
