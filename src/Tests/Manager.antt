-- ===== src/Tests/Manager.antt =====
-- The file manager on a small file system.
use eltex_systems.Base.{
  ℕ, ◌≡◌, ◌≢◌, refl, Bool, true, false, List, [], ◌∷◌, none, some, arith, if◌then◌else◌, map, take,
}
use eltex_systems.Base.Text.{codes, same_bytes}
use eltex_systems.VirtualFs.{
  Entry, Panel, FileSystem, parent_entry, draw_panel, Key, quit, tab, up, down, new_line, press,
  Manager, run,
}
use eltex_systems.VirtualFs.Keys.{IsPanel}
use eltex_systems.VirtualFs.Listing.{entry_of, visible, enter-visible}
use eltex_systems.VirtualFs.Panels.{Freed, Stands, run-Stands, enter_unreadable}

abbrev home_names : List (List ℕ)
home_names = codes "." ∷ codes "docs" ∷ codes "notes" ∷ []

-- Here the path that is written over is cut to its first character.
abbrev open_system : FileSystem
open_system = record {
  opendir = λ path. if same_bytes path (codes "/home") then some home_names else some [];
  is_directory = λ path. same_bytes path (codes "/home/docs");
  realpath = λ path. path;
  realpath_over = λ path. codes "/";
}

open_system_opens : (path : List ℕ) → open_system.opendir path ≢ none
open_system_opens path = λ e. ground arith

abbrev closed_system : FileSystem
closed_system = record {
  opendir = λ path. none;
  is_directory = λ path. false;
  realpath = λ path. path;
  realpath_over = λ path. path;
}

-- Each directory has the same names.
abbrev full_system : FileSystem
full_system = record {
  opendir = λ path. some home_names;
  is_directory = λ path. false;
  realpath = λ path. path;
  realpath_over = λ path. path;
}

abbrev docs : Entry
docs = record { file = codes "docs"; is_dir = true; freed = false }

abbrev notes : Entry
notes = record { file = codes "notes"; is_dir = false; freed = false }

abbrev top : Entry
top = record { file = codes ".."; is_dir = true; freed = false }

abbrev home : Panel
home = record { files = top ∷ docs ∷ notes ∷ []; selected = 1; path = codes "/home" }

home-IsPanel : IsPanel home
home-IsPanel = record {
  bound = omega arith;
  chosen = omega arith;
  whole = (refl, (refl, (refl, tt)));
}

abbrev manager : Manager
manager = record { left = home; right = home; active = false }

abbrev keys : List Key
keys = new_line ∷ tab ∷ down ∷ up ∷ new_line ∷ quit ∷ []

run-Stands_example : (m' : Manager) × (run open_system 24 keys manager ≡ some m') × Stands m'
run-Stands_example =
    run-Stands open_system 24 keys manager open_system_opens
      (record { left = home-IsPanel; right = home-IsPanel })

docs_name : same_bytes (codes "docs") (codes "..") ≡ false
unfolding same_bytes
docs_name = refl

enter_unreadable_example :
    (p' : Panel) × (press closed_system new_line home ≡ some p')
    × Freed p'
    × ((active : Bool) → draw_panel 24 p' active ≡ none)
enter_unreadable_example =
    enter_unreadable closed_system 24 home docs home-IsPanel refl docs_name refl refl (omega arith)

enter-visible_example :
    press full_system new_line home
    ≡ some (record {
      files =
          parent_entry
          ∷ map (entry_of full_system (codes "/home/docs")) (take 1023 (visible home_names));
      selected = 0;
      path = codes "/home/docs";
    })
enter-visible_example =
    enter-visible full_system home docs home_names home-IsPanel refl docs_name refl refl
