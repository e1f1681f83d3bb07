-- ===== src/ProcSysVar.antt =====
-- `modules/proc_sys_var.c`: the kernel module with one `int` behind a file of `/proc` and one of
-- `/sys`. What the kernel's calls return is given.
pub mod Laws
pub mod Resources
use eltex_systems.Base.{
  ℕ, ◌+◌, ◌-◌, List, [], ◌∷◌, ◌++◌, Option, none, some, ltb, leb, if◌then◌else◌, Bool, true, false,
  take,
}
use eltex_systems.Base.Int.{ℤ, pos, negsuc}
use eltex_systems.Base.Decimal.{decimal}
use eltex_systems.Base.Text.{c_string}

-- What a handler returns: a count of bytes, or an error.
pub data Returned : Type 0 where
  bytes : ℕ → Returned
  einval efault : Returned

-- `%d`.
abbrev pub print_int : ℤ → List ℕ
print_int (pos n) = decimal n
print_int (negsuc n) = b'-' ∷ decimal (n + 1)

-- What `scnprintf (buf, size, "%d\n", value)` puts into the buffer, its NUL left out.
unfoldable pub print_line : (size : ℕ) → ℤ → List ℕ
print_line size v = take (size - 1) (print_int v ++ (b'\n' ∷ []))

-- What the kernel's calls do: `strim`, `kstrtoint` with base 10 (none is an error), and
-- `simple_read_from_buffer` with the count, the position and the buffer: what is copied to the
-- user, and the new position.
pub record Kernel : Type 0 where
  pub strim : List ℕ → List ℕ
  pub kstrtoint : List ℕ → Option ℤ
  pub simple_read : (count position : ℕ) → List ℕ → List ℕ × ℕ

-- The bytes that the user gets, and the new position.
unfoldable pub proc_read : Kernel → (myvar : ℤ) → (count position : ℕ) → List ℕ × ℕ
proc_read k myvar count position = k.simple_read count position (print_line 32 myvar)

-- The value that a text is read as, if it is.
unfoldable pub store : Kernel → (text : List ℕ) → (count : ℕ) → ℤ → ℤ × Returned
store k text count myvar = elim (k.kstrtoint (k.strim (c_string text))) [
  | none ↦ (myvar, einval)
  | some val ↦ (val, bytes count)
]

-- `copied` is what `copy_from_user` copies, none when it fails.
unfoldable pub proc_write : Kernel → (copied : Option (List ℕ)) → (count : ℕ) → ℤ → ℤ × Returned
proc_write k copied count myvar =
    if leb 32 count
    then (myvar, einval)
    else elim copied [ none ↦ (myvar, efault) | some text ↦ store k text count myvar ]

-- A page has 4096 bytes.
unfoldable pub sysfs_show : ℤ → List ℕ
sysfs_show myvar = print_line 4096 myvar

unfoldable pub sysfs_store : Kernel → (text : List ℕ) → (count : ℕ) → ℤ → ℤ × Returned
sysfs_store k text count myvar = store k text count myvar

-- What the module makes and takes away.
pub data Did : Type 0 where
  created removed : Did
  kobject_added kobject_put : Did
  file_created file_removed : Did

-- `proc_sys_init`: whether each of the three calls succeeds; true is the return of 0, false the
-- return of -ENOMEM.
unfoldable pub proc_sys_init : (proc kobject file : Bool) → Bool × List Did
proc_sys_init proc kobject file =
    if proc
    then (if kobject
        then (if file
            then (true, created ∷ kobject_added ∷ file_created ∷ [])
            else (false, created ∷ kobject_added ∷ kobject_put ∷ removed ∷ []))
        else (false, created ∷ removed ∷ []))
    else (false, [])

-- `proc_sys_exit`, with whether the two pointers are set.
unfoldable pub proc_sys_exit : (myvar_kobj proc_ent : Bool) → List Did
proc_sys_exit myvar_kobj proc_ent =
    (if myvar_kobj then file_removed ∷ kobject_put ∷ [] else [])
    ++ (if proc_ent then removed ∷ [] else [])
