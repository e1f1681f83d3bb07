-- ===== src/Tests/KernelModule.antt =====
-- The kernel module with a kernel of its own.
use eltex_systems.Base.{
  ℕ, ◌+◌, ◌-◌, ◌≤◌, ◌≡◌, refl, ap, sym, ◌∙◌, false, List, [], ◌∷◌, ◌++◌, Option, none, some, arith,
  ltb, ◌==◌, if◌then◌else◌, length, take, drop, All, append-nil,
}
use eltex_systems.Base.Int.{ℤ, pos, negsuc}
use eltex_systems.Base.Decimal.{
  decimal, decimal-All, read_digits, read_digits-decimal, length-decimal, IsDigit,
}
use eltex_systems.ProcSysVar.{Kernel, bytes, print_int, proc_write, sysfs_store, sysfs_show}
use eltex_systems.ProcSysVar.Laws.{IsKernel, IsInt, read_file, text_of, write-read}

abbrev visible : List ℕ → List ℕ
visible [] = []
visible (b ∷ bs) = if ltb b 33 then visible bs else b ∷ visible bs

abbrev read_int : List ℕ → Option ℤ
read_int [] = none
read_int (b ∷ bs) =
    if b == b'-' then some (negsuc (read_digits 0 bs - 1)) else some (pos (read_digits 0 (b ∷ bs)))

abbrev kernel : Kernel
kernel = record {
  strim = visible;
  kstrtoint = read_int;
  simple_read = λ count position buffer.
      (take count (drop position buffer), position + length (take count (drop position buffer)));
}

visible-All : (bs : List ℕ) → All (λ b. 33 ≤ b) bs → visible (bs ++ (b'\n' ∷ [])) ≡ bs
visible-All [] h = refl
visible-All (b ∷ bs) h = ground (arith, visible-All bs h.1, h.0)

read_whole : (n : ℕ) → read_digits 0 (decimal n) ≡ n
read_whole n = ap (read_digits 0) (sym (append-nil (decimal n))) ∙ read_digits-decimal n [] tt

read_positive :
    (ds : List ℕ) → All IsDigit ds → 1 ≤ length ds → read_int ds ≡ some (pos (read_digits 0 ds))
read_positive [] h l = absurd (omega arith)
read_positive (d ∷ ds) h l = let off : (d == b'-') ≡ false = ground arith in rw off refl

kernel-IsKernel : IsKernel kernel
kernel-IsKernel = record {
  trims = visible-All;
  parses = parse;
  reads = λ count position buffer. refl;
}
  where
    parse : (v : ℤ) → IsInt v → read_int (print_int v) ≡ some v
    parse (pos n) h =
        read_positive (decimal n) (decimal-All n) (length-decimal 9 n (omega arith)).0
        ∙ ap (λ k. some (pos k)) (read_whole n)
    parse (negsuc n) h =
        ap (λ k. some (negsuc k)) (ap (λ k. k - 1) (read_whole (n + 1)) ∙ omega arith)

write-read_example :
    (proc_write kernel (some (text_of (negsuc 41))) (length (text_of (negsuc 41))) (pos 7)
      ≡ (negsuc 41, bytes (length (text_of (negsuc 41)))))
    × (sysfs_store kernel (text_of (negsuc 41)) (length (text_of (negsuc 41))) (pos 7)
        ≡ (negsuc 41, bytes (length (text_of (negsuc 41)))))
    × (read_file 13 kernel (negsuc 41) 2 0 ≡ some (text_of (negsuc 41)))
    × (sysfs_show (negsuc 41) ≡ text_of (negsuc 41))
write-read_example =
    write-read kernel (negsuc 41) (pos 7) 2 kernel-IsKernel (omega arith) (omega arith)
