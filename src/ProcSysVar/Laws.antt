-- ===== src/ProcSysVar/Laws.antt =====
-- What is written to the kernel module is read back, by either file.
use eltex_systems.Base.{
  ℕ, zero, suc, ◌+◌, ◌-◌, ◌≤◌, ◌<◌, ◌^◌, ◌≡◌, ◌≢◌, ◌⊎◌, refl, ap, ◌∙◌, List, [], ◌∷◌, ◌++◌, Option,
  none, some, arith, leb, ◌==◌, if◌then◌else◌, false, length, length-append, take, drop, drop-drop,
  take_all, All, Bool-cases, inl, inr,
}
use eltex_systems.Base.Int.{ℤ, pos, negsuc}
use eltex_systems.Base.Decimal.{decimal, decimal-All, length-decimal, IsDigit}
use eltex_systems.Base.Text.{c_string}
use eltex_systems.ProcSysVar.{
  Returned, bytes, einval, efault, print_int, print_line, Kernel, proc_read, store, proc_write,
  sysfs_show, sysfs_store,
}

abbrev pub IsInt : ℤ → Type 0
IsInt (pos n) = n < 2 ^ 31
IsInt (negsuc n) = n < 2 ^ 31

-- What the documentation of the kernel says of the three calls.
pub record IsKernel (k : Kernel) : Type 0 where
  pub trims : (bs : List ℕ) → All (λ b. 33 ≤ b) bs → k.strim (bs ++ (b'\n' ∷ [])) ≡ bs
  pub parses : (v : ℤ) → IsInt v → k.kstrtoint (print_int v) ≡ some v
  pub reads :
      (count position : ℕ) (buffer : List ℕ)
      → k.simple_read count position buffer
        ≡ (take count (drop position buffer), position + length (take count (drop position buffer)))

-- A program that reads the file to its end, some bytes at a time.
unfoldable pub read_file : (fuel : ℕ) → Kernel → ℤ → (chunk position : ℕ) → Option (List ℕ)
read_file zero k v chunk position = none
read_file (suc f) k v chunk position =
    let r = proc_read k v chunk position in
    let rest = read_file f k v chunk r.1 in
    if length r.0 == 0 then some [] else elim rest [ none ↦ none | some bs ↦ some (r.0 ++ bs) ]

abbrev pub text_of : ℤ → List ℕ
text_of v = print_int v ++ (b'\n' ∷ [])

digits_visible : (ds : List ℕ) → All IsDigit ds → All (λ b. 33 ≤ b) ds
digits_visible [] h = tt
digits_visible (d ∷ ds) h = (omega (arith, h.0.0), digits_visible ds h.1)

int_visible : (v : ℤ) → All (λ b. 33 ≤ b) (print_int v)
int_visible (pos n) = digits_visible (decimal n) (decimal-All n)
int_visible (negsuc n) = (omega arith, digits_visible (decimal (n + 1)) (decimal-All (n + 1)))

c_string-line :
    (bs : List ℕ) → All (λ b. 33 ≤ b) bs → c_string (bs ++ (b'\n' ∷ [])) ≡ bs ++ (b'\n' ∷ [])
unfolding c_string
c_string-line [] h = refl
c_string-line (b ∷ bs) h = ground (arith, c_string-line bs h.1, h.0)

length-print_int : (v : ℤ) → IsInt v → length (print_int v) ≤ 11
length-print_int (pos n) h = omega (arith, (length-decimal 9 n (omega arith)).1)
length-print_int (negsuc n) h = omega (arith, (length-decimal 9 (n + 1) (omega arith)).1)

length-text_of : (v : ℤ) → IsInt v → length (text_of v) ≤ 12
length-text_of v h = omega (arith, length-print_int v h, length-append (print_int v) (b'\n' ∷ []))

print_line-text_of : (size : ℕ) (v : ℤ) → IsInt v → 32 ≤ size → print_line size v ≡ text_of v
unfolding print_line
print_line-text_of size v h enough =
    take_all (size - 1) (text_of v) (omega (arith, length-text_of v h))

store-text_of :
    (k : Kernel) (v : ℤ) (count : ℕ) (old : ℤ)
    → IsKernel k
    → IsInt v
    → store k (text_of v) count old ≡ (v, bytes count)
unfolding store
store-text_of k v count old kernel h =
    rw
      (
        store,
        c_string-line (print_int v) (int_visible v),
        kernel.trims (print_int v) (int_visible v),
        kernel.parses v h,
      )
      refl

take_rest : (n : ℕ) (xs : List ℕ) → take n xs ++ drop (length (take n xs)) xs ≡ xs
take_rest zero xs = refl
take_rest (suc n) [] = refl
take_rest (suc n) (x ∷ xs) = ap (λ r. x ∷ r) (take_rest n xs)

nothing_read : (n : ℕ) (xs : List ℕ) → 0 < n → length (take n xs) ≡ 0 → xs ≡ []
nothing_read zero xs h e = absurd (omega arith)
nothing_read (suc n) [] h e = refl
nothing_read (suc n) (x ∷ xs) h e = absurd (omega arith)

less :
    (f : ℕ) (a b c : List ℕ)
    → a ++ b ≡ c
    → (length a == 0) ≡ false
    → length c < suc f
    → length b < f
less f a b c e nonempty small = ground (arith, length-append a b, ap length e)

read_file-text :
    (k : Kernel) (v : ℤ) (chunk : ℕ)
    → IsKernel k
    → IsInt v
    → 0 < chunk
    → (fuel position : ℕ) → length (drop position (text_of v)) < fuel
    → read_file fuel k v chunk position ≡ some (drop position (text_of v))
unfolding read_file proc_read
read_file-text k v chunk kernel h positive zero position enough = absurd (omega arith)
read_file-text k v chunk kernel h positive (suc f) position enough =
    let rest = drop position (text_of v) in
    let part = take chunk rest in
    let reads : proc_read k v chunk position ≡ (part, position + length part) =
      rw (proc_read, print_line-text_of 32 v h (omega arith))
        (kernel.reads chunk position (text_of v)) in
    elim (Bool-cases (length part == 0)) [
      | inl end ↦
          let all : rest ≡ [] = nothing_read chunk rest positive (ground arith) in
          rw (read_file, reads, end, all) refl
      | inr more ↦
          let behind = drop-drop position (length part) (text_of v) in
          let whole = take_rest chunk rest in
          let len = length-append part (drop (length part) rest) in
          let fewer : length (drop (position + length part) (text_of v)) < f =
            rw behind (less f part (drop (length part) rest) rest whole more enough) in
          rw
            (
              read_file,
              reads,
              more,
              read_file-text k v chunk kernel h positive f (position + length part) fewer,
              behind,
            )
            (ap (λ r. some (r.0 ++ drop (length part) rest)) reads ∙ ap (λ bs. some bs) whole)
    ]

-- Whatever text of an `int` is written to either file of the module, with the line end, is accepted
-- as a whole, and then both files read as that text, the one of `/proc` in pieces of any size: when
-- the calls of the kernel do what their documentation says.
pub write-read :
    (k : Kernel) (v old : ℤ) (chunk : ℕ)
    → IsKernel k
    → IsInt v
    → 0 < chunk
    → (proc_write k (some (text_of v)) (length (text_of v)) old ≡ (v, bytes (length (text_of v))))
      × (sysfs_store k (text_of v) (length (text_of v)) old ≡ (v, bytes (length (text_of v))))
      × (read_file 13 k v chunk 0 ≡ some (text_of v))
      × (sysfs_show v ≡ text_of v)
unfolding proc_write sysfs_store sysfs_show
write-read k v old chunk kernel h positive =
    let short = length-text_of v h in
    let fits : leb 32 (length (text_of v)) ≡ false = ground arith in
    (
      rw (proc_write, fits) (store-text_of k v (length (text_of v)) old kernel h),
      store-text_of k v (length (text_of v)) old kernel h,
      read_file-text k v chunk kernel h positive 13 0 (omega arith),
      print_line-text_of 4096 v h (omega arith),
    )

-- A write is accepted with the value of its text, or returns an error and keeps the old one.
abbrev pub Accepted : Kernel → Option (List ℕ) → ℕ → ℤ → Type 0
Accepted k copied count old =
    (text : List ℕ) × (val : ℤ) × (copied ≡ some text)
    × (count < 32)
    × (k.kstrtoint (k.strim (c_string text)) ≡ some val)
    × (proc_write k copied count old ≡ (val, bytes count))

abbrev pub Refused : Kernel → Option (List ℕ) → ℕ → ℤ → Type 0
Refused k copied count old =
    (error : Returned) × (error ≢ bytes count) × (proc_write k copied count old ≡ (old, error))

write_text :
    (k : Kernel) (text : List ℕ) (count : ℕ) (old : ℤ) (parsed : Option ℤ)
    → leb 32 count ≡ false
    → k.kstrtoint (k.strim (c_string text)) ≡ parsed
    → Accepted k (some text) count old ⊎ Refused k (some text) count old
unfolding proc_write store
write_text k text count old none short e =
    inr (einval, λ f. cc, rw (proc_write, short, store, e) refl)
write_text k text count old (some val) short e =
    inl (text, val, refl, ground arith, e, rw (proc_write, short, store, e) refl)

write_copy :
    (k : Kernel) (copied : Option (List ℕ)) (count : ℕ) (old : ℤ)
    → leb 32 count ≡ false
    → Accepted k copied count old ⊎ Refused k copied count old
unfolding proc_write
write_copy k none count old short = inr (efault, λ e. cc, rw (proc_write, short) refl)
write_copy k (some text) count old short =
    write_text k text count old (k.kstrtoint (k.strim (c_string text))) short refl

-- A write to the file of `/proc` does one of two things. It is accepted with all of its bytes, fewer
-- than 32, and the value is the number that its text is read as; or it returns an error and the
-- value stays.
write_all_or_nothing :
    (k : Kernel) (copied : Option (List ℕ)) (count : ℕ) (old : ℤ)
    → Accepted k copied count old ⊎ Refused k copied count old
unfolding proc_write
write_all_or_nothing k copied count old = elim (Bool-cases (leb 32 count)) [
  | inl long ↦ inr (einval, λ e. cc, rw (proc_write, long) refl)
  | inr short ↦ write_copy k copied count old short
]
