-- ===== src/ProcSysVar/Resources.antt =====
-- What the kernel module makes and takes away again.
use eltex_systems.Base.{
  ◌≡◌, refl, Bool, true, false, List, [], ◌∷◌, ◌++◌, Option, none, some, if◌then◌else◌,
}
use eltex_systems.ProcSysVar.{
  Did, created, removed, kobject_added, kobject_put, file_created, file_removed, proc_sys_init,
  proc_sys_exit,
}

-- What there is, the newest first; none when something is taken away that is not the newest.
abbrev pub left : List Did → List Did → Option (List Did)
left [] there = some there
left (created ∷ ds) there = left ds (created ∷ there)
left (kobject_added ∷ ds) there = left ds (kobject_added ∷ there)
left (file_created ∷ ds) there = left ds (file_created ∷ there)
left (removed ∷ ds) (created ∷ there) = left ds there
left (kobject_put ∷ ds) (kobject_added ∷ there) = left ds there
left (file_removed ∷ ds) (file_created ∷ there) = left ds there
left (d ∷ ds) there = none

-- When the start of the module fails, at whichever step, nothing that it made is left; when it
-- succeeds, nothing is left behind its end. Either way the newest is taken away first.
init-left :
    (proc kobject file : Bool)
    → left
        (if (proc_sys_init proc kobject file).0
          then (proc_sys_init proc kobject file).1 ++ proc_sys_exit true true
          else (proc_sys_init proc kobject file).1)
        []
      ≡ some []
unfolding proc_sys_init proc_sys_exit
init-left false kobject file = refl
init-left true false file = refl
init-left true true false = refl
init-left true true true = refl
