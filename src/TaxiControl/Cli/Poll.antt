-- ===== src/TaxiControl/Cli/Poll.antt =====
-- The part of `main` of `taxi_control/main.c` that serves the polled descriptors: it walks the
-- table with an index into `pfds`, which was filled before the command of this round ran.
use eltex_systems.Base.{
  ℕ, zero, suc, ◌+◌, ◌≤◌, ◌<◌, ◌≡◌, ◌↔◌, refl, ap, ◌∙◌, Bool, true, false, List, [], ◌∷◌, ◌++◌,
  Option, none, some, arith, if◌then◌else◌, length, ltb, get_elem?, length-append, append_assoc,
  Bool-cases, inl, inr, get_elem?-eq-get_or,
}
use eltex_systems.TaxiControl.Cli.{
  Entry, Table, Effect, Received, dead, close_fd, handle_driver_readable, drivers_push,
}

-- `revents` of one descriptor: POLLHUP, POLLERR or POLLNVAL, and POLLIN.
pub record Events : Type 0 where
  pub hangup : Bool
  pub readable : Bool

-- What happens to one polled driver. `inbox` is what `recv` returns on its socket.
unfoldable pub serve : List Received → Events → Entry → Entry × List Effect
serve inbox ev d =
    if ev.hangup
    then (dead d, close_fd d.fd)
    else if ev.readable
    then handle_driver_readable inbox d
    else (d, [])

-- The loop, with `idx`; `none` is a read of `pfds` behind its end.
unfoldable pub poll_pass :
    (Entry → List Received) → List Events → ℕ → List Entry → Option (List Entry × List Effect)
poll_pass inbox pfds idx [] = some ([], [])
poll_pass inbox pfds idx (d ∷ ds) =
    let after = poll_pass inbox pfds (idx + 1) ds in
    let same = poll_pass inbox pfds idx ds in
    elim d.alive [
      | false ↦ elim same [ none ↦ none | some (ds', effects) ↦ some (d ∷ ds', effects) ]
      | true ↦ elim (get_elem? pfds idx) [
        | none ↦ none
        | some ev ↦ elim after [
          | none ↦ none
          | some (ds', effects') ↦
              let (d', effects) = serve (inbox d) ev d in some (d' ∷ ds', effects ++ effects')
        ]
      ]
    ]

-- How many entries are polled: `nfds` is one more, for the standard input.
unfoldable pub alive_count : List Entry → ℕ
alive_count [] = 0
alive_count (d ∷ ds) = (if d.alive then 1 else 0) + alive_count ds

get_elem?-none : {A : Type 0} (xs : List A) (i : ℕ) → length xs ≤ i → get_elem? xs i ≡ none
get_elem?-none [] i h = refl
get_elem?-none (x ∷ xs) zero h = absurd (omega arith)
get_elem?-none (x ∷ xs) (suc i) h = get_elem?-none xs i (omega arith)

abbrev pub overruns : Option (List Entry × List Effect) → Bool
overruns none = true
overruns (some r) = false

quiet : Events
quiet = record { hangup = false; readable = false }

overruns-ltb :
    (inbox : Entry → List Received) (pfds : List Events) (idx : ℕ) (ds : List Entry)
    → idx ≤ length pfds
    → overruns (poll_pass inbox pfds idx ds) ≡ ltb (length pfds) (idx + alive_count ds)
unfolding poll_pass alive_count
overruns-ltb inbox pfds idx [] h = ground arith
overruns-ltb inbox pfds idx (d ∷ ds) h = ground (
  arith,
  overruns-ltb inbox pfds (idx + 1) ds,
  overruns-ltb inbox pfds idx ds h,
  get_elem?-none pfds idx,
  get_elem?-eq-get_or pfds idx quiet,
)

-- The walk reads behind the end of `pfds` exactly when the table has more living drivers than were
-- polled (`pfds` has one entry more, for the standard input).
poll_pass-overruns :
    (inbox : Entry → List Received) (pfds : List Events) (ds : List Entry)
    → 0 < length pfds
    → (overruns (poll_pass inbox pfds 1 ds) ≡ true) ↔ (length pfds < 1 + alive_count ds)
poll_pass-overruns inbox pfds ds h = ground (arith, overruns-ltb inbox pfds 1 ds h)

alive_count-append : (ds es : List Entry) → alive_count (ds ++ es) ≡ alive_count ds + alive_count es
unfolding alive_count
alive_count-append [] es = omega arith
alive_count-append (d ∷ ds) es = omega (arith, alive_count-append ds es)

overruns-none : (r : Option (List Entry × List Effect)) → overruns r ≡ true → r ≡ none
overruns-none none h = refl
overruns-none (some r) h = cc

pub pushed_entries :
    (t : Table) (realloc_ok : Bool) (pid fd : ℕ) {t' : Table}
    → drivers_push realloc_ok t pid fd ≡ some t'
    → t'.entries ≡ t.entries ++ (record { pid = pid; fd = some fd; alive = true } ∷ [])
unfolding drivers_push
pushed_entries t realloc_ok pid fd h = ground arith

-- A round that runs `create_driver` reads outside `pfds`: with as many polled descriptors as the
-- table had living drivers (and the standard input) before the command, the walk over the table
-- with the new driver reads behind the end of `pfds`.
pub create_driver_overruns :
    (inbox : Entry → List Received) (pfds : List Events) (t t' : Table) (realloc_ok : Bool)
    (pid fd : ℕ)
    → length pfds ≡ 1 + alive_count t.entries
    → drivers_push realloc_ok t pid fd ≡ some t'
    → poll_pass inbox pfds 1 t'.entries ≡ none
create_driver_overruns inbox pfds t t' realloc_ok pid fd full pushed =
    let entry : Entry = record { pid = pid; fd = some fd; alive = true } in
    let grown : t'.entries ≡ t.entries ++ (entry ∷ []) =
      pushed_entries t realloc_ok pid fd pushed in
    let living : alive_count (entry ∷ []) ≡ 1 = unfold alive_count in omega arith in
    let more : length pfds < 1 + alive_count t'.entries =
      rw (grown, alive_count-append t.entries (entry ∷ []), living) (omega arith) in
    overruns-none (poll_pass inbox pfds 1 t'.entries)
      ((poll_pass-overruns inbox pfds t'.entries (omega arith)).1 more)

-- The events of the living drivers, in the order of the table: what `pfds` holds behind the
-- standard input when no command ran in between.
unfoldable pub polled : (Entry → Events) → List Entry → List Events
polled events [] = []
polled events (d ∷ ds) = if d.alive then events d ∷ polled events ds else polled events ds

-- Every living driver is served with its own events, in the order of the table.
unfoldable pub serve_all :
    (Entry → List Received) → (Entry → Events) → List Entry → List Entry × List Effect
serve_all inbox events [] = ([], [])
serve_all inbox events (d ∷ ds) =
    let (ds', effects') = serve_all inbox events ds in
    if d.alive
    then (let (d', effects) = serve (inbox d) (events d) d in (d' ∷ ds', effects ++ effects'))
    else (d ∷ ds', effects')

get_elem?-middle :
    {A : Type 0} (front : List A) (x : A) (rest : List A)
    → get_elem? (front ++ (x ∷ rest)) (length front) ≡ some x
get_elem?-middle [] x rest = refl
get_elem?-middle (f ∷ front) x rest = get_elem?-middle front x rest

poll_pass-serve_all :
    (inbox : Entry → List Received) (events : Entry → Events) (front tail : List Events) (idx : ℕ)
    (ds : List Entry)
    → idx ≡ length front
    → poll_pass inbox (front ++ (polled events ds ++ tail)) idx ds
      ≡ some (serve_all inbox events ds)
unfolding poll_pass serve_all polled
poll_pass-serve_all inbox events front tail idx [] e = refl
poll_pass-serve_all inbox events front tail idx (d ∷ ds) e = elim (Bool-cases d.alive) [
  | inl living ↦
      let first : polled events (d ∷ ds) ≡ events d ∷ polled events ds = simp living in
      let own : get_elem? (front ++ (events d ∷ (polled events ds ++ tail))) idx ≡ some (events d) =
        rw e (get_elem?-middle front (events d) (polled events ds ++ tail)) in
      let rest = rw (append_assoc front (events d ∷ []) (polled events ds ++ tail)) at (
        poll_pass-serve_all inbox events (front ++ (events d ∷ [])) tail (idx + 1) ds
          (omega (arith, length-append front (events d ∷ [])))) in
      let shifted : poll_pass inbox (front ++ (polled events (d ∷ ds) ++ tail)) (idx + 1) ds
          ≡ some (serve_all inbox events ds) =
        ap (λ r. poll_pass inbox (front ++ (r ++ tail)) (idx + 1) ds) first ∙ rest in
      simp (living, own, shifted)
  | inr gone ↦
      let skipped : polled events (d ∷ ds) ≡ polled events ds = simp gone in
      let shifted : poll_pass inbox (front ++ (polled events (d ∷ ds) ++ tail)) idx ds
          ≡ some (serve_all inbox events ds) =
        ap (λ r. poll_pass inbox (front ++ (r ++ tail)) idx ds) skipped
        ∙ poll_pass-serve_all inbox events front tail idx ds e in
      simp (gone, shifted)
]

-- When the table is as it was when `pfds` was filled, the walk reads inside `pfds`, and serves each
-- living driver with the events of that driver, whatever lies behind `pfds`.
pub poll_pass_own_events :
    (inbox : Entry → List Received) (events : Entry → Events) (stdin : Events) (tail : List Events)
    (ds : List Entry)
    → poll_pass inbox ((stdin ∷ polled events ds) ++ tail) 1 ds ≡ some (serve_all inbox events ds)
poll_pass_own_events inbox events stdin tail ds =
    poll_pass-serve_all inbox events (stdin ∷ []) tail 1 ds refl
