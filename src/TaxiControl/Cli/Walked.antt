-- ===== src/TaxiControl/Cli/Walked.antt =====
-- The walk over the polled drivers leaves their sockets balanced, whatever events it reads.
use eltex_systems.Base.{
  ℕ, ◌+◌, List, [], ◌∷◌, ◌++◌, Option, none, some, get_elem?, Bool-cases, inl, inr,
}
use eltex_systems.TaxiControl.Cli.{Entry, Effect, Received}
use eltex_systems.TaxiControl.Cli.Poll.{Events, serve, poll_pass}
use eltex_systems.TaxiControl.Cli.Descriptors.{
  Balanced, keep-Balanced, cons-Balanced, skip-Balanced,
}
use eltex_systems.TaxiControl.Cli.Balance.{serve-EntryBalanced}

-- A walk leaves the sockets balanced where it ends.
abbrev pub Walked : List Entry → Option (List Entry × List Effect) → Type 0
Walked ds none = Unit
Walked ds (some r) = Balanced ds r

skip-Walked :
    (d : Entry) (ds : List Entry) (o : Option (List Entry × List Effect))
    → Walked ds o
    → Walked (d ∷ ds) (elim o [ none ↦ none | some (ds', effects) ↦ some (d ∷ ds', effects) ])
skip-Walked d ds none h = tt
skip-Walked d ds (some r) h = skip-Balanced d ds r h

serve-Walked :
    (inbox : List Received) (ev : Events) (d : Entry) (ds : List Entry)
    (o : Option (List Entry × List Effect))
    → Walked ds o
    → Walked (d ∷ ds) (elim o [
      | none ↦ none
      | some (ds', effects') ↦
          let (d', effects) = serve inbox ev d in some (d' ∷ ds', effects ++ effects')
    ])
serve-Walked inbox ev d ds none h = tt
serve-Walked inbox ev d ds (some r) h =
    cons-Balanced d ds (serve inbox ev d) r (serve-EntryBalanced inbox ev d) h

serve_at-Walked :
    (inbox : List Received) (at : Option Events) (d : Entry) (ds : List Entry)
    (o : Option (List Entry × List Effect))
    → Walked ds o
    → Walked (d ∷ ds) (elim at [
      | none ↦ none
      | some ev ↦ elim o [
        | none ↦ none
        | some (ds', effects') ↦
            let (d', effects) = serve inbox ev d in some (d' ∷ ds', effects ++ effects')
      ]
    ])
serve_at-Walked inbox none d ds o h = tt
serve_at-Walked inbox (some ev) d ds o h = serve-Walked inbox ev d ds o h

pub poll_pass-Walked :
    (inbox : Entry → List Received) (pfds : List Events) (idx : ℕ) (ds : List Entry)
    → Walked ds (poll_pass inbox pfds idx ds)
unfolding poll_pass
poll_pass-Walked inbox pfds idx [] = keep-Balanced []
poll_pass-Walked inbox pfds idx (d ∷ ds) = elim (Bool-cases d.alive) [
  | inl living ↦ simp living (
      serve_at-Walked (inbox d) (get_elem? pfds idx) d ds (poll_pass inbox pfds (idx + 1) ds)
        (poll_pass-Walked inbox pfds (idx + 1) ds))
  | inr gone ↦
      simp gone
        (skip-Walked d ds (poll_pass inbox pfds idx ds) (poll_pass-Walked inbox pfds idx ds))
]
