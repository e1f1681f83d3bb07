-- ===== src/EchoRaw/ClientTable/History.antt =====
-- The counters against the history of the calls: how many messages a client sent since its last
-- reset.
use eltex_systems.Base.{
  ℕ, zero, suc, ◌%◌, ◌^◌, ◌≡◌, refl, ap, ◌∙◌, true, List, [], ◌∷◌, Option, none, some, arith,
  if◌then◌else◌, Bool-cases, inl, inr, length-replicate, get_or, replicate,
}
use eltex_systems.EchoRaw.ClientTable.{Key, Node, Table, slot, key_eq, ct_create, next_in, reset_in}
use eltex_systems.EchoRaw.ClientTable.Chain.{find, count, key_eq_iff}
use eltex_systems.EchoRaw.ClientTable.Laws.{
  IsValid, view, after, Updates, next-Updates, reset-Updates,
}

pub data Call : Type 0 where
  next : Key → Call
  reset : Key → Call

-- The table after the calls, the latest first, with memory for every node.
unfoldable pub replay : List Call → Table → Table
replay [] t = t
replay (next k ∷ calls) t = elim (next_in true (replay calls t) k) [
  | some (t', c) ↦ t'
  | none ↦ replay calls t
]
replay (reset k ∷ calls) t = reset_in (replay calls t) k

-- The messages of a client since its last reset, in calls with the latest first.
unfoldable pub tally : Key → List Call → ℕ
tally q [] = 0
tally q (next k ∷ calls) = if key_eq k q then suc (tally q calls) else tally q calls
tally q (reset k ∷ calls) = if key_eq k q then 0 else tally q calls

-- A client that sent nothing is not in the table; else its counter is the tally, wrapped.
abbrev pub counter_of : ℕ → Option ℕ
counter_of zero = none
counter_of (suc n) = some (suc n % 2 ^ 32)

pub after-counter_of : (n : ℕ) → after (counter_of n) ≡ suc n % 2 ^ 32
after-counter_of zero = refl
after-counter_of (suc n) = omega arith

abbrev pub empty_table : Table
empty_table = record { buckets = replicate 1024 []; nb = 1024 }

get_or-replicate-nil : (n i : ℕ) → get_or (replicate n (let e : List Node = [] in e)) i [] ≡ []
get_or-replicate-nil zero i = refl
get_or-replicate-nil (suc n) zero = refl
get_or-replicate-nil (suc n) (suc i) = get_or-replicate-nil n i

empty-IsValid : IsValid empty_table
unfolding count
empty-IsValid = record {
  width = refl;
  filled = length-replicate {A = List Node} 1024 [];
  once = λ q i. rw (get_or-replicate-nil 1024 i) (omega arith);
}

pub view-empty : (q : Key) → view empty_table q ≡ none
unfolding view find
view-empty q = rw (get_or-replicate-nil 1024 (slot empty_table q))

pub record Counts (calls : List Call) (t : Table) : Type 0 where
  pub valid : IsValid t
  pub counted : (q : Key) → view t q ≡ counter_of (tally q calls)

-- A table in which one client was counted, and one that forgot one.
pub Counts-counted :
    (k : Key) (calls : List Call) (t t' : Table)
    → Counts calls t
    → Updates t k (some (after (view t k))) t'
    → (after (view t k) ≡ suc (tally k calls) % 2 ^ 32) × Counts (next k ∷ calls) t'
unfolding tally
Counts-counted k calls t t' h u =
    let now : after (view t k) ≡ suc (tally k calls) % 2 ^ 32 =
      ap after (h.counted k) ∙ after-counter_of (tally k calls) in
    (
      now,
      record {
        valid = u.valid;
        counted = λ q. elim (Bool-cases (key_eq k q)) [
          | inl same ↦
              rw (u.reads q, same, now)
                (ap (λ (x : Key). some (suc (tally x calls) % 2 ^ 32)) (key_eq_iff k q same))
          | inr other ↦ rw (u.reads q, other) (h.counted q)
        ];
      },
    )

pub Counts-forgot :
    (k : Key) (calls : List Call) (t t' : Table)
    → Counts calls t
    → Updates t k none t'
    → Counts (reset k ∷ calls) t'
unfolding tally
Counts-forgot k calls t t' h u = record {
  valid = u.valid;
  counted = λ q. elim (Bool-cases (key_eq k q)) [
    | inl same ↦ rw (u.reads q, same)
    | inr other ↦ rw (u.reads q, other) (h.counted q)
  ];
}

Counts-next :
    (k : Key) (calls : List Call) (t : Table)
    → Counts calls t
    → (t' : Table) × (next_in true t k ≡ some (t', suc (tally k calls) % 2 ^ 32))
      × Counts (next k ∷ calls) t'
Counts-next k calls t h =
    let (t', run, u) = next-Updates t h.valid k in
    let (now, counts) = Counts-counted k calls t t' h u in
    (t', run ∙ ap (λ c. some (t', c)) now, counts)

Counts-reset :
    (k : Key) (calls : List Call) (t : Table)
    → Counts calls t
    → Counts (reset k ∷ calls) (reset_in t k)
Counts-reset k calls t h = Counts-forgot k calls t (reset_in t k) h (reset-Updates t h.valid k)

pub Counts-empty : Counts [] empty_table
Counts-empty = record {
  valid = empty-IsValid;
  counted = λ q. rw (view-empty q) (unfold tally in refl);
}

Counts-replay : (calls : List Call) → Counts calls (replay calls empty_table)
unfolding replay
Counts-replay [] = Counts-empty
Counts-replay (next k ∷ calls) =
    let (t', run, h) = Counts-next k calls (replay calls empty_table) (Counts-replay calls) in
    rw (run, replay) h
Counts-replay (reset k ∷ calls) = Counts-reset k calls _ (Counts-replay calls)

-- After any calls on a new table, with memory for every node, the counter that the next message of
-- a client gets is the number of its messages since its last reset, that one included, modulo 2 ^ 32.
pub next-tally :
    (calls : List Call) (k : Key)
    → (t : Table) × (ct_create true true ≡ some t)
      × (t' : Table) × (next_in true (replay calls t) k ≡ some (t', suc (tally k calls) % 2 ^ 32))
unfolding ct_create
next-tally calls k =
    let (t', run, _) = Counts-next k calls _ (Counts-replay calls) in (empty_table, refl, t', run)
