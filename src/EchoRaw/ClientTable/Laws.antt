-- ===== src/EchoRaw/ClientTable/Laws.antt =====
-- The table as a map from clients to counters, and as a count of messages.
use eltex_systems.Base.{
  ℕ, ◌+◌, ◌%◌, ◌^◌, ◌≤◌, ◌<◌, ◌≡◌, ◌↔◌, refl, ap, ◌∙◌, true, false, List, [], ◌∷◌, Option, none,
  some, arith, if◌then◌else◌, Bool-cases, Option-cases, inl, inr, length, get_or, set, length-set,
  get_or-set_self, get_or-set_ne,
}
use native.Mathlib.Nat.{le_trans}
use native.Mathlib.Decide.{ℕ_discrete}
use eltex_systems.EchoRaw.ClientTable.{
  Key, Node, Table, key_eq, u32, bump, unlink, slot, next_in, reset_in,
}
use eltex_systems.EchoRaw.ClientTable.Chain.{
  find, count, key_eq_iff, bump-BumpSpec, find-unlink, count-unlink-le,
}

abbrev pub chain_at : Table → ℕ → List Node
chain_at t i = get_or t.buckets i []

-- 1024 buckets, and no chain that has two nodes of one key.
pub record IsValid (t : Table) : Type 0 where
  pub width : t.nb ≡ 1024
  pub filled : length t.buckets ≡ 1024
  pub once : (q : Key) (i : ℕ) → count q (chain_at t i) ≤ 1

-- The counter that a client has.
unfoldable pub view : Table → Key → Option ℕ
view t q = find q (chain_at t (slot t q))

-- Replacing the chain that the key hashes to by one that differs at that key alone.
module _ (t : Table) (valid : IsValid t) (key : Key) (chain' : List Node) (v : Option ℕ) where
  abbrev replaced : Table
  replaced = record t { buckets = set t.buckets (slot t key) chain' }

  abbrev old : List Node
  old = chain_at t (slot t key)

  module _ (counts : (q : Key) → count q chain' ≤ 1)
      (reads : (q : Key) → find q chain' ≡ (if key_eq key q then v else find q old)) where
    slot-lt : slot t key < length t.buckets
    slot-lt = omega (arith, valid.width, valid.filled)

    replaced-IsValid : IsValid replaced
    replaced-IsValid = record {
      width = valid.width;
      filled = length-set t.buckets (slot t key) chain' ∙ valid.filled;
      once = λ q i. elim (ℕ_discrete (slot t key) i) [
        | yes e ↦ ground (arith, counts q, get_or-set_self t.buckets (slot t key) chain' [] slot-lt)
        | no ne ↦ rw (get_or-set_ne t.buckets (slot t key) i chain' [] ne) (valid.once q i)
      ];
    }

    view-replaced : (q : Key) → view replaced q ≡ (if key_eq key q then v else view t q)
    unfolding view
    view-replaced q = elim (ℕ_discrete (slot t key) (slot t q)) [
      | yes e ↦ rw (← e, get_or-set_self t.buckets (slot t key) chain' [] slot-lt) (reads q)
      | no ne ↦
          rw (get_or-set_ne t.buckets (slot t key) (slot t q) chain' [] ne)
            (elim (Bool-cases (key_eq key q)) [
              | inl same ↦ absurd (ne (ap (slot t) (key_eq_iff key q same)))
              | inr other ↦ rw other
            ])
    ]

-- The counter after one more message; it wraps at 2 ^ 32.
abbrev pub after : Option ℕ → ℕ
after none = 1
after (some m) = (m + 1) % 2 ^ 32

-- `t'` is `t` with the counter `v` for the client, or with no counter.
pub record Updates (t : Table) (key : Key) (v : Option ℕ) (t' : Table) : Type 0 where
  pub valid : IsValid t'
  pub reads : (q : Key) → view t' q ≡ (if key_eq key q then v else view t q)

module _ (t : Table) (valid : IsValid t) (key : Key) where
  abbrev chain : List Node
  chain = chain_at t (slot t key)

  count-cons :
      find key chain ≡ none
      → count key chain ≡ 0
      → (q : Key) → count q (record { key = key; counter = 1 } ∷ chain) ≤ 1
  unfolding count
  count-cons e z q = ground (arith, valid.once q (slot t key), key_eq_iff key q)

  abbrev fresh : List Node
  fresh = record { key = key; counter = 1 } ∷ chain

  find-fresh : (q : Key) → find q fresh ≡ (if key_eq key q then some 1 else find q chain)
  unfolding find
  find-fresh q = refl

  -- What `rawudp_ct_next` stores and returns, given memory for a node.
  abbrev Result : Type 0
  Result =
      (t' : Table) × (next_in true t key ≡ some (t', after (view t key)))
      × Updates t key (some (after (view t key))) t'

  next_absent : bump key chain ≡ none → Result
  next_absent e =
      let (absent, zero_count) = rw e at (bump-BumpSpec key chain) in
      let unseen : view t key ≡ none = unfold view in absent in
      let counts = count-cons absent zero_count in
      (
        replaced t valid key fresh (some 1),
        rw unseen (unfold next_in in rw (e, next_in)),
        rw unseen (record {
          valid = replaced-IsValid t valid key fresh (some 1) counts find-fresh;
          reads = view-replaced t valid key fresh (some 1) counts find-fresh;
        }),
      )

  next_present : (chain' : List Node) (c : ℕ) → bump key chain ≡ some (chain', c) → Result
  next_present chain' c e =
      let (m, was, now, reads, counts) = rw e at (bump-BumpSpec key chain) in
      let seen : view t key ≡ some m = unfold view in was in
      let c' : c ≡ (m + 1) % 2 ^ 32 = unfold u32 in now in
      let once = λ (q : Key). unfold_le q (counts q) in
      (
        replaced t valid key chain' (some c),
        rw (seen, ← c') (unfold next_in in rw (e, next_in)),
        rw (seen, ← c')
            (record {
              valid = replaced-IsValid t valid key chain' (some c) once reads;
              reads = view-replaced t valid key chain' (some c) once reads;
            }),
      )
    where
      unfold_le : (q : Key) → count q chain' ≡ count q chain → count q chain' ≤ 1
      unfold_le q same = rw same (valid.once q (slot t key))

  -- With memory for a node, `rawudp_ct_next` on a valid table returns the next counter of the
  -- client (1 for a new one, else one more, modulo 2 ^ 32) and stores it; no other counter
  -- changes, and the table stays valid.
  pub next-Updates : Result
  next-Updates = elim (Option-cases (bump key chain)) [
    | inl e ↦ next_absent e
    | inr ((chain', c), e) ↦ next_present chain' c e
  ]

  -- Without memory for a node, a valid table refuses exactly the clients that are not in it.
  pub next_no_memory : (next_in false t key ≡ none) ↔ (view t key ≡ none)
  unfolding next_in view
  next_no_memory = elim (Option-cases (bump key chain)) [
    | inl e ↦
        let (absent, _) = rw e at (bump-BumpSpec key chain) in
        rw (e, next_in, absent) ((λ _. refl), λ _. refl)
    | inr ((chain', c), e) ↦
        let (m, was, _, _, _) = rw e at (bump-BumpSpec key chain) in
        rw (e, next_in, was) ((λ h. cc), λ h. cc)
  ]

  -- `rawudp_ct_reset` on a valid table forgets the counter of the client and no other, and the
  -- table stays valid.
  pub reset-Updates : Updates t key none (reset_in t key)
  unfolding reset_in
  reset-Updates =
      let counts =
        λ (q : Key). le_trans (count-unlink-le key q chain) (valid.once q (slot t key)) in
      let reads = λ (q : Key). find-unlink key q chain (valid.once q (slot t key)) in
      record {
        valid = replaced-IsValid t valid key (unlink key chain) none counts reads;
        reads = view-replaced t valid key (unlink key chain) none counts reads;
      }
