-- ===== src/EchoRaw/ClientTable.antt =====
-- `echo_raw/src/client_table.c`: a hash table with chaining from a client to its message counter.
-- A chain is the list of its nodes, front first; no other code holds a pointer into it. A function
-- that takes the table returns the new table.
pub mod Chain
pub mod Laws
pub mod History
use eltex_systems.Base.{
  ℕ, ◌+◌, ◌*◌, ◌/◌, ◌%◌, ◌^◌, bit_xor, Bool, true, false, ◌&&◌, List, [], ◌∷◌, Option, none, some,
  ◌==◌, if◌then◌else◌, get_or, set, replicate,
}

-- `rawudp_client_key_t`; `ip` is `s_addr`.
pub record Key : Type 0 where
  pub ip : ℕ
  pub port : ℕ

pub record Node : Type 0 where
  pub key : Key
  pub counter : ℕ

pub record Table : Type 0 where
  pub buckets : List (List Node)
  pub nb : ℕ

unfoldable pub u32 : ℕ → ℕ
u32 n = n % 2 ^ 32

pub hash_key : Key → ℕ
unfolding u32
hash_key k =
    let x = bit_xor k.ip (u32 (k.port * 2654435761)) in
    let x = bit_xor x (x / 2 ^ 16) in
    let x = u32 (x * 2246822519) in
    let x = bit_xor x (x / 2 ^ 13) in let x = u32 (x * 3266489917) in bit_xor x (x / 2 ^ 16)

unfoldable pub key_eq : Key → Key → Bool
key_eq a b = a.ip == b.ip && a.port == b.port

-- `table_ok` and `buckets_ok` say whether the two calls of `calloc` succeed.
unfoldable pub ct_create : Bool → Bool → Option Table
ct_create false buckets_ok = none
ct_create true false = none
ct_create true true = some (record { buckets = replicate 1024 []; nb = 1024 })

-- The search of `rawudp_ct_next`: the chain with the counter of the first match incremented, and
-- that counter.
unfoldable pub bump : Key → List Node → Option (List Node × ℕ)
bump key [] = none
bump key (n ∷ ns) =
    let rest = bump key ns in
    if key_eq n.key key
    then some (record n { counter = u32 (n.counter + 1) } ∷ ns, u32 (n.counter + 1))
    else elim rest [ none ↦ none | some (ns', c) ↦ some (n ∷ ns', c) ]

-- The search of `rawudp_ct_reset`: the chain without the first match.
unfoldable pub unlink : Key → List Node → List Node
unlink key [] = []
unlink key (n ∷ ns) = if key_eq n.key key then ns else n ∷ unlink key ns

abbrev pub slot : Table → Key → ℕ
slot t key = hash_key key % t.nb

-- `calloc_ok` says whether the node can be allocated. `none` is -1, with the table unchanged; else
-- the new table and what is stored through `out_counter`.
unfoldable pub next_in : Bool → Table → Key → Option (Table × ℕ)
next_in calloc_ok t key =
    let chain = get_or t.buckets (slot t key) [] in
    elim (bump key chain) [
      | some (chain', c) ↦ some (record t { buckets = set t.buckets (slot t key) chain' }, c)
      | none ↦
          if calloc_ok
          then some (
            record t {
              buckets = set t.buckets (slot t key) (record { key = key; counter = 1 } ∷ chain);
            },
            1,
          )
          else none
    ]

-- A null table, or a null `out_counter` (`out_given` is false), is refused first.
unfoldable pub ct_next : Bool → Option Table → Key → Bool → Option (Table × ℕ)
ct_next calloc_ok none key out_given = none
ct_next calloc_ok (some t) key out_given = if out_given then next_in calloc_ok t key else none

unfoldable pub reset_in : Table → Key → Table
reset_in t key = record t {
  buckets = set t.buckets (slot t key) (unlink key (get_or t.buckets (slot t key) []));
}

unfoldable pub ct_reset : Option Table → Key → Option Table
ct_reset none key = none
ct_reset (some t) key = some (reset_in t key)
