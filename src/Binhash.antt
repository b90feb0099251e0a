-- ===== src/Binhash.antt =====
-- The hash tables of src/util/binhash.c: a table is an array of chains of entries. A chain, linked
-- through `next` and `prev`, is the list of its entries from the array on.
pub mod Chain
pub mod Buckets
pub mod Table
pub mod Growth
pub mod Children
pub mod Write
use Prim.Native.String.{String}
use nowra.Base.{
  length, ℕ, zero, suc, ◌+◌, ◌-◌, ◌*◌, ◌/◌, ◌%◌, ◌^◌, Bool, true, false, ◌&&◌, Option, none, some,
  List, [], ◌∷◌, ltb, leb, ◌==◌, if◌then◌else◌, Outcome, ok, abort, panic, get_or, set, replicate,
  ◌++◌,
}

-- A byte of a key as `*key++` adds it to an `unsigned long`: `char` is signed.
sign_extended : ℕ → ℕ
sign_extended b = if ltb b 128 then b else 2 ^ 64 - 256 + b

-- `a ^ b` on the lowest bits
xor : (bits : ℕ) → ℕ → ℕ → ℕ
xor zero a b = 0
xor (suc bits) a b = (if a % 2 == b % 2 then 0 else 1) + 2 * xor bits (a / 2) (b / 2)

-- One turn of the loop of `binhash_hash`: `h & 0xf0000000` are the bits from 28 to 31.
hash_step : ℕ → ℕ → ℕ
unfolding sign_extended xor
hash_step h b =
    let h' = (h * 16 + sign_extended b) % 2 ^ 64 in
    let g = h' / 2 ^ 28 % 16 * 2 ^ 28 in if g == 0 then h' else xor 64 (xor 64 h' (g / 2 ^ 24)) g

hash_from : ℕ → List ℕ → ℕ
hash_from h [] = h
hash_from h (b ∷ key) = hash_from (hash_step h b) key

-- `binhash_hash`
unfoldable pub binhash_hash : List ℕ → ℕ → ℕ
unfolding hash_from hash_step
binhash_hash key size = hash_from 0 key % size

-- `key_len == ht->key_len && KEY_EQ(key, ht->key, key_len)`
unfoldable pub key_eq : List ℕ → List ℕ → Bool
key_eq [] [] = true
key_eq (a ∷ k) (b ∷ j) = a == b && key_eq k j
key_eq _ _ = false

-- `BINHASH_INFO`
pub record Info (V : Type 0) : Type 0 where
  pub key : List ℕ
  pub value : V

-- `BINHASH`
pub record Binhash (V : Type 0) : Type 0 where
  pub size : ℕ
  pub used : ℕ
  pub chains : List (List (Info V))

module _ {V : Type 0} where
  -- `binhash_link`
  unfoldable pub binhash_link : Info V → Binhash V → Binhash V
  binhash_link e t =
      let h = binhash_hash e.key t.size in
      record t { used = t.used + 1; chains = set t.chains h (e ∷ get_or t.chains h []) }

  -- `binhash_size`
  unfoldable pub binhash_size : ℕ → Binhash V
  binhash_size size =
      let odd = if size % 2 == 0 then size + 1 else size in
      record { size = odd; used = 0; chains = replicate odd [] }

  -- `binhash_create`
  unfoldable pub binhash_create : ℕ → Binhash V
  binhash_create size = binhash_size (if ltb size 13 then 13 else size)

  -- The two loops of `binhash_grow`
  unfoldable pub link_chain : List (Info V) → Binhash V → Binhash V
  link_chain [] t = t
  link_chain (e ∷ chain) t = link_chain chain (binhash_link e t)

  unfoldable pub link_chains : List (List (Info V)) → Binhash V → Binhash V
  link_chains [] t = t
  link_chains (chain ∷ chains) t = link_chains chains (link_chain chain t)

  -- `binhash_grow`
  unfoldable pub binhash_grow : Binhash V → Binhash V
  binhash_grow t = link_chains t.chains (binhash_size (2 * t.size))

  -- `binhash_enter` with the copy of the key that `mymemdup` made.
  unfoldable pub enter_copied : Binhash V → List ℕ → V → Binhash V
  enter_copied t key value =
      binhash_link (record { key = key; value = value })
        (if leb t.size t.used then binhash_grow t else t)

  -- `binhash_enter`, if there is memory: `mymemdup` panics on a key without a byte.
  unfoldable pub binhash_enter : Binhash V → List ℕ → V → Outcome (Binhash V)
  binhash_enter t key value =
      if ltb (length key) 1
      then abort (panic "mymalloc: requested length")
      else ok (enter_copied t key value)

  -- The loop of `binhash_locate`
  unfoldable pub chain_locate : List ℕ → List (Info V) → Option (Info V)
  chain_locate key [] = none
  chain_locate key (e ∷ chain) = if key_eq key e.key then some e else chain_locate key chain

  -- `binhash_locate`
  unfoldable pub binhash_locate : Binhash V → List ℕ → Option (Info V)
  binhash_locate t key = chain_locate key (get_or t.chains (binhash_hash key t.size) [])

  -- `binhash_find`, with the loop of `binhash_locate`
  unfoldable pub chain_find : List ℕ → List (Info V) → Option V
  chain_find key [] = none
  chain_find key (e ∷ chain) = if key_eq key e.key then some e.value else chain_find key chain

  unfoldable pub binhash_find : Binhash V → List ℕ → Option V
  binhash_find t key = chain_find key (get_or t.chains (binhash_hash key t.size) [])

  -- The loop of `binhash_delete`: the chain without the first entry for the key, if it has one.
  unfoldable pub chain_delete : List ℕ → List (Info V) → Option (List (Info V))
  chain_delete key [] = none
  chain_delete key (e ∷ chain) =
      let rest = chain_delete key chain in
      if key_eq key e.key
      then some chain
      else elim rest [ none ↦ none | some less ↦ some (e ∷ less) ]

  -- `binhash_delete`
  unfoldable pub binhash_delete : Binhash V → List ℕ → Outcome (Binhash V)
  binhash_delete t key =
      let h = binhash_hash key t.size in
      elim (chain_delete key (get_or t.chains h [])) [
        | none ↦ abort (panic "binhash_delete: unknown_key: \"%s\"")
        | some chain ↦ ok (record t { used = t.used - 1; chains = set t.chains h chain })
      ]

  -- `binhash_list`, in the order of the array
  unfoldable pub binhash_list : List (List (Info V)) → List (Info V)
  binhash_list [] = []
  binhash_list (chain ∷ chains) = chain ++ binhash_list chains
