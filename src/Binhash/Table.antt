-- ===== src/Binhash/Table.antt =====
-- The operations of src/util/binhash.c on a whole table: the invariant, what it holds after each, and
-- what is found.
use nowra.Base.{
  length, ◌<◌, false, ℕ, ◌+◌, ◌-◌, ◌≡◌, ◌≢◌, ◌⊎◌, ◌↔◌, ==_refl, refl, sym, ap, ◌∙◌, none, some,
  List, [], ◌∷◌, arith, leb, ltb, if◌then◌else◌, Bool-cases, Option-cases, inl, inr, weight, All,
  length-set, get_or, get_or-set, set, abort, panic, Returns,
}
use nowra.Binhash.{
  Info, Binhash, binhash_hash, key_eq, binhash_link, binhash_create, binhash_grow, binhash_enter,
  enter_copied, binhash_find, binhash_delete, chain_find, chain_locate,
}
use nowra.Binhash.Chain.{
  has_key, key_eq_refl, key_eq→eq, chain_find-none, chain_find-absent, chain_find-locate,
  chain_delete-removes, chain_delete-absent,
}
use nowra.Binhash.Buckets.{total, total-set, total_only}
use nowra.Binhash.Growth.{
  IsValid, chain_of, chain_room, IsHashed-set, OneMore, link-OneMore, size-IsValid,
  grow-SameEntries,
}

module _ {V : Type 0} where
  -- A new table is valid and has no entry.
  pub binhash_create-IsValid :
      (size : ℕ)
      → IsValid (binhash_create {V = V} size)
        × ((w : Info V → ℕ) → total w (binhash_create size).chains ≡ 0)
  unfolding binhash_create
  binhash_create-IsValid size = size-IsValid (if ltb size 13 then 13 else size)

  enter-OneMore :
      (t : Binhash V) (k : List ℕ) (x : V)
      → IsValid t
      → OneMore (record { key = k; value = x }) t (enter_copied t k x)
  unfolding enter_copied
  enter-OneMore t k x v = elim (Bool-cases (leb t.size t.used)) [
    | inl full ↦
        let (v0, same) = grow-SameEntries t v in
        let (v', more) = link-OneMore (record { key = k; value = x }) (binhash_grow t) v0 in
        rw full (v', λ w. omega (arith, more w, same w))
    | inr fits ↦ rw fits (link-OneMore (record { key = k; value = x }) t v)
  ]

  find_linked :
      (e : Info V) (t : Binhash V)
      → IsValid t
      → binhash_find (binhash_link e t) e.key ≡ some e.value
  unfolding binhash_find binhash_link chain_find
  find_linked e t v = rw (
    get_or-set t.chains (binhash_hash e.key t.size) (binhash_hash e.key t.size)
        (e ∷ chain_of t e.key) [] (chain_room t e.key v),
    ==_refl,
    key_eq_refl,
  )

  -- What `binhash_enter` does after the copy.
  pub enter_copied-OneMore :
      (t : Binhash V) (k : List ℕ) (x : V)
      → IsValid t
      → OneMore (record { key = k; value = x }) t (enter_copied t k x)
        × (binhash_find (enter_copied t k x) k ≡ some x)
  unfolding enter_copied
  enter_copied-OneMore t k x v = (
    enter-OneMore t k x v,
    (elim (Bool-cases (leb t.size t.used)) [
      | inl full ↦
          rw full
            (find_linked (record { key = k; value = x }) (binhash_grow t) (grow-SameEntries t v).0)
      | inr fits ↦ rw fits (find_linked (record { key = k; value = x }) t v)
    ]),
  )

  -- `binhash_enter` of a key without a byte panics. Of any other key, whether or not the table has to grow first, it
  -- leaves a valid table with the entries that were there and the new one, and `binhash_find` for the key then finds the
  -- new value.
  pub binhash_enter-OneMore :
      (t : Binhash V) (k : List ℕ) (x : V)
      → IsValid t
      → ((length k ≡ 0) × (binhash_enter t k x ≡ abort (panic "mymalloc: requested length")))
        ⊎ ((0 < length k)
            × Returns
                (binhash_enter t k x)
                (λ t'. OneMore (record { key = k; value = x }) t t' × (binhash_find t' k ≡ some x)))
  unfolding binhash_enter
  binhash_enter-OneMore t [] x v = inl (refl, refl)
  binhash_enter-OneMore t (c ∷ k) x v =
      let some_byte : ltb (length (c ∷ k)) 1 ≡ false = ground arith in
      inr (
        omega arith,
        rw some_byte (enter_copied t (c ∷ k) x, refl, enter_copied-OneMore t (c ∷ k) x v),
      )

  -- Entries for a key are in its chain only.
  key_elsewhere :
      (t : Binhash V) (k : List ℕ) (j : ℕ) (c : List (Info V))
      → All (λ e. binhash_hash e.key t.size ≡ j) c
      → j ≢ binhash_hash k t.size
      → weight (has_key k) c ≡ 0
  key_elsewhere t k j [] a ne = refl
  key_elsewhere t k j (e ∷ c) a ne = elim (Bool-cases (key_eq k e.key)) [
    | inl same ↦
        absurd (ne (sym a.0 ∙ sym (ap (λ l. binhash_hash l t.size) (key_eq→eq k e.key same))))
    | inr other ↦ let rest = key_elsewhere t k j c a.1 ne in rw other (omega arith)
  ]

  total-has_key :
      (t : Binhash V) (k : List ℕ)
      → IsValid t
      → total (has_key k) t.chains ≡ weight (has_key k) (chain_of t k)
  total-has_key t k v =
      total_only (has_key k) t.chains (binhash_hash k t.size)
        λ j ne. key_elsewhere t k j (get_or t.chains j []) (v.hashed j) ne

  -- `binhash_find` in a valid table finds nothing if and only if no entry of the whole table has the
  -- key.
  pub binhash_find-none :
      (t : Binhash V) (k : List ℕ)
      → IsValid t
      → (binhash_find t k ≡ none) ↔ (total (has_key k) t.chains ≡ 0)
  unfolding binhash_find
  binhash_find-none t k v = (
    λ h. total-has_key t k v ∙ chain_find-none k (chain_of t k) h,
    λ h. chain_find-absent k (chain_of t k) (sym (total-has_key t k v) ∙ h),
  )

  -- The table without an entry for the key that `binhash_find` had found.
  abbrev pub Deleted : Binhash V → List ℕ → Binhash V → Type 0
  Deleted t k t' =
      (e : Info V) × (binhash_find t k ≡ some e.value)
      × (e.key ≡ k)
      × IsValid t'
      × ((w : Info V → ℕ) → total w t'.chains + w e ≡ total w t.chains)

  delete_found :
      (t : Binhash V) (k : List ℕ) (e : Info V)
      → IsValid t
      → binhash_find t k ≡ some e.value
      → e.key ≡ k
      → chain_locate k (chain_of t k) ≡ some e
      → Returns (binhash_delete t k) (Deleted t k)
  unfolding binhash_delete
  delete_found t k e v found key at_e =
      let (c', run, less, kept) = chain_delete-removes k (chain_of t k) e at_e in
      let room = chain_room t k v in
      let gone : (w : Info V → ℕ)
          → total w (set t.chains (binhash_hash k t.size) c') + w e ≡ total w t.chains =
        λ w. omega (arith, less w, total-set w t.chains (binhash_hash k t.size) c' room) in
      rw (run, binhash_delete)
        (
          record t { used = t.used - 1; chains = set t.chains (binhash_hash k t.size) c' },
          refl,
          (
            e,
            found,
            key,
            record {
              some_size = v.some_size;
              sized = length-set t.chains _ _ ∙ v.sized;
              counted = omega (arith, v.counted, gone (λ x. 1));
              hashed = IsHashed-set t.size t.chains _ c' v.hashed room (
                  kept (λ x. binhash_hash x.key t.size ≡ binhash_hash k t.size)
                    (v.hashed (binhash_hash k t.size)));
            },
            gone,
          ),
        )

  delete_missing :
      (t : Binhash V) (k : List ℕ)
      → binhash_find t k ≡ none
      → binhash_delete t k ≡ abort (panic "binhash_delete: unknown_key: \"%s\"")
  unfolding binhash_delete binhash_find
  delete_missing t k h = rw (chain_delete-absent k (chain_of t k) h, binhash_delete)

  -- `binhash_delete` of a valid table takes out exactly one entry, which has the key and the value that
  -- `binhash_find` finds, and leaves the table valid; it panics if `binhash_find` finds nothing.
  pub binhash_delete-Deleted :
      (t : Binhash V) (k : List ℕ)
      → IsValid t
      → Returns (binhash_delete t k) (Deleted t k)
        ⊎ ((binhash_find t k ≡ none)
            × (binhash_delete t k ≡ abort (panic "binhash_delete: unknown_key: \"%s\"")))
  unfolding binhash_find
  binhash_delete-Deleted t k v = elim (Option-cases (binhash_find t k)) [
    | inl missing ↦ inr (missing, delete_missing t k missing)
    | inr (x, found) ↦
        let (e, at_e, key, value) = chain_find-locate k (chain_of t k) x found in
        inl (delete_found t k e v (found ∙ ap some (sym value)) key at_e)
  ]
