-- ===== src/Binhash/Chain.antt =====
-- One chain of a hash table of src/util/binhash.c: what the loops over it find and take out.
use nowra.Base.{
  ℕ, ◌+◌, ◌≡◌, refl, ap, true, false, none, some, List, [], ◌∷◌, arith, ◌==◌, ==_refl, Bool-cases,
  inl, inr, weight, All, to_nat,
}
use nowra.Binhash.{Info, key_eq, chain_find, chain_locate, chain_delete}

pub key_eq_refl : (k : List ℕ) → key_eq k k ≡ true
unfolding key_eq
key_eq_refl [] = refl
key_eq_refl (b ∷ k) = rw (==_refl, key_eq_refl k)

pub key_eq→eq : (k j : List ℕ) → key_eq k j ≡ true → k ≡ j
unfolding key_eq
key_eq→eq [] [] h = refl
key_eq→eq [] (b ∷ j) h = cc
key_eq→eq (a ∷ k) [] h = cc
key_eq→eq (a ∷ k) (b ∷ j) h = elim (Bool-cases (a == b)) [
  | inl same ↦ let e : a ≡ b = ground arith in let f = key_eq→eq k j (rw same at h) in cc
  | inr other ↦ let h' : false ≡ true = rw other at h in cc
]

module _ {V : Type 0} where
  -- How many entries a chain has for a key.
  abbrev pub has_key : List ℕ → Info V → ℕ
  has_key k e = to_nat (key_eq k e.key)

  -- The loop of `binhash_find` ends with nothing exactly if the chain has no entry for the key.
  pub chain_find-none :
      (k : List ℕ) (c : List (Info V)) → chain_find k c ≡ none → weight (has_key k) c ≡ 0
  unfolding chain_find
  chain_find-none k [] h = refl
  chain_find-none k (e ∷ c) h = elim (Bool-cases (key_eq k e.key)) [
    | inl same ↦ let h' : some e.value ≡ none = rw same at h in cc
    | inr other ↦ let rest = chain_find-none k c (rw other at h) in rw other (omega arith)
  ]

  pub chain_find-absent :
      (k : List ℕ) (c : List (Info V)) → weight (has_key k) c ≡ 0 → chain_find k c ≡ none
  unfolding chain_find
  chain_find-absent k [] h = refl
  chain_find-absent k (e ∷ c) h = elim (Bool-cases (key_eq k e.key)) [
    | inl same ↦ let h' : 1 + weight (has_key k) c ≡ 0 = rw same at h in absurd (omega arith)
    | inr other ↦
        let h' : 0 + weight (has_key k) c ≡ 0 = rw other at h in
        rw other (chain_find-absent k c (omega arith))
  ]

  pub chain_find-locate :
      (k : List ℕ) (c : List (Info V)) (v : V)
      → chain_find k c ≡ some v
      → (e : Info V) × (chain_locate k c ≡ some e) × (e.key ≡ k) × (e.value ≡ v)
  unfolding chain_find chain_locate
  chain_find-locate k [] v h = cc
  chain_find-locate k (e ∷ c) v h = elim (Bool-cases (key_eq k e.key)) [
    | inl same ↦
        let h' : some e.value ≡ some v = rw same at h in
        let key = key_eq→eq k e.key same in rw same (e, refl, cc, cc)
    | inr other ↦ rw other (chain_find-locate k c v (rw other at h))
  ]

  -- What the loop of `binhash_delete` leaves of a chain that has the entry `e` first for the key.
  pub chain_delete-removes :
      (k : List ℕ) (c : List (Info V)) (e : Info V)
      → chain_locate k c ≡ some e
      → (c' : List (Info V)) × (chain_delete k c ≡ some c')
        × ((w : Info V → ℕ) → weight w c' + w e ≡ weight w c)
        × ((P : Info V → Type 0) → All P c → All P c')
  unfolding chain_delete chain_locate
  chain_delete-removes k [] e h = cc
  chain_delete-removes k (d ∷ c) e h = elim (Bool-cases (key_eq k d.key)) [
    | inl same ↦
        let h' : some d ≡ some e = rw same at h in
        let z : d ≡ e = cc in rw same (c, refl, λ w. (let z' = ap w z in omega arith), λ P a. a.1)
    | inr other ↦
        let (c', run, less, kept) = chain_delete-removes k c e (rw other at h) in
        rw (other, run) (d ∷ c', refl, λ w. omega (arith, less w), λ P a. (a.0, kept P a.1))
  ]

  pub chain_delete-absent :
      (k : List ℕ) (c : List (Info V)) → chain_find k c ≡ none → chain_delete k c ≡ none
  unfolding chain_delete chain_find
  chain_delete-absent k [] h = refl
  chain_delete-absent k (d ∷ c) h = elim (Bool-cases (key_eq k d.key)) [
    | inl same ↦ let h' : some d.value ≡ none = rw same at h in cc
    | inr other ↦ rw (other, chain_delete-absent k c (rw other at h))
  ]
