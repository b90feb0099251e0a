-- ===== src/Binhash/Growth.antt =====
-- src/util/binhash.c: the invariant of a table, and that linking an entry and growing the table keep it.
use native.Mathlib.Nat.{mod-lt}
use nowra.Base.{
  ℕ, zero, suc, ◌+◌, ◌*◌, ◌%◌, ◌<◌, ◌≡◌, refl, sym, ◌∙◌, List, [], ◌∷◌, arith, ◌==◌, if◌then◌else◌,
  Bool-cases, inl, inr, weight, All, length, length-set, length-replicate, get_or, get_or-set, set,
  replicate,
}
use nowra.Binhash.{
  Info, Binhash, binhash_hash, binhash_link, binhash_size, link_chain, link_chains, binhash_grow,
}
use nowra.Binhash.Buckets.{Chains, total, total-set, total-replicate, IsHashed}

pub hash_below : (k : List ℕ) (size : ℕ) → 0 < size → binhash_hash k size < size
unfolding binhash_hash
hash_below k size h = mod-lt _ h

pub get_or-replicate : {A : Type 0} (n i : ℕ) (a : A) → get_or (replicate n a) i a ≡ a
get_or-replicate zero i a = refl
get_or-replicate (suc n) zero a = refl
get_or-replicate (suc n) (suc i) a = get_or-replicate n i a

pub odd_size : (n : ℕ) → 0 < (if n % 2 == 0 then n + 1 else n)
odd_size n = ground arith

module _ {V : Type 0} where
  -- The array has its size and every entry stands where its key hashes to; `used` counts the entries.
  pub record IsValid (t : Binhash V) : Type 0 where
    pub some_size : 0 < t.size
    pub sized : length t.chains ≡ t.size
    pub counted : t.used ≡ total (λ e. 1) t.chains
    pub hashed : IsHashed t.size t.chains

  -- The chain that a key hashes to.
  abbrev pub chain_of : Binhash V → List ℕ → List (Info V)
  chain_of t k = get_or t.chains (binhash_hash k t.size) []

  pub chain_room :
      (t : Binhash V) (k : List ℕ) → IsValid t → binhash_hash k t.size < length t.chains
  chain_room t k v = omega (arith, v.sized, hash_below k t.size v.some_size)

  pub IsHashed-set :
      (size : ℕ) (d : Chains V) (i : ℕ) (c : List (Info V))
      → IsHashed size d
      → i < length d
      → All (λ e. binhash_hash e.key size ≡ i) c
      → IsHashed size (set d i c)
  IsHashed-set size d i c h room hc j =
      rw (get_or-set d i j c [] room) (elim (Bool-cases (i == j)) [
        | inl same ↦ let e : i ≡ j = ground arith in rw (same, ← e) hc
        | inr other ↦ rw other (h j)
      ])

  -- The table with one more entry.
  abbrev pub OneMore : Info V → Binhash V → Binhash V → Type 0
  OneMore e t t' = IsValid t' × ((w : Info V → ℕ) → total w t'.chains ≡ w e + total w t.chains)

  pub link-OneMore : (e : Info V) (t : Binhash V) → IsValid t → OneMore e t (binhash_link e t)
  unfolding binhash_link
  link-OneMore e t v =
      let room = chain_room t e.key v in
      let more : (w : Info V → ℕ)
          → total w (set t.chains (binhash_hash e.key t.size) (e ∷ chain_of t e.key))
            ≡ w e + total w t.chains =
        λ w.
          omega
            (arith, total-set w t.chains (binhash_hash e.key t.size) (e ∷ chain_of t e.key) room) in
      (
        record {
          some_size = v.some_size;
          sized = length-set t.chains _ _ ∙ v.sized;
          counted = omega (arith, v.counted, more (λ x. 1));
          hashed =
              IsHashed-set t.size t.chains _ _ v.hashed room
                (refl, v.hashed (binhash_hash e.key t.size));
        },
        more,
      )

  -- Two tables with the same entries, as often.
  abbrev pub SameEntries : Chains V → Binhash V → Binhash V → Type 0
  SameEntries d t t' =
      IsValid t' × ((w : Info V → ℕ) → total w t'.chains ≡ total w d + total w t.chains)

  pub link_chain-adds :
      (c : List (Info V)) (t : Binhash V)
      → IsValid t
      → IsValid (link_chain c t)
        × ((w : Info V → ℕ) → total w (link_chain c t).chains ≡ weight w c + total w t.chains)
  unfolding link_chain
  link_chain-adds [] t v = (v, λ w. omega arith)
  link_chain-adds (e ∷ c) t v =
      let (v', more) = link-OneMore e t v in
      let (v'', rest) = link_chain-adds c (binhash_link e t) v' in
      (v'', λ w. omega (arith, rest w, more w))

  pub link_chains-adds :
      (d : Chains V) (t : Binhash V) → IsValid t → SameEntries d t (link_chains d t)
  unfolding link_chains
  link_chains-adds [] t v = (v, λ w. omega arith)
  link_chains-adds (c ∷ d) t v =
      let (v', more) = link_chain-adds c t v in
      let (v'', rest) = link_chains-adds d (link_chain c t) v' in
      (v'', λ w. omega (arith, rest w, more w))

  pub size-IsValid :
      (n : ℕ)
      → IsValid (binhash_size {V = V} n) × ((w : Info V → ℕ) → total w (binhash_size n).chains ≡ 0)
  unfolding binhash_size
  size-IsValid n =
      let odd = if n % 2 == 0 then n + 1 else n in
      (
        record {
          some_size = odd_size n;
          sized = length-replicate odd [];
          counted = sym (total-replicate (λ e. 1) odd);
          hashed = λ i. rw (get_or-replicate) tt;
        },
        λ w. total-replicate w odd,
      )

  pub grow-SameEntries :
      (t : Binhash V)
      → IsValid t
      → IsValid (binhash_grow t)
        × ((w : Info V → ℕ) → total w (binhash_grow t).chains ≡ total w t.chains)
  unfolding binhash_grow
  grow-SameEntries t v =
      let (v0, none_yet) = size-IsValid (2 * t.size) in
      let (v', more) = link_chains-adds t.chains (binhash_size (2 * t.size)) v0 in
      (v', λ w. omega (arith, more w, none_yet w))
