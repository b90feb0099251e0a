-- ===== src/Binhash/Write.antt =====
-- A write to the value of an entry, through the pointer that binhash_find of src/util/binhash.c gives.
use nowra.Base.{
  ℕ, ◌+◌, ◌≤◌, ◌≡◌, refl, sym, ap, ◌∙◌, some, List, [], ◌∷◌, arith, ==_refl, if◌then◌else◌,
  Bool-cases, inl, inr, weight, All, length-set, get_or, get_or-set, set,
}
use nowra.Master.Table.{Proc}
use nowra.Binhash.{Info, Binhash, binhash_hash, key_eq, binhash_find, binhash_list, chain_find}
use nowra.Binhash.Chain.{key_eq→eq}
use nowra.Binhash.Buckets.{total, total-set, weight-binhash_list}
use nowra.Binhash.Growth.{IsValid, chain_of, chain_room, IsHashed-set}

-- A write through the pointer that `binhash_find` returned.
unfoldable pub write_first : List ℕ → Proc → List (Info Proc) → List (Info Proc)
write_first k p [] = []
write_first k p (e ∷ c) =
    if key_eq k e.key then record e { value = p } ∷ c else e ∷ write_first k p c

unfoldable pub write_found : Binhash Proc → List ℕ → Proc → Binhash Proc
write_found t k p =
    let h = binhash_hash k t.size in
    record t { chains = set t.chains h (write_first k p (get_or t.chains h [])) }

pub write_first-weight :
    (k : List ℕ) (p old : Proc) (c : List (Info Proc)) (w : Info Proc → ℕ)
    → chain_find k c ≡ some old
    → weight w (write_first k p c) + w (record { key = k; value = old })
      ≡ weight w c + w (record { key = k; value = p })
unfolding write_first chain_find
write_first-weight k p old [] w h = cc
write_first-weight k p old (e ∷ c) w h = elim (Bool-cases (key_eq k e.key)) [
  | inl same ↦
      let h' : some e.value ≡ some old = rw same at h in
      let key = key_eq→eq k e.key same in
      let z : record { key = k; value = old } ≡ e = cc in
      let z' : record { key = k; value = p } ≡ record e { value = p } = cc in
      let u = ap w z in let u' = ap w z' in rw same (omega arith)
  | inr other ↦ let rest = write_first-weight k p old c w (rw other at h) in rw other (omega arith)
]

-- A write of a weightless entry adds no weight.
pub write_first-le :
    (k : List ℕ) (p : Proc) (c : List (Info Proc)) (w : Info Proc → ℕ)
    → w (record { key = k; value = p }) ≡ 0
    → weight w (write_first k p c) ≤ weight w c
unfolding write_first
write_first-le k p [] w z = omega arith
write_first-le k p (e ∷ c) w z = elim (Bool-cases (key_eq k e.key)) [
  | inl same ↦
      let key = key_eq→eq k e.key same in
      let at_e : record { key = k; value = p } ≡ record e { value = p } = cc in
      let u = ap w at_e in rw same (omega arith)
  | inr other ↦ let rest = write_first-le k p c w z in rw other (omega arith)
]

pub find-write_first :
    (k : List ℕ) (p old : Proc) (c : List (Info Proc))
    → chain_find k c ≡ some old
    → chain_find k (write_first k p c) ≡ some p
unfolding write_first chain_find
find-write_first k p old [] h = cc
find-write_first k p old (e ∷ c) h = elim (Bool-cases (key_eq k e.key)) [
  | inl same ↦ rw same (rw same)
  | inr other ↦ rw other (rw other (find-write_first k p old c (rw other at h)))
]

pub All-write_first :
    (P : Info Proc → Type 0) (k : List ℕ) (p : Proc) (c : List (Info Proc))
    → ((e : Info Proc) → e.key ≡ k → P (record e { value = p }))
    → All P c
    → All P (write_first k p c)
unfolding write_first
All-write_first P k p [] f a = tt
All-write_first P k p (e ∷ c) f a = elim (Bool-cases (key_eq k e.key)) [
  | inl same ↦ rw same (f e (sym (key_eq→eq k e.key same)), a.1)
  | inr other ↦ rw other (a.0, All-write_first P k p c f a.1)
]

abbrev pub values : List (Info Proc) → List Proc
values [] = []
values (e ∷ l) = e.value ∷ values l

pub weight-values :
    (w : Proc → ℕ) (l : List (Info Proc)) → weight w (values l) ≡ weight (λ e. w e.value) l
weight-values w [] = refl
weight-values w (e ∷ l) = omega (arith, weight-values w l)

pub weight-entries :
    (w : Proc → ℕ) (t : Binhash Proc)
    → weight w (values (binhash_list t.chains)) ≡ total (λ e. w e.value) t.chains
weight-entries w t =
    weight-values w (binhash_list t.chains) ∙ weight-binhash_list (λ e. w e.value) t.chains

pub write_first-count :
    (k : List ℕ) (p : Proc) (c : List (Info Proc))
    → weight (λ e. 1) (write_first k p c) ≡ weight (λ e. 1) c
unfolding write_first
write_first-count k p [] = refl
write_first-count k p (e ∷ c) = elim (Bool-cases (key_eq k e.key)) [
  | inl same ↦ rw same
  | inr other ↦ rw other (omega (arith, write_first-count k p c))
]

pub write_found-IsValid :
    (t : Binhash Proc) (k : List ℕ) (p : Proc) → IsValid t → IsValid (write_found t k p)
unfolding write_found
write_found-IsValid t k p v =
    let h = binhash_hash k t.size in
    let room = chain_room t k v in
    record {
      some_size = v.some_size;
      sized = length-set t.chains _ _ ∙ v.sized;
      counted = omega (
        arith,
        v.counted,
        total-set (λ e. 1) t.chains h (write_first k p (chain_of t k)) room,
        write_first-count k p (chain_of t k),
      );
      hashed = IsHashed-set t.size t.chains h _ v.hashed room (
          All-write_first (λ e. binhash_hash e.key t.size ≡ h) k p (chain_of t k)
            (λ e same. ap (λ l. binhash_hash l t.size) same) (v.hashed h));
    }

pub write_found-miskeyed :
    (t : Binhash Proc) (k : List ℕ) (p : Proc) (w : Info Proc → ℕ)
    → IsValid t
    → total w t.chains ≡ 0
    → w (record { key = k; value = p }) ≡ 0
    → total w (write_found t k p).chains ≡ 0
unfolding write_found
write_found-miskeyed t k p w v h z = omega (
  arith,
  write_first-le k p (chain_of t k) w z,
  total-set w t.chains (binhash_hash k t.size) (write_first k p (chain_of t k)) (chain_room t k v),
)

pub write_found-total :
    (t : Binhash Proc) (k : List ℕ) (p old : Proc) (w : Info Proc → ℕ)
    → IsValid t
    → binhash_find t k ≡ some old
    → total w (write_found t k p).chains + w (record { key = k; value = old })
      ≡ total w t.chains + w (record { key = k; value = p })
unfolding write_found binhash_find
write_found-total t k p old w v h = omega (
  arith,
  write_first-weight k p old (chain_of t k) w h,
  total-set w t.chains (binhash_hash k t.size) (write_first k p (chain_of t k)) (chain_room t k v),
)

pub find-write_found :
    (t : Binhash Proc) (k : List ℕ) (p old : Proc)
    → IsValid t
    → binhash_find t k ≡ some old
    → binhash_find (write_found t k p) k ≡ some p
unfolding write_found binhash_find
find-write_found t k p old v h =
    rw
      (
        get_or-set t.chains (binhash_hash k t.size) (binhash_hash k t.size)
            (write_first k p (chain_of t k)) [] (chain_room t k v),
        ==_refl,
      )
      (find-write_first k p old (chain_of t k) h)
