-- ===== src/Binhash/Children.antt =====
-- The table of children that src/master/master_spawn.c keeps is a hash table of src/util/binhash.c
-- whose keys are the bytes of the process ids, and it fills the interface that the process manager
-- takes. How an `int` lies in memory is a parameter, of which only matters that different
-- numbers have different bytes.
use nowra.Base.{
  ℕ, ◌+◌, ◌≤◌, ◌≡◌, sym, ap, ◌∙◌, none, some, List, arith, if◌then◌else◌, Bool-cases, inl, inr,
  weight, Returns,
}
use nowra.Master.Table.{Proc, ChildTable}
use nowra.Binhash.{
  Info, Binhash, key_eq, binhash_create, enter_copied, binhash_find, binhash_delete, binhash_list,
}
use nowra.Binhash.Chain.{key_eq→eq, key_eq_refl}
use nowra.Binhash.Buckets.{total}
use nowra.Binhash.Table.{binhash_create-IsValid, enter_copied-OneMore, binhash_delete-Deleted}
use nowra.Binhash.Growth.{IsValid}
use nowra.Binhash.Write.{
  write_found, values, weight-entries, write_found-IsValid, write_found-miskeyed, write_found-total,
  find-write_found,
}

module _ (key_of : ℕ → List ℕ) (distinct : (a b : ℕ) → key_of a ≡ key_of b → a ≡ b) where
  -- 1 for an entry that does not stand under the bytes of its own process id.
  abbrev pub miskeyed : Info Proc → ℕ
  miskeyed e = if key_eq e.key (key_of e.value.pid) then 0 else 1

  abbrev pub IsChildren : Binhash Proc → Type 0
  IsChildren t = IsValid t × (total miskeyed t.chains ≡ 0)

  own_key : (k : ℕ) (p : Proc) → p.pid ≡ k → miskeyed (record { key = key_of k; value = p }) ≡ 0
  own_key k p e = rw (e, key_eq_refl)

  -- What is found is an entry of the table.
  found_weight :
      (t : Binhash Proc) (k : List ℕ) (p : Proc) (w : Info Proc → ℕ)
      → IsValid t
      → binhash_find t k ≡ some p
      → w (record { key = k; value = p }) ≤ total w t.chains
  found_weight t k p w v h = elim (binhash_delete-Deleted t k v) [
    | inr (missing, run) ↦ let z : none ≡ some p = sym missing ∙ h in cc
    | inl (t', run, (e, found, key, v', less)) ↦
        let z : some e.value ≡ some p = sym found ∙ h in
        let same : e ≡ record { key = k; value = p } = cc in
        let u = ap w same in omega (arith, less w)
  ]

  pub found-pid :
      (t : Binhash Proc) (k : ℕ) (p : Proc)
      → IsChildren t
      → binhash_find t (key_of k) ≡ some p
      → p.pid ≡ k
  found-pid t k p (v, keyed) h =
      let le = found_weight t (key_of k) p miskeyed v h in
      elim (Bool-cases (key_eq (key_of k) (key_of p.pid))) [
        | inl same ↦ sym (distinct k p.pid (key_eq→eq (key_of k) (key_of p.pid) same))
        | inr other ↦ let le' : 1 ≤ total miskeyed t.chains = rw other at le in absurd (omega arith)
      ]

  pub delete-removes :
      (t : Binhash Proc) (k : ℕ) (p : Proc)
      → IsChildren t
      → binhash_find t (key_of k) ≡ some p
      → Returns (binhash_delete t (key_of k)) (λ t'.
        IsChildren t'
        × ((w : Proc → ℕ)
            → weight w (values (binhash_list t'.chains)) + w p
              ≡ weight w (values (binhash_list t.chains))))
  delete-removes t k p (v, keyed) h = elim (binhash_delete-Deleted t (key_of k) v) [
    | inr (missing, run) ↦ let z : none ≡ some p = sym missing ∙ h in cc
    | inl (t', run, (e, found, key, v', less)) ↦
        let z : some e.value ≡ some p = sym found ∙ h in
        let same : e.value ≡ p = cc in
        (
          t',
          run,
          (
            (v', omega (arith, less miskeyed)),
            λ w.
                (let u = ap w same in
                  omega (arith, weight-entries w t, weight-entries w t', less (λ x. w x.value))),
          ),
        )
  ]

  pub create-IsChildren : IsChildren (binhash_create 0)
  create-IsChildren = let (v, none_yet) = binhash_create-IsValid 0 in (v, none_yet miskeyed)

  pub create-weight :
      (w : Proc → ℕ) → weight w (values (binhash_list (binhash_create {V = Proc} 0).chains)) ≡ 0
  create-weight w =
      let (v, none_yet) = binhash_create-IsValid {V = Proc} 0 in
      weight-entries w (binhash_create 0) ∙ none_yet (λ e. w e.value)

  pub enter-IsChildren :
      (t : Binhash Proc) (k : ℕ) (p : Proc)
      → IsChildren t
      → p.pid ≡ k
      → IsChildren (enter_copied t (key_of k) p)
  enter-IsChildren t k p (v, keyed) e =
      let ((v', more), found) = enter_copied-OneMore t (key_of k) p v in
      (v', omega (arith, more miskeyed, own_key k p e))

  pub enter-weight :
      (t : Binhash Proc) (k : ℕ) (p : Proc) (w : Proc → ℕ)
      → IsChildren t
      → weight w (values (binhash_list (enter_copied t (key_of k) p).chains))
        ≡ w p + weight w (values (binhash_list t.chains))
  enter-weight t k p w (v, keyed) =
      let ((v', more), found) = enter_copied-OneMore t (key_of k) p v in
      omega (
        arith,
        weight-entries w t,
        weight-entries w (enter_copied t (key_of k) p),
        more (λ e. w e.value),
      )

  pub store-IsChildren :
      (t : Binhash Proc) (k : ℕ) (p : Proc)
      → IsChildren t
      → p.pid ≡ k
      → IsChildren (write_found t (key_of k) p)
  store-IsChildren t k p (v, keyed) e = (
    write_found-IsValid t (key_of k) p v,
    write_found-miskeyed t (key_of k) p miskeyed v keyed (own_key k p e),
  )

  pub store-weight :
      (t : Binhash Proc) (k : ℕ) (p p' : Proc) (w : Proc → ℕ)
      → IsChildren t
      → binhash_find t (key_of k) ≡ some p
      → weight w (values (binhash_list (write_found t (key_of k) p').chains)) + w p
        ≡ weight w (values (binhash_list t.chains)) + w p'
  store-weight t k p p' w (v, keyed) h = omega (
    arith,
    weight-entries w t,
    weight-entries w (write_found t (key_of k) p'),
    write_found-total t (key_of k) p' p (λ e. w e.value) v h,
  )

  -- The table of children of the process manager is a hash table of src/util/binhash.c.
  -- Its keys are the memory of an `int`, which has bytes, so that `binhash_enter` does not panic on them.
  abbrev pub children : ChildTable
  children = record {
    T = Binhash Proc;
    IsValid = IsChildren;
    entries = λ t. values (binhash_list t.chains);
    create = binhash_create 0;
    enter = λ t k p. enter_copied t (key_of k) p;
    find = λ t k. binhash_find t (key_of k);
    store = λ t k p. write_found t (key_of k) p;
    delete = λ t k. binhash_delete t (key_of k);
    create-IsValid = create-IsChildren;
    create-weight = create-weight;
    enter-IsValid = enter-IsChildren;
    enter-weight = enter-weight;
    find-enter = λ t k p h. (enter_copied-OneMore t (key_of k) p h.0).1;
    store-IsValid = store-IsChildren;
    find-pid = found-pid;
    store-weight = store-weight;
    find-store = λ t k v v' h e. find-write_found t (key_of k) v' v h.0 e;
    delete-removes = delete-removes;
  }
