-- ===== src/Tests/Children.antt =====
-- A child table of src/util/binhash.c with one child, and the operations on it: keys are single
-- numbers, the memory of an `int`.
use nowra.Base.{
  length, ◌<◌, ℕ, ◌≡◌, ◌↔◌, ◌⊎◌, refl, none, some, List, [], ◌∷◌, abort, panic, Returns,
}
use nowra.Master.Table.{Proc, ChildTable, stat_avail}
use nowra.Binhash.{
  Binhash, binhash_hash, binhash_create, binhash_enter, enter_copied, binhash_find, binhash_delete,
}
use nowra.Binhash.Chain.{has_key}
use nowra.Binhash.Buckets.{total}
use nowra.Binhash.Table.{Deleted, binhash_enter-OneMore, binhash_find-none, binhash_delete-Deleted}
use nowra.Binhash.Growth.{OneMore}
use nowra.Binhash.Children.{IsChildren, children, enter-IsChildren, create-IsChildren}

abbrev pub key_of : ℕ → List ℕ
key_of n = n ∷ []

pub distinct : (a b : ℕ) → key_of a ≡ key_of b → a ≡ b
distinct a b e = cc

abbrev pub hashed : ChildTable
hashed = children key_of distinct

abbrev pub child : Proc
child = record { pid = 100; avail = stat_avail; serv = 0; use_count = 0 }

abbrev pub family : Binhash Proc
family = enter_copied (binhash_create 0) (key_of 100) child

pub family-IsChildren : IsChildren key_of distinct family
family-IsChildren =
    enter-IsChildren key_of distinct (binhash_create 0) 100 child
      (create-IsChildren key_of distinct) refl

-- "smtpserver", whose hash overflows 28 bits
binhash_hash_smtpserver :
    binhash_hash (115 ∷ 109 ∷ 116 ∷ 112 ∷ 115 ∷ 101 ∷ 114 ∷ 118 ∷ 101 ∷ 114 ∷ []) 4096 ≡ 2162
unfolding binhash_hash
binhash_hash_smtpserver = refl

binhash_enter_example :
    ((length (key_of 101) ≡ 0)
      × (binhash_enter family (key_of 101) child ≡ abort (panic "mymalloc: requested length")))
    ⊎ ((0 < length (key_of 101))
        × Returns (binhash_enter family (key_of 101) child) (λ t'.
          OneMore (record { key = key_of 101; value = child }) family t'
          × (binhash_find t' (key_of 101) ≡ some child)))
binhash_enter_example = binhash_enter-OneMore family (key_of 101) child family-IsChildren.0

binhash_find_example :
    (binhash_find family (key_of 101) ≡ none) ↔ (total (has_key (key_of 101)) family.chains ≡ 0)
binhash_find_example = binhash_find-none family (key_of 101) family-IsChildren.0

binhash_delete_example :
    Returns (binhash_delete family (key_of 100)) (Deleted family (key_of 100))
    ⊎ ((binhash_find family (key_of 100) ≡ none)
        × (binhash_delete family (key_of 100)
            ≡ abort (panic "binhash_delete: unknown_key: \"%s\"")))
binhash_delete_example = binhash_delete-Deleted family (key_of 100) family-IsChildren.0
