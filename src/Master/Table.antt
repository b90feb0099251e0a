-- ===== src/Master/Table.antt =====
-- The table of child processes that src/master/master_spawn.c keeps in `master_child_table`, behind
-- what its users rely on. A MASTER_PROC is reached only through its entry, so the entry holds it;
-- `store` is a write through the pointer that `find` returned.
use nowra.Base.{ℕ, ◌+◌, ◌≡◌, Option, some, List, ℤ, pos, Outcome, Returns, weight}

-- MASTER_STAT_TAKEN and MASTER_STAT_AVAIL of src/master/master_proto.h
abbrev pub stat_taken : ℤ
stat_taken = pos 0

abbrev pub stat_avail : ℤ
stat_avail = pos 1

-- `MASTER_PROC`: `pid`, `avail`, `use_count`, and `serv` as the address of the service.
pub record Proc : Type 0 where
  pub pid : ℕ
  pub avail : ℤ
  pub serv : ℕ
  pub use_count : ℕ

-- The operations of src/util/binhash.h on keys that are process ids, and their laws on the weight of
-- all entries. A child is entered under its own process id.
pub record ChildTable : Type 1 where
  pub T : Type 0
  pub IsValid : T → Type 0
  pub entries : T → List Proc
  pub create : T
  pub enter : T → ℕ → Proc → T
  pub find : T → ℕ → Option Proc
  pub store : T → ℕ → Proc → T
  pub delete : T → ℕ → Outcome T
  pub create-IsValid : IsValid create
  pub create-weight : (w : Proc → ℕ) → weight w (entries create) ≡ 0
  pub enter-IsValid : (t : T) (k : ℕ) (v : Proc) → IsValid t → v.pid ≡ k → IsValid (enter t k v)
  pub enter-weight :
      (t : T) (k : ℕ) (v : Proc) (w : Proc → ℕ)
      → IsValid t
      → weight w (entries (enter t k v)) ≡ w v + weight w (entries t)
  pub find-enter : (t : T) (k : ℕ) (v : Proc) → IsValid t → find (enter t k v) k ≡ some v
  pub store-IsValid : (t : T) (k : ℕ) (v : Proc) → IsValid t → v.pid ≡ k → IsValid (store t k v)
  pub find-pid : (t : T) (k : ℕ) (v : Proc) → IsValid t → find t k ≡ some v → v.pid ≡ k
  pub store-weight :
      (t : T) (k : ℕ) (v v' : Proc) (w : Proc → ℕ)
      → IsValid t
      → find t k ≡ some v
      → weight w (entries (store t k v')) + w v ≡ weight w (entries t) + w v'
  pub find-store :
      (t : T) (k : ℕ) (v v' : Proc)
      → IsValid t
      → find t k ≡ some v
      → find (store t k v') k ≡ some v'
  pub delete-removes :
      (t : T) (k : ℕ) (v : Proc)
      → IsValid t
      → find t k ≡ some v
      → Returns
          (delete t k)
          λ t'. IsValid t' × ((w : Proc → ℕ) → weight w (entries t') + w v ≡ weight w (entries t))
