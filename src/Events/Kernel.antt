-- ===== src/Events/Kernel.antt =====
-- The kernel's side of src/util/events.c: the interest list of an epoll instance, as epoll_ctl(2)
-- describes it.
use nowra.Base.{ℕ, ◌≡◌, ◌≢◌, Bool, true, false, Option, none, some}

-- EPOLLIN and EPOLLOUT of `struct epoll_event`
pub record Interest : Type 0 where
  pub epollin : Bool
  pub epollout : Bool

-- EPOLL_CTL_ADD, EPOLL_CTL_MOD, EPOLL_CTL_DEL
pub data CtlOp : Type 0 where
  ctl_add ctl_mod ctl_del : CtlOp

-- `epoll_ctl` on the descriptor of one epoll instance: whether it returned 0, and the kernel after.
pub record Epoll : Type 1 where
  pub K : Type 0
  pub ctl : K → CtlOp → ℕ → Interest → Bool × K
  -- what the interest list holds for a descriptor
  pub interest : K → ℕ → Option Interest
  -- a refused call changes nothing
  pub ctl-refused :
      (k : K) (op : CtlOp) (fd : ℕ) (e : Interest) (j : ℕ)
      → (ctl k op fd e).0 ≡ false
      → interest (ctl k op fd e).1 j ≡ interest k j
  -- an accepted call writes the entry of its descriptor
  pub ctl-add :
      (k : K) (fd : ℕ) (e : Interest)
      → (ctl k ctl_add fd e).0 ≡ true
      → interest (ctl k ctl_add fd e).1 fd ≡ some e
  pub ctl-mod :
      (k : K) (fd : ℕ) (e : Interest)
      → (ctl k ctl_mod fd e).0 ≡ true
      → interest (ctl k ctl_mod fd e).1 fd ≡ some e
  pub ctl-del :
      (k : K) (fd : ℕ) (e : Interest)
      → (ctl k ctl_del fd e).0 ≡ true
      → interest (ctl k ctl_del fd e).1 fd ≡ none
  -- and no other
  pub ctl-other :
      (k : K) (op : CtlOp) (fd : ℕ) (e : Interest) (j : ℕ)
      → fd ≢ j
      → interest (ctl k op fd e).1 j ≡ interest k j
  -- ENOENT
  pub mod-absent :
      (k : K) (fd : ℕ) (e : Interest) → interest k fd ≡ none → (ctl k ctl_mod fd e).0 ≡ false
