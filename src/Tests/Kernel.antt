-- ===== src/Tests/Kernel.antt =====
-- An epoll instance as a function from descriptors to interests, which refuses everything when it is
-- told to: the parameter of src/util/events.c has an instance.
use nowra.Base.{
  ℕ, ◌≡◌, ◌≢◌, refl, Bool, true, false, not, ◌&&◌, Option, none, some, arith, ◌==◌, ==_refl,
  if◌then◌else◌, Bool-cases, inl, inr, is_some,
}
use nowra.Events.Kernel.{Interest, CtlOp, ctl_add, ctl_mod, ctl_del, Epoll}

abbrev pub Watched : Type 0
Watched = ℕ → Option Interest

-- EEXIST for ADD, ENOENT for the others
abbrev pub accepts : CtlOp → Bool → Bool
accepts ctl_add present = not present
accepts ctl_mod present = present
accepts ctl_del present = present

abbrev pub entry : CtlOp → Interest → Option Interest
entry ctl_add e = some e
entry ctl_mod e = some e
entry ctl_del e = none

abbrev pub overwrite : Bool → ℕ → Option Interest → Watched → Watched
overwrite b fd e w j = if b && fd == j then e else w j

-- Whether every call is refused, and the interest list.
abbrev pub State : Type 0
State = Bool × Watched

abbrev pub allowed : State → CtlOp → ℕ → Bool
allowed k op fd = not k.0 && accepts op (is_some (k.1 fd))

abbrev pub ctl : State → CtlOp → ℕ → Interest → Bool × State
ctl k op fd e = (allowed k op fd, (k.0, overwrite (allowed k op fd) fd (entry op e) k.1))

pub written :
    (k : State) (op : CtlOp) (fd : ℕ) (e : Interest)
    → allowed k op fd ≡ true
    → (ctl k op fd e).1.1 fd ≡ entry op e
written k op fd e h = rw (h, ==_refl)

pub other :
    (k : State) (op : CtlOp) (fd : ℕ) (e : Interest) (j : ℕ)
    → fd ≢ j
    → (ctl k op fd e).1.1 j ≡ k.1 j
other k op fd e j ne = elim (Bool-cases (fd == j)) [
  | inl same ↦ absurd (ne (ground arith))
  | inr differ ↦
      rw differ (elim (Bool-cases (allowed k op fd)) [ inl can ↦ rw can | inr cannot ↦ rw cannot ])
]

and_false : (b : Bool) → (b && false) ≡ false
and_false true = refl
and_false false = refl

pub missing : (k : State) (fd : ℕ) (e : Interest) → k.1 fd ≡ none → (ctl k ctl_mod fd e).0 ≡ false
missing k fd e h = rw h (and_false (not k.0))

abbrev pub watch : Epoll
watch = record {
  K = State;
  ctl = ctl;
  interest = λ k. k.1;
  ctl-refused = λ k op fd e j h. rw h;
  ctl-add = λ k fd e h. written k ctl_add fd e h;
  ctl-mod = λ k fd e h. written k ctl_mod fd e h;
  ctl-del = λ k fd e h. written k ctl_del fd e h;
  ctl-other = λ k op fd e j ne. other k op fd e j ne;
  mod-absent = missing;
}
