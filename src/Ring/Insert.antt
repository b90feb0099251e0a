-- ===== src/Ring/Insert.antt =====
-- `ring_init`, `ring_append` and `ring_prepend` of src/util/ring.c as operations on the list of the
-- entries of a ring.
use nowra.Base.{
  ℕ, ◌≡◌, ◌≢◌, refl, sym, subst, ◌∙◌, false, List, [], ◌∷◌, ◌++◌, arith, ◌==◌, ==_refl,
  if◌then◌else◌, All,
}
use nowra.Ring.{Links, ring_init, ring_append, ring_prepend}

-- The way from `a` to `b` over the entries, forth by `succ` and back by `pred`.
abbrev pub Linked : Links → ℕ → List ℕ → ℕ → Type 0
Linked m a [] b = (m.succ a ≡ b) × (m.pred b ≡ a)
Linked m a (x ∷ xs) b = (m.succ a ≡ x) × (m.pred x ≡ a) × Linked m x xs b

abbrev pub IsFresh : ℕ → List ℕ → Type 0
IsFresh x = All (λ y. x ≢ y)

abbrev pub IsDistinct : List ℕ → Type 0
IsDistinct [] = Unit {0}
IsDistinct (x ∷ xs) = IsFresh x xs × IsDistinct xs

-- A ring with its head and the entries from `RING_SUCC(head)` on.
pub record IsRing (m : Links) (head : ℕ) (entries : List ℕ) : Type 0 where
  pub linked : Linked m head entries head
  pub distinct : IsDistinct (head ∷ entries)

-- The last entry before the end of the way.
last_entry :
    (P : ℕ → Type 0) (m : Links) (a : ℕ) (xs : List ℕ) (b : ℕ)
    → Linked m a xs b
    → P a
    → All P xs
    → P (m.pred b)
last_entry P m a [] b (s, p) h hs = subst P (sym p) h
last_entry P m a (x ∷ xs) b (s, p, rest) h hs = last_entry P m x xs b rest hs.0 hs.1

eqb_false : (a b : ℕ) → a ≢ b → (a == b) ≡ false
eqb_false a b h = ground arith

module _ (m : Links) (head entry : ℕ) (outside : head ≢ entry) where
  succ_after :
      (j : ℕ)
      → (ring_prepend head entry m).succ j
        ≡ (if m.pred head == j then entry else if entry == j then head else m.succ j)
  unfolding ring_prepend
  succ_after j = rw (eqb_false entry head (λ e. outside (sym e)))

  pred_after :
      (j : ℕ)
      → (ring_prepend head entry m).pred j
        ≡ (if head == j then entry else if entry == j then m.pred head else m.pred j)
  unfolding ring_prepend
  pred_after j = refl

  prepended :
      (a : ℕ) (xs : List ℕ)
      → Linked m a xs head
      → a ≢ entry
      → IsFresh entry xs
      → IsFresh head xs
      → IsDistinct (a ∷ xs)
      → Linked (ring_prepend head entry m) a (xs ++ entry ∷ []) head
  prepended a [] (s, p) ne fe fh d = (
    rw (succ_after a) (ground arith),
    rw (pred_after entry) (ground arith),
    (rw (succ_after entry) (ground arith), rw (pred_after head) (ground arith)),
  )
  prepended a (x ∷ xs) (s, p, rest) ne fe fh d =
      let last = last_entry (λ y. a ≢ y) m x xs head rest d.0.0 d.0.1 in
      (
        rw (succ_after a) (ground arith),
        rw (pred_after x) (ground (arith, fe.0, fh.0)),
        prepended x xs rest (λ e. fe.0 (sym e)) fe.1 fh.1 d.1,
      )

  -- What the writes of `ring_append` come to.
  succ_put_first :
      (j : ℕ)
      → (ring_append head entry m).succ j
        ≡ (if head == j then entry else if entry == j then m.succ head else m.succ j)
  unfolding ring_append
  succ_put_first j = refl

  pred_put_first :
      (j : ℕ)
      → (ring_append head entry m).pred j
        ≡ (if m.succ head == j then entry else if entry == j then head else m.pred j)
  unfolding ring_append
  pred_put_first j = rw (eqb_false entry head (λ e. outside (sym e)))

  -- Beyond the first entry nothing changes.
  kept_behind :
      (a : ℕ) (xs : List ℕ)
      → Linked m a xs head
      → head ≢ a
      → entry ≢ a
      → IsFresh head xs
      → IsFresh entry xs
      → IsFresh (m.succ head) xs
      → m.succ head ≢ head
      → Linked (ring_append head entry m) a xs head
  kept_behind a [] (s, p) ha ea hf ef sf ne =
      (rw (succ_put_first a) (ground arith), rw (pred_put_first head) (ground arith))
  kept_behind a (x ∷ xs) (s, p, rest) ha ea hf ef sf ne = (
    rw (succ_put_first a) (ground arith),
    rw (pred_put_first x) (ground (arith, ef.0, sf.0)),
    kept_behind x xs rest hf.0 ef.0 hf.1 ef.1 sf.1 ne,
  )

  put_first :
      (xs : List ℕ)
      → Linked m head xs head
      → IsFresh entry xs
      → IsDistinct (head ∷ xs)
      → Linked (ring_append head entry m) head (entry ∷ xs) head
  put_first [] (s, p) f d = (
    rw (succ_put_first head) (ground arith),
    rw (pred_put_first entry) (ground arith),
    (rw (succ_put_first entry) (ground arith), rw (pred_put_first head) (ground arith)),
  )
  put_first (x ∷ xs) (s, p, rest) f d = (
    rw (succ_put_first head) (ground arith),
    rw (pred_put_first entry) (ground (arith, f.0)),
    (
      rw (succ_put_first entry) (ground arith),
      rw (pred_put_first x) (ground arith),
      kept_behind x xs rest d.0.0 f.0 d.0.1 f.1 (subst (λ y. IsFresh y xs) (sym s) d.1.0)
          (λ e. d.0.0 (sym (sym s ∙ e))),
    ),
  )

All-append : (P : ℕ → Type 0) (xs : List ℕ) (y : ℕ) → All P xs → P y → All P (xs ++ y ∷ [])
All-append P [] y h hy = (hy, tt)
All-append P (x ∷ xs) y h hy = (h.0, All-append P xs y h.1 hy)

distinct_with : (xs : List ℕ) (y : ℕ) → IsDistinct xs → IsFresh y xs → IsDistinct (xs ++ y ∷ [])
distinct_with [] y d f = (tt, tt)
distinct_with (x ∷ xs) y d f =
    (All-append (λ z. x ≢ z) xs y d.0 (λ e. f.0 (sym e)), distinct_with xs y d.1 f.1)

-- An initialised ring has no entries, whatever the memory held.
pub ring_init-IsRing : (head : ℕ) (m : Links) → IsRing (ring_init head m) head []
unfolding ring_init
ring_init-IsRing head m = record { linked = (rw ==_refl, rw ==_refl); distinct = (tt, tt) }

-- `ring_prepend` of a ring and an entry that is not in it makes the entry the last of the ring, and keeps
-- the others in their order, linked both ways.
pub ring_prepend-IsRing :
    (m : Links) (head entry : ℕ) (entries : List ℕ)
    → IsRing m head entries
    → IsFresh entry (head ∷ entries)
    → IsRing (ring_prepend head entry m) head (entries ++ entry ∷ [])
ring_prepend-IsRing m head entry entries r f = record {
  linked =
      prepended m head entry (λ e. f.0 (sym e)) head entries r.linked (λ e. f.0 (sym e)) f.1
        r.distinct.0 r.distinct;
  distinct = distinct_with (head ∷ entries) entry r.distinct f;
}

-- `ring_append` of a ring and an entry that is not in it makes the entry the first of the ring, and keeps
-- the others in their order, linked both ways.
pub ring_append-IsRing :
    (m : Links) (head entry : ℕ) (entries : List ℕ)
    → IsRing m head entries
    → IsFresh entry (head ∷ entries)
    → IsRing (ring_append head entry m) head (entry ∷ entries)
ring_append-IsRing m head entry entries r f = record {
  linked = put_first m head entry (λ e. f.0 (sym e)) entries r.linked f.1 r.distinct;
  distinct = (((λ e. f.0 (sym e)), r.distinct.0), (f.1, r.distinct.1));
}
