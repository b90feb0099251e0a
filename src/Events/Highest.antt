-- ===== src/Events/Highest.antt =====
-- `maxfd` of src/util/events.c is the highest registered descriptor: what the writes to the table of
-- registrations do to it.
use nowra.Base.{
  ℕ, zero, suc, ◌≤◌, ◌<◌, ◌≡◌, refl, Bool, true, false, not, ◌&&◌, List, arith, ltb, ◌==◌,
  if◌then◌else◌, Bool-cases, inl, inr, ℤ, pos, negsuc, eqb_ℤ, get_or, set, length, length-set,
  get_elem?-get_or, get_or-set,
}
use nowra.Events.{Mask, EventBase, is_none, mask_diff, blank, top_registered, raise_maxfd}

abbrev pub mask_at : List EventBase → ℕ → Mask
mask_at bases i = (get_or bases i blank).mask

unfoldable pub is_registered : List EventBase → ℕ → Bool
is_registered bases i = not (is_none (mask_at bases i))

-- `m` is the highest registered descriptor below `n`, -1 if there is none.
abbrev pub IsTop : ℕ → List EventBase → ℤ → Type 0
IsTop n bases (pos j) =
    (j < n)
    × (is_registered bases j ≡ true)
    × ((i : ℕ) → j < i → i < n → is_registered bases i ≡ false)
IsTop n bases (negsuc j) = (j ≡ 0) × ((i : ℕ) → i < n → is_registered bases i ≡ false)

pub mask_at-set :
    (bases : List EventBase) (fd i : ℕ) (eb : EventBase)
    → fd < length bases
    → mask_at (set bases fd eb) i ≡ (if fd == i then eb.mask else mask_at bases i)
mask_at-set bases fd i eb h = ground (arith, get_or-set bases fd i eb blank h)

is_registered-set :
    (bases : List EventBase) (fd i : ℕ) (eb : EventBase)
    → fd < length bases
    → is_registered (set bases fd eb) i
      ≡ (if fd == i then not (is_none eb.mask) else is_registered bases i)
unfolding is_registered
is_registered-set bases fd i eb h = ground (arith, get_or-set bases fd i eb blank h)

-- One more descriptor, which is not registered, changes nothing.
none_above :
    (n : ℕ) (bases : List EventBase) (i : ℕ)
    → is_registered bases n ≡ false
    → (i < n → is_registered bases i ≡ false)
    → i < suc n
    → is_registered bases i ≡ false
none_above n bases i e below q = elim (Bool-cases (i == n)) [
  | inl same ↦ let z : i ≡ n = ground arith in rw z e
  | inr other ↦ below (ground arith)
]

IsTop-suc :
    (n : ℕ) (bases : List EventBase) (m : ℤ)
    → IsTop n bases m
    → is_registered bases n ≡ false
    → IsTop (suc n) bases m
IsTop-suc n bases (pos j) (lt, reg, above) e =
    (omega arith, reg, λ i p q. none_above n bases i e (above i p) q)
IsTop-suc n bases (negsuc j) (z, above) e = (z, λ i q. none_above n bases i e (above i) q)

top_registered-suc :
    (n : ℕ) (bases : List EventBase)
    → n < length bases
    → top_registered (suc n) bases
      ≡ (if is_registered bases n then pos n else top_registered n bases)
unfolding top_registered is_registered
top_registered-suc n bases h = rw (get_elem?-get_or bases n blank h, top_registered) (ground arith)

pub registered_of :
    (bases : List EventBase) (i : ℕ)
    → is_none (get_or bases i blank).mask ≡ false
    → is_registered bases i ≡ true
unfolding is_registered
registered_of bases i h = rw h

pub diff_none : (m n : Mask) → is_none m ≡ true → m ≡ mask_diff m n
diff_none m n h = ground arith

top_registered-zero : (bases : List EventBase) → top_registered zero bases ≡ negsuc 0
unfolding top_registered
top_registered-zero bases = refl

top_registered-IsTop :
    (n : ℕ) (bases : List EventBase) → n ≤ length bases → IsTop n bases (top_registered n bases)
top_registered-IsTop zero bases h =
    rw (top_registered-zero bases) (refl, λ i q. absurd (omega arith))
top_registered-IsTop (suc n) bases h =
    let below = top_registered-IsTop n bases (omega arith) in
    rw (top_registered-suc n bases h) (elim (Bool-cases (is_registered bases n)) [
      | inl e ↦ rw e (omega arith, e, λ i p q. absurd (omega arith))
      | inr e ↦ rw e (IsTop-suc n bases _ below e)
    ])

-- A table whose descriptors from `fd` on are not registered.
IsTop-extend :
    (fd n : ℕ) (bases : List EventBase) (m : ℤ)
    → IsTop fd bases m
    → fd ≤ n
    → ((i : ℕ) → fd ≤ i → i < n → is_registered bases i ≡ false)
    → IsTop n bases m
IsTop-extend fd n bases (pos j) (lt, reg, above) le none_from = (
  omega arith,
  reg,
  λ i p q. elim (Bool-cases (ltb i fd)) [
    | inl low ↦ above i p (ground arith)
    | inr high ↦ none_from i (ground arith) q
  ],
)
IsTop-extend fd n bases (negsuc j) (z, above) le none_from = (
  z,
  λ i q. elim (Bool-cases (ltb i fd)) [
    | inl low ↦ above i (ground arith)
    | inr high ↦ none_from i (ground arith) q
  ],
)

module _ (n fd : ℕ) (bases : List EventBase) (eb : EventBase) (h : fd < n)
    (le : n ≤ length bases) where
  reg_at :
      (i : ℕ)
      → is_registered (set bases fd eb) i
        ≡ (if fd == i then not (is_none eb.mask) else is_registered bases i)
  reg_at i = is_registered-set bases fd i eb (omega arith)

  pub IsTop-raise :
      (m : ℤ)
      → IsTop n bases m
      → is_none eb.mask ≡ false
      → IsTop n (set bases fd eb) (raise_maxfd fd m)
  IsTop-raise (pos j) (lt, reg, above) e = elim (Bool-cases (ltb j fd)) [
    | inl up ↦ rw up (h, ground (arith, reg_at fd), λ i p q. ground (arith, reg_at i, above i))
    | inr stay ↦ rw stay (lt, ground (arith, reg_at j), λ i p q. ground (arith, reg_at i, above i))
  ]
  IsTop-raise (negsuc j) (z, above) e =
      (h, ground (arith, reg_at fd), λ i p q. ground (arith, reg_at i, above i))

  none_from :
      (j : ℕ)
      → ((i : ℕ) → j < i → i < n → is_registered bases i ≡ false)
      → (fd == j) ≡ true
      → is_none eb.mask ≡ true
      → (i : ℕ) → fd ≤ i
      → i < n
      → is_registered (set bases fd eb) i ≡ false
  none_from j above same gone i p q = ground (arith, reg_at i, above i)

  pub IsTop-lower :
      (m : ℤ)
      → IsTop n bases m
      → is_registered bases fd ≡ true
      → IsTop n
          (set bases fd eb)
          (if eqb_ℤ (pos fd) m && is_none eb.mask then top_registered fd (set bases fd eb) else m)
  IsTop-lower (pos j) (lt, reg, above) e = elim (Bool-cases (fd == j)) [
    | inl same ↦ elim (Bool-cases (is_none eb.mask)) [
      | inl gone ↦
          rw (same, gone)
            (IsTop-extend fd n (set bases fd eb) _
              (top_registered-IsTop fd (set bases fd eb) (rw length-set (omega arith)))
              (omega arith) (none_from j above same gone))
      | inr kept ↦
          rw (same, kept) (lt, ground (arith, reg_at j), λ i p q. ground (arith, reg_at i, above i))
    ]
    | inr other ↦
        rw other
          (lt, ground (arith, reg_at j), λ i p q. ground (arith, reg_at i, above i, above fd))
  ]
  IsTop-lower (negsuc j) (z, above) e = absurd (ground (arith, above fd))
