-- ===== src/Ring.antt =====
-- The circular lists of src/util/ring.c on the memory that they are linked in: an entry is an address,
-- and the memory has a `succ` and a `pred` for each. The writes are in the order of the source.
pub mod Insert
use nowra.Base.{ℕ, Bool, List, [], ◌∷◌, ◌==◌, if◌then◌else◌}

-- `RING`, at every address
pub record Links : Type 0 where
  pub succ : ℕ → ℕ
  pub pred : ℕ → ℕ

-- `f` with the value at `i` written
abbrev pub write_at : (ℕ → ℕ) → ℕ → ℕ → ℕ → ℕ
write_at f i v j = if i == j then v else f j

abbrev pub set_succ : ℕ → ℕ → Links → Links
set_succ i v m = record m { succ = write_at m.succ i v }

abbrev pub set_pred : ℕ → ℕ → Links → Links
set_pred i v m = record m { pred = write_at m.pred i v }

-- `ring_init`
unfoldable pub ring_init : ℕ → Links → Links
ring_init ring m = set_pred ring ring (set_succ ring ring m)

-- `ring_append`
unfoldable pub ring_append : (ring entry : ℕ) → Links → Links
ring_append ring entry m =
    let m1 = set_succ entry (m.succ ring) m in
    let m2 = set_pred entry ring m1 in
    let m3 = set_pred (m2.succ ring) entry m2 in set_succ ring entry m3

-- `ring_prepend`
unfoldable pub ring_prepend : (ring entry : ℕ) → Links → Links
ring_prepend ring entry m =
    let m1 = set_pred entry (m.pred ring) m in
    let m2 = set_succ entry ring m1 in
    let m3 = set_succ (m2.pred ring) entry m2 in set_pred ring entry m3

-- `ring_detach`
unfoldable pub ring_detach : ℕ → Links → Links
ring_detach entry m =
    let succ = m.succ entry in
    let pred = m.pred entry in
    let m1 = set_succ pred succ m in
    let m2 = set_pred succ pred m1 in set_succ entry 0 (set_pred entry 0 m2)
