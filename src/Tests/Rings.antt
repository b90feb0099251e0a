-- ===== src/Tests/Rings.antt =====
-- A ring of src/util/ring.c with its head at address 1, to which the entries 5 and 7 are added.
use nowra.Base.{◌≡◌, refl, [], ◌∷◌}
use nowra.Ring.{Links, ring_init, ring_append, ring_prepend, ring_detach}
use nowra.Ring.Insert.{IsRing, ring_init-IsRing, ring_prepend-IsRing, ring_append-IsRing}

abbrev memory : Links
memory = record { succ = λ j. 0; pred = λ j. 0 }

one_entry : IsRing (ring_prepend 1 5 (ring_init 1 memory)) 1 (5 ∷ [])
one_entry =
    ring_prepend-IsRing (ring_init 1 memory) 1 5 [] (ring_init-IsRing 1 memory) ((λ e. cc), tt)

ring_prepend_example :
    IsRing (ring_prepend 1 7 (ring_prepend 1 5 (ring_init 1 memory))) 1 (5 ∷ 7 ∷ [])
ring_prepend_example =
    ring_prepend-IsRing (ring_prepend 1 5 (ring_init 1 memory)) 1 7 (5 ∷ []) one_entry
      ((λ e. cc), ((λ e. cc), tt))

-- The entry 9 put first, and then detached again.
first_of_three : (ring_append 1 9 (ring_prepend 1 5 (ring_init 1 memory))).succ 1 ≡ 9
unfolding ring_append ring_prepend ring_init
first_of_three = refl

first_again : (ring_detach 9 (ring_append 1 9 (ring_prepend 1 5 (ring_init 1 memory)))).succ 1 ≡ 5
unfolding ring_append ring_prepend ring_init ring_detach
first_again = refl

ring_append_example :
    IsRing (ring_append 1 9 (ring_prepend 1 5 (ring_init 1 memory))) 1 (9 ∷ 5 ∷ [])
ring_append_example =
    ring_append-IsRing (ring_prepend 1 5 (ring_init 1 memory)) 1 9 (5 ∷ []) one_entry
      ((λ e. cc), ((λ e. cc), tt))
