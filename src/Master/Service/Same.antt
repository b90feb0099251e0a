-- ===== src/Master/Service/Same.antt =====
-- `strcmp` in src/master/master_conf.c, by which a service is found: it finds a string equal to itself.
use nowra.Base.{ℕ, ◌≡◌, refl, true, List, [], ◌∷◌, ==_refl}
use nowra.Master.Fields.{same_text}

pub same_text_refl : (s : List ℕ) → same_text s s ≡ true
unfolding same_text
same_text_refl [] = refl
same_text_refl (c ∷ s) = rw (==_refl, same_text_refl s) refl
