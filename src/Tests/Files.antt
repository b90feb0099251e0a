-- ===== src/Tests/Files.antt =====
-- Writing "ab" in two pieces, and waiting with an interruption, with src/util/iostuff.c.
use nowra.Base.{ℕ, ◌≡◌, refl, inr, some, List, [], ◌∷◌, arith, pos, negsuc, ok}
use nowra.Iostuff.{Turn, wrote, write_buf}
use nowra.Iostuff.Writing.{Writes, write_buf-all}

abbrev one_byte : Turn
one_byte = record { polls = []; wrote_bytes = wrote 1; now = 0 }

abbrev ab : List ℕ
ab = 97 ∷ 98 ∷ []

ab-written : Writes (one_byte ∷ one_byte ∷ []) 2
ab-written = inr (1, refl, omega arith, omega arith, inr (1, refl, omega arith, omega arith, refl))

write_buf_example : write_buf ab 2 (negsuc 0) 0 (one_byte ∷ one_byte ∷ []) ≡ some (ok (pos 2, ab))
write_buf_example = write_buf-all ab 0 0 (one_byte ∷ one_byte ∷ []) ab-written (omega arith)
