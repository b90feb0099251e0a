-- ===== src/Master/Entry/Fields.antt =====
-- The fields of an entry of src/master/master_ent.c, as the tokens of the line.
use nowra.Base.{
  ℕ, ◌<◌, ◌≡◌, ◌≢◌, refl, sym, ap, ◌∙◌, inl, inr, false, none, some, List, [], ◌∷◌, if◌then◌else◌,
  pos, length, ok, Bool-cases,
}
use nowra.Argv.{mystrtok}
use nowra.Argv.Tokens.{tokens, mystrtok-tokens}
use nowra.Master.Fields.{
  Conf, same_text, dash, master_blanks, str_value, get_str_ent, get_int_ent, int_value, atoi,
}

some_text : (a b : List ℕ) → some a ≡ some b → a ≡ b
some_text a b e = cc

cons_parts : (a b : List ℕ) (s t : List (List ℕ)) → a ∷ s ≡ b ∷ t → (a ≡ b) × (s ≡ t)
cons_parts a b s t e = (cc, cc)

nil_cons : (a : List ℕ) (s : List (List ℕ)) → a ∷ s ≢ []
nil_cons a s e = cc

-- What `mystrtok` returns for a line whose tokens are known.
pub mystrtok-next :
    (s sep t : List ℕ) (ts : List (List ℕ))
    → tokens sep s ≡ t ∷ ts
    → (rest : List ℕ) × (mystrtok s sep ≡ (some t, rest))
      × (tokens sep rest ≡ ts)
      × (length rest < length s)
mystrtok-next s sep t ts e = elim (mystrtok-tokens s sep) [
  | inl (none_found, empty) ↦ absurd (nil_cons t ts (sym e ∙ empty))
  | inr (u, found, all, less) ↦
      let (same, others) = cons_parts u t (tokens sep (mystrtok s sep).1) ts (sym all ∙ e) in
      ((mystrtok s sep).1, ap (λ o. (o, (mystrtok s sep).1)) (found ∙ ap some same), others, less)
]

pub mystrtok_end : (s sep : List ℕ) → tokens sep s ≡ [] → (mystrtok s sep).0 ≡ none
mystrtok_end s sep e = elim (mystrtok-tokens s sep) [
  | inl (none_found, empty) ↦ none_found
  | inr (u, found, all, less) ↦ absurd (nil_cons u (tokens sep (mystrtok s sep).1) (sym all ∙ e))
]

-- A field with a default value, which "-" stands for.
abbrev pub field_value : (def_val t : List ℕ) → List ℕ
field_value def_val t = if same_text t dash then def_val else t

pub get_str_ent-next :
    (conf : Conf) (s t : List ℕ) (ts : List (List ℕ))
    → tokens master_blanks s ≡ t ∷ ts
    → same_text t dash ≡ false
    → (rest : List ℕ) × (get_str_ent conf s none ≡ ok (t, rest))
      × (tokens master_blanks rest ≡ ts)
      × (length rest < length s)
unfolding get_str_ent str_value
get_str_ent-next conf s t ts e h =
    let (rest, run, others, less) = mystrtok-next s master_blanks t ts e in
    (rest, ap (str_value conf none) run ∙ rw h refl, others, less)

str_value-default :
    (conf : Conf) (def_val t rest : List ℕ)
    → str_value conf (some def_val) (some t, rest) ≡ ok (field_value def_val t, rest)
unfolding str_value
str_value-default conf def_val t rest = elim (Bool-cases (same_text t dash)) [
  | inl h ↦ rw h refl
  | inr h ↦ rw h refl
]

pub get_int_ent-next :
    (conf : Conf) (s def_val t : List ℕ) (ts : List (List ℕ)) (n : ℕ)
    → tokens master_blanks s ≡ t ∷ ts
    → atoi (field_value def_val t) ≡ pos n
    → (rest : List ℕ) × (get_int_ent conf s (some def_val) ≡ ok (n, rest))
      × (tokens master_blanks rest ≡ ts)
      × (length rest < length s)
unfolding get_int_ent get_str_ent int_value
get_int_ent-next conf s def_val t ts n e h =
    let (rest, run, others, less) = mystrtok-next s master_blanks t ts e in
    let got = ap (str_value conf (some def_val)) run ∙ str_value-default conf def_val t rest in
    (rest, rw (got, get_int_ent) (ap (λ z. int_value conf z rest) h), others, less)
