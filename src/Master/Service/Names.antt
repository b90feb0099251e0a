-- ===== src/Master/Service/Names.antt =====
-- `master_config` of src/master/master_conf.c: no two services on the list have the same name and type.
use nowra.Base.{
  ◌≢◌, ◌&&◌, true, if_taken, if_passed, Bool-cases, ℕ, ◌≡◌, refl, sym, subst, ◌∙◌, inl, inr, false,
  Option, none, some, List, [], ◌∷◌, ◌==◌, Outcome, ok, undefined, ◌⊎◌, All, ==_refl, Ensures,
  Ensures-ok, Ensures-abort, Ensures-bind, Ensures-then,
}
use nowra.Events.Kernel.{Epoll}
use nowra.Master.Table.{ChildTable}
use nowra.Master.{Serv, update, put_serv}
use nowra.Master.Keeps.{update-view}
use nowra.Master.Fields.{Settings, Conf, same_text}
use nowra.Master.Service.Same.{same_text_refl}
use nowra.Master.Entry.{get_master_ent}
use nowra.Master.Service.Idents.{Kept, same_names, start-Keeps, restart-Keeps}
use nowra.Master.Service.{
  Given, master_start_service, master_restart_service, names_of, find_service, updated, Services,
  enter_service, config_entry, config_turn, config_loop,
}

-- No two services on the list have the same name and type.
abbrev pub Unique : List ℕ → (ℕ → List ℕ × ℕ) → Type 0
Unique [] names = Unit
Unique (s ∷ head) names = All (λ r. names r ≢ names s) head × Unique head names

-- A write that keeps the name and the type.
names-update :
    (servs : ℕ → Serv) (s : ℕ) (v : Serv)
    → (v.name, v.type) ≡ names_of servs s
    → names_of (update servs s v) ≡ names_of servs
names-update servs s v e = update-view (λ v. (v.name, v.type)) servs s v e

-- An address that no service on the list has.
abbrev pub NotIn : List ℕ → ℕ → Type 0
NotIn head a = All (λ s. (a == s) ≡ false) head

abbrev pub Distinct : List Given → Type 0
Distinct [] = Unit
Distinct (g ∷ more) = All (λ g'. (g'.address == g.address) ≡ false) more × Distinct more

All-zip :
    (head : List ℕ) (a : ℕ) (more : List Given)
    → All (λ g. (g.address == a) ≡ false) more
    → All (λ g. NotIn head g.address) more
    → All (λ g. NotIn (a ∷ head) g.address) more
All-zip head a [] h k = tt
All-zip head a (g ∷ more) h k = ((h.0, k.0), All-zip head a more h.1 k.1)

-- What was not found is not on the list.
absent :
    (n : List ℕ × ℕ) (head : List ℕ) (names : ℕ → List ℕ × ℕ)
    → find_service n head names ≡ none
    → All (λ r. names r ≢ n) head
unfolding find_service
absent (name, type) [] names h = tt
absent (name, type) (r ∷ head) names h =
    elim (Bool-cases (same_text (names r).0 name && ((names r).1 == type))) [
      | inl same ↦ let found : some r ≡ none = if_taken _ _ _ same h in absurd (cc)
      | inr other ↦ (
        (λ equal.
            let found : same_text (names r).0 name && ((names r).1 == type) ≡ true =
              rw equal (rw (same_text_refl name, ==_refl) refl) in
            absurd (cc)),
        absent (name, type) head names (if_passed _ _ _ other h),
      )
    ]

-- A new structure is not seen from the list.
All-update :
    (P : List ℕ × ℕ → Type 0) (head : List ℕ) (servs : ℕ → Serv) (a : ℕ) (v : Serv)
    → NotIn head a
    → All (λ r. P (names_of servs r)) head
    → All (λ r. P (names_of (update servs a v) r)) head
All-update P [] servs a v h k = tt
All-update P (s ∷ head) servs a v h k = (rw h.0 k.0, All-update P head servs a v h.1 k.1)

Unique-update :
    (head : List ℕ) (servs : ℕ → Serv) (a : ℕ) (v : Serv)
    → NotIn head a
    → Unique head (names_of servs)
    → Unique head (names_of (update servs a v))
Unique-update [] servs a v h u = tt
Unique-update (s ∷ head) servs a v h u = (
  rw h.0 (All-update (λ n. n ≢ names_of servs s) head servs a v h.1 u.0),
  Unique-update head servs a v h.1 u.1,
)

module _ (ep : Epoll) (ct : ChildTable) where
  abbrev pub IsUnique : Services ep ct → Type 0
  IsUnique st = Unique st.head (names_of st.world.servs)

  -- The services that are on the list after an entry, and at most one more.
  abbrev pub After : Given → Services ep ct → Services ep ct → Type 0
  After given st st' = IsUnique st' × ((st'.head ≡ st.head) ⊎ (st'.head ≡ given.address ∷ st.head))

  pub enter_service-After :
      (given : Given) (entry : Serv) (found : Option ℕ) (st : Services ep ct)
      → find_service (entry.name, entry.type) st.head (names_of st.world.servs) ≡ found
      → NotIn st.head given.address
      → IsUnique st
      → Ensures (After given st) (enter_service ep ct given entry found st)
  unfolding enter_service updated
  enter_service-After given entry none st e fresh u =
      let w = put_serv ep ct given.address entry st.world in
      Ensures-then (After given st) (Kept ep ct w)
        (master_start_service ep ct given given.address w) _
        (start-Keeps ep ct given given.address w)
        (λ w' same. Ensures-ok (After given st) _ (
          subst (Unique (given.address ∷ st.head)) (sym (same_names ep ct w w' same)) (
            rw ==_refl (
                All-update (λ n. n ≢ (entry.name, entry.type)) st.head st.world.servs given.address
                  entry fresh
                  (absent (entry.name, entry.type) st.head (names_of st.world.servs) e)),
            Unique-update st.head st.world.servs given.address entry fresh u,
          ),
          inr refl,
        ))
  enter_service-After given entry (some s) st e fresh u =
      let w = put_serv ep ct s (updated entry (st.world.servs s)) st.world in
      Ensures-then (After given st) (Kept ep ct w) (master_restart_service ep ct given s w) _
        (restart-Keeps ep ct given s w)
        (λ w' same. Ensures-ok (After given st) _ (
          subst (Unique st.head)
              (sym (
                same_names ep ct w w' same
                ∙ names-update st.world.servs s (updated entry (st.world.servs s)) refl))
              u,
          inl refl,
        ))

  -- The addresses that are given for later entries are not on the list after this one.
  pub after_fresh :
      (given : Given) (more : List Given) (st st' : Services ep ct)
      → All (λ g. NotIn st.head g.address) more
      → All (λ g. (g.address == given.address) ≡ false) more
      → (st'.head ≡ st.head) ⊎ (st'.head ≡ given.address ∷ st.head)
      → All (λ g. NotIn st'.head g.address) more
  after_fresh given more st st' others apart (inl kept) =
      subst (λ head. All (λ g. NotIn head g.address) more) (sym kept) others
  after_fresh given more st st' others apart (inr longer) =
      subst (λ head. All (λ g. NotIn head g.address) more) (sym longer)
        (All-zip st.head given.address more apart others)

  config_turn-IsUnique :
      (rest : Conf → Services ep ct → Outcome (Services ep ct)) (given : Given) (more : List Given)
      (st : Services ep ct) (read : Option Serv × Conf)
      → IsUnique st
      → NotIn st.head given.address
      → All (λ g. NotIn st.head g.address) more
      → All (λ g. (g.address == given.address) ≡ false) more
      → ((conf : Conf) (st' : Services ep ct)
          → IsUnique st'
          → All (λ g. NotIn st'.head g.address) more
          → Ensures IsUnique (rest conf st'))
      → Ensures IsUnique (config_turn ep ct rest given st read)
  unfolding config_turn config_entry
  config_turn-IsUnique rest given more st (none, conf) u fresh others apart k =
      Ensures-ok IsUnique st u
  config_turn-IsUnique rest given more st (some entry, conf) u fresh others apart k =
      Ensures-then IsUnique (After given st) (config_entry ep ct given entry st) _
        (enter_service-After given entry _ st refl fresh u)
        (λ st' (u', grown). k conf st' u' (after_fresh given more st st' others apart grown))

  config_loop-Ensures :
      (set : Settings) (given : List Given) (conf : Conf) (st : Services ep ct)
      → IsUnique st
      → All (λ g. NotIn st.head g.address) given
      → Distinct given
      → Ensures IsUnique (config_loop ep ct set given conf st)
  unfolding config_loop
  config_loop-Ensures set [] conf st u fresh d = Ensures-abort IsUnique undefined
  config_loop-Ensures set (given ∷ more) conf st u fresh d =
      Ensures-bind IsUnique (get_master_ent set conf) _ (λ read.
        config_turn-IsUnique (config_loop ep ct set more) given more st read u fresh.0 fresh.1 d.0
          (λ conf' st' u' fresh'. config_loop-Ensures set more conf' st' u' fresh' d.1))

  -- If no two services on the list have the same name and type, and the structures of new entries get addresses that
  -- are not on the list and differ, the same holds of whatever list the loop of `master_config` returns with.
  pub config_loop-IsUnique :
      (set : Settings) (given : List Given) (conf : Conf) (st st' : Services ep ct)
      → IsUnique st
      → All (λ g. NotIn st.head g.address) given
      → Distinct given
      → config_loop ep ct set given conf st ≡ ok st'
      → IsUnique st'
  config_loop-IsUnique set given conf st st' u fresh d run =
      config_loop-Ensures set given conf st u fresh d st' run
