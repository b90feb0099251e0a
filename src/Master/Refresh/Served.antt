-- ===== src/Master/Refresh/Served.antt =====
-- The loop of `master_config` of src/master/master_conf.c: every entry gets a service, and no service is lost.
use nowra.Base.{
  ℕ, ◌≡◌, refl, sym, ap, subst, ◌∙◌, false, ◌⊎◌, inl, inr, Option, none, some, List, [], ◌∷◌, ◌==◌,
  ==_refl, arith, All, All-mono, undefined, Ensures, Ensures-ok, Ensures-abort, Ensures-then,
  Bool-cases,
}
use nowra.Events.Kernel.{Epoll}
use nowra.Master.Table.{ChildTable}
use nowra.Master.{Serv, World, put_serv}
use nowra.Master.Fields.{Settings, Conf}
use nowra.Master.Service.{
  Given, names_of, find_service, updated, Services, enter_service, config_entry, config_turn,
  config_loop, master_start_service, master_restart_service,
}
use nowra.Master.Service.Idents.{Ident, ident, idents, Kept, start-Keeps, restart-Keeps}
use nowra.Master.Service.Names.{NotIn, Distinct, IsUnique, After, enter_service-After, after_fresh}
use nowra.Master.Entry.Fresh.{get_master_ent-IsNew}
use nowra.Master.Refresh.Entries.{Reads, stop, more, find_service-names, find_service-cases}

-- A service of the name and type is on the list, without mark.
abbrev pub IsServed : List ℕ × ℕ → (ℕ → Ident) → List ℕ → Type 0
IsServed n f [] = ⊥
IsServed n f (s ∷ head) = (f s ≡ (n.0, n.1, false)) ⊎ IsServed n f head

-- What holds of the services on the list goes over.
IsServed-map :
    (n : List ℕ × ℕ) (f g : ℕ → Ident) (head : List ℕ)
    → All (λ s. f s ≡ (n.0, n.1, false) → g s ≡ (n.0, n.1, false)) head
    → IsServed n f head
    → IsServed n g head
IsServed-map n f g [] h never = never
IsServed-map n f g (s ∷ head) h (inl here) = inl (h.0 here)
IsServed-map n f g (s ∷ head) h (inr there) = inr (IsServed-map n f g head h.1 there)

-- The service that is found is on the list.
find_service-IsServed :
    (n : List ℕ × ℕ) (head : List ℕ) (names : ℕ → List ℕ × ℕ) (s : ℕ) (f : ℕ → Ident)
    → f s ≡ (n.0, n.1, false)
    → find_service n head names ≡ some s
    → IsServed n f head
unfolding find_service
find_service-IsServed (name, type) [] names s f e h = absurd cc
find_service-IsServed n (r ∷ head) names s f e h = elim (find_service-cases n r head names s h) [
  | inl (here, named) ↦ inl (ap f here ∙ e)
  | inr later ↦ inr (find_service-IsServed n head names s f e later)
]

everywhere : {P : ℕ → Type 0} → (head : List ℕ) → ((s : ℕ) → P s) → All P head
everywhere [] h = tt
everywhere (s ∷ head) h = (h s, everywhere head h)

-- The name and the type, without mark.
abbrev unmarked : List ℕ × ℕ → Ident
unmarked n = (n.0, n.1, false)

module _ (ep : Epoll) (ct : ChildTable) where
  abbrev Master : Type 0
  Master = World ep ct

  abbrev pub Serves : List ℕ × ℕ → Services ep ct → Type 0
  Serves n st = IsServed n (idents ep ct st.world) st.head

  pub Kept-IsServed :
      (n : List ℕ × ℕ) (head : List ℕ) (w w' : Master)
      → Kept ep ct w w'
      → IsServed n (idents ep ct w) head
      → IsServed n (idents ep ct w') head
  Kept-IsServed n head w w' kept = subst (λ f. IsServed n f head) (sym kept)

  -- What an entry does: its service is there, and no other one is lost.
  abbrev Entered : Serv → Services ep ct → Services ep ct → Type 0
  Entered entry st st' =
      Serves (entry.name, entry.type) st' × ((n : List ℕ × ℕ) → Serves n st → Serves n st')

  -- A write elsewhere.
  put_serv-IsServed :
      (n : List ℕ × ℕ) (head : List ℕ) (a : ℕ) (v : Serv) (w : Master)
      → NotIn head a
      → IsServed n (idents ep ct w) head
      → IsServed n (idents ep ct (put_serv ep ct a v w)) head
  put_serv-IsServed n head a v w fresh =
      IsServed-map n _ _ head (All-mono _ _ head (λ s other here. rw other here) fresh)

  -- The found service keeps its name and type, and has no mark.
  updated-IsServed :
      (n : List ℕ × ℕ) (head : List ℕ) (s : ℕ) (entry : Serv) (w : Master)
      → IsServed n (idents ep ct w) head
      → IsServed n (idents ep ct (put_serv ep ct s (updated entry (w.servs s)) w)) head
  unfolding updated
  updated-IsServed n head s entry w = IsServed-map n _ _ head (
      everywhere head (λ r before. elim (Bool-cases (s == r)) [
        | inl same ↦
            let here : s ≡ r = ground arith in
            let named : ident (w.servs s) ≡ unmarked n =
              ap (λ r. ident (w.servs r)) here ∙ before in
            rw same (ap (λ (i : Ident). unmarked (i.0, i.1)) named)
        | inr other ↦ rw other before
      ]))

  enter_service-Entered :
      (given : Given) (entry : Serv) (found : Option ℕ) (st : Services ep ct)
      → find_service (entry.name, entry.type) st.head (names_of st.world.servs) ≡ found
      → entry.flags.mark ≡ false
      → NotIn st.head given.address
      → Ensures (Entered entry st) (enter_service ep ct given entry found st)
  unfolding enter_service updated
  enter_service-Entered given entry none st e new fresh =
      let w = put_serv ep ct given.address entry st.world in
      Ensures-then (Entered entry st) (Kept ep ct w)
        (master_start_service ep ct given given.address w) _
        (start-Keeps ep ct given given.address w)
        (λ w' kept. Ensures-ok (Entered entry st) _ (
          Kept-IsServed _ (given.address ∷ st.head) w w' kept (inl (rw ==_refl (rw new refl))),
          λ n before.
              Kept-IsServed n (given.address ∷ st.head) w w' kept
                (inr (put_serv-IsServed n st.head given.address entry st.world fresh before)),
        ))
  enter_service-Entered given entry (some s) st e new fresh =
      let w = put_serv ep ct s (updated entry (st.world.servs s)) st.world in
      Ensures-then (Entered entry st) (Kept ep ct w) (master_restart_service ep ct given s w) _
        (restart-Keeps ep ct given s w)
        (λ w' kept. Ensures-ok (Entered entry st) _ (
          Kept-IsServed _ st.head w w' kept (
              find_service-IsServed _ st.head (names_of st.world.servs) s _
                (rw ==_refl
                  (ap unmarked (find_service-names _ st.head (names_of st.world.servs) s e)))
                e),
          λ n before.
              Kept-IsServed n st.head w w' kept
                (updated-IsServed n st.head s entry st.world before),
        ))

  -- The entries that were read are served, and no service is lost.
  abbrev pub Enters : List Serv → Services ep ct → Services ep ct → Type 0
  Enters es st st' =
      All (λ (e : Serv). Serves (e.name, e.type) st') es
      × ((n : List ℕ × ℕ) → Serves n st → Serves n st')

  pub config_loop-Enters :
      (set : Settings) (given : List Given) (conf : Conf) (es : List Serv) (st : Services ep ct)
      → Reads set conf es
      → IsUnique ep ct st
      → All (λ g. NotIn st.head g.address) given
      → Distinct given
      → Ensures (Enters es st) (config_loop ep ct set given conf st)
  unfolding config_loop config_turn config_entry
  config_loop-Enters set [] conf es st reads u fresh d = Ensures-abort (Enters es st) undefined
  config_loop-Enters set (given ∷ others) conf [] st (stop end) u fresh d =
      rw end (Ensures-ok (Enters [] st) st (tt, λ n before. before))
  config_loop-Enters set (given ∷ others) conf (e ∷ es) st (more this reads) u fresh d = rw this (
      Ensures-then (Enters (e ∷ es) st) (λ st1. Entered e st st1 × After ep ct given st st1)
        (config_entry ep ct given e st) _
        (λ st1 run. (
          enter_service-Entered given e _ st refl ((get_master_ent-IsNew set conf _ e this).calm).1
              fresh.0 st1 run,
          enter_service-After ep ct given e _ st refl fresh.0 u st1 run,
        ))
        (λ st1 ((here, kept), (u1, grown)) st' run.
          let (all, kept') =
            config_loop-Enters set others _ es st1 reads u1
              (after_fresh ep ct given others st st1 fresh.1 d.0 grown) d.1 st' run in
          ((kept' (e.name, e.type) here, all), λ n before. kept' n (kept n before))))
